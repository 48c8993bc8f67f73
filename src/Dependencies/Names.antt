-- ===== src/Dependencies/Names.antt =====
-- utils/deploys/dependencies.ts: the names of what a deployment depends on.
use index.Base.{List, [], ◌∷◌}
use index.Base.Text.{Text, codes}

abbrev pub token_names : List Text
token_names =
    codes "AAVE"
    ∷ codes "SNX"
    ∷ codes "LEND"
    ∷ codes "COMP"
    ∷ codes "MKR"
    ∷ codes "REN"
    ∷ codes "KNC"
    ∷ codes "LRC"
    ∷ codes "BAL"
    ∷ codes "YFI"
    ∷ codes "REP"
    ∷ codes "DAI"
    ∷ codes "UNI"
    ∷ codes "WBTC"
    ∷ codes "WETH"
    ∷ []

abbrev pub protocol_names : List Text
protocol_names =
    codes "AAVE_LENDING_POOL_ADDRESSES_PROVIDER"
    ∷ codes "AAVE_PROTOCOL_DATA_PROVIDER"
    ∷ codes "UNISWAP_FACTORY"
    ∷ codes "UNISWAP_ROUTER"
    ∷ codes "WETH_DAI_UNI_PAIR"
    ∷ codes "WETH_DAI_UNI_STAKING_REWARD"
    ∷ codes "WETH_WBTC_UNI_PAIR"
    ∷ codes "WETH_WBTC_UNI_STAKING_REWARD"
    ∷ codes "SUSHISWAP_ROUTER"
    ∷ codes "BALANCER_EXCHANGE_PROXY"
    ∷ []

abbrev pub oracle_names : List Text
oracle_names = codes "ETH_ORACLE_PROXY" ∷ codes "DAI_ORACLE_PROXY" ∷ codes "BTC_ORACLE_PROXY" ∷ []

abbrev pub governance_names : List Text
governance_names =
    codes "AAVE_PROTO_GOVERNANCE" ∷ codes "UNI_GOVERNOR_ALPHA" ∷ codes "COMP_GOVERNOR_ALPHA" ∷ []

abbrev pub admin_names : List Text
admin_names =
    codes "MULTI_SIG_OWNER"
    ∷ codes "ONE_INCH_SPENDER_ADDRESS"
    ∷ codes "ONE_INCH_EXCHANGE_ADDRESS"
    ∷ codes "AAVE_MIGRATION_PROXY"
    ∷ []

abbrev pub system_names : List Text
system_names =
    codes "Controller"
    ∷ codes "BasicIssuanceModule"
    ∷ codes "NavIssuanceModule"
    ∷ codes "SetTokenCreator"
    ∷ []
