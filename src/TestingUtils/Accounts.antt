-- ===== src/TestingUtils/Accounts.antt =====
-- utils/test/accountUtils.ts and the amounts of utils/test/testingUtils.ts: the accounts of a node, the tokens of
-- the main network with their largest holders, and positions as amounts of a whole supply.
use index.Base.{ℕ, ◌-◌, List, [], ◌∷◌, Option, get_or, get_elem?, length}
use index.Base.Int.{ℤ, pos}
use index.Base.Text.{Text}
use index.BigNumber.{BigNumber}
use index.Chain.{
  Script, give, ◌>>=◌, ◌>>◌, request, list_accounts, read_number, send_rpc, transact, Contract,
  attach, lift, address,
}
use index.Dependencies.{
  main_address, dai_whale, weth_whale, wbtc_whale, usdc_whale, steth_whale, reth_whale,
}
use index.Deploys.{DeployHelper}
use index.Deploys.MockTokens.{deploy_force_funder_mock}
use index.Base.Text.{codes}
use index.Units.{ether}

-- An account is its address, of which the wallet is made.
unfoldable pub get_accounts : Script (List Text)
get_accounts = request list_accounts

unfoldable pub get_random_account : Script (Option Text)
get_random_account = do accounts ← get_accounts; give (get_elem? accounts (length accounts - 1))

pub record ForkedDependencies : Type 0 where
  pub whales : List Text
  pub tokens : List Text

abbrev pub get_forked_dependency_addresses : ForkedDependencies
get_forked_dependency_addresses = record {
  whales = dai_whale ∷ weth_whale ∷ wbtc_whale ∷ usdc_whale ∷ steth_whale ∷ reth_whale ∷ [];
  tokens =
      main_address (codes "DAI")
      ∷ main_address (codes "WETH")
      ∷ main_address (codes "WBTC")
      ∷ main_address (codes "USDC")
      ∷ main_address (codes "STETH")
      ∷ main_address (codes "RETH")
      ∷ [];
}

-- The token at a place of the lists, connected to the holder at the same place.
abbrev forked_token : ℕ → Contract
forked_token id =
    let addresses = get_forked_dependency_addresses in
    attach (get_or (get_elem? addresses.whales id) []) (get_or (get_elem? addresses.tokens id) [])

abbrev pub get_forked_tokens : List (Text × Contract)
get_forked_tokens =
    (codes "dai", forked_token 0)
    ∷ (codes "weth", forked_token 1)
    ∷ (codes "wbtc", forked_token 2)
    ∷ (codes "usdc", forked_token 3)
    ∷ (codes "steth", forked_token 4)
    ∷ (codes "reth", forked_token 5)
    ∷ []

-- Each holder is impersonated, and given ether for gas.
abbrev pub fund_whales : DeployHelper → List Text → Script Unit
fund_whales deployer [] = give tt
fund_whales deployer (whale ∷ whales) = do
  request (send_rpc "hardhat_impersonateAccount" (address whale ∷ []))
  funder ← deploy_force_funder_mock deployer.mocks
  request (transact funder.signer funder.at "fund" (ether 100) (address whale ∷ []))
  fund_whales deployer whales

unfoldable pub initialize_forked_tokens : DeployHelper → Script Unit
initialize_forked_tokens deployer = fund_whales deployer get_forked_dependency_addresses.whales

unfoldable pub impersonate_account : Text → Script Text
impersonate_account account = do
  request (send_rpc "hardhat_impersonateAccount" (address account ∷ []))
  give account

module _ ⦃bn : BigNumber⦄ where
  open bn use {mul, div, pow}

  unfoldable pub convert_notional_to_position : ℤ → Contract → Script ℤ
  convert_notional_to_position notional_amount set_token = do
    supply ← request (read_number set_token.at "totalSupply" [])
    lift (div (mul notional_amount (pow (pos 10) 18)) supply)

  unfoldable pub convert_position_to_notional : ℤ → Contract → Script ℤ
  convert_position_to_notional position_amount set_token = do
    supply ← request (read_number set_token.at "totalSupply" [])
    lift (div (mul position_amount supply) (pow (pos 10) 18))
