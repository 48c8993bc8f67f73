-- ===== src/Tasks/Config.antt =====
-- hardhat.config.ts and utils/wallets.ts: the configuration that an environment gives.
use index.Base.{
  ℕ, Bool, true, false, not, ◌&&◌, ◌||◌, if◌then◌else◌, List, [], ◌∷◌, ◌++◌, map, Option, none,
  some, get_or,
}
use index.Base.Text.{Text, codes, eqb}

-- The variables of the environment that are read.
pub record Environment : Type 0 where
  pub fork : Option Text
  pub alchemy_token : Option Text
  pub infura_token : Option Text
  pub kovan_deploy_private_key : Option Text
  pub staging_mainnet_deploy_private_key : Option Text
  pub production_mainnet_deploy_private_key : Option Text

-- Whether a string is there and not empty.
abbrev pub is_truthy : Option Text → Bool
is_truthy none = false
is_truthy (some []) = false
is_truthy (some (c ∷ text)) = true

-- A variable within a string.
abbrev shown : Option Text → Text
shown variable = get_or variable (codes "undefined")

abbrev pub private_keys : List Text
private_keys = map codes (
    "0xf2f48ee19680706196e2e339e5da3491186e0c4c5030670656b0e0164837257d"
    ∷ "0x5d862464fe9303452126c8bc94274b8c5f9874cbd219789b3eb2128075a76f72"
    ∷ "0xdf02719c4df8b9b8ac7f551fcb5d9ef48fa27eef7a66453879f4d8fdc6e78fb1"
    ∷ "0xff12e391b79415e941a94de3bf3a9aee577aed0731e297d5cfa0b8a1e02fa1d0"
    ∷ "0x752dd9cf65e68cfaba7d60225cbdbc1f4729dd5e5507def72815ed0d8abc6249"
    ∷ "0xefb595a0178eb79a8df953f87c5148402a224cdf725e88c0146727c6aceadccd"
    ∷ "0x83c6d2cc5ddcf9711a6d59b417dc20eb48afd58d45290099e5987e3d768f328f"
    ∷ "0xbb2d3f7c9583780a7d3904a2f55d792707c345f21de1bacb2d389934d82796b2"
    ∷ "0xb2fd4d29c1390b71b8795ae81196bfd60293adf99f9d32a0aff06288fcdac55f" ∷ [])

-- One wallet for each key, with what makes a wallet of a key and a provider.
abbrev pub generated_wallets :
    {Provider Wallet : Type 0} → (Text → Provider → Wallet) → Provider → List Wallet
generated_wallets new_wallet provider = map (λ key. new_wallet key provider) private_keys

pub record ForkingConfig : Type 0 where
  pub url : Text
  pub block_number : ℕ

abbrev pub forking_config : Environment → ForkingConfig
forking_config env = record {
  url = codes "https://eth-mainnet.alchemyapi.io/v2/" ++ shown env.alchemy_token;
  block_number = 16_889_000;
}

pub record MochaConfig : Type 0 where
  pub grep : Text
  pub invert : Bool
  pub timeout : ℕ

abbrev pub mocha_config : Environment → MochaConfig
mocha_config env = record {
  grep = codes "@forked-mainnet";
  invert = if is_truthy env.fork then false else true;
  timeout = if is_truthy env.fork then 100_000 else 40_000;
}

pub record Account : Type 0 where
  pub private_key : Text
  pub balance : Text

abbrev pub get_hardhat_private_keys : List Account
get_hardhat_private_keys =
    map (λ key. record { private_key = key; balance = codes "1000000000000000000000000" })
      private_keys

pub data Network : Type 0 where
  hardhat_network :
      (allow_unlimited_contract_size : Bool) (forking : Option ForkingConfig)
      (accounts : List Account) (gas block_gas_limit : ℕ)
      → Network
  local_network : (url : Text) (timeout gas block_gas_limit : ℕ) → Network
  coverage_network : (url : Text) (timeout : ℕ) → Network
  remote_network : (url : Text) (accounts : List Text) → Network

abbrev pub hardhat_networks : Environment → List (Text × Network)
hardhat_networks env =
    (
      codes "kovan",
      remote_network (codes "https://kovan.infura.io/v3/" ++ shown env.infura_token)
          ((codes "0x" ++ shown env.kovan_deploy_private_key) ∷ []),
    )
    ∷ (
      codes "staging_mainnet",
      remote_network (codes "https://mainnet.infura.io/v3/" ++ shown env.infura_token)
          ((codes "0x" ++ shown env.staging_mainnet_deploy_private_key) ∷ []),
    )
    ∷ (
      codes "production",
      remote_network (codes "https://mainnet.infura.io/v3/" ++ shown env.infura_token)
          ((codes "0x" ++ shown env.production_mainnet_deploy_private_key) ∷ []),
    )
    ∷ []

pub record Compiler : Type 0 where
  pub version : Text
  pub optimizer_enabled : Bool
  pub optimizer_runs : ℕ

pub record Typechain : Type 0 where
  pub out_dir : Text
  pub target : Text
  pub external_artifacts : List Text

pub record Config : Type 0 where
  pub compilers : List Compiler
  pub networks : List (Text × Network)
  pub typechain : Typechain
  pub contract_sizer_run_on_compile : Bool
  pub mocha : MochaConfig
  pub external_gas_mods : List Text

abbrev pub config : Environment → Config
config env = record {
  compilers =
      record { version = codes "0.6.10"; optimizer_enabled = true; optimizer_runs = 200 }
      ∷ record { version = codes "0.8.17"; optimizer_enabled = true; optimizer_runs = 200 }
      ∷ [];
  networks =
      (
        codes "hardhat",
        hardhat_network false (if is_truthy env.fork then some (forking_config env) else none)
            get_hardhat_private_keys 12_000_000 12_000_000,
      )
      ∷ (
        codes "localhost",
        local_network (codes "http://127.0.0.1:8545") 200_000 12_000_000 12_000_000,
      )
      ∷ (codes "coverage", coverage_network (codes "http://127.0.0.1:8555") 200_000)
      ∷ (if is_truthy env.kovan_deploy_private_key then hardhat_networks env else []);
  typechain = record {
    out_dir = codes "typechain";
    target = codes "ethers-v5";
    external_artifacts = codes "external/**/*.json" ∷ [];
  };
  contract_sizer_run_on_compile = false;
  mocha = mocha_config env;
  external_gas_mods = codes "external/abi/perp" ∷ [];
}

-- Whether the process exits with a message before there is a configuration.
abbrev pub check_forked_provider_environment : Environment → Bool
check_forked_provider_environment env =
    is_truthy env.fork
    && (not (is_truthy env.alchemy_token)
        || eqb (shown env.alchemy_token) (codes "fake_alchemy_token"))

-- What loading the file gives: nothing if the process exits.
unfoldable pub load : Environment → Option Config
load env = if check_forked_provider_environment env then none else some (config env)
