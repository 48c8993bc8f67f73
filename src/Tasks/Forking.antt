-- ===== src/Tasks/Forking.antt =====
-- When tests run on a fork: hardhat.config.ts.
use index.Base.{
  ◌≡◌, ◌≢◌, ◌⊎◌, refl, ap, inl, inr, true, false, Bool-cases, if◌then◌else◌, List, [], ◌∷◌, ◌++◌,
  Option, none, some,
}
use index.Base.Text.{Text, codes, eqb, eqb→eq}
use index.Tasks.Config.{
  Environment, Config, Network, hardhat_network, ForkingConfig, MochaConfig, is_truthy, load,
}

abbrev network_named : Text → List (Text × Network) → Option Network
network_named name [] = none
network_named name ((other, network) ∷ networks) =
    let rest = network_named name networks in if eqb name other then some network else rest

abbrev forking_of : Option Network → Option ForkingConfig
forking_of (some (hardhat_network unlimited forking accounts gas limit)) = forking
forking_of _ = none

-- What the network that tests run on forks, if it does.
abbrev pub forked : Config → Option ForkingConfig
forked c = forking_of (network_named (codes "hardhat") c.networks)

abbrev IsUsable : Option Text → Type 0
IsUsable none = ⊥
IsUsable (some token) = (token ≢ []) × (token ≢ codes "fake_alchemy_token")

abbrev ForksFrom : Option Text → MochaConfig → Option ForkingConfig → Type 0
ForksFrom none mocha forking = ⊥
ForksFrom (some token) mocha none = ⊥
ForksFrom (some token) mocha (some forking) =
    (mocha.invert ≡ false)
    × (token ≢ [])
    × (token ≢ codes "fake_alchemy_token")
    × (forking.url ≡ codes "https://eth-mainnet.alchemyapi.io/v2/" ++ token)

abbrev pub ForksWithToken : Environment → Option Config → Type 0
ForksWithToken env none = (is_truthy env.fork ≡ true) × ¬ IsUsable env.alchemy_token
ForksWithToken env (some c) =
    (c.mocha.grep ≡ codes "@forked-mainnet")
    × (((is_truthy env.fork ≡ true) × ForksFrom env.alchemy_token c.mocha (forked c))
        ⊎ ((is_truthy env.fork ≡ false) × (forked c ≡ none) × (c.mocha.invert ≡ true)))

not_fake :
    (token : Text)
    → eqb token (codes "fake_alchemy_token") ≡ false
    → token ≢ codes "fake_alchemy_token"
not_fake token differs same =
    absurd (let e = ap (λ t. eqb t (codes "fake_alchemy_token")) same in cc)

by_token :
    (env : Environment) (token : Option Text)
    → env.alchemy_token ≡ token
    → is_truthy env.fork ≡ true
    → ForksWithToken env (load env)
unfolding load
by_token env none e forks = rw (forks, e) (forks, λ u. u)
by_token env (some []) e forks = rw (forks, e) (forks, λ u. u.0 refl)
by_token env (some (c ∷ token)) e forks =
    elim (Bool-cases (eqb (c ∷ token) (codes "fake_alchemy_token"))) [
      | inl fake ↦
          rw (forks, e, fake)
            (forks, λ u. u.1 (eqb→eq (c ∷ token) (codes "fake_alchemy_token") fake))
      | inr differs ↦
          rw (forks, e, differs)
            (refl, inl (forks, (refl, (λ g. cc), not_fake (c ∷ token) differs, refl)))
    ]

-- The file gives no configuration exactly if a fork is asked for and the token is missing, empty or the
-- example's. Where it gives one: if a fork is asked for, the network forks from the address with the
-- token, and only the tests named @forked-mainnet run; if none is, the network does not fork, and all
-- other tests run.
pub forks_with_token : (env : Environment) → ForksWithToken env (load env)
unfolding load
forks_with_token env = elim (Bool-cases (is_truthy env.fork)) [
  | inl forks ↦ by_token env env.alchemy_token refl forks
  | inr alone ↦ rw alone (refl, inr (alone, refl, refl))
]
