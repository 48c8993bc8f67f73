-- ===== src/Dependencies/Tests.antt =====
-- utils/deploys/dependencies.ts at concrete names.
use index.Base.{◌≡◌, refl, some, none}
use index.Base.Text.{codes}
use index.Dependencies.{address_on}

router :
    address_on (codes "UNISWAP_ROUTER") 1
    ≡ some (codes "0x7a250d5630B4cF539739dF2C5dAcb4c659F2488D")
router = refl

no_router : address_on (codes "SUSHISWAP_ROUTER") 42 ≡ none
no_router = refl

test_network : address_on (codes "HUMAN_FRIENDLY_NAMES") 50 ≡ some (codes "test-rpc")
test_network = refl

holder : address_on (codes "DAI_WHALE") 1 ≡ some (codes "x")
holder = refl
