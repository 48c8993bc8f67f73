-- ===== src/Fixtures.antt =====
-- utils/fixtures: the set-up of a protocol for tests, each a class whose properties are the contracts that
-- were deployed. A method that sets properties gives the object after it; one that uses a property
-- before it is set faults.
pub mod System
pub mod Curve
pub mod Yearn
pub mod Kyber
pub mod Uniswap
mod Pairs
mod Tests
pub mod PerpTokens
pub mod Perp
pub mod Compound
pub mod Aave
pub mod Completion
pub mod Balancer
pub mod UniswapV3
