-- ===== src/Lib.antt =====
-- The utilities of the Index Protocol (index-protocol/utils). One half is the arithmetic that predicts
-- the contracts: fixed-point products and quotients, the streaming fee, what the NAV issuance module
-- mints, pays out and keeps, what a Uniswap pool is expected to hold and trade, and what the perpetual
-- protocol's leverage modules move in and out; with the helpers for artifacts and positions. The other
-- half sets a protocol up on a node: helpers that deploy each contract, fixtures that deploy and
-- connect a system of them, the control of the node's snapshots and time, and the sandboxes in which
-- tests run. With them stand the tasks and the configuration of the build.
--
-- The parts and their files:
-- - Base: results of calls that may throw, integers over the native numbers, texts, lists, and texts of
--   hexadecimal digits with the numbers that they are (Hex).
-- - BigNumber: the interface of ethers' `BigNumber`, which is not part of the repository. The models
--   take it as an instance argument, and the theorems assume its documented behaviour, `IsBigNumber`;
--   `reference` is a value of it, at which the examples run.
-- - Constants: index-protocol/utils/constants.ts.
-- - MathUtils: index-protocol/utils/common/mathUtils.ts, one definition per function, under the
--   function's name with underscores: `precise_mul_ceil_int` is `preciseMulCeilInt`.
-- - FeeModuleUtils: index-protocol/utils/common/feeModuleUtils.ts.
-- - NavIssuanceModuleUtils: index-protocol/utils/common/navIssuanceModuleUtils.ts. It and
--   FeeModuleUtils call MathUtils as the code does.
-- - Contracts: the contract that several utilities read.
-- - UniswapUtils: index-protocol/utils/common/uniswapUtils.ts. Its `<` and `>` compare the texts of
--   `BigNumber`s, which `decimal` models; its `==` and `!=` ask for the same object, which `Object`
--   models.
-- - PerpV2Utils: index-protocol/utils/common/perpV2Utils.ts. PerpV2Utils/Fixture.antt lists the calls
--   that it makes of a leverage module and of the fixture around the perpetual protocol.
-- - ArtifactUtils: index-protocol/utils/tasks/artifactUtils.ts.
-- - ProtocolUtils: index-protocol/utils/common/protocolUtils.ts. The query of the logs is a value that
--   the node is asked with; ProtocolUtils/Created.antt has what a node documents of its answer, over a
--   chain of blocks.
-- - Units: index-protocol/utils/common/unitsUtils.ts.
-- - Chain: the node, which is not part of the repository. Code that awaits calls is a `Script`, the
--   requests that it makes and how it goes on with each answer; `run` plays a script against any node,
--   which answers or rejects by the history so far, and gives the history and the result.
--   Chain/Scoping.antt, Chain/Histories.antt and Chain/Order.antt each have a condition on scripts, by
--   recursion, and one theorem that carries it over to runs; Chain/Samples.antt has the node of the
--   examples.
-- - Deploys: index-protocol/utils/deploys, one definition per method, `deploy_set_token` for
--   `deploySetToken`; its first argument is the account that signs. A module of it is a class, or a
--   part of a large one: MockTokens is of deployMocks.ts, and the External ones of deployExternal.ts.
-- - Fixtures: index-protocol/utils/fixtures, a module per class: System with its SetTokens, Curve,
--   Yearn, Kyber, Uniswap, UniswapV3, Compound, Balancer, Aave, and Perp with PerpTokens for its
--   tokens. They call Deploys as the code does. An object is a record whose properties are `Option`s,
--   and a use of one that is not set is a fault, as that of a property of `undefined` is.
-- - Blockchain: index-protocol/utils/common/blockchainUtils.ts.
-- - DataUtils: index-protocol/utils/common/adapterUtils.ts and libraryUtils.ts.
-- - TestingUtils: of index-protocol/utils/test/testingUtils.ts and accountUtils.ts, the time of the
--   node, the accounts and forked tokens (Accounts), and the hooks that keep tests apart.
--   TestingUtils/Caching.antt has the hooks and what Mocha does with them, as a session of actions:
--   suites are entered and left, and tests run. TestingUtils/World.antt has a node as it is documented:
--   a state that requests read and change, and snapshots of it; TestingUtils/Isolation.antt and its
--   children compare the two.
-- - Dependencies: index-protocol/utils/deploys/dependencies.ts, the whole table: most names have addresses
--   by network, the largest holders have one address.
-- - Tasks: index-protocol/tasks/subtasks.ts (Types), index-protocol/utils/tasks/setupNativeSolc.ts
--   (Solc), index-protocol/hardhat.config.ts (Config and Compile) and index-protocol/utils/wallets.ts
--   (in Config). A `Task` passes a state on, the disk, the console or whatever Hardhat works on, and
--   keeps it over a throw. What Hardhat, JSON and the file system do is a parameter.
--
-- Values of `BigNumber` are integers of any size, so no width is chosen. A function that can throw, and
-- one that awaits a call of a contract, returns a `Result`; the calls of contracts are fields of
-- records, so that a theorem holds whatever they answer, or states what they answer. A loop over a list
-- is structural recursion. The loop of `sqrt` has fuel, one hundred to the power of one more than the
-- length of the value's text: the texts of its values fall, and there are fewer of them. The loop that
-- creates base tokens until one has a fitting address has fuel too, the number of tokens at most: the
-- node decides the addresses, so that no number is enough for all nodes.
--
-- Not modelled: the Solidity contracts and the tests, which are another language's and a node's; of the
-- units, those that convert JavaScript's floating-point numbers, and of the Uniswap V3 fixture, the
-- arithmetic of prices, which is a parameter; the random addresses, which are arguments;
-- utils/contracts, which re-exports generated types; the settings of the linter. An object whose method
-- was rejected on the way keeps, in the code, what it had set so far; the models give no object then.
-- Three requests that the code does not await stand at their places, and their rejection ends a script.
pub mod ArtifactUtils
pub mod Base
pub mod BigNumber
pub mod Blockchain
pub mod Chain
pub mod Constants
pub mod Contracts
pub mod DataUtils
pub mod Dependencies
pub mod Deploys
pub mod FeeModuleUtils
pub mod Fixtures
pub mod MathUtils
pub mod NavIssuanceModuleUtils
pub mod PerpV2Utils
pub mod ProtocolUtils
pub mod Tasks
pub mod TestingUtils
pub mod UniswapUtils
pub mod Units
