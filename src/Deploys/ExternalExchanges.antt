-- ===== src/Deploys/ExternalExchanges.antt =====
-- The class of utils/deploys/deployExternal.ts that deploys the contracts of Uniswap, Balancer, Yearn and Kyber.
use index.Base.{[], ◌∷◌}
use index.Base.Int.{ℤ}
use index.Base.Text.{Text}
use index.Chain.{Script, Contract, address, number, deploy, attach}

abbrev pub deploy_uni : Text → Text → Text → ℤ → Script Contract
deploy_uni signer account minter minting_allowed_after =
    deploy signer "Uni" [] (address account ∷ address minter ∷ number minting_allowed_after ∷ [])

abbrev pub deploy_uniswap_timelock : Text → Text → ℤ → Script Contract
deploy_uniswap_timelock signer admin delay =
    deploy signer "UniswapTimelock" [] (address admin ∷ number delay ∷ [])

abbrev pub deploy_uniswap_governor_alpha : Text → Text → Text → Script Contract
deploy_uniswap_governor_alpha signer timelock uni =
    deploy signer "UniswapGovernorAlpha" [] (address timelock ∷ address uni ∷ [])

abbrev pub deploy_uniswap_v2_factory : Text → Text → Script Contract
deploy_uniswap_v2_factory signer fee_to_setter =
    deploy signer "UniswapV2Factory" [] (address fee_to_setter ∷ [])

abbrev pub deploy_uniswap_v2_router02 : Text → Text → Text → Script Contract
deploy_uniswap_v2_router02 signer factory weth =
    deploy signer "UniswapV2Router02" [] (address factory ∷ address weth ∷ [])

abbrev pub get_forked_uniswap_v2_router02 : Text → Text → Contract
get_forked_uniswap_v2_router02 signer mainnet_router = attach signer mainnet_router

abbrev deploy_uniswap_v2_pair : Text → Script Contract
deploy_uniswap_v2_pair signer = deploy signer "UniswapV2Pair" [] []

abbrev pub deploy_staking_rewards : Text → Text → Text → Text → Script Contract
deploy_staking_rewards signer rewards_distribution rewards_token staking_token =
    deploy signer "StakingRewards" []
      (address rewards_distribution ∷ address rewards_token ∷ address staking_token ∷ [])

abbrev pub deploy_b_factory : Text → Script Contract
deploy_b_factory signer = deploy signer "BFactory" [] []

abbrev pub deploy_exchange_proxy : Text → Text → Script Contract
deploy_exchange_proxy signer weth = deploy signer "ExchangeProxy" [] (address weth ∷ [])

abbrev pub deploy_b_registry : Text → Text → Script Contract
deploy_b_registry signer factory = deploy signer "BRegistry" [] (address factory ∷ [])

abbrev deploy_delegate_registry : Text → Script Contract
deploy_delegate_registry signer = deploy signer "DelegateRegistry" [] []

abbrev pub deploy_vault : Text → Script Contract
deploy_vault signer = deploy signer "Vault" [] []

abbrev pub get_vault : Text → Text → Contract
get_vault signer vault_address = attach signer vault_address

abbrev pub deploy_registry : Text → Script Contract
deploy_registry signer = deploy signer "Registry" [] []

abbrev deploy_kyber_network_token_v2 : Text → Script Contract
deploy_kyber_network_token_v2 signer = deploy signer "KyberNetworkTokenV2" [] []

abbrev pub deploy_dmm_factory : Text → Text → Script Contract
deploy_dmm_factory signer fee_to_setter = deploy signer "DMMFactory" [] (address fee_to_setter ∷ [])

abbrev pub deploy_dmm_router02 : Text → Text → Text → Script Contract
deploy_dmm_router02 signer factory weth =
    deploy signer "DMMRouter02" [] (address factory ∷ address weth ∷ [])

abbrev deploy_dmm_pool : Text → Script Contract
deploy_dmm_pool signer = deploy signer "DMMPool" [] []

abbrev pub deploy_uniswap_v3_factory : Text → Script Contract
deploy_uniswap_v3_factory signer = deploy signer "UniswapV3Factory" [] []

abbrev pub deploy_swap_router : Text → Text → Text → Script Contract
deploy_swap_router signer factory weth =
    deploy signer "SwapRouter" [] (address factory ∷ address weth ∷ [])

abbrev pub deploy_nft_position_manager : Text → Text → Text → Text → Script Contract
deploy_nft_position_manager signer factory weth nft_desc =
    deploy signer "NonfungiblePositionManager" []
      (address factory ∷ address weth ∷ address nft_desc ∷ [])

abbrev pub deploy_quoter : Text → Text → Text → Script Contract
deploy_quoter signer factory weth = deploy signer "Quoter" [] (address factory ∷ address weth ∷ [])

abbrev pub deploy_nft_descriptor : Text → Script Contract
deploy_nft_descriptor signer = deploy signer "NFTDescriptor" [] []
