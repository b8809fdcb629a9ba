-- ===== src/Web/Config.antt =====
-- The configuration of the 0G integrations: packages/storage/src/config.ts and index.ts,
-- packages/chain/src/config.ts and index.ts, and apps/web/src/lib/server/status.ts. A client is
-- known by its configuration.
pub mod Status
use clawback.Prelude.{
  ℕ, ◌≡◌, refl, ◌≢◌, Text, Bool, true, false, not, ◌&&◌, Option, none, some, lit, is_empty,
  includes, if◌then◌else◌, text_eq, text_eq_iff, Bool-cases, inl, inr, arith,
}
use clawback.Compute.{ComputeEnv, ComputeConfig, load_compute_config, or_text}

-- `process.env`
abbrev pub Env : Type 0
Env = Text → Option Text

abbrev pub evm_rpc : Text
evm_rpc = lit "https://evmrpc-testnet.0g.ai"

-- `!value` of a variable.
abbrev pub is_set : Option Text → Bool
is_set none = false
is_set (some t) = not (is_empty t)

abbrev pub compute_env : Env → ComputeEnv
compute_env env = record {
  zg_compute_private_key = env (lit "ZG_COMPUTE_PRIVATE_KEY");
  zg_evm_rpc_url = env (lit "ZG_EVM_RPC_URL");
  zg_compute_provider_address = env (lit "ZG_COMPUTE_PROVIDER_ADDRESS");
}

pub record StorageConfig : Type 0 where
  pub indexer_rpc : Text
  pub evm_rpc_url : Text
  pub private_key : Text

abbrev storage_config : Env → Option Text → Option StorageConfig
storage_config env none = none
storage_config env (some key) =
    if is_empty key
    then none
    else some (record {
      indexer_rpc =
          or_text (env (lit "ZG_STORAGE_INDEXER_RPC"))
            (lit "https://indexer-storage-testnet-turbo.0g.ai");
      evm_rpc_url = or_text (env (lit "ZG_EVM_RPC_URL")) evm_rpc;
      private_key = key;
    })

unfoldable pub load_storage_config : Env → Option StorageConfig
load_storage_config env = storage_config env (env (lit "ZG_STORAGE_PRIVATE_KEY"))

unfoldable pub create_storage_client : Env → Option StorageConfig
unfolding load_storage_config
create_storage_client env = load_storage_config env

pub record ChainConfig : Type 0 where
  pub rpc_url : Text
  pub private_key : Text
  pub contract_address : Text

abbrev chain_config : Env → Option Text → Option Text → Option ChainConfig
chain_config env (some contract) (some key) =
    if not (is_empty contract) && not (is_empty key)
    then some (record {
      rpc_url = or_text (env (lit "ZG_CHAIN_RPC_URL")) evm_rpc;
      private_key = key;
      contract_address = contract;
    })
    else none
chain_config env _ _ = none

unfoldable pub load_chain_config : Env → Option ChainConfig
load_chain_config env =
    chain_config env (env (lit "ZG_CHAIN_ANCHOR_CONTRACT_ADDRESS"))
      (env (lit "ZG_CHAIN_PRIVATE_KEY"))

unfoldable pub create_anchor_client : Env → Option ChainConfig
unfolding load_chain_config
create_anchor_client env = load_chain_config env

pub data Network : Type 0 where
  mainnet testnet custom : Network

pub record NetworkInfo : Type 0 where
  pub network : Network
  pub chain_id : Option ℕ
  pub explorer_base : Option Text

unfoldable pub describe_network : Text → NetworkInfo
describe_network rpc_url =
    if includes (lit "evmrpc-testnet.0g.ai") rpc_url
    then record {
      network = testnet;
      chain_id = some 16602;
      explorer_base = some (lit "https://chainscan-galileo.0g.ai");
    }
    else if includes (lit "evmrpc.0g.ai") rpc_url
    then record {
      network = mainnet;
      chain_id = some 16661;
      explorer_base = some (lit "https://chainscan.0g.ai");
    }
    else record { network = custom; chain_id = none; explorer_base = none }

pub record ComponentStatus : Type 0 where
  pub configured : Bool
  pub network : Option Network
  pub chain_id : Option ℕ
  pub explorer_base : Option Text

pub record IntegrationStatus : Type 0 where
  pub compute : ComponentStatus
  pub storage : ComponentStatus
  pub chain : ComponentStatus
  pub contract_address : Option Text

abbrev pub unconfigured : ComponentStatus
unconfigured = record { configured = false; network = none; chain_id = none; explorer_base = none }

-- `{ configured: true, ...describeNetwork(rpcUrl) }`
unfoldable pub configured_at : Text → ComponentStatus
unfolding describe_network
configured_at rpc_url =
    let info = describe_network rpc_url in
    record {
      configured = true;
      network = some info.network;
      chain_id = info.chain_id;
      explorer_base = info.explorer_base;
    }

abbrev pub status_of {ℓ} : {A : Type ℓ} → Option A → (A → Text) → ComponentStatus
status_of none url = unconfigured
status_of (some c) url = configured_at (url c)

abbrev address_of : Option ChainConfig → Option Text
address_of none = none
address_of (some c) = some c.contract_address

unfoldable pub get_integration_status : Env → IntegrationStatus
unfolding configured_at
get_integration_status env = record {
  compute = status_of (load_compute_config (compute_env env)) (λ c. c.rpc_url);
  storage = status_of (load_storage_config env) (λ c. c.evm_rpc_url);
  chain = status_of (load_chain_config env) (λ c. c.rpc_url);
  contract_address = address_of (load_chain_config env);
}
