-- ===== src/Web/Config/Status.antt =====
-- apps/web/src/lib/server/status.ts: what the status of the integrations tells, and what it hides.
use clawback.Prelude.{
  ◌≡◌, refl, Text, false, Option, none, some, lit, is_empty, text_eq, if◌then◌else◌, inl, inr,
  Option-cases, Bool-cases,
}
use clawback.Compute.{load_compute_config}
use clawback.Receipts.Verifier.{is_some}
use clawback.Web.Config.{
  Env, configured_at, status_of, compute_env, load_storage_config, load_chain_config,
  create_storage_client, create_anchor_client, get_integration_status,
}

status_of_configured {ℓ} :
    {A : Type ℓ} (o : Option A) (url : A → Text) → (status_of o url).configured ≡ is_some o
unfolding configured_at
status_of_configured none url = refl
status_of_configured (some a) url = refl

-- An integration is reported as configured exactly when its client is created from the same environment.
pub status_agrees :
    (env : Env)
    → let s = get_integration_status env in
      (s.compute.configured ≡ is_some (load_compute_config (compute_env env)))
      × (s.storage.configured ≡ is_some (create_storage_client env))
      × (s.chain.configured ≡ is_some (create_anchor_client env))
unfolding get_integration_status create_storage_client create_anchor_client
status_agrees env = (
  status_of_configured (load_compute_config (compute_env env)) _,
  status_of_configured (load_storage_config env) _,
  status_of_configured (load_chain_config env) _,
)

-- The private keys of the three integrations.
pub record Keys : Type 0 where
  pub compute : Text
  pub storage : Text
  pub chain : Text

pub record AllSet (k : Keys) : Type 0 where
  pub compute : is_empty k.compute ≡ false
  pub storage : is_empty k.storage ≡ false
  pub chain : is_empty k.chain ≡ false

unfoldable pub with_keys : Keys → Env → Env
with_keys k env name =
    if text_eq name (lit "ZG_COMPUTE_PRIVATE_KEY")
    then some k.compute
    else if text_eq name (lit "ZG_STORAGE_PRIVATE_KEY")
    then some k.storage
    else if text_eq name (lit "ZG_CHAIN_PRIVATE_KEY")
    then some k.chain
    else env name

-- The status is the same for any three private keys that are set: it tells nothing of a key but that there is one.
pub status_hides_keys :
    (env : Env) (k k' : Keys)
    → AllSet k
    → AllSet k'
    → get_integration_status (with_keys k env) ≡ get_integration_status (with_keys k' env)
unfolding get_integration_status load_compute_config load_storage_config load_chain_config with_keys
    lit text_eq
status_hides_keys env k k' s s' =
    elim (Option-cases (env (lit "ZG_CHAIN_ANCHOR_CONTRACT_ADDRESS"))) [
      | inl none_set ↦ rw (none_set, s.compute, s.storage, s'.compute, s'.storage)
      | inr (contract, found) ↦ elim (Bool-cases (is_empty contract)) [
        | inl empty ↦ rw (found, empty, s.compute, s.storage, s'.compute, s'.storage)
        | inr full ↦
            rw (found, full, s.compute, s.storage, s.chain, s'.compute, s'.storage, s'.chain)
      ]
    ]
