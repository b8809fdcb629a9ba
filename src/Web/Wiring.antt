-- ===== src/Web/Wiring.antt =====
-- apps/web/src/lib/server/orchestrator.ts: the one orchestrator of a process, known by what it is made of, and the
-- key that is kept with it. `resolve` of node:path, on the working directory, is a parameter.
use clawback.Prelude.{
  ◌≡◌, refl, ap, sym, ◌∙◌, ◌⊎◌, inl, inr, Text, Bool, Option, none, some, lit, is_empty,
  if◌then◌else◌, Option-cases,
}
use clawback.Shared.Errors.{Error, Result, ok, err, external}
use clawback.Compute.{ComputeConfig, load_compute_config, or_text}
use clawback.Agent.Store.Backends.{KvEnv, KvConfig, load_kv_config}
use clawback.Receipts.Verifier.{is_some}
use clawback.Web.Config.{
  Env, compute_env, StorageConfig, ChainConfig, create_storage_client, create_anchor_client,
}

pub data CaseStore : Type 0 where
  kv_store : KvConfig → CaseStore
  file_store : Text → CaseStore

pub record Wiring : Type 0 where
  pub store : CaseStore
  pub compute : Option ComputeConfig
  pub storage : Option StorageConfig
  pub anchor : Option ChainConfig
  pub encryption_key : Text

pub record Singletons : Type 0 where
  pub orchestrator : Option Wiring
  pub encryption_key : Option Text

abbrev pub kv_env : Env → KvEnv
kv_env env = record {
  kv_rest_api_url = env (lit "KV_REST_API_URL");
  upstash_redis_rest_url = env (lit "UPSTASH_REDIS_REST_URL");
  kv_rest_api_token = env (lit "KV_REST_API_TOKEN");
  upstash_redis_rest_token = env (lit "UPSTASH_REDIS_REST_TOKEN");
}

-- A text that is truthy.
abbrev pub truthy : Option Text → Option Text
truthy none = none
truthy (some t) = if is_empty t then none else some t

unfoldable pub compute_configured : Env → Bool
compute_configured env = is_some (load_compute_config (compute_env env))

module _ (resolve : Text → Text) where
  unfoldable pub build_case_store : Env → CaseStore
  build_case_store env = elim (load_kv_config (kv_env env)) [
    | some config ↦ kv_store config
    | none ↦ file_store (resolve (or_text (env (lit "CLAWBACK_DATA_DIR")) (lit ".clawback-data")))
  ]

  pub key_missing : Error
  key_missing =
      external (lit "CLAWBACK_ENCRYPTION_KEY is not set. See .env.example for how to generate one.")

  abbrev pub read_key : Option Text → Singletons → Result Text × Singletons
  unfolding key_missing
  read_key none s = (err key_missing, s)
  read_key (some key) s = (ok key, record s { encryption_key = some key })

  abbrev pub key_or : Option Text → Option Text → Singletons → Result Text × Singletons
  key_or (some key) read s = (ok key, s)
  key_or none read s = read_key read s

  unfoldable pub require_encryption_key : Env → Singletons → Result Text × Singletons
  require_encryption_key env s =
      key_or (truthy s.encryption_key) (truthy (env (lit "CLAWBACK_ENCRYPTION_KEY"))) s

  abbrev pub wiring_with : Env → Text → Wiring
  wiring_with env key = record {
    store = build_case_store env;
    compute = load_compute_config (compute_env env);
    storage = create_storage_client env;
    anchor = create_anchor_client env;
    encryption_key = key;
  }

  abbrev pub wire : Env → (Result Text × Singletons) → Result Wiring × Singletons
  wire env (err e, s) = (err e, s)
  wire env (ok key, s) =
      (ok (wiring_with env key), record s { orchestrator = some (wiring_with env key) })

  abbrev pub orchestrator_or : Option Wiring → Env → Singletons → Result Wiring × Singletons
  unfolding build_case_store require_encryption_key
  orchestrator_or (some made) env s = (ok made, s)
  orchestrator_or none env s = wire env (require_encryption_key env s)

  unfoldable pub get_orchestrator : Env → Singletons → Result Wiring × Singletons
  get_orchestrator env s = orchestrator_or s.orchestrator env s

  key_or-cases :
      (kept read : Option Text) (s : Singletons)
      → ((key : Text) × (s' : Singletons) × (key_or kept read s ≡ (ok key, s')))
        ⊎ (key_or kept read s ≡ (err key_missing, s))
  unfolding key_missing
  key_or-cases (some key) read s = inl (key, s, refl)
  key_or-cases none (some key) s = inl (key, record s { encryption_key = some key }, refl)
  key_or-cases none none s = inr refl

  pub record Stays (env later : Env) (s : Singletons) : Type 0 where
    pub made : Wiring
    pub now_made : (get_orchestrator env s).0 ≡ ok made
    pub kept :
        get_orchestrator later (get_orchestrator env s).1 ≡ (ok made, (get_orchestrator env s).1)

  get_orchestrator-Stays :
      (env later : Env) (s s' : Singletons) (made : Wiring)
      → get_orchestrator env s ≡ (ok made, s')
      → s'.orchestrator ≡ some made
      → Stays env later s
  unfolding get_orchestrator orchestrator_or
  get_orchestrator-Stays env later s s' made got there = record {
    made = made;
    now_made = ap (λ r. r.0) got;
    kept =
        ap (λ r. get_orchestrator later r.1) got
        ∙ ap (λ o. orchestrator_or o later s') there
        ∙ ap (λ r. (ok made, r.1)) (sym got);
  }

  -- A call either gives an orchestrator, and then a later call gives that one and changes nothing, whatever the
  -- environment has become; or it fails and leaves everything as it was.
  pub get_orchestrator_once :
      (env later : Env) (s : Singletons)
      → Stays env later s ⊎ ((e : Error) × (get_orchestrator env s ≡ (err e, s)))
  unfolding get_orchestrator require_encryption_key orchestrator_or
  get_orchestrator_once env later s = elim (Option-cases s.orchestrator) [
    | inr (made, there) ↦
        inl (
          get_orchestrator-Stays env later s s made (ap (λ o. orchestrator_or o env s) there) there)
    | inl absent ↦
        let unmade = ap (λ o. orchestrator_or o env s) absent in
        elim (key_or-cases (truthy s.encryption_key) (truthy (env (lit "CLAWBACK_ENCRYPTION_KEY")))
          s) [
            | inr failed ↦ inr (key_missing, unmade ∙ ap (wire env) failed)
            | inl (key, s', found) ↦ inl (
                get_orchestrator-Stays env later s _ (wiring_with env key)
                  (unmade ∙ ap (wire env) found) refl)
          ]
  ]
