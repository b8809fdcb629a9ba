-- ===== src/Agent/Store/Backends.antt =====
-- packages/agent/src/store.ts: what the three stores keep their records in. A record in a file or in Redis is
-- held as the record: that serialisation gives it back is assumed.
use clawback.Prelude.{
  ◌≡◌, ◌≢◌, Text, false, Option, none, some, ◌++◌, ◌&&◌, not, lit, Dict, lookup, insert,
  lookup-insert_self, lookup-insert_ne, is_empty, if◌then◌else◌, arith,
}
use clawback.Agent.CaseRecord.{CaseRecord}
use clawback.Agent.Store.{Backend}

-- `InMemoryCaseStore`
unfoldable pub in_memory : Backend (Dict CaseRecord)
in_memory = record {
  stored = lookup;
  save_record = λ r. insert r.case_id r;
  stored-save_self = λ r s. lookup-insert_self r.case_id r s;
  stored-save_ne = λ id r s ne. lookup-insert_ne r.case_id id r s ne;
}

-- What `KvCaseStore` uses of `@upstash/redis`: `get` answers what `set` last put under the key.
pub record Redis (S : Type 0) : Type 0 where
  pub get : Text → S → Option CaseRecord
  pub set : Text → CaseRecord → S → S
  pub get-set_self : (k : Text) (r : CaseRecord) (s : S) → get k (set k r s) ≡ some r
  pub get-set_ne : (k j : Text) (r : CaseRecord) (s : S) → j ≢ k → get j (set k r s) ≡ get j s

unfoldable pub key_for : Text → Text
key_for case_id = lit "clawback:case:" ++ case_id

pub key_for_inj : (a b : Text) → key_for a ≡ key_for b → a ≡ b
unfolding key_for lit
key_for_inj a b e = cc e

-- `KvCaseStore`: different cases have different keys.
unfoldable pub kv : {S : Type 0} → Redis S → Backend S
unfolding key_for
kv redis = record {
  stored = λ id. redis.get (key_for id);
  save_record = λ r. redis.set (key_for r.case_id) r;
  stored-save_self = λ r s. redis.get-set_self (key_for r.case_id) r s;
  stored-save_ne = λ id r s ne.
      redis.get-set_ne (key_for r.case_id) (key_for id) r s (λ e. ne (key_for_inj id r.case_id e));
}

-- The four variables of the environment that `loadKvConfig` reads.
pub record KvEnv : Type 0 where
  pub kv_rest_api_url : Option Text
  pub upstash_redis_rest_url : Option Text
  pub kv_rest_api_token : Option Text
  pub upstash_redis_rest_token : Option Text

pub record KvConfig : Type 0 where
  pub url : Text
  pub token : Text

-- `a ?? b`
abbrev pub or_else : Option Text → Option Text → Option Text
or_else none b = b
or_else (some a) b = some a

-- `undefined` and the empty text are false.
abbrev kv_config : Option Text → Option Text → Option KvConfig
kv_config (some url) (some token) =
    if not (is_empty url) && not (is_empty token)
    then some (record { url = url; token = token })
    else none
kv_config _ _ = none

unfoldable pub load_kv_config : KvEnv → Option KvConfig
load_kv_config env =
    kv_config (or_else env.kv_rest_api_url env.upstash_redis_rest_url)
      (or_else env.kv_rest_api_token env.upstash_redis_rest_token)

-- The store that `buildCaseStore` would take is Redis only with an address and a token that are not
-- empty, each the first of its two variables that is set. In particular an empty first
-- variable hides the second one.
pub load_kv_config-IsSet :
    (env : KvEnv) (c : KvConfig)
    → load_kv_config env ≡ some c
    → (or_else env.kv_rest_api_url env.upstash_redis_rest_url ≡ some c.url)
      × (or_else env.kv_rest_api_token env.upstash_redis_rest_token ≡ some c.token)
      × (is_empty c.url ≡ false)
      × (is_empty c.token ≡ false)
unfolding load_kv_config
load_kv_config-IsSet env c h = ground arith
