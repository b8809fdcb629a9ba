-- ===== src/Storage.antt =====
-- packages/storage/src/storageClient.ts. The SDK of 0G storage, `ethers`, `node:fs`, `node:os` and `node:path` are parameters: what they answer
-- in one run. `JSON.parse` is that of texts that `JSON.stringify` printed.
pub mod Cleanup
use clawback.Prelude.{Text, Option, none, some, List, [], ◌∷◌, lit, ◌++◌}
use clawback.Json.{Value, stringify}
use clawback.Json.Read.{parse}
use clawback.Shared.Errors.{Result, ok, err, external, malformed_json}
use clawback.Shared.Traced.{Traced, pure, throw, lift, ask, ◌>>=◌, ◌>>◌, finally}
use clawback.Web.Config.{StorageConfig}

-- What `indexer.upload` gives with its error: the identifiers of one file, or of its fragments.
pub data UploadResult : Type 0 where
  single : Text → Text → UploadResult
  fragments : List Text → List Text → UploadResult

-- `none` for undefined.
pub record Stored : Type 0 where
  pub root_hash : Option Text
  pub tx_hash : Option Text

pub data StorageCall : Type 0 where
  new_wallet : Text → Text → StorageCall
  mkdtemp : Text → StorageCall
  write_file : Text → Text → StorageCall
  from_file_path upload close rm read_file : Text → StorageCall
  download : Text → Text → StorageCall

pub record StorageSdk : Type 0 where
  pub tmpdir : Text
  pub join : Text → Text → Text
  pub wallet_made : Result (Unit {0})
  pub dir_made : Text → Result Text
  pub written : Text → Text → Result (Unit {0})
  pub opened : Text → Result (Unit {0})
  pub uploaded : Text → Result (UploadResult × Option Text)
  pub closed : Text → Result (Unit {0})
  pub removed : Text → Result (Unit {0})
  pub downloaded : Text → Text → Result (Option Text)
  pub contents : Text → Result Text

abbrev first : List Text → Option Text
first [] = none
first (t ∷ ts) = some t

abbrev pub identifiers : UploadResult → Stored
identifiers (single root tx) = record { root_hash = some root; tx_hash = some tx }
identifiers (fragments roots txs) = record { root_hash = first roots; tx_hash = first txs }

-- `if (uploadErr) throw ...`
abbrev pub or_failed : UploadResult × Option Text → Result Stored
or_failed (result, none) = ok (identifiers result)
or_failed (result, some message) = err (external (lit "0G Storage upload failed: " ++ message))

abbrev parsed : Option Value → Result Value
parsed none = err malformed_json
parsed (some v) = ok v

module _ (sdk : StorageSdk) where
  abbrev pub artifact_in : Text → Text
  artifact_in dir = sdk.join dir (lit "artifact.json")

  abbrev pub upload_prefix : Text
  upload_prefix = sdk.join sdk.tmpdir (lit "clawback-storage-")

  abbrev pub download_prefix : Text
  download_prefix = sdk.join sdk.tmpdir (lit "clawback-storage-dl-")

  abbrev pub send_file : Text → Traced StorageCall Stored
  send_file path = do answer ← ask (upload path) (sdk.uploaded path); lift (or_failed answer)

  abbrev pub upload_file : Text → Traced StorageCall Stored
  upload_file path = do
    ask (from_file_path path) (sdk.opened path)
    finally (send_file path) (ask (close path) (sdk.closed path))

  abbrev pub remove : Text → Traced StorageCall (Unit {0})
  remove dir = ask (rm dir) (sdk.removed dir)

  unfoldable pub upload_json : StorageConfig → Value → Traced StorageCall Stored
  upload_json config artifact = do
    ask (new_wallet config.private_key config.evm_rpc_url) sdk.wallet_made
    dir ← ask (mkdtemp upload_prefix) (sdk.dir_made upload_prefix)
    ask (write_file (artifact_in dir) (stringify artifact))
        (sdk.written (artifact_in dir) (stringify artifact))
    finally (upload_file (artifact_in dir)) (remove dir)

  -- `if (err) throw ...`
  abbrev pub no_error : Option Text → Result (Unit {0})
  no_error none = ok tt
  no_error (some message) = err (external (lit "0G Storage download failed: " ++ message))

  abbrev pub fetch_file : Text → Text → Traced StorageCall Value
  fetch_file root_hash path = do
    error ← ask (download root_hash path) (sdk.downloaded root_hash path)
    lift (no_error error)
    contents ← ask (read_file path) (sdk.contents path)
    lift (parsed (parse contents))

  unfoldable pub download_json : Text → Traced StorageCall Value
  download_json root_hash = do
    dir ← ask (mkdtemp download_prefix) (sdk.dir_made download_prefix)
    finally (fetch_file root_hash (artifact_in dir)) (remove dir)
