-- ===== src/Storage/Cleanup.antt =====
-- packages/storage/src/storageClient.ts: what an upload and a download leave behind, and what they answer.
use clawback.Prelude.{
  ◌≡◌, refl, ap, sym, ◌∙◌, ◌⊎◌, inl, inr, Text, Option, none, some, List, [], ◌∷◌,
}
use clawback.Json.{Value, stringify}
use clawback.Json.RoundTrip.{parse-stringify}
use clawback.Shared.Errors.{Error, Result, ok, err, Result-cases, err-ne-ok}
use clawback.Shared.Traced.{Traced, ask, lift, continue, finally, bind-ok}
use clawback.Web.Config.{StorageConfig}
use clawback.Storage.{
  StorageSdk, StorageCall, new_wallet, mkdtemp, write_file, from_file_path, upload, close, rm,
  read_file, download, Stored, UploadResult, identifiers, or_failed, artifact_in, upload_prefix,
  download_prefix, send_file, upload_file, remove, upload_json, fetch_file, download_json,
}

finally-last :
    {C A : Type 0} (m : Traced C A) (c : C) (r : Result (Unit {0})) (calls : List C)
    → (finally m (ask c r) calls).1 ≡ c ∷ (m calls).1
finally-last m c (ok u) calls = refl
finally-last m c (err e) calls = refl

finally-ok :
    {C A : Type 0} (m : Traced C A) (c : C) (r : Result (Unit {0})) (calls : List C) (a : A)
    → (finally m (ask c r) calls).0 ≡ ok a
    → (m calls).0 ≡ ok a
finally-ok m c (ok u) calls a h = h
finally-ok m c (err e) calls a h = absurd (err-ne-ok h)

module _ (sdk : StorageSdk) where
  module _ (config : StorageConfig) (artifact : Value) (dir : Text)
      (made_wallet : sdk.wallet_made ≡ ok tt)
      (made : sdk.dir_made (upload_prefix sdk) ≡ ok dir) where
    abbrev text : Text
    text = stringify artifact

    abbrev path : Text
    path = artifact_in sdk dir

    abbrev written_calls : List StorageCall
    written_calls =
        write_file path text
        ∷ mkdtemp (upload_prefix sdk)
        ∷ new_wallet config.private_key config.evm_rpc_url
        ∷ []

    upload_json-written :
        sdk.written path text ≡ ok tt
        → upload_json sdk config artifact []
          ≡ finally (upload_file sdk path) (remove sdk dir) written_calls
    unfolding upload_json
    upload_json-written done = rw (made_wallet, continue, made, continue, done, continue)

    -- Once its directory is made, an upload removes it as its last call, whatever fails in between, if the artifact
    -- could be written there; if it could not, the directory stays.
    pub upload_json-cleanup :
        ((rest : List StorageCall) × (sdk.written path text ≡ ok tt)
          × ((upload_json sdk config artifact []).1 ≡ rm dir ∷ rest))
        ⊎ ((e : Error) × (sdk.written path text ≡ err e)
            × (upload_json sdk config artifact [] ≡ (err e, written_calls)))
    unfolding upload_json
    upload_json-cleanup = elim (Result-cases (sdk.written path text)) [
      | inl (tt, done) ↦ inl (
        (upload_file sdk path written_calls).1,
        done,
        ap (λ x. x.1) (upload_json-written done)
            ∙ finally-last (upload_file sdk path) (rm dir) (sdk.removed dir) written_calls,
      )
      | inr (e, failed) ↦
          inr (e, failed, rw (made_wallet, continue, made, continue, failed, continue))
    ]

    or_failed-ok :
        (answer : UploadResult × Option Text) (stored : Stored)
        → or_failed answer ≡ ok stored
        → (answer.1 ≡ none) × (identifiers answer.0 ≡ stored)
    or_failed-ok (result, none) stored h = (refl, cc h)
    or_failed-ok (result, some message) stored h = absurd (err-ne-ok h)

    -- An upload that gives identifiers gives those of the file that it wrote, the JSON of the artifact, and the SDK
    -- reported no error for it.
    pub upload_json-IsReported :
        (stored : Stored)
        → (upload_json sdk config artifact []).0 ≡ ok stored
        → (result : UploadResult) × (sdk.written path text ≡ ok tt)
          × (sdk.uploaded path ≡ ok (result, none))
          × (stored ≡ identifiers result)
    unfolding upload_json
    upload_json-IsReported stored h = elim (Result-cases (sdk.written path text)) [
      | inr (e, failed) ↦
          absurd (err-ne-ok (rw (made_wallet, continue, made, continue, failed, continue) at h))
      | inl (unit, done) ↦
          let all =
            finally-ok (upload_file sdk path) (rm dir) (sdk.removed dir) written_calls stored
              (sym (ap (λ x. x.0) (upload_json-written done)) ∙ h) in
          let (u, c, opened, sent) =
            bind-ok (ask (from_file_path path) (sdk.opened path))
              (λ _. finally (send_file sdk path) (ask (close path) (sdk.closed path))) written_calls
              (upload_file sdk path written_calls).1 stored
              (ap (λ x. (x, (upload_file sdk path written_calls).1)) all) in
          let inner =
            finally-ok (send_file sdk path) (close path) (sdk.closed path) c stored
              (ap (λ x. x.0) sent) in
          let (answer, c', asked, checked) =
            bind-ok (ask (upload path) (sdk.uploaded path)) (λ answer. lift (or_failed answer)) c
              (send_file sdk path c).1 stored (ap (λ x. (x, (send_file sdk path c).1)) inner) in
          let (no_err, same) = or_failed-ok answer stored (ap (λ x. x.0) checked) in
          (answer.0, done, ap (λ x. x.0) asked ∙ ap (λ m. ok (answer.0, m)) no_err, sym same)
    ]

  -- A download of a file that holds the JSON of an artifact gives the artifact back, when the SDK reports no error and
  -- the directory can be removed, which is the last that it does.
  pub download_json-stringify :
      (root_hash dir : Text) (artifact : Value)
      → sdk.dir_made (download_prefix sdk) ≡ ok dir
      → sdk.downloaded root_hash (artifact_in sdk dir) ≡ ok none
      → sdk.contents (artifact_in sdk dir) ≡ ok (stringify artifact)
      → sdk.removed dir ≡ ok tt
      → download_json sdk root_hash [] ≡ (
        ok artifact,
        rm dir
            ∷ read_file (artifact_in sdk dir)
            ∷ download root_hash (artifact_in sdk dir)
            ∷ mkdtemp (download_prefix sdk)
            ∷ [],
      )
  unfolding download_json
  download_json-stringify root_hash dir artifact made downloaded contents removed =
      let fetched : fetch_file sdk root_hash (artifact_in sdk dir)
            (mkdtemp (download_prefix sdk) ∷ [])
          ≡ (
            ok artifact,
            read_file (artifact_in sdk dir)
                ∷ download root_hash (artifact_in sdk dir)
                ∷ mkdtemp (download_prefix sdk)
                ∷ [],
          ) =
        rw (downloaded, contents, parse-stringify artifact) in
      rw (made, continue, removed) (ap (λ x. (x.0, rm dir ∷ x.1)) fetched)
