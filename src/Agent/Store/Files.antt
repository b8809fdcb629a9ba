-- ===== src/Agent/Store/Files.antt =====
-- packages/agent/src/store.ts: `FileCaseStore`, over the file system, `join` of node:path and the form of a record as JSON. That a
-- directory cannot be made or a file cannot be written is not modelled.
pub mod Listing
use clawback.Prelude.{
  ◌≡◌, ◌≢◌, Text, Bool, true, false, Option, none, some, List, [], ◌∷◌, ◌++◌, lit, ◌||◌, ◌==◌,
  if◌then◌else◌, text_eq, All, refl, text_eq_refl, text_eq-cases, text_eq_iff, arith, Bool-cases,
  inl, inr, append_assoc,
}
use clawback.Prelude.Int.{ℤ, is_nonpos}
use clawback.Shared.Errors.{Error, Result, ok, err, ◌>>=◌, case_not_found, external, malformed_json}
use clawback.Agent.CaseRecord.{CaseRecord}

-- What the store uses of node:fs and node:path, over the type of what a file contains, which the store only passes on.
-- `read_file` gives none where it fails.
pub record FileSystem (S C : Type 0) : Type 0 where
  pub join : Text → Text → Text
  pub read_file : Text → S → Option C
  pub write_file : Text → C → S → S
  pub make_dir : Text → S → S
  pub read_dir : Text → S → List Text

-- `JSON.stringify(record, null, 2)` and `JSON.parse(raw) as CaseRecord`, none where it throws.
pub record RecordJson (C : Type 0) : Type 0 where
  pub print : CaseRecord → C
  pub parse : C → Option CaseRecord

-- `s.endsWith(suffix)`
unfoldable pub ends_with : Text → Text → Bool
ends_with suffix [] = text_eq [] suffix
ends_with suffix (c ∷ s) = let later = ends_with suffix s in text_eq (c ∷ s) suffix || later

module _ {S C : Type 0} (fs : FileSystem S C) (json : RecordJson C) (data_dir : Text) where
  unfoldable pub path_for : Text → Text
  path_for case_id = fs.join data_dir (case_id ++ lit ".json")

  unfoldable pub file_save : CaseRecord → S → S
  unfolding path_for
  file_save r s = fs.write_file (path_for r.case_id) (json.print r) (fs.make_dir data_dir s)

  unfoldable pub file_create : CaseRecord → S → S
  unfolding file_save
  file_create r s = file_save r (fs.make_dir data_dir s)

  abbrev or_not_found : Text → Option CaseRecord → Result CaseRecord
  or_not_found case_id none = err (case_not_found case_id)
  or_not_found case_id (some r) = ok r

  abbrev parsed : Option C → Option CaseRecord
  parsed none = none
  parsed (some raw) = json.parse raw

  -- `get`: whatever fails in the reading or parsing is a case that is not found.
  unfoldable pub file_get : Text → S → Result CaseRecord
  unfolding path_for
  file_get case_id s = or_not_found case_id (parsed (fs.read_file (path_for case_id) s))
