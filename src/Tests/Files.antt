-- ===== src/Tests/Files.antt =====
-- Ann's cases in a directory of files.
use mathlib.Core.List.{Perm}
use clawback.Prelude.{
  ℕ, zero, suc, ◌≡◌, refl, Text, false, Option, none, some, List, [], ◌∷◌, ◌++◌, lit, length, map,
  text_eq, lookup, insert, Dict, arith,
}
use clawback.Prelude.Int.{ℤ, pos, ◌≤ℤ◌, sub_ℕ, is_nonpos}
use clawback.Shared.Errors.{ok, malformed_json}
use clawback.Agent.CaseRecord.{CaseRecord}
use clawback.Agent.Store.Files.{FileSystem, RecordJson, ends_with, file_create, file_get}
use clawback.Agent.Store.Files.Listing.{
  nothing, skipped, held, owned, IsNewestFirst, list_for_owner, list_for_owner-Lists,
}
use clawback.Tests.Data.{waiting}

skip : ℕ → Text → Text
skip zero s = s
skip (suc n) [] = []
skip (suc n) (c ∷ s) = skip n s

abbrev names : Text → Dict (Option CaseRecord) → List Text
names dir s = map (λ f. skip (suc (length dir)) (f.0)) s

abbrev head_of : Text → ℕ
head_of [] = 0
head_of (c ∷ s) = c

-- A directory as the paths in it, where a file contains a record or nothing that is one.
abbrev files : FileSystem (Dict (Option CaseRecord)) (Option CaseRecord)
files = record {
  join = λ dir name. dir ++ b'/' ∷ name;
  read_file = lookup;
  write_file = insert;
  make_dir = λ dir s. s;
  read_dir = names;
}

abbrev as_record : RecordJson (Option CaseRecord)
as_record = record { print = some; parse = λ c. c }

abbrev older : CaseRecord
older = record waiting { case_id = lit "case_1"; created_at = lit "s9" }

-- By the first code unit.
abbrev compare_texts : Text → Text → ℤ
compare_texts a b = sub_ℕ (head_of a) (head_of b)

opposite : (a b : Text) → is_nonpos (compare_texts a b) ≡ false → compare_texts b a ≤ℤ pos 0
opposite a b h = ground arith

abbrev saved_files : Dict (Option CaseRecord)
saved_files =
    insert (lit "d/notes") none (
      file_create files as_record (lit "d") waiting
        (file_create files as_record (lit "d") older []))

created_found : file_get files as_record (lit "d") (lit "case_1") saved_files ≡ ok older
unfolding file_get file_create lookup insert lit text_eq
created_found = refl

list_for_owner-Lists_example :
    (listed : List CaseRecord) × ((list_for_owner files as_record
        (lit "d")
        malformed_json
        compare_texts
        (lit "ann")
        saved_files).0
      ≡ ok listed)
    × Perm listed (owned (lit "ann") (older ∷ waiting ∷ []))
    × IsNewestFirst compare_texts listed
unfolding lit lookup insert file_create skip ends_with text_eq
list_for_owner-Lists_example =
    list_for_owner-Lists compare_texts opposite files as_record (lit "d") malformed_json (lit "ann")
      saved_files (older ∷ waiting ∷ [])
      (held (some older) older refl refl refl
        (held (some waiting) waiting refl refl refl (skipped refl nothing)))
