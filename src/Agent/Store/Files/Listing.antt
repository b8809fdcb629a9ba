-- ===== src/Agent/Store/Files/Listing.antt =====
-- packages/agent/src/store.ts: `listForOwner` of `FileCaseStore`. What `readFile` throws, and `localeCompare`, are parameters.
use mathlib.Core.List.{Perm}
use mathlib.Core.List.Perm
use clawback.Prelude.{
  ◌≡◌, refl, Text, Bool, true, false, Option, none, some, List, [], ◌∷◌, lit, if◌then◌else◌,
  text_eq, Bool-cases, inl, inr,
}
use clawback.Prelude.Int.{ℤ, pos, is_nonpos, is_nonpos_iff, ◌≤ℤ◌}
use clawback.Shared.Errors.{Error, Result, ok, err, ◌>>=◌, malformed_json}
use clawback.Agent.CaseRecord.{CaseRecord}
use clawback.Agent.Store.Files.{FileSystem, RecordJson, ends_with}

-- `sort` is stable and leaves `x` before `y` unless the comparison of the two is above zero.
module _ (locale_compare : Text → Text → ℤ) where
  -- `b.createdAt.localeCompare(a.createdAt)` is not above zero.
  abbrev pub stays_before : CaseRecord → CaseRecord → Bool
  stays_before a b = is_nonpos (locale_compare b.created_at a.created_at)

  insert_record : CaseRecord → List CaseRecord → List CaseRecord
  insert_record x [] = x ∷ []
  insert_record x (y ∷ ys) =
      let later = insert_record x ys in if stays_before x y then x ∷ y ∷ ys else y ∷ later

  unfoldable pub sort_records : List CaseRecord → List CaseRecord
  unfolding insert_record
  sort_records [] = []
  sort_records (x ∷ xs) = insert_record x (sort_records xs)

-- The records of an owner.
unfoldable pub owned : Text → List CaseRecord → List CaseRecord
owned owner [] = []
owned owner (r ∷ rs) = if text_eq r.owner_id owner then r ∷ owned owner rs else owned owner rs

module _ {S C : Type 0} (fs : FileSystem S C) (json : RecordJson C) (data_dir : Text) where
  -- The records that some files hold, in the order of the files; what does not end in .json is no record.
  pub data Contents (s : S) : List Text → List CaseRecord → Type 0 where
    nothing : Contents s [] []
    skipped :
        {file : Text} {files : List Text} {rs : List CaseRecord}
        → ends_with (lit ".json") file ≡ false
        → Contents s files rs
        → Contents s (file ∷ files) rs
    held :
        {file : Text} {files : List Text} {rs : List CaseRecord} (raw : C) (r : CaseRecord)
        → ends_with (lit ".json") file ≡ true
        → fs.read_file (fs.join data_dir file) s ≡ some raw
        → json.parse raw ≡ some r
        → Contents s files rs
        → Contents s (file ∷ files) (r ∷ rs)

module _ {S C : Type 0} (fs : FileSystem S C) (json : RecordJson C) (data_dir : Text)
    (unreadable : Error) (locale_compare : Text → Text → ℤ) where
  abbrev parsed_or : Option CaseRecord → Result CaseRecord
  parsed_or none = err malformed_json
  parsed_or (some r) = ok r

  abbrev record_or : Option C → Result CaseRecord
  record_or none = err unreadable
  record_or (some raw) = parsed_or (json.parse raw)

  -- The loop over the files; the first that cannot be read or parsed ends it.
  unfoldable pub collect : Text → List Text → S → Result (List CaseRecord)
  unfolding ends_with
  collect owner [] s = ok []
  collect owner (file ∷ files) s =
      let rest = collect owner files s in
      if ends_with (lit ".json") file
      then (do
        r ← record_or (fs.read_file (fs.join data_dir file) s)
        rs ← rest
        ok (if text_eq r.owner_id owner then r ∷ rs else rs))
      else rest

  unfoldable pub list_for_owner : Text → S → Result (List CaseRecord) × S
  unfolding collect
  list_for_owner owner s =
      let s1 = fs.make_dir data_dir s in
      (
        (do rs ← collect owner (fs.read_dir data_dir s1) s1; ok (sort_records locale_compare rs)),
        s1,
      )

  collect-Contents :
      (owner : Text) (s : S) {files : List Text} {rs : List CaseRecord}
      → Contents fs json data_dir s files rs
      → collect owner files s ≡ ok (owned owner rs)
  unfolding collect owned
  collect-Contents owner s nothing = refl
  collect-Contents owner s (skipped other c) = rw other (collect-Contents owner s c)
  collect-Contents owner s (held raw r suffix reads parses c) =
      rw (suffix, reads, parses, collect-Contents owner s c) refl

module _ (locale_compare : Text → Text → ℤ) where
  -- Each record was created no earlier than the one that follows it.
  abbrev pub IsNewestFirst : List CaseRecord → Type 0
  IsNewestFirst [] = Unit
  IsNewestFirst (x ∷ []) = Unit
  IsNewestFirst (x ∷ y ∷ ys) =
      (locale_compare y.created_at x.created_at ≤ℤ pos 0) × IsNewestFirst (y ∷ ys)

  insert-Perm :
      (x : CaseRecord) (ys : List CaseRecord) → Perm (insert_record locale_compare x ys) (x ∷ ys)
  unfolding insert_record
  insert-Perm x [] = Perm.refl (x ∷ [])
  insert-Perm x (y ∷ ys) = elim (Bool-cases (stays_before locale_compare x y)) [
    | inl first ↦ rw first (Perm.refl (x ∷ y ∷ ys))
    | inr later ↦ rw later (Perm.trans (Perm.cons y (insert-Perm x ys)) (Perm.swap x y ys))
  ]

  sort-Perm : (xs : List CaseRecord) → Perm (sort_records locale_compare xs) xs
  unfolding sort_records
  sort-Perm [] = Perm.refl []
  sort-Perm (x ∷ xs) =
      Perm.trans (insert-Perm x (sort_records locale_compare xs)) (Perm.cons x (sort-Perm xs))

  module _
      (opposite : (a b : Text)
        → is_nonpos (locale_compare a b) ≡ false
        → locale_compare b a ≤ℤ pos 0) where
    insert-IsNewestFirst :
        (x : CaseRecord) (ys : List CaseRecord)
        → IsNewestFirst ys
        → IsNewestFirst (insert_record locale_compare x ys)
    unfolding insert_record
    insert-IsNewestFirst x [] h = tt
    insert-IsNewestFirst x (y ∷ []) h = elim (Bool-cases (stays_before locale_compare x y)) [
      | inl first ↦ rw first ((is_nonpos_iff _).0 first, tt)
      | inr later ↦ rw later (opposite _ _ later, tt)
    ]
    insert-IsNewestFirst x (y ∷ z ∷ zs) (h, hs) =
        let ih = insert-IsNewestFirst x (z ∷ zs) hs in
        elim (Bool-cases (stays_before locale_compare x y)) [
          | inl first ↦ rw first ((is_nonpos_iff _).0 first, (h, hs))
          | inr later ↦ elim (Bool-cases (stays_before locale_compare x z)) [
            | inl first' ↦ rw (later, first') (opposite _ _ later, rw first' at ih)
            | inr later' ↦ rw (later, later') (h, rw later' at ih)
          ]
        ]

    sort-IsNewestFirst : (xs : List CaseRecord) → IsNewestFirst (sort_records locale_compare xs)
    unfolding sort_records
    sort-IsNewestFirst [] = tt
    sort-IsNewestFirst (x ∷ xs) =
        insert-IsNewestFirst x (sort_records locale_compare xs) (sort-IsNewestFirst xs)

    -- Where every file of the directory whose name ends in .json holds a record, the cases of an owner are listed: exactly the owner's records among
    -- them, none left out or doubled, the newest first. Of `localeCompare` it is assumed that it does not put two texts each after the
    -- other.
    pub list_for_owner-Lists :
        {S C : Type 0} (fs : FileSystem S C) (json : RecordJson C) (data_dir : Text)
        (unreadable : Error) (owner : Text) (s : S) (held_records : List CaseRecord)
        → Contents fs json data_dir
            (fs.make_dir data_dir s)
            (fs.read_dir data_dir (fs.make_dir data_dir s))
            held_records
        → (listed : List CaseRecord) × ((list_for_owner fs json data_dir unreadable locale_compare
              owner s).0
            ≡ ok listed)
          × Perm listed (owned owner held_records)
          × IsNewestFirst listed
    unfolding list_for_owner
    list_for_owner-Lists fs json data_dir unreadable owner s held_records c = (
      sort_records locale_compare (owned owner held_records),
      rw (collect-Contents fs json data_dir unreadable locale_compare owner _ c) refl,
      sort-Perm _,
      sort-IsNewestFirst _,
    )
