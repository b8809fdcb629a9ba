-- ===== src/Shared/Commitment.antt =====
-- packages/shared/src/commitment.ts. SHA-256 is Node's: the parameter `sha256` gives the hexadecimal digest
-- of a text. `canonicalize` is the source's; `JSON.stringify` on scalars is `Json.stringify`.
pub mod Sorting
pub mod Normal
pub mod Reordered
pub mod Binding
use clawback.Prelude.{
  Text, Bool, true, false, Option, none, some, List, [], ◌∷◌, ◌++◌, map, if◌then◌else◌, text_eq,
  text_lt, lit,
}
use clawback.Json.{
  Value, null, bool, num, str, arr, obj, Items, nil, cons, Fields, end, field, stringify,
}
use clawback.Json.Quote.{quote}

-- `Array.prototype.sort` is stable and leaves the order of the keys; insertion sort is one stable
-- sort, and all agree on distinct keys. The entries carry what stands behind the key.
module _ {A : Type 0} where
  unfoldable pub insert_key : Text → A → List (Text × A) → List (Text × A)
  insert_key k v [] = (k, v) ∷ []
  insert_key k v ((j, w) ∷ rest) =
      if text_lt j k then (j, w) ∷ insert_key k v rest else (k, v) ∷ (j, w) ∷ rest

  unfoldable pub sort_keys : List (Text × A) → List (Text × A)
  unfolding insert_key
  sort_keys [] = []
  sort_keys ((k, v) ∷ rest) = insert_key k v (sort_keys rest)

-- `join(",")`
unfoldable pub join_comma : List Text → Text
join_comma [] = []
join_comma (t ∷ []) = t
join_comma (t ∷ u ∷ rest) = t ++ (b',' ∷ join_comma (u ∷ rest))

abbrev pub render_entry : Text × Text → Text
render_entry e = quote e.0 ++ (b':' ∷ e.1)

unfoldable mutual
  pub canonicalize : Value → Text
  canonicalize null = stringify null
  canonicalize (bool b) = stringify (bool b)
  canonicalize (num z) = stringify (num z)
  canonicalize (str s) = stringify (str s)
  canonicalize (arr vs) = b'[' ∷ join_comma (canonical_items vs) ++ (b']' ∷ [])
  canonicalize (obj fs) =
      b'{' ∷ join_comma (map render_entry (sort_keys (canonical_entries fs))) ++ (b'}' ∷ [])

  pub canonical_items : Items → List Text
  canonical_items nil = []
  canonical_items (cons v vs) = canonicalize v ∷ canonical_items vs

  pub canonical_entries : Fields → List (Text × Text)
  canonical_entries end = []
  canonical_entries (field k v fs) = (k, canonicalize v) ∷ canonical_entries fs

abbrev pub or_null : Option Text → Value
or_null none = null
or_null (some t) = str t

module _ (sha256 : Text → Text) where
  unfoldable pub commit : Value → Text
  commit artifact = lit "0x" ++ sha256 (canonicalize artifact)

  unfoldable pub verify_commitment : Value → Text → Bool
  unfolding commit
  verify_commitment artifact expected = text_eq (commit artifact) expected

  unfoldable pub chain : Option Text → Value → Text
  unfolding commit
  chain previous artifact =
      commit (obj (field (lit "previous") (or_null previous) (field (lit "artifact") artifact end)))
