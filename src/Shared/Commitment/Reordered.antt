-- ===== src/Shared/Commitment/Reordered.antt =====
-- Values that differ only in the order in which the keys of their objects were set, at any depth, have one canonical text.
use clawback.Prelude.{◌≡◌, ◌≢◌, refl, Text, ◌∷◌, [], ◌++◌, map, ap, ap₂, ◌∙◌}
use clawback.Json.{Value, arr, obj, Items, nil, cons, Fields, end, field}
use clawback.Shared.Commitment.{
  sort_keys, insert_key, join_comma, render_entry, canonicalize, canonical_items, canonical_entries,
}
use clawback.Shared.Commitment.Sorting.{insert_key_comm}

mutual
  pub data Reordered : Value → Value → Type 0 where
    unchanged : (v : Value) → Reordered v v
    in_array : {vs ws : Items} → ReorderedItems vs ws → Reordered (arr vs) (arr ws)
    in_object : {fs gs : Fields} → ReorderedFields fs gs → Reordered (obj fs) (obj gs)

  pub data ReorderedItems : Items → Items → Type 0 where
    no_items : ReorderedItems nil nil
    item :
        {v w : Value} {vs ws : Items}
        → Reordered v w
        → ReorderedItems vs ws
        → ReorderedItems (cons v vs) (cons w ws)

  pub data ReorderedFields : Fields → Fields → Type 0 where
    no_fields : ReorderedFields end end
    swap :
        (j k : Text) (v w : Value) (fs : Fields)
        → j ≢ k
        → ReorderedFields (field j v (field k w fs)) (field k w (field j v fs))
    under :
        (k : Text) {v w : Value} {fs gs : Fields}
        → Reordered v w
        → ReorderedFields fs gs
        → ReorderedFields (field k v fs) (field k w gs)
    also :
        {fs gs hs : Fields} → ReorderedFields fs gs → ReorderedFields gs hs → ReorderedFields fs hs

mutual
  unfolding canonicalize sort_keys

  value_text : {v w : Value} → Reordered v w → canonicalize v ≡ canonicalize w
  value_text (unchanged v) = refl
  value_text (in_array r) = ap (λ ts. b'[' ∷ join_comma ts ++ (b']' ∷ [])) (items_text r)
  value_text (in_object r) =
      ap (λ es. b'{' ∷ join_comma (map render_entry es) ++ (b'}' ∷ [])) (fields_text r)

  items_text : {vs ws : Items} → ReorderedItems vs ws → canonical_items vs ≡ canonical_items ws
  items_text no_items = refl
  items_text (item r rs) = ap₂ (λ t ts. t ∷ ts) (value_text r) (items_text rs)

  fields_text :
      {fs gs : Fields}
      → ReorderedFields fs gs
      → sort_keys (canonical_entries fs) ≡ sort_keys (canonical_entries gs)
  fields_text no_fields = refl
  fields_text (swap j k v w fs ne) =
      insert_key_comm j k (canonicalize v) (canonicalize w) (sort_keys (canonical_entries fs)) ne
  fields_text (under k r rs) = ap₂ (insert_key k) (value_text r) (fields_text rs)
  fields_text (also r q) = fields_text r ∙ fields_text q

pub canonicalize-Reordered : {v w : Value} → Reordered v w → canonicalize v ≡ canonicalize w
canonicalize-Reordered r = value_text r
