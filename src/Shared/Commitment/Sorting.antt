-- ===== src/Shared/Commitment/Sorting.antt =====
-- Sorting by key: it keeps the entries, and does not depend on their order when keys are distinct.
use clawback.Prelude.{
  ◌≡◌, refl, Text, true, false, List, [], ◌∷◌, map, arith, text_lt, text_eq, text_eq_iff, ap, ◌∙◌,
  ◌≢◌, ◌||◌,
}
use clawback.Shared.Commitment.{insert_key, sort_keys}

-- Sorting looks at the keys alone.
module _ {A B : Type 0} (f : A → B) where
  abbrev on_value : Text × A → Text × B
  on_value e = (e.0, f e.1)

  map-insert_key :
      (k : Text) (v : A) (es : List (Text × A))
      → map on_value (insert_key k v es) ≡ insert_key k (f v) (map on_value es)
  unfolding insert_key
  map-insert_key k v [] = refl
  map-insert_key k v ((j, w) ∷ es) = ground (arith, map-insert_key k v es)

  pub map-sort_keys :
      (es : List (Text × A)) → map on_value (sort_keys es) ≡ sort_keys (map on_value es)
  unfolding sort_keys
  map-sort_keys [] = refl
  map-sort_keys ((k, v) ∷ es) =
      map-insert_key k v (sort_keys es) ∙ ap (insert_key k (f v)) (map-sort_keys es)

-- The order of texts is a strict total order.
text_lt_total : (s t : Text) → ((text_eq s t || text_lt s t) || text_lt t s) ≡ true
unfolding text_lt text_eq
text_lt_total [] [] = refl
text_lt_total [] (d ∷ t) = refl
text_lt_total (c ∷ s) [] = refl
text_lt_total (c ∷ s) (d ∷ t) = ground (arith, text_lt_total s t)

text_lt_asym : (s t : Text) → text_lt s t ≡ true → text_lt t s ≡ false
unfolding text_lt
text_lt_asym [] [] h = refl
text_lt_asym [] (d ∷ t) h = refl
text_lt_asym (c ∷ s) [] h = cc
text_lt_asym (c ∷ s) (d ∷ t) h = ground (arith, text_lt_asym s t)

text_lt_trans : (s t u : Text) → text_lt s t ≡ true → text_lt t u ≡ true → text_lt s u ≡ true
unfolding text_lt
text_lt_trans s t [] h k = cc
text_lt_trans s [] (e ∷ u) h k = cc
text_lt_trans [] (d ∷ t) (e ∷ u) h k = refl
text_lt_trans (c ∷ s) (d ∷ t) (e ∷ u) h k = ground (arith, text_lt_trans s t u)

-- Entries with distinct keys may be inserted in either order.
pub insert_key_comm :
    {A : Type 0} (j k : Text) (v w : A) (es : List (Text × A))
    → j ≢ k
    → insert_key j v (insert_key k w es) ≡ insert_key k w (insert_key j v es)
unfolding insert_key
insert_key_comm j k v w [] ne =
    ground (arith, text_lt_total j k, text_lt_asym j k, text_lt_asym k j, text_eq_iff j k)
insert_key_comm j k v w ((i, x) ∷ es) ne = ground (
  arith,
  text_lt_total j k,
  text_lt_asym j k,
  text_lt_asym k j,
  text_eq_iff j k,
  insert_key_comm j k v w es,
  text_lt_trans i j k,
  text_lt_trans i k j,
  text_lt_trans j i k,
  text_lt_trans k i j,
  text_lt_trans j k i,
  text_lt_trans k j i,
  text_lt_total i j,
  text_lt_total i k,
  text_lt_asym i j,
  text_lt_asym i k,
  text_lt_asym j i,
  text_lt_asym k i,
  text_eq_iff i j,
  text_eq_iff i k,
)
