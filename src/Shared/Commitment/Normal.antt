-- ===== src/Shared/Commitment/Normal.antt =====
-- Canonical JSON is plain JSON of the value with its objects' keys sorted, at every depth.
use clawback.Prelude.{
  ◌≡◌, refl, Text, true, false, List, [], ◌∷◌, ◌++◌, map, ap, ap₂, ◌∙◌, sym, append_assoc,
}
use clawback.Json.{
  Value, null, bool, num, str, arr, obj, Items, nil, cons, Fields, end, field, stringify,
  stringify_items, stringify_fields,
}
use clawback.Json.Quote.{quote}
use clawback.Shared.Commitment.{
  sort_keys, join_comma, render_entry, canonicalize, canonical_items, canonical_entries,
}
use clawback.Shared.Commitment.Sorting.{map-sort_keys}

abbrev pub of_entries : List (Text × Value) → Fields
of_entries [] = end
of_entries ((k, v) ∷ es) = field k v (of_entries es)

unfoldable mutual
  pub normalize : Value → Value
  normalize null = null
  normalize (bool b) = bool b
  normalize (num z) = num z
  normalize (str s) = str s
  normalize (arr vs) = arr (normal_items vs)
  normalize (obj fs) = obj (of_entries (sort_keys (normal_entries fs)))

  pub normal_items : Items → Items
  normal_items nil = nil
  normal_items (cons v vs) = cons (normalize v) (normal_items vs)

  pub normal_entries : Fields → List (Text × Value)
  normal_entries end = []
  normal_entries (field k v fs) = (k, normalize v) ∷ normal_entries fs

-- The texts of the entries of an array, in order.
abbrev item_texts : Items → List Text
item_texts nil = []
item_texts (cons v vs) = stringify v ∷ item_texts vs

join-items_rest :
    (t : Text) (vs : Items)
    → join_comma (t ∷ item_texts vs) ++ (b']' ∷ []) ≡ t ++ stringify_items false vs
unfolding join_comma stringify
join-items_rest t nil = refl
join-items_rest t (cons v vs) =
    append_assoc t (b',' ∷ join_comma (stringify v ∷ item_texts vs)) (b']' ∷ [])
    ∙ ap (λ u. t ++ (b',' ∷ u)) (join-items_rest (stringify v) vs)

join-items : (vs : Items) → join_comma (item_texts vs) ++ (b']' ∷ []) ≡ stringify_items true vs
unfolding join_comma stringify
join-items nil = refl
join-items (cons v vs) = join-items_rest (stringify v) vs

abbrev text_of : Text × Value → Text
text_of e = render_entry (e.0, stringify e.1)

join-fields_rest :
    (t : Text) (es : List (Text × Value))
    → join_comma (t ∷ map text_of es) ++ (b'}' ∷ []) ≡ t ++ stringify_fields false (of_entries es)
unfolding join_comma stringify
join-fields_rest t [] = refl
join-fields_rest t ((k, v) ∷ es) =
    append_assoc t (b',' ∷ join_comma (text_of (k, v) ∷ map text_of es)) (b'}' ∷ [])
    ∙ ap (λ u. t ++ (b',' ∷ u))
        (join-fields_rest (text_of (k, v)) es
          ∙ append_assoc (quote k) (b':' ∷ stringify v) (stringify_fields false (of_entries es)))

join-fields :
    (es : List (Text × Value))
    → join_comma (map text_of es) ++ (b'}' ∷ []) ≡ stringify_fields true (of_entries es)
unfolding join_comma stringify
join-fields [] = refl
join-fields ((k, v) ∷ es) =
    join-fields_rest (text_of (k, v)) es
    ∙ append_assoc (quote k) (b':' ∷ stringify v) (stringify_fields false (of_entries es))

map-text_of :
    (es : List (Text × Value))
    → map render_entry (map (λ e. (e.0, stringify e.1)) es) ≡ map text_of es
map-text_of [] = refl
map-text_of (e ∷ es) = ap (λ ts. text_of e ∷ ts) (map-text_of es)

obj_text :
    (es : List (Text × Value)) (ts : List (Text × Text))
    → ts ≡ map (λ e. (e.0, stringify e.1)) es
    → join_comma (map render_entry (sort_keys ts)) ++ (b'}' ∷ [])
      ≡ stringify_fields true (of_entries (sort_keys es))
obj_text es ts h =
    ap (λ u. join_comma (map render_entry (sort_keys u)) ++ (b'}' ∷ [])) h
    ∙ ap (λ u. join_comma (map render_entry u) ++ (b'}' ∷ [])) (sym (map-sort_keys stringify es))
    ∙ ap (λ u. join_comma u ++ (b'}' ∷ [])) (map-text_of (sort_keys es))
    ∙ join-fields (sort_keys es)

mutual
  unfolding canonicalize normalize stringify

  canonicalize_text : (v : Value) → canonicalize v ≡ stringify (normalize v)
  canonicalize_text null = refl
  canonicalize_text (bool b) = refl
  canonicalize_text (num z) = refl
  canonicalize_text (str s) = refl
  canonicalize_text (arr vs) =
      ap (λ u. b'[' ∷ u)
        (ap (λ u. join_comma u ++ (b']' ∷ [])) (items_text vs) ∙ join-items (normal_items vs))
  canonicalize_text (obj fs) = ap (λ u. b'{' ∷ u) (obj_text (normal_entries fs) _ (entries_text fs))

  items_text : (vs : Items) → canonical_items vs ≡ item_texts (normal_items vs)
  items_text nil = refl
  items_text (cons v vs) = ap₂ (λ t ts. t ∷ ts) (canonicalize_text v) (items_text vs)

  entries_text :
      (fs : Fields) → canonical_entries fs ≡ map (λ e. (e.0, stringify e.1)) (normal_entries fs)
  entries_text end = refl
  entries_text (field k v fs) = ap₂ (λ t ts. (k, t) ∷ ts) (canonicalize_text v) (entries_text fs)

-- Canonical JSON is plain JSON of the normal form.
pub canonicalize-eq-stringify : (v : Value) → canonicalize v ≡ stringify (normalize v)
canonicalize-eq-stringify v = canonicalize_text v
