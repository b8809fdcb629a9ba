-- ===== src/Privacy/Redact.antt =====
-- packages/privacy/src/redact.ts. `Object.entries` of a plain object is its list of keys and values;
-- `out[key] = …` sets a key of an object; for the key `__proto__` it would not.
use clawback.Prelude.{
  ◌≡◌, ◌≢◌, refl, Text, Bool, true, false, List, [], ◌∷◌, lit, text_eq, text_eq_iff, if◌then◌else◌,
  arith, Option, none, some, ap, sym, ◌∙◌, inl, inr, ◌⊎◌, OneOf, Bool-cases, Option-cases,
  text_eq-cases,
}
use clawback.Json.{Value, str, Fields, end, field}
use clawback.Shared.Types.{DataFlowEntry, DataVisibility, public, data_flow_registry}

-- `visibility !== "public"`
abbrev pub is_private : DataVisibility → Bool
is_private public = false
is_private _ = true

abbrev private_names : List DataFlowEntry → List Text
private_names [] = []
private_names (e ∷ es) =
    if is_private e.visibility then e.name ∷ private_names es else private_names es

-- `SENSITIVE_FIELDS`
unfoldable pub sensitive_fields : List Text
unfolding data_flow_registry
sensitive_fields = private_names data_flow_registry

-- `Set.has`
unfoldable pub has : List Text → Text → Bool
has [] key = false
has (k ∷ ks) key = if text_eq k key then true else has ks key

-- A key that is there keeps its place.
unfoldable pub set_field : Text → Value → Fields → Fields
set_field k v end = field k v end
set_field k v (field j w fs) = if text_eq j k then field j v fs else field j w (set_field k v fs)

unfoldable pub redact_onto : Fields → Fields → Fields
redact_onto out end = out
redact_onto out (field key value rest) =
    redact_onto
      (set_field key (if has sensitive_fields key then str (lit "[redacted]") else value) out) rest

unfoldable pub redact : Fields → Fields
unfolding redact_onto
redact entries = redact_onto end entries

-- The value of a key.
unfoldable pub get_key : Text → Fields → Option Value
get_key k end = none
get_key k (field j v fs) = if text_eq j k then some v else get_key k fs

-- A key occurs once in an object.
abbrev pub Distinct : Fields → Type 0
Distinct end = Unit
Distinct (field k v fs) = (get_key k fs ≡ none) × Distinct fs

abbrev pub redacted : Bool → Option Value → Option Value
redacted b none = none
redacted b (some v) = some (if b then str (lit "[redacted]") else v)

get_key-set_field :
    (j k : Text) (v : Value) (fs : Fields)
    → get_key j (set_field k v fs) ≡ (if text_eq k j then some v else get_key j fs)
unfolding get_key set_field
get_key-set_field j k v end = refl
get_key-set_field j k v (field i w fs) =
    ground (arith, text_eq_iff i k, text_eq_iff i j, text_eq_iff k j, get_key-set_field j k v fs)

abbrev or_else : Option Value → Option Value → Option Value
or_else none o = o
or_else (some v) o = some v

get_key-redact_onto :
    (j : Text) (out fs : Fields)
    → Distinct fs
    → get_key j (redact_onto out fs)
      ≡ or_else (redacted (has sensitive_fields j) (get_key j fs)) (get_key j out)
unfolding redact_onto get_key
get_key-redact_onto j out end d = refl
get_key-redact_onto j out (field k v fs) (fresh, d) =
    let shown : Value = if has sensitive_fields k then str (lit "[redacted]") else v in
    ground (
      arith,
      get_key-redact_onto j (set_field k shown out) fs d,
      get_key-set_field j k shown out,
      text_eq_iff k j,
    )

get_key-redact :
    (j : Text) (fs : Fields)
    → Distinct fs
    → get_key j (redact fs) ≡ redacted (has sensitive_fields j) (get_key j fs)
unfolding redact get_key
get_key-redact j fs d = ground (arith, get_key-redact_onto j end fs d)

-- The registry has an entry of this name that is not public.
abbrev pub NotPublic : List DataFlowEntry → Text → Type 0
NotPublic es key =
    (e : DataFlowEntry) × OneOf e es × (is_private e.visibility ≡ true) × (e.name ≡ key)

has_later :
    (e : DataFlowEntry) (es : List DataFlowEntry) (key : Text)
    → NotPublic es key
    → NotPublic (e ∷ es) key
has_later e es key (f, there, hides, named) = (f, inr there, hides, named)

has-NotPublic :
    (es : List DataFlowEntry) (key : Text) → has (private_names es) key ≡ true → NotPublic es key
unfolding has
has-NotPublic [] key h = cc h
has-NotPublic (e ∷ es) key h = elim (Bool-cases (is_private e.visibility)) [
  | inr shown ↦ has_later e es key (has-NotPublic es key (rw shown at h))
  | inl hides ↦ elim (text_eq-cases e.name key) [
    | inl named ↦ (e, inl refl, hides, named)
    | inr other ↦ has_later e es key (has-NotPublic es key (rw (hides, other) at h))
  ]
]

NotPublic-has :
    (es : List DataFlowEntry) (key : Text) → NotPublic es key → has (private_names es) key ≡ true
unfolding has
NotPublic-has [] key (e, there, hides, named) = absurd there
NotPublic-has (f ∷ es) key (e, inl same, hides, named) =
    let here : text_eq f.name key ≡ true =
      (text_eq_iff f.name key).1 (ap (λ x. x.name) (sym same) ∙ named) in
    let off : is_private f.visibility ≡ true =
      ap (λ x. is_private x.visibility) (sym same) ∙ hides in
    rw (off, here)
NotPublic-has (f ∷ es) key (e, inr there, hides, named) =
    let later = NotPublic-has es key (e, there, hides, named) in
    elim (Bool-cases (is_private f.visibility)) [
      | inr shown ↦ rw shown later
      | inl off ↦ elim (Bool-cases (text_eq f.name key)) [
        | inl here ↦ rw (off, here)
        | inr other ↦ rw (off, other) later
      ]
    ]

abbrev pub hidden : Value
hidden = str (lit "[redacted]")

-- A key of an object in the redacted one: hidden where the registry has an entry of that name that is not public, and
-- with its value where it has none.
abbrev pub Follows : Text → Value → Fields → Type 0
Follows key value shown =
    (NotPublic data_flow_registry key × (get_key key shown ≡ some hidden))
    ⊎ ((¬ NotPublic data_flow_registry key) × (get_key key shown ≡ some value))

-- Redaction follows the registry, for objects with any keys and values: a key other than `__proto__`, which JavaScript does not
-- set as a key, is in the redacted object exactly when it is in the object, and then it is hidden if the registry has an
-- entry of its name that is not public, and keeps its value if not. It is assumed that no key occurs twice.
pub redact-Follows :
    (fs : Fields) (key : Text)
    → Distinct fs
    → key ≢ lit "__proto__"
    → ((get_key key fs ≡ none) × (get_key key (redact fs) ≡ none))
      ⊎ ((value : Value) × (get_key key fs ≡ some value) × Follows key value (redact fs))
unfolding sensitive_fields
redact-Follows fs key d ordinary = elim (Option-cases (get_key key fs)) [
  | inl absent ↦ inl (absent, get_key-redact key fs d ∙ ap (redacted _) absent)
  | inr (value, there) ↦ elim (Bool-cases (has sensitive_fields key)) [
    | inl listed ↦ inr (
      value,
      there,
      inl (
        has-NotPublic data_flow_registry key listed,
        get_key-redact key fs d ∙ rw (there, listed) refl,
      ),
    )
    | inr open_key ↦ inr (
      value,
      there,
      inr (
        (λ n. cc (NotPublic-has data_flow_registry key n, open_key)),
        get_key-redact key fs d ∙ rw (there, open_key) refl,
      ),
    )
  ]
]
