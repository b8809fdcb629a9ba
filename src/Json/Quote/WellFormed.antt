-- ===== src/Json/Quote/WellFormed.antt =====
-- Texts of code units in which every surrogate stands in a pair, as ECMAScript's `isWellFormed` tells them; quoted
-- strings are such.
use clawback.Prelude.{
  ℕ, ◌<◌, ◌≡◌, refl, ◌++◌, [], ◌∷◌, Text, Bool, true, false, ◌&&◌, ◌||◌, not, ltb, arith, inl, inr,
  Option-cases, Bool-cases, some,
}
use clawback.Json.Quote.{
  is_high, is_low, pair_starts, quote, quote_body, quote_from, quote_unit, short_escape,
  unicode_escape, hex_digit,
}

pub data WellFormed : Text → Type 0 where
  no_units : WellFormed []
  unit : (c : ℕ) {s : Text} → (is_high c || is_low c) ≡ false → WellFormed s → WellFormed (c ∷ s)
  pair :
      (c d : ℕ) {s : Text}
      → is_high c ≡ true
      → is_low d ≡ true
      → WellFormed s
      → WellFormed (c ∷ d ∷ s)

pub append-WellFormed : (s t : Text) → WellFormed s → WellFormed t → WellFormed (s ++ t)
append-WellFormed _ t no_units k = k
append-WellFormed _ t (unit c {s} plain h) k = unit c plain (append-WellFormed s t h k)
append-WellFormed _ t (pair c d {s} high low h) k = pair c d high low (append-WellFormed s t h k)

abbrev pub is_plain : Text → Bool
is_plain [] = true
is_plain (c ∷ s) = not (is_high c || is_low c) && is_plain s

pub plain-WellFormed : (s : Text) → is_plain s ≡ true → WellFormed s
plain-WellFormed [] h = no_units
plain-WellFormed (c ∷ s) h = unit c (ground arith) (plain-WellFormed s (ground arith))

short_escape-plain : (c e : ℕ) → short_escape c ≡ some e → (is_high e || is_low e) ≡ false
unfolding short_escape
short_escape-plain c e h = ground arith

hex_digit-plain : (d : ℕ) → d < 16 → (is_high (hex_digit d) || is_low (hex_digit d)) ≡ false
unfolding hex_digit
hex_digit-plain d h = ground arith

unicode_escape-WellFormed : (c : ℕ) → WellFormed (unicode_escape c)
unfolding unicode_escape
unicode_escape-WellFormed c = unit 92 refl (
    unit 117 refl (
      unit _ (hex_digit-plain _ (omega arith)) (
        unit _ (hex_digit-plain _ (omega arith)) (
          unit _ (hex_digit-plain _ (omega arith))
            (unit _ (hex_digit-plain _ (omega arith)) no_units)))))

quote_unit-alone : (c : ℕ) → WellFormed (quote_unit false c)
unfolding quote_unit
quote_unit-alone c = elim (Option-cases (short_escape c)) [
  | inr (e, h) ↦ rw (h, quote_unit) (unit 92 refl (unit e (short_escape-plain c e h) no_units))
  | inl h ↦ elim (Bool-cases (ltb c 32 || (is_high c || is_low c) && true)) [
    | inl escaped ↦ rw (h, escaped, quote_unit) (unicode_escape-WellFormed c)
    | inr raw ↦ rw (h, raw, quote_unit) (unit c (ground arith) no_units)
  ]
]

quote_unit-whole : (c : ℕ) → (is_high c || is_low c) ≡ true → quote_unit true c ≡ c ∷ []
unfolding quote_unit short_escape
quote_unit-whole c h = ground arith

low_starts : (d : ℕ) (s : Text) → is_low d ≡ true → pair_starts d s ≡ false
low_starts d [] h = refl
low_starts d (e ∷ s) h = ground arith

quote_from-WellFormed : (s : Text) → WellFormed (quote_from false s)
unfolding quote_from
quote_from-WellFormed [] = unit 34 refl no_units
quote_from-WellFormed (c ∷ []) =
    append-WellFormed (quote_unit false c) (34 ∷ []) (quote_unit-alone c) (unit 34 refl no_units)
quote_from-WellFormed (c ∷ d ∷ s) = elim (Bool-cases (is_high c && is_low d)) [
  | inl paired ↦
      rw
        (
          paired,
          quote_unit-whole c (ground arith),
          quote_unit-whole d (ground arith),
          low_starts d s (ground arith),
        )
        (pair c d (ground arith) (ground arith) (quote_from-WellFormed s))
  | inr alone ↦ rw alone (
      append-WellFormed (quote_unit false c) (quote_from false (d ∷ s)) (quote_unit-alone c)
        (quote_from-WellFormed (d ∷ s)))
]

pub quote-WellFormed : (s : Text) → WellFormed (quote s)
unfolding quote quote_body
quote-WellFormed s = unit 34 refl (quote_from-WellFormed s)
