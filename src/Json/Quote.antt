-- ===== src/Json/Quote.antt =====
-- String literals of JSON: `JSON.stringify` of a string, code unit by code unit (the quotation mark,
-- the backslash and the controls are escaped, and so is a surrogate that has no partner), and the
-- reading of one code unit back by `JSON.parse`.
pub mod WellFormed
use clawback.Prelude.{
  ℕ, zero, suc, ◌+◌, ◌-◌, ◌*◌, ◌/◌, ◌%◌, ◌<◌, ◌≡◌, refl, ◌++◌, [], ◌∷◌, Text, Bool, false, ◌&&◌,
  ◌||◌, not, ltb, leb, ◌==◌, if◌then◌else◌, arith, append_assoc, Option-cases, inl, inr, Option,
  none, some, length, length-append, ◌≤◌,
}

unfoldable pub hex_digit : ℕ → ℕ
hex_digit d = if ltb d 10 then 48 + d else 87 + d

unfoldable pub hex_value : ℕ → Option ℕ
hex_value c =
    if leb 48 c && leb c 57
    then some (c - 48)
    else if leb 97 c && leb c 102
    then some (c - 87)
    else if leb 65 c && leb c 70
    then some (c - 55)
    else none

pub hex_value-hex_digit : (d : ℕ) → d < 16 → hex_value (hex_digit d) ≡ some d
unfolding hex_value hex_digit
hex_value-hex_digit d h = ground arith

-- `\uXXXX`
pub unicode_escape : ℕ → Text
unicode_escape c =
    92
    ∷ b'u'
    ∷ hex_digit (c / 4096 % 16)
    ∷ hex_digit (c / 256 % 16)
    ∷ hex_digit (c / 16 % 16)
    ∷ hex_digit (c % 16)
    ∷ []

abbrev pub is_high : ℕ → Bool
is_high c = leb 55296 c && leb c 56319

abbrev pub is_low : ℕ → Bool
is_low c = leb 56320 c && leb c 57343

-- The first two code units form a surrogate pair.
abbrev pub pair_starts : ℕ → Text → Bool
pair_starts c [] = false
pair_starts c (d ∷ s) = is_high c && is_low d

-- The escapes of two characters: what follows the backslash, and what that stands for.
pub short_escape : ℕ → Option ℕ
short_escape c =
    if c == 34 || c == 92
    then some c
    else if c == 8
    then some b'b'
    else if c == 9
    then some b't'
    else if c == 10
    then some b'n'
    else if c == 12
    then some b'f'
    else if c == 13
    then some b'r'
    else none

short_meaning : ℕ → Option ℕ
short_meaning e =
    if e == 34 || e == 92 || e == b'/'
    then some e
    else if e == b'b'
    then some 8
    else if e == b't'
    then some 9
    else if e == b'n'
    then some 10
    else if e == b'f'
    then some 12
    else if e == b'r'
    then some 13
    else none

short_meaning-short_escape :
    (c e : ℕ) → short_escape c ≡ some e → (short_meaning e ≡ some c) × ((e == b'u') ≡ false)
unfolding short_escape short_meaning
short_meaning-short_escape c e h = ground arith

short_escape-none : (c : ℕ) → short_escape c ≡ none → ((c == 34) ≡ false) × ((c == 92) ≡ false)
unfolding short_escape
short_escape-none c h = ground arith

-- `whole` says that a surrogate stands in a pair.
pub quote_unit : Bool → ℕ → Text
quote_unit whole c = elim (short_escape c) [
  | some e ↦ 92 ∷ e ∷ []
  | none ↦ if ltb c 32 || (is_high c || is_low c) && not whole then unicode_escape c else c ∷ []
]

-- `paired` says that the first code unit ends a pair.
pub quote_from : Bool → Text → Text
quote_from paired [] = b'"' ∷ []
quote_from paired (c ∷ s) =
    quote_unit (paired || pair_starts c s) c ++ quote_from (pair_starts c s) s

-- A literal without its opening quotation mark.
unfoldable pub quote_body : Text → Text
unfolding quote_from quote_unit short_escape unicode_escape hex_digit
quote_body s = quote_from false s

unfoldable pub quote : Text → Text
quote s = b'"' ∷ quote_body s

read_hex : ℕ → ℕ → Text → Option (ℕ × Text)
read_hex zero acc s = some (acc, s)
read_hex (suc k) acc [] = none
read_hex (suc k) acc (c ∷ s) = elim (hex_value c) [
  | none ↦ none
  | some d ↦ read_hex k (acc * 16 + d) s
]

-- What follows a backslash.
unescape : Text → Option (ℕ × Text)
unescape [] = none
unescape (e ∷ s) = elim (short_meaning e) [
  | some c ↦ some (c, s)
  | none ↦ if e == b'u' then read_hex 4 0 s else none
]

-- One code unit of a literal; a raw control is an error.
next_unit : Text → Option (ℕ × Text)
next_unit [] = none
next_unit (c ∷ s) = if c == 92 then unescape s else if ltb c 32 then none else some (c, s)

-- A literal after its opening quotation mark, and what follows the closing one.
unfoldable pub unquote : ℕ → Text → Option (Text × Text)
unfolding next_unit unescape short_meaning read_hex hex_value
unquote zero s = none
unquote (suc f) [] = none
unquote (suc f) (c ∷ s) =
    let more : Option (Text × Text) = elim (next_unit (c ∷ s)) [
      | none ↦ none
      | some (u, r) ↦ elim (unquote f r) [ none ↦ none | some (us, r') ↦ some (u ∷ us, r') ]
    ] in
    if c == 34 then some ([], s) else more

unescape-unicode : (c : ℕ) (s : Text) → c < 65536 → next_unit (unicode_escape c ++ s) ≡ some (c, s)
unfolding next_unit unescape short_meaning unicode_escape read_hex
unescape-unicode c s h = ground (
  arith,
  hex_value-hex_digit (c / 4096 % 16),
  hex_value-hex_digit (c / 256 % 16),
  hex_value-hex_digit (c / 16 % 16),
  hex_value-hex_digit (c % 16),
)

next_unit-quote_unit : (w : Bool) (c : ℕ) (s : Text) → next_unit (quote_unit w c ++ s) ≡ some (c, s)
unfolding quote_unit next_unit unescape
next_unit-quote_unit w c s = elim (Option-cases (short_escape c)) [
  | inl plain ↦ ground (arith, short_escape-none c, unescape-unicode c s)
  | inr (e, short) ↦ ground (arith, short_meaning-short_escape c e)
]

abbrev NoQuote : Text → Type 0
NoQuote [] = Unit
NoQuote (c ∷ s) = (c == 34) ≡ false

quote_unit-NoQuote : (w : Bool) (c : ℕ) (s : Text) → NoQuote (quote_unit w c ++ s)
unfolding quote_unit unicode_escape
quote_unit-NoQuote w c s = ground (arith, short_escape-none c)

unquote_step :
    (f c : ℕ) (t s us r : Text)
    → NoQuote t
    → next_unit t ≡ some (c, s)
    → unquote f s ≡ some (us, r)
    → unquote (suc f) t ≡ some (c ∷ us, r)
unfolding unquote
unquote_step f c [] s us r q n h = unfold next_unit in cc
unquote_step f c (d ∷ t) s us r q n h = rw (q, n, h)

unquote-quote_from :
    (f : ℕ) (p : Bool) (s r : Text) → length s < f → unquote f (quote_from p s ++ r) ≡ some (s, r)
unfolding quote_from
unquote-quote_from zero p s r h = absurd (omega arith)
unquote-quote_from (suc f) p [] r h = unfold unquote in refl
unquote-quote_from (suc f) p (c ∷ s) r h =
    rw (append_assoc (quote_unit (p || pair_starts c s) c) (quote_from (pair_starts c s) s) r) (
      unquote_step f c _ _ s r (quote_unit-NoQuote _ c _) (next_unit-quote_unit _ c _)
        (unquote-quote_from f (pair_starts c s) s r (omega arith)))

-- Reading a literal gives back the string that it was printed from, whatever follows it.
pub unquote-quote_body :
    (f : ℕ) (s r : Text) → length s < f → unquote f (quote_body s ++ r) ≡ some (s, r)
unquote-quote_body f s r h = unfold quote_body in unquote-quote_from f false s r h

quote_unit-length : (w : Bool) (c : ℕ) → 1 ≤ length (quote_unit w c)
unfolding quote_unit unicode_escape
quote_unit-length w c = ground arith

quote_from-length : (p : Bool) (s : Text) → length s < length (quote_from p s)
unfolding quote_from
quote_from-length p [] = omega arith
quote_from-length p (c ∷ s) = omega (
  arith,
  length-append (quote_unit (p || pair_starts c s) c) (quote_from (pair_starts c s) s),
  quote_unit-length (p || pair_starts c s) c,
  quote_from-length (pair_starts c s) s,
)

pub length-quote_body : (s : Text) → length s < length (quote_body s)
unfolding quote_body
length-quote_body s = quote_from-length false s
