-- ===== src/Json/Digits.antt =====
-- Decimal printing and reading of integers.
use clawback.Prelude.{
  ℕ, zero, suc, ◌+◌, ◌-◌, ◌*◌, ◌/◌, ◌%◌, ◌≤◌, ◌≡◌, ◌++◌, [], ◌∷◌, Text, Bool, false, true, refl,
  ◌∙◌, ◌&&◌, ltb, leb, if◌then◌else◌, arith, append_assoc, Bool-cases, inl, inr,
}
use clawback.Prelude.Int.{ℤ, pos, negsuc}

-- The fuel bounds the number of digits; `n` is always enough.
unfoldable pub digits : ℕ → ℕ → Text
digits zero n = (48 + n % 10) ∷ []
digits (suc f) n =
    let more = digits f (n / 10) ++ (48 + n % 10) ∷ [] in if ltb n 10 then (48 + n) ∷ [] else more

unfoldable pub decimal : ℕ → Text
unfolding digits
decimal n = digits n n

unfoldable pub print_int : ℤ → Text
unfolding decimal
print_int (pos n) = decimal n
print_int (negsuc n) = b'-' ∷ decimal (suc n)

abbrev pub is_digit : ℕ → Bool
is_digit c = leb 48 c && leb c 57

unfoldable pub read_digits : ℕ → Text → ℕ × Text
read_digits acc [] = (acc, [])
read_digits acc (c ∷ s) =
    let more = read_digits (acc * 10 + (c - 48)) s in if is_digit c then more else (acc, c ∷ s)

-- No digit at the front.
abbrev pub NoDigit : Text → Type 0
NoDigit [] = Unit
NoDigit (c ∷ s) = is_digit c ≡ false

read_digits-NoDigit : (acc : ℕ) (s : Text) → NoDigit s → read_digits acc s ≡ (acc, s)
unfolding read_digits
read_digits-NoDigit acc [] h = ground arith
read_digits-NoDigit acc (c ∷ s) h = ground arith

read_digits-digits_step :
    (f n : ℕ) (s : Text) → n ≤ f → read_digits 0 (digits f n ++ s) ≡ read_digits n s
unfolding digits read_digits
read_digits-digits_step zero n s h = ground arith
read_digits-digits_step (suc f) n s h = elim (Bool-cases (ltb n 10)) [
  | inl small ↦ ground arith
  | inr large ↦ ground (
    arith,
    append_assoc (digits f (n / 10)) ((48 + n % 10) ∷ []) s,
    read_digits-digits_step f (n / 10) ((48 + n % 10) ∷ s) (ground arith),
  )
]

pub read_digits-decimal : (n : ℕ) (s : Text) → NoDigit s → read_digits 0 (decimal n ++ s) ≡ (n, s)
unfolding decimal
read_digits-decimal n s h =
    ground (arith, read_digits-digits_step n n s (omega arith), read_digits-NoDigit n s h)

digits-digit :
    (f n : ℕ) (s : Text) → (c : ℕ) × (t : Text) × (digits f n ++ s ≡ c ∷ t) × (is_digit c ≡ true)
unfolding digits
digits-digit zero n s = (48 + n % 10, s, refl, ground arith)
digits-digit (suc f) n s = elim (Bool-cases (ltb n 10)) [
  | inl small ↦ (48 + n, s, rw small, ground arith)
  | inr large ↦
      let (c, t, e, d) = digits-digit f (n / 10) ((48 + n % 10) ∷ s) in
      (c, t, rw large (append_assoc (digits f (n / 10)) ((48 + n % 10) ∷ []) s ∙ e), d)
]

-- A printed number begins with a digit.
pub decimal-digit :
    (n : ℕ) (s : Text) → (c : ℕ) × (t : Text) × (decimal n ++ s ≡ c ∷ t) × (is_digit c ≡ true)
unfolding decimal
decimal-digit n s = digits-digit n n s
