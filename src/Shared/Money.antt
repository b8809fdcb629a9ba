-- ===== src/Shared/Money.antt =====
-- Amounts in texts: `(cents / 100).toFixed(2)`, and the amount that `extractCents`
-- (packages/agent/src/orchestrator.ts) and `extractAmountCents`
-- (packages/providers/src/sandboxProvider.ts) find by `/\$\s?(\d+(?:\.\d{1,2})?)/`. The source computes with doubles, here the
-- numbers are exact. `exact_below` bounds the amounts for which the two agree.
use clawback.Prelude.{
  ℕ, ◌^◌, suc, ◌+◌, ◌-◌, ◌*◌, ◌/◌, ◌%◌, ◌≡◌, refl, Text, Bool, false, true, ◌&&◌, ◌||◌, Option,
  none, some, [], ◌∷◌, ◌++◌, ◌==◌, leb, if◌then◌else◌, arith, append_assoc, All, ap, ◌∙◌,
}
use clawback.Prelude.Int.{ℤ, pos, negsuc}
use clawback.Json.Digits.{
  decimal, decimal-digit, is_digit, read_digits, read_digits-decimal, NoDigit,
}

-- Below 2^50 cents `Math.round(parseFloat(amount) * 100)` is the exact number of cents of an amount with at most two decimals, and
-- `(cents / 100).toFixed(2)` are its exact decimals: the rounding of the two operations on doubles stays under half a cent. From
-- 10^21 dollars on, `toFixed` would print an exponent.
abbrev pub exact_below : ℕ
exact_below = 2 ^ 50

-- Two decimals, of a number of cents.
unfoldable pub fixed2 : ℕ → Text
fixed2 n = decimal (n / 100) ++ (b'.' ∷ (48 + n / 10 % 10) ∷ (48 + n % 10) ∷ [])

unfoldable pub to_fixed2 : ℤ → Text
unfolding fixed2
to_fixed2 (pos n) = fixed2 n
to_fixed2 (negsuc n) = b'-' ∷ fixed2 (suc n)

-- `\s`
unfoldable pub is_space : ℕ → Bool
is_space c =
    leb 9 c && leb c 13
    || c == 32
    || c == 160
    || c == 5760
    || leb 8192 c && leb c 8202
    || c == 8232
    || c == 8233
    || c == 8239
    || c == 8287
    || c == 12288
    || c == 65279

abbrev skip_space : Text → Text
skip_space [] = []
skip_space (c ∷ s) = if is_space c then s else c ∷ s

abbrev hundredths : Text → ℕ
hundredths [] = 0
hundredths (e ∷ s) = if is_digit e then e - 48 else 0

-- The optional group `(?:\.\d{1,2})?`, in cents.
abbrev decimals : Text → ℕ
decimals (p ∷ d ∷ s) = if p == b'.' && is_digit d then (d - 48) * 10 + hundredths s else 0
decimals _ = 0

abbrev amount : ℕ × Text → ℕ
amount (n, s) = n * 100 + decimals s

-- The amount at the front of a text.
amount_at : Text → Option ℕ
amount_at [] = none
amount_at (c ∷ s) = if is_digit c then some (amount (read_digits 0 (c ∷ s))) else none

-- The first match in a text.
unfoldable pub extract_cents : Text → Option ℕ
unfolding amount_at is_space
extract_cents [] = none
extract_cents (c ∷ s) =
    let later = extract_cents s in
    if c == b'$' then elim (amount_at (skip_space s)) [ some n ↦ some n | none ↦ later ] else later

-- `extractAmountCents` is the same code once more. As for `extract_cents`, the source agrees for amounts under `exact_below`.
unfoldable pub extract_amount_cents : Text → Option ℕ
extract_amount_cents s = extract_cents s

amount_fixed2 :
    (n : ℕ) (s : Text) → amount (n / 100, b'.' ∷ (48 + n / 10 % 10) ∷ (48 + n % 10) ∷ s) ≡ n
amount_fixed2 n s = ground arith

skip_digit : (c : ℕ) (t : Text) → is_digit c ≡ true → skip_space (c ∷ t) ≡ c ∷ t
unfolding is_space
skip_digit c t d = ground arith

amount_at-digit :
    (c n : ℕ) (t s : Text)
    → is_digit c ≡ true
    → read_digits 0 (c ∷ t) ≡ (n, s)
    → amount_at (c ∷ t) ≡ some (amount (n, s))
unfolding amount_at
amount_at-digit c n t s d e = rw (d, e)

amount_at-decimal :
    (n : ℕ) (s : Text) → NoDigit s → amount_at (skip_space (decimal n ++ s)) ≡ some (amount (n, s))
amount_at-decimal n s h =
    let (c, t, e, d) = decimal-digit n s in
    rw (e, skip_digit c t d) (amount_at-digit c n t s d (rw e at (read_digits-decimal n s h)))

amount_at-fixed2 : (n : ℕ) (s : Text) → amount_at (skip_space (fixed2 n ++ s)) ≡ some n
unfolding fixed2
amount_at-fixed2 n s =
    rw (append_assoc (decimal (n / 100)) (b'.' ∷ (48 + n / 10 % 10) ∷ (48 + n % 10) ∷ []) s)
      (amount_at-decimal (n / 100) _ refl ∙ ap some (amount_fixed2 n s))

abbrev pub NoDollar : Text → Type 0
NoDollar = All (λ c. (c == b'$') ≡ false)

-- In exact numbers, the amount that follows the first dollar sign of a text is found again, to the cent.
pub extract_cents-fixed2 :
    (before after : Text) (n : ℕ)
    → NoDollar before
    → extract_cents (before ++ (b'$' ∷ fixed2 n ++ after)) ≡ some n
unfolding extract_cents
extract_cents-fixed2 [] after n h = rw (amount_at-fixed2 n after)
extract_cents-fixed2 (c ∷ before) after n (h, hs) = rw h (extract_cents-fixed2 before after n hs)
