-- ===== src/Web/Client/ReceiptCard/Claims.antt =====
-- apps/web/src/app/cases/[caseId]/ReceiptCard.tsx: what the card says agrees with the receipt and with the report.
use mathlib.Core.List.{Perm, perm_middle, map-append}
use mathlib.Core.List.Perm
use clawback.Prelude.{
  ℕ, zero, suc, ◌+◌, ◌≡◌, ◌↔◌, refl, ap, ap₂, ◌∙◌, Text, Bool, true, false, ◌&&◌, Option, none,
  some, List, [], ◌∷◌, ◌++◌, length, arith, append-nil, Bool-cases, inl, inr, map, All,
}
use clawback.Prelude.Int.{pos}
use clawback.Shared.Money.{extract_cents, extract_cents-fixed2, to_fixed2, fixed2}
use clawback.Shared.Types.{ClawbackReceipt}
use clawback.Receipts.Verifier.{
  VerificationCheck, VerificationReport, CheckStrength, cryptographically_verifiable, trusted_claim,
  not_independently_verifiable, is_true, is_cryptographic, cryptographic, every_true,
  verify_receipt, Artifacts,
}
use clawback.Web.Client.Display.{Badge, badge_for, verified_badge}
use clawback.Web.Client.ReceiptCard.{cents_to_dollars, savings_view}
use clawback.Web.Client.ReceiptCard.Checks.{
  CheckRow, Explanation, explanation, check_rows, crypto_checks, other_checks, not_cryptographic,
}

-- A row without its number.
abbrev pub Shown : Type 0
Shown = Text × Badge × Text

abbrev pub of_row : CheckRow → Shown
of_row row = (row.question, row.badge, row.detail)

unfoldable pub of_check : VerificationCheck → Shown
unfolding badge_for
of_check check = (check.question, badge_for check, check.detail)

abbrev pub IsVerifiedRow : CheckRow → Type 0
IsVerifiedRow row = row.badge ≡ verified_badge

rows-shown : (i : ℕ) (cs : List VerificationCheck) → map of_row (check_rows i cs) ≡ map of_check cs
unfolding check_rows of_check
rows-shown i [] = refl
rows-shown i (c ∷ cs) = ap (λ rs. of_check c ∷ rs) (rows-shown (suc i) cs)

-- `n` numbers from `i` on.
unfoldable pub numbers : ℕ → ℕ → List ℕ
numbers i zero = []
numbers i (suc n) = i ∷ numbers (suc i) n

abbrev pub index_of : CheckRow → ℕ
index_of row = row.index

rows-numbers :
    (i : ℕ) (cs : List VerificationCheck) → map index_of (check_rows i cs) ≡ numbers i (length cs)
unfolding check_rows numbers
rows-numbers i [] = refl
rows-numbers i (c ∷ cs) = ap (λ ns. i ∷ ns) (rows-numbers (suc i) cs)

numbers_at : (i j n : ℕ) → i ≡ j → numbers i n ≡ numbers j n
numbers_at i j n e = ap (λ k. numbers k n) e

numbers-append : (i m n : ℕ) → numbers i m ++ numbers (i + m) n ≡ numbers i (m + n)
unfolding numbers
numbers-append i zero n =
    let none_left : 0 + n ≡ n = omega arith in rw none_left (numbers_at (i + 0) i n (omega arith))
numbers-append i (suc m) n =
    let more : suc m + n ≡ suc (m + n) = omega arith in
    rw (more, numbers_at (i + suc m) (suc i + m) n (omega arith))
      (ap (λ ns. i ∷ ns) (numbers-append (suc i) m n))

length-split :
    (cs : List VerificationCheck)
    → length (cryptographic cs) + length (not_cryptographic cs) ≡ length cs
unfolding not_cryptographic
length-split [] = refl
length-split (c ∷ cs) = elim (Bool-cases (is_cryptographic c.strength)) [
  | inl first ↦ rw first (omega (arith, length-split cs))
  | inr second ↦ rw second (omega (arith, length-split cs))
]

split-Perm : (cs : List VerificationCheck) → Perm (cryptographic cs ++ not_cryptographic cs) cs
unfolding not_cryptographic
split-Perm [] = Perm.refl []
split-Perm (c ∷ cs) = elim (Bool-cases (is_cryptographic c.strength)) [
  | inl first ↦ rw first (Perm.cons c (split-Perm cs))
  | inr second ↦ rw second (
      Perm.trans (perm_middle (cryptographic cs) (not_cryptographic cs))
        (Perm.cons c (split-Perm cs)))
]

verified_row :
    (s : CheckStrength) (result : Option Bool) (question detail : Text)
    → is_cryptographic s ≡ true
    → (is_true result ≡ true) ↔ (
        badge_for (record { question = question; result = result; strength = s; detail = detail })
        ≡ verified_badge)
unfolding badge_for
verified_row cryptographically_verifiable none q d h = (λ e. cc e, λ e. cc e)
verified_row cryptographically_verifiable (some true) q d h = (λ e. refl, λ e. refl)
verified_row cryptographically_verifiable (some false) q d h = (λ e. cc e, λ e. cc e)
verified_row trusted_claim result q d h = cc h
verified_row not_independently_verifiable result q d h = cc h

true_and : (a b : Bool) → (a && b) ≡ true → (a ≡ true) × (b ≡ true)
true_and true b h = (refl, h)
true_and false b h = cc h

every_true_iff :
    (i : ℕ) (cs : List VerificationCheck)
    → (every_true (cryptographic cs) ≡ true) ↔ All IsVerifiedRow (check_rows i (cryptographic cs))
unfolding check_rows
every_true_iff i [] = (λ e. tt, λ e. refl)
every_true_iff i (c ∷ cs) = elim (Bool-cases (is_cryptographic c.strength)) [
  | inl h ↦
      let (forth, back) = verified_row c.strength c.result c.question c.detail h in
      let (forth', back') = every_true_iff (suc i) cs in
      rw h
        (λ e. let (a, b) = true_and _ _ e in (forth a, forth' b), λ (a, b). rw (back a) (back' b))
  | inr h ↦ rw h (every_true_iff i cs)
]

module _ (report : VerificationReport) (loading : Bool) where
  abbrev e : Explanation
  e = explanation (some report) loading

  rows_of-Perm : Perm (map of_row (e.first ++ e.second)) (map of_check report.checks)
  unfolding explanation crypto_checks other_checks
  rows_of-Perm =
      rw
        (
          map-append of_row (check_rows 0 (cryptographic report.checks)) e.second,
          rows-shown 0 (cryptographic report.checks),
          rows-shown (length (cryptographic report.checks)) (not_cryptographic report.checks),
          ← map-append of_check (cryptographic report.checks) (not_cryptographic report.checks),
        )
        (Perm.map of_check (split-Perm report.checks))

  rows_of-numbers : map index_of (e.first ++ e.second) ≡ numbers 0 (length report.checks)
  unfolding explanation crypto_checks other_checks
  rows_of-numbers =
      map-append index_of e.first e.second
      ∙ ap₂ (λ xs ys. xs ++ ys) (rows-numbers 0 (cryptographic report.checks))
          (rows-numbers (length (cryptographic report.checks)) (not_cryptographic report.checks))
      ∙ ap (λ ns. numbers 0 (length (cryptographic report.checks)) ++ ns)
          (numbers_at _ (0 + length (cryptographic report.checks))
            (length (not_cryptographic report.checks)) (omega arith))
      ∙ numbers-append 0 (length (cryptographic report.checks))
          (length (not_cryptographic report.checks))
      ∙ ap (numbers 0) (length-split report.checks)

-- The explanation of a receipt shows every check of its report exactly once, with its question, badge and detail, numbered
-- consecutively; and the report says that all cryptographic checks passed exactly when each row of the first group has the badge of a verified
-- check.
pub explanation_complete :
    (sha256 : Text → Text) (receipt : ClawbackReceipt) (a : Artifacts) (loading : Bool)
    → let report = verify_receipt sha256 receipt a in
      let shown = explanation (some report) loading in
      Perm (map of_row (shown.first ++ shown.second)) (map of_check report.checks)
      × (map index_of (shown.first ++ shown.second) ≡ numbers 0 (length report.checks))
      × ((report.all_cryptographic_checks_passed ≡ true) ↔ All IsVerifiedRow shown.first)
unfolding verify_receipt explanation crypto_checks
explanation_complete sha256 receipt a loading =
    let report = verify_receipt sha256 receipt a in
    (rows_of-Perm report loading, rows_of-numbers report loading, every_true_iff 0 report.checks)

pub savings_view-Reads :
    (receipt : ClawbackReceipt) (n : ℕ)
    → receipt.claimed_savings_cents ≡ pos n
    → extract_cents (savings_view receipt).claimed ≡ some n
unfolding savings_view cents_to_dollars to_fixed2
savings_view-Reads receipt n claims =
    rw claims (rw (append-nil (fixed2 n)) at (extract_cents-fixed2 [] [] n tt))
