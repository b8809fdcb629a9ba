-- ===== src/Web/Client/Display.antt =====
-- badgeFor of apps/web/src/components/VerificationCheck.tsx, networkLabel of IntegrationStatus.tsx and shorten of
-- CopyableValue.tsx.
use clawback.Prelude.{
  ℕ, zero, suc, ◌+◌, ◌-◌, ◌≤◌, ◌<◌, ◌≡◌, refl, ◌↔◌, ◌⊎◌, Text, Bool, true, false, Option, none,
  some, [], ◌∷◌, ◌++◌, lit, length, leb, if◌then◌else◌, arith, length-append, Bool-cases, inl, inr,
  ap,
}
use clawback.Receipts.Verifier.{
  VerificationCheck, CheckStrength, cryptographically_verifiable, trusted_claim,
  not_independently_verifiable,
}
use clawback.Web.Config.{ComponentStatus, Network, mainnet, testnet}

pub data Badge : Type 0 where
  not_verifiable_badge trusted_claim_badge verified_badge failed_badge not_applicable_badge : Badge

abbrev badge_of : CheckStrength → Option Bool → Badge
badge_of not_independently_verifiable result = not_verifiable_badge
badge_of trusted_claim result = trusted_claim_badge
badge_of cryptographically_verifiable (some true) = verified_badge
badge_of cryptographically_verifiable (some false) = failed_badge
badge_of cryptographically_verifiable none = not_applicable_badge

unfoldable pub badge_for : VerificationCheck → Badge
badge_for check = badge_of check.strength check.result

badge_of_verified :
    (s : CheckStrength) (r : Option Bool)
    → (badge_of s r ≡ verified_badge) ↔ ((s ≡ cryptographically_verifiable) × (r ≡ some true))
badge_of_verified cryptographically_verifiable none = (λ h. cc h, λ h. cc (h.1))
badge_of_verified cryptographically_verifiable (some true) = (λ h. (refl, refl), λ h. refl)
badge_of_verified cryptographically_verifiable (some false) = (λ h. cc h, λ h. cc (h.1))
badge_of_verified _ r = (λ h. cc h, λ h. cc (h.0))

abbrev label_at : Option Network → Text
label_at (some mainnet) = lit "0G Mainnet"
label_at (some testnet) = lit "0G Testnet"
label_at _ = lit "0G Live"

unfoldable pub network_label : ComponentStatus → Text
network_label status = if status.configured then label_at status.network else lit "Unconfigured"

unfoldable pub take : ℕ → Text → Text
take zero s = []
take (suc n) [] = []
take (suc n) (c ∷ s) = c ∷ take n s

unfoldable pub drop : ℕ → Text → Text
drop zero s = s
drop (suc n) [] = []
drop (suc n) (c ∷ s) = drop n s

-- `value.slice(0, head)`, an ellipsis, `value.slice(-tail)`, with the defaults that every caller takes.
unfoldable pub shorten : Text → Text
unfolding take drop
shorten value =
    if leb (length value) (8 + 6 + 3)
    then value
    else take 8 value ++ (8230 ∷ drop (length value - 6) value)

length-take : (n : ℕ) (s : Text) → n ≤ length s → length (take n s) ≡ n
unfolding take
length-take zero s h = refl
length-take (suc n) [] h = omega arith
length-take (suc n) (c ∷ s) h = ap suc (length-take n s (omega arith))

length-drop : (n : ℕ) (s : Text) → length (drop n s) ≡ length s - n
unfolding drop
length-drop zero s = omega arith
length-drop (suc n) [] = omega arith
length-drop (suc n) (c ∷ s) = omega (arith, length-drop n s)

-- A value of at most 17 code units is shown whole, and a longer one as 15; so none is shown longer than it is.
pub length-shorten :
    (value : Text)
    → ((length value ≤ 17) × (shorten value ≡ value))
      ⊎ ((17 < length value) × (length (shorten value) ≡ 15))
unfolding shorten
length-shorten value = elim (Bool-cases (leb (length value) 17)) [
  | inl short ↦ inl (ground arith, rw short)
  | inr long ↦
      let more : 17 < length value = ground arith in
      inr (
        more,
        rw (long, length-append (take 8 value) (8230 ∷ drop (length value - 6) value))
            (omega (
              arith,
              length-take 8 value (omega (arith, more)),
              length-drop (length value - 6) value,
              more,
            )),
      )
]
