-- ===== src/Providers/Sandbox.antt =====
-- packages/providers/src/sandboxProvider.ts and liveEmailProvider.ts. `parseInt(seedHex, 16)` reads the
-- hexadecimal digits at the front; `none` is its NaN, of which every comparison is false. A digest has
-- no `x`, so the prefix that `parseInt` would skip does not occur.
use clawback.Prelude.{
  ℕ, zero, suc, ◌<◌, ◌≡◌, refl, ◌+◌, ◌*◌, ◌%◌, Text, Bool, true, false, not, ◌&&◌, Option, none,
  some, [], ◌∷◌, ◌++◌, lit, ltb, ◌==◌, if◌then◌else◌, arith, ◌⊎◌, inl, inr, Bool-cases,
}
use clawback.Prelude.Int.{pos}
use clawback.Json.{str, obj, end, field}
use clawback.Json.Quote.{hex_value}
use clawback.Shared.Types.{
  SubscriptionCaseInput, refund_issued, cancelled, declined, no_response, sandbox,
}
use clawback.Shared.Commitment.{commit}
use clawback.Shared.Errors.{Result, err, not_implemented}
use clawback.Shared.Money.{
  exact_below, to_fixed2, extract_amount_cents, extract_cents, extract_cents-fixed2, NoDollar,
}
use clawback.Agent.World.{ProviderActionRequest, ProviderActionResult}
use clawback.Agent.Orchestrator.Values.{verify_claimed_savings}

-- `slice(2, 6)`
abbrev drop : ℕ → Text → Text
drop zero s = s
drop (suc n) [] = []
drop (suc n) (c ∷ s) = drop n s

abbrev take : ℕ → Text → Text
take zero s = []
take (suc n) [] = []
take (suc n) (c ∷ s) = c ∷ take n s

abbrev or_else : Option ℕ → ℕ → ℕ
or_else none b = b
or_else (some a) b = a

abbrev first : Option ℕ → Option ℕ → Option ℕ
first none b = b
first (some a) b = some a

unfoldable pub parse_hex : Option ℕ → Text → Option ℕ
parse_hex read [] = read
parse_hex read (c ∷ s) = elim (hex_value c) [
  | none ↦ read
  | some d ↦ parse_hex (some (or_else read 0 * 16 + d)) s
]

-- `bucket < bound`
abbrev below : Option ℕ → ℕ → Bool
below none bound = false
below (some seed) bound = ltb (seed % 100) bound

unfoldable pub refund_text : Text → Text → ℕ → Text
refund_text merchant last4 amount =
    (lit "Sandbox confirmation: \"" ++ (merchant ++ lit "\" approved a refund of "))
    ++ (b'$' ∷ to_fixed2 (pos amount) ++ (lit " for account ending " ++ (last4 ++ lit ".")))

unfoldable pub requested_cents : SubscriptionCaseInput → Option ℕ
requested_cents input =
    first (extract_amount_cents input.subscription_details)
      (extract_amount_cents input.desired_outcome)

abbrev refund : Text → Text → ℕ → ProviderActionResult
refund merchant last4 amount = record {
  outcome_type = refund_issued;
  counterparty_confirmation = some (refund_text merchant last4 amount);
  claimed_savings_cents = pos amount;
  source = sandbox;
}

abbrev answer : SubscriptionCaseInput → Option ℕ → ProviderActionResult
answer input seed =
    let amount = or_else (requested_cents input) 999 in
    if below seed 60
    then refund input.merchant_name input.account_identifier_last4 amount
    else if below seed 85
    then record {
      outcome_type = cancelled;
      counterparty_confirmation = some (
          lit "Sandbox confirmation: \""
          ++ input.merchant_name
          ++ lit "\" confirmed cancellation for account ending "
          ++ input.account_identifier_last4
          ++ lit ". No refund was issued for the current period.");
      claimed_savings_cents = pos 0;
      source = sandbox;
    }
    else if below seed 95
    then record {
      outcome_type = declined;
      counterparty_confirmation = some (
          lit "Sandbox confirmation: \""
          ++ input.merchant_name
          ++ lit "\" declined the request, citing its stated cancellation policy.");
      claimed_savings_cents = pos 0;
      source = sandbox;
    }
    else record {
      outcome_type = no_response;
      counterparty_confirmation = none;
      claimed_savings_cents = pos 0;
      source = sandbox;
    }

unfoldable pub seed_of : (Text → Text) → SubscriptionCaseInput → Option ℕ
seed_of sha256 input =
    let seed_hex = take 4 (
      drop 2 (
        commit sha256 (
          obj (
            field (lit "merchantName") (str input.merchant_name)
              (field (lit "accountIdentifierLast4") (str input.account_identifier_last4) end))))) in
    parse_hex none seed_hex

unfoldable pub sandbox_send_action : (Text → Text) → ProviderActionRequest → ProviderActionResult
unfolding seed_of
sandbox_send_action sha256 request = answer request.input (seed_of sha256 request.input)

-- `LiveEmailSubscriptionProvider` throws always.
unfoldable pub live_send_action : ProviderActionRequest → Result ProviderActionResult
live_send_action request = err not_implemented

-- What an answer is worth: a refund whose confirmation names the claimed amount, all of it verified, or no
-- savings at all, claimed or verified.
pub record IsRefund (result : ProviderActionResult) : Type 0 where
  pub cents : ℕ
  pub confirmation : Text
  pub issued : result.outcome_type ≡ refund_issued
  pub confirmed : result.counterparty_confirmation ≡ some confirmation
  pub named : extract_cents confirmation ≡ some cents
  pub claimed : result.claimed_savings_cents ≡ pos cents
  pub exact : cents < exact_below
  pub verified : verify_claimed_savings result ≡ some (pos cents)

pub record IsNoRefund (result : ProviderActionResult) : Type 0 where
  pub claimed : result.claimed_savings_cents ≡ pos 0
  pub verified : verify_claimed_savings result ≡ some (pos 0)

abbrev no_dollar : Text → Bool
no_dollar [] = true
no_dollar (c ∷ s) = not (c == b'$') && no_dollar s

no_dollar-NoDollar : (s : Text) → no_dollar s ≡ true → NoDollar s
no_dollar-NoDollar [] h = tt
no_dollar-NoDollar (c ∷ s) h = (ground arith, no_dollar-NoDollar s (ground arith))

append-NoDollar : (s t : Text) → NoDollar s → NoDollar t → NoDollar (s ++ t)
append-NoDollar [] t h k = k
append-NoDollar (c ∷ s) t (h, hs) k = (h, append-NoDollar s t hs k)

refund_text-named :
    (merchant last4 : Text) (n : ℕ)
    → NoDollar merchant
    → extract_cents (refund_text merchant last4 n) ≡ some n
unfolding refund_text lit to_fixed2
refund_text-named merchant last4 n h =
    extract_cents-fixed2
      (lit "Sandbox confirmation: \"" ++ (merchant ++ lit "\" approved a refund of "))
      (lit " for account ending " ++ (last4 ++ lit ".")) n
      (append-NoDollar (lit "Sandbox confirmation: \"") (merchant ++ lit "\" approved a refund of ")
        (no_dollar-NoDollar (lit "Sandbox confirmation: \"") refl)
        (append-NoDollar merchant (lit "\" approved a refund of ") h
          (no_dollar-NoDollar (lit "\" approved a refund of ") refl)))

refund_verified :
    (merchant last4 : Text) (n : ℕ)
    → verify_claimed_savings (refund merchant last4 n) ≡ some (pos n)
unfolding verify_claimed_savings refund_text lit
refund_verified merchant last4 zero = refl
refund_verified merchant last4 (suc n) = ground arith

answer-IsHonest :
    (input : SubscriptionCaseInput) (seed : Option ℕ)
    → NoDollar input.merchant_name
    → or_else (requested_cents input) 999 < exact_below
    → IsRefund (answer input seed) ⊎ IsNoRefund (answer input seed)
unfolding verify_claimed_savings
answer-IsHonest input seed h few = elim (Bool-cases (below seed 60)) [
  | inl low ↦
      let amount = or_else (requested_cents input) 999 in
      inl (
        rw low (record {
          cents = amount;
          confirmation = refund_text input.merchant_name input.account_identifier_last4 amount;
          issued = refl;
          confirmed = refl;
          named = refund_text-named input.merchant_name input.account_identifier_last4 amount h;
          claimed = refl;
          exact = few;
          verified = refund_verified input.merchant_name input.account_identifier_last4 amount;
        }))
  | inr high ↦ inr (elim (Bool-cases (below seed 85)) [
    | inl low ↦ rw (high, low) (record { claimed = refl; verified = refl })
    | inr higher ↦ elim (Bool-cases (below seed 95)) [
      | inl low ↦ rw (high, higher, low) (record { claimed = refl; verified = refl })
      | inr highest ↦ rw (high, higher, highest) (record { claimed = refl; verified = refl })
    ]
  ])
]

-- The amount that a request asks for is one that the source computes exactly.
abbrev pub AsksExactly : SubscriptionCaseInput → Type 0
AsksExactly input = or_else (requested_cents input) 999 < exact_below

-- The sandbox never claims savings that it does not confirm. For a merchant without a dollar sign in its
-- name and an amount below 2^50 cents, it answers either with a refund whose confirmation names exactly the claimed cents, all
-- of which the orchestrator takes as verified, or with no savings at all, claimed and verified.
pub sandbox_send_action-IsHonest :
    (sha256 : Text → Text) (request : ProviderActionRequest)
    → NoDollar request.input.merchant_name
    → AsksExactly request.input
    → IsRefund (sandbox_send_action sha256 request)
      ⊎ IsNoRefund (sandbox_send_action sha256 request)
unfolding sandbox_send_action
sandbox_send_action-IsHonest sha256 request h few =
    answer-IsHonest request.input (seed_of sha256 request.input) h few
