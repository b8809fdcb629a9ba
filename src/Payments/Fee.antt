-- ===== src/Payments/Fee.antt =====
-- packages/payments/src/fee.ts. `Math.round` of a positive quotient is the quotient rounded half
-- up; the doubles of the source are exact enough for that while the product of the cents and
-- the basis points stays below 2^53.
use clawback.Prelude.{ℕ, ◌+◌, ◌*◌, ◌/◌, ◌≤◌, ◌<◌, ◌≡◌, Option, none, some, if◌then◌else◌}
use clawback.Prelude.Int.{ℤ, pos, ◌-ℤ◌, ◌+ℤ◌, is_nonpos, pos_part}
use clawback.Shared.Errors.{Result, ok, err, unverified_savings}

abbrev pub default_fee_bps : ℕ
default_fee_bps = 4000

pub record FeeCalculation : Type 0 where
  pub verified_savings_cents : ℤ
  pub fee_bps : ℕ
  pub fee_cents : ℕ
  pub net_to_user_cents : ℤ

-- `Math.round((cents * bps) / 10_000)` of a positive number of cents.
unfoldable pub round_fee : ℕ → ℕ → ℕ
round_fee cents bps = (cents * bps + 5000) / 10000

unfoldable pub fee_of : ℤ → ℕ → FeeCalculation
unfolding round_fee
fee_of verified bps =
    if is_nonpos verified
    then record {
      verified_savings_cents = verified;
      fee_bps = bps;
      fee_cents = 0;
      net_to_user_cents = verified;
    }
    else let fee = round_fee (pos_part verified) bps in
      record {
        verified_savings_cents = verified;
        fee_bps = bps;
        fee_cents = fee;
        net_to_user_cents = verified -ℤ pos fee;
      }

unfoldable pub compute_fee : Option ℤ → ℕ → Result FeeCalculation
unfolding fee_of
compute_fee none bps = err unverified_savings
compute_fee (some verified) bps = ok (fee_of verified bps)

-- What a fee calculation guarantees.
pub record IsFair (verified : ℤ) (bps : ℕ) (f : FeeCalculation) : Type 0 where
  pub splits : f.net_to_user_cents +ℤ pos f.fee_cents ≡ verified
  pub rounds_down : 10000 * f.fee_cents ≤ pos_part verified * bps + 5000
  pub rounds_up : pos_part verified * bps < 10000 * f.fee_cents + 5000
