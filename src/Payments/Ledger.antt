-- ===== src/Payments/Ledger.antt =====
-- packages/payments/src/ledger.ts. The map of `LocalSettlementLedger` is a dictionary, and the time of a
-- call is an argument. Keys of a `Map` are compared as strings.
use clawback.Prelude.{
  ◌≡◌, refl, ◌⊎◌, inl, inr, Text, Option, none, some, Dict, lookup, insert, lookup-insert_self,
  lookup-insert, ◌↔◌, text_eq, ◌==◌, if◌then◌else◌, arith, Option-cases,
}
use clawback.Shared.Errors.{Result, ok, err, no_settlement_record}
use clawback.Payments.Fee.{FeeCalculation}

pub data SettlementStatus : Type 0 where
  assessed collected waived : SettlementStatus

pub record SettlementRecord : Type 0 where
  pub case_id : Text
  pub fee : FeeCalculation
  pub status : SettlementStatus
  pub assessed_at : Text
  pub collected_at : Option Text

abbrev pub Ledger : Type 0
Ledger = Dict SettlementRecord

unfoldable pub assess_fee : Text → Text → FeeCalculation → Ledger → Ledger × SettlementRecord
assess_fee now case_id fee ledger =
    let settled : SettlementRecord = record {
      case_id = case_id;
      fee = fee;
      status = if fee.fee_cents == 0 then waived else assessed;
      assessed_at = now;
      collected_at = none;
    } in
    (insert case_id settled ledger, settled)

-- A throw leaves the map as it was.
unfoldable pub mark_collected : Text → Text → Ledger → Ledger × Result SettlementRecord
mark_collected now case_id ledger = elim (lookup case_id ledger) [
  | none ↦ (ledger, err (no_settlement_record case_id))
  | some existing ↦
      let updated : SettlementRecord = record existing {
        status = collected;
        collected_at = some now;
      } in
      (insert case_id updated ledger, ok updated)
]

unfoldable pub get : Text → Ledger → Option SettlementRecord
get case_id ledger = lookup case_id ledger

-- After an assessment the case's record holds exactly the fee, not collected, and waived exactly when
-- the fee is zero; the records of other cases stay as they were.
pub get-assess_fee :
    (now id other : Text) (fee : FeeCalculation) (l : Ledger)
    → let (l', settled) = assess_fee now id fee l in
      (get other l' ≡ (if text_eq id other then some settled else get other l))
      × (settled.fee ≡ fee)
      × (settled.collected_at ≡ none)
      × ((settled.status ≡ waived) ↔ (fee.fee_cents ≡ 0))
unfolding assess_fee get
get-assess_fee now id other fee l =
    (lookup-insert id other _ l, refl, refl, (λ h. ground arith, λ h. ground arith))

-- Collecting succeeds exactly after an assessment. It keeps the fee and the time of the assessment and
-- touches no other case; without one it throws, and the ledger stays as it was.
pub mark_collected_cases :
    (now id other : Text) (l : Ledger)
    → let (l', r) = mark_collected now id l in
      ((get id l ≡ none) × (r ≡ err (no_settlement_record id)) × (l' ≡ l))
      ⊎ ((old : SettlementRecord) × (get id l ≡ some old)
          × (get id l' ≡ some (record old { status = collected; collected_at = some now }))
          × (r ≡ ok (record old { status = collected; collected_at = some now }))
          × (get other l' ≡ (
              if text_eq id other
              then some (record old { status = collected; collected_at = some now })
              else get other l)))
unfolding mark_collected get
mark_collected_cases now id other l = elim (Option-cases (lookup id l)) [
  | inl missing ↦ inl (missing, rw (missing, mark_collected), rw (missing, mark_collected))
  | inr (old, found) ↦ inr (
    old,
    found,
    rw (found, mark_collected) (lookup-insert_self id _ l),
    rw (found, mark_collected),
    rw (found, mark_collected) (lookup-insert id other _ l),
  )
]
