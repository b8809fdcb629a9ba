-- ===== src/Tests/Shared.antt =====
-- The state machine, the commitments, the amounts, the ledger and the redaction on concrete data.
use clawback.Prelude.{
  ◌≡◌, refl, ◌↔◌, ◌⊎◌, ◌≢◌, Text, true, none, some, List, [], ◌∷◌, lit, length, ◌+◌, ◌≤◌, OneOf,
  text_eq, text_eq_iff,
}
use clawback.Prelude.Int.{pos}
use clawback.Json.{Value, Fields, null, num, arr, obj, nil, cons, end, field, stringify}
use clawback.Json.Read.{parse}
use clawback.Json.RoundTrip.{parse-stringify}
use clawback.Shared.Types.{draft, executing, rejected, terminal_states}
use clawback.Shared.Errors.{
  err, submit, begin_analysis, propose_action, request_approval, approve, begin_execution,
  CaseEvent, illegal_transition,
}
use clawback.Shared.StateMachine.{apply_transition, is_terminal}
use clawback.Shared.StateMachine.Runs.{run, remaining, length-run, run_draft-ApprovedIn, ApprovedIn}
use clawback.Shared.StateMachine.Table.{is_terminal_iff}
use clawback.Shared.Commitment.{commit, chain}
use clawback.Shared.Commitment.Reordered.{
  in_object, in_array, under, item, no_items, no_fields, swap,
}
use clawback.Shared.Commitment.Binding.{commit-Reordered}
use clawback.Shared.Artifacts.{input_fields}
use clawback.Payments.Fee.{FeeCalculation}
use clawback.Payments.Ledger.{assessed, SettlementRecord}
use clawback.Privacy.Redact.{redact, Distinct, get_key, Follows, redact-Follows}
use clawback.Tests.Data.{gym, same_text}

abbrev to_execution : List CaseEvent
to_execution =
    submit ∷ begin_analysis ∷ propose_action ∷ request_approval ∷ approve ∷ begin_execution ∷ []

length-run_example : length to_execution + remaining executing ≤ remaining draft
unfolding run apply_transition
length-run_example = length-run draft executing to_execution refl

run_draft-ApprovedIn_example : ApprovedIn draft to_execution
unfolding run apply_transition
run_draft-ApprovedIn_example = run_draft-ApprovedIn executing to_execution refl refl

is_terminal_iff_example :
    ((is_terminal rejected ≡ true) ↔ OneOf rejected terminal_states)
    × ((is_terminal rejected ≡ true)
        ↔ ((e : CaseEvent) → apply_transition rejected e ≡ err (illegal_transition rejected e)))
is_terminal_iff_example = is_terminal_iff rejected

abbrev one : Fields
one = field (lit "b") (num (pos 1)) (field (lit "a") null end)

abbrev other : Fields
other = field (lit "a") null (field (lit "b") (num (pos 1)) end)

keys_differ : ◌≢◌ {A = Text} (lit "b") (lit "a")
unfolding lit text_eq
keys_differ e = cc ((text_eq_iff (lit "b") (lit "a")).1 e)

-- A nested object, in the two orders of its keys.
commit-Reordered_example :
    (commit same_text (obj (field (lit "c") (arr (cons (obj one) nil)) end))
      ≡ commit same_text (obj (field (lit "c") (arr (cons (obj other) nil)) end)))
    × (chain same_text (some (lit "0x0")) (obj (field (lit "c") (arr (cons (obj one) nil)) end))
        ≡ chain same_text
            (some (lit "0x0"))
            (obj (field (lit "c") (arr (cons (obj other) nil)) end)))
commit-Reordered_example = commit-Reordered same_text (some (lit "0x0")) (
    in_object (
      under (lit "c")
        (in_array
          (item (in_object (swap (lit "b") (lit "a") (num (pos 1)) null end keys_differ)) no_items))
        no_fields))

parse-stringify_example :
    parse (stringify (arr (cons (obj one) nil))) ≡ some (arr (cons (obj one) nil))
parse-stringify_example = parse-stringify (arr (cons (obj one) nil))

abbrev fee : FeeCalculation
fee = record {
  verified_savings_cents = pos 2999;
  fee_bps = 4000;
  fee_cents = 1200;
  net_to_user_cents = pos 1799;
}

abbrev settled : SettlementRecord
settled = record {
  case_id = lit "case_0";
  fee = fee;
  status = assessed;
  assessed_at = lit "t3";
  collected_at = none;
}

gym-Distinct : Distinct (input_fields gym)
unfolding get_key input_fields text_eq lit
gym-Distinct = (refl, (refl, (refl, (refl, (refl, (refl, tt))))))

ordinary_name : ◌≢◌ {A = Text} (lit "merchantName") (lit "__proto__")
unfolding lit text_eq
ordinary_name e = cc ((text_eq_iff (lit "merchantName") (lit "__proto__")).1 e)

redact-Follows_example :
    ((get_key (lit "merchantName") (input_fields gym) ≡ none)
      × (get_key (lit "merchantName") (redact (input_fields gym)) ≡ none))
    ⊎ ((value : Value) × (get_key (lit "merchantName") (input_fields gym) ≡ some value)
        × Follows (lit "merchantName") value (redact (input_fields gym)))
redact-Follows_example =
    redact-Follows (input_fields gym) (lit "merchantName") gym-Distinct ordinary_name
