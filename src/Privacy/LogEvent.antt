-- ===== src/Privacy/LogEvent.antt =====
-- packages/privacy/src/redact.ts: `SafeLogEvent` and `logEvent`. The console is the list of the lines printed, the newest first; the
-- keys of an event stand in the order of the interface.
use clawback.Prelude.{◌≡◌, refl, ◌∷◌, Text, List, lit, text_eq, Option, none, some, arith}
use clawback.Prelude.Int.{ℤ}
use clawback.Json.{str, num, obj, Fields, end, field, stringify}
use clawback.Json.Read.{parse}
use clawback.Json.RoundTrip.{parse-stringify}
use clawback.Privacy.Redact.{redact, redact_onto, set_field, has, sensitive_fields}

pub record SafeLogEvent : Type 0 where
  pub case_id : Text
  pub execution_id : Option Text
  pub receipt_id : Option Text
  pub provider_id : Option Text
  pub state_transition : Option Text
  pub timestamp : Text
  pub duration_ms : Option ℤ
  pub status : Text

-- A key whose value is undefined is left out by `JSON.stringify`.
abbrev optional : Text → Option Text → Fields → Fields
optional key none rest = rest
optional key (some t) rest = field key (str t) rest

abbrev optional_num : Text → Option ℤ → Fields → Fields
optional_num key none rest = rest
optional_num key (some n) rest = field key (num n) rest

abbrev fields_of :
    Text → Option Text → Option Text → Option Text → Option Text → Text → Option ℤ → Text → Fields
fields_of case_id execution receipt provider transition timestamp duration status =
    field (lit "caseId") (str case_id) (
      optional (lit "executionId") execution (
        optional (lit "receiptId") receipt (
          optional (lit "providerId") provider (
            optional (lit "stateTransition") transition (
              field (lit "timestamp") (str timestamp) (
                optional_num (lit "durationMs") duration
                  (field (lit "status") (str status) end)))))))

unfoldable pub event_fields : SafeLogEvent → Fields
event_fields e =
    fields_of e.case_id e.execution_id e.receipt_id e.provider_id e.state_transition e.timestamp
      e.duration_ms e.status

unfoldable pub log_event : SafeLogEvent → List Text → List Text
unfolding event_fields
log_event e console = stringify (obj (event_fields e)) ∷ console

no_secret :
    (c : Text) (e r p s : Option Text) (t : Text) (d : Option ℤ) (u : Text)
    → redact (fields_of c e r p s t d u) ≡ fields_of c e r p s t d u
unfolding redact redact_onto set_field has sensitive_fields text_eq lit
no_secret c e r p s t d u = ground arith

-- Each line of the log reads back as the event that was logged, and redaction finds nothing in it to hide: no key of an event is one that the
-- registry marks as not public.
pub log_event-IsPublic :
    (e : SafeLogEvent) (console : List Text)
    → (log_event e console ≡ stringify (obj (event_fields e)) ∷ console)
      × (parse (stringify (obj (event_fields e))) ≡ some (obj (event_fields e)))
      × (redact (event_fields e) ≡ event_fields e)
unfolding log_event event_fields
log_event-IsPublic e console =
    (refl, parse-stringify (obj (event_fields e)), no_secret _ _ _ _ _ _ _ _)
