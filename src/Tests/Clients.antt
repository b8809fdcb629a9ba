-- ===== src/Tests/Clients.antt =====
-- The clients of 0G and the view of a case, on concrete answers.
use clawback.Prelude.{ℕ, ◌≡◌, refl, ◌↔◌, true, none, some, List, [], ◌∷◌, ◌++◌, lit, arith}
use clawback.Json.{str}
use clawback.Shared.Errors.{Result, ok}
use clawback.Compute.{ComputeConfig, ChatResult, build_analysis_prompt}
use clawback.Compute.Attested.{Broker, BrokerCall, Service, attested_chat}
use clawback.Compute.Attested.Verified.{IsVerified, attested_chat-IsVerified}
use clawback.Chain.{anchor, verify, get_anchor, put, nothing_anchored}
use clawback.Chain.Anchors.{AnchorCall, apply_all, anchored_by_call, anchor_stays}
use clawback.Web.Config.{StorageConfig}
use clawback.Storage.{StorageSdk, UploadResult, single, identifiers, upload_json, artifact_in}
use clawback.Storage.Cleanup.{upload_json-IsReported}
use clawback.Agent.CaseRecord.{to_summary}
use clawback.Web.Client.CaseView.{ViewState, initial_view}
use clawback.Tests.Data.{same_text, gym, waiting}

abbrev broker : Broker
broker = record {
  services = ok (
      record { provider = lit "0xa"; verifiability = none }
      ∷ record { provider = lit "0xb"; verifiability = some (lit "TeeML") }
      ∷ []);
  ledger = ok tt;
  transferred = λ p. ok tt;
  metadata_of = λ p. ok (record { endpoint = lit "https://b"; model = lit "m" });
  headers_of = λ p. ok tt;
  fetched = λ url body. ok (record {
    succeeded = true;
    status = 200;
    response_text = ok [];
    body = ok (record {
      id = some (lit "chat");
      usage = none;
      choices = some (some (some (lit "Hello")) ∷ []);
    });
    zg_res_key = none;
  });
  processed = λ p id usage. ok (some true);
}

abbrev config : ComputeConfig
config = record {
  private_key = lit "0x1";
  rpc_url = lit "https://rpc";
  preferred_provider_address = none;
}

abbrev answered : ChatResult
answered = record {
  content = lit "Hello";
  provider_address = lit "0xb";
  model = lit "m";
  chat_id = some (lit "chat");
  is_valid = some true;
}

abbrev asked : List BrokerCall
asked = (attested_chat same_text broker config (build_analysis_prompt gym) []).1

chat_runs :
    attested_chat same_text broker config (build_analysis_prompt gym) [] ≡ (ok answered, asked)
unfolding attested_chat lit
chat_runs = refl

attested_chat-IsVerified_example :
    IsVerified same_text broker (build_analysis_prompt gym) answered asked
attested_chat-IsVerified_example =
    attested_chat-IsVerified same_text broker config (build_analysis_prompt gym) answered asked
      chat_runs refl

abbrev plain_service : Service
plain_service = record { provider = lit "0xa"; verifiability = some [] }

abbrev plain_broker : Broker
plain_broker = record broker { services = ok (plain_service ∷ []) }

abbrev first_anchor : AnchorCall
first_anchor = record {
  tx = record { sender = 7; timestamp = 1700000000 };
  case_id = 1;
  commitment = 42;
  previous = 0;
}

abbrev second_anchor : AnchorCall
second_anchor = record {
  tx = record { sender = 8; timestamp = 1800000000 };
  case_id = 1;
  commitment = 43;
  previous = 0;
}

anchor_stays_example :
    (get_anchor 1
        (apply_all (second_anchor ∷ []) (put 1 (anchored_by_call first_anchor) nothing_anchored))
      ≡ anchored_by_call first_anchor)
    × ((verify 1 43 (
            apply_all (second_anchor ∷ []) (put 1 (anchored_by_call first_anchor) nothing_anchored))
          ≡ true)
        ↔ ◌≡◌ {A = ℕ} 43 42)
unfolding anchor
anchor_stays_example =
    anchor_stays first_anchor nothing_anchored
      (put 1 (anchored_by_call first_anchor) nothing_anchored) (second_anchor ∷ []) 43 refl
      (λ h. ground arith)

abbrev sdk : StorageSdk
sdk = record {
  tmpdir = lit "/tmp";
  join = λ a b. a ++ (47 ∷ b);
  wallet_made = ok tt;
  dir_made = λ prefix. ok (lit "/tmp/d");
  written = λ path text. ok tt;
  opened = λ path. ok tt;
  uploaded = λ path. ok (single (lit "0xroot") (lit "0xtx"), none);
  closed = λ path. ok tt;
  removed = λ dir. ok tt;
  downloaded = λ root path. ok none;
  contents = λ path. ok [];
}

abbrev storage_config : StorageConfig
storage_config = record { indexer_rpc = lit "i"; evm_rpc_url = lit "e"; private_key = lit "k" }

upload_runs :
    (upload_json sdk storage_config (str []) []).0
    ≡ ok (identifiers (single (lit "0xroot") (lit "0xtx")))
unfolding upload_json
upload_runs = refl

upload_json-IsReported_example :
    (result : UploadResult) × (◌≡◌ {A = Result (Unit {0})} (ok tt) (ok tt))
    × (sdk.uploaded (artifact_in sdk (lit "/tmp/d")) ≡ ok (result, none))
    × (identifiers (single (lit "0xroot") (lit "0xtx")) ≡ identifiers result)
upload_json-IsReported_example =
    upload_json-IsReported sdk storage_config (str []) (lit "/tmp/d") refl refl
      (identifiers (single (lit "0xroot") (lit "0xtx"))) upload_runs

abbrev view : ViewState
unfolding initial_view to_summary
view = initial_view (to_summary waiting)
