-- ===== src/Compute/Attested.antt =====
-- packages/compute/src/attestedClient.ts. The broker of the SDK, `fetch` and `toLowerCase` are parameters; an answer
-- of the chat endpoint has the type that the source gives it.
pub mod Selection
pub mod Verified
use clawback.Prelude.{
  ℕ, zero, ◌^◌, Text, Bool, true, false, not, ◌&&◌, Option, none, some, List, [], ◌∷◌, lit, ◌++◌,
  is_empty, text_eq, if◌then◌else◌,
}
use clawback.Prelude.Int.{pos}
use clawback.Json.{Value, Items, null, bool, num, str, arr, obj, cons, nil, field, end, stringify}
use clawback.Json.Digits.{decimal}
use clawback.Shared.Errors.{Error, Result, ok, err, external}
use clawback.Shared.Traced.{Traced, pure, throw, lift, ask, ◌>>=◌, ◌>>◌, or_throw}
use clawback.Compute.{AnalysisPrompt, ChatResult, ComputeConfig}

pub record Service : Type 0 where
  pub provider : Text
  pub verifiability : Option Text

pub record ServiceMetadata : Type 0 where
  pub endpoint : Text
  pub model : Text

pub record ChatMessage : Type 0 where
  pub role : Text
  pub content : Text

-- `data` of the response: its fields may all be missing.
pub record ChatData : Type 0 where
  pub id : Option Text
  pub usage : Option Value
  pub choices : Option (List (Option (Option Text)))

pub record ChatResponse : Type 0 where
  pub succeeded : Bool
  pub status : ℕ
  pub response_text : Result Text
  pub body : Result ChatData
  pub zg_res_key : Option Text

-- What is asked of the broker and the network.
pub data BrokerCall : Type 0 where
  list_service get_ledger : BrokerCall
  transfer_fund : Text → ℕ → BrokerCall
  get_service_metadata get_request_headers : Text → BrokerCall
  fetch : Text → Text → BrokerCall
  process_response : Text → Text → Text → BrokerCall

-- What the broker and the network answer in one analysis.
pub record Broker : Type 0 where
  pub services : Result (List Service)
  pub ledger : Result (Unit {0})
  pub transferred : Text → Result (Unit {0})
  pub metadata_of : Text → Result ServiceMetadata
  pub headers_of : Text → Result (Unit {0})
  pub fetched : Text → Text → Result ChatResponse
  pub processed : Text → Text → Text → Result (Option Bool)

abbrev pub default_topup_neuron : ℕ
default_topup_neuron = 10 ^ 15

abbrev pub no_provider : Error
no_provider = external (
    lit "No TEE-verifiable 0G Compute providers are currently available. "
    ++ lit "Clawback refuses to fall back to a non-verifiable provider for sensitive analysis.")

abbrev no_ledger : Error
no_ledger = external (
    lit "No 0G Compute ledger exists for this wallet yet. Fund it first with "
    ++ lit "broker.ledger.addLedger(<balance>) using a wallet that holds 0G testnet tokens.")

abbrev has_text : Option Text → Bool
has_text none = false
has_text (some t) = not (is_empty t)

-- `s.verifiability && s.verifiability.length > 0`
abbrev pub is_verifiable : Service → Bool
is_verifiable s = has_text s.verifiability

unfoldable pub verifiable : List Service → List Service
verifiable [] = []
verifiable (s ∷ ss) = let rest = verifiable ss in if is_verifiable s then s ∷ rest else rest

abbrev first_of : List Service → Result Text
first_of [] = err no_provider
first_of (s ∷ ss) = ok s.provider

-- `headers.get(...) ?? data.id ?? null`
abbrev pub chat_id_of : Option Text → Option Text → Option Text
chat_id_of (some key) id = some key
chat_id_of none id = id

abbrev message_text : Option (Option Text) → Text
message_text (some (some t)) = t
message_text _ = []

-- `data.choices?.[0]?.message?.content ?? ""`
abbrev pub content_of : Option (List (Option (Option Text))) → Text
content_of (some (choice ∷ choices)) = message_text choice
content_of _ = []

abbrev is_truthy : Value → Bool
is_truthy null = false
is_truthy (bool b) = b
is_truthy (num (pos zero)) = false
is_truthy (num _) = true
is_truthy (str t) = not (is_empty t)
is_truthy (arr vs) = true
is_truthy (obj fs) = true

unfoldable pub usage_content : Option Value → Text
usage_content none = []
usage_content (some v) = if is_truthy v then stringify v else []

abbrev message_value : ChatMessage → Value
message_value m = obj (field (lit "role") (str m.role) (field (lit "content") (str m.content) end))

abbrev items : List ChatMessage → Items
items [] = nil
items (m ∷ ms) = cons (message_value m) (items ms)

abbrev request_body : List ChatMessage → Text → Text
request_body messages model =
    stringify
      (obj (field (lit "messages") (arr (items messages)) (field (lit "model") (str model) end)))

abbrev pub prompt_messages : AnalysisPrompt → List ChatMessage
prompt_messages prompt =
    record { role = lit "system"; content = prompt.system }
    ∷ record { role = lit "user"; content = prompt.user }
    ∷ []

module _ (to_lower_case : Text → Text) (broker : Broker) where
  abbrev preferred : Text → List Service → Option Text
  preferred address [] = none
  preferred address (s ∷ ss) =
      if text_eq (to_lower_case s.provider) (to_lower_case address)
      then some s.provider
      else preferred address ss

  abbrev or_first : Option Text → List Service → Result Text
  or_first (some provider) ss = ok provider
  or_first none ss = first_of ss

  -- The preferred provider, when it is set and offered, or the first.
  unfoldable pub choose : Option Text → List Service → Result Text
  choose none ss = first_of ss
  choose (some address) ss =
      if is_empty address then first_of ss else or_first (preferred address ss) ss

  unfoldable pub select_provider : Option Text → Traced BrokerCall Text
  unfolding verifiable choose
  select_provider address = do
    services ← ask list_service broker.services
    lift (choose address (verifiable services))

  unfoldable pub ensure_funded : Text → Traced BrokerCall (Unit {0})
  ensure_funded provider =
      or_throw (ask get_ledger broker.ledger) no_ledger
      >> ask (transfer_fund provider default_topup_neuron) (broker.transferred provider)

  -- What is thrown when the response is not a success: with the body, or as reading the body throws.
  abbrev status_error : ChatResponse → Error
  status_error r = elim r.response_text [
    | ok body ↦
        external (lit "0G Compute provider returned HTTP " ++ decimal r.status ++ lit ": " ++ body)
    | err e ↦ e
  ]

  -- `chatId ? await processResponse(...) : null`
  abbrev pub validity : Text → Text → Option Text → Traced BrokerCall (Option Bool)
  validity provider usage none = pure none
  validity provider usage (some id) =
      if is_empty id
      then pure none
      else ask (process_response provider id usage) (broker.processed provider id usage)

  abbrev pub read_response : ChatResponse → Result ChatData
  read_response r = if r.succeeded then r.body else err (status_error r)

  unfoldable pub read_answer :
      Text → ServiceMetadata → ChatResponse → ChatData → Traced BrokerCall ChatResult
  unfolding usage_content
  read_answer provider service response answer = do
    is_valid ←
        validity provider (usage_content answer.usage) (chat_id_of response.zg_res_key answer.id)
    pure (record {
      content = content_of answer.choices;
      provider_address = provider;
      model = service.model;
      chat_id = chat_id_of response.zg_res_key answer.id;
      is_valid = is_valid;
    })

  abbrev pub post : List ChatMessage → ServiceMetadata → Traced BrokerCall ChatResponse
  post messages service =
      let url = service.endpoint ++ lit "/chat/completions" in
      let body = request_body messages service.model in
      ask (fetch url body) (broker.fetched url body)

  unfoldable pub run_attested_chat : Text → List ChatMessage → Traced BrokerCall ChatResult
  unfolding ensure_funded read_answer
  run_attested_chat provider messages = do
    ensure_funded provider
    service ← ask (get_service_metadata provider) (broker.metadata_of provider)
    ask (get_request_headers provider) (broker.headers_of provider)
    response ← post messages service
    answer ← lift (read_response response)
    read_answer provider service response answer

  -- The calls of `analyze`, for the broker that `createBroker` gives.
  unfoldable pub attested_chat : ComputeConfig → AnalysisPrompt → Traced BrokerCall ChatResult
  unfolding select_provider run_attested_chat
  attested_chat config prompt = do
    provider ← select_provider config.preferred_provider_address
    run_attested_chat provider (prompt_messages prompt)
