-- ===== src/Compute/Attested/Verified.antt =====
-- packages/compute/src/attestedClient.ts: what an attested analysis rests on.
use clawback.Prelude.{
  ◌≡◌, refl, ap, ap₂, sym, ◌∙◌, inl, inr, Text, true, false, Option, none, some, List, [], ◌∷◌, lit,
  ◌++◌, is_empty, OneOf, Bool-cases,
}
use clawback.Shared.Errors.{ok, Result-cases, err-ne-ok}
use clawback.Shared.Traced.{◌>>◌, Traced, ◌>>=◌, bind-ok, ask-ok, ask, lift, or_throw}
use clawback.Compute.{AnalysisPrompt, ChatResult, ComputeConfig}
use clawback.Compute.Attested.{
  Service, Broker, BrokerCall, list_service, get_ledger, transfer_fund, get_service_metadata,
  get_request_headers, fetch, process_response, default_topup_neuron, is_verifiable, verifiable,
  select_provider, ensure_funded, run_attested_chat, attested_chat, prompt_messages, request_body,
  validity, ServiceMetadata, ChatMessage, ChatResponse, ChatData, read_response, read_answer, post,
  usage_content, chat_id_of, content_of,
}
use clawback.Compute.Attested.Selection.{verifiable-listed, Offers, select_provider-Offers}

module _ (to_lower_case : Text → Text) (broker : Broker) where
  ensure_funded-ok :
      (p : Text) (calls after : List BrokerCall) (u : Unit {0})
      → ensure_funded to_lower_case broker p calls ≡ (ok u, after)
      → after ≡ transfer_fund p default_topup_neuron ∷ get_ledger ∷ calls
  unfolding ensure_funded
  ensure_funded-ok p calls after u h = elim (Result-cases broker.ledger) [
    | inr (e, failed) ↦ absurd (err-ne-ok (ap (λ x. x.0) (rw (failed, or_throw) at h)))
    | inl (l, there) ↦ sym (ap (λ x. x.1) (rw (there, or_throw) at h))
  ]

  validity-true :
      (p usage : Text) (id : Option Text) (calls after : List BrokerCall)
      → validity to_lower_case broker p usage id calls ≡ (ok (some true), after)
      → (i : Text) × (id ≡ some i)
        × (is_empty i ≡ false)
        × (broker.processed p i usage ≡ ok (some true))
        × (after ≡ process_response p i usage ∷ calls)
  validity-true p usage none calls after h = cc (ap (λ x. x.0) h)
  validity-true p usage (some i) calls after h = elim (Bool-cases (is_empty i)) [
    | inl empty ↦ cc (ap (λ x. x.0) (rw empty at h))
    | inr filled ↦
        let (answered, e) =
          ask-ok _ (broker.processed p i usage) calls after (some true) (rw filled at h) in
        (i, refl, filled, answered, sym e)
  ]

  -- What an attested answer rests on: the provider is offered and verifiable, it was funded before anything was
  -- sent, the messages were sent once, and the broker called the answer valid under the id that is reported.
  pub record IsVerified (prompt : AnalysisPrompt) (result : ChatResult) (calls : List BrokerCall)
      : Type 0 where
    pub services : List Service
    pub answered : broker.services ≡ ok services
    pub chosen : Service
    pub offered : OneOf chosen services
    pub verifiable_tee : is_verifiable chosen ≡ true
    pub provider : Text
    pub its_address : chosen.provider ≡ provider
    pub from_it : result.provider_address ≡ provider
    pub endpoint : Text
    pub usage : Text
    pub id : Text
    pub reported : result.chat_id ≡ some id
    pub valid : broker.processed provider id usage ≡ ok (some true)
    pub all_calls :
        calls
        ≡ process_response provider id usage
          ∷ fetch
              (endpoint ++ lit "/chat/completions")
              (request_body (prompt_messages prompt) result.model)
          ∷ get_request_headers provider
          ∷ get_service_metadata provider
          ∷ transfer_fund provider default_topup_neuron
          ∷ get_ledger
          ∷ list_service
          ∷ []

  module _ (prompt : AnalysisPrompt) (p : Text) where
    abbrev messages : List ChatMessage
    messages = prompt_messages prompt

    abbrev answered_by : ServiceMetadata → ChatResponse → Traced BrokerCall ChatResult
    answered_by service response =
        lift (read_response to_lower_case broker response)
        >>= read_answer to_lower_case broker p service response

    abbrev described_by : ServiceMetadata → Traced BrokerCall ChatResult
    described_by service =
        ask (get_request_headers p) (broker.headers_of p)
        >> (post to_lower_case broker messages service >>= answered_by service)

    read_answer-valid :
        (service : ServiceMetadata) (response : ChatResponse) (answer : ChatData)
        (result : ChatResult) (calls after : List BrokerCall)
        → read_answer to_lower_case broker p service response answer calls ≡ (ok result, after)
        → result.is_valid ≡ some true
        → (usage id : Text) × (result.chat_id ≡ some id)
          × (result.provider_address ≡ p)
          × (result.model ≡ service.model)
          × (broker.processed p id usage ≡ ok (some true))
          × (after ≡ process_response p id usage ∷ calls)
    unfolding read_answer
    read_answer-valid service response answer result calls after h valid =
        let usage = usage_content answer.usage in
        let id = chat_id_of response.zg_res_key answer.id in
        let (v, c, asked, built) =
          bind-ok (validity to_lower_case broker p usage id) _ calls after result h in
        let same : record {
          content = content_of answer.choices;
          provider_address = p;
          model = service.model;
          chat_id = id;
          is_valid = v;
        }
            ≡ result =
          cc (ap (λ x. x.0) built) in
        let (i, reported, filled, processed, all) =
          validity-true p usage id calls c
            (asked ∙ ap (λ o. (ok o, c)) (ap (λ x. x.is_valid) same ∙ valid)) in
        (
          usage,
          i,
          sym (ap (λ x. x.chat_id) same) ∙ reported,
          sym (ap (λ x. x.provider_address) same),
          sym (ap (λ x. x.model) same),
          processed,
          sym (ap (λ x. x.1) built) ∙ all,
        )

    run_attested_chat-valid :
        (result : ChatResult) (after : List BrokerCall) (ss : List Service)
        → broker.services ≡ ok ss
        → Offers (verifiable ss) p
        → run_attested_chat to_lower_case broker p messages (list_service ∷ []) ≡ (ok result, after)
        → result.is_valid ≡ some true
        → IsVerified prompt result after
    unfolding run_attested_chat
    run_attested_chat-valid result after ss answered (s, m, e) h valid =
        let (u, c1, funded, h1) =
          bind-ok (ensure_funded to_lower_case broker p)
            (λ _. ask (get_service_metadata p) (broker.metadata_of p) >>= described_by)
            (list_service ∷ []) after result h in
        let (service, c2, described, h2) =
          bind-ok (ask (get_service_metadata p) (broker.metadata_of p)) described_by c1 after result
            h1 in
        let (headers, c3, given, h3) =
          bind-ok (ask (get_request_headers p) (broker.headers_of p))
            (λ _. post to_lower_case broker messages service >>= answered_by service) c2 after
            result h2 in
        let (response, c4, posted, h4) =
          bind-ok (post to_lower_case broker messages service) (answered_by service) c3 after result
            h3 in
        let (answer, c5, read, h5) =
          bind-ok (lift (read_response to_lower_case broker response))
            (read_answer to_lower_case broker p service response) c4 after result h4 in
        let (usage, id, reported, same_p, same_m, valid_answer, last) =
          read_answer-valid service response answer result c5 after h5 valid in
        let (listed, tee) = verifiable-listed ss s m in
        record {
          services = ss;
          answered = answered;
          chosen = s;
          offered = listed;
          verifiable_tee = tee;
          provider = p;
          its_address = e;
          from_it = same_p;
          endpoint = service.endpoint;
          usage = usage;
          id = id;
          reported = reported;
          valid = valid_answer;
          all_calls =
              last
              ∙ ap (λ x. process_response p id usage ∷ x)
                  (sym (ap (λ x. x.1) read)
                    ∙ sym (ask-ok _ _ c3 c4 response posted).1
                    ∙ ap₂
                        (λ model x.
                          fetch (service.endpoint ++ lit "/chat/completions")
                            (request_body messages model)
                          ∷ x)
                        (sym same_m)
                        (sym (ask-ok _ _ c2 c3 headers given).1
                          ∙ ap (λ x. get_request_headers p ∷ x)
                              (sym (ask-ok _ _ c1 c2 service described).1
                                ∙ ap (λ x. get_service_metadata p ∷ x)
                                    (ensure_funded-ok p (list_service ∷ []) c1 u funded))));
        }

  -- An attested answer that the broker called valid comes from a listed provider with TEE verifiability, which
  -- was funded before the prompt was sent to it, once; the id under which it was called valid is reported.
  pub attested_chat-IsVerified :
      (config : ComputeConfig) (prompt : AnalysisPrompt) (result : ChatResult)
      (calls : List BrokerCall)
      → attested_chat to_lower_case broker config prompt [] ≡ (ok result, calls)
      → result.is_valid ≡ some true
      → IsVerified prompt result calls
  unfolding attested_chat
  attested_chat-IsVerified config prompt result calls h valid =
      let (p, c, selected, h') =
        bind-ok (select_provider to_lower_case broker config.preferred_provider_address)
          (λ p. run_attested_chat to_lower_case broker p (prompt_messages prompt)) [] calls result
          h in
      let (ss, answered, offers, all) =
        select_provider-Offers to_lower_case broker config.preferred_provider_address [] c p
          selected in
      run_attested_chat-valid prompt p result calls ss answered offers
        (ap (λ x. run_attested_chat to_lower_case broker p (prompt_messages prompt) x) (sym all)
          ∙ h')
        valid
