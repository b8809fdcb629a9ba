-- ===== src/Compute/Attested/Selection.antt =====
-- packages/compute/src/attestedClient.ts: which provider is chosen, and what happens when none can be.
use clawback.Prelude.{
  ◌≡◌, refl, ap, sym, ◌∙◌, inl, inr, Text, true, false, Option, none, some, List, [], ◌∷◌, lit,
  ◌++◌, is_empty, text_eq, All, OneOf, Bool-cases, Option-cases,
}
use clawback.Shared.Errors.{ok, err, Result-cases, err-ne-ok}
use clawback.Shared.Traced.{continue}
use clawback.Shared.Types.{SubscriptionCaseInput}
use clawback.Shared.Messages.{error_message}
use clawback.Compute.{
  build_unattested_result, input_commitment_of, analyze, generate_fallback_message,
  build_analysis_prompt, AnalysisPrompt, ComputeConfig,
}
use clawback.Compute.Attested.{
  Service, Broker, BrokerCall, list_service, no_provider, is_verifiable, verifiable, first_of,
  choose, preferred, select_provider, attested_chat,
}

pub verifiable-listed :
    (ss : List Service) (s : Service)
    → OneOf s (verifiable ss)
    → OneOf s ss × (is_verifiable s ≡ true)
unfolding verifiable
verifiable-listed [] s h = elim h [ ]
verifiable-listed (t ∷ ss) s h = elim (Bool-cases (is_verifiable t)) [
  | inl yes_it_is ↦ elim (rw yes_it_is at h) [
    | inl same ↦ (inl same, rw same yes_it_is)
    | inr later ↦ let (m, v) = verifiable-listed ss s later in (inr m, v)
  ]
  | inr no_it_is_not ↦ let (m, v) = verifiable-listed ss s (rw no_it_is_not at h) in (inr m, v)
]

-- A provider of a listed service.
abbrev pub Offers : List Service → Text → Type 0
Offers ss p = (s : Service) × OneOf s ss × (s.provider ≡ p)

first_of-Offers : (ss : List Service) (p : Text) → first_of ss ≡ ok p → Offers ss p
first_of-Offers [] p h = absurd (err-ne-ok h)
first_of-Offers (s ∷ ss) p h = (s, inl refl, cc h)

module _ (to_lower_case : Text → Text) (broker : Broker) where
  preferred-Offers :
      (address : Text) (ss : List Service) (p : Text)
      → preferred to_lower_case broker address ss ≡ some p
      → Offers ss p
  preferred-Offers address [] p h = cc h
  preferred-Offers address (s ∷ ss) p h =
      elim (Bool-cases (text_eq (to_lower_case s.provider) (to_lower_case address))) [
        | inl same ↦ (s, inl refl, cc (rw same at h))
        | inr other ↦ let (t, m, e) = preferred-Offers address ss p (rw other at h) in (t, inr m, e)
      ]

  choose-Offers :
      (address : Option Text) (ss : List Service) (p : Text)
      → choose to_lower_case broker address ss ≡ ok p
      → Offers ss p
  unfolding choose
  choose-Offers none ss p h = first_of-Offers ss p h
  choose-Offers (some address) ss p h = elim (Bool-cases (is_empty address)) [
    | inl unset ↦ first_of-Offers ss p (rw unset at h)
    | inr filled ↦ elim (Option-cases (preferred to_lower_case broker address ss)) [
      | inl absent ↦ first_of-Offers ss p (rw (filled, absent) at h)
      | inr (q, found) ↦
          let (s, m, e) = preferred-Offers address ss q found in
          (s, m, e ∙ cc (rw (filled, found) at h))
    ]
  ]

  pub select_provider-Offers :
      (address : Option Text) (calls after : List BrokerCall) (p : Text)
      → select_provider to_lower_case broker address calls ≡ (ok p, after)
      → (ss : List Service) × (broker.services ≡ ok ss)
        × Offers (verifiable ss) p
        × (after ≡ list_service ∷ calls)
  unfolding select_provider
  select_provider-Offers address calls after p h = elim (Result-cases broker.services) [
    | inr (e, failed) ↦ absurd (err-ne-ok (ap (λ x. x.0) (rw (failed, continue) at h)))
    | inl (ss, answered) ↦
        let chosen = rw (answered, continue) at h in
        (
          ss,
          answered,
          choose-Offers address (verifiable ss) p (ap (λ x. x.0) chosen),
          sym (ap (λ x. x.1) chosen),
        )
  ]

  none_listed : (ss : List Service) → All (λ s. is_verifiable s ≡ false) ss → verifiable ss ≡ []
  unfolding verifiable
  none_listed [] u = refl
  none_listed (s ∷ ss) (no_tee, rest) = rw no_tee (none_listed ss rest)

  choose-none : (address : Option Text) → choose to_lower_case broker address [] ≡ err no_provider
  unfolding choose
  choose-none none = refl
  choose-none (some address) = elim (Bool-cases (is_empty address)) [
    | inl unset ↦ rw unset
    | inr filled ↦ rw filled
  ]

  attested_chat-none :
      (config : ComputeConfig) (prompt : AnalysisPrompt) (ss : List Service)
      → broker.services ≡ ok ss
      → All (λ s. is_verifiable s ≡ false) ss
      → attested_chat to_lower_case broker config prompt [] ≡ (err no_provider, list_service ∷ [])
  unfolding attested_chat select_provider
  attested_chat-none config prompt ss answered unverifiable = rw (
    answered,
    none_listed ss unverifiable,
    choose-none config.preferred_provider_address,
    continue,
  )

  -- Where no listed provider offers verifiability, nothing of the case leaves: the list of services is all that is
  -- asked for, and the analysis is the local message, not attested, with that reason.
  pub attested_chat-unverifiable :
      (sha256 : Text → Text) (verified_at : Text) (config : ComputeConfig)
      (input : SubscriptionCaseInput) (ss : List Service)
      → broker.services ≡ ok ss
      → All (λ s. is_verifiable s ≡ false) ss
      → ((attested_chat to_lower_case broker config (build_analysis_prompt input) []).1
          ≡ list_service ∷ [])
        × (analyze sha256
              (some config)
              (λ c prompt. (attested_chat to_lower_case broker c prompt []).0)
              verified_at
              input
            ≡ build_unattested_result sha256
                (generate_fallback_message input)
                (input_commitment_of sha256 input)
                (lit "0G Compute call failed: " ++ error_message no_provider))
  unfolding analyze
  attested_chat-unverifiable sha256 verified_at config input ss answered unverifiable =
      let failed =
        attested_chat-none config (build_analysis_prompt input) ss answered unverifiable in
      (ap (λ x. x.1) failed, rw (failed, analyze))
