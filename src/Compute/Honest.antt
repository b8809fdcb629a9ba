-- ===== src/Compute/Honest.antt =====
-- packages/compute/src/computeClient.ts: what an analysis says of itself.
use clawback.Prelude.{
  ◌≡◌, refl, ◌⊎◌, inl, inr, Text, Bool, true, false, Option, none, some, Bool-cases,
}
use clawback.Shared.Types.{SubscriptionCaseInput}
use clawback.Shared.Errors.{Result, ok, Result-cases}
use clawback.Agent.World.{AnalysisResult}
use clawback.Compute.{
  ComputeConfig, AnalysisPrompt, ChatResult, build_analysis_prompt, is_attested, not_valid,
  input_commitment_of, content_commitment, attested_result, analyze,
}

is_attested-true : (o : Option Bool) → is_attested o ≡ true → o ≡ some true
is_attested-true none h = cc h
is_attested-true (some true) h = refl
is_attested-true (some false) h = cc h

module _ (sha256 : Text → Text) where
  -- What an honest analysis is: it commits to its input and to the message that it returns, and either the broker
  -- answered with that message and called it valid, or the result is not attested and says why.
  pub record IsHonest (config : Option ComputeConfig)
      (broker : ComputeConfig → AnalysisPrompt → Result ChatResult) (input : SubscriptionCaseInput)
      (a : AnalysisResult) : Type 0 where
    pub input_committed : a.input_commitment ≡ input_commitment_of sha256 input
    pub output_committed : a.output_commitment ≡ content_commitment sha256 a.message
    pub attested_or_not :
        ((c : ComputeConfig) × (result : ChatResult) × (config ≡ some c)
          × (broker c (build_analysis_prompt input) ≡ ok result)
          × (result.is_valid ≡ some true)
          × (a.message ≡ result.content)
          × (a.tee_attested ≡ true)
          × (a.degraded_reason ≡ none))
        ⊎ ((reason : Text) × (a.tee_attested ≡ false) × (a.degraded_reason ≡ some reason))

  module _ (broker : ComputeConfig → AnalysisPrompt → Result ChatResult) (verified_at : Text)
      (input : SubscriptionCaseInput) where
    attested_result-IsHonest :
        (c : ComputeConfig) (result : ChatResult)
        → broker c (build_analysis_prompt input) ≡ ok result
        → IsHonest
            (some c)
            broker
            input
            (attested_result sha256 verified_at (input_commitment_of sha256 input) result)
    unfolding attested_result
    attested_result-IsHonest c result answered = elim (Bool-cases (is_attested result.is_valid)) [
      | inl valid ↦ record {
        input_committed = refl;
        output_committed = refl;
        attested_or_not = inl (
          c,
          result,
          refl,
          answered,
          is_attested-true result.is_valid valid,
          refl,
          valid,
          rw valid,
        );
      }
      | inr invalid ↦ record {
        input_committed = refl;
        output_committed = refl;
        attested_or_not = inr (not_valid, invalid, rw invalid);
      }
    ]

    analyze-answered :
        (c : ComputeConfig) (result : ChatResult)
        → broker c (build_analysis_prompt input) ≡ ok result
        → analyze sha256 (some c) broker verified_at input
          ≡ attested_result sha256 verified_at (input_commitment_of sha256 input) result
    unfolding analyze
    analyze-answered c result answered = rw (answered, analyze)

    -- Whatever the broker does, an analysis commits to its input and to the message that it returns.
    -- It is either attested, then the broker answered with that message and called it valid, and no reason for
    -- degradation is given; or it is not, and a reason is given.
    pub analyze-IsHonest :
        (config : Option ComputeConfig)
        → IsHonest config broker input (analyze sha256 config broker verified_at input)
    unfolding analyze
    analyze-IsHonest none = record {
      input_committed = refl;
      output_committed = refl;
      attested_or_not = inr (_, refl, refl);
    }
    analyze-IsHonest (some c) = elim (Result-cases (broker c (build_analysis_prompt input))) [
      | inr (e, failed) ↦
          rw (failed, analyze)
            (record {
              input_committed = refl;
              output_committed = refl;
              attested_or_not = inr (_, refl, refl);
            })
      | inl (result, answered) ↦
          rw (analyze-answered c result answered) (attested_result-IsHonest c result answered)
    ]
