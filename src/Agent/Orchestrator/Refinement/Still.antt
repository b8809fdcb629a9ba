-- ===== src/Agent/Orchestrator/Refinement/Still.antt =====
-- packages/agent/src/orchestrator.ts: the steps of the orchestrator that do not change the stored cases.
use clawback.Prelude.{
  ◌≡◌, refl, ap, sym, subst, ◌∙◌, Text, suc, Option, none, some, ◌∷◌, Bool-cases, Option-cases, ◌⊎◌,
  inl, inr,
}
use clawback.Prelude.Int.{ℤ, is_nonpos}
use clawback.Shared.Types.{SubscriptionCaseInput, ClawbackReceipt}
use clawback.Shared.Errors.{CaseEvent, propose_action, Result, ok, err, err-ne-ok}
use clawback.Privacy.Encryption.{EncryptedPayload, decrypt_at_rest}
use clawback.Payments.Fee.{compute_fee, default_fee_bps}
use clawback.Receipts.Verifier.{assert_no_sandbox_leakage}
use clawback.Agent.CaseRecord.{CaseRecord}
use clawback.Agent.Orchestrator.Refinement.Shape.{Stay, Filled}
use clawback.Agent.World.{World, Action, continue, Deps, pure, new_id, ProviderActionRequest, sent}
use clawback.Agent.Orchestrator.Steps.{
  encrypt, decrypt_input, issue_receipt, upload, anchor, charge, send,
}

-- An action that leaves the stored cases as they are.
pub record Still {S A : Type 0} (w : World S) (x : Result A × World S) : Type 0 where
  pub same_cases : x.1.cases ≡ w.cases

abbrev pub still :
    {S A : Type 0} {r : Result A} {w w' : World S} → w'.cases ≡ w.cases → Still w (r, w')
still e = record { same_cases = e }

pub then_still :
    {S A B : Type 0} (w : World S) (x : Result A × World S) (f : A → Action S B)
    → Still w x
    → ((a : A) (w' : World S) → Still w' (f a w'))
    → Still w (continue x f)
then_still w (ok a, w') f l k = record { same_cases = (k a w').same_cases ∙ l.same_cases }
then_still w (err e, w') f l k = record { same_cases = l.same_cases }

pub continue-ok :
    {S A B : Type 0} (x : Result A × World S) (f : A → Action S B) (b : B)
    → (continue x f).0 ≡ ok b
    → (a : A) × (w' : World S) × ((f a w').0 ≡ ok b)
continue-ok (ok a, w') f b h = (a, w', h)
continue-ok (err e, w') f b h = absurd (err-ne-ok h)

pub given : {S A : Type 0} (r : Result A) (w : World S) → Still w (r, w)
given r w = record { same_cases = refl }

module _ {S : Type 0} (d : Deps) where
  pub encrypt-Still : (t : Text) (w : World S) → Still w (encrypt d t w)
  unfolding encrypt
  encrypt-Still t w = still refl

  pub decrypt_input-Still :
      (payload : EncryptedPayload) (w : World S) → Still w (decrypt_input d payload w)
  unfolding decrypt_input
  decrypt_input-Still payload w =
      then_still w _ _ (given (decrypt_at_rest d.cipher payload (some d.encryption_key)) w)
        (λ json w'. still refl)

  pub issue_receipt-Still :
      (build : Text → Text → ClawbackReceipt) (w : World S) → Still w (issue_receipt d build w)
  unfolding issue_receipt new_id
  issue_receipt-Still build w = record {
    same_cases =
        (then_still (record w { calls = suc (suc w.calls) }) _ _
          (given (assert_no_sandbox_leakage (build _ _) d.provider_source)
            (record w { calls = suc (suc w.calls) }))
          (λ _ w'. still refl)).same_cases;
  }

  pub upload-Still : (r : ClawbackReceipt) (w : World S) → Still w (upload d r w)
  unfolding upload
  upload-Still r w = elim (Option-cases d.storage_client) [
    | inl e ↦ rw e (still refl)
    | inr (f, e) ↦ rw e (still refl)
  ]

  pub anchor-Still : (id : Text) (r : ClawbackReceipt) (w : World S) → Still w (anchor d id r w)
  unfolding anchor
  anchor-Still id r w = elim (Option-cases d.anchor_client) [
    | inl e ↦ rw e (still refl)
    | inr (f, e) ↦ rw e (still refl)
  ]

  pub charge-Still :
      (id : Text) (verified : Option ℤ) (w : World S) → Still w (charge d id verified w)
  unfolding charge
  charge-Still id none w = still refl
  charge-Still id (some z) w = elim (Bool-cases (is_nonpos z)) [
    | inl e ↦ rw e (still refl)
    | inr e ↦
        rw e
          (then_still w _ _ (given (compute_fee (some z) default_fee_bps) w) (λ fee w'. still refl))
  ]

  pub send-Still :
      (id : Text) (input : SubscriptionCaseInput) (message : Text) (w : World S)
      → Still w (send d id input message w)
  unfolding send
  send-Still id input message w =
      let request : ProviderActionRequest = record {
        case_id = id;
        input = input;
        exact_message = message;
      } in
      let asked = record w { calls = suc w.calls; trace = sent request ∷ w.trace } in
      record {
        same_cases =
            (then_still asked _ _ (given (d.send_action w.calls request) asked)
              (λ _ w'. still refl)).same_cases;
      }

pub ok-inj : {A : Type 0} {a b : A} → ◌≡◌ {A = Result A} (ok a) (ok b) → a ≡ b
ok-inj h = cc h

-- The proposal of a case stays, unless the event is PROPOSE_ACTION.
abbrev pub KeepsProposal : CaseEvent → CaseRecord → CaseRecord → Type 0
KeepsProposal event new old = (event ≡ propose_action) ⊎ (new.proposal ≡ old.proposal)

-- What a patch keeps and fills.
abbrev pub Patched : CaseEvent → CaseRecord → CaseRecord → Type 0
Patched event new old = KeepsProposal event new old × Stay new old × Filled event new

-- A patch of a transition: it leaves the stored cases alone, and the id and the owner of its case; what is filled
-- stays filled, and what the event fills is filled.
pub record IsPatch {S : Type 0} (event : CaseEvent) (patch : CaseRecord → Action S CaseRecord)
    : Type 0 where
  pub patch_still : (r : CaseRecord) (w : World S) → Still w (patch r w)
  pub same_id : (r p : CaseRecord) (w : World S) → (patch r w).0 ≡ ok p → p.case_id ≡ r.case_id
  pub same_owner : (r p : CaseRecord) (w : World S) → (patch r w).0 ≡ ok p → p.owner_id ≡ r.owner_id
  pub patched : (r p : CaseRecord) (w : World S) → (patch r w).0 ≡ ok p → Patched event p r

pub pure-IsPatch :
    {S : Type 0} (event : CaseEvent) (f : CaseRecord → CaseRecord)
    → ((r : CaseRecord) → (f r).case_id ≡ r.case_id)
    → ((r : CaseRecord) → (f r).owner_id ≡ r.owner_id)
    → ((r : CaseRecord) → (f r).proposal ≡ r.proposal)
    → ((r : CaseRecord) → Stay (f r) r)
    → ((r : CaseRecord) → Filled event (f r))
    → IsPatch {S = S} event (λ r. pure (f r))
pure-IsPatch event f i o q s g = record {
  patch_still = λ r w. still refl;
  same_id = λ r p w h. ap (λ x. x.case_id) (sym (ok-inj h)) ∙ i r;
  same_owner = λ r p w h. ap (λ x. x.owner_id) (sym (ok-inj h)) ∙ o r;
  patched = λ r p w h. subst (λ x. Patched event x r) (ok-inj h) (inr (q r), s r, g r);
}
