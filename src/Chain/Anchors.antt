-- ===== src/Chain/Anchors.antt =====
-- packages/chain/contracts/CaseAnchor.sol: what is anchored stays.
use clawback.Prelude.{
  ℕ, ◌%◌, ◌^◌, ◌≡◌, ◌≢◌, refl, ap, sym, ◌∙◌, ◌↔◌, inl, inr, true, false, List, [], ◌∷◌, ◌==◌,
  ==_iff, arith, Bool-cases,
}
use clawback.Chain.{
  Anchor, Anchors, Transaction, Outcome, done, reverted, anchor, verify, get_anchor, put,
}

-- One call of `anchor`.
pub record AnchorCall : Type 0 where
  pub tx : Transaction
  pub case_id : ℕ
  pub commitment : ℕ
  pub previous : ℕ

abbrev settle : Anchors → Outcome → Anchors
settle before (done after) = after
settle before (reverted r) = before

-- The state after a call, which a revert leaves as it was.
unfoldable pub applied : AnchorCall → Anchors → Anchors
unfolding anchor
applied c anchors = settle anchors (anchor c.tx c.case_id c.commitment c.previous anchors)

unfoldable pub apply_all : List AnchorCall → Anchors → Anchors
unfolding applied
apply_all [] anchors = anchors
apply_all (c ∷ cs) anchors = apply_all cs (applied c anchors)

applied-stays :
    (c : AnchorCall) (anchors : Anchors) (k : ℕ)
    → ((anchors k).anchored_at == 0) ≡ false
    → applied c anchors k ≡ anchors k
unfolding applied anchor put
applied-stays c anchors k set = elim (Bool-cases (c.commitment == 0)) [
  | inl empty ↦ rw empty
  | inr full ↦ elim (Bool-cases ((anchors c.case_id).anchored_at == 0)) [
    | inr taken ↦ rw (full, taken)
    | inl free ↦ elim (Bool-cases (k == c.case_id)) [
      | inr other ↦ rw (full, free, other)
      | inl same ↦
          let it = (==_iff k c.case_id).0 same in
          cc (set, ap (λ j. (anchors j).anchored_at == 0) it, free)
    ]
  ]
]

apply_all-stays :
    (cs : List AnchorCall) (anchors : Anchors) (k : ℕ)
    → ((anchors k).anchored_at == 0) ≡ false
    → apply_all cs anchors k ≡ anchors k
unfolding apply_all
apply_all-stays [] anchors k set = refl
apply_all-stays (c ∷ cs) anchors k set =
    let stays = applied-stays c anchors k set in
    apply_all-stays cs (applied c anchors) k (ap (λ a. a.anchored_at == 0) stays ∙ set) ∙ stays

abbrev pub anchored_by_call : AnchorCall → Anchor
anchored_by_call c = record {
  receipt_commitment = c.commitment;
  previous_commitment = c.previous;
  anchored_by = c.tx.sender;
  anchored_at = c.tx.timestamp % 2 ^ 64;
}

done-inj : {a b : Anchors} → done a ≡ done b → a ≡ b
done-inj h = cc h

anchor-done :
    (c : AnchorCall) (anchors after : Anchors)
    → anchor c.tx c.case_id c.commitment c.previous anchors ≡ done after
    → (after c.case_id ≡ anchored_by_call c) × ((anchors c.case_id).anchored_at ≡ 0)
unfolding anchor put
anchor-done c anchors after h = elim (Bool-cases (c.commitment == 0)) [
  | inl empty ↦ cc (rw empty at h)
  | inr full ↦ elim (Bool-cases ((anchors c.case_id).anchored_at == 0)) [
    | inr taken ↦ cc (rw (full, taken) at h)
    | inl free ↦ (
      sym (ap (λ f. f c.case_id) (done-inj (rw (full, free) at h)))
          ∙ rw ((==_iff c.case_id c.case_id).1 refl),
      (==_iff _ _).0 free,
    )
  ]
]

-- What a transaction anchored is there after any further calls of the contract, whoever makes them: the
-- anchor of the case is that of the first transaction, and `verify` accepts its commitment and no other.
pub anchor_stays :
    (c : AnchorCall) (anchors after : Anchors) (later : List AnchorCall) (expected : ℕ)
    → anchor c.tx c.case_id c.commitment c.previous anchors ≡ done after
    → c.tx.timestamp % 2 ^ 64 ≢ 0
    → (get_anchor c.case_id (apply_all later after) ≡ anchored_by_call c)
      × ((verify c.case_id expected (apply_all later after) ≡ true) ↔ (expected ≡ c.commitment))
unfolding get_anchor verify
anchor_stays c anchors after later expected h now =
    let (there, _) = anchor-done c anchors after h in
    let stays =
      apply_all-stays later after c.case_id
        (ap (λ a. a.anchored_at == 0) there ∙ ground (arith, now))
      ∙ there in
    (stays, rw stays (λ e. sym ((==_iff _ _).0 e), λ e. (==_iff _ _).1 (sym e)))
