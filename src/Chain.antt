-- ===== src/Chain.antt =====
-- packages/chain: contracts/CaseAnchor.sol, and src/anchorClient.ts over it. A `bytes32`, an address and a time are
-- numbers; how `ethers` encodes a text as a `bytes32`, and what it says of a transaction, are parameters.
pub mod Anchors
use clawback.Prelude.{
  ℕ, ◌%◌, ◌^◌, lit, Text, Bool, true, false, not, Option, none, some, List, [], ◌∷◌, ◌==◌,
  if◌then◌else◌, ◌++◌,
}
use clawback.Agent.World.{AnchorResult}
use clawback.Shared.Errors.{Error, Result, ok, err, ◌>>=◌}

-- `CaseAnchor.Anchor`
pub record Anchor : Type 0 where
  pub receipt_commitment : ℕ
  pub previous_commitment : ℕ
  pub anchored_by : ℕ
  pub anchored_at : ℕ

abbrev pub no_anchor : Anchor
no_anchor = record {
  receipt_commitment = 0;
  previous_commitment = 0;
  anchored_by = 0;
  anchored_at = 0;
}

-- `mapping(bytes32 => Anchor)`: every key has a value, at first the one of zeros.
abbrev pub Anchors : Type 0
Anchors = ℕ → Anchor

abbrev pub nothing_anchored : Anchors
nothing_anchored case_id = no_anchor

pub data Reverted : Type 0 where
  already_anchored : ℕ → Reverted
  empty_commitment : Reverted

-- `msg.sender` and `block.timestamp` of a transaction.
pub record Transaction : Type 0 where
  pub sender : ℕ
  pub timestamp : ℕ

unfoldable pub put : ℕ → Anchor → Anchors → Anchors
put case_id a anchors k = if k == case_id then a else anchors k

pub data Outcome : Type 0 where
  done : Anchors → Outcome
  reverted : Reverted → Outcome

-- `CaseAnchor.anchor`
unfoldable pub anchor : Transaction → ℕ → ℕ → ℕ → Anchors → Outcome
unfolding put
anchor tx case_id commitment previous anchors =
    if commitment == 0
    then reverted empty_commitment
    else if not ((anchors case_id).anchored_at == 0)
    then reverted (already_anchored case_id)
    else done (
        put case_id
          (record {
            receipt_commitment = commitment;
            previous_commitment = previous;
            anchored_by = tx.sender;
            anchored_at = tx.timestamp % 2 ^ 64;
          })
          anchors)

-- `CaseAnchor.verify`
unfoldable pub verify : ℕ → ℕ → Anchors → Bool
verify case_id expected anchors = (anchors case_id).receipt_commitment == expected

-- `CaseAnchor.getAnchor`
unfoldable pub get_anchor : ℕ → Anchors → Anchor
get_anchor case_id anchors = anchors case_id

-- What `ethers` and a transaction bring: the encoding of a text as a `bytes32`, which throws for other texts, the
-- error that a revert is thrown as, the hash of the transaction and the block of its receipt, when there is one.
pub record Ethers : Type 0 where
  pub bytes32 : Text → Result ℕ
  pub revert_error : Reverted → Error
  pub tx : Transaction
  pub tx_hash : Text
  pub block_number : Option ℕ

abbrev pub zero_hash : Text
zero_hash = lit "0x0000000000000000000000000000000000000000000000000000000000000000"

abbrev or_zero_hash : Option Text → Text
or_zero_hash none = zero_hash
or_zero_hash (some previous) = previous

module _ (ethers : Ethers) where
  abbrev pub settled : Anchors → Outcome → Result AnchorResult × Anchors
  settled anchors (done after) =
      (ok (record { tx_hash = ethers.tx_hash; block_number = ethers.block_number }), after)
  settled anchors (reverted e) = (err (ethers.revert_error e), anchors)

  abbrev pub anchor_encoded :
      Anchors → Result ℕ → Result ℕ → Result ℕ → Result AnchorResult × Anchors
  unfolding anchor
  anchor_encoded anchors (ok k) (ok c) (ok p) = settled anchors (anchor ethers.tx k c p anchors)
  anchor_encoded anchors (err e) _ _ = (err e, anchors)
  anchor_encoded anchors (ok k) (err e) _ = (err e, anchors)
  anchor_encoded anchors (ok k) (ok c) (err e) = (err e, anchors)

  -- `AnchorClient.anchorReceipt`
  unfoldable pub anchor_receipt :
      Text → Text → Option Text → Anchors → Result AnchorResult × Anchors
  unfolding anchor_encoded
  anchor_receipt case_id commitment previous anchors =
      anchor_encoded anchors (ethers.bytes32 case_id) (ethers.bytes32 commitment)
        (ethers.bytes32 (or_zero_hash previous))

  -- `AnchorClient.verify`
  unfoldable pub verify_anchor : Text → Text → Anchors → Result Bool
  unfolding verify
  verify_anchor case_id expected anchors = do
    k ← ethers.bytes32 case_id
    e ← ethers.bytes32 expected
    ok (verify k e anchors)
