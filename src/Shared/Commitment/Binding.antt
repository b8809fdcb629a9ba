-- ===== src/Shared/Commitment/Binding.antt =====
-- What a commitment binds. SHA-256 is not injective, so each statement has a second outcome: two
-- different texts with one digest, written out.
use clawback.Prelude.{
  ◌≡◌, ◌≢◌, ◌⊎◌, inl, inr, Text, Option, none, some, lit, sym, ◌∙◌, text_eq_iff, text_eq-cases,
  text_lt,
}
use clawback.Json.{Value, obj, end, field}
use clawback.Json.RoundTrip.{stringify_inj}
use clawback.Shared.Commitment.{canonicalize, commit, chain, or_null, sort_keys}
use clawback.Shared.Commitment.Normal.{normalize, canonicalize-eq-stringify}
use clawback.Shared.Commitment.Reordered.{
  Reordered, unchanged, in_object, under, no_fields, canonicalize-Reordered,
}

-- Two different texts with one digest.
pub record Collision (sha256 : Text → Text) : Type 0 where
  pub left : Text
  pub right : Text
  pub differ : left ≢ right
  pub same : sha256 left ≡ sha256 right

module _ (sha256 : Text → Text) where
  -- Two artifacts with one commitment have one normal form, or show a collision.
  pub commit_binding :
      (a b : Value)
      → commit sha256 a ≡ commit sha256 b
      → (normalize a ≡ normalize b) ⊎ Collision sha256
  unfolding commit lit
  commit_binding a b e = elim (text_eq-cases (canonicalize a) (canonicalize b)) [
    | inl same ↦
        inl (
          stringify_inj _ _
            (sym (canonicalize-eq-stringify a) ∙ same ∙ canonicalize-eq-stringify b))
    | inr other ↦ inr (record {
      left = canonicalize a;
      right = canonicalize b;
      differ = λ h. cc ((text_eq_iff (canonicalize a) (canonicalize b)).1 h);
      same = cc;
    })
  ]

  chain_normal :
      (p q : Option Text) (a b : Value)
      → normalize (obj (field (lit "previous") (or_null p) (field (lit "artifact") a end)))
        ≡ normalize (obj (field (lit "previous") (or_null q) (field (lit "artifact") b end)))
      → (p ≡ q) × (normalize a ≡ normalize b)
  unfolding normalize sort_keys lit text_lt
  chain_normal none none a b e = (cc, cc)
  chain_normal none (some t) a b e = (cc, cc)
  chain_normal (some s) none a b e = (cc, cc)
  chain_normal (some s) (some t) a b e = (cc, cc)

  -- A link binds the link before it and its own artifact.
  pub chain_binding :
      (p q : Option Text) (a b : Value)
      → chain sha256 p a ≡ chain sha256 q b
      → ((p ≡ q) × (normalize a ≡ normalize b)) ⊎ Collision sha256
  unfolding chain
  chain_binding p q a b e = elim (commit_binding _ _ e) [
    | inl same ↦ inl (chain_normal p q a b same)
    | inr clash ↦ inr clash
  ]

  -- The order in which the keys of an artifact's objects were set, at any depth, changes neither its commitment nor a link of
  -- a chain that commits to it.
  pub commit-Reordered :
      (previous : Option Text) {a b : Value}
      → Reordered a b
      → (commit sha256 a ≡ commit sha256 b) × (chain sha256 previous a ≡ chain sha256 previous b)
  unfolding commit chain
  commit-Reordered previous r = (
    rw (canonicalize-Reordered r),
    rw (
        canonicalize-Reordered (
          in_object (
            under (lit "previous") (unchanged (or_null previous))
              (under (lit "artifact") r no_fields)))),
  )
