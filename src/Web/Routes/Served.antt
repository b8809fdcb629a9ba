-- ===== src/Web/Routes/Served.antt =====
-- apps/web/src/app/api: what holds of every request that the server may receive.
use clawback.Prelude.{
  Text, Option, none, some, List, lit, is_empty, Option-cases, Bool-cases, inl, inr,
}
use clawback.Json.{Value}
use clawback.Shared.Errors.{Result, ok, err, Result-cases}
use clawback.Agent.World.{World, Action, Effect, continue, Deps}
use clawback.Agent.Store.{Backend}
use clawback.Agent.Orchestrator.{submit_case, reject_proposal, get_case, verify_case_receipt}
use clawback.Agent.Orchestrator.Safety.{Authorized}
use clawback.Agent.Orchestrator.Safety.Quiet.{
  Leaves, Keeps, after, submit_case-Keeps, reject_proposal-Keeps, get_case-Keeps,
  verify_case_receipt-Keeps, get_for_owner-Keeps,
}
use clawback.Agent.Orchestrator.Safety.Sends.{Safe, Safe-grows, approve_and_execute-Safe}
use clawback.Web.Validate.{validate, input_of_body, property}
use clawback.Web.Routes.{
  Response, get_or_create_owner_id, page_identity, answer, post_case, get_case_route, post_approve,
  post_reject, get_verify, case_page, is_missing, is_hidden, approve_given, proposal_id_of,
  ProposalId, missing, other, text, Identity,
}

-- A request to one of the routes, with its cookie.
pub data HttpRequest : Type 0 where
  new_case : Option Text → Result Value → HttpRequest
  read_case reject_case verify_case view_page : Option Text → Text → HttpRequest
  approve_case : Option Text → Text → Result Value → HttpRequest

module _ {S : Type 0} (backend : Backend S) (d : Deps) where
  -- The world that a request leaves, whether it is answered or throws.
  unfoldable pub serve : HttpRequest → World S → World S
  serve (new_case cookie json) w = (post_case backend d cookie json w).1
  serve (read_case cookie id) w = (get_case_route backend d cookie id w).1
  serve (reject_case cookie id) w = (post_reject backend d cookie id w).1
  serve (verify_case cookie id) w = (get_verify backend d cookie id w).1
  serve (view_page cookie id) w = (case_page backend d cookie id w).1
  serve (approve_case cookie id json) w = (post_approve backend d cookie id json w).1

  module _ where
    abbrev P : List Effect → Type 0
    P = Safe backend d

    abbrev SafeLeaves : {A : Type 0} → (Result A × World S) → Type 0
    SafeLeaves = Leaves P (Safe-grows backend d)

    abbrev SafeKeeps : {A : Type 0} → Action S A → Type 0
    SafeKeeps = Keeps P (Safe-grows backend d)

  identity-Keeps : (cookie : Option Text) → SafeKeeps (get_or_create_owner_id backend d cookie)
  unfolding get_or_create_owner_id
  identity-Keeps none w p = record { left = p }
  identity-Keeps (some cookie) w p = elim (Bool-cases (is_empty cookie)) [
    | inl e ↦ rw e (record { left = p })
    | inr e ↦ rw e (record { left = p })
  ]

  answer-Keeps :
      {A : Type 0} (cookie : Option Text) (run : Action S A) (success : A → Response)
      → SafeKeeps run
      → SafeKeeps (answer backend d cookie run success)
  unfolding answer
  answer-Keeps cookie run success k w p = elim (Result-cases (run w).0) [
    | inl (a, e) ↦ rw e (record { left = (k w p).left })
    | inr (x, e) ↦ rw e (record { left = (k w p).left })
  ]

  routed-Keeps :
      {A : Type 0} (cookie : Option Text) (run : Text → Action S A)
      (success : Identity → A → Response)
      → ((owner : Text) → SafeKeeps (run owner))
      → (w : World S) → P w.trace
      → SafeLeaves (
          continue
            (get_or_create_owner_id backend d cookie w)
            (λ owner. answer backend d owner.fresh (run owner.owner_id) (success owner)))
  routed-Keeps cookie run success k w p =
      after P (Safe-grows backend d) _ _ (identity-Keeps cookie w p)
        (λ owner. answer-Keeps owner.fresh (run owner.owner_id) (success owner) (k owner.owner_id))

  approve_given-Keeps :
      (id owner : Text) (given : ProposalId) → SafeKeeps (approve_given backend d id owner given)
  unfolding approve_given
  approve_given-Keeps id owner (text pid) w p = approve_and_execute-Safe backend d id owner pid w p
  approve_given-Keeps id owner missing w p =
      after P (Safe-grows backend d) _ _
        (get_for_owner-Keeps P (Safe-grows backend d) backend id owner w p)
        (λ _ w1 p1. record { left = p1 })
  approve_given-Keeps id owner other w p =
      after P (Safe-grows backend d) _ _
        (get_for_owner-Keeps P (Safe-grows backend d) backend id owner w p)
        (λ _ w1 p1. record { left = p1 })

  post_case-Keeps :
      (cookie : Option Text) (json : Result Value) → SafeKeeps (post_case backend d cookie json)
  unfolding post_case
  post_case-Keeps cookie (err e) w p = record { left = p }
  post_case-Keeps cookie (ok body) w p = elim (Result-cases (validate body)) [
    | inr (e, failed) ↦ rw failed (record { left = p })
    | inl (some message, refused) ↦ rw refused (record { left = p })
    | inl (none, fine) ↦ rw fine (
        after P (Safe-grows backend d) _ _ (identity-Keeps cookie w p) (λ owner w1 p1.
          elim (Result-cases (input_of_body body)) [
            | inr (e, failed) ↦ rw failed (record { left = p1 })
            | inl (input, read) ↦ rw read (
                answer-Keeps owner.fresh (submit_case backend d owner.owner_id input) _
                  (submit_case-Keeps P (Safe-grows backend d) backend d owner.owner_id input) w1 p1)
          ]))
  ]

  post_approve-Keeps :
      (cookie : Option Text) (id : Text) (json : Result Value)
      → SafeKeeps (post_approve backend d cookie id json)
  unfolding post_approve
  post_approve-Keeps cookie id (err e) w p = record { left = p }
  post_approve-Keeps cookie id (ok body) w p =
      elim (Result-cases (property body (lit "proposalId"))) [
        | inr (e, failed) ↦ rw failed (record { left = p })
        | inl (given, found) ↦ rw found (elim (Bool-cases (is_missing (proposal_id_of given))) [
          | inl none_given ↦ rw none_given (record { left = p })
          | inr some_given ↦ rw some_given (
              routed-Keeps cookie (λ owner. approve_given backend d id owner (proposal_id_of given))
                _ (λ owner. approve_given-Keeps id owner (proposal_id_of given)) w p)
        ])
      ]

  page_identity-Keeps : (cookie : Option Text) → SafeKeeps (page_identity backend d cookie)
  unfolding page_identity
  page_identity-Keeps cookie w p =
      after P (Safe-grows backend d) _ _ (identity-Keeps cookie w p) (λ owner w1 p1.
        elim (Option-cases owner.fresh) [
          | inl known_one ↦ rw known_one (record { left = p1 })
          | inr (id, new_one) ↦ rw new_one (record { left = p1 })
        ])

  case_page-Keeps : (cookie : Option Text) (id : Text) → SafeKeeps (case_page backend d cookie id)
  unfolding case_page
  case_page-Keeps cookie id w p =
      after P (Safe-grows backend d) _ _ (page_identity-Keeps cookie w p) (λ owner w1 p1.
        let read =
          (get_case-Keeps P (Safe-grows backend d) backend d id owner.owner_id w1 p1).left in
        elim (Result-cases (get_case backend d id owner.owner_id w1).0) [
          | inl (summary, e) ↦ rw e (record { left = read })
          | inr (x, e) ↦ elim (Bool-cases (is_hidden x)) [
            | inl hidden ↦ rw (e, hidden) (record { left = read })
            | inr shown ↦ rw (e, shown) (record { left = read })
          ]
        ])

  -- No request to the server, whoever sends it and whatever its body, makes a message leave that was not
  -- approved: if every message of the trace was sent after an approval of it was saved, so it is after the request.
  pub serve-Authorized :
      (request : HttpRequest) (w : World S)
      → Authorized d.sha256 w.trace
      → Authorized d.sha256 (serve request w).trace
  unfolding serve get_case_route post_reject get_verify
  serve-Authorized (new_case cookie json) w p = (post_case-Keeps cookie json w p).left
  serve-Authorized (approve_case cookie id json) w p = (post_approve-Keeps cookie id json w p).left
  serve-Authorized (view_page cookie id) w p = (case_page-Keeps cookie id w p).left
  serve-Authorized (read_case cookie id) w p =
      (routed-Keeps cookie (get_case backend d id) _
        (get_case-Keeps P (Safe-grows backend d) backend d id) w p).left
  serve-Authorized (reject_case cookie id) w p =
      (routed-Keeps cookie (reject_proposal backend d id) _
        (reject_proposal-Keeps P (Safe-grows backend d) backend d id) w p).left
  serve-Authorized (verify_case cookie id) w p =
      (routed-Keeps cookie (verify_case_receipt backend d id) _
        (verify_case_receipt-Keeps P (Safe-grows backend d) backend d id) w p).left
