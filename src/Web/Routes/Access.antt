-- ===== src/Web/Routes/Access.antt =====
-- apps/web/src/app/api: who gets what from the routes.
use clawback.Prelude.{
  ◌≡◌, refl, ◌≢◌, ◌⊎◌, inl, inr, Text, false, Option, none, some, lit, is_empty, Option-cases,
}
use clawback.Json.{Value}
use clawback.Shared.Errors.{Error, ok, unauthorized_case_access, case_not_found}
use clawback.Shared.Types.{SubscriptionCaseInput}
use clawback.Agent.CaseRecord.{CaseRecord}
use clawback.Agent.World.{World, continue, Deps}
use clawback.Agent.Store.{Backend}
use clawback.Agent.Orchestrator.{submit_case}
use clawback.Agent.Orchestrator.Rejections.{AllFail, stranger-AllFail, missing-AllFail}
use clawback.Web.Validate.{validate, validate-IsClean, IsClean}
use clawback.Web.Routes.{
  Response, respond, error_body, case_body, error_response, get_or_create_owner_id, page_identity,
  answer, post_case, get_case_route, post_reject, get_verify, case_page, known,
}

module _ {S : Type 0} (backend : Backend S) (d : Deps) where
  module _ (cookie : Text) (filled : is_empty cookie ≡ false) where
    pub known_owner :
        (w : World S) → get_or_create_owner_id backend d (some cookie) w ≡ (ok (known cookie), w)
    unfolding get_or_create_owner_id
    known_owner w = rw filled

    pub known_page :
        (w : World S) → page_identity backend d (some cookie) w ≡ (ok (known cookie), w)
    unfolding page_identity
    known_page w = rw (known_owner w, continue) refl

    module _ (id : Text) (w : World S) where
      -- What the three routes without a body answer to an owner whose calls all fail.
      pub record AllRespond (response : Response) : Type 0 where
        pub reading : get_case_route backend d (some cookie) id w ≡ (ok response, w)
        pub rejecting : post_reject backend d (some cookie) id w ≡ (ok response, w)
        pub verifying : get_verify backend d (some cookie) id w ≡ (ok response, w)

      AllFail-AllRespond :
          (e : Error) → AllFail backend d id cookie w e → AllRespond (error_response none e)
      unfolding get_case_route post_reject get_verify answer
      AllFail-AllRespond e f = record {
        reading = rw (known_owner w, continue, f.reading);
        rejecting = rw (known_owner w, continue, f.rejecting);
        verifying = rw (known_owner w, continue, f.verifying);
      }

      -- Whoever comes with another owner's cookie is answered 403 with one fixed text, whatever the case holds,
      -- and nothing changes.
      pub stranger-AllRespond :
          (r : CaseRecord)
          → backend.stored id w.cases ≡ some r
          → r.owner_id ≢ cookie
          → AllRespond (respond 403 (error_body (lit "Not authorized.")) none)
      unfolding error_response
      stranger-AllRespond r found ne =
          AllFail-AllRespond _ (stranger-AllFail backend d id cookie w r found ne)

      page_of_error :
          (e : Error)
          → AllFail backend d id cookie w e
          → (e ≡ case_not_found id) ⊎ (e ≡ unauthorized_case_access id)
          → case_page backend d (some cookie) id w ≡ (ok none, w)
      unfolding case_page
      page_of_error e f (inl same) = rw (known_page w, continue, f.reading, same)
      page_of_error e f (inr same) = rw (known_page w, continue, f.reading, same)

      -- The page of a case that is not there and of one that is another owner's are the same: not found.
      pub case_page_hides :
          ((r : CaseRecord) → backend.stored id w.cases ≡ some r → r.owner_id ≢ cookie)
          → case_page backend d (some cookie) id w ≡ (ok none, w)
      case_page_hides hidden = elim (Option-cases (backend.stored id w.cases)) [
        | inl absent ↦ page_of_error _ (missing-AllFail backend d id cookie w absent) (inl refl)
        | inr (r, found) ↦
            page_of_error _ (stranger-AllFail backend d id cookie w r found (hidden r found))
              (inr refl)
      ]

  -- A new case whose body has a complaint is answered 400 with it, before a cookie is set and with nothing changed.
  pub post_case-refused :
      (cookie : Option Text) (body : Value) (message : Text) (w : World S)
      → validate body ≡ ok (some message)
      → post_case backend d cookie (ok body) w ≡ (ok (respond 400 (error_body message) none), w)
  unfolding post_case
  post_case-refused cookie body message w complaint = rw complaint

  -- A new case whose body has no complaint reaches `submitCase` with an input that is clean: filled and
  -- trimmed fields, and at most six digits of the account.
  pub post_case-accepted :
      (cookie : Text) (body : Value) (w : World S)
      → is_empty cookie ≡ false
      → validate body ≡ ok none
      → (i : SubscriptionCaseInput) × IsClean i
        × (post_case backend d (some cookie) (ok body) w
            ≡ answer backend d none
                (submit_case backend d cookie i)
                (λ summary. respond 201 (case_body summary) none)
                w)
  unfolding post_case
  post_case-accepted cookie body w filled fine =
      let (i, read, clean) = validate-IsClean body fine in
      (i, clean, rw (fine, known_owner cookie filled w, continue, read))
