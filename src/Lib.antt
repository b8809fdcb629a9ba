-- ===== src/Lib.antt =====
-- Clawback, an agent that asks merchants for refunds and proves what it did: the packages under
-- packages/ and the web application under apps/web, as definitions that run and theorems about them.
--
-- The program. A user submits a case; the agent drafts a message, waits for the user's approval of
-- exactly that message, sends it through a provider, and builds a receipt: a chain of SHA-256
-- commitments over the case, the approved action, its execution and its outcome. A verifier recomputes the chain from the
-- case's artifacts. A fee is assessed on verified savings alone.
--
-- The parts and their files:
-- - Prelude, Json: texts as lists of UTF-16 code units, dictionaries, integers; `JSON.stringify` and
--   `JSON.parse` on values without fractions, which is all that the program writes and reads back. `Json/WellFormed`
--   is about the surrogates in such texts.
-- - Shared: packages/shared/src. `Types` and `Errors` are the data, `StateMachine` the table of
--   stateMachine.ts with `applyTransition`, `isTerminal` and `legalEvents`, `Commitment` is
--   commitment.ts, with `Commitment/Binding` and `Commitment/Reordered` about what a commitment binds and what it does not, `Artifacts` the objects that are committed to or stored, `Messages` the texts of the errors, and
--   `Money` the amounts that orchestrator.ts and sandboxProvider.ts find in texts.
-- - Payments: packages/payments/src. `Fee` is fee.ts, `Ledger` is ledger.ts.
-- - Privacy: packages/privacy/src. `Encryption` is encryption.ts, `Redact` and `LogEvent` are redact.ts.
-- - Receipts: packages/receipts/src. `Builder` is builder.ts, `Verifier` is verifier.ts, with `Verifier/Recomputed`;
--   `Soundness` and `Tampering` are about both.
-- - Compute: packages/compute/src: `analyze` with the fallback message, the prompt and the configuration;
--   `Compute/Honest` is about it. `Compute/Attested` is attestedClient.ts; `Attested/Selection` and
--   `Attested/Verified` are about it.
-- - Storage: packages/storage/src/storageClient.ts; `Storage/Cleanup` is about it.
-- - Chain: packages/chain: contracts/CaseAnchor.sol, and src/anchorClient.ts over it; `Chain/Anchors` is about the contract.
-- - Providers: packages/providers/src: the sandbox provider and the live one, which throws.
-- - Agent: packages/agent/src. `CaseRecord` is caseRecord.ts. `World` holds what the orchestrator acts on and
--   its actions. `Store` is `BaseCaseStore` of store.ts over a record `Backend` of operations and laws, which
--   `Store/Backends` fills for the in-memory and the Redis store; `Store/Files` is `FileCaseStore`, and `Store/Files/Listing` its
--   `listForOwner`. `Orchestrator`, `Orchestrator/Values` and `Orchestrator/Steps` are
--   orchestrator.ts: `submit_case` for `submitCase`, `approve_and_execute` for
--   `approveAndExecute` and so on; `Orchestrator/Submission`, `Orchestrator/Sealed`, `Orchestrator/Rejections`, `Orchestrator/Safety`,
--   `Orchestrator/Refinement`, `Orchestrator/Success`, `Orchestrator/Finished`, `Orchestrator/Approval` and
--   `Orchestrator/Finishable` are about them. `Refinement/Shape` says which fields the state of a case promises.
-- - Web: apps/web/src. `Validate` is `validate` of app/api/cases/route.ts and the input that is read from the
--   body. `Routes` are the five routes and the page of a case, as actions on the orchestrator's
--   world, with httpErrors.ts and identity.ts of lib/server. `Config` is the configuration of the 0G clients
--   (config.ts and index.ts of packages/storage and packages/chain) and status.ts; `Wiring` is orchestrator.ts of
--   lib/server. `Client/Lifecycle`, `Client/Display`, `Client/StatusBadge` and `Client/Values` are what the components compute
--   (LifecycleStepper.tsx, VerificationCheck.tsx, IntegrationStatus.tsx, CopyableValue.tsx, EnvironmentBanner.tsx, CommitmentRail.tsx,
--   ProofSection.tsx). `Client/CaseView` is CaseView.tsx: its state, its requests and the panels that it shows, each with the
--   data that its markup shows. `Client/ReceiptCard` is ReceiptCard.tsx, with
--   `ReceiptCard/Claims` and `ReceiptCard/Refunds` about it, and `Client/NewCase` is app/cases/new/page.tsx.
--   `Session` puts the pages and the routes together: what a click or a submission does to the page and to the server's
--   world; `Session/Seen`, `Session/Approved`, `Session/Rejected`, `Session/Opened`, `Session/Stale`, `Session/Submitted` and
--   `Session/Sends` are about that.
-- - Tests: concrete data, and runs of the definitions and theorems on them.
--
-- State and errors. An action takes a world (the stored cases, the ledger, the number of calls to
-- collaborators so far, and the trace of effects) and gives a value or an error with a new world;
-- what was written before an error stays written. An error is a constructor of `Error` for each class or
-- message of the source.
--
-- Parameters. SHA-256, random ids, the clock, AES-256-GCM, UTF-8, the analysis, the provider, storage and
-- anchoring are arguments (`Deps`, `Cipher`); each may answer differently at each call. Of AES it is
-- assumed that decryption undoes encryption under the same key and vector, and of UTF-8 that decoding undoes encoding for
-- texts without a lone surrogate, which is what JSON texts are (`Json/WellFormed`). Of Redis it is
-- assumed that `get` answers what `set` last put. Nothing is assumed of SHA-256: where a property
-- depends on it, the theorem gives either its conclusion or two texts with one digest.
--
-- Bounds. Amounts are unbounded integers; a JavaScript number holds them exactly below 2^53. The amounts in texts are read and
-- printed exactly; the source does so with doubles, which agrees below 2^50 cents (`exact_below` of `Shared/Money`), and what is said of
-- them in the results is under that bound.
-- `JSON.parse` runs on the length of its text as fuel, and every printed value is shorter than its
-- text. All other definitions are structural.
--
-- Clients of 0G: an action of `Shared/Traced` gives a result or an error and leaves the calls that it made of code
-- that is not the repository's. What that code answers in one run is a record (`Broker`, `StorageSdk`, `Ethers`), over
-- which all theorems range.
--
-- Files: what a file contains is a type that the store only passes on. Nothing is assumed of `join`, of the file system or of
-- the form of a record as JSON.
--
-- Not modelled: the construction of SDK objects (`createBroker`, `new Indexer`), the script that deploys the contract, the smoke test,
-- the landing and explanation pages, the navigation bar and all markup, which have no logic, the browser's own checks of a form, and
-- failures of a store's own input and output other than a file that cannot be read.
pub mod Prelude
pub mod Json
pub mod Shared
pub mod Payments
pub mod Privacy
pub mod Receipts
pub mod Agent
pub mod Providers
pub mod Compute
pub mod Storage
pub mod Chain
pub mod Web
pub mod Tests
