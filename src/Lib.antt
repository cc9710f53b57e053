-- ===== src/Lib.antt =====
-- GuardianBot, modelled where it decides.
--
-- GuardianBot reviews pull requests, collects the evidence of scanners, keeps the state of a
-- fleet of repositories and says whether a release may be promoted. Its packages are the control
-- plane (apps/control-plane), the model bridge (apps/model-bridge), the shared core, protocol,
-- monitoring and DefectDojo packages, and the command line tool (packages/guardianctl). This
-- library models the parts that decide from values, which are functions here too, and the state
-- that the store keeps in memory, whose operations are functions from a state to a result and a state.
--
-- Prelude holds what the parts share: tests, lists, equality by instances, association lists for
-- `Map`, the stable sort of `array.sort`, results that may be an error, the text methods (Text) and
-- JavaScript's values (Js). Samples has dates and a collation for tests.
--
-- ReleaseGate models apps/control-plane/src/release-gate-policy.ts. `parse_release_gate_policy`
-- (Policy) is parseReleaseGatePolicy. `evaluate_release_gate` (Evaluate) is evaluateReleaseGate,
-- split as its body is: signature, image scan, SBOM, freeze and deployed-rescan checks (Evidence),
-- the scope of a DefectDojo Test (Scope), commit coverage (Coverage), and the judgement of
-- findings (Findings). What a check appends to the blockers, the exceptions, the evidence and the
-- ignored counts is a value of `Pushed` (Pushes), and checks in a row are joined with `⊕`. The
-- children of these modules hold the proofs, joined in Evaluate.Clearance.
--
-- Monitoring models packages/monitoring/src. Status is status.ts, Suppressions is suppressions.ts,
-- Freshness is freshness.ts, ExpectedRuns is expected-runs.ts, Evidence is evidence.ts, Lifecycle
-- is findings.ts, Repository is repository-monitor.ts and Weekly is weekly-report.ts, with what became
-- of advisory findings in Weekly.Values (buildReviewValueSummary), the section on findings in
-- Weekly.Findings (buildWeeklyFindingsSection), `quantile` in Weekly.Quantile and the report in
-- Weekly.Report (buildWeeklyCoverageReport). Each function has the name of the source
-- in snake case: `reconcile_expected_runs` is reconcileExpectedRuns. The clock is an argument `now`.
--
-- Ownership models the owner of a finding, from apps/control-plane/src/findings-lifecycle.ts: the
-- glob patterns of ownership rules (Glob, pathMatchesPattern) and the order in which the rules are
-- asked (Owner, resolveFindingOwner).
--
-- Ingest models the merge of an accepted run into the finding records, from the same file: which runs
-- are trusted and the order of runs (Records, isTrustedLifecycleRun, compareRunOrder), one observation
-- per stream (Observations, mergeObservations) and the two loops of ingestFindingObservations over the
-- observations and over the records (Merge). Bound is enforceFindingLifecycleBound, which keeps the
-- records of a repository within their number. Ingest takes owners from Ownership. What reads the
-- records before and saves them after, under the store's lock, is not modelled.
--
-- Store models MemoryStore of apps/control-plane/src/store.ts, as far as it is a queue of webhook
-- deliveries and keeps locks. Webhooks has enqueueWebhook, claimWebhook, completeWebhook, failWebhook
-- and getWebhook, Webhooks.Counts countWebhookJobs and Webhooks.Purge purgeTerminalWebhookJobs; the
-- `Map` of jobs is an association list, and each call takes the time of its clock. Webhooks.Calls has
-- any sequence of these calls. Payload is scrubWebhookPayloadForRetention, Retention the options that
-- are read from the environment, and Locks the locks of repositories, in which a waiting promise is a
-- ticket. PostgresStore does the same in SQL.
--
-- Service models processNextWebhook and failClaimedWebhook of apps/control-plane/src/service.ts
-- (Deliveries) on the queue of Store. How the handler of a delivery ends is an argument.
--
-- Dast models the sessions of dynamic scans, from apps/control-plane/src/dast-session.ts: the parsers
-- of single fields (Words, Fields) and of addresses (Origin), parseProfiles (Profile), parseRequest
-- (Request), validateOidcIdentity (Identity), exchangeCredential (Exchange) and `issue` of
-- createDastSessionService (Session). The claims that keep a session from being issued twice are in
-- Claims (claimDastSessionIssuance and its companions in store.ts), and Once has any sequence of calls
-- on them. What the outside says in one attempt, that is the verified token, the active repository,
-- the deployment record, the times and the target's answer, is an argument (`Attempt`).
--
-- The bounds of the model. Times are natural numbers of milliseconds since 1970; earlier times are
-- outside it. `Date.parse` and `toISOString` are a parameter (`Dates`) with the one law that a
-- printed date reads back; `JSON.parse`,
-- `new URL` and `Number(text)` (`Engine`) are parameters. Where the source
-- compares by `localeCompare` the order is a parameter (`Collation`), total and transitive, except
-- for fingerprints, which are hexadecimal: there it is the order of their bytes. The weekly report's
-- floating-point sums and ratios are a parameter (`Floats`), and so is the rounded-up product of a
-- length and a fraction from which a quantile takes its rank, exact for 0.5 and 0.95 and lengths below
-- 2^32, which bound an array. A time that is printed is assumed to be a date where a
-- theorem says so; JavaScript's dates end at 8.64e15 milliseconds. A JSON object has
-- each key once.
-- `toLowerCase` changes ASCII letters. Numbers that may be no integer are a type of their own
-- (`Number`). An age that JavaScript computes as NaN is `nan`. A truncation ratio is a fraction of
-- natural numbers, and its printed percentage is exact where JavaScript rounds a product of floating
-- point numbers. `array.sort` is an insertion sort; where the comparison is not an order, as for
-- evidence whose times cannot be read, another engine may choose another order. Every loop runs over
-- a list and every function is structurally recursive, so there is no fuel, except in `decimal`,
-- whose fuel is one more than the number that it prints.
--
-- Not modelled: input and output, that is the HTTP server, GitHub, DefectDojo, DigitalOcean, Jira
-- and Slack clients, the database; prompts and rendering; the workflows, infrastructure and scripts.
-- Nor are the store's other records, the tickets, retrieval, the difference of bills of materials and
-- the command line tool part of the model.
mod Prelude
mod Samples
pub mod ReleaseGate
pub mod Monitoring
pub mod Ownership
pub mod Ingest
pub mod Store
pub mod Service
pub mod Dast
