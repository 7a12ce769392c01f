-- ===== src/Lib.antt =====
-- Verification of the core of ai-pr-reviewer, the backend that reviews pull requests: a job per review,
-- a usage quota per account, the subscription events behind it, the intake of events, the context and the
-- settings of a review, its findings with their risk report, the delivery of the comments to GitHub,
-- and the retention of old rows.
--
-- The parts and their files (paths from the repository's root; the backend is apps/backend/src):
--   Store      the rows of apps/backend/prisma/schema.prisma that several parts share. A table is a list,
--              a row is found by its key, and a transaction that locks its row is one function.
--   Review     workers/job-state.ts and services/review-quota.ts. Status has the lists of statuses, Job
--              the operations (persistState is `persist_state`, advanceReview is `advance_read` and
--              `advance_write`, because it reads and writes without a lock), Lifecycle the steps of many
--              writers on one store. Recovery is workers/review-recovery.ts (`recoverReviewsOnce`), with its
--              laws in Sweep, and Disconnect its two direct writes; Written and Spread say
--              what a terminal or failure write leaves.
--   Quota      services/quota.service.ts and services/entitlement.service.ts: Entitlement, Usage and
--              Reserve have the operations; Charge, Balance, Entries and Receipts what they do to the
--              totals and to the receipts on the jobs; Preflight compares checkQuota with a reservation.
--   Delivery   services/comment-delivery.service.ts, services/comment-delivery-report.ts and
--              `classifyCommentError` of services/github.service.ts. Row has the conditional writes to
--              one row, Outcome the classification and the receipt, Race the interleavings of workers,
--              where every database write is a step and a worker can die between two of them. Potential and
--              Once count the comments, Links and Attempts the claims; Final is about settled rows,
--              Classify about HTTP errors and their receipts.
--   Findings   services/ai/finding-taxonomy.ts (Taxonomy, Separators; laws in Blanks and
--              Spelling), services/ai/finding-dedup.service.ts (Dedup; laws in Survivors and Coverage) and `assessRisk` of services/security/risk-engine.ts
--              (Risk; its laws are in RiskTotals and RiskGrowth); services/diff-lines.ts is DiffLines, with
--              its laws in Anchors.
--   Billing    the events of services/billing.service.ts: Sync has `syncSubscription`,
--              `syncCancellation` and `syncEntitlements`, Order what late deliveries do, Mirror the plan
--              that installations show.
--   Intake     `handleGitHubEvent` of controllers/webhook.controller.ts and workers/repo-poller.ts. State
--              has the rows and the insert, charge and enqueue that both share, Payload what is read from
--              a delivery, Webhook and Poller the two handlers, Installation those of the two installation
--              events of the controller, and Silent what a deletion leaves. Once, Delivery and System are about
--              repeated deliveries and polls, in runs of both.
--   Context    services/import-graph.service.ts (Paths, Resolve; laws in Normal) and `selectContextFiles` of
--              services/context-retrieval.service.ts: Walk is `walkBfs`, Reach `countChangedReach`, Rank
--              `rankCandidates`, Graph and Select the rest. Reached, Within, Turns, Turn and Known lead to
--              Shortest, which is about the walk; RankLaws and RankKept are about the ranking, HopBound
--              and Selected lead to Selection, which is about the whole.
--   Retention  workers/job-retention.ts and workers/context-retention.ts: Sweep has the batch loop and the
--              two sweeps; Kept and Ends are about the loop, Deleted about the sweeps.
--   Settings   services/config.service.ts (Config, with its laws in Ceilings and Defaults) and
--              services/rules.service.ts (Rules validates, with the laws in Valid; Checks evaluates, with the
--              laws in Counts and Evaluated). Value and Strings have the JavaScript values and string
--              functions that they read.
--
-- The parts meet in the store: a review that ends without a result gives its charge back
-- (`refund_review_quota`), and a reservation writes its receipt on the job (`link_charge`);
-- a billing event changes the subscription from which a reservation reads its limit (`tier_of`), and
-- the webhook and the poller insert a review before they reserve (`insert_and_queue`). The changed
-- lines of a diff are where rules are matched (`evaluate_rules`), and the configuration bounds the
-- selection of context (`max_hops`, `max_files`).
--
-- Conventions: identifiers, times in milliseconds and texts that are only compared are numbers; a month
-- is a number; `new Date()`, `randomUUID()` and the identifier of a new row are arguments. Most loops
-- are recursions on a list. The walk, the count of changed files and the batch loop run on fuel, as many
-- turns as there are changed files and ends of edges, or one more than there are rows, which is enough;
-- a result is `none` where the fuel is used up. The database's uniqueness constraints are hypotheses
-- (`HasUniqueKeys`, an unused identifier). Of GitHub the delivery steps assume that an answer which
-- reports a rate limit created no comment (`IsHonest`). The word filter and the lower case that the merge
-- of findings uses are arguments of it.
--
-- Not modelled: the lexer of imports, the fetching of files, the historical, feedback, behavioural and
-- test-gap services, the security probes and the pipeline of the worker. The recognition of imports,
-- barrels and tests, RE2, YAML, `toUpperCase` and the answers of GitHub are arguments, and the ceilings of
-- the context are natural numbers. Express, Prisma, BullMQ, sockets, encryption, the AI providers, the text of comments and the web client are left out as calls
-- of libraries or presentation.
pub mod Prelude
pub mod Store
pub mod Review
pub mod Quota
pub mod Delivery
pub mod Billing
pub mod Context
pub mod Findings
pub mod Intake
pub mod Retention
pub mod Settings
