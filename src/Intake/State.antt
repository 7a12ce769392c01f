-- ===== src/Intake/State.antt =====
-- The rows that a review request is known by, and the two inserts that webhook.controller.ts and
-- repo-poller.ts share: the review under its unique key, and its place in the queue.
use ai_pr_reviewer.Prelude.{
  ℕ, Bool, true, false, ◌&&◌, Option, none, some, List, [], ◌∷◌, ◌++◌, ◌==◌, if◌then◌else◌,
  find_first,
}
use ai_pr_reviewer.Store.{
  JobStatus, queued, skipped, Results, absent, object, Text, text_eq, Job, Store, update_job,
}
use ai_pr_reviewer.Quota.Usage.{DenialReason, QuotaCheckResult, allowed, denied}
use ai_pr_reviewer.Quota.Reserve.{Outcome, reserved, throws, reserve_review}

-- `enum EventType`, the two that open a review.
pub data EventType : Type 0 where
  pull_request push : EventType

abbrev pub event_eq : EventType → EventType → Bool
event_eq pull_request pull_request = true
event_eq push push = true
event_eq _ _ = false

-- `@@unique([repositoryId, eventType, referenceId, commitSha])`
pub record Identity : Type 0 where
  pub repository_id : ℕ
  pub event_type : EventType
  pub reference_id : Text
  pub commit_sha : Option Text

-- PostgreSQL takes two rows without a commit for distinct.
abbrev pub same_sha : Option Text → Option Text → Bool
same_sha (some a) (some b) = text_eq a b
same_sha _ _ = false

abbrev pub same_identity : Identity → Identity → Bool
same_identity i j =
    i.repository_id == j.repository_id
    && (event_eq i.event_type j.event_type
        && (text_eq i.reference_id j.reference_id && same_sha i.commit_sha j.commit_sha))

-- The columns of `model AnalysisJob` that `Job` leaves out.
pub record ReviewRow : Type 0 where
  pub id : ℕ
  pub identity : Identity

-- A job of the queue, with the fields of its data that the row does not determine.
pub record ReviewRequest : Type 0 where
  pub job_id : ℕ
  pub user_id : ℕ
  pub installation_id : Option ℕ
  pub github_installation_id : Option ℕ
  pub is_private : Bool
  pub identity : Identity
  pub base_sha : Option Text

-- The database, `analysisQueue`, and the quota notices asked of GitHub. `github_installations` pairs
-- the column `githubInstallationId` with the identifier of its row.
pub record Intake : Type 0 where
  pub store : Store
  pub reviews : List ReviewRow
  pub queue : List ReviewRequest
  pub notices : List Identity
  pub github_installations : List (ℕ × ℕ)

-- What the database, the clock and the queue give one run.
pub record Environment : Type 0 where
  pub fresh_job : ℕ
  pub fresh_repository : ℕ
  pub fresh_ledger : ℕ
  pub month : ℕ
  pub now : ℕ
  pub queue_accepts : Bool

abbrev pub identifies : Identity → ReviewRow → Bool
identifies i row = same_identity i row.identity

abbrev pub find_review : Identity → Intake → Option ReviewRow
find_review i t = find_first (identifies i) t.reviews

abbrev pub new_job : ℕ → ℕ → JobStatus → Results → ℕ → Job
new_job id repository status results now = record {
  id = id;
  repository_id = repository;
  status = status;
  results = results;
  updated_at = now;
  queue_job_id = none;
  queue_version = 1;
  quota_ledger_id = none;
  quota_is_private = none;
  quota_refunded_at = none;
}

-- `prisma.analysisJob.create`: `none` where the unique key rejects the row.
unfoldable pub create_job : Environment → Identity → JobStatus → Results → Intake → Option Intake
create_job env i status results t = elim (find_review i t) [
  | some row ↦ none
  | none ↦ some (record t {
    store = record t.store {
      jobs = new_job env.fresh_job i.repository_id status results env.now ∷ t.store.jobs;
    };
    reviews = record { id = env.fresh_job; identity = i } ∷ t.reviews;
  })
]

-- `reason` and `details` of a review that is not started.
abbrev pub skip_results : Text → Text → Results
skip_results reason details = object (("reason", reason) ∷ ("details", details) ∷ [])

-- A review that is charged goes to the queue; `add` may fail.
pub data QueueOutcome : Type 0 where
  is_duplicate : QueueOutcome
  is_denied : Intake → QuotaCheckResult → QueueOutcome
  is_queued : Intake → QueueOutcome
  fails : Intake → QueueOutcome

abbrev pub deny_job : ℕ → Results → Job → Job
deny_job now results j = record j { status = skipped; results = results; updated_at = now }

unfoldable pub queue_reserved :
    (DenialReason → Results) → Environment → ReviewRequest → Intake → Outcome → QueueOutcome
queue_reserved texts env request t (throws e) = fails t
queue_reserved texts env request t (reserved s (denied reason usage)) =
    is_denied (record t { store = update_job request.job_id (deny_job env.now (texts reason)) s })
      (denied reason usage)
queue_reserved texts env request t (reserved s (allowed usage)) =
    let charged = record t { store = s } in
    if env.queue_accepts
    then is_queued (record charged { queue = t.queue ++ request ∷ [] })
    else fails charged

-- The insert, the reservation and the enqueue, in that order.
unfoldable pub insert_and_queue :
    (DenialReason → Results) → Environment → ReviewRequest → Intake → QueueOutcome
insert_and_queue texts env request t = elim (create_job env request.identity queued absent t) [
  | none ↦ is_duplicate
  | some t' ↦ queue_reserved texts env request t' (
      reserve_review request.installation_id request.is_private (some request.user_id) env.fresh_job
        env.fresh_ledger env.month env.now t'.store)
]
