-- ===== src/Review/Disconnect.antt =====
-- The two direct writes of workers/review-recovery.ts: `settleFailedQueueJob` after a failed attempt, and
-- `cancelDisconnectedReviews` for a repository that was disconnected.
use ai_pr_reviewer.Prelude.{
  ℕ, Bool, ◌&&◌, Option, none, some, List, [], ◌∷◌, ◌++◌, ◌==◌, if◌then◌else◌, take, keep,
  find_unique,
}
use ai_pr_reviewer.Store.{failed, cancelled, Text, Job, Repository, Store, find_job}
use ai_pr_reviewer.Review.Status.{is_in_progress_status}
use ai_pr_reviewer.Review.Job.{StatusEvent, mark_review_terminal}
use ai_pr_reviewer.Review.Recovery.{
  QueueJob, QueueState, queue_failed, sort_jobs, batch_size, is_mismatched,
}

abbrev pub repository_row : ℕ → List Repository → Option Repository
repository_row k rows = find_unique (λ (r : Repository). r.id) k rows

-- The read row is the expected one.
unfoldable pub settle_row : Text × Text → QueueJob → ℕ → Store → Job → Store × List StatusEvent
settle_row texts q now s row = elim (repository_row row.repository_id s.repositories) [
  | none ↦ (s, [])
  | some r ↦
      if is_mismatched row r q
      then (s, [])
      else let (s', changed, events) =
          mark_review_terminal row.id r.user_id failed texts.1 (some (("reason", texts.0) ∷ []))
            (some (row.status, row.updated_at)) now s in
        (s', events)
]

abbrev pub job_named : Option ℕ → Store → Option Job
job_named none s = none
job_named (some k) s = find_job k s

unfoldable pub settle_failed_queue_job :
    Text × Text → Option (QueueJob × QueueState) → ℕ → Store → Store × List StatusEvent
settle_failed_queue_job texts (some (q, queue_failed)) now s = elim (job_named q.job_id s) [
  | none ↦ (s, [])
  | some row ↦ settle_row texts q now s row
]
settle_failed_queue_job texts _ now s = (s, [])

unfoldable pub cancel_rows :
    Text × Text → ℕ → ℕ → List Job → Store × List StatusEvent → Store × List StatusEvent
cancel_rows texts user now [] t = t
cancel_rows texts user now (row ∷ rows) (s, events) =
    let (s', changed, more) =
      mark_review_terminal row.id user cancelled texts.1 (some (("reason", texts.0) ∷ [])) none now
        s in
    cancel_rows texts user now rows (s', events ++ more)

abbrev pub is_open_review : ℕ → Job → Bool
is_open_review repository j = (j.repository_id == repository) && is_in_progress_status j.status

-- `texts` gives the reason and the message.
unfoldable pub cancel_disconnected_reviews : Text × Text → ℕ → ℕ → Store → Store × List StatusEvent
cancel_disconnected_reviews texts repository now s =
    elim (repository_row repository s.repositories) [
      | none ↦ (s, [])
      | some r ↦
          if r.is_active
          then (s, [])
          else cancel_rows texts r.user_id now
              (take batch_size (sort_jobs (keep (is_open_review repository) s.jobs))) (s, [])
    ]
