-- ===== src/Review/Recovery.antt =====
-- workers/review-recovery.ts: what the periodic sweep does with the reviews that are in progress. The
-- queue is an argument: its answers, `none` where a read fails.
use ai_pr_reviewer.Prelude.{take}
use ai_pr_reviewer.Prelude.{
  ℕ, ◌+◌, ◌-◌, max, Bool, true, false, not, ◌&&◌, ◌||◌, Option, none, some, List, [], ◌∷◌, ◌++◌,
  ltb, leb, ◌==◌, if◌then◌else◌, length, keep, find_unique,
}
use ai_pr_reviewer.Store.{
  JobStatus, failed, cancelled, timeout, Text, Job, Repository, Store, find_job, update_job,
}
use ai_pr_reviewer.Review.Status.{status_eq, is_in_progress_status}
use ai_pr_reviewer.Review.Job.{StatusEvent, is_none, same_number, mark_review_terminal}

pub data QueueState : Type 0 where
  queue_failed queue_completed queue_unknown queue_active queue_waiting : QueueState

-- A job of the queue, with the fields of its `data`.
pub record QueueJob : Type 0 where
  pub id : ℕ
  pub job_id : Option ℕ
  pub repository_id : Option ℕ
  pub user_id : Option ℕ
  pub processed_on : Option ℕ

-- `legacy` is the snapshot of old queue jobs and whether it is complete.
pub record Queue : Type 0 where
  pub get_job : ℕ → Option (Option QueueJob)
  pub legacy : Option (List QueueJob × Bool)
  pub get_state : QueueJob → Option QueueState

pub data StopReason : Type 0 where
  disconnected attempts_exhausted ended_without_completion abandoned heartbeat_expired : StopReason

pub data Look : Type 0 where
  found : Option QueueJob → Look
  ambiguous queue_unavailable : Look

pub data Decision : Type 0 where
  leave queue_down : Decision
  stop : JobStatus → StopReason → Decision
  adopt : ℕ → Decision

-- `Math.max(REVIEW_TIMEOUT_MS, 60_000) + 120_000`
abbrev pub grace_ms : ℕ → ℕ
grace_ms review_timeout_ms = max review_timeout_ms 60000 + 120000

abbrev pub batch_size : ℕ
batch_size = 100

abbrev pub or_id : Option ℕ → ℕ → ℕ
or_id none id = id
or_id (some k) id = k

-- Two jobs of one review, or none in a listing that is cut short, prove nothing.
abbrev pub only_candidate : Bool → List QueueJob → Look
only_candidate complete [] = if complete then found none else ambiguous
only_candidate complete (q ∷ []) = found (some q)
only_candidate complete (q ∷ r ∷ rest) = ambiguous

unfoldable pub legacy_look : Job → Option (List QueueJob × Bool) → Look
legacy_look row none = queue_unavailable
legacy_look row (some (jobs, complete)) =
    only_candidate complete (keep (λ q. same_number q.job_id (some row.id)) jobs)

abbrev pub direct_look : Queue → Job → Option (Option QueueJob) → Look
direct_look queue row none = queue_unavailable
direct_look queue row (some (some q)) = found (some q)
direct_look queue row (some none) =
    if is_none row.queue_job_id && not (row.queue_version == 1)
    then legacy_look row queue.legacy
    else found none

unfoldable pub look_up : Queue → Job → Look
look_up queue row = direct_look queue row (queue.get_job (or_id row.queue_job_id row.id))

abbrev pub is_mismatched : Job → Repository → QueueJob → Bool
is_mismatched row r q =
    not (same_number q.job_id (some row.id))
    || (not (same_number q.repository_id (some row.repository_id))
        || not (same_number q.user_id (some r.user_id)))

unfoldable pub is_overdue : ℕ → ℕ → ℕ → Bool
is_overdue timeout_ms now at = ltb (grace_ms timeout_ms) (now - at)

-- `!queued?.processedOn`: the time 0 is none.
abbrev pub lost_heartbeat : ℕ → ℕ → Option QueueJob → Bool
lost_heartbeat timeout_ms now none = true
lost_heartbeat timeout_ms now (some q) = elim q.processed_on [
  | none ↦ true
  | some at ↦ (at == 0) || is_overdue timeout_ms now at
]

abbrev pub adopted : Job → Option QueueJob → Decision
adopted row none = leave
adopted row (some q) = if is_none row.queue_job_id then adopt q.id else leave

-- The chain of conditions on the state of the queue job.
unfoldable pub settle_state : ℕ → ℕ → Job → Option QueueJob → QueueState → Decision
settle_state timeout_ms now row q queue_failed = stop failed attempts_exhausted
settle_state timeout_ms now row q queue_completed = stop failed ended_without_completion
settle_state timeout_ms now row q queue_unknown =
    if is_overdue timeout_ms now row.updated_at then stop failed abandoned else adopted row q
settle_state timeout_ms now row q queue_active =
    if is_overdue timeout_ms now row.updated_at
    then (if lost_heartbeat timeout_ms now q then stop timeout heartbeat_expired else leave)
    else adopted row q
settle_state timeout_ms now row q queue_waiting = adopted row q

abbrev pub state_decision : ℕ → ℕ → Job → QueueJob → Option QueueState → Decision
state_decision timeout_ms now row q none = queue_down
state_decision timeout_ms now row q (some state) = settle_state timeout_ms now row (some q) state

unfoldable pub look_decision : ℕ → ℕ → Queue → Job → Repository → Look → Decision
look_decision timeout_ms now queue row r ambiguous = leave
look_decision timeout_ms now queue row r queue_unavailable = queue_down
look_decision timeout_ms now queue row r (found none) =
    settle_state timeout_ms now row none queue_unknown
look_decision timeout_ms now queue row r (found (some q)) =
    if is_mismatched row r q then leave else state_decision timeout_ms now row q (queue.get_state q)

-- `down` is `queueUnavailable`: an earlier read of this sweep failed.
unfoldable pub decide : ℕ → ℕ → Queue → Bool → Job → Repository → Decision
decide timeout_ms now queue down row r =
    if not r.is_active
    then stop cancelled disconnected
    else if down
    then leave
    else look_decision timeout_ms now queue row r (look_up queue row)

pub record Swept : Type 0 where
  pub store : Store
  pub changed : ℕ
  pub down : Bool
  pub events : List StatusEvent

abbrev pub count_if : Bool → ℕ
count_if true = 1
count_if false = 0

-- The conditional write of an adopted queue identifier.
unfoldable pub adopt_queue_job : Job → ℕ → ℕ → Store → Store
adopt_queue_job row queue_id now s = elim (find_job row.id s) [
  | none ↦ s
  | some current ↦
      if status_eq current.status row.status && (current.updated_at == row.updated_at)
      then update_job row.id (λ r. record r { queue_job_id = some queue_id; updated_at = now }) s
      else s
]

-- `texts` gives the reason and the message of a stop; `row` is what the sweep read.
unfoldable pub apply_decision :
    (StopReason → Text × Text) → ℕ → Job → Repository → Decision → Swept → Swept
apply_decision texts now row r leave t = t
apply_decision texts now row r queue_down t = record t { down = true }
apply_decision texts now row r (adopt queue_id) t = record t {
  store = adopt_queue_job row queue_id now t.store;
}
apply_decision texts now row r (stop status why) t =
    let (reason, message) = texts why in
    let (s', changed, events) =
      mark_review_terminal row.id r.user_id status message
        (some (("reason", reason) ∷ ("error", message) ∷ [])) (some (row.status, row.updated_at))
        now t.store in
    record t { store = s'; changed = t.changed + count_if changed; events = t.events ++ events }

unfoldable pub recover_row :
    (StopReason → Text × Text) → ℕ → ℕ → Queue → Job → Repository → Swept → Swept
recover_row texts timeout_ms now queue row r t =
    apply_decision texts now row r (decide timeout_ms now queue t.down row r) t

unfoldable pub recover_rows :
    (StopReason → Text × Text) → ℕ → ℕ → Queue → List (Job × Repository) → Swept → Swept
recover_rows texts timeout_ms now queue [] t = t
recover_rows texts timeout_ms now queue ((row, r) ∷ rows) t =
    recover_rows texts timeout_ms now queue rows (recover_row texts timeout_ms now queue row r t)

-- `orderBy: { id: 'asc' }`
unfoldable pub insert_job : Job → List Job → List Job
insert_job j [] = j ∷ []
insert_job j (k ∷ ks) = let rest = insert_job j ks in if leb j.id k.id then j ∷ k ∷ ks else k ∷ rest

unfoldable pub sort_jobs : List Job → List Job
sort_jobs [] = []
sort_jobs (j ∷ js) = insert_job j (sort_jobs js)

abbrev pub is_after : Option ℕ → ℕ → Bool
is_after none id = true
is_after (some cursor) id = ltb cursor id

-- Each row with its repository, which a foreign key guarantees.
abbrev pub with_repository : List Repository → List Job → List (Job × Repository)
with_repository rs [] = []
with_repository rs (j ∷ js) = elim (find_unique (λ (r : Repository). r.id) j.repository_id rs) [
  | none ↦ with_repository rs js
  | some r ↦ (j, r) ∷ with_repository rs js
]

unfoldable pub sweep_batch : Option ℕ → Store → List (Job × Repository)
sweep_batch cursor s = with_repository s.repositories (
    take batch_size
      (sort_jobs (keep (λ j. is_in_progress_status j.status && is_after cursor j.id) s.jobs)))

abbrev pub last_id : List (Job × Repository) → Option ℕ
last_id [] = none
last_id ((j, r) ∷ []) = some j.id
last_id (x ∷ y ∷ rows) = last_id (y ∷ rows)

pub record SweepResult : Type 0 where
  pub checked_count : ℕ
  pub swept : Swept
  pub next_cursor : Option ℕ

unfoldable pub recover_reviews_once :
    (StopReason → Text × Text) → ℕ → ℕ → Queue → Option ℕ → Store → SweepResult
recover_reviews_once texts timeout_ms now queue cursor s =
    let rows = sweep_batch cursor s in
    record {
      checked_count = length rows;
      swept =
          recover_rows texts timeout_ms now queue rows
            (record { store = s; changed = 0; down = false; events = [] });
      next_cursor = if length rows == batch_size then last_id rows else none;
    }
