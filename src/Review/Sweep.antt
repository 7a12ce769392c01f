-- ===== src/Review/Sweep.antt =====
-- The sweep stops a review only on evidence, leaves one that moved on, and always stops one whose
-- repository was disconnected.
use ai_pr_reviewer.Prelude.{
  ℕ, ◌+◌, ◌<◌, max, ◌≡◌, refl, ap, ◌⊎◌, inl, inr, Bool, true, false, Option, none, some, [], ◌∷◌,
  arith, Bool-cases, Option-cases,
}
use ai_pr_reviewer.Store.{JobStatus, cancelled, Text, Job, Repository, Store, find_job}
use ai_pr_reviewer.Review.Status.{is_terminal_status}
use ai_pr_reviewer.Review.Job.{
  same_number, Fields, is_unexpected, persist_state, mark_review_terminal,
}
use ai_pr_reviewer.Review.Written.{persist_state_lem}
use ai_pr_reviewer.Review.Recovery.{
  QueueState, queue_failed, queue_completed, queue_unknown, queue_active, queue_waiting, QueueJob,
  Queue, StopReason, disconnected, Look, found, ambiguous, queue_unavailable, Decision, leave,
  queue_down, stop, adopt, is_mismatched, look_up, is_overdue, settle_state, look_decision, decide,
  Swept, adopt_queue_job, apply_decision, count_if, recover_row,
}

-- The job of the queue names this review, its repository and the owner.
abbrev pub IsJobOf : Job → Repository → QueueJob → Type 0
IsJobOf row r q =
    (q.job_id ≡ some row.id)
    × (q.repository_id ≡ some row.repository_id)
    × (q.user_id ≡ some r.user_id)

-- The queue says that the job of this review has failed or completed.
abbrev pub HasEnded : Queue → Job → Repository → Type 0
HasEnded queue row r =
    (q : QueueJob) × (look_up queue row ≡ found (some q))
    × IsJobOf row r q
    × ((queue.get_state q ≡ some queue_failed) ⊎ (queue.get_state q ≡ some queue_completed))

same_number-some : (a : Option ℕ) (n : ℕ) → same_number a (some n) ≡ true → a ≡ some n
same_number-some none n h = cc
same_number-some (some m) n h = ap some (ground arith)

-- More than the longer of the review timeout and a minute, and two minutes, have passed since.
abbrev pub IsLate : ℕ → ℕ → ℕ → Type 0
IsLate timeout_ms now at = at + (max timeout_ms 60000 + 120000) < now

overdue-IsLate :
    (timeout_ms now at : ℕ) → is_overdue timeout_ms now at ≡ true → IsLate timeout_ms now at
unfolding is_overdue
overdue-IsLate timeout_ms now at h = ground arith

matched-IsJobOf :
    (row : Job) (r : Repository) (q : QueueJob) → is_mismatched row r q ≡ false → IsJobOf row r q
matched-IsJobOf row r q h = (
  same_number-some q.job_id row.id (ground arith),
  same_number-some q.repository_id row.repository_id (ground arith),
  same_number-some q.user_id r.user_id (ground arith),
)

settle-evidence :
    (timeout_ms now : ℕ) (row : Job) (q : Option QueueJob) (state : QueueState) (status : JobStatus)
    (why : StopReason)
    → settle_state timeout_ms now row q state ≡ stop status why
    → (is_overdue timeout_ms now row.updated_at ≡ true)
      ⊎ (state ≡ queue_failed)
      ⊎ (state ≡ queue_completed)
unfolding settle_state
settle-evidence timeout_ms now row q queue_failed status why h = inr (inl refl)
settle-evidence timeout_ms now row q queue_completed status why h = inr (inr refl)
settle-evidence timeout_ms now row q queue_unknown status why h = ground arith
settle-evidence timeout_ms now row q queue_active status why h = ground arith
settle-evidence timeout_ms now row q queue_waiting status why h = ground arith

-- A write that expects what the row no longer is writes nothing.
persist-unexpected :
    (k : ℕ) (status : JobStatus) (metadata : Option Fields) (expected : JobStatus × ℕ) (now : ℕ)
    (s : Store) (current : Job)
    → find_job k s ≡ some current
    → is_unexpected (some expected) current ≡ true
    → persist_state k status metadata (some expected) now s ≡ (s, false)
unfolding persist_state
persist-unexpected k status metadata expected now s current hit moved = ground arith

adopt-unexpected :
    (row : Job) (queue_id now : ℕ) (s : Store) (current : Job)
    → find_job row.id s ≡ some current
    → is_unexpected (some (row.status, row.updated_at)) current ≡ true
    → adopt_queue_job row queue_id now s ≡ s
unfolding adopt_queue_job
adopt-unexpected row queue_id now s current hit moved = ground arith

apply-moved :
    (texts : StopReason → Text × Text) (now : ℕ) (row : Job) (r : Repository) (d : Decision)
    (t : Swept) (current : Job)
    → find_job row.id t.store ≡ some current
    → is_unexpected (some (row.status, row.updated_at)) current ≡ true
    → ((apply_decision texts now row r d t).store ≡ t.store)
      × ((apply_decision texts now row r d t).changed ≡ t.changed)
unfolding apply_decision mark_review_terminal
apply-moved texts now row r leave t current hit moved = (refl, refl)
apply-moved texts now row r queue_down t current hit moved = (refl, refl)
apply-moved texts now row r (adopt queue_id) t current hit moved =
    (adopt-unexpected row queue_id now t.store current hit moved, refl)
apply-moved texts now row r (stop status why) t current hit moved =
    rw
      (persist-unexpected row.id status
        (some (("reason", (texts why).0) ∷ ("error", (texts why).1) ∷ []))
        (row.status, row.updated_at) now t.store current hit moved)
      (refl, omega arith)

-- A review whose status or time of update is no longer what the sweep read keeps its row, and so does
-- every other review, whatever the queue answers.
pub moved_review_is_left :
    (texts : StopReason → Text × Text) (timeout_ms now : ℕ) (queue : Queue) (row : Job)
    (r : Repository) (t : Swept) (current : Job)
    → find_job row.id t.store ≡ some current
    → is_unexpected (some (row.status, row.updated_at)) current ≡ true
    → ((recover_row texts timeout_ms now queue row r t).store ≡ t.store)
      × ((recover_row texts timeout_ms now queue row r t).changed ≡ t.changed)
unfolding recover_row
moved_review_is_left texts timeout_ms now queue row r t current hit moved =
    apply-moved texts now row r (decide timeout_ms now queue t.down row r) t current hit moved

look-evidence :
    (timeout_ms now : ℕ) (queue : Queue) (row : Job) (r : Repository) (l : Look)
    (status : JobStatus) (why : StopReason)
    → look_up queue row ≡ l
    → look_decision timeout_ms now queue row r l ≡ stop status why
    → (is_overdue timeout_ms now row.updated_at ≡ true) ⊎ HasEnded queue row r
unfolding look_decision
look-evidence timeout_ms now queue row r ambiguous status why e h = cc
look-evidence timeout_ms now queue row r queue_unavailable status why e h = cc
look-evidence timeout_ms now queue row r (found none) status why e h =
    elim (settle-evidence timeout_ms now row none queue_unknown status why h) [
      | inl overdue ↦ inl overdue
      | inr (inl f) ↦ cc
      | inr (inr c) ↦ cc
    ]
look-evidence timeout_ms now queue row r (found (some q)) status why e h =
    elim (Bool-cases (is_mismatched row r q)) [
      | inl strange ↦ ground arith
      | inr own ↦ elim (Option-cases (queue.get_state q)) [
        | inl unread ↦ ground arith
        | inr (state, read) ↦
            elim (settle-evidence timeout_ms now row (some q) state status why (ground arith)) [
              | inl overdue ↦ inl overdue
              | inr (inl f) ↦ inr (q, e, matched-IsJobOf row r q own, inl (ground arith))
              | inr (inr c) ↦ inr (q, e, matched-IsJobOf row r q own, inr (ground arith))
            ]
      ]
    ]

-- The sweep decides to stop a review only where its repository was disconnected, where it has not
-- been updated for longer than the grace time, or where the queue has a job that names
-- this review, its repository and the owner, and says that it failed or completed.
pub stop_needs_evidence :
    (timeout_ms now : ℕ) (queue : Queue) (down : Bool) (row : Job) (r : Repository)
    (status : JobStatus) (why : StopReason)
    → decide timeout_ms now queue down row r ≡ stop status why
    → (r.is_active ≡ false) ⊎ IsLate timeout_ms now row.updated_at ⊎ HasEnded queue row r
unfolding decide
stop_needs_evidence timeout_ms now queue down row r status why h = elim (Bool-cases r.is_active) [
  | inr gone ↦ inl gone
  | inl there ↦ elim (Bool-cases down) [
    | inl off ↦ ground arith
    | inr on ↦
        elim (look-evidence timeout_ms now queue row r (look_up queue row) status why refl
          (ground arith)) [
            | inl overdue ↦ inr (inl (overdue-IsLate timeout_ms now row.updated_at overdue))
            | inr ended ↦ inr (inr ended)
          ]
  ]
]

unchanged-expected : (row : Job) → is_unexpected (some (row.status, row.updated_at)) row ≡ false
unchanged-expected row = ground arith

-- A review in progress whose repository was disconnected is cancelled by the sweep, also where the
-- queue cannot be read, provided that its row is as the sweep read it.
pub disconnected_review_is_cancelled :
    (texts : StopReason → Text × Text) (timeout_ms now : ℕ) (queue : Queue) (row : Job)
    (r : Repository) (t : Swept)
    → find_job row.id t.store ≡ some row
    → is_terminal_status row.status ≡ false
    → r.is_active ≡ false
    → let u = recover_row texts timeout_ms now queue row r t in
      ((j : Job) × (find_job row.id u.store ≡ some j) × (j.status ≡ cancelled))
      × (u.changed ≡ t.changed + 1)
unfolding recover_row decide apply_decision mark_review_terminal
disconnected_review_is_cancelled texts timeout_ms now queue row r t hit on gone =
    let (done, (j, at, st, res)) =
      persist_state_lem row.id cancelled
        (some (("reason", (texts disconnected).0) ∷ ("error", (texts disconnected).1) ∷ []))
        (some (row.status, row.updated_at)) now t.store row hit on (unchanged-expected row) in
    rw (gone, recover_row) ((j, at, st), (ap (λ b. t.changed + count_if b) done))
