-- ===== src/Review/Lifecycle.antt =====
-- A finished review stays as it is: workers/job-state.ts under any interleaving of its writers.
use ai_pr_reviewer.Prelude.{
  ℕ, zero, suc, ◌≡◌, refl, ◌≢◌, inl, inr, true, false, Option, some, List, [], ◌∷◌, arith, ◌==◌,
  ==_iff, Bool-cases, Option-cases, get_elem?, All, find_unique-update_ne, find_unique-key,
}
use ai_pr_reviewer.Store.{JobStatus, Job, Store, job_id, find_job, update_job}
use ai_pr_reviewer.Review.Status.{ReviewPhase, is_terminal_status, phase_status, terminal-ne-open}
use ai_pr_reviewer.Review.Job.{
  Fields, may_advance, write_state, claim_refund, refund_charge, refund_review_quota, persist_state,
  advance_read, advance_write,
}

-- An advance between its read and its write: the job, the status that was read, and the phase.
pub record Advance : Type 0 where
  pub job : ℕ
  pub observed : JobStatus
  pub phase : ReviewPhase

-- What is known of one row of the jobs table.
abbrev pub Holds : ℕ → Store → Job → Type 0
Holds j s r = find_job j s ≡ some r

find_job-update_ne :
    (k j : ℕ) (f : Job → Job) (s : Store)
    → k ≢ j
    → ((r : Job) → (f r).id ≡ r.id)
    → find_job j (update_job k f s) ≡ find_job j s
find_job-update_ne k j f s ne h = find_unique-update_ne job_id k j f s.jobs ne h

claim_refund-find_ne :
    (k ledger now j : ℕ) (s : Store)
    → k ≢ j
    → find_job j (claim_refund k ledger now s).0 ≡ find_job j s
unfolding claim_refund
claim_refund-find_ne k ledger now j s ne = ground (
  arith,
  find_job-update_ne k j (λ (r : Job). record r { quota_refunded_at = some now; updated_at = now })
      s ne (λ r. refl),
)

refund-find_ne :
    (job : Job) (now j : ℕ) (s : Store)
    → job.id ≢ j
    → find_job j (refund_review_quota job now s) ≡ find_job j s
unfolding refund_review_quota refund_charge
refund-find_ne job now j s ne = grind (arith, claim_refund-find_ne)

persist-find_ne :
    (k j : ℕ) (status : JobStatus) (metadata : Option Fields) (expected : Option (JobStatus × ℕ))
    (now : ℕ) (s : Store)
    → k ≢ j
    → find_job j (persist_state k status metadata expected now s).0 ≡ find_job j s
unfolding persist_state
persist-find_ne k j status metadata expected now s ne = elim (Option-cases (find_job k s)) [
  | inl e ↦ rw (e, persist_state) refl
  | inr (row, e) ↦ ground (
    arith,
    find_unique-key job_id k s.jobs e,
    refund-find_ne row now j (update_job k (write_state status metadata now) s),
    find_job-update_ne k j (write_state status metadata now) s ne (λ r. refl),
  )
]

-- A transaction on a finished review does nothing.
persist-terminal :
    (k : ℕ) (status : JobStatus) (metadata : Option Fields) (expected : Option (JobStatus × ℕ))
    (now : ℕ) (s : Store) (r : Job)
    → Holds k s r
    → is_terminal_status r.status ≡ true
    → persist_state k status metadata expected now s ≡ (s, false)
unfolding persist_state
persist-terminal k status metadata expected now s r h t = ground arith

persist-frozen :
    (k j : ℕ) (status : JobStatus) (metadata : Option Fields) (expected : Option (JobStatus × ℕ))
    (now : ℕ) (s : Store) (r : Job)
    → Holds j s r
    → is_terminal_status r.status ≡ true
    → Holds j (persist_state k status metadata expected now s).0 r
persist-frozen k j status metadata expected now s r h t = elim (Bool-cases (k == j)) [
  | inl same ↦
      let e = (==_iff k j).0 same in
      rw (persist-terminal k status metadata expected now s r (rw e h) t) h
  | inr other ↦ rw (persist-find_ne k j status metadata expected now s (ground arith)) h
]

may_advance-open :
    (phase : ReviewPhase) (status observed : JobStatus)
    → may_advance phase status ≡ some observed
    → is_terminal_status observed ≡ false
unfolding is_terminal_status
may_advance-open phase status observed e = ground arith

advance_read-open :
    (k : ℕ) (phase : ReviewPhase) (s : Store) (observed : JobStatus)
    → advance_read k phase s ≡ some observed
    → is_terminal_status observed ≡ false
unfolding advance_read
advance_read-open k phase s observed e = elim (Option-cases (find_job k s)) [
  | inl miss ↦ ground arith
  | inr (row, hit) ↦ may_advance-open phase row.status observed (ground arith)
]

advance_write-frozen :
    (k j : ℕ) (observed : JobStatus) (phase : ReviewPhase) (now : ℕ) (s : Store) (r : Job)
    → Holds j s r
    → is_terminal_status r.status ≡ true
    → is_terminal_status observed ≡ false
    → Holds j (advance_write k observed phase now s).0 r
unfolding advance_write
advance_write-frozen k j observed phase now s r h t o = elim (Bool-cases (k == j)) [
  | inl same ↦ let e = (==_iff k j).0 same in ground (arith, terminal-ne-open r.status observed t o)
  | inr other ↦ ground (
    arith,
    find_job-update_ne k j (λ (r : Job). record r { status = phase_status phase; updated_at = now })
        s (ground arith) (λ r. refl),
  )
]

-- The database beside the advances that have read and not yet written.
pub record System : Type 0 where
  pub store : Store
  pub pending : List Advance

-- One write or read of a worker, of the API or of the recovery sweep. An advance that has read may
-- write at any later time.
pub data Step (u v : System) : Type 0 where
  reads :
      (k : ℕ) (phase : ReviewPhase) (observed : JobStatus)
      → advance_read k phase u.store ≡ some observed
      → v
        ≡ record u { pending = record { job = k; observed = observed; phase = phase } ∷ u.pending }
      → Step u v
  writes :
      (i now : ℕ) (a : Advance)
      → get_elem? u.pending i ≡ some a
      → v ≡ record u { store = (advance_write a.job a.observed a.phase now u.store).0 }
      → Step u v
  persists :
      (k now : ℕ) (status : JobStatus) (metadata : Option Fields)
      (expected : Option (JobStatus × ℕ))
      → v ≡ record u { store = (persist_state k status metadata expected now u.store).0 }
      → Step u v

pub data Reach (u : System) : System → Type 0 where
  here : Reach u u
  next : {v w : System} → Reach u v → Step v w → Reach u w

-- Every pending advance saw a review that had not finished.
abbrev pub AllOpen : List Advance → Type 0
AllOpen = All (λ a. is_terminal_status a.observed ≡ false)

AllOpen-get :
    (pending : List Advance) (i : ℕ) (a : Advance)
    → AllOpen pending
    → get_elem? pending i ≡ some a
    → is_terminal_status a.observed ≡ false
AllOpen-get [] i a h e = cc
AllOpen-get (x ∷ rest) zero a h e = ground arith
AllOpen-get (x ∷ rest) (suc i) a h e = AllOpen-get rest i a h.1 e

Step-AllOpen : {u v : System} → Step u v → AllOpen u.pending → AllOpen v.pending
Step-AllOpen {u} (reads k phase observed e same) h =
    rw same (advance_read-open k phase u.store observed e, h)
Step-AllOpen (writes i now a e same) h = rw same h
Step-AllOpen (persists k now status metadata expected same) h = rw same h

Step-frozen :
    {u v : System} (j : ℕ) (r : Job)
    → Step u v
    → AllOpen u.pending
    → is_terminal_status r.status ≡ true
    → Holds j u.store r
    → Holds j v.store r
Step-frozen j r (reads k phase observed e same) o t h = rw same h
Step-frozen {u} j r (writes i now a e same) o t h = rw same (
    advance_write-frozen a.job j a.observed a.phase now u.store r h t
      (AllOpen-get u.pending i a o e))
Step-frozen {u} j r (persists k now status metadata expected same) o t h =
    rw same (persist-frozen k j status metadata expected now u.store r h t)

Reach-AllOpen : {u v : System} → Reach u v → AllOpen u.pending → AllOpen v.pending
Reach-AllOpen here h = h
Reach-AllOpen (next r st) h = Step-AllOpen st (Reach-AllOpen r h)

-- Once a review has finished, no interleaving of phase advances and state transactions changes its
-- row: its status, its results and its refund mark all stay, also where an advance that read the row
-- before the finish writes after it. Each advance that is pending at the start read an open status.
pub finished_is_final :
    {u v : System} (j : ℕ) (r : Job)
    → Reach u v
    → AllOpen u.pending
    → find_job j u.store ≡ some r
    → is_terminal_status r.status ≡ true
    → find_job j v.store ≡ some r
finished_is_final j r here o h t = h
finished_is_final j r (next reach st) o h t =
    Step-frozen j r st (Reach-AllOpen reach o) t (finished_is_final j r reach o h t)
