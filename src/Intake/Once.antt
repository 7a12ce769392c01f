-- ===== src/Intake/Once.antt =====
-- A commit is sent to review at most once, however often its webhook is delivered or the poller meets it.
use ai_pr_reviewer.Prelude.{
  ℕ, ◌+◌, ◌≤◌, ◌≡◌, refl, sym, ap, subst, inl, inr, Bool, true, false, Option, none, some, List, [],
  ◌∷◌, ◌++◌, arith, Bool-cases, Option-cases, find_first, total, total-append,
}
use ai_pr_reviewer.Store.{queued, absent, JobStatus, Results, Text, text_eq-eq}
use ai_pr_reviewer.Quota.Usage.{DenialReason, allowed, denied}
use ai_pr_reviewer.Quota.Reserve.{Outcome, reserved, throws}
use ai_pr_reviewer.Intake.State.{
  EventType, pull_request, push, event_eq, Identity, same_identity, same_sha, identifies, ReviewRow,
  ReviewRequest, Intake, Environment, find_review, create_job, QueueOutcome, is_duplicate,
  is_denied, is_queued, fails, queue_reserved, insert_and_queue,
}

event_eq-eq : (a b : EventType) → event_eq a b ≡ true → a ≡ b
event_eq-eq pull_request pull_request h = refl
event_eq-eq push push h = refl
event_eq-eq pull_request push h = cc
event_eq-eq push pull_request h = cc

same_sha-eq : (a b : Option Text) → same_sha a b ≡ true → a ≡ b
same_sha-eq (some a) (some b) h = ap some (text_eq-eq a b h)
same_sha-eq none b h = cc
same_sha-eq (some a) none h = cc

same_identity-eq : (i j : Identity) → same_identity i j ≡ true → i ≡ j
same_identity-eq i j h = ground (
  arith,
  event_eq-eq i.event_type j.event_type,
  text_eq-eq i.reference_id j.reference_id,
  same_sha-eq i.commit_sha j.commit_sha,
)

abbrev pub mark : Bool → ℕ
mark true = 1
mark false = 0

-- How many rows, and how many jobs of the queue, a commit has.
unfoldable pub reviews_for : Identity → List ReviewRow → ℕ
reviews_for i = total (λ row. mark (same_identity i row.identity))

unfoldable pub requests_for : Identity → List ReviewRequest → ℕ
requests_for i = total (λ request. mark (same_identity i request.identity))

none-reviews_for :
    (i : Identity) (rows : List ReviewRow)
    → find_first (identifies i) rows ≡ none
    → reviews_for i rows ≡ 0
unfolding reviews_for
none-reviews_for i [] h = refl
none-reviews_for i (row ∷ rows) h = ground (arith, none-reviews_for i rows)

pub record IsOnce (rows : List ReviewRow) (queue : List ReviewRequest) : Type 0 where
  pub queued_once : (i : Identity) → requests_for i queue ≤ reviews_for i rows
  pub unique : (i : Identity) → reviews_for i rows ≤ 1

-- A row of this commit is stored that no job of the queue stands for.
record HasRoom (j : Identity) (rows : List ReviewRow) (queue : List ReviewRequest) : Type 0 where
  room : (i : Identity) → requests_for i queue + mark (same_identity i j) ≤ reviews_for i rows
  unique : (i : Identity) → reviews_for i rows ≤ 1

HasRoom-IsOnce :
    (j : Identity) (rows : List ReviewRow) (queue : List ReviewRequest)
    → HasRoom j rows queue
    → IsOnce rows queue
HasRoom-IsOnce j rows queue h = record {
  queued_once = λ i. let a = h.room i in omega arith;
  unique = h.unique;
}

HasRoom-request :
    (rows : List ReviewRow) (queue : List ReviewRequest) (request : ReviewRequest)
    → HasRoom request.identity rows queue
    → IsOnce rows (queue ++ request ∷ [])
unfolding requests_for
HasRoom-request rows queue request h = record {
  queued_once = λ i.
      let a = h.room i in
      let b =
        total-append (λ (r : ReviewRequest). mark (same_identity i r.identity)) queue
          (request ∷ []) in
      omega arith;
  unique = h.unique;
}

one_more :
    (env : Environment) (j : Identity) (rows : List ReviewRow)
    → find_first (identifies j) rows ≡ none
    → (i : Identity) → reviews_for i rows ≤ 1
    → reviews_for i (record { id = env.fresh_job; identity = j } ∷ rows) ≤ 1
unfolding reviews_for
one_more env j rows h i u = elim (Bool-cases (same_identity i j)) [
  | inl same ↦
      let e = same_identity-eq i j same in
      let z =
        none-reviews_for i rows (subst (λ k. find_first (identifies k) rows ≡ none) (sym e) h) in
      rw same (omega arith)
  | inr other ↦ rw other (omega arith)
]

abbrev row_of : Environment → Identity → ReviewRow
row_of env j = record { id = env.fresh_job; identity = j }

row-HasRoom :
    (env : Environment) (j : Identity) (rows : List ReviewRow) (queue : List ReviewRequest)
    → find_first (identifies j) rows ≡ none
    → IsOnce rows queue
    → HasRoom j (row_of env j ∷ rows) queue
unfolding reviews_for
row-HasRoom env j rows queue new h = record {
  room = λ i. let a = h.queued_once i in omega arith;
  unique = λ i. one_more env j rows new i (h.unique i);
}

-- What an insert that the unique key takes leaves.
create_job-some :
    (env : Environment) (j : Identity) (status : JobStatus) (results : Results) (t t' : Intake)
    → create_job env j status results t ≡ some t'
    → (find_review j t ≡ none) × (t'.reviews ≡ row_of env j ∷ t.reviews) × (t'.queue ≡ t.queue)
unfolding create_job
create_job-some env j status results t t' run = elim (Option-cases (find_review j t)) [
  | inr (row, known) ↦ absurd (cc (rw (known, create_job) at run))
  | inl new ↦ let e = rw (new, create_job) at run in (new, cc e, cc e)
]

create_job-HasRoom :
    (env : Environment) (j : Identity) (status : JobStatus) (results : Results) (t t' : Intake)
    → create_job env j status results t ≡ some t'
    → IsOnce t.reviews t.queue
    → HasRoom j t'.reviews t'.queue
create_job-HasRoom env j status results t t' run h =
    let (new, rows, queue) = create_job-some env j status results t t' run in
    rw (rows, queue) (row-HasRoom env j t.reviews t.queue new h)

abbrev pub IsOnceIn : Intake → Type 0
IsOnceIn t = IsOnce t.reviews t.queue

-- What a run of the insert leaves; a duplicate leaves what was there.
abbrev pub intake_after : Intake → QueueOutcome → Intake
intake_after t is_duplicate = t
intake_after t (is_denied t' result) = t'
intake_after t (is_queued t') = t'
intake_after t (fails t') = t'

queue_reserved-IsOnce :
    (texts : DenialReason → Results) (env : Environment) (request : ReviewRequest) (t u : Intake)
    (o : Outcome)
    → HasRoom request.identity t.reviews t.queue
    → IsOnceIn (intake_after u (queue_reserved texts env request t o))
unfolding queue_reserved
queue_reserved-IsOnce texts env request t u (throws e) h =
    HasRoom-IsOnce request.identity t.reviews t.queue h
queue_reserved-IsOnce texts env request t u (reserved s (denied reason usage)) h =
    HasRoom-IsOnce request.identity t.reviews t.queue h
queue_reserved-IsOnce texts env request t u (reserved s (allowed usage)) h =
    elim (Bool-cases env.queue_accepts) [
      | inl up ↦ rw (up, queue_reserved) (HasRoom-request t.reviews t.queue request h)
      | inr down ↦ rw (down, queue_reserved) (HasRoom-IsOnce request.identity t.reviews t.queue h)
    ]

pub insert-IsOnce :
    (texts : DenialReason → Results) (env : Environment) (request : ReviewRequest) (t : Intake)
    → IsOnceIn t
    → IsOnceIn (intake_after t (insert_and_queue texts env request t))
unfolding insert_and_queue
insert-IsOnce texts env request t h =
    elim (Option-cases (create_job env request.identity queued absent t)) [
      | inl taken ↦ rw (taken, insert_and_queue) h
      | inr (t', made) ↦
          rw (made, insert_and_queue)
            (queue_reserved-IsOnce texts env request t' t _
              (create_job-HasRoom env request.identity queued absent t t' made h))
    ]

pub create_job-IsOnce :
    (env : Environment) (j : Identity) (status : JobStatus) (results : Results) (t t' : Intake)
    → create_job env j status results t ≡ some t'
    → IsOnceIn t
    → IsOnceIn t'
create_job-IsOnce env j status results t t' run h =
    HasRoom-IsOnce j t'.reviews t'.queue (create_job-HasRoom env j status results t t' run h)
