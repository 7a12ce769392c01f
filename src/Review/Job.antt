-- ===== src/Review/Job.antt =====
-- The operations of workers/job-state.ts on an analysis job, and `refundReviewQuota` of
-- services/review-quota.ts. A transaction that holds the row lock is one function on the store;
-- `advanceReview`, which takes no lock, is two: its read and its conditional write.
use ai_pr_reviewer.Prelude.{
  ℕ, zero, suc, ◌-◌, Bool, true, false, not, ◌&&◌, ◌||◌, Option, none, some, List, [], ◌∷◌, ltb,
  leb, ◌==◌, if◌then◌else◌,
}
use Prim.Native.String.{String}
use text.Mathlib.Text.{◌==◌ as str_eq}
use ai_pr_reviewer.Store.{
  JobStatus, completed, retrying, Text, Results, absent, other, object, Job, UsageLedger, Store,
  find_job, update_job, update_ledger,
}
use ai_pr_reviewer.Review.Status.{
  ReviewPhase, status_eq, is_terminal_status, is_superseded_status, is_review_phase, phase_rank,
  phase_status,
}

-- What `SocketService.emitStatus` sends.
pub record StatusEvent : Type 0 where
  pub user_id : ℕ
  pub job_id : ℕ
  pub message : Text
  pub status : JobStatus

abbrev pub Fields : Type 0
Fields = List (String × Text)

-- Object spread: a field that is already there is replaced in place.
unfoldable pub put_field : String → Text → Fields → Fields
put_field k v [] = (k, v) ∷ []
put_field k v ((j, w) ∷ m) = if str_eq j k then (j, v) ∷ m else (j, w) ∷ put_field k v m

unfoldable pub spread : Fields → Fields → Fields
spread previous [] = previous
spread previous ((k, v) ∷ m) = spread (put_field k v previous) m

unfoldable pub get_field : String → Fields → Option Text
get_field k [] = none
get_field k ((j, v) ∷ m) = if str_eq j k then some v else get_field k m

-- `row.results` if it is an object, and otherwise an empty one.
abbrev pub previous_results : Results → Fields
previous_results absent = []
previous_results (other v) = []
previous_results (object fields) = fields

abbrev pub merge_results : Option Fields → Results → Results
merge_results none results = results
merge_results (some metadata) results = object (spread (previous_results results) metadata)

abbrev pub is_none {ℓ} : {A : Type ℓ} → Option A → Bool
is_none none = true
is_none (some a) = false

abbrev pub same_number : Option ℕ → Option ℕ → Bool
same_number none none = true
same_number (some a) (some b) = a == b
same_number _ _ = false

-- `{ [field]: { gt: 0 } }`, then `decrement: 1`.
abbrev pub decrement : Bool → UsageLedger → UsageLedger
decrement true l =
    if ltb 0 l.private_reviews_count
    then record l { private_reviews_count = l.private_reviews_count - 1 }
    else l
decrement false l =
    if ltb 0 l.public_reviews_count
    then record l { public_reviews_count = l.public_reviews_count - 1 }
    else l

-- The conditional write of `quotaRefundedAt`; the number of rows that it changed is the Boolean.
unfoldable pub claim_refund : ℕ → ℕ → ℕ → Store → Store × Bool
claim_refund k ledger now s = elim (find_job k s) [
  | none ↦ (s, false)
  | some row ↦
      if same_number row.quota_ledger_id (some ledger) && is_none row.quota_refunded_at
      then (update_job k (λ r. record r { quota_refunded_at = some now; updated_at = now }) s, true)
      else (s, false)
]

unfoldable pub refund_charge : ℕ → ℕ → Bool → ℕ → Store → Store
unfolding claim_refund
refund_charge k ledger is_private now s =
    let (s', claimed) = claim_refund k ledger now s in
    if claimed then update_ledger ledger (decrement is_private) s' else s'

-- The caller passes the row as it was read, before its own write.
unfoldable pub refund_review_quota : Job → ℕ → Store → Store
unfolding refund_charge
refund_review_quota job now s = elim job.quota_ledger_id [
  | none ↦ s
  | some ledger ↦ elim job.quota_is_private [
    | none ↦ s
    | some is_private ↦ elim job.quota_refunded_at [
      | some at ↦ s
      | none ↦ refund_charge job.id ledger is_private now s
    ]
  ]
]

-- `expected && (row.status !== expected.status || row.updatedAt differs)`
abbrev pub is_unexpected : Option (JobStatus × ℕ) → Job → Bool
is_unexpected none row = false
is_unexpected (some (status, at)) row = not (status_eq row.status status && (row.updated_at == at))

-- `status !== 'COMPLETED' && status !== 'RETRYING'`
abbrev pub is_refunding : JobStatus → Bool
is_refunding status = not (status_eq status completed) && not (status_eq status retrying)

abbrev pub write_state : JobStatus → Option Fields → ℕ → Job → Job
write_state status metadata now r = record r {
  status = status;
  results = merge_results metadata r.results;
  updated_at = now;
}

unfoldable pub persist_state :
    ℕ → JobStatus → Option Fields → Option (JobStatus × ℕ) → ℕ → Store → Store × Bool
persist_state k status metadata expected now s = elim (find_job k s) [
  | none ↦ (s, false)
  | some row ↦
      if is_terminal_status row.status || is_unexpected expected row
      then (s, false)
      else let s' = update_job k (write_state status metadata now) s in
        (if is_refunding status then refund_review_quota row now s' else s', true)
]

abbrev pub emit_if : Bool → StatusEvent → List StatusEvent
emit_if true e = e ∷ []
emit_if false e = []

unfoldable pub mark_review_terminal :
    ℕ
    → ℕ
    → JobStatus
    → Text
    → Option Fields
    → Option (JobStatus × ℕ)
    → ℕ
    → Store
    → Store × Bool × List StatusEvent
mark_review_terminal k user status message results expected now s =
    let (s', changed) = persist_state k status results expected now s in
    (
      s',
      changed,
      emit_if changed (record { user_id = user; job_id = k; message = message; status = status }),
    )

-- `message.slice(0, n)`
abbrev pub slice_to : ℕ → Text → Text
slice_to zero m = []
slice_to (suc n) [] = []
slice_to (suc n) (c ∷ m) = c ∷ slice_to n m

abbrev pub error_length : ℕ
error_length = 500

-- The status is RETRYING or FAILED.
unfoldable pub persist_review_failure :
    ℕ → ℕ → JobStatus → Text → ℕ → Store → Store × List StatusEvent
persist_review_failure k user status message now s =
    let (s', changed) =
      persist_state k status (some (("error", slice_to error_length message) ∷ [])) none now s in
    (
      s',
      emit_if changed (record { user_id = user; job_id = k; message = message; status = status }),
    )

-- The status that the read saw, if `advanceReview` goes on to write.
abbrev pub may_advance : ReviewPhase → JobStatus → Option JobStatus
may_advance phase status = elim (is_review_phase status) [
  | some current ↦ if leb (phase_rank phase) (phase_rank current) then none else some status
  | none ↦ if is_terminal_status status then none else some status
]

unfoldable pub advance_read : ℕ → ReviewPhase → Store → Option JobStatus
advance_read k phase s = elim (find_job k s) [
  | none ↦ none
  | some row ↦ may_advance phase row.status
]

-- `updateMany({ where: { id, status: current.status }, data: { status: phase } })`
unfoldable pub advance_write : ℕ → JobStatus → ReviewPhase → ℕ → Store → Store × Bool
advance_write k observed phase now s = elim (find_job k s) [
  | none ↦ (s, false)
  | some row ↦
      if status_eq row.status observed
      then (update_job k (λ r. record r { status = phase_status phase; updated_at = now }) s, true)
      else (s, false)
]

-- With nobody writing between the two.
unfoldable pub advance_review : ℕ → ℕ → ReviewPhase → Text → ℕ → Store → Store × List StatusEvent
unfolding advance_read advance_write
advance_review k user phase message now s = elim (advance_read k phase s) [
  | none ↦ (s, [])
  | some observed ↦
      let (s', changed) = advance_write k observed phase now s in
      (
        s',
        emit_if changed
            (record { user_id = user; job_id = k; message = message; status = phase_status phase }),
      )
]

-- `isSupersededStatus` of what `readStatus` finds, `undefined` where there is no row.
unfoldable pub was_superseded : ℕ → Store → Bool
was_superseded k s = elim (find_job k s) [
  | none ↦ false
  | some row ↦ is_superseded_status row.status
]
