-- ===== src/Review/Written.antt =====
-- What a terminal or failure write leaves in an open review, refund included.
use ai_pr_reviewer.Prelude.{
  ℕ, ◌≡◌, refl, sym, subst, inl, inr, arith, Bool, true, false, ◌&&◌, Option, none, some,
  if◌then◌else◌, Bool-cases, Option-cases, find_unique-update_self, find_unique-key,
}
use ai_pr_reviewer.Store.{
  JobStatus, Results, Job, Store, job_id, find_job, update_job, update_ledger,
}
use ai_pr_reviewer.Review.Spread.{IsLaidOver, merge_results-IsLaidOver}
use ai_pr_reviewer.Review.Status.{is_terminal_status}
use ai_pr_reviewer.Review.Job.{
  decrement, same_number, is_none, Fields, merge_results, is_unexpected, is_refunding, write_state,
  claim_refund, refund_charge, refund_review_quota, persist_state,
}

-- The row has this status and these results.
abbrev pub HasWritten : ℕ → JobStatus → Results → Store → Type 0
HasWritten k status results s =
    (row : Job) × (find_job k s ≡ some row) × (row.status ≡ status) × (row.results ≡ results)

claim_refund-HasWritten :
    (k ledger now : ℕ) (status : JobStatus) (results : Results) (s : Store)
    → HasWritten k status results s
    → HasWritten k status results (claim_refund k ledger now s).0
unfolding claim_refund
claim_refund-HasWritten k ledger now status results s (row, hit, st, res) =
    let mark : Job → Job = λ r. record r { quota_refunded_at = some now; updated_at = now } in
    elim (Bool-cases
      (same_number row.quota_ledger_id (some ledger) && is_none row.quota_refunded_at)) [
        | inl claimed ↦
            rw (hit, claimed, claim_refund)
              (
                mark row,
                find_unique-update_self job_id k mark s.jobs hit
                    (find_unique-key job_id k s.jobs hit),
                st,
                res,
              )
        | inr free ↦ rw (hit, free, claim_refund) (row, hit, st, res)
      ]

refund_charge-HasWritten :
    (k charged : ℕ) (q : Bool) (now : ℕ) (status : JobStatus) (results : Results) (s : Store)
    → HasWritten k status results s
    → HasWritten k status results (refund_charge k charged q now s)
unfolding refund_charge
refund_charge-HasWritten k charged q now status results s h =
    let t : Store = (claim_refund k charged now s).0 in
    let w : HasWritten k status results t =
      claim_refund-HasWritten k charged now status results s h in
    elim (claim_refund k charged now s).1
      as (λ b.
        HasWritten k status results (if b then update_ledger charged (decrement q) t else t)) [
          | true ↦ w
          | false ↦ w
        ]

refund-HasWritten :
    (job : Job) (now : ℕ) (status : JobStatus) (results : Results) (s : Store)
    → HasWritten job.id status results s
    → HasWritten job.id status results (refund_review_quota job now s)
unfolding refund_review_quota refund_charge
refund-HasWritten job now status results s h = elim (Option-cases job.quota_ledger_id) [
  | inl none_held ↦ rw (none_held, refund_review_quota) h
  | inr (charged, held) ↦ elim (Option-cases job.quota_is_private) [
    | inl no_kind ↦ rw (held, no_kind, refund_review_quota) h
    | inr (q, kind) ↦ elim (Option-cases job.quota_refunded_at) [
      | inr (at, done) ↦ rw (held, kind, done, refund_review_quota) h
      | inl not_yet ↦
          rw (held, kind, not_yet, refund_review_quota)
            (refund_charge-HasWritten job.id charged q now status results s h)
    ]
  ]
]

-- The write of an open review that is as expected, with the merge of the code.
pub persist_state_lem :
    (k : ℕ) (status : JobStatus) (metadata : Option Fields) (expected : Option (JobStatus × ℕ))
    (now : ℕ) (s : Store) (row : Job)
    → find_job k s ≡ some row
    → is_terminal_status row.status ≡ false
    → is_unexpected expected row ≡ false
    → ((persist_state k status metadata expected now s).1 ≡ true)
      × HasWritten k status
          (merge_results metadata row.results)
          (persist_state k status metadata expected now s).0
unfolding persist_state
persist_state_lem k status metadata expected now s row hit on as_read =
    let write = write_state status metadata now in
    let t : Store = update_job k write s in
    let named = find_unique-key job_id k s.jobs hit in
    let w : HasWritten k status (merge_results metadata row.results) t =
      (write row, find_unique-update_self job_id k write s.jobs hit named, refl, refl) in
    rw (hit, on, as_read, persist_state)
      (
        refl,
        elim (is_refunding status)
            as (λ b.
              HasWritten k status (merge_results metadata row.results)
                (if b then refund_review_quota row now t else t)) [
                  | true ↦
                      subst
                        (λ i.
                          HasWritten i status (merge_results metadata row.results)
                            (refund_review_quota row now t))
                        named
                        (refund-HasWritten row now status (merge_results metadata row.results) t (
                          subst (λ i. HasWritten i status (merge_results metadata row.results) t)
                            (sym named) w))
                  | false ↦ w
                ],
      )

-- The caller expects nothing, or the status and the time of update that the row has.
abbrev pub IsExpected : Option (JobStatus × ℕ) → Job → Type 0
IsExpected none row = Unit
IsExpected (some (status, at)) row = (row.status ≡ status) × (row.updated_at ≡ at)

own_state-expected : (row : Job) → is_unexpected (some (row.status, row.updated_at)) row ≡ false
own_state-expected row = ground arith

expected-read :
    (expected : Option (JobStatus × ℕ)) (row : Job)
    → IsExpected expected row
    → is_unexpected expected row ≡ false
expected-read none row h = refl
expected-read (some (status, at)) row (same, unmoved) =
    subst (λ st. is_unexpected (some (st, at)) row ≡ false) same
      (subst (λ n. is_unexpected (some (row.status, n)) row ≡ false) unmoved
        (own_state-expected row))

-- A terminal or failure write to a review that has not finished, and that is as the caller expects,
-- takes effect: the row has the new status, and each field of its results is the one that the write
-- gives, or the old one where the write gives none, also after the refund.
pub open_review_is_written :
    (k : ℕ) (status : JobStatus) (metadata : Option Fields) (expected : Option (JobStatus × ℕ))
    (now : ℕ) (s : Store) (row : Job)
    → find_job k s ≡ some row
    → is_terminal_status row.status ≡ false
    → IsExpected expected row
    → ((persist_state k status metadata expected now s).1 ≡ true)
      × ((new : Job) × (find_job k (persist_state k status metadata expected now s).0 ≡ some new)
          × (new.status ≡ status)
          × IsLaidOver metadata row.results new.results)
open_review_is_written k status metadata expected now s row hit on as_read =
    let (done, (new, at, st, res)) =
      persist_state_lem k status metadata expected now s row hit on
        (expected-read expected row as_read) in
    (
      done,
      (
        new,
        at,
        st,
        subst (IsLaidOver metadata row.results) (sym res)
            (merge_results-IsLaidOver metadata row.results),
      ),
    )
