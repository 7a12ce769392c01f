-- ===== src/Quota/Balance.antt =====
-- Every count of a usage ledger is the number of charged reviews that were not refunded: the receipts
-- of services/quota.service.ts and services/review-quota.ts, under the transactions of
-- workers/job-state.ts.
use ai_pr_reviewer.Prelude.{
  ℕ, ◌+◌, ◌-◌, ◌≡◌, refl, sym, subst, ◌∙◌, inl, inr, Bool, true, false, not, ◌&&◌, Option, none,
  some, arith, ◌==◌, if◌then◌else◌, Option-cases, total, find_unique-update_self, total-update,
  find_unique-key, find_unique-update,
}
use mathlib.Core.Option
use ai_pr_reviewer.Store.{
  JobStatus, Job, UsageLedger, Store, job_id, ledger_id, find_job, find_ledger, update_job,
  update_ledger,
}
use ai_pr_reviewer.Review.Status.{ReviewPhase, phase_status}
use ai_pr_reviewer.Review.Job.{
  Fields, same_number, is_none, decrement, claim_refund, refund_charge, refund_review_quota,
  write_state, persist_state, advance_write,
}
use ai_pr_reviewer.Quota.Usage.{count_for}

abbrev pub same_kind : Bool → Option Bool → Bool
same_kind p none = false
same_kind true (some q) = q
same_kind false (some q) = not q

-- The job holds a charge of this kind on this ledger.
abbrev pub holds_charge : ℕ → Bool → Job → Bool
holds_charge ledger p j =
    same_number j.quota_ledger_id (some ledger)
    && (same_kind p j.quota_is_private && is_none j.quota_refunded_at)

abbrev pub charge_weight : ℕ → Bool → Job → ℕ
charge_weight ledger p j = if holds_charge ledger p j then 1 else 0

unfoldable pub open_charges : ℕ → Bool → Store → ℕ
open_charges ledger p s = total (charge_weight ledger p) s.jobs

abbrev pub count_of : Bool → Option UsageLedger → ℕ
count_of p none = 0
count_of p (some l) = count_for p l

unfoldable pub ledger_count : ℕ → Bool → Store → ℕ
ledger_count ledger p s = count_of p (find_ledger ledger s)

-- `base` is what the ledger held before reviews kept receipts.
abbrev pub IsBalanced : ℕ → Bool → ℕ → Store → Type 0
IsBalanced ledger p base s = ledger_count ledger p s ≡ base + open_charges ledger p s

decrement-id : (q : Bool) (l : UsageLedger) → (decrement q l).id ≡ l.id
decrement-id true l = ground arith
decrement-id false l = ground arith

count-decrement :
    (p q b : Bool) (o : Option UsageLedger)
    → count_of p (if b then Option.map (decrement q) o else o)
      ≡ (if b && same_kind p (some q) then count_of p o - 1 else count_of p o)
count-decrement p q false o = refl
count-decrement true true true o = ground arith
count-decrement true false true o = ground arith
count-decrement false true true o = ground arith
count-decrement false false true o = ground arith

charge_weight-held :
    (ledger : ℕ) (p : Bool) (charged : ℕ) (q : Bool) (row : Job)
    → row.quota_ledger_id ≡ some charged
    → row.quota_is_private ≡ some q
    → row.quota_refunded_at ≡ none
    → charge_weight ledger p row ≡ (if (charged == ledger) && same_kind p (some q) then 1 else 0)
charge_weight-held ledger p charged q row l m n = ground arith

charge_weight-refunded :
    (ledger : ℕ) (p : Bool) (now : ℕ) (row : Job)
    → charge_weight ledger p (record row { quota_refunded_at = some now; updated_at = now }) ≡ 0
charge_weight-refunded ledger p now row = ground arith

-- The arithmetic of a refund: the count and the open charges fall together.
balance_drop :
    (b : Bool) (base opened_s : ℕ) {count count_t count_s opened opened_t w w' : ℕ}
    → count ≡ (if b then count_t - 1 else count_t)
    → count_t ≡ count_s
    → opened ≡ opened_t
    → opened_t + w ≡ opened_s + w'
    → w ≡ (if b then 1 else 0)
    → w' ≡ 0
    → count_s ≡ base + opened_s
    → count ≡ base + opened
balance_drop true base o' c ct o f w w' e = omega arith
balance_drop false base o' c ct o f w w' e = omega arith

module _ (ledger : ℕ) (p : Bool) where
  -- A write to a job that keeps its receipt keeps the number of open charges.
  pub open_charges-update :
      (k : ℕ) (f : Job → Job) (s : Store) {r : Job}
      → find_job k s ≡ some r
      → open_charges ledger p (update_job k f s) + charge_weight ledger p r
        ≡ open_charges ledger p s + charge_weight ledger p (f r)
  unfolding open_charges
  open_charges-update k f s e = total-update job_id (charge_weight ledger p) k f s.jobs e

  pub ledger_count-update_job :
      (k : ℕ) (f : Job → Job) (s : Store)
      → ledger_count ledger p (update_job k f s) ≡ ledger_count ledger p s
  unfolding ledger_count
  ledger_count-update_job k f s = refl

  -- The decrement of a refund, seen from one ledger and kind.
  ledger_count-decrement :
      (k : ℕ) (q : Bool) (s : Store)
      → ledger_count ledger p (update_ledger k (decrement q) s) ≡ (
          if (k == ledger) && same_kind p (some q)
          then ledger_count ledger p s - 1
          else ledger_count ledger p s)
  unfolding ledger_count
  ledger_count-decrement k q s =
      rw (find_unique-update ledger_id k ledger (decrement q) s.ledgers (decrement-id q))
        (count-decrement p q (k == ledger) (find_ledger ledger s))

  pub open_charges-update_ledger :
      (k : ℕ) (f : UsageLedger → UsageLedger) (s : Store)
      → open_charges ledger p (update_ledger k f s) ≡ open_charges ledger p s
  unfolding open_charges
  open_charges-update_ledger k f s = refl

  refund_charge-IsBalanced :
      (k charged now base : ℕ) (q : Bool) (s : Store) (row : Job)
      → find_job k s ≡ some row
      → row.quota_ledger_id ≡ some charged
      → row.quota_is_private ≡ some q
      → row.quota_refunded_at ≡ none
      → IsBalanced ledger p base s
      → IsBalanced ledger p base (refund_charge k charged q now s)
  unfolding refund_charge
  refund_charge-IsBalanced k charged now base q s row e l m n b =
      let mark : Job → Job = λ r. record r { quota_refunded_at = some now; updated_at = now } in
      let t : Store = update_job k mark s in
      let claimed : claim_refund k charged now s ≡ (t, true) =
        unfold claim_refund in ground arith in
      let freed : open_charges ledger p t + charge_weight ledger p row
          ≡ open_charges ledger p s + charge_weight ledger p (mark row) =
        open_charges-update k mark s e in
      let same : ledger_count ledger p t ≡ ledger_count ledger p s =
        ledger_count-update_job k mark s in
      rw claimed (
        balance_drop ((charged == ledger) && same_kind p (some q)) base (open_charges ledger p s)
          (ledger_count-decrement charged q t) same
          (open_charges-update_ledger charged (decrement q) t) freed
          (charge_weight-held ledger p charged q row l m n)
          (charge_weight-refunded ledger p now row) b)

  refund-IsBalanced :
      (job : Job) (now base : ℕ) (s : Store) (row : Job)
      → find_job job.id s ≡ some row
      → row.quota_ledger_id ≡ job.quota_ledger_id
      → row.quota_is_private ≡ job.quota_is_private
      → row.quota_refunded_at ≡ job.quota_refunded_at
      → IsBalanced ledger p base s
      → IsBalanced ledger p base (refund_review_quota job now s)
  unfolding refund_review_quota
  refund-IsBalanced job now base s row e l m n b = elim (Option-cases job.quota_ledger_id) [
    | inl none_held ↦ rw (none_held, refund_review_quota) b
    | inr (charged, held) ↦ elim (Option-cases job.quota_is_private) [
      | inl no_kind ↦ rw (held, no_kind, refund_review_quota) b
      | inr (q, kind) ↦ elim (Option-cases job.quota_refunded_at) [
        | inl not_yet ↦
            rw (held, kind, not_yet, refund_review_quota)
              (refund_charge-IsBalanced job.id charged now base q s row e (l ∙ held) (m ∙ kind)
                (n ∙ not_yet) b)
        | inr (at, done) ↦ rw (held, kind, done, refund_review_quota) b
      ]
    ]
  ]

  -- A write that leaves the receipt of a job leaves the balance.
  pub update-IsBalanced :
      (k base : ℕ) (f : Job → Job) (s : Store) (row : Job)
      → find_job k s ≡ some row
      → charge_weight ledger p (f row) ≡ charge_weight ledger p row
      → IsBalanced ledger p base s
      → IsBalanced ledger p base (update_job k f s)
  update-IsBalanced k base f s row e same b =
      omega (arith, open_charges-update k f s e, ledger_count-update_job k f s)

  -- For every ledger and kind, a terminal or retry write with its refund keeps the balance: a count
  -- that was `base` plus the number of jobs with an unrefunded charge on the ledger still is.
  pub persist-IsBalanced :
      (k : ℕ) (status : JobStatus) (metadata : Option Fields) (expected : Option (JobStatus × ℕ))
      (now base : ℕ) (s : Store)
      → IsBalanced ledger p base s
      → IsBalanced ledger p base (persist_state k status metadata expected now s).0
  unfolding persist_state
  persist-IsBalanced k status metadata expected now base s b = elim (Option-cases (find_job k s)) [
    | inl miss ↦ rw (miss, persist_state) b
    | inr (row, hit) ↦
        let write = write_state status metadata now in
        let named = find_unique-key job_id k s.jobs hit in
        let found : find_job k (update_job k write s) ≡ some (write row) =
          find_unique-update_self job_id k write s.jobs hit named in
        let written = update-IsBalanced k base write s row hit refl b in
        rw (hit, persist_state)
          (ground (
            arith,
            written,
            refund-IsBalanced row now base (update_job k write s) (write row)
                (subst (λ i. find_job i (update_job k write s) ≡ some (write row)) (sym named)
                  found)
                refl refl refl written,
          ))
  ]

  pub advance-IsBalanced :
      (k : ℕ) (observed : JobStatus) (phase : ReviewPhase) (now base : ℕ) (s : Store)
      → IsBalanced ledger p base s
      → IsBalanced ledger p base (advance_write k observed phase now s).0
  unfolding advance_write
  advance-IsBalanced k observed phase now base s b = elim (Option-cases (find_job k s)) [
    | inl miss ↦ rw (miss, advance_write) b
    | inr (row, hit) ↦
        let write : Job → Job = λ r. record r { status = phase_status phase; updated_at = now } in
        rw (hit, advance_write) (ground (arith, update-IsBalanced k base write s row hit refl b))
  ]
