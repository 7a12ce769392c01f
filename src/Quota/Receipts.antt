-- ===== src/Quota/Receipts.antt =====
-- A reservation keeps every ledger balanced.
use ai_pr_reviewer.Prelude.{
  ℕ, ◌+◌, ◌≡◌, refl, sym, ap, subst, ◌∙◌, ◌≢◌, inl, inr, Bool, Option, none, some, arith,
  Option-cases, HasUniqueKeys, find_first-update,
}
use ai_pr_reviewer.Store.{
  Job, UsageLedger, Repository, Store, ledger_id, find_job, find_ledger, update_job, update_ledger,
}
use ai_pr_reviewer.Quota.Usage.{Usage, QuotaCheckResult, allowed, denied, DenialReason}
use ai_pr_reviewer.Quota.Reserve.{
  ReserveError, unavailable, reserved, throws, is_ledger_of, account_ledger, upsert_ledger,
  increment, charge_ledger, refusal, usage_of, reserve_within, link_charge, link_reservation,
  charge_job, repeat_reservation, reserve_found, reserve_review, repository_of,
}
use ai_pr_reviewer.Quota.Charge.{upsert-ledger, refusal-denies}
use ai_pr_reviewer.Quota.Balance.{IsBalanced}
use ai_pr_reviewer.Quota.Entries.{
  increment-id, increment-is_ledger_of, upsert-IsBalanced, charge-IsBalanced,
}

upsert-jobs : (fresh user month : ℕ) (s : Store) → (upsert_ledger fresh user month s).jobs ≡ s.jobs
unfolding upsert_ledger
upsert-jobs fresh user month s = ground arith

upsert-HasUniqueKeys :
    (fresh user month : ℕ) (s : Store)
    → HasUniqueKeys ledger_id s.ledgers
    → find_ledger fresh s ≡ none
    → HasUniqueKeys ledger_id (upsert_ledger fresh user month s).ledgers
unfolding upsert_ledger
upsert-HasUniqueKeys fresh user month s u new = elim (Option-cases (account_ledger user month s)) [
  | inl e ↦ rw (e, upsert_ledger) (new, u)
  | inr (l, e) ↦ rw (e, upsert_ledger) u
]

reserve_within-accepted :
    (fresh : ℕ) (q : Bool) (user github_repo month : ℕ) (s : Store)
    → let u = usage_of user month q s in
      refusal u.limit user github_repo u.current u s ≡ none
      → reserve_within fresh q user github_repo month s ≡ (
        charge_ledger user month q (upsert_ledger fresh user month s),
        allowed (record u { current = u.current + 1 }),
      )
unfolding reserve_within
reserve_within-accepted fresh q user github_repo month s go = rw (go, reserve_within)

reserve_within-refused :
    (fresh : ℕ) (q : Bool) (user github_repo month : ℕ) (s : Store) (r : DenialReason) (v : Usage)
    → let u = usage_of user month q s in
      refusal u.limit user github_repo u.current u s ≡ some (denied r v)
      → reserve_within fresh q user github_repo month s ≡ (s, denied r v)
unfolding reserve_within
reserve_within-refused fresh q user github_repo month s r v stop = rw (stop, reserve_within)

link_reservation-allowed :
    (user : ℕ) (q : Bool) (k now : ℕ) (s : Store) (u : Usage) (l : UsageLedger)
    → account_ledger user u.billing_month s ≡ some l
    → link_reservation user q k now (s, allowed u)
      ≡ reserved (update_job k (link_charge l.id q k now) s) (allowed u)
unfolding link_reservation
link_reservation-allowed user q k now s u l e = rw (e, link_reservation)

charge_job-accepted :
    (fresh : ℕ) (q : Bool) (user github_repo k month now : ℕ) (s : Store) (l : UsageLedger)
    → let u = usage_of user month q s in
      let t = upsert_ledger fresh user month s in
      refusal u.limit user github_repo u.current u s ≡ none
      → account_ledger user month t ≡ some l
      → account_ledger user month (update_ledger l.id (increment q) t) ≡ some (increment q l)
      → charge_job fresh q user github_repo k month now s
        ≡ reserved
            (update_job k (link_charge l.id q k now) (update_ledger l.id (increment q) t))
            (allowed (record u { current = u.current + 1 }))
unfolding charge_job
charge_job-accepted fresh q user github_repo k month now s l go at later =
    let u = usage_of user month q s in
    let t = upsert_ledger fresh user month s in
    let v : Usage = record u { current = u.current + 1 } in
    let charged : charge_ledger user month q t ≡ update_ledger l.id (increment q) t =
      unfold charge_ledger in rw (at, charge_ledger) in
    ap (link_reservation user q k now) (
      reserve_within-accepted fresh q user github_repo month s go
      ∙ ap (λ x. (x, allowed v)) charged)
    ∙ link_reservation-allowed user q k now (update_ledger l.id (increment q) t) v (increment q l)
        later
    ∙ ap
        (λ x.
          reserved (update_job k (link_charge x q k now) (update_ledger l.id (increment q) t))
            (allowed v))
        (increment-id q l)

charge_job-refused :
    (fresh : ℕ) (q : Bool) (user github_repo k month now : ℕ) (s : Store) (r : DenialReason)
    (v : Usage)
    → let u = usage_of user month q s in
      refusal u.limit user github_repo u.current u s ≡ some (denied r v)
      → charge_job fresh q user github_repo k month now s ≡ reserved s (denied r v)
unfolding charge_job link_reservation
charge_job-refused fresh q user github_repo k month now s r v stop =
    rw (reserve_within-refused fresh q user github_repo month s r v stop, charge_job)

reserved-store : (s t : Store) (r r' : QuotaCheckResult) → reserved s r ≡ reserved t r' → s ≡ t
reserved-store s t r r' e = cc

module _ (ledger : ℕ) (p : Bool) where
  charge_job-IsBalanced :
      (fresh : ℕ) (q : Bool) (user github_repo k month now base : ℕ) (s s' : Store)
      (result : QuotaCheckResult) (job : Job)
      → HasUniqueKeys ledger_id s.ledgers
      → find_ledger fresh s ≡ none
      → find_job k s ≡ some job
      → job.quota_ledger_id ≡ none
      → job.quota_refunded_at ≡ none
      → IsBalanced ledger p base s
      → charge_job fresh q user github_repo k month now s ≡ reserved s' result
      → IsBalanced ledger p base s'
  charge_job-IsBalanced fresh q user github_repo k month now base s s' result job uniq new e free
        unspent b run =
      let u = usage_of user month q s in
      let t = upsert_ledger fresh user month s in
      let (l, at, found, mine) = upsert-ledger fresh user month s uniq new in
      let later : account_ledger user month (update_ledger l.id (increment q) t)
          ≡ some (increment q l) =
        find_first-update ledger_id (is_ledger_of user month) (increment q) t.ledgers
          (upsert-HasUniqueKeys fresh user month s uniq new) at
          (increment-is_ledger_of user month q l ∙ mine) in
      elim (Option-cases (refusal u.limit user github_repo u.current u s)) [
        | inl go ↦
            let ran = charge_job-accepted fresh q user github_repo k month now s l go at later in
            let job_t : find_job k t ≡ some job = rw (upsert-jobs fresh user month s) e in
            subst (IsBalanced ledger p base) (reserved-store _ _ _ _ (sym ran ∙ run)) (
              charge-IsBalanced ledger p k q now base t l job found job_t free unspent
                (upsert-IsBalanced ledger p fresh user month base s new b))
        | inr (denied r v, stop) ↦
            let ran = charge_job-refused fresh q user github_repo k month now s r v stop in
            subst (IsBalanced ledger p base) (reserved-store _ _ _ _ (sym ran ∙ run)) b
        | inr (allowed v, stop) ↦
            absurd (refusal-denies u.limit user github_repo u.current u s (allowed v) v stop refl)
      ]

repeat-store :
    (ledger_key : ℕ) (q : Bool) (user : ℕ) (job : Job) (s s' : Store) (result : QuotaCheckResult)
    → repeat_reservation ledger_key q user job s ≡ reserved s' result
    → s' ≡ s
unfolding repeat_reservation
repeat-store ledger_key q user job s s' result run = ground arith

throws-ne-reserved : (e : ReserveError) (s : Store) (r : QuotaCheckResult) → throws e ≢ reserved s r
throws-ne-reserved e s r h = cc

-- A reservation of an available job is either a repetition or a new charge.
reserve-found :
    (installation : Option ℕ) (q : Bool) (user : ℕ) (k fresh month now : ℕ) (s s' : Store)
    (result : QuotaCheckResult)
    → reserve_review installation q (some user) k fresh month now s ≡ reserved s' result
    → (job : Job) × (r : Repository) × (find_job k s ≡ some job)
      × (reserve_found fresh q user k job r month now s ≡ reserved s' result)
unfolding reserve_review
reserve-found installation q user k fresh month now s s' result run =
    elim (Option-cases (find_job k s)) [
      | inl miss ↦
          absurd (throws-ne-reserved unavailable s' result (rw (miss, reserve_review) at run))
      | inr (job, hit) ↦ elim (Option-cases (repository_of job s)) [
        | inl miss ↦ absurd (throws-ne-reserved unavailable s' result (ground arith))
        | inr (r, there) ↦ (job, r, hit, ground arith)
      ]
    ]

-- No reservation upsets the balance of a ledger: for every ledger and kind, the count is still what
-- it was before receipts plus the number of jobs that hold an unrefunded charge. The new row's
-- identifier is unused, ledgers have distinct identifiers, and the job, where it has no receipt, has
-- no refund mark.
pub reserve-IsBalanced :
    (ledger : ℕ) (p : Bool) (base : ℕ) (installation : Option ℕ) (q : Bool)
    (user k fresh month now : ℕ) (s s' : Store) (result : QuotaCheckResult)
    → HasUniqueKeys ledger_id s.ledgers
    → find_ledger fresh s ≡ none
    → ((job : Job)
        → find_job k s ≡ some job
        → job.quota_ledger_id ≡ none
        → job.quota_refunded_at ≡ none)
    → reserve_review installation q (some user) k fresh month now s ≡ reserved s' result
    → IsBalanced ledger p base s
    → IsBalanced ledger p base s'
unfolding reserve_found
reserve-IsBalanced ledger p base installation q user k fresh month now s s' result uniq new marks
      run b =
    let (job, r, hit, ran) = reserve-found installation q user k fresh month now s s' result run in
    elim (Option-cases job.quota_ledger_id) [
      | inl free ↦
          charge_job-IsBalanced ledger p fresh q user r.github_repo_id k month now base s s' result
            job uniq new hit free (marks job hit free) b (rw (free, reserve_found) at ran)
      | inr (held, again) ↦
          subst (IsBalanced ledger p base)
            (sym (repeat-store held q user job s s' result (rw (again, reserve_found) at ran))) b
    ]
