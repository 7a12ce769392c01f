-- ===== src/Quota/Reserve.antt =====
-- `reserveReview` and `reserveWithin` of services/quota.service.ts. A transaction is a function on the
-- store; a thrown error rolls it back.
use ai_pr_reviewer.Prelude.{
  ℕ, ◌+◌, Bool, true, false, not, ◌&&◌, ◌||◌, Option, none, some, List, [], ◌∷◌, ltb, leb, ◌==◌,
  if◌then◌else◌, any, find_first, find_unique,
}
use ai_pr_reviewer.Store.{
  JobStatus, queued, fetching, analyzing, generating, posting, running, retrying, Job, UsageLedger,
  Repository, Store, find_job, find_ledger, update_job, update_ledger,
}
use ai_pr_reviewer.Review.Status.{status_eq}
use ai_pr_reviewer.Review.Job.{same_number, is_none}
use ai_pr_reviewer.Quota.Entitlement.{tier_of}
use ai_pr_reviewer.Quota.Usage.{
  Usage, QuotaCheckResult, allowed, denied, one_private_repository, quota_exceeded, limit_for,
  get_account_usage,
}

-- The errors that `reserveReview` throws, and a missing row of `findUniqueOrThrow`.
pub data ReserveError : Type 0 where
  no_owner unavailable no_longer_available missing_ledger : ReserveError

pub data Outcome : Type 0 where
  reserved : Store → QuotaCheckResult → Outcome
  throws : ReserveError → Outcome

abbrev pub reservable_statuses : List JobStatus
reservable_statuses = queued ∷ fetching ∷ analyzing ∷ generating ∷ posting ∷ running ∷ retrying ∷ []

unfoldable pub is_reservable : JobStatus → Bool
is_reservable s = any (status_eq s) reservable_statuses

abbrev pub is_private_repository : ℕ → Repository → Bool
is_private_repository user r = r.user_id == user && (r.is_private && r.is_active)

-- `orderBy: [{ createdAt: 'asc' }, { id: 'asc' }]`
abbrev pub connected_before : Repository → Repository → Bool
connected_before a b =
    if a.created_at == b.created_at then ltb a.id b.id else ltb a.created_at b.created_at

abbrev pub earliest : Repository → Option Repository → Repository
earliest a none = a
earliest a (some b) = if connected_before b a then b else a

-- The one private repository that the free tier covers.
unfoldable pub eligible_repository : ℕ → List Repository → Option Repository
eligible_repository user [] = none
eligible_repository user (r ∷ rs) =
    let rest = eligible_repository user rs in
    if is_private_repository user r then some (earliest r rest) else rest

abbrev pub is_repository : Option Repository → ℕ → Bool
is_repository none github_repo = false
is_repository (some r) github_repo = r.github_repo_id == github_repo

-- The refusals of a limited reservation, in order.
unfoldable pub refusal : Option ℕ → ℕ → ℕ → ℕ → Usage → Store → Option QuotaCheckResult
unfolding eligible_repository
refusal none user github_repo current usage s = none
refusal (some limit) user github_repo current usage s =
    if not (is_repository (eligible_repository user s.repositories) github_repo)
    then some (denied one_private_repository usage)
    else if leb limit current
    then some (denied (quota_exceeded current limit) usage)
    else none

-- The unique key `userId_billingMonth`.
abbrev pub is_ledger_of : ℕ → ℕ → UsageLedger → Bool
is_ledger_of user month l = same_number l.user_id (some user) && (l.billing_month == month)

abbrev pub account_ledger : ℕ → ℕ → Store → Option UsageLedger
account_ledger user month s = find_first (is_ledger_of user month) s.ledgers

abbrev pub empty_ledger : ℕ → ℕ → ℕ → UsageLedger
empty_ledger fresh user month = record {
  id = fresh;
  installation_id = none;
  user_id = some user;
  billing_month = month;
  public_reviews_count = 0;
  private_reviews_count = 0;
}

-- `upsert` with an empty update: `fresh` is the identifier that a new row is given.
unfoldable pub upsert_ledger : ℕ → ℕ → ℕ → Store → Store
upsert_ledger fresh user month s = elim (account_ledger user month s) [
  | some l ↦ s
  | none ↦ record s { ledgers = empty_ledger fresh user month ∷ s.ledgers }
]

abbrev pub increment : Bool → UsageLedger → UsageLedger
increment true l = record l { private_reviews_count = l.private_reviews_count + 1 }
increment false l = record l { public_reviews_count = l.public_reviews_count + 1 }

-- `update({ where: { userId_billingMonth } })`
unfoldable pub charge_ledger : ℕ → ℕ → Bool → Store → Store
charge_ledger user month is_private s = elim (account_ledger user month s) [
  | none ↦ s
  | some l ↦ update_ledger l.id (increment is_private) s
]

abbrev pub usage_of : ℕ → ℕ → Bool → Store → Usage
usage_of user month is_private s = record {
  current = get_account_usage user month is_private s;
  limit = limit_for is_private (tier_of user s);
  is_private = is_private;
  tier = tier_of user s;
  billing_month = month;
}

unfoldable pub reserve_within : ℕ → Bool → ℕ → ℕ → ℕ → Store → Store × QuotaCheckResult
reserve_within fresh is_private user github_repo month s =
    let usage = usage_of user month is_private s in
    elim (refusal usage.limit user github_repo usage.current usage s) [
      | some result ↦ (s, result)
      | none ↦ (
        charge_ledger user month is_private (upsert_ledger fresh user month s),
        allowed (record usage { current = usage.current + 1 }),
      )
    ]

-- `Repository` rows are found by `include: { repository: true }`.
abbrev pub repository_of : Job → Store → Option Repository
repository_of job s = find_unique (λ (r : Repository). r.id) job.repository_id s.repositories

abbrev pub link_charge : ℕ → Bool → ℕ → ℕ → Job → Job
link_charge ledger is_private k now j = record j {
  quota_ledger_id = some ledger;
  quota_is_private = some is_private;
  queue_job_id = some k;
  updated_at = now;
}

-- The receipt that an accepted reservation writes on the job.
unfoldable pub link_reservation : ℕ → Bool → ℕ → ℕ → Store × QuotaCheckResult → Outcome
link_reservation user is_private k now (s, denied reason usage) = reserved s (denied reason usage)
link_reservation user is_private k now (s, allowed usage) =
    elim (account_ledger user usage.billing_month s) [
      | none ↦ throws missing_ledger
      | some ledger ↦
          reserved (update_job k (link_charge ledger.id is_private k now) s) (allowed usage)
    ]

-- The charge of a job that has none yet, and its receipt.
unfoldable pub charge_job : ℕ → Bool → ℕ → ℕ → ℕ → ℕ → ℕ → Store → Outcome
charge_job fresh is_private user github_repo k month now s =
    link_reservation user is_private k now
      (reserve_within fresh is_private user github_repo month s)

abbrev pub same_flag : Option Bool → Bool → Bool
same_flag none b = false
same_flag (some true) b = b
same_flag (some false) b = not b

-- A second reservation of a job that is charged already.
unfoldable pub repeat_reservation : ℕ → Bool → ℕ → Job → Store → Outcome
repeat_reservation ledger_key is_private user job s =
    if not (is_none job.quota_refunded_at) || not (same_flag job.quota_is_private is_private)
    then throws no_longer_available
    else elim (find_ledger ledger_key s) [
      | none ↦ throws missing_ledger
      | some ledger ↦ reserved s (allowed (usage_of user ledger.billing_month is_private s))
    ]

unfoldable pub is_available : ℕ → Option ℕ → Job → Repository → Bool
unfolding is_reservable
is_available user installation job r =
    r.user_id == user
    && (r.is_active && (same_number r.installation_id installation && is_reservable job.status))

unfoldable pub reserve_found : ℕ → Bool → ℕ → ℕ → Job → Repository → ℕ → ℕ → Store → Outcome
reserve_found fresh is_private user k job r month now s = elim job.quota_ledger_id [
  | some ledger_key ↦ repeat_reservation ledger_key is_private user job s
  | none ↦ charge_job fresh is_private user r.github_repo_id k month now s
]

-- The arguments after the source's four are the new row's identifier, the current month and the time.
unfoldable pub reserve_review : Option ℕ → Bool → Option ℕ → ℕ → ℕ → ℕ → ℕ → Store → Outcome
reserve_review installation is_private none k fresh month now s = throws no_owner
reserve_review installation is_private (some user) k fresh month now s = elim (find_job k s) [
  | none ↦ throws unavailable
  | some job ↦ elim (repository_of job s) [
    | none ↦ throws unavailable
    | some r ↦
        if is_available user installation job r
        then reserve_found fresh is_private user k job r month now s
        else throws unavailable
  ]
]
