-- ===== src/Quota/Usage.antt =====
-- The account totals and limits of services/quota.service.ts.
use ai_pr_reviewer.Prelude.{
  ℕ, Bool, true, false, ◌&&◌, ◌||◌, Option, none, some, List, ltb, ◌==◌, if◌then◌else◌, total,
  find_unique,
}
use ai_pr_reviewer.Store.{PlanTier, free, UsageLedger, Installation, Store}
use ai_pr_reviewer.Review.Job.{same_number}
use ai_pr_reviewer.Quota.Entitlement.{tier_of}

abbrev pub free_tier_private_limit : ℕ
free_tier_private_limit = 50

abbrev pub is_free : PlanTier → Bool
is_free free = true
is_free _ = false

-- `isPrivate && tier === 'FREE' ? FREE_TIER_PRIVATE_LIMIT : null`
abbrev pub limit_for : Bool → PlanTier → Option ℕ
limit_for is_private tier =
    if is_private && is_free tier then some free_tier_private_limit else none

-- `{ installation: { userId } }`
unfoldable pub installed_by : ℕ → Option ℕ → List Installation → Bool
installed_by user none rows = false
installed_by user (some k) rows = elim (find_unique (λ (i : Installation). i.id) k rows) [
  | none ↦ false
  | some i ↦ same_number i.user_id (some user)
]

-- The rows that the aggregate of `getAccountUsage` sums.
unfoldable pub is_account_ledger : List Installation → ℕ → ℕ → UsageLedger → Bool
unfolding installed_by
is_account_ledger installations user month l =
    l.billing_month == month
    && (same_number l.user_id (some user) || installed_by user l.installation_id installations)

abbrev pub count_for : Bool → UsageLedger → ℕ
count_for true l = l.private_reviews_count
count_for false l = l.public_reviews_count

abbrev pub account_weight : List Installation → ℕ → ℕ → Bool → UsageLedger → ℕ
account_weight installations user month is_private l =
    if is_account_ledger installations user month l then count_for is_private l else 0

-- One of the two sums of `getAccountUsage`, the one that `isPrivate` selects.
unfoldable pub get_account_usage : ℕ → ℕ → Bool → Store → ℕ
get_account_usage user month is_private s =
    total (account_weight s.installations user month is_private) s.ledgers

pub record Usage : Type 0 where
  pub current : ℕ
  pub limit : Option ℕ
  pub is_private : Bool
  pub tier : PlanTier
  pub billing_month : ℕ

-- The texts of `reason`.
pub data DenialReason : Type 0 where
  owner_required one_private_repository : DenialReason
  quota_exceeded : ℕ → ℕ → DenialReason

pub data QuotaCheckResult : Type 0 where
  allowed : Usage → QuotaCheckResult
  denied : DenialReason → Usage → QuotaCheckResult

-- `limit === null || current < limit`
abbrev pub within_limit : Option ℕ → ℕ → Bool
within_limit none current = true
within_limit (some limit) current = ltb current limit

abbrev pub limit_or_zero : Option ℕ → ℕ
limit_or_zero none = 0
limit_or_zero (some limit) = limit

-- `userId ?? (installationId ? installation?.userId : null)`
abbrev pub installation_owner : Option ℕ → Store → Option ℕ
installation_owner none s = none
installation_owner (some k) s = elim (find_unique (λ (i : Installation). i.id) k s.installations) [
  | none ↦ none
  | some i ↦ i.user_id
]

abbrev pub usage_owner : Option ℕ → Option ℕ → Store → Option ℕ
usage_owner (some user) installation s = some user
usage_owner none installation s = installation_owner installation s

-- The preflight `checkQuota`; it writes nothing.
unfoldable pub check_quota : Option ℕ → Bool → Option ℕ → ℕ → Store → QuotaCheckResult
unfolding get_account_usage tier_of
check_quota installation is_private user month s = elim (usage_owner user installation s) [
  | none ↦ denied owner_required (record {
    current = 0;
    limit = limit_for is_private free;
    is_private = is_private;
    tier = free;
    billing_month = month;
  })
  | some owner ↦
      let tier = tier_of owner s in
      let limit = limit_for is_private tier in
      let current = get_account_usage owner month is_private s in
      let usage : Usage = record {
        current = current;
        limit = limit;
        is_private = is_private;
        tier = tier;
        billing_month = month;
      } in
      if within_limit limit current
      then allowed usage
      else denied (quota_exceeded current (limit_or_zero limit)) usage
]
