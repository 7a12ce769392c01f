-- ===== src/Quota/Tests.antt =====
-- Runs of the quota, and its theorems at a concrete account.
use ai_pr_reviewer.Prelude.{◌+◌}
use ai_pr_reviewer.Prelude.{◌≡◌, refl, true, none, some, [], ◌∷◌, arith}
use ai_pr_reviewer.Store.{queued, cancelled, absent, Job, Store, Repository, free, find_job}
use ai_pr_reviewer.Review.Job.{persist_state}
use ai_pr_reviewer.Quota.Entitlement.{tier_of}
use ai_pr_reviewer.Quota.Usage.{Usage, DenialReason, allowed, denied, get_account_usage}
use ai_pr_reviewer.Quota.Reserve.{
  reserved, refusal, eligible_repository, upsert_ledger, charge_ledger, reserve_within, charge_job,
  link_reservation, reserve_found, is_available, is_reservable, reserve_review,
}
use ai_pr_reviewer.Quota.Charge.{Charged, reserve_within_lem}
use ai_pr_reviewer.Quota.Balance.{IsBalanced, ledger_count, open_charges, persist-IsBalanced}
use ai_pr_reviewer.Quota.Usage.{check_quota}
use ai_pr_reviewer.Quota.Preflight.{preflight_allows_reservable}
use ai_pr_reviewer.Quota.Receipts.{reserve-IsBalanced}

abbrev new_job : Job
new_job = record {
  id = 1;
  repository_id = 2;
  status = queued;
  results = absent;
  updated_at = 5;
  queue_job_id = none;
  queue_version = 1;
  quota_ledger_id = none;
  quota_is_private = none;
  quota_refunded_at = none;
}

abbrev private_repository : Repository
private_repository = record {
  id = 2;
  user_id = 4;
  is_active = true;
  is_private = true;
  installation_id = none;
  github_repo_id = 77;
  created_at = 0;
}

abbrev account : Store
account = record {
  jobs = new_job ∷ [];
  ledgers = [];
  repositories = private_repository ∷ [];
  subscriptions = [];
  installations = [];
}

-- The first private review of a free account.
after_reservation : Store
after_reservation = record account {
  jobs =
      record new_job {
        quota_ledger_id = some 30;
        quota_is_private = some true;
        queue_job_id = some 1;
        updated_at = 6;
      }
      ∷ [];
  ledgers =
      record {
        id = 30;
        installation_id = none;
        user_id = some 4;
        billing_month = 24321;
        public_reviews_count = 0;
        private_reviews_count = 1;
      }
      ∷ [];
}

abbrev first_usage : Usage
first_usage = record {
  current = 1;
  limit = some 50;
  is_private = true;
  tier = free;
  billing_month = 24321;
}

first_reservation :
    reserve_review none true (some 4) 1 30 24321 6 account
    ≡ reserved after_reservation (allowed first_usage)
unfolding after_reservation reserve_review is_available is_reservable reserve_found charge_job
    link_reservation reserve_within refusal eligible_repository upsert_ledger charge_ledger
    get_account_usage tier_of
first_reservation = refl

reserve-IsBalanced_example : IsBalanced 30 true 0 after_reservation
reserve-IsBalanced_example =
    reserve-IsBalanced 30 true 0 none true 4 1 30 24321 6 account after_reservation
      (allowed first_usage) tt refl unmarked first_reservation balanced_start
  where
    unmarked :
        (job : Job)
        → find_job 1 account ≡ some job
        → job.quota_ledger_id ≡ none
        → job.quota_refunded_at ≡ none
    unmarked job e h = ground arith

    balanced_start : IsBalanced 30 true 0 account
    balanced_start = unfold ledger_count open_charges in refl

persist-IsBalanced_example :
    IsBalanced 30 true 0 (persist_state 1 cancelled none none 8 after_reservation).0
persist-IsBalanced_example =
    persist-IsBalanced 30 true 1 cancelled none none 8 0 after_reservation
      (unfold ledger_count open_charges after_reservation in refl)

reserve_within_lem_example :
    ((u : Usage)
      → (reserve_within 30 true 4 77 24321 account).1 ≡ allowed u
      → Charged 4 24321 true account (reserve_within 30 true 4 77 24321 account).0 u)
    × ((r : DenialReason) (u : Usage)
        → (reserve_within 30 true 4 77 24321 account).1 ≡ denied r u
        → (reserve_within 30 true 4 77 24321 account).0 ≡ account)
reserve_within_lem_example = reserve_within_lem 30 true 4 77 24321 account tt refl

accepted_usage : (reserve_within 30 true 4 77 24321 account).1 ≡ allowed first_usage
unfolding reserve_within refusal eligible_repository get_account_usage tier_of
accepted_usage = refl

preflight_allows_reservable_example :
    (v : Usage) × (check_quota none true (some 4) 24321 account ≡ allowed v)
    × (first_usage.current ≡ v.current + 1)
    × (first_usage.limit ≡ v.limit)
    × (first_usage.billing_month ≡ v.billing_month)
preflight_allows_reservable_example =
    preflight_allows_reservable none 30 true 4 77 24321 account first_usage accepted_usage
