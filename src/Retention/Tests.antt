-- ===== src/Retention/Tests.antt =====
-- The sweeps at concrete tables.
use ai_pr_reviewer.Prelude.{
  ◌≡◌, ◌+◌, ◌-◌, ◌*◌, refl, not, none, some, List, [], ◌∷◌, arith, keep, length,
}
use ai_pr_reviewer.Store.{failed, completed, absent, Job}
use ai_pr_reviewer.Retention.Sweep.{
  is_stale_job, sweep_failed_jobs_once, CachedRow, is_expired, sweep_expired_context_once,
}
use ai_pr_reviewer.Retention.Deleted.{failed_jobs_are_swept, dated, expired_context_is_swept}

abbrev old_job : Job
old_job = record {
  id = 1;
  repository_id = 2;
  status = failed;
  results = absent;
  updated_at = 5;
  queue_job_id = none;
  queue_version = 1;
  quota_ledger_id = none;
  quota_is_private = none;
  quota_refunded_at = none;
}

abbrev jobs : List Job
jobs = old_job ∷ record old_job { id = 2; status = completed } ∷ record old_job { id = 3 } ∷ []

failed_jobs_are_swept_example :
    let stale = is_stale_job (90000000 - 1 * 86400000) (3 ∷ []) in
    sweep_failed_jobs_once 1 90000000 (3 ∷ []) jobs
    ≡ some (length (keep stale jobs), keep (λ j. not (stale j)) jobs)
failed_jobs_are_swept_example = failed_jobs_are_swept 1 90000000 (3 ∷ []) jobs (omega arith)

abbrev files : List CachedRow
files = record { id = 1; expires_at = some 4 } ∷ record { id = 2; expires_at = none } ∷ []

expired_context_is_swept_example :
    let fs = dated 24 9 files in
    let is = dated 24 9 [] in
    sweep_expired_context_once 24 9 files []
    ≡ some (
      length (keep (is_expired 9) fs) + length (keep (is_expired 9) is),
      keep (λ r. not (is_expired 9 r)) fs,
      keep (λ r. not (is_expired 9 r)) is,
    )
expired_context_is_swept_example = expired_context_is_swept 24 9 files [] (refl, (refl, tt)) tt
