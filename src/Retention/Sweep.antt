-- ===== src/Retention/Sweep.antt =====
-- `sweepFailedJobsOnce` of workers/job-retention.ts and `sweepExpiredContextOnce` of
-- workers/context-retention.ts: deletion in batches. The timers and the logs are left out.
use ai_pr_reviewer.Prelude.{
  ℕ, zero, suc, ◌+◌, ◌-◌, ◌*◌, Bool, true, false, not, ◌&&◌, Option, none, some, List, [], ◌∷◌, ltb,
  leb, ◌==◌, if◌then◌else◌, any, keep, length, take, map,
}
use ai_pr_reviewer.Store.{failed, Job, job_id}
use ai_pr_reviewer.Review.Status.{status_eq}

-- `DELETE_BATCH_SIZE`
abbrev pub delete_batch_size : ℕ
delete_batch_size = 500

-- `orderBy`
module _ {A : Type 0} (at : A → ℕ) where
  unfoldable pub insert_row : A → List A → List A
  insert_row r [] = r ∷ []
  insert_row r (s ∷ rows) =
      let rest = insert_row r rows in if leb (at r) (at s) then r ∷ s ∷ rows else s ∷ rest

  unfoldable pub sort_rows : List A → List A
  sort_rows [] = []
  sort_rows (r ∷ rows) = insert_row r (sort_rows rows)

-- A table: the key of a row, the column it is ordered by, which rows the sweep looks for, and the
-- condition that `deleteMany` has beside the identifiers.
module _ {A : Type 0} (key at : A → ℕ) (is_stale is_deletable : A → Bool) where
  -- `findMany`
  unfoldable pub next_batch : List A → List A
  next_batch rows = take delete_batch_size (sort_rows at (keep is_stale rows))

  abbrev pub is_selected : List ℕ → A → Bool
  is_selected ids r = any (λ k. k == key r) ids && is_deletable r

  -- `deleteMany`: the count and the rows that are left.
  unfoldable pub delete_many : List ℕ → List A → ℕ × List A
  delete_many ids rows =
      (length (keep (is_selected ids) rows), keep (λ r. not (is_selected ids r)) rows)

  -- The loop; `none` where the fuel is used up. An empty batch ends it, and so does a short one
  -- after its deletion.
  unfoldable pub sweep : ℕ → ℕ → List A → Option (ℕ × List A)
  sweep zero count rows = none
  sweep (suc fuel) count rows =
      let batch = next_batch rows in
      let deleted = delete_many (map key batch) rows in
      let rest = sweep fuel (count + deleted.0) deleted.1 in
      if length batch == 0
      then some (count, rows)
      else if ltb (length batch) delete_batch_size
      then some (count + deleted.0, deleted.1)
      else rest

-- The jobs that the sweep deletes. `planned` are the jobs with a delivery plan.
abbrev pub is_stale_job : ℕ → List ℕ → Job → Bool
is_stale_job cutoff planned j =
    status_eq j.status failed && (ltb j.updated_at cutoff && not (any (λ k. k == j.id) planned))

-- `retentionDays` is finite.
unfoldable pub sweep_failed_jobs_once : ℕ → ℕ → List ℕ → List Job → Option (ℕ × List Job)
sweep_failed_jobs_once retention_days now planned jobs =
    let stale = is_stale_job (now - retention_days * 86400000) planned in
    if retention_days == 0
    then some (0, jobs)
    else sweep job_id (λ j. j.updated_at) stale stale (suc (length jobs)) 0 jobs

-- `model CachedFile` and `model CachedImport`, less what the sweep does not read.
pub record CachedRow : Type 0 where
  pub id : ℕ
  pub expires_at : Option ℕ

abbrev pub cached_id : CachedRow → ℕ
cached_id r = r.id

abbrev pub or_never : Option ℕ → ℕ
or_never none = 0
or_never (some t) = t

-- `{ lte: now }` does not hold of a missing value.
abbrev pub is_expired : ℕ → CachedRow → Bool
is_expired now r = elim r.expires_at [ none ↦ false | some t ↦ leb t now ]

abbrev pub with_expiry : ℕ → CachedRow → CachedRow
with_expiry t r = elim r.expires_at [ none ↦ record r { expires_at = some t } | some u ↦ r ]

unfoldable pub sweep_cached : ℕ → List CachedRow → Option (ℕ × List CachedRow)
sweep_cached now rows =
    sweep cached_id (λ r. or_never r.expires_at) (is_expired now) (λ r. true) (suc (length rows)) 0
      rows

abbrev pub add_counts :
    ℕ × List CachedRow → Option (ℕ × List CachedRow) → Option (ℕ × List CachedRow × List CachedRow)
add_counts (n, files) none = none
add_counts (n, files) (some (m, imports)) = some (n + m, files, imports)

unfoldable pub sweep_both :
    ℕ → List CachedRow → List CachedRow → Option (ℕ × List CachedRow × List CachedRow)
sweep_both now files imports = elim (sweep_cached now files) [
  | none ↦ none
  | some swept ↦ add_counts swept (sweep_cached now imports)
]

-- `retention_hours` 0 retains rows without an expiry; otherwise they are given one.
unfoldable pub sweep_expired_context_once :
    ℕ → ℕ → List CachedRow → List CachedRow → Option (ℕ × List CachedRow × List CachedRow)
sweep_expired_context_once retention_hours now files imports =
    let expiry = with_expiry (now + retention_hours * 3600000) in
    if retention_hours == 0
    then sweep_both now files imports
    else sweep_both now (map expiry files) (map expiry imports)
