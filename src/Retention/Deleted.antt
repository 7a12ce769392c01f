-- ===== src/Retention/Deleted.antt =====
-- What the two retention sweeps delete.
use ai_pr_reviewer.Prelude.{
  ℕ, ◌+◌, ◌-◌, ◌*◌, ◌≤◌, ◌≡◌, refl, sym, ap, subst, ◌∙◌, inl, inr, true, false, not, none, some,
  List, [], ◌∷◌, arith, ◌==◌, if◌then◌else◌, Bool-cases, keep, length, map, find_unique,
  HasUniqueKeys,
}
use mathlib.Core.List.{Memᴰ}
use mathlib.Core.List.Memᴰ
use ai_pr_reviewer.Store.{Job, job_id}
use ai_pr_reviewer.Retention.Sweep.{
  is_stale_job, sweep_failed_jobs_once, CachedRow, cached_id, or_never, is_expired, with_expiry,
  sweep_cached, sweep_both, sweep_expired_context_once,
}
use ai_pr_reviewer.Retention.Ends.{sweep-ends_zero}

-- The sweep of failed jobs ends. It deletes the failed jobs that are older than the retention period
-- and have no delivery plan, returns their number, and leaves every other job in its place.
pub failed_jobs_are_swept :
    (retention_days now : ℕ) (planned : List ℕ) (jobs : List Job)
    → 1 ≤ retention_days
    → let stale = is_stale_job (now - retention_days * 86400000) planned in
      sweep_failed_jobs_once retention_days now planned jobs
      ≡ some (length (keep stale jobs), keep (λ j. not (stale j)) jobs)
unfolding sweep_failed_jobs_once
failed_jobs_are_swept retention_days now planned jobs positive =
    let stale = is_stale_job (now - retention_days * 86400000) planned in
    let on : (retention_days == 0) ≡ false = ground arith in
    rw on (
      sweep-ends_zero job_id (λ j. j.updated_at) stale stale jobs (λ r h. h) (λ r s m n e old h. h))

missing-mem :
    (s : CachedRow) (rows : List CachedRow)
    → Memᴰ s rows
    → find_unique cached_id s.id rows ≡ none
    → ⊥
missing-mem s [] m e = Memᴰ.not-nil m
missing-mem s (r ∷ rows) (Memᴰ.head h) e = let same : s.id ≡ r.id = ap cached_id h in ground arith
missing-mem s (r ∷ rows) (Memᴰ.tail t) e = missing-mem s rows t (ground arith)

unique-mem :
    (r s : CachedRow) (rows : List CachedRow)
    → HasUniqueKeys cached_id rows
    → Memᴰ r rows
    → Memᴰ s rows
    → s.id ≡ r.id
    → s ≡ r
unique-mem r s [] u m n e = absurd (Memᴰ.not-nil m)
unique-mem r s (x ∷ rows) (new, u) (Memᴰ.head a) (Memᴰ.head b) e = b ∙ sym a
unique-mem r s (x ∷ rows) (new, u) (Memᴰ.head a) (Memᴰ.tail n) e =
    let same : x.id ≡ s.id = sym (ap cached_id a) ∙ sym e in
    absurd (missing-mem s rows n (subst (λ k. find_unique cached_id k rows ≡ none) same new))
unique-mem r s (x ∷ rows) (new, u) (Memᴰ.tail m) (Memᴰ.head b) e =
    let same : x.id ≡ r.id = sym (ap cached_id b) ∙ e in
    absurd (missing-mem r rows m (subst (λ k. find_unique cached_id k rows ≡ none) same new))
unique-mem r s (x ∷ rows) (new, u) (Memᴰ.tail m) (Memᴰ.tail n) e = unique-mem r s rows u m n e

cached-swept :
    (now : ℕ) (rows : List CachedRow)
    → HasUniqueKeys cached_id rows
    → sweep_cached now rows
      ≡ some (length (keep (is_expired now) rows), keep (λ r. not (is_expired now r)) rows)
unfolding sweep_cached
cached-swept now rows u =
    sweep-ends_zero cached_id (λ r. or_never r.expires_at) (is_expired now) (λ r. true) rows
      (λ r h. refl)
      (λ r s m n e old h. subst (λ x. is_expired now x ≡ true) (unique-mem r s rows u m n e) old)

expiry-id : (t : ℕ) (r : CachedRow) → (with_expiry t r).id ≡ r.id
expiry-id t r = ground arith

expiry-missing :
    (t k : ℕ) (rows : List CachedRow)
    → find_unique cached_id k rows ≡ none
    → find_unique cached_id k (map (with_expiry t) rows) ≡ none
expiry-missing t k [] e = refl
expiry-missing t k (r ∷ rows) e = ground (arith, expiry-id t r, expiry-missing t k rows)

expiry-HasUniqueKeys :
    (t : ℕ) (rows : List CachedRow)
    → HasUniqueKeys cached_id rows
    → HasUniqueKeys cached_id (map (with_expiry t) rows)
expiry-HasUniqueKeys t [] u = tt
expiry-HasUniqueKeys t (r ∷ rows) (new, u) = (
  subst (λ k. find_unique cached_id k (map (with_expiry t) rows) ≡ none) (sym (expiry-id t r))
      (expiry-missing t r.id rows new),
  expiry-HasUniqueKeys t rows u,
)

-- The rows as the sweep finds them: without indefinite retention, each with an expiry.
abbrev pub dated : ℕ → ℕ → List CachedRow → List CachedRow
dated retention_hours now rows =
    if retention_hours == 0 then rows else map (with_expiry (now + retention_hours * 3600000)) rows

both-swept :
    (now : ℕ) (files imports : List CachedRow)
    → HasUniqueKeys cached_id files
    → HasUniqueKeys cached_id imports
    → sweep_both now files imports
      ≡ some (
        length (keep (is_expired now) files) + length (keep (is_expired now) imports),
        keep (λ r. not (is_expired now r)) files,
        keep (λ r. not (is_expired now r)) imports,
      )
unfolding sweep_both
both-swept now files imports u v =
    rw (cached-swept now files u, sweep_both, cached-swept now imports v) refl

-- Where the rows of a table have distinct identifiers, the sweep of the context cache ends. It
-- deletes exactly the files and imports whose expiry has come, returns their number, and leaves the
-- others in their place, with an expiry unless retention is indefinite.
pub expired_context_is_swept :
    (retention_hours now : ℕ) (files imports : List CachedRow)
    → HasUniqueKeys cached_id files
    → HasUniqueKeys cached_id imports
    → let fs = dated retention_hours now files in
      let is = dated retention_hours now imports in
      sweep_expired_context_once retention_hours now files imports
      ≡ some (
        length (keep (is_expired now) fs) + length (keep (is_expired now) is),
        keep (λ r. not (is_expired now r)) fs,
        keep (λ r. not (is_expired now r)) is,
      )
unfolding sweep_expired_context_once
expired_context_is_swept retention_hours now files imports u v =
    let t = now + retention_hours * 3600000 in
    elim (Bool-cases (retention_hours == 0)) [
      | inl forever ↦ rw forever (both-swept now files imports u v)
      | inr limited ↦ rw limited (
          both-swept now (map (with_expiry t) files) (map (with_expiry t) imports)
            (expiry-HasUniqueKeys t files u) (expiry-HasUniqueKeys t imports v))
    ]
