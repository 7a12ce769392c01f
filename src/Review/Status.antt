-- ===== src/Review/Status.antt =====
-- The vocabulary of workers/job-state.ts: the lists of statuses and the tests on them.
use ai_pr_reviewer.Prelude.{
  ℕ, ◌≡◌, refl, sym, ap, ◌∙◌, ◌⊎◌, inl, inr, Bool, true, false, Option, none, some, List, [], ◌∷◌,
  arith, ◌==◌, Bool-cases, any,
}
use mathlib.Core.Bool.{false≢true}
use ai_pr_reviewer.Store.{
  JobStatus, queued, fetching, analyzing, generating, posting, running, retrying, completed, failed,
  skipped, cancelled, timeout,
}

pub data ReviewPhase : Type 0 where
  fetch_phase analyze_phase generate_phase post_phase : ReviewPhase

abbrev pub status_code : JobStatus → ℕ
status_code queued = 0
status_code fetching = 1
status_code analyzing = 2
status_code generating = 3
status_code posting = 4
status_code running = 5
status_code retrying = 6
status_code completed = 7
status_code failed = 8
status_code skipped = 9
status_code cancelled = 10
status_code timeout = 11

abbrev pub status_eq : JobStatus → JobStatus → Bool
status_eq a b = status_code a == status_code b

abbrev pub terminal_review_statuses : List JobStatus
terminal_review_statuses = completed ∷ failed ∷ skipped ∷ cancelled ∷ timeout ∷ []

abbrev pub superseded_review_statuses : List JobStatus
superseded_review_statuses = cancelled ∷ timeout ∷ []

abbrev pub in_progress_review_statuses : List JobStatus
in_progress_review_statuses =
    queued ∷ fetching ∷ analyzing ∷ generating ∷ posting ∷ retrying ∷ running ∷ []

unfoldable pub is_terminal_status : JobStatus → Bool
is_terminal_status s = any (status_eq s) terminal_review_statuses

unfoldable pub is_superseded_status : JobStatus → Bool
is_superseded_status s = any (status_eq s) superseded_review_statuses

unfoldable pub is_in_progress_status : JobStatus → Bool
is_in_progress_status s = any (status_eq s) in_progress_review_statuses

-- The type guard `isReviewPhase`, with the phase that it finds.
abbrev pub is_review_phase : JobStatus → Option ReviewPhase
is_review_phase fetching = some fetch_phase
is_review_phase analyzing = some analyze_phase
is_review_phase generating = some generate_phase
is_review_phase posting = some post_phase
is_review_phase _ = none

abbrev pub phase_rank : ReviewPhase → ℕ
phase_rank fetch_phase = 0
phase_rank analyze_phase = 1
phase_rank generate_phase = 2
phase_rank post_phase = 3

-- A phase as the status that is written for it.
abbrev pub phase_status : ReviewPhase → JobStatus
phase_status fetch_phase = fetching
phase_status analyze_phase = analyzing
phase_status generate_phase = generating
phase_status post_phase = posting

pub status_eq→eq : (a b : JobStatus) → status_eq a b ≡ true → a ≡ b
status_eq→eq a b h = ground arith

pub status_eq_self : (a : JobStatus) → status_eq a a ≡ true
status_eq_self a = ground arith

pub phase-not-terminal : (p : ReviewPhase) → is_terminal_status (phase_status p) ≡ false
unfolding is_terminal_status
phase-not-terminal fetch_phase = refl
phase-not-terminal _ = refl

-- The two lists split the statuses: every status is in progress or terminal, and none is both; a
-- superseded status is terminal, and a phase is in progress.
pub statuses_split :
    (s : JobStatus)
    → ((is_in_progress_status s ≡ true) × (is_terminal_status s ≡ false)
        ⊎ (is_in_progress_status s ≡ false) × (is_terminal_status s ≡ true))
      × (is_superseded_status s ≡ true → is_terminal_status s ≡ true)
      × ((p : ReviewPhase)
          → is_review_phase s ≡ some p
          → (phase_status p ≡ s) × (is_in_progress_status s ≡ true))
unfolding is_in_progress_status is_terminal_status is_superseded_status
statuses_split s = (ground arith, ground arith, λ p e. ground arith)

pub terminal-ne-open :
    (a b : JobStatus)
    → is_terminal_status a ≡ true
    → is_terminal_status b ≡ false
    → status_eq a b ≡ false
terminal-ne-open a b t o = elim (Bool-cases (status_eq a b)) [
  | inl same ↦
      absurd
        (let e = status_eq→eq a b same in false≢true (sym o ∙ sym (ap is_terminal_status e) ∙ t))
  | inr different ↦ different
]
