-- ===== src/Intake/Poller.antt =====
-- workers/repo-poller.ts: the reviews that the poller opens for repositories without a webhook. The
-- answers of GitHub are an argument, `none` where a call throws; the timer and the logs are left out.
use ai_pr_reviewer.Prelude.{
  ℕ, Bool, true, false, not, ◌&&◌, Option, none, some, List, [], ◌∷◌, ◌==◌, if◌then◌else◌, any,
  keep,
}
use ai_pr_reviewer.Store.{Results, Text, text_eq, Repository}
use ai_pr_reviewer.Review.Job.{is_none}
use ai_pr_reviewer.Quota.Usage.{DenialReason}
use ai_pr_reviewer.Intake.State.{
  EventType, pull_request, push, ReviewRequest, Intake, Environment, QueueOutcome, is_duplicate,
  is_denied, is_queued, fails, insert_and_queue,
}
use ai_pr_reviewer.Intake.Payload.{number_text}

pub record Pull : Type 0 where
  pub number : ℕ
  pub login : Option Text
  pub head_sha : Text
  pub base_sha : Text

-- What one poll of a repository is told, with an environment for each review that it may open.
pub record Answers : Type 0 where
  pub head_env : Environment
  pub head : Option (Option Text)
  pub pulls : Option (List (Environment × Pull))

-- `scanned` is the column `lastScannedSha`, `seen` the keys of Redis, and `webhooks` the repositories
-- with a `webhookId`.
pub record Poller : Type 0 where
  pub intake : Intake
  pub scanned : List (ℕ × Text)
  pub seen : List ((ℕ × ℕ) × Text)
  pub webhooks : List ℕ

abbrev pub scanned_sha : ℕ → List (ℕ × Text) → Option Text
scanned_sha k [] = none
scanned_sha k ((j, sha) ∷ rows) = if j == k then some sha else scanned_sha k rows

abbrev pub was_seen : ℕ → ℕ → Text → List ((ℕ × ℕ) × Text) → Bool
was_seen k number sha [] = false
was_seen k number sha (((j, n), head) ∷ keys) =
    if (j == k) && (n == number) then text_eq head sha else was_seen k number sha keys

abbrev pub request_for : Environment → Repository → EventType → Text → Text → Text → ReviewRequest
request_for env r event reference head base = record {
  job_id = env.fresh_job;
  user_id = r.user_id;
  installation_id = r.installation_id;
  github_installation_id = none;
  is_private = r.is_private;
  identity = record {
    repository_id = r.id;
    event_type = event;
    reference_id = reference;
    commit_sha = some head;
  };
  base_sha = some base;
}

-- What `queueReview` leaves, and whether it threw.
abbrev pub after_queue : Intake → QueueOutcome → Intake × Bool
after_queue t is_duplicate = (t, false)
after_queue t (is_denied t' result) = (t', false)
after_queue t (is_queued t') = (t', false)
after_queue t (fails t') = (t', true)

unfoldable pub queue_review :
    (DenialReason → Results)
    → Environment
    → Repository
    → EventType
    → Text
    → Text
    → Text
    → Intake
    → Intake × Bool
queue_review texts env r event reference head base t =
    after_queue t (insert_and_queue texts env (request_for env r event reference head base) t)

abbrev pub with_intake : Intake × Bool → Poller → Poller
with_intake (t, threw) p = record p { intake = t }

abbrev pub mark_scanned : ℕ → Text → Intake × Bool → Poller → Poller × Bool
mark_scanned k head (t, true) p = (record p { intake = t }, true)
mark_scanned k head (t, false) p = (record p { intake = t; scanned = (k, head) ∷ p.scanned }, false)

abbrev pub is_text : Option Text → Text → Bool
is_text none t = false
is_text (some s) t = text_eq s t

unfoldable pub poll_new_head :
    (DenialReason → Results)
    → Environment
    → Repository
    → Text
    → Poller
    → Option Text
    → Poller × Bool
poll_new_head texts env r head p none = mark_scanned r.id head (p.intake, false) p
poll_new_head texts env r head p (some last) =
    mark_scanned r.id head (queue_review texts env r push head head last p.intake) p

-- The default branch. `head` is falsy where it is missing or empty.
unfoldable pub poll_head :
    (DenialReason → Results)
    → Environment
    → Repository
    → Option (Option Text)
    → Poller
    → Poller × Bool
poll_head texts env r none p = (p, true)
poll_head texts env r (some none) p = (p, false)
poll_head texts env r (some (some [])) p = (p, false)
poll_head texts env r (some (some (c ∷ head))) p =
    let last = scanned_sha r.id p.scanned in
    if is_text last (c ∷ head) then (p, false) else poll_new_head texts env r (c ∷ head) p last

abbrev pub mark_seen : ℕ → Pull → Intake × Bool → Poller → Poller × Bool
mark_seen k pr (t, true) p = (record p { intake = t }, true)
mark_seen k pr (t, false) p =
    (record p { intake = t; seen = ((k, pr.number), pr.head_sha) ∷ p.seen }, false)

-- `lower` is `toLowerCase`, and `username` the name of a user.
module _ (lower : Text → Text) (username : ℕ → Text) where
  abbrev pub is_own : Repository → Pull → Bool
  is_own r pr = elim pr.login [
    | none ↦ false
    | some login ↦ text_eq (lower login) (lower (username r.user_id))
  ]

  unfoldable pub poll_pull :
      (DenialReason → Results) → Environment → Repository → Pull → Poller → Poller × Bool
  poll_pull texts env r pr p =
      if not (is_own r pr)
      then (p, false)
      else if was_seen r.id pr.number pr.head_sha p.seen
      then (p, false)
      else mark_seen r.id pr
          (queue_review texts env r pull_request (number_text pr.number) pr.head_sha pr.base_sha
            p.intake)
          p

  -- A call that throws ends the poll of its repository.
  unfoldable pub poll_pulls :
      (DenialReason → Results) → Repository → List (Environment × Pull) → Poller × Bool → Poller
  poll_pulls texts r prs (p, true) = p
  poll_pulls texts r [] (p, false) = p
  poll_pulls texts r ((env, pr) ∷ prs) (p, false) =
      poll_pulls texts r prs (poll_pull texts env r pr p)

  abbrev pub poll_open :
      (DenialReason → Results)
      → Repository
      → Option (List (Environment × Pull))
      → Poller × Bool
      → Poller
  poll_open texts r none (p, threw) = p
  poll_open texts r (some prs) q = poll_pulls texts r prs q

  unfoldable pub poll_repository : (DenialReason → Results) → Answers → Repository → Poller → Poller
  poll_repository texts answers r p =
      poll_open texts r answers.pulls (poll_head texts answers.head_env r answers.head p)

  unfoldable pub poll_all :
      (DenialReason → Results) → (ℕ → Answers) → List Repository → Poller → Poller
  poll_all texts answers [] p = p
  poll_all texts answers (r ∷ rs) p =
      poll_all texts answers rs (poll_repository texts (answers r.id) r p)

  -- `{ isActive: true, webhookId: null, installationId: null }`
  abbrev pub is_polled : List ℕ → Repository → Bool
  is_polled webhooks r =
      r.is_active && (not (any (λ k. k == r.id) webhooks) && is_none r.installation_id)

  unfoldable pub poll_repositories_once : (DenialReason → Results) → (ℕ → Answers) → Poller → Poller
  poll_repositories_once texts answers p =
      poll_all texts answers (keep (is_polled p.webhooks) p.intake.store.repositories) p
