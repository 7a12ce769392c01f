-- ===== src/Intake/Webhook.antt =====
-- `WebhookController.handleGitHubEvent` of controllers/webhook.controller.ts, from the repository of
-- the payload to the answer. Logs are left out.
use ai_pr_reviewer.Prelude.{
  ℕ, inl, inr, Bool, true, false, not, ◌&&◌, ◌||◌, Option, none, some, List, [], ◌∷◌, ◌==◌,
  if◌then◌else◌, any, keep, find_unique, update_unique,
}
use ai_pr_reviewer.Store.{skipped, text_eq, Repository, Installation}
use ai_pr_reviewer.Review.Job.{same_number, is_none}
use ai_pr_reviewer.Quota.Usage.{DenialReason, QuotaCheckResult, allowed, denied, check_quota}
use ai_pr_reviewer.Intake.State.{
  EventType, pull_request, push, Identity, ReviewRequest, Intake, Environment, find_review,
  create_job, QueueOutcome, is_duplicate, is_denied, is_queued, fails, insert_and_queue,
}
use ai_pr_reviewer.Intake.Payload.{
  Header, Payload, Response, SkipReason, Texts, ambiguous_repository_ownership, base_of, duplicate,
  event_of, head_of, identity_of, inactive_repository, internal_error, invalid_repository,
  missing_head_sha, ping, pong, quota_exceeded, was_queued, was_skipped,
}

-- The identifier of the row with this `githubInstallationId`.
abbrev pub find_installation : ℕ → List (ℕ × ℕ) → Option ℕ
find_installation g [] = none
find_installation g ((h, k) ∷ rows) = if h == g then some k else find_installation g rows

abbrev pub has_installation : List (ℕ × ℕ) → Option ℕ → Repository → Bool
has_installation rows none r = is_none r.installation_id
has_installation rows (some g) r = elim (find_installation g rows) [
  | none ↦ false
  | some k ↦ same_number r.installation_id (some k)
]

abbrev pub matches_payload : List (ℕ × ℕ) → Payload → Repository → Bool
matches_payload rows p r =
    r.github_repo_id == p.github_repo_id && (r.is_active && has_installation rows p.installation r)

pub data Resolved : Type 0 where
  ambiguous inactive rejected : Resolved
  resolved : Repository → Intake → Resolved

-- `@@unique([installationId, githubRepoId])`
abbrev pub is_registered : ℕ → ℕ → Repository → Bool
is_registered k github_repo r =
    r.github_repo_id == github_repo && same_number r.installation_id (some k)

abbrev pub new_repository : Environment → Payload → ℕ → ℕ → Repository
new_repository env p user k = record {
  id = env.fresh_repository;
  user_id = user;
  is_active = true;
  is_private = p.is_private;
  installation_id = some k;
  github_repo_id = p.github_repo_id;
  created_at = env.now;
}

unfoldable pub register_for : Environment → Payload → ℕ → ℕ → Intake → Resolved
register_for env p user k t =
    if any (is_registered k p.github_repo_id) t.store.repositories
    then rejected
    else let r = new_repository env p user k in
      resolved r (record t { store = record t.store { repositories = r ∷ t.store.repositories } })

-- A repository that is not known is linked where its installation has an owner.
unfoldable pub register : Environment → Payload → Intake → Resolved
register env p t = elim p.installation [
  | none ↦ inactive
  | some g ↦ elim (find_installation g t.github_installations) [
    | none ↦ inactive
    | some k ↦ elim (find_unique (λ (i : Installation). i.id) k t.store.installations) [
      | none ↦ inactive
      | some i ↦ elim i.user_id [ none ↦ inactive | some user ↦ register_for env p user k t ]
    ]
  ]
]

abbrev pub only_match : Environment → Payload → Intake → List Repository → Resolved
only_match env p t [] = register env p t
only_match env p t (r ∷ []) = resolved r t
only_match env p t (r ∷ s ∷ rest) = ambiguous

unfoldable pub resolve : Environment → Payload → Intake → Resolved
resolve env p t =
    only_match env p t (keep (matches_payload t.github_installations p) t.store.repositories)

-- `repository.update({ data: { isPrivate } })`; the row that was read keeps its old flag.
unfoldable pub refresh_private : Payload → Repository → Intake → Intake
refresh_private p r t =
    if (r.is_private && p.is_private) || (not r.is_private && not p.is_private)
    then t
    else record t {
      store = record t.store {
        repositories =
            update_unique (λ (x : Repository). x.id) r.id
              (λ x. record x { is_private = p.is_private }) t.store.repositories;
      };
    }

abbrev pub notice : EventType → Payload → Identity → Intake → Intake
notice push p i t = t
notice pull_request p i t =
    if is_none p.installation then t else record t { notices = i ∷ t.notices }

-- `create` of a row that is skipped; where it throws, the handler answers 500.
abbrev pub record_skip : SkipReason → Intake → Option Intake → Intake × Response
record_skip why t none = (t, internal_error)
record_skip why t (some t') = (t', was_skipped why)

-- A delivery that the quota denies.
unfoldable pub deny_delivery :
    Texts → Environment → EventType → Payload → Identity → DenialReason → Intake → Intake × Response
deny_delivery texts env event p i reason t = elim (find_review i t) [
  | some row ↦ (t, duplicate (some row.id))
  | none ↦
      let noticed = notice event p i t in
      record_skip quota_exceeded noticed (create_job env i skipped (texts.denial reason) noticed)
]

abbrev pub respond : Environment → Intake → QueueOutcome → Intake × Response
respond env t is_duplicate = (t, duplicate none)
respond env t (is_denied t' result) = (t', was_skipped quota_exceeded)
respond env t (is_queued t') = (t', was_queued env.fresh_job)
respond env t (fails t') = (t', internal_error)

abbrev pub request_of : Environment → EventType → Payload → Repository → ReviewRequest
request_of env event p r = record {
  job_id = env.fresh_job;
  user_id = r.user_id;
  installation_id = r.installation_id;
  github_installation_id = p.installation;
  is_private = p.is_private;
  identity = identity_of event p r;
  base_sha = base_of event p;
}

unfoldable pub admit :
    Texts
    → Environment
    → EventType
    → Payload
    → Repository
    → Intake
    → QuotaCheckResult
    → Intake × Response
admit texts env event p r t (denied reason usage) =
    deny_delivery texts env event p (identity_of event p r) reason t
admit texts env event p r t (allowed usage) =
    respond env t (insert_and_queue texts.denial env (request_of env event p r) t)

unfoldable pub review_event :
    Texts → Environment → EventType → Payload → Repository → Intake → Intake × Response
review_event texts env event p r t = elim (head_of event p) [
  | none ↦
      record_skip missing_head_sha t
        (create_job env (identity_of event p r) skipped texts.missing_sha t)
  | some sha ↦
      let t' = refresh_private p r t in
      admit texts env event p r t'
        (check_quota r.installation_id p.is_private (some r.user_id) env.month t'.store)
]

unfoldable pub route :
    Texts → Environment → Header → Payload → Intake → Resolved → Intake × Response
route texts env header p t ambiguous = (t, was_skipped ambiguous_repository_ownership)
route texts env header p t inactive = (t, was_skipped inactive_repository)
route texts env header p t rejected = (t, internal_error)
route texts env header p t (resolved r t') = elim (event_of header p) [
  | inl why ↦ (t', was_skipped why)
  | inr event ↦ review_event texts env event p r t'
]

-- A payload without a name or with the number 0 for its repository has none.
abbrev pub is_invalid : Payload → Bool
is_invalid p = text_eq p.full_name [] || (p.github_repo_id == 0)

unfoldable pub handle_github_event :
    Texts → Environment → Header → Payload → Intake → Intake × Response
handle_github_event texts env ping p t = (t, pong)
handle_github_event texts env header p t =
    if is_invalid p then (t, invalid_repository) else route texts env header p t (resolve env p t)
