-- ===== src/Intake/Payload.antt =====
-- The payload of a webhook and what controllers/webhook.controller.ts reads from it.
use ai_pr_reviewer.Prelude.{
  ℕ, zero, suc, ◌+◌, ◌/◌, ◌%◌, ◌⊎◌, inl, inr, Bool, true, false, Option, none, some, [], ◌∷◌, ◌++◌,
  ltb, ◌==◌, if◌then◌else◌,
}
use ai_pr_reviewer.Store.{Results, Text, Repository}
use ai_pr_reviewer.Quota.Usage.{DenialReason}
use ai_pr_reviewer.Intake.State.{EventType, pull_request, push, Identity}

-- `pull_request` of the payload; a number that is missing is 0.
pub record PullRequest : Type 0 where
  pub number : ℕ
  pub head_sha : Option Text
  pub base_sha : Option Text

-- `opened`, `synchronize`, `reopened`, and every other action.
pub data Action : Type 0 where
  opened synchronize reopened ignored : Action

-- The header `x-github-event`, the installation events apart.
pub data Header : Type 0 where
  ping pull_request_event push_event other_event : Header

pub record Payload : Type 0 where
  pub action : Action
  pub full_name : Text
  pub github_repo_id : ℕ
  pub is_private : Bool
  pub installation : Option ℕ
  pub pull_request : PullRequest
  pub after : Option Text
  pub before : Option Text

pub data SkipReason : Type 0 where
  ambiguous_repository_ownership inactive_repository action_ignored : SkipReason
  unsupported_event_type missing_head_sha quota_exceeded : SkipReason

pub data Response : Type 0 where
  pong invalid_repository internal_error : Response
  was_skipped : SkipReason → Response
  duplicate : Option ℕ → Response
  was_queued : ℕ → Response

-- The texts of `results`.
pub record Texts : Type 0 where
  pub missing_sha : Results
  pub denial : DenialReason → Results

-- `number.toString()`, on as many digits as the fuel.
unfoldable pub digits : ℕ → ℕ → Text
digits zero n = []
digits (suc fuel) n =
    let rest = digits fuel (n / 10) in
    if ltb n 10 then (48 + n) ∷ [] else rest ++ (48 + n % 10) ∷ []

-- A number is below 10 ^ (n + 1), so it has no more digits than that.
abbrev pub number_text : ℕ → Text
number_text n = if n == 0 then [] else digits (suc n) n

abbrev pub is_allowed_action : Action → Bool
is_allowed_action ignored = false
is_allowed_action _ = true

unfoldable pub event_of : Header → Payload → SkipReason ⊎ EventType
event_of pull_request_event p =
    if is_allowed_action p.action then inr pull_request else inl action_ignored
event_of push_event p = inr push
event_of ping p = inl unsupported_event_type
event_of other_event p = inl unsupported_event_type

-- `payload.after || ''`
abbrev pub text_or_empty : Option Text → Text
text_or_empty none = []
text_or_empty (some t) = t

abbrev pub reference_of : EventType → Payload → Text
reference_of pull_request p = number_text p.pull_request.number
reference_of push p = text_or_empty p.after

-- `!commitSha` holds of the empty text too.
abbrev pub nonempty : Option Text → Option Text
nonempty none = none
nonempty (some []) = none
nonempty (some (c ∷ t)) = some (c ∷ t)

abbrev pub head_of : EventType → Payload → Option Text
head_of pull_request p = nonempty p.pull_request.head_sha
head_of push p = nonempty p.after

abbrev pub base_of : EventType → Payload → Option Text
base_of pull_request p = p.pull_request.base_sha
base_of push p = p.before

abbrev pub identity_of : EventType → Payload → Repository → Identity
identity_of event p r = record {
  repository_id = r.id;
  event_type = event;
  reference_id = reference_of event p;
  commit_sha = head_of event p;
}
