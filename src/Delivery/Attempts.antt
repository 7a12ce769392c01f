-- ===== src/Delivery/Attempts.antt =====
-- The number of claims of a row: three at most.
use ai_pr_reviewer.Prelude.{ℕ, ◌<◌, ◌≡◌, Bool, none}
use ai_pr_reviewer.Delivery.Row.{CommentDelivery, max_rate_limit_attempts}
use ai_pr_reviewer.Delivery.Race.{Race}

-- A receipt is tame, or reopens a row that was claimed fewer than three times.
abbrev Reopens : ℕ → CommentDelivery → CommentDelivery → Type 0
Reopens attempts r r' =
    (r'.claim_token ≡ none) × (r'.attempts ≡ r.attempts) × (attempts < max_rate_limit_attempts)
