-- ===== src/Delivery/Tests.antt =====
-- Runs of comment delivery, and its theorems at concrete rows.
use ai_pr_reviewer.Prelude.{
  ◌+◌, ◌≤◌, ◌≡◌, refl, ◌↔◌, inl, true, false, not, ◌||◌, none, some, [], ◌∷◌, all,
}
use ai_pr_reviewer.Delivery.Row.{
  CommentDelivery, is_inline, is_terminal, inline, ready, sending, delivered, unknown,
  location_unverified, claim_row, may_post, expire_claim, disconnect_row,
}
use ai_pr_reviewer.Delivery.Outcome.{
  CommentPostResult, retryable_post, rejected_post, HttpError, numeric, classify_comment_error,
  is_claimed_by, receipt, settle,
}
use ai_pr_reviewer.Delivery.Report.{
  comment_delivery_report, report_conserves, needs_location_summary, count_state,
}
use ai_pr_reviewer.Delivery.Race.{
  claimed, posting, answered, gone, Race, claims, starts, answers, settles, expires, disconnects,
  Reach, here, next,
}
use ai_pr_reviewer.Prelude.{ℕ, Option, ◌⊎◌, arith}
use ai_pr_reviewer.Store.{Text}
use ai_pr_reviewer.Delivery.Row.{delivery_window_ms}
use ai_pr_reviewer.Delivery.Outcome.{Failure, is_rate_limited}
use ai_pr_reviewer.Delivery.Classify.{
  IsInconclusive, unclear_error_is_unknown, rate_limit_backs_off,
}
use ai_pr_reviewer.Delivery.Once.{posted_at_most_once}
use ai_pr_reviewer.Delivery.Final.{IsSame, terminal_delivery_is_final}

abbrev ready_row : CommentDelivery
ready_row = record {
  id = 7;
  kind = inline;
  finding_key = some 70;
  path = some 1;
  line = some 12;
  payload = some 500;
  payload_hash = some 501;
  state = ready;
  attempts = 0;
  next_attempt_at = none;
  claim_token = none;
  claim_expires_at = none;
  github_comment_id = none;
  github_url = none;
  reason = none;
}

abbrev delivered_row : CommentDelivery
delivered_row = record ready_row { state = delivered; github_comment_id = some (49 ∷ []) }

-- GitHub's answer with the comment id "42", and one with a rate limit.
abbrev created_answer : CommentPostResult
created_answer = record {
  ok = true;
  error = none;
  id = some (52 ∷ 50 ∷ []);
  url = none;
  status = some 201;
  failure = none;
  retry_at = none;
}

abbrev limited_answer : CommentPostResult
limited_answer = record {
  ok = false;
  error = none;
  id = none;
  url = none;
  status = some 429;
  failure = some retryable_post;
  retry_at = some 5000;
}

abbrev start_race : Race
start_race = record { row = ready_row; workers = []; next_token = 0; created = 0 }

abbrev race_claimed : Race
race_claimed = record start_race {
  row = (claim_row 1000 0 (some 501) ready_row).0;
  workers = claimed 0 (some 501) ∷ [];
  next_token = 0 + 1;
}

abbrev race_posting : Race
race_posting = record race_claimed { workers = posting 0 (some 501) race_claimed.row.attempts ∷ [] }

abbrev race_answered : Race
race_answered = record race_posting {
  workers = answered 0 (some 501) race_claimed.row.attempts true created_answer ∷ [];
  created = 0 + 1;
}

-- The claim runs out while the answer is under way, and the late answer is still written down.
abbrev race_expired : Race
race_expired = record race_answered { row = expire_claim 40000 race_answered.row }

abbrev race_settled : Race
race_settled = record race_expired {
  row = settle 0 41000 race_claimed.row.attempts 0 (some 501) created_answer race_expired.row;
  workers = gone ∷ [];
}

late_answer : Reach start_race race_settled
unfolding claim_row may_post
late_answer =
    next
      (next
        (next
          (next (next here (claims 1000 (some 501) refl refl))
            (starts 0 1500 0 (some 501) refl refl refl))
          (answers 0 0 (some 501) race_claimed.row.attempts true created_answer refl (λ e. cc)
            refl))
        (expires 40000 refl))
      (settles 0 0 41000 0 (some 501) race_claimed.row.attempts true created_answer refl refl)

late_answer_delivered : (race_settled.row.state ≡ delivered) × (race_expired.row.state ≡ unknown)
unfolding claim_row expire_claim settle receipt is_claimed_by
late_answer_delivered = (refl, refl)

posted_at_most_once_example : race_settled.created ≤ 1
posted_at_most_once_example = posted_at_most_once refl refl late_answer

abbrev final_race : Race
final_race = record start_race { row = delivered_row }

terminal_delivery_is_final_example : IsSame delivered_row (disconnect_row delivered_row)
terminal_delivery_is_final_example =
    terminal_delivery_is_final {u = final_race}
      {v = record final_race { row = disconnect_row delivered_row }} (next here (disconnects refl))
      refl

abbrev limited_error : HttpError
limited_error = record {
  status = some 403;
  retry_after = some (numeric 120);
  rate_limit_remaining = none;
  rate_limit_reset = none;
  mentions_limit = false;
}

limited_is_retryable :
    ((classify_comment_error 1000 (λ f s. []) limited_error).failure ≡ some retryable_post)
    × ((classify_comment_error 1000 (λ f s. []) limited_error).retry_at ≡ some 121000)
unfolding classify_comment_error
limited_is_retryable = (refl, refl)

plain_403_is_rejected :
    (classify_comment_error 1000 (λ f s. []) (record limited_error { retry_after = none })).failure
    ≡ some rejected_post
unfolding classify_comment_error
plain_403_is_rejected = refl

report_counts :
    ((comment_delivery_report (delivered_row ∷ ready_row ∷ [])).delivered ≡ 1)
    × ((comment_delivery_report (delivered_row ∷ ready_row ∷ [])).pending ≡ 1)
unfolding comment_delivery_report count_state
report_counts = (refl, refl)

unverified_needs_summary :
    needs_location_summary (record ready_row { reason = some location_unverified } ∷ []) ≡ true
unfolding needs_location_summary
unverified_needs_summary = refl

report_conserves_example :
    let report = comment_delivery_report (delivered_row ∷ ready_row ∷ []) in
    (report.delivered + report.rejected + report.omitted + report.pending + report.unconfirmed
      ≡ report.expected)
    × ((report.pending + report.unconfirmed ≡ 0) ↔ (
        all (λ r. not (is_inline r.kind) || is_terminal r.state) (delivered_row ∷ ready_row ∷ [])
        ≡ true))
report_conserves_example = report_conserves (delivered_row ∷ ready_row ∷ [])

abbrev no_message : Failure → Option ℕ → Text
no_message f status = []

abbrev bad_gateway : HttpError
bad_gateway = record {
  status = some 502;
  retry_after = none;
  rate_limit_remaining = none;
  rate_limit_reset = none;
  mentions_limit = false;
}

abbrev too_many : HttpError
too_many = record bad_gateway { status = some 429 }

abbrev held_row : CommentDelivery
held_row = record ready_row { state = sending; claim_token = some 9 }

unclear_error_is_unknown_example :
    ((settle 0 1000 1 9
        (some 501)
        (classify_comment_error 1000 no_message bad_gateway)
        held_row).state
      ≡ unknown)
    ↔ IsInconclusive bad_gateway.status
unclear_error_is_unknown_example =
    unclear_error_is_unknown 0 1000 1 9 (some 501) no_message bad_gateway held_row
      (record { by_token = refl; payload = refl; undecided = inl refl })

rate_limit_backs_off_example :
    let r' = receipt 0 1000 1 (classify_comment_error 1000 no_message too_many) ready_row in
    (r'.state ≡ ready)
    × (r'.claim_token ≡ none)
    × ((at : ℕ) × (r'.next_attempt_at ≡ some at)
        × (at ≤ 0 + delivery_window_ms)
        × ((1000 + 60000 ≤ at) ⊎ (at ≡ 0 + delivery_window_ms)))
rate_limit_backs_off_example =
    rate_limit_backs_off 0 1000 1 no_message too_many ready_row (unfold is_rate_limited in refl)
      (omega arith)
