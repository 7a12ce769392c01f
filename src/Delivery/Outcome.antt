-- ===== src/Delivery/Outcome.antt =====
-- The outcome of a post, `classifyCommentError` of services/github.service.ts, and the receipt that
-- `send` of services/comment-delivery.service.ts writes for it.
use ai_pr_reviewer.Prelude.{
  ℕ, ◌+◌, ◌*◌, min, max, Bool, true, false, not, ◌&&◌, ◌||◌, Option, none, some, List, [], ◌∷◌, leb,
  ◌==◌, if◌then◌else◌, any, all,
}
use ai_pr_reviewer.Store.{Text}
use ai_pr_reviewer.Review.Job.{is_none, same_number}
use ai_pr_reviewer.Delivery.Row.{
  CommentDelivery, ready, delivered, rejected, unknown, Reason, github_rejected, github_error,
  rate_limit_attempts_exhausted, github_rate_limited, delivery_unconfirmed, is_sending, is_unknown,
  delivery_window_ms, max_rate_limit_attempts, omit,
}

pub data Failure : Type 0 where
  rejected_post retryable_post unknown_post : Failure

pub record CommentPostResult : Type 0 where
  pub ok : Bool
  pub error : Option Text
  pub id : Option Text
  pub url : Option Text
  pub status : Option ℕ
  pub failure : Option Failure
  pub retry_at : Option ℕ

-- A header that is read by `Number`: a whole number, or a text that is none.
pub data HeaderValue : Type 0 where
  numeric : ℕ → HeaderValue
  not_numeric : HeaderValue

-- What `classifyCommentError` reads of the error: the headers are not empty texts, and
-- `mentions_limit` is the regular expression on the message.
pub record HttpError : Type 0 where
  pub status : Option ℕ
  pub retry_after : Option HeaderValue
  pub rate_limit_remaining : Option HeaderValue
  pub rate_limit_reset : Option HeaderValue
  pub mentions_limit : Bool

abbrev pub is_zero_header : Option HeaderValue → Bool
is_zero_header (some (numeric n)) = n == 0
is_zero_header _ = false

abbrev pub header_number : Option HeaderValue → Option ℕ
header_number (some (numeric n)) = some n
header_number _ = none

abbrev pub is_status : ℕ → Option ℕ → Bool
is_status n none = false
is_status n (some m) = m == n

unfoldable pub is_rate_limited : HttpError → Bool
is_rate_limited e =
    is_status 429 e.status
    || ((is_status 403 e.status || is_status 422 e.status)
        && (not (is_none e.retry_after)
            || (is_zero_header e.rate_limit_remaining || e.mentions_limit)))

abbrev pub scaled : ℕ → ℕ → Option ℕ → ℕ
scaled now factor none = 0
scaled now factor (some n) = now + n * factor

unfoldable pub retry_time : ℕ → HttpError → ℕ
retry_time now e = max (now + 60000) (
    max (scaled now 1000 (header_number e.retry_after))
      (scaled 0 1000 (header_number e.rate_limit_reset)))

abbrev pub rejecting_statuses : List ℕ
rejecting_statuses = 400 ∷ 401 ∷ 403 ∷ 404 ∷ 410 ∷ 422 ∷ []

abbrev pub is_rejecting : Option ℕ → Bool
is_rejecting none = false
is_rejecting (some status) = any (λ n. n == status) rejecting_statuses

-- `message` is the text that the code gives with the class; only REJECTED is written to a row.
abbrev pub failed_post :
    (Failure → Option ℕ → Text) → Failure → Option ℕ → HttpError → CommentPostResult
failed_post message f at e = record {
  ok = false;
  error = some (message f e.status);
  id = none;
  url = none;
  status = e.status;
  failure = some f;
  retry_at = at;
}

unfoldable pub classify_comment_error :
    ℕ → (Failure → Option ℕ → Text) → HttpError → CommentPostResult
unfolding is_rate_limited retry_time
classify_comment_error now message e =
    if is_rate_limited e
    then failed_post message retryable_post (some (retry_time now e)) e
    else if is_rejecting e.status
    then failed_post message rejected_post none e
    else failed_post message unknown_post none e

-- `/^\d+$/`
abbrev pub is_digit : ℕ → Bool
is_digit c = leb 48 c && leb c 57

abbrev pub is_number_text : Text → Bool
is_number_text [] = false
is_number_text (c ∷ cs) = is_digit c && all is_digit cs

abbrev pub has_comment_id : CommentPostResult → Bool
has_comment_id result = elim result.id [ none ↦ false | some t ↦ result.ok && is_number_text t ]

abbrev pub is_failure : Failure → Option Failure → Bool
is_failure rejected_post (some rejected_post) = true
is_failure retryable_post (some retryable_post) = true
is_failure unknown_post (some unknown_post) = true
is_failure _ _ = false

-- `result.error ?? 'github-rejected'`
abbrev pub rejection_reason : Option Text → Reason
rejection_reason none = github_rejected
rejection_reason (some t) = github_error t

abbrev pub or_zero : Option ℕ → ℕ
or_zero none = 0
or_zero (some n) = n

-- The time of the next attempt, never past the delivery window.
unfoldable pub backoff_until : ℕ → ℕ → Option ℕ → ℕ
backoff_until created now retry_at =
    min (created + delivery_window_ms) (max (now + 60000) (or_zero retry_at))

-- The `where` of every receipt.
unfoldable pub is_claimed_by : ℕ → Option ℕ → CommentDelivery → Bool
is_claimed_by token hash r =
    same_number r.claim_token (some token)
    && (same_number r.payload_hash hash && (is_sending r.state || is_unknown r.state))

-- The receipt for one answer. `attempts` is what the claim's second look read.
unfoldable pub receipt : ℕ → ℕ → ℕ → CommentPostResult → CommentDelivery → CommentDelivery
receipt created now attempts result r =
    if has_comment_id result
    then record r {
      state = delivered;
      github_comment_id = result.id;
      github_url = result.url;
      reason = none;
    }
    else if is_failure rejected_post result.failure
    then record r { state = rejected; reason = some (rejection_reason result.error) }
    else if is_failure retryable_post result.failure
    then (if leb max_rate_limit_attempts attempts
        then omit rate_limit_attempts_exhausted r
        else record r {
          state = ready;
          reason = some github_rate_limited;
          next_attempt_at = some (backoff_until created now result.retry_at);
          claim_token = none;
          claim_expires_at = none;
        })
    else record r { state = unknown; reason = some delivery_unconfirmed }

unfoldable pub settle :
    ℕ → ℕ → ℕ → ℕ → Option ℕ → CommentPostResult → CommentDelivery → CommentDelivery
settle created now attempts token hash result r =
    if is_claimed_by token hash r then receipt created now attempts result r else r
