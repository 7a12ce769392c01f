-- ===== src/Delivery/Classify.antt =====
-- From an HTTP error to the receipt: what `classifyCommentError` and `send` together make of a row.
use ai_pr_reviewer.Prelude.{
  ℕ, ◌+◌, ◌≤◌, ◌<◌, ◌≡◌, ◌≢◌, refl, ◌⊎◌, ◌↔◌, inl, inr, Bool-cases, ◌||◌, true, false, Option, none,
  some, arith, leb,
}
use ai_pr_reviewer.Store.{Text}
use ai_pr_reviewer.Review.Job.{same_number}
use ai_pr_reviewer.Delivery.Row.{
  CommentDelivery, DeliveryState, sending, is_sending, is_unknown, ready, unknown,
  delivery_window_ms, max_rate_limit_attempts, omit,
}
use ai_pr_reviewer.Delivery.Outcome.{
  Failure, HttpError, is_status, is_rejecting, is_rate_limited, retry_time, classify_comment_error,
  receipt, backoff_until, settle, is_claimed_by,
}

not-rejecting :
    (status : Option ℕ)
    → is_rejecting status ≡ false
    → (is_status 403 status ≡ false) × (is_status 422 status ≡ false)
not-rejecting none h = (refl, refl)
not-rejecting (some n) h = (ground arith, ground arith)

not-rate_limited :
    (e : HttpError)
    → is_rejecting e.status ≡ false
    → is_status 429 e.status ≡ false
    → is_rate_limited e ≡ false
unfolding is_rate_limited
not-rate_limited e h t = ground (arith, not-rejecting e.status h)

-- GitHub did not say that it created no comment: there is no status, or it is none of these seven.
abbrev pub IsInconclusive : Option ℕ → Type 0
IsInconclusive none = Unit
IsInconclusive (some n) =
    (n ≢ 400) × (n ≢ 401) × (n ≢ 403) × (n ≢ 404) × (n ≢ 410) × (n ≢ 422) × (n ≢ 429)

-- The worker with this token still holds the row, with the payload that it sent.
pub record IsHeld (token : ℕ) (hash : Option ℕ) (r : CommentDelivery) : Type 0 where
  pub by_token : r.claim_token ≡ some token
  pub payload : r.payload_hash ≡ hash
  pub undecided : (r.state ≡ sending) ⊎ (r.state ≡ unknown)

same_number_refl : (a : Option ℕ) → same_number a a ≡ true
same_number_refl none = refl
same_number_refl (some n) = ground arith

undecided-open :
    (s : DeliveryState) → (s ≡ sending) ⊎ (s ≡ unknown) → (is_sending s || is_unknown s) ≡ true
undecided-open s (inl h) = rw h refl
undecided-open s (inr h) = rw h refl

held-claimed :
    (token : ℕ) (hash : Option ℕ) (r : CommentDelivery)
    → IsHeld token hash r
    → is_claimed_by token hash r ≡ true
unfolding is_claimed_by
held-claimed token hash r h =
    let token_same : same_number r.claim_token (some token) ≡ true =
      rw h.by_token (same_number_refl (some token)) in
    let hash_same : same_number r.payload_hash hash ≡ true = rw h.payload (same_number_refl hash) in
    ground (arith, token_same, hash_same, undecided-open r.state h.undecided)

unclear-statuses :
    (status : Option ℕ)
    → IsInconclusive status
    → (is_rejecting status ≡ false) × (is_status 429 status ≡ false)
unclear-statuses none h = (refl, refl)
unclear-statuses (some n) h = (ground arith, ground arith)

statuses-IsInconclusive :
    (status : Option ℕ)
    → is_rejecting status ≡ false
    → is_status 429 status ≡ false
    → IsInconclusive status
statuses-IsInconclusive none h t = tt
statuses-IsInconclusive (some n) h t = ground arith

limited-clear : (e : HttpError) → is_rate_limited e ≡ true → IsInconclusive e.status → ⊥
unfolding is_rate_limited
limited-clear e limited h =
    let (no_reject, no_limit) = unclear-statuses e.status h in
    ground (arith, not-rejecting e.status no_reject)

unlimited : (e : HttpError) → is_rate_limited e ≡ false → is_status 429 e.status ≡ false
unfolding is_rate_limited
unlimited e h = ground arith

-- The receipt for an error makes the row UNKNOWN exactly where the error is unclear.
receipt-unknown :
    (created now attempts : ℕ) (message : Failure → Option ℕ → Text) (e : HttpError)
    (r : CommentDelivery)
    → ((receipt created now attempts (classify_comment_error now message e) r).state ≡ unknown)
      ↔ IsInconclusive e.status
unfolding receipt classify_comment_error
receipt-unknown created now attempts message e r = elim (Bool-cases (is_rate_limited e)) [
  | inl limited ↦ elim (Bool-cases (leb max_rate_limit_attempts attempts)) [
    | inl spent ↦
        rw (limited, spent, classify_comment_error, omit)
          (λ h. cc, λ h. elim (limited-clear e limited h) [ ])
    | inr left ↦
        rw (limited, left, classify_comment_error)
          (λ h. cc, λ h. elim (limited-clear e limited h) [ ])
  ]
  | inr free ↦ elim (Bool-cases (is_rejecting e.status)) [
    | inl refused ↦
        rw (free, refused, classify_comment_error)
          (λ h. cc, λ h. cc (refused, (unclear-statuses e.status h).0))
    | inr tolerated ↦
        rw (free, tolerated, classify_comment_error)
          (λ h. statuses-IsInconclusive e.status tolerated (unlimited e free), λ h. refl)
  ]
]

-- Where the worker still holds the row, the receipt for an HTTP error makes it UNKNOWN exactly where the
-- error has no status or none of 400, 401, 403, 404, 410, 422 and 429; every other error settles it
-- otherwise.
pub unclear_error_is_unknown :
    (created now attempts token : ℕ) (hash : Option ℕ) (message : Failure → Option ℕ → Text)
    (e : HttpError) (r : CommentDelivery)
    → IsHeld token hash r
    → ((settle created now attempts token hash (classify_comment_error now message e) r).state
        ≡ unknown)
      ↔ IsInconclusive e.status
unfolding settle
unclear_error_is_unknown created now attempts token hash message e r held =
    rw (held-claimed token hash r held, settle) (receipt-unknown created now attempts message e r)

-- A rate limit before the third attempt frees the claim and makes the row ready again, for a time that
-- is within the delivery window and, unless the window ends sooner, at least a minute away.
pub rate_limit_backs_off :
    (created now attempts : ℕ) (message : Failure → Option ℕ → Text) (e : HttpError)
    (r : CommentDelivery)
    → is_rate_limited e ≡ true
    → attempts < max_rate_limit_attempts
    → let r' = receipt created now attempts (classify_comment_error now message e) r in
      (r'.state ≡ ready)
      × (r'.claim_token ≡ none)
      × ((at : ℕ) × (r'.next_attempt_at ≡ some at)
          × (at ≤ created + delivery_window_ms)
          × ((now + 60000 ≤ at) ⊎ (at ≡ created + delivery_window_ms)))
unfolding receipt classify_comment_error backoff_until
rate_limit_backs_off created now attempts message e r h few =
    let early : leb max_rate_limit_attempts attempts ≡ false = ground arith in
    rw (h, early, classify_comment_error)
      (
        refl,
        refl,
        (backoff_until created now (some (retry_time now e)), refl, ground arith, ground arith),
      )
