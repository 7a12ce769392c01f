-- ===== src/Delivery/Row.antt =====
-- A row of `comment_deliveries` and the conditional writes that services/comment-delivery.service.ts
-- makes to it. Each `updateMany` is a function on one row; a row that its `where` does not match stays.
-- Texts that are only compared (paths, hashes, tokens, sealed bodies) are numbers.
use ai_pr_reviewer.Prelude.{
  ℕ, ◌+◌, ◌*◌, Bool, true, false, ◌&&◌, ◌||◌, Option, none, some, List, [], ◌∷◌, ltb, leb,
  if◌then◌else◌,
}
use ai_pr_reviewer.Store.{Text}
use ai_pr_reviewer.Review.Job.{same_number}

-- `enum CommentDeliveryKind`
pub data Kind : Type 0 where
  inline summary : Kind

-- `enum CommentDeliveryState`
pub data DeliveryState : Type 0 where
  waiting ready sending delivered rejected unknown omitted : DeliveryState

-- The values of the column `reason` that the code writes; the last carries what GitHub said.
pub data Reason : Type 0 where
  location_unverified pr_head_changed delivery_window_expired delivery_unconfirmed : Reason
  multiple_comment_matches reconciliation_incomplete github_rate_limited : Reason
  rate_limit_attempts_exhausted repository_disconnected github_rejected : Reason
  github_error : Text → Reason

pub record CommentDelivery : Type 0 where
  pub id : ℕ
  pub kind : Kind
  pub finding_key : Option ℕ
  pub path : Option ℕ
  pub line : Option ℕ
  pub payload : Option ℕ
  pub payload_hash : Option ℕ
  pub state : DeliveryState
  pub attempts : ℕ
  pub next_attempt_at : Option ℕ
  pub claim_token : Option ℕ
  pub claim_expires_at : Option ℕ
  pub github_comment_id : Option Text
  pub github_url : Option Text
  pub reason : Option Reason

-- Times are in milliseconds.
abbrev pub lease_ms : ℕ
lease_ms = 30000

abbrev pub delivery_window_ms : ℕ
delivery_window_ms = 24 * 60 * 60 * 1000

abbrev pub max_rate_limit_attempts : ℕ
max_rate_limit_attempts = 3

abbrev pub is_inline : Kind → Bool
is_inline inline = true
is_inline summary = false

abbrev pub is_summary : Kind → Bool
is_summary summary = true
is_summary inline = false

abbrev pub is_ready : DeliveryState → Bool
is_ready ready = true
is_ready _ = false

abbrev pub is_waiting : DeliveryState → Bool
is_waiting waiting = true
is_waiting _ = false

abbrev pub is_sending : DeliveryState → Bool
is_sending sending = true
is_sending _ = false

abbrev pub is_unknown : DeliveryState → Bool
is_unknown unknown = true
is_unknown _ = false

-- `DELIVERY_TERMINAL_STATES`
abbrev pub is_terminal : DeliveryState → Bool
is_terminal delivered = true
is_terminal rejected = true
is_terminal omitted = true
is_terminal _ = false

-- `REVIEW_DELIVERY_SETTLED_STATES`
abbrev pub is_settled : DeliveryState → Bool
is_settled s = is_terminal s || is_unknown s

-- `{ in: ['READY', 'WAITING'] }`
abbrev pub is_unsent : DeliveryState → Bool
is_unsent s = is_ready s || is_waiting s

abbrev pub omit : Reason → CommentDelivery → CommentDelivery
omit reason r = record r { state = omitted; reason = some reason }

-- An expired send claim leaves the outcome unknown.
unfoldable pub expire_claim : ℕ → CommentDelivery → CommentDelivery
expire_claim now r = elim r.claim_expires_at [
  | none ↦ r
  | some at ↦
      if is_sending r.state && leb at now
      then record r { state = unknown; reason = some delivery_unconfirmed }
      else r
]

-- One comment of GitHub's listing that carries the row's marker, author and place.
pub record Match : Type 0 where
  pub id : Text
  pub url : Text

abbrev pub unmatched_reason : Bool → List Match → Reason
unmatched_reason complete [] = if complete then delivery_unconfirmed else reconciliation_incomplete
unmatched_reason complete (m ∷ ms) = multiple_comment_matches

-- `hash` is the payload hash of the row as it was read before the listing.
unfoldable pub reconcile_row : Option ℕ → Bool → List Match → CommentDelivery → CommentDelivery
reconcile_row hash complete (m ∷ []) r =
    if is_unknown r.state && same_number r.payload_hash hash
    then record r {
      state = delivered;
      github_comment_id = some m.id;
      github_url = some m.url;
      reason = none;
    }
    else r
reconcile_row hash complete [] r =
    if is_unknown r.state then record r { reason = some (unmatched_reason complete []) } else r
reconcile_row hash complete (m ∷ n ∷ ms) r =
    if is_unknown r.state
    then record r { reason = some (unmatched_reason complete (m ∷ n ∷ ms)) }
    else r

-- The plan-wide omissions: the head of the pull request moved, or the window has passed.
unfoldable pub omit_unsent : Reason → CommentDelivery → CommentDelivery
omit_unsent reason r = if is_unsent r.state then omit reason r else r

-- The omissions of one row in `send`.
unfoldable pub omit_ready : Reason → CommentDelivery → CommentDelivery
omit_ready reason r = if is_ready r.state then omit reason r else r

-- New bytes for a row that has not been sent.
unfoldable pub upgrade_payload : Option ℕ → ℕ → ℕ → CommentDelivery → CommentDelivery × Bool
upgrade_payload hash body body_hash r =
    if is_ready r.state && same_number r.payload_hash hash
    then (record r { payload = some body; payload_hash = some body_hash }, true)
    else (r, false)

-- The send claim; the Boolean is `claimed.count`.
unfoldable pub claim_row : ℕ → ℕ → Option ℕ → CommentDelivery → CommentDelivery × Bool
claim_row now token hash r =
    if is_ready r.state && same_number r.payload_hash hash
    then (
      record r {
        state = sending;
        claim_token = some token;
        claim_expires_at = some (now + lease_ms);
        attempts = r.attempts + 1;
      },
      true,
    )
    else (r, false)

abbrev pub expires_after : Option ℕ → ℕ → Bool
expires_after none now = false
expires_after (some at) now = ltb now at

-- The second look at the claim, just before the post.
unfoldable pub may_post : ℕ → ℕ → CommentDelivery → Bool
may_post now token r =
    is_sending r.state
    && (same_number r.claim_token (some token) && expires_after r.claim_expires_at now)

-- The summary slot gets its body once the inline comments are settled.
unfoldable pub ready_summary : ℕ → ℕ → CommentDelivery → CommentDelivery
ready_summary body body_hash r =
    if is_waiting r.state
    then record r { state = ready; payload = some body; payload_hash = some body_hash }
    else r

-- `purgeRepositoryDeliveryPayloads`: the three writes to a row of a disconnected repository.
unfoldable pub disconnect_row : CommentDelivery → CommentDelivery
disconnect_row r =
    let stopped =
      if is_unsent r.state
      then omit repository_disconnected r
      else if is_sending r.state
      then record r { state = unknown; reason = some repository_disconnected }
      else r in
    record stopped { payload = none }
