-- ===== src/Delivery/Report.antt =====
-- services/comment-delivery-report.ts
use ai_pr_reviewer.Prelude.{take, distinct}
use ai_pr_reviewer.Store.{Text, text_eq}
use ai_pr_reviewer.Prelude.{
  ℕ, ◌+◌, ◌≡◌, refl, ◌↔◌, Bool, true, false, not, ◌&&◌, ◌||◌, Option, none, some, List, [], ◌∷◌,
  arith, ◌==◌, if◌then◌else◌, length, any, all, keep, find_first,
}
use ai_pr_reviewer.Delivery.Row.{
  CommentDelivery, DeliveryState, waiting, ready, sending, delivered, rejected, unknown, omitted,
  Reason, location_unverified, pr_head_changed, delivery_window_expired, delivery_unconfirmed,
  multiple_comment_matches, reconciliation_incomplete, github_rate_limited,
  rate_limit_attempts_exhausted, repository_disconnected, github_rejected, github_error, is_inline,
  is_summary, is_terminal,
}

abbrev pub is_reason_unverified : Option Reason → Bool
is_reason_unverified (some location_unverified) = true
is_reason_unverified _ = false

abbrev pub is_reason_disconnected : Option Reason → Bool
is_reason_disconnected (some repository_disconnected) = true
is_reason_disconnected _ = false

unfoldable pub needs_location_summary : List CommentDelivery → Bool
needs_location_summary rows =
    any (λ r. is_inline r.kind && is_reason_unverified r.reason) rows
    && not (any (λ r. is_summary r.kind) rows)

abbrev pub state_code : DeliveryState → ℕ
state_code waiting = 0
state_code ready = 1
state_code sending = 2
state_code delivered = 3
state_code rejected = 4
state_code unknown = 5
state_code omitted = 6

abbrev pub state_eq : DeliveryState → DeliveryState → Bool
state_eq a b = state_code a == state_code b

-- `count(state)`
unfoldable pub count_state : DeliveryState → List CommentDelivery → ℕ
count_state state rows = length (keep (λ r. state_eq r.state state) rows)

abbrev pub inline_rows : List CommentDelivery → List CommentDelivery
inline_rows rows = keep (λ r. is_inline r.kind) rows

abbrev pub reason_code : Reason → ℕ
reason_code location_unverified = 0
reason_code pr_head_changed = 1
reason_code delivery_window_expired = 2
reason_code delivery_unconfirmed = 3
reason_code multiple_comment_matches = 4
reason_code reconciliation_incomplete = 5
reason_code github_rate_limited = 6
reason_code rate_limit_attempts_exhausted = 7
reason_code repository_disconnected = 8
reason_code github_rejected = 9
reason_code (github_error t) = 10

abbrev pub error_text : Reason → Text
error_text (github_error t) = t
error_text _ = []

abbrev pub reason_eq : Reason → Reason → Bool
reason_eq a b = (reason_code a == reason_code b) && text_eq (error_text a) (error_text b)

abbrev pub reasons_of : List CommentDelivery → List Reason
reasons_of [] = []
reasons_of (r ∷ rows) = elim r.reason [
  | none ↦ reasons_of rows
  | some reason ↦ reason ∷ reasons_of rows
]

abbrev pub starts_with : Text → Text → Bool
starts_with [] t = true
starts_with (c ∷ p) [] = false
starts_with (c ∷ p) (d ∷ t) = (c == d) && starts_with p t

-- `https://github.com/`
abbrev pub github_prefix : Text
github_prefix =
    104 ∷ 116 ∷ 116 ∷ 112 ∷ 115 ∷ 58 ∷ 47 ∷ 47 ∷ 103 ∷ 105 ∷ 116 ∷ 104 ∷ 117 ∷ 98 ∷ 46 ∷ 99 ∷ 111
    ∷ 109 ∷ 47 ∷ []

-- The GitHub addresses of the delivered rows.
abbrev pub links_of : List CommentDelivery → List Text
links_of [] = []
links_of (r ∷ rows) = elim r.github_url [
  | none ↦ links_of rows
  | some url ↦
      let rest = links_of rows in
      if state_eq r.state DeliveryState.delivered && starts_with github_prefix url
      then url ∷ rest
      else rest
]

-- The counts of the report, and the state of the summary row, `none` for DISABLED.
pub record DeliveryReport : Type 0 where
  pub expected : ℕ
  pub delivered : ℕ
  pub rejected : ℕ
  pub omitted : ℕ
  pub pending : ℕ
  pub unconfirmed : ℕ
  pub summary : Option DeliveryState
  pub repository_disconnected : Bool
  pub reasons : List Reason
  pub links : List Text

abbrev pub state_of : Option CommentDelivery → Option DeliveryState
state_of none = none
state_of (some r) = some r.state

unfoldable pub comment_delivery_report : List CommentDelivery → DeliveryReport
comment_delivery_report rows =
    let shown = inline_rows rows in
    record {
      expected = length shown;
      delivered = count_state DeliveryState.delivered shown;
      rejected = count_state DeliveryState.rejected shown;
      omitted = count_state DeliveryState.omitted shown;
      pending = count_state ready shown + count_state waiting shown + count_state sending shown;
      unconfirmed = count_state unknown shown;
      summary = state_of (find_first (λ r. is_summary r.kind) rows);
      repository_disconnected = any (λ r. is_reason_disconnected r.reason) rows;
      reasons = take 10 (distinct reason_eq [] (reasons_of rows));
      links = take 100 (links_of rows);
    }

-- Each row is counted once.
count_state-total :
    (rows : List CommentDelivery)
    → count_state delivered rows
        + count_state rejected rows
        + count_state omitted rows
        + (count_state ready rows + count_state waiting rows + count_state sending rows)
        + count_state unknown rows
      ≡ length rows
unfolding count_state
count_state-total [] = refl
count_state-total (r ∷ rows) = ground (arith, count_state-total rows)

open_rows :
    (rows : List CommentDelivery)
    → (count_state ready (inline_rows rows)
          + count_state waiting (inline_rows rows)
          + count_state sending (inline_rows rows)
          + count_state unknown (inline_rows rows)
        ≡ 0)
      ↔ (all (λ r. not (is_inline r.kind) || is_terminal r.state) rows ≡ true)
unfolding count_state
open_rows [] = ground arith
open_rows (r ∷ rows) = ground (arith, open_rows rows)

-- The report leaves no inline comment out and counts none twice; nothing is pending or unconfirmed
-- exactly when every inline comment is in a terminal state.
pub report_conserves :
    (rows : List CommentDelivery)
    → let report = comment_delivery_report rows in
      (report.delivered + report.rejected + report.omitted + report.pending + report.unconfirmed
        ≡ report.expected)
      × ((report.pending + report.unconfirmed ≡ 0)
          ↔ (all (λ r. not (is_inline r.kind) || is_terminal r.state) rows ≡ true))
unfolding comment_delivery_report
report_conserves rows = (count_state-total (inline_rows rows), open_rows rows)
