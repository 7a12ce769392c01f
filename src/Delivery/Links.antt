-- ===== src/Delivery/Links.antt =====
-- What a worker knows of the attempts of its row, and that every other write leaves it.
use ai_pr_reviewer.Prelude.{
  ℕ, ◌≤◌, ◌<◌, ◌≡◌, sym, ◌∙◌, Bool, true, false, Option, some, List, [], ◌∷◌, arith, All,
}
use mathlib.Core.Bool.{false≢true}
use ai_pr_reviewer.Review.Job.{same_number}
use ai_pr_reviewer.Delivery.Row.{
  CommentDelivery, Match, Reason, is_unsent, expire_claim, reconcile_row, omit_unsent, omit_ready,
  upgrade_payload, ready_summary, disconnect_row, max_rate_limit_attempts,
}
use ai_pr_reviewer.Delivery.Race.{Worker, claimed, posting, answered, gone, Race}

-- A worker's token was handed out, and under the row's own token it knows the row's attempts.
abbrev pub Knows : ℕ → CommentDelivery → ℕ → ℕ → Type 0
Knows n r token attempts =
    (token < n) × (same_number r.claim_token (some token) ≡ true → attempts ≡ r.attempts)

abbrev pub IsLinked : ℕ → CommentDelivery → Worker → Type 0
IsLinked n r (claimed t hash) = t < n
IsLinked n r (posting t hash attempts) = Knows n r t attempts
IsLinked n r (answered t hash attempts did result) = Knows n r t attempts
IsLinked n r gone = Unit

-- The row has been claimed at most three times, and at most twice if it may be claimed again.
pub record IsBounded (u : Race) : Type 0 where
  pub most : u.row.attempts ≤ max_rate_limit_attempts
  pub again : is_unsent u.row.state ≡ true → u.row.attempts < max_rate_limit_attempts
  pub linked : All (IsLinked u.next_token u.row) u.workers

-- A write that keeps the claim and the attempts, and makes no row sendable again.
pub record IsTame (r r' : CommentDelivery) : Type 0 where
  pub token : r'.claim_token ≡ r.claim_token
  pub attempts : r'.attempts ≡ r.attempts
  pub state : is_unsent r'.state ≡ true → is_unsent r.state ≡ true

pub upgrade-IsTame :
    (hash : Option ℕ) (b h : ℕ) (r : CommentDelivery) → IsTame r (upgrade_payload hash b h r).0
unfolding upgrade_payload
upgrade-IsTame hash b h r = ground arith

pub expire-IsTame : (now : ℕ) (r : CommentDelivery) → IsTame r (expire_claim now r)
unfolding expire_claim
expire-IsTame now r = ground arith

pub reconcile-IsTame :
    (hash : Option ℕ) (complete : Bool) (ms : List Match) (r : CommentDelivery)
    → IsTame r (reconcile_row hash complete ms r)
unfolding reconcile_row
reconcile-IsTame hash complete [] r = ground arith
reconcile-IsTame hash complete (m ∷ []) r = ground arith
reconcile-IsTame hash complete (m ∷ n ∷ ms) r = ground arith

pub omit_unsent-IsTame : (reason : Reason) (r : CommentDelivery) → IsTame r (omit_unsent reason r)
unfolding omit_unsent
omit_unsent-IsTame reason r = ground arith

pub omit_ready-IsTame : (reason : Reason) (r : CommentDelivery) → IsTame r (omit_ready reason r)
unfolding omit_ready
omit_ready-IsTame reason r = ground arith

pub ready_summary-IsTame : (b h : ℕ) (r : CommentDelivery) → IsTame r (ready_summary b h r)
unfolding ready_summary
ready_summary-IsTame b h r = ground arith

pub disconnect-IsTame : (r : CommentDelivery) → IsTame r (disconnect_row r)
unfolding disconnect_row
disconnect-IsTame r = ground arith

pub IsLinked-tame :
    (n : ℕ) (r r' : CommentDelivery) (w : Worker) → IsTame r r' → IsLinked n r w → IsLinked n r' w
IsLinked-tame n r r' (claimed t hash) e h = h
IsLinked-tame n r r' (posting t hash attempts) e h =
    (h.0, λ same. h.1 (rw (← e.token) same) ∙ sym e.attempts)
IsLinked-tame n r r' (answered t hash attempts did result) e h =
    (h.0, λ same. h.1 (rw (← e.token) same) ∙ sym e.attempts)
IsLinked-tame n r r' gone e h = tt

-- Under a token that no worker holds, every worker is linked.
pub IsLinked-new :
    (n m : ℕ) (r r' : CommentDelivery) (w : Worker)
    → n ≤ m
    → ((t : ℕ) → t < n → same_number r'.claim_token (some t) ≡ false)
    → IsLinked n r w
    → IsLinked m r' w
IsLinked-new n m r r' (claimed t hash) le other h = omega arith
IsLinked-new n m r r' (posting t hash attempts) le other h =
    (omega arith, λ same. absurd (false≢true (sym (other t h.0) ∙ same)))
IsLinked-new n m r r' (answered t hash attempts did result) le other h =
    (omega arith, λ same. absurd (false≢true (sym (other t h.0) ∙ same)))
IsLinked-new n m r r' gone le other h = tt
