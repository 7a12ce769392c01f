-- ===== src/Delivery/Final.antt =====
-- Two bounds on a comment of services/comment-delivery.service.ts under the steps of Race: a finished
-- delivery stays, and a row is claimed at most three times.
use ai_pr_reviewer.Prelude.{ℕ, ◌≡◌, refl, ◌∙◌, Bool, true, Option, List, [], ◌∷◌, arith}
use ai_pr_reviewer.Delivery.Row.{
  CommentDelivery, Match, Reason, is_terminal, expire_claim, reconcile_row, omit_unsent, omit_ready,
  upgrade_payload, claim_row, ready_summary, disconnect_row,
}
use ai_pr_reviewer.Delivery.Outcome.{CommentPostResult, is_claimed_by, settle}
use ai_pr_reviewer.Delivery.Race.{
  Race, Step, claims, starts, answers, settles, stops, dies, upgrades, expires, reconciles, omits,
  drops, readies, disconnects, Reach, here, next,
}

-- What the dashboard and a later run read of a finished row.
abbrev pub IsSame : CommentDelivery → CommentDelivery → Type 0
IsSame r r' =
    (r'.state ≡ r.state)
    × (r'.github_comment_id ≡ r.github_comment_id)
    × (r'.github_url ≡ r.github_url)
    × (r'.reason ≡ r.reason)
    × (r'.attempts ≡ r.attempts)

module _ (r : CommentDelivery) (h : is_terminal r.state ≡ true) where
  claim-lost : (now n : ℕ) (hash : Option ℕ) → IsSame r (claim_row now n hash r).0
  unfolding claim_row
  claim-lost now n hash = ground arith

  settle-IsSame :
      (created_at now attempts token : ℕ) (hash : Option ℕ) (result : CommentPostResult)
      → IsSame r (settle created_at now attempts token hash result r)
  unfolding settle is_claimed_by
  settle-IsSame created_at now attempts token hash result = ground arith

  upgrade-IsSame : (hash : Option ℕ) (b bh : ℕ) → IsSame r (upgrade_payload hash b bh r).0
  unfolding upgrade_payload
  upgrade-IsSame hash b bh = ground arith

  expire-IsSame : (now : ℕ) → IsSame r (expire_claim now r)
  unfolding expire_claim
  expire-IsSame now = ground arith

  reconcile-IsSame :
      (hash : Option ℕ) (complete : Bool) (ms : List Match)
      → IsSame r (reconcile_row hash complete ms r)
  unfolding reconcile_row
  reconcile-IsSame hash complete [] = ground arith
  reconcile-IsSame hash complete (m ∷ []) = ground arith
  reconcile-IsSame hash complete (m ∷ n ∷ ms) = ground arith

  omit_unsent-IsSame : (reason : Reason) → IsSame r (omit_unsent reason r)
  unfolding omit_unsent
  omit_unsent-IsSame reason = ground arith

  omit_ready-IsSame : (reason : Reason) → IsSame r (omit_ready reason r)
  unfolding omit_ready
  omit_ready-IsSame reason = ground arith

  ready_summary-IsSame : (b bh : ℕ) → IsSame r (ready_summary b bh r)
  unfolding ready_summary
  ready_summary-IsSame b bh = ground arith

  disconnect-IsSame : IsSame r (disconnect_row r)
  unfolding disconnect_row
  disconnect-IsSame = ground arith

Step-IsSame : {u v : Race} → Step u v → is_terminal u.row.state ≡ true → IsSame u.row v.row
Step-IsSame {u} (claims now hash won same) h = rw same (claim-lost u.row h now u.next_token hash)
Step-IsSame (starts i now token hash e may same) h = rw same (refl, refl, refl, refl, refl)
Step-IsSame (answers i token hash attempts did result e honest same) h =
    rw same (refl, refl, refl, refl, refl)
Step-IsSame {u} (settles i created_at now token hash attempts did result e same) h =
    rw same (settle-IsSame u.row h created_at now attempts token hash result)
Step-IsSame (stops i w e same) h = rw same (refl, refl, refl, refl, refl)
Step-IsSame (dies i token hash attempts did e same) h = rw same (refl, refl, refl, refl, refl)
Step-IsSame {u} (upgrades hash b bh same) h = rw same (upgrade-IsSame u.row h hash b bh)
Step-IsSame {u} (expires now same) h = rw same (expire-IsSame u.row h now)
Step-IsSame {u} (reconciles hash complete ms same) h =
    rw same (reconcile-IsSame u.row h hash complete ms)
Step-IsSame {u} (omits reason same) h = rw same (omit_unsent-IsSame u.row h reason)
Step-IsSame {u} (drops reason same) h = rw same (omit_ready-IsSame u.row h reason)
Step-IsSame {u} (readies b bh same) h = rw same (ready_summary-IsSame u.row h b bh)
Step-IsSame {u} (disconnects same) h = rw same (disconnect-IsSame u.row h)

-- A delivery that was confirmed, rejected or omitted keeps its state, its GitHub receipt, its reason
-- and its number of attempts, whatever any worker, late answer or disconnect does.
pub terminal_delivery_is_final :
    {u v : Race} → Reach u v → is_terminal u.row.state ≡ true → IsSame u.row v.row
terminal_delivery_is_final here h = (refl, refl, refl, refl, refl)
terminal_delivery_is_final (next r st) h =
    let (s, i, l, m, a) = terminal_delivery_is_final r h in
    let (s', i', l', m', a') = Step-IsSame st (rw s h) in (s' ∙ s, i' ∙ i, l' ∙ l, m' ∙ m, a' ∙ a)
