-- ===== src/Delivery/Potential.antt =====
-- What a row, its claim and its workers may still create on GitHub, and what each write does to that.
use ai_pr_reviewer.Prelude.{
  ℕ, zero, suc, ◌+◌, ◌≤◌, ◌<◌, ◌≡◌, refl, subst, ◌≢◌, ◌⊎◌, inl, inr, Bool, true, false, not, Option,
  none, some, List, [], ◌∷◌, arith, leb, Bool-cases, get_elem?, total, All,
}
use ai_pr_reviewer.Review.Job.{same_number}
use ai_pr_reviewer.Delivery.Row.{
  CommentDelivery, Match, Reason, is_unsent, expire_claim, reconcile_row, omit_unsent, omit_ready,
  upgrade_payload, ready_summary, disconnect_row,
}
use ai_pr_reviewer.Delivery.Outcome.{
  CommentPostResult, retryable_post, is_failure, has_comment_id, is_claimed_by, receipt, settle,
}
use ai_pr_reviewer.Delivery.Race.{
  Worker, claimed, posting, answered, gone, Race, bit, set_worker, IsHonest,
}

-- How many comments a worker may yet bring about, under the token that the row holds.
abbrev pub pot : Option ℕ → Worker → ℕ
pot token (claimed t hash) = bit (same_number token (some t))
pot token (posting t hash attempts) = 1
pot token (answered t hash attempts did result) = bit (not did)
pot token gone = 0

-- Comments that exist, and those that may yet come.
unfoldable pub potential : Race → ℕ
potential u = u.created + total (pot u.row.claim_token) u.workers

abbrev pub IsFresh : ℕ → Worker → Type 0
IsFresh n (claimed t hash) = t < n
IsFresh n (posting t hash attempts) = Unit
IsFresh n (answered t hash attempts did result) = Unit
IsFresh n gone = Unit

abbrev pub IsTrue : Worker → Type 0
IsTrue (answered t hash attempts did result) = IsHonest did result
IsTrue (claimed t hash) = Unit
IsTrue (posting t hash attempts) = Unit
IsTrue gone = Unit

pub record Inv (u : Race) : Type 0 where
  pub one : potential u ≤ 1
  pub unsent : is_unsent u.row.state ≡ true → potential u ≡ 0
  pub fresh : All (IsFresh u.next_token) u.workers
  pub honest : All IsTrue u.workers

pub total-set_worker :
    (p : Worker → ℕ) (ws : List Worker) (i : ℕ) (w w' : Worker)
    → get_elem? ws i ≡ some w
    → total p (set_worker ws i w') + p w ≡ total p ws + p w'
total-set_worker p [] i w w' e = cc
total-set_worker p (x ∷ ws) zero w w' e = ground arith
total-set_worker p (x ∷ ws) (suc i) w w' e = omega (arith, total-set_worker p ws i w w' e)

module _ (P : Worker → Type 0) where
  pub All-set_worker :
      (ws : List Worker) (i : ℕ) (w : Worker) → All P ws → P w → All P (set_worker ws i w)
  All-set_worker [] i w h p = h
  All-set_worker (x ∷ ws) zero w h p = (p, h.1)
  All-set_worker (x ∷ ws) (suc i) w h p = (h.0, All-set_worker ws i w h.1 p)

  pub All-get_worker :
      (ws : List Worker) (i : ℕ) (w : Worker) → All P ws → get_elem? ws i ≡ some w → P w
  All-get_worker [] i w h e = absurd (none-ne-some w e)
    where
      none-ne-some : (w : Worker) → none ≢ some w
      none-ne-some w h = cc
  All-get_worker (x ∷ ws) zero w h e = subst P (cc e) h.0
  All-get_worker (x ∷ ws) (suc i) w h e = All-get_worker ws i w h.1 e

-- A fresh token is held by no claim.
pub pot-fresh : (n : ℕ) (token : Option ℕ) (w : Worker) → IsFresh n w → pot (some n) w ≤ pot token w
pot-fresh n token (claimed t hash) h = ground arith
pot-fresh n token _ h = omega arith

pub total-pot_fresh :
    (n : ℕ) (token : Option ℕ) (ws : List Worker)
    → All (IsFresh n) ws
    → total (pot (some n)) ws ≤ total (pot token) ws
total-pot_fresh n token [] h = omega arith
total-pot_fresh n token (w ∷ ws) h =
    omega (arith, pot-fresh n token w h.0, total-pot_fresh n token ws h.1)

pub pot-none : (token : Option ℕ) (w : Worker) → pot none w ≤ pot token w
pot-none token (claimed t hash) = ground arith
pot-none token _ = omega arith

pub total-pot-none :
    (token : Option ℕ) (ws : List Worker) → total (pot none) ws ≤ total (pot token) ws
total-pot-none token [] = omega arith
total-pot-none token (w ∷ ws) = omega (arith, pot-none token w, total-pot-none token ws)

pub IsFresh-mono : (n : ℕ) (w : Worker) → IsFresh n w → IsFresh (n + 1) w
IsFresh-mono n (claimed t hash) h = omega arith
IsFresh-mono n (posting t hash attempts) h = tt
IsFresh-mono n (answered t hash attempts did result) h = tt
IsFresh-mono n gone h = tt

pub All-IsFresh_mono : (n : ℕ) (ws : List Worker) → All (IsFresh n) ws → All (IsFresh (n + 1)) ws
All-IsFresh_mono n [] h = h
All-IsFresh_mono n (w ∷ ws) h = (IsFresh-mono n w h.0, All-IsFresh_mono n ws h.1)

-- A write that keeps the claim and makes no row sendable again.
pub record IsTame (r r' : CommentDelivery) : Type 0 where
  pub token : r'.claim_token ≡ r.claim_token
  pub state : is_unsent r'.state ≡ true → is_unsent r.state ≡ true

pub upgrade-IsTame :
    (hash : Option ℕ) (b h : ℕ) (r : CommentDelivery) → IsTame r (upgrade_payload hash b h r).0
unfolding upgrade_payload
upgrade-IsTame hash b h r = ground arith

pub expire-IsTame : (now : ℕ) (r : CommentDelivery) → IsTame r (expire_claim now r)
unfolding expire_claim
expire-IsTame now r = ground arith

pub reconcile-IsTame :
    (hash : Option ℕ) (complete : Bool) (ms : List Match) (r : CommentDelivery)
    → IsTame r (reconcile_row hash complete ms r)
unfolding reconcile_row
reconcile-IsTame hash complete [] r = ground arith
reconcile-IsTame hash complete (m ∷ []) r = ground arith
reconcile-IsTame hash complete (m ∷ n ∷ ms) r = ground arith

pub omit_unsent-IsTame : (reason : Reason) (r : CommentDelivery) → IsTame r (omit_unsent reason r)
unfolding omit_unsent
omit_unsent-IsTame reason r = ground arith

pub omit_ready-IsTame : (reason : Reason) (r : CommentDelivery) → IsTame r (omit_ready reason r)
unfolding omit_ready
omit_ready-IsTame reason r = ground arith

pub ready_summary-IsTame : (b h : ℕ) (r : CommentDelivery) → IsTame r (ready_summary b h r)
unfolding ready_summary
ready_summary-IsTame b h r = ground arith

pub disconnect-IsTame : (r : CommentDelivery) → IsTame r (disconnect_row r)
unfolding disconnect_row
disconnect-IsTame r = ground arith

-- A receipt makes a row sendable again only after a rate limit, and then takes the claim off it.
pub receipt-IsTame :
    (created_at now attempts : ℕ) (result : CommentPostResult) (r : CommentDelivery)
    → is_failure retryable_post result.failure ≡ false
    → IsTame r (receipt created_at now attempts result r)
unfolding receipt
receipt-IsTame created_at now attempts result r h = ground arith

pub receipt-id_IsTame :
    (created_at now attempts : ℕ) (result : CommentPostResult) (r : CommentDelivery)
    → has_comment_id result ≡ true
    → IsTame r (receipt created_at now attempts result r)
unfolding receipt
receipt-id_IsTame created_at now attempts result r h = rw (h, receipt) (ground arith)

abbrev pub Frees : CommentPostResult → CommentDelivery → Type 0
Frees result r' = (is_failure retryable_post result.failure ≡ true) × (r'.claim_token ≡ none)

pub receipt-retry :
    (created_at now attempts : ℕ) (result : CommentPostResult) (r : CommentDelivery)
    → is_failure retryable_post result.failure ≡ true
    → has_comment_id result ≡ false
    → IsTame r (receipt created_at now attempts result r)
      ⊎ Frees result (receipt created_at now attempts result r)
unfolding receipt
receipt-retry created_at now attempts result r h no_id = elim (Bool-cases (leb 3 attempts)) [
  | inl spent ↦ inl (ground arith)
  | inr again ↦ inr (h, ground arith)
]

pub settle-cases :
    (created_at now attempts token : ℕ) (hash : Option ℕ) (result : CommentPostResult)
    (r : CommentDelivery)
    → IsTame r (settle created_at now attempts token hash result r)
      ⊎ Frees result (settle created_at now attempts token hash result r)
unfolding settle
settle-cases created_at now attempts token hash result r =
    elim (Bool-cases (is_claimed_by token hash r)) [
      | inr other ↦ inl (rw (other, settle) (record { token = refl; state = λ h. h }))
      | inl mine ↦ elim (Bool-cases (is_failure retryable_post result.failure)) [
        | inr firm ↦ inl (rw (mine, settle) (receipt-IsTame created_at now attempts result r firm))
        | inl limited ↦ elim (Bool-cases (has_comment_id result)) [
          | inl posted ↦
              inl (rw (mine, settle) (receipt-id_IsTame created_at now attempts result r posted))
          | inr no_id ↦
              rw (mine, settle) (receipt-retry created_at now attempts result r limited no_id)
        ]
      ]
    ]
