-- ===== src/Delivery/Once.antt =====
-- At most one comment for a row, by an invariant on what its workers may still create.
use ai_pr_reviewer.Prelude.{
  ℕ, ◌+◌, ◌≤◌, ◌≡◌, refl, sym, ap, subst, ◌∙◌, inl, inr, Bool, true, false, not, Option, some, [],
  ◌∷◌, arith, ◌==◌, ==_self, get_elem?, total,
}
use mathlib.Core.Bool.{false≢true}
use ai_pr_reviewer.Delivery.Row.{CommentDelivery, is_unsent, claim_row, may_post}
use ai_pr_reviewer.Delivery.Outcome.{CommentPostResult, settle}
use ai_pr_reviewer.Delivery.Race.{
  Worker, claimed, answered, gone, Race, bit, set_worker, Step, claims, starts, answers, settles,
  stops, dies, upgrades, expires, reconciles, omits, drops, readies, disconnects, Reach, here, next,
}
use ai_pr_reviewer.Delivery.Potential.{
  pot, potential, IsFresh, IsTrue, Inv, total-set_worker, All-set_worker, All-get_worker,
  total-pot_fresh, total-pot-none, All-IsFresh_mono, IsTame, upgrade-IsTame, expire-IsTame,
  reconcile-IsTame, omit_unsent-IsTame, omit_ready-IsTame, ready_summary-IsTame, disconnect-IsTame,
  settle-cases,
}

-- Every step keeps the invariant.
row-Inv : (u : Race) (r' : CommentDelivery) → Inv u → IsTame u.row r' → Inv (record u { row = r' })
unfolding potential
row-Inv u r' v t = record {
  one = rw t.token v.one;
  unsent = λ h. rw t.token (v.unsent (t.state h));
  fresh = v.fresh;
  honest = v.honest;
}

-- A worker moves on without raising what may yet come.
worker-Inv :
    (u : Race) (i : ℕ) (w w' : Worker) (n : ℕ)
    → get_elem? u.workers i ≡ some w
    → n + pot u.row.claim_token w' ≤ u.created + pot u.row.claim_token w
    → IsFresh u.next_token w'
    → IsTrue w'
    → Inv u
    → Inv (record u { workers = set_worker u.workers i w'; created = n })
unfolding potential
worker-Inv u i w w' n e le f h v =
    let moved = total-set_worker (pot u.row.claim_token) u.workers i w w' e in
    record {
      one = omega (arith, moved, v.one);
      unsent = λ unsent. omega (arith, moved, v.unsent unsent);
      fresh = All-set_worker (IsFresh u.next_token) u.workers i w' v.fresh f;
      honest = All-set_worker IsTrue u.workers i w' v.honest h;
    }

claim-row :
    (now n : ℕ) (hash : Option ℕ) (r : CommentDelivery)
    → (claim_row now n hash r).1 ≡ true
    → (is_unsent r.state ≡ true)
      × ((claim_row now n hash r).0.claim_token ≡ some n)
      × (is_unsent (claim_row now n hash r).0.state ≡ false)
unfolding claim_row
claim-row now n hash r won = ground arith

claim-Inv :
    (u : Race) (hash : Option ℕ) (r' : CommentDelivery)
    → Inv u
    → (is_unsent u.row.state ≡ true)
      × (r'.claim_token ≡ some u.next_token)
      × (is_unsent r'.state ≡ false)
    → Inv (record u {
      row = r';
      workers = claimed u.next_token hash ∷ u.workers;
      next_token = u.next_token + 1;
    })
unfolding potential
claim-Inv u hash r' v (was, token, now_sent) =
    let idle = v.unsent was in
    let few = total-pot_fresh u.next_token u.row.claim_token u.workers v.fresh in
    let self : bit (u.next_token == u.next_token) ≡ 1 = ap bit (==_self u.next_token) in
    record {
      one =
          subst (λ t. u.created + total (pot t) (claimed u.next_token hash ∷ u.workers) ≤ 1)
            (sym token) (omega (arith, idle, few, self));
      unsent = λ h. absurd (false≢true (sym now_sent ∙ h));
      fresh = (omega arith, All-IsFresh_mono u.next_token u.workers v.fresh);
      honest = (tt, v.honest);
    }

-- A worker that passes the second look holds the claim that the row carries.
may_post-pot :
    (now token : ℕ) (hash : Option ℕ) (r : CommentDelivery)
    → may_post now token r ≡ true
    → pot r.claim_token (claimed token hash) ≡ 1
unfolding may_post
may_post-pot now token hash r h = ground arith

settle-Inv :
    (u : Race) (i created_at now token : ℕ) (hash : Option ℕ) (attempts : ℕ) (did : Bool)
    (result : CommentPostResult)
    → get_elem? u.workers i ≡ some (answered token hash attempts did result)
    → Inv u
    → Inv (record u {
      row = settle created_at now attempts token hash result u.row;
      workers = set_worker u.workers i gone;
    })
unfolding potential
settle-Inv u i created_at now token hash attempts did result e v =
    let done =
      worker-Inv u i (answered token hash attempts did result) gone u.created e (omega arith) tt tt
        v in
    elim (settle-cases created_at now attempts token hash result u.row) [
      | inl tame ↦ row-Inv (record u { workers = set_worker u.workers i gone }) _ done tame
      | inr (limited, freed) ↦
          let honest = All-get_worker IsTrue u.workers i _ v.honest e limited in
          let w = answered token hash attempts did result in
          let moved = total-set_worker (pot u.row.claim_token) u.workers i w gone e in
          let fewer = total-pot-none u.row.claim_token (set_worker u.workers i gone) in
          let slot : bit (not did) ≡ 1 = rw honest refl in
          record {
            one = rw freed (omega (arith, moved, fewer, slot, v.one));
            unsent = λ h. rw freed (omega (arith, moved, fewer, slot, v.one));
            fresh = done.fresh;
            honest = done.honest;
          }
    ]

Step-Inv : {u v : Race} → Step u v → Inv u → Inv v
unfolding potential
Step-Inv {u} (claims now hash won same) h =
    subst Inv (sym same) (claim-Inv u hash _ h (claim-row now u.next_token hash u.row won))
Step-Inv {u} (starts i now token hash e may same) h =
    subst Inv (sym same) (
      worker-Inv u i _ _ u.created e (omega (arith, may_post-pot now token hash u.row may)) tt tt h)
Step-Inv {u} (answers i token hash attempts did result e honest same) h = subst Inv (sym same) (
    worker-Inv u i _ (answered token hash attempts did result) (u.created + bit did) e
      (ground arith) tt honest h)
Step-Inv {u} (settles i created_at now token hash attempts did result e same) h =
    subst Inv (sym same) (settle-Inv u i created_at now token hash attempts did result e h)
Step-Inv {u} (stops i w e same) h =
    subst Inv (sym same) (worker-Inv u i w gone u.created e (omega arith) tt tt h)
Step-Inv {u} (dies i token hash attempts did e same) h =
    subst Inv (sym same) (worker-Inv u i _ gone (u.created + bit did) e (ground arith) tt tt h)
Step-Inv {u} (upgrades hash b bh same) h =
    subst Inv (sym same) (row-Inv u _ h (upgrade-IsTame hash b bh u.row))
Step-Inv {u} (expires now same) h = subst Inv (sym same) (row-Inv u _ h (expire-IsTame now u.row))
Step-Inv {u} (reconciles hash complete ms same) h =
    subst Inv (sym same) (row-Inv u _ h (reconcile-IsTame hash complete ms u.row))
Step-Inv {u} (omits reason same) h =
    subst Inv (sym same) (row-Inv u _ h (omit_unsent-IsTame reason u.row))
Step-Inv {u} (drops reason same) h =
    subst Inv (sym same) (row-Inv u _ h (omit_ready-IsTame reason u.row))
Step-Inv {u} (readies b bh same) h =
    subst Inv (sym same) (row-Inv u _ h (ready_summary-IsTame b bh u.row))
Step-Inv {u} (disconnects same) h = subst Inv (sym same) (row-Inv u _ h (disconnect-IsTame u.row))

Reach-Inv : {u v : Race} → Reach u v → Inv u → Inv v
Reach-Inv here h = h
Reach-Inv (next r st) h = Step-Inv st (Reach-Inv r h)

-- From a row that has no worker and no comment, no interleaving of workers, crashes, expired claims,
-- reconciliations, retries after rate limits and disconnects makes GitHub create a second comment.
pub posted_at_most_once : {u v : Race} → u.created ≡ 0 → u.workers ≡ [] → Reach u v → v.created ≤ 1
unfolding potential
posted_at_most_once {u} {v} none_yet nobody r =
    let start : Inv u = record {
      one = rw (none_yet, nobody) (omega arith);
      unsent = λ h. rw (none_yet, nobody) (omega arith);
      fresh = rw nobody tt;
      honest = rw nobody tt;
    } in
    omega (arith, (Reach-Inv r start).one)
