-- ===== src/Context/Reach.antt =====
-- `countChangedReach` of services/context-retrieval.service.ts. `seen` is a map of entries without hops,
-- so that its loop over the neighbours is that of the walk.
use ai_pr_reviewer.Prelude.{
  ℕ, zero, suc, ◌≤◌, ◌≡◌, refl, inl, inr, Bool, not, ◌&&◌, Option, none, some, List, [], ◌∷◌, ◌++◌,
  arith, leb, if◌then◌else◌, Bool-cases, any, length,
}
use mathlib.Core.List.{Memᴰ}
use ai_pr_reviewer.Store.{Text, text_eq}
use ai_pr_reviewer.Context.Walk.{Entry, Edges, neighbours, visit, all_targets}
use ai_pr_reviewer.Context.Turns.{work, visit-work, unseen-le}
use ai_pr_reviewer.Context.Known.{neighbours-known}

abbrev pub is_among : List Text → Text → Bool
is_among paths path = any (text_eq path) paths

abbrev pub max_seen : ℕ
max_seen = 400

-- A path that was shifted from the queue.
unfoldable pub reach_from :
    (Text → List Text)
    → List Text
    → Text
    → Text
    → List Entry × List Entry
    → ℕ
    → (List Entry × List Entry) × ℕ
reach_from near changed path current s reach =
    if not (text_eq current path) && is_among changed current
    then (s, suc reach)
    else (visit 0 (near current) s, reach)

unfoldable pub reach_queue :
    ℕ → (Text → List Text) → List Text → Text → (List Entry × List Entry) × ℕ → Option ℕ
reach_queue fuel near changed path ((seen, []), reach) = some reach
reach_queue zero near changed path ((seen, e ∷ queue), reach) = none
reach_queue (suc fuel) near changed path ((seen, (current, hop) ∷ queue), reach) =
    let rest =
      reach_queue fuel near changed path
        (reach_from near changed path current (seen, queue) reach) in
    if leb max_seen (length seen) then some reach else rest

unfoldable pub count_changed_reach : Text → List Text → Edges → Edges → Option ℕ
count_changed_reach path changed forward reverse =
    reach_queue (suc (length (all_targets forward ++ all_targets reverse)))
      (neighbours forward reverse) changed path (((path, 0) ∷ [], (path, 0) ∷ []), 0)

reach_from-work :
    (near : Text → List Text) (changed all : List Text) (path current : Text)
    (seen queue : List Entry) (reach : ℕ)
    → ((n : Text) → Memᴰ n (near current) → Memᴰ n all)
    → work all (reach_from near changed path current (seen, queue) reach).0 ≤ work all (seen, queue)
unfolding reach_from
reach_from-work near changed all path current seen queue reach known =
    elim (Bool-cases (not (text_eq current path) && is_among changed current)) [
      | inl stop ↦ rw stop (omega arith)
      | inr go ↦ rw go (visit-work all 0 (near current) seen queue known)
    ]

reach_queue-ends :
    (near : Text → List Text) (changed all : List Text) (path : Text)
    → ((x n : Text) → Memᴰ n (near x) → Memᴰ n all)
    → (fuel : ℕ) (seen queue : List Entry) (reach : ℕ) → work all (seen, queue) ≤ fuel
    → (r : ℕ) × (reach_queue fuel near changed path ((seen, queue), reach) ≡ some r)
unfolding reach_queue
reach_queue-ends near changed all path known fuel seen [] reach le = (reach, refl)
reach_queue-ends near changed all path known zero seen (e ∷ queue) reach le = absurd (omega arith)
reach_queue-ends near changed all path known (suc fuel) seen ((current, hop) ∷ queue) reach le =
    let next = reach_from near changed path current (seen, queue) reach in
    let a = reach_from-work near changed all path current seen queue reach (known current) in
    let later =
      reach_queue-ends near changed all path known fuel next.0.0 next.0.1 next.1 (omega arith) in
    elim (Bool-cases (leb max_seen (length seen))) [
      | inl many ↦ rw many (reach, refl)
      | inr few ↦ rw few later
    ]

-- The count ends within the turns it is given.
pub count_changed_reach-some :
    (path : Text) (changed : List Text) (forward reverse : Edges)
    → (r : ℕ) × (count_changed_reach path changed forward reverse ≡ some r)
unfolding count_changed_reach
count_changed_reach-some path changed forward reverse =
    let all = all_targets forward ++ all_targets reverse in
    let le = unseen-le all ((path, 0) ∷ []) in
    reach_queue-ends (neighbours forward reverse) changed all path
      (neighbours-known forward reverse) (suc (length all)) ((path, 0) ∷ []) ((path, 0) ∷ []) 0
      (omega arith)
