-- ===== src/Context/Turns.antt =====
-- Why the loop of `walkBfs` ends: the queue and the paths without a distance shrink at every turn.
use ai_pr_reviewer.Prelude.{
  ℕ, suc, ◌+◌, ◌≤◌, ◌≡◌, refl, sym, inl, inr, Option, none, some, List, [], ◌∷◌, ◌++◌, arith, leb,
  Bool-cases, Option-cases, length, length-append, total,
}
use mathlib.Core.List.{Memᴰ}
use mathlib.Core.List.Memᴰ
use ai_pr_reviewer.Store.{Text}
use ai_pr_reviewer.Context.Walk.{Entry, hops_of, visit, walk_from}
use ai_pr_reviewer.Context.Reached.{keep-hops, new-hops}

abbrev pub count_none : Option ℕ → ℕ
count_none none = 1
count_none (some d) = 0

-- How many of these paths have no distance.
unfoldable pub unseen : List Text → List Entry → ℕ
unseen all distance = total (λ u. count_none (hops_of u distance)) all

set-count :
    (u : Text) (distance : List Entry) (e : Entry)
    → count_none (hops_of u (distance ++ e ∷ [])) ≤ count_none (hops_of u distance)
set-count u distance e = elim (Option-cases (hops_of u distance)) [
  | inl new ↦ elim (Option-cases (hops_of u (distance ++ e ∷ []))) [
    | inl still ↦ rw (new, still) (omega arith)
    | inr (d, now) ↦ rw (new, now) (omega arith)
  ]
  | inr (d, old) ↦ rw (old, keep-hops u distance e old) (omega arith)
]

set-unseen_le :
    (all : List Text) (distance : List Entry) (e : Entry)
    → unseen all (distance ++ e ∷ []) ≤ unseen all distance
unfolding unseen
set-unseen_le [] distance e = omega arith
set-unseen_le (u ∷ all) distance e =
    omega (arith, set-count u distance e, set-unseen_le all distance e)

set-unseen :
    (all : List Text) (distance : List Entry) (n : Text) (k : ℕ)
    → Memᴰ n all
    → hops_of n distance ≡ none
    → unseen all (distance ++ (n, k) ∷ []) + 1 ≤ unseen all distance
unfolding unseen
set-unseen [] distance n k m new = absurd (Memᴰ.not-nil m)
set-unseen (u ∷ all) distance n k (Memᴰ.head e) new =
    rw (sym e, new, new-hops n distance k new) (omega (arith, set-unseen_le all distance (n, k)))
set-unseen (u ∷ all) distance n k (Memᴰ.tail m) new =
    omega (arith, set-count u distance (n, k), set-unseen all distance n k m new)

-- What is left to do.
abbrev pub work : List Text → List Entry × List Entry → ℕ
work all (distance, queue) = length queue + unseen all distance

pub visit-work :
    (all : List Text) (hop : ℕ) (ns : List Text) (distance queue : List Entry)
    → ((n : Text) → Memᴰ n ns → Memᴰ n all)
    → work all (visit hop ns (distance, queue)) ≤ work all (distance, queue)
unfolding visit
visit-work all hop [] distance queue known = omega arith
visit-work all hop (n ∷ ns) distance queue known = elim (Option-cases (hops_of n distance)) [
  | inr (d, old) ↦
      rw (old, visit) (visit-work all hop ns distance queue (λ m i. known m (Memᴰ.tail i)))
  | inl new ↦
      let a =
        visit-work all hop ns (distance ++ (n, hop) ∷ []) (queue ++ (n, hop) ∷ [])
          (λ m i. known m (Memᴰ.tail i)) in
      let b = set-unseen all distance n hop (known n (Memᴰ.head refl)) new in
      let c = length-append queue ((n, hop) ∷ []) in rw (new, visit) (omega arith)
]

pub walk_from-work :
    (near : Text → List Text) (max_hops : ℕ) (all : List Text) (path : Text) (hop : ℕ)
    (distance queue : List Entry)
    → ((n : Text) → Memᴰ n (near path) → Memᴰ n all)
    → work all (walk_from near max_hops path hop (distance, queue)) ≤ work all (distance, queue)
unfolding walk_from
walk_from-work near max_hops all path hop distance queue known =
    elim (Bool-cases (leb max_hops hop)) [
      | inl far ↦ rw far (omega arith)
      | inr go ↦ rw go (visit-work all (suc hop) (near path) distance queue known)
    ]

pub unseen-le : (all : List Text) (distance : List Entry) → unseen all distance ≤ length all
unfolding unseen
unseen-le [] distance = omega arith
unseen-le (u ∷ all) distance = elim (Option-cases (hops_of u distance)) [
  | inl new ↦ rw new (omega (arith, unseen-le all distance))
  | inr (d, old) ↦ rw old (omega (arith, unseen-le all distance))
]
