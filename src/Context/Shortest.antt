-- ===== src/Context/Shortest.antt =====
-- `walkBfs` ends, and its distances are the shortest.
use ai_pr_reviewer.Prelude.{
  ℕ, zero, suc, ◌+◌, ◌≤◌, ◌≡◌, refl, sym, ap, subst, ◌∙◌, inl, inr, some, List, [], ◌∷◌, ◌++◌,
  arith, leb, leb→le, Bool-cases, length, map,
}
use mathlib.Core.List.{Memᴰ}
use mathlib.Core.List.Memᴰ
use ai_pr_reviewer.Store.{Text, text_eq, text_eq-eq}
use ai_pr_reviewer.Context.Walk.{
  Entry, Edges, hops_of, neighbours, walk_from, walk_queue, all_targets, at_start, turns, walk_bfs,
}
use ai_pr_reviewer.Context.Reached.{text_eq_self, IsOrdered, IsReached, IsQueued, start, onward}
use ai_pr_reviewer.Context.Within.{IsSettled, IsSound, IsBetween}
use ai_pr_reviewer.Context.Turns.{unseen-le, work, walk_from-work}
use ai_pr_reviewer.Context.Known.{neighbours-known}
use ai_pr_reviewer.Context.Turn.{walk_from-IsBetween}

-- The changed files, at no hops.
starts-IsOrdered : (changed : List Text) → IsOrdered 0 1 (map at_start changed)
starts-IsOrdered [] = tt
starts-IsOrdered (c ∷ cs) = (omega arith, omega arith, starts-IsOrdered cs)

starts-hops :
    (changed : List Text) (x : Text) → Memᴰ x changed → hops_of x (map at_start changed) ≡ some 0
starts-hops [] x m = absurd (Memᴰ.not-nil m)
starts-hops (c ∷ cs) x (Memᴰ.head e) = rw (e, text_eq_self c) refl
starts-hops (c ∷ cs) x (Memᴰ.tail m) = elim (Bool-cases (text_eq c x)) [
  | inl same ↦ rw same refl
  | inr other ↦ rw other (starts-hops cs x m)
]

hops-starts :
    (changed : List Text) (x : Text) (d : ℕ)
    → hops_of x (map at_start changed) ≡ some d
    → Memᴰ x changed × (d ≡ 0)
hops-starts [] x d e = cc
hops-starts (c ∷ cs) x d e = elim (Bool-cases (text_eq c x)) [
  | inl same ↦ (Memᴰ.head (sym (text_eq-eq c x same)), ground arith)
  | inr other ↦ let (m, z) = hops-starts cs x d (rw other at e) in (Memᴰ.tail m, z)
]

queued-starts :
    (changed : List Text) (x : Text) (d : ℕ)
    → IsQueued x d (map at_start changed)
    → Memᴰ x changed × (d ≡ 0)
queued-starts [] x d m = absurd (Memᴰ.not-nil m)
queued-starts (c ∷ cs) x d (Memᴰ.head e) = (Memᴰ.head (ap (λ y. y.0) e), ap (λ y. y.1) e)
queued-starts (c ∷ cs) x d (Memᴰ.tail t) = let (m, z) = queued-starts cs x d t in (Memᴰ.tail m, z)

starts-IsQueued :
    (changed : List Text) (x : Text) → Memᴰ x changed → IsQueued x 0 (map at_start changed)
starts-IsQueued [] x m = absurd (Memᴰ.not-nil m)
starts-IsQueued (c ∷ cs) x (Memᴰ.head e) = Memᴰ.head (ap at_start e)
starts-IsQueued (c ∷ cs) x (Memᴰ.tail m) = Memᴰ.tail (starts-IsQueued cs x m)

starts-work :
    (all changed : List Text)
    → work all (map at_start changed, map at_start changed) ≤ length changed + length all
starts-work all changed =
    let a = unseen-le all (map at_start changed) in let b = mapped changed in omega arith
  where
    mapped : (changed : List Text) → length (map at_start changed) ≡ length changed
    mapped [] = refl
    mapped (c ∷ cs) = ap suc (mapped cs)

module _ (near : Text → List Text) (max_hops : ℕ) (changed : List Text) where
  starts-IsBetween : IsBetween near max_hops changed 0 (map at_start changed) (map at_start changed)
  starts-IsBetween = record {
    sound = record {
      reached = λ x d e.
          let (m, z) = hops-starts changed x d e in
          (subst (λ k. IsReached near changed k x) (sym z) (start m), omega arith);
      starts = starts-hops changed;
    };
    ordered = starts-IsOrdered changed;
    bounded = λ x d e. let (m, z) = hops-starts changed x d e in omega arith;
    agrees = λ x d q.
        let (m, z) = queued-starts changed x d q in
        subst (λ k. hops_of x (map at_start changed) ≡ some k) (sym z) (starts-hops changed x m);
    settled = λ x d e.
        let (m, z) = hops-starts changed x d e in
        inl
          (subst (λ k. IsQueued x k (map at_start changed)) (sym z) (starts-IsQueued changed x m));
  }

  -- What the map is when the queue is empty.
  record IsComplete (distance : List Entry) : Type 0 where
    sound : IsSound near max_hops changed distance
    settled :
        (x : Text) (d : ℕ)
        → hops_of x distance ≡ some d
        → IsSettled near max_hops changed x d distance

  walk_queue-IsComplete :
      (all : List Text)
      → ((x n : Text) → Memᴰ n (near x) → Memᴰ n all)
      → (fuel low : ℕ) (distance queue : List Entry) → work all (distance, queue) ≤ fuel
      → IsBetween near max_hops changed low distance queue
      → (r : List Entry) × (walk_queue fuel near max_hops (distance, queue) ≡ some r) × IsComplete r
  unfolding walk_queue
  walk_queue-IsComplete all known fuel low distance [] le b = (
    distance,
    refl,
    record {
      sound = b.sound;
      settled = λ x d e. elim (b.settled x d e) [ inl m ↦ absurd (Memᴰ.not-nil m) | inr s ↦ s ];
    },
  )
  walk_queue-IsComplete all known zero low distance (e ∷ queue) le b = absurd (omega arith)
  walk_queue-IsComplete all known (suc fuel) low distance ((path, hop) ∷ queue) le b =
      let s = walk_from near max_hops path hop (distance, queue) in
      let a = walk_from-work near max_hops all path hop distance queue (known path) in
      walk_queue-IsComplete all known fuel hop s.0 s.1 (omega arith)
        (walk_from-IsBetween near max_hops changed low path hop distance queue b)

  complete-hops :
      (r : List Entry)
      → IsComplete r
      → (m : ℕ) (x : Text) → IsReached near changed m x
      → m ≤ max_hops
      → (d : ℕ) × (hops_of x r ≡ some d) × (d ≤ m)
  complete-hops r c zero x (start m) le = (0, c.sound.starts x m, omega arith)
  complete-hops r c (suc n) y (onward {x = x} walked edge) le =
      let (d, at, short) = complete-hops r c n x walked (omega arith) in
      elim (c.settled x d at) [
        | inl far ↦ absurd (omega arith)
        | inr close ↦ let (e, there, le_e) = close y edge in (e, there, omega arith)
      ]

-- The distance of a path in the import graph: some walk has that many hops, and none has fewer.
pub record IsShortest (near : Text → List Text) (changed : List Text) (x : Text) (d : ℕ)
    : Type 0 where
  pub walked : IsReached near changed d x
  pub least : (m : ℕ) → IsReached near changed m x → d ≤ m

-- The breadth-first walk ends within the turns it is given. It finds the files that some walk over at
-- most `max_hops` imports, in either direction, reaches from a changed file, and the hops that it
-- gives a file are those of a shortest such walk.
pub walk_finds-IsShortest :
    (changed : List Text) (forward reverse : Edges) (max_hops : ℕ)
    → let near = neighbours forward reverse in
      (r : List Entry) × (walk_bfs changed forward reverse max_hops ≡ some r)
      × ((x : Text) (d : ℕ) → hops_of x r ≡ some d → IsShortest near changed x d × (d ≤ max_hops))
      × ((x : Text) (m : ℕ)
          → IsReached near changed m x
          → m ≤ max_hops
          → (d : ℕ) × (hops_of x r ≡ some d))
unfolding walk_bfs
walk_finds-IsShortest changed forward reverse max_hops =
    let near = neighbours forward reverse in
    let all = all_targets forward ++ all_targets reverse in
    let (r, ran, c) =
      walk_queue-IsComplete near max_hops changed all (neighbours-known forward reverse)
        (turns changed forward reverse) 0 (map at_start changed) (map at_start changed)
        (starts-work all changed) (starts-IsBetween near max_hops changed) in
    (
      r,
      ran,
      (λ x d at.
          let (walked, le) = c.sound.reached x d at in
          (record { walked = walked; least = least near r c x d at le }, le)),
      (λ x m walked le.
          let (d, at, short) = complete-hops near max_hops changed r c m x walked le in (d, at)),
    )
  where
    least :
        (near : Text → List Text) (r : List Entry)
        → IsComplete near max_hops changed r
        → (x : Text) (d : ℕ) → hops_of x r ≡ some d
        → d ≤ max_hops
        → (m : ℕ) → IsReached near changed m x
        → d ≤ m
    least near r c x d at le m walked = elim (Bool-cases (leb m max_hops)) [
      | inr over ↦ ground arith
      | inl within ↦
          let (e, again, short) =
            complete-hops near max_hops changed r c m x walked (leb→le m max_hops within) in
          let both : some d ≡ some e = sym at ∙ again in let same : d ≡ e = cc in omega arith
    ]
