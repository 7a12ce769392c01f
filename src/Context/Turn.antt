-- ===== src/Context/Turn.antt =====
-- A turn of `walkBfs` keeps what holds between two turns.
use ai_pr_reviewer.Prelude.{
  ℕ, suc, ◌≤◌, ◌<◌, ◌≡◌, refl, sym, ap, subst, ◌∙◌, ◌⊎◌, inl, inr, some, List, [], ◌∷◌, ◌++◌, arith,
  leb, leb→le, Bool-cases, Option-cases,
}
use mathlib.Core.List.{Memᴰ}
use mathlib.Core.List.Memᴰ
use ai_pr_reviewer.Store.{Text}
use ai_pr_reviewer.Context.Walk.{Entry, hops_of, visit, walk_from}
use ai_pr_reviewer.Context.Reached.{IsOrdered, IsOrdered-widen, IsQueued}
use ai_pr_reviewer.Context.Within.{IsSettled, IsBetween, IsWithin, IsWithin-skip, IsWithin-set}

module _ (near : Text → List Text) (max_hops : ℕ) (changed : List Text) where
  visit-IsWithin :
      (path : Text) (hop : ℕ) (ns : List Text) (distance queue : List Entry)
      → ((n : Text) → Memᴰ n ns → Memᴰ n (near path))
      → hop < max_hops
      → IsWithin near max_hops changed path hop ns distance queue
      → let s = visit (suc hop) ns (distance, queue) in
        IsWithin near max_hops changed path hop [] s.0 s.1
  unfolding visit
  visit-IsWithin path hop [] distance queue edges below w = w
  visit-IsWithin path hop (n ∷ ns) distance queue edges below w =
      let later = λ (m : Text) (i : Memᴰ m ns). edges m (Memᴰ.tail i) in
      elim (Option-cases (hops_of n distance)) [
        | inr (k, old) ↦
            rw (old, visit)
              (visit-IsWithin path hop ns distance queue later below
                (IsWithin-skip near max_hops changed path hop n ns distance queue k old w))
        | inl new ↦
            rw (new, visit)
              (visit-IsWithin path hop ns (distance ++ (n, suc hop) ∷ [])
                (queue ++ (n, suc hop) ∷ []) later below
                (IsWithin-set near max_hops changed path hop n ns distance queue new
                  (edges n (Memᴰ.head refl)) below w))
      ]

  IsWithin-end :
      (path : Text) (hop : ℕ) (distance queue : List Entry)
      → IsWithin near max_hops changed path hop [] distance queue
      → IsBetween near max_hops changed hop distance queue
  IsWithin-end path hop distance queue w = record {
    sound = w.sound;
    ordered = w.ordered;
    bounded = w.bounded;
    agrees = w.agrees;
    settled = λ x d at. settled x d at (w.settled x d at);
  }
    where
      near_by :
          (n : Text)
          → Memᴰ n [] ⊎ ((e : ℕ) × (hops_of n distance ≡ some e))
          → (e : ℕ) × (hops_of n distance ≡ some e) × (e ≤ suc hop)
      near_by n (inl m) = absurd (Memᴰ.not-nil m)
      near_by n (inr (e, at)) = (e, at, w.bounded n e at)

      settled :
          (x : Text) (d : ℕ)
          → hops_of x distance ≡ some d
          → (x ≡ path) ⊎ (IsQueued x d queue ⊎ IsSettled near max_hops changed x d distance)
          → IsQueued x d queue ⊎ IsSettled near max_hops changed x d distance
      settled x d at (inr s) = s
      settled x d at (inl same) =
          let twice : some d ≡ some hop = sym at ∙ ap (λ y. hops_of y distance) same ∙ w.here in
          let is_hop : hop ≡ d = cc in
          inr (
            inr (λ n m.
              subst (λ k. (e : ℕ) × (hops_of n distance ≡ some e) × (e ≤ suc k)) is_hop
                (near_by n (w.visited n (subst (λ y. Memᴰ n (near y)) same m)))))

  first-IsOrdered :
      (low : ℕ) (path : Text) (hop : ℕ) (queue : List Entry)
      → IsOrdered low (suc low) ((path, hop) ∷ queue)
      → IsOrdered hop (suc hop) queue
  first-IsOrdered low path hop queue (a, b, o) =
      IsOrdered-widen hop (suc low) (suc hop) queue (omega arith) o

  IsBetween-begin :
      (low : ℕ) (path : Text) (hop : ℕ) (distance queue : List Entry)
      → IsBetween near max_hops changed low distance ((path, hop) ∷ queue)
      → IsWithin near max_hops changed path hop (near path) distance queue
  IsBetween-begin low path hop distance queue b = record {
    sound = b.sound;
    ordered = first-IsOrdered low path hop queue b.ordered;
    bounded = λ x d at. let a = b.bounded x d at in let o = b.ordered in omega arith;
    agrees = λ x d m. b.agrees x d (Memᴰ.tail m);
    here = b.agrees path hop (Memᴰ.head refl);
    settled = λ x d at. settled x d (b.settled x d at);
    visited = λ n m. inl m;
  }
    where
      settled :
          (x : Text) (d : ℕ)
          → IsQueued x d ((path, hop) ∷ queue) ⊎ IsSettled near max_hops changed x d distance
          → (x ≡ path) ⊎ (IsQueued x d queue ⊎ IsSettled near max_hops changed x d distance)
      settled x d (inl (Memᴰ.head e)) = inl (ap (λ y. y.0) e)
      settled x d (inl (Memᴰ.tail m)) = inr (inl m)
      settled x d (inr s) = inr (inr s)

  IsBetween-far :
      (low : ℕ) (path : Text) (hop : ℕ) (distance queue : List Entry)
      → max_hops ≤ hop
      → IsBetween near max_hops changed low distance ((path, hop) ∷ queue)
      → IsBetween near max_hops changed hop distance queue
  IsBetween-far low path hop distance queue far b = record {
    sound = b.sound;
    ordered = first-IsOrdered low path hop queue b.ordered;
    bounded = λ x d at. let a = b.bounded x d at in let o = b.ordered in omega arith;
    agrees = λ x d m. b.agrees x d (Memᴰ.tail m);
    settled = λ x d at. settled x d (b.settled x d at);
  }
    where
      settled :
          (x : Text) (d : ℕ)
          → IsQueued x d ((path, hop) ∷ queue) ⊎ IsSettled near max_hops changed x d distance
          → IsQueued x d queue ⊎ IsSettled near max_hops changed x d distance
      settled x d (inl (Memᴰ.head e)) =
          let at : hop ≡ d = sym (ap (λ y. y.1) e) in inr (inl (subst (λ k. max_hops ≤ k) at far))
      settled x d (inl (Memᴰ.tail m)) = inl m
      settled x d (inr s) = inr s

  pub walk_from-IsBetween :
      (low : ℕ) (path : Text) (hop : ℕ) (distance queue : List Entry)
      → IsBetween near max_hops changed low distance ((path, hop) ∷ queue)
      → let s = walk_from near max_hops path hop (distance, queue) in
        IsBetween near max_hops changed hop s.0 s.1
  unfolding walk_from
  walk_from-IsBetween low path hop distance queue b = elim (Bool-cases (leb max_hops hop)) [
    | inl far ↦ rw far (IsBetween-far low path hop distance queue (leb→le max_hops hop far) b)
    | inr go ↦
        let below : hop < max_hops = ground arith in
        let s = visit (suc hop) (near path) (distance, queue) in
        rw go (
          IsWithin-end path hop s.0 s.1 (
            visit-IsWithin path hop (near path) distance queue (λ n m. m) below
              (IsBetween-begin low path hop distance queue b)))
  ]
