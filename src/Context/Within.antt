-- ===== src/Context/Within.antt =====
-- One turn of `walkBfs`: what holds of the map and the queue before, within and after it.
use ai_pr_reviewer.Prelude.{
  ℕ, suc, ◌≤◌, ◌<◌, ◌≡◌, refl, sym, ap, subst, ◌⊎◌, inl, inr, none, some, List, [], ◌∷◌, ◌++◌,
  arith,
}
use mathlib.Core.List.{Memᴰ}
use mathlib.Core.List.Memᴰ
use ai_pr_reviewer.Store.{Text}
use ai_pr_reviewer.Context.Walk.{Entry, hops_of}
use ai_pr_reviewer.Context.Reached.{
  keep-hops, new-hops, split-hops, IsOrdered, IsOrdered-append, IsReached, IsQueued, onward,
}

module _ (near : Text → List Text) (max_hops : ℕ) (changed : List Text) where
  -- No neighbour of a path is farther than one more hop, or the path is too far to walk on.
  abbrev pub IsSettled : Text → ℕ → List Entry → Type 0
  IsSettled x d distance =
      (max_hops ≤ d)
      ⊎ ((n : Text) → Memᴰ n (near x) → (e : ℕ) × (hops_of n distance ≡ some e) × (e ≤ suc d))

  -- What every distance in the map satisfies.
  pub record IsSound (distance : List Entry) : Type 0 where
    pub reached :
        (x : Text) (d : ℕ)
        → hops_of x distance ≡ some d
        → IsReached near changed d x × (d ≤ max_hops)
    pub starts : (x : Text) → Memᴰ x changed → hops_of x distance ≡ some 0

  -- The state between two turns; `low` is at most the hop of the next path.
  pub record IsBetween (low : ℕ) (distance queue : List Entry) : Type 0 where
    pub sound : IsSound distance
    pub ordered : IsOrdered low (suc low) queue
    pub bounded : (x : Text) (d : ℕ) → hops_of x distance ≡ some d → d ≤ suc low
    pub agrees : (x : Text) (d : ℕ) → IsQueued x d queue → hops_of x distance ≡ some d
    pub settled :
        (x : Text) (d : ℕ)
        → hops_of x distance ≡ some d
        → IsQueued x d queue ⊎ IsSettled x d distance

  -- The state within the turn of `path`, before the neighbours `rest`.
  pub record IsWithin (path : Text) (hop : ℕ) (rest : List Text) (distance queue : List Entry)
      : Type 0 where
    pub sound : IsSound distance
    pub ordered : IsOrdered hop (suc hop) queue
    pub bounded : (x : Text) (d : ℕ) → hops_of x distance ≡ some d → d ≤ suc hop
    pub agrees : (x : Text) (d : ℕ) → IsQueued x d queue → hops_of x distance ≡ some d
    pub here : hops_of path distance ≡ some hop
    pub settled :
        (x : Text) (d : ℕ)
        → hops_of x distance ≡ some d
        → (x ≡ path) ⊎ (IsQueued x d queue ⊎ IsSettled x d distance)
    pub visited :
        (n : Text) → Memᴰ n (near path) → Memᴰ n rest ⊎ ((e : ℕ) × (hops_of n distance ≡ some e))

  IsSettled-keep :
      (x : Text) (d : ℕ) (distance : List Entry) (e : Entry)
      → IsSettled x d distance
      → IsSettled x d (distance ++ e ∷ [])
  IsSettled-keep x d distance e (inl far) = inl far
  IsSettled-keep x d distance e (inr near_by) =
      inr (λ n m. let (k, at, le) = near_by n m in (k, keep-hops n distance e at, le))

  pub IsWithin-skip :
      (path : Text) (hop : ℕ) (n : Text) (rest : List Text) (distance queue : List Entry) (k : ℕ)
      → hops_of n distance ≡ some k
      → IsWithin path hop (n ∷ rest) distance queue
      → IsWithin path hop rest distance queue
  IsWithin-skip path hop n rest distance queue k known w = record {
    sound = w.sound;
    ordered = w.ordered;
    bounded = w.bounded;
    agrees = w.agrees;
    here = w.here;
    settled = w.settled;
    visited = λ m near_m. passed m (w.visited m near_m);
  }
    where
      passed :
          (m : Text)
          → Memᴰ m (n ∷ rest) ⊎ ((e : ℕ) × (hops_of m distance ≡ some e))
          → Memᴰ m rest ⊎ ((e : ℕ) × (hops_of m distance ≡ some e))
      passed m (inl (Memᴰ.head e)) = inr (k, subst (λ x. hops_of x distance ≡ some k) (sym e) known)
      passed m (inl (Memᴰ.tail t)) = inl t
      passed m (inr seen) = inr seen

  pub IsWithin-set :
      (path : Text) (hop : ℕ) (n : Text) (rest : List Text) (distance queue : List Entry)
      → hops_of n distance ≡ none
      → Memᴰ n (near path)
      → hop < max_hops
      → IsWithin path hop (n ∷ rest) distance queue
      → IsWithin path hop rest (distance ++ (n, suc hop) ∷ []) (queue ++ (n, suc hop) ∷ [])
  IsWithin-set path hop n rest distance queue new edge below w = record {
    sound = record {
      reached = λ x d at. reached x d (split-hops x distance n (suc hop) at);
      starts = λ x m. keep-hops x distance (n, suc hop) (w.sound.starts x m);
    };
    ordered = IsOrdered-append hop (suc hop) queue n (omega arith) w.ordered;
    bounded = λ x d at. bounded x d (split-hops x distance n (suc hop) at);
    agrees = λ x d m. agrees x d (Memᴰ.append_cases {A = Entry} queue m);
    here = keep-hops path distance (n, suc hop) w.here;
    settled = λ x d at. settled x d (split-hops x distance n (suc hop) at);
    visited = λ m near_m. passed m (w.visited m near_m);
  }
    where
      reached :
          (x : Text) (d : ℕ)
          → (hops_of x distance ≡ some d) ⊎ ((n ≡ x) × (d ≡ suc hop))
          → IsReached near changed d x × (d ≤ max_hops)
      reached x d (inl old) = w.sound.reached x d old
      reached x d (inr (same, at)) =
          let walked : IsReached near changed (suc hop) n =
            onward (w.sound.reached path hop w.here).0 edge in
          (
            subst (λ k. IsReached near changed k x) (sym at)
                (subst (IsReached near changed (suc hop)) same walked),
            omega arith,
          )

      bounded :
          (x : Text) (d : ℕ)
          → (hops_of x distance ≡ some d) ⊎ ((n ≡ x) × (d ≡ suc hop))
          → d ≤ suc hop
      bounded x d (inl old) = w.bounded x d old
      bounded x d (inr (same, at)) = omega arith

      agrees :
          (x : Text) (d : ℕ)
          → IsQueued x d queue ⊎ IsQueued x d ((n, suc hop) ∷ [])
          → hops_of x (distance ++ (n, suc hop) ∷ []) ≡ some d
      agrees x d (inl m) = keep-hops x distance (n, suc hop) (w.agrees x d m)
      agrees x d (inr m) =
          let e = Memᴰ.eq_of_singleton m in
          let same : x ≡ n = ap (λ y. y.0) e in
          let at : d ≡ suc hop = ap (λ y. y.1) e in
          rw (same, at) (new-hops n distance (suc hop) new)

      settled :
          (x : Text) (d : ℕ)
          → (hops_of x distance ≡ some d) ⊎ ((n ≡ x) × (d ≡ suc hop))
          → (x ≡ path)
            ⊎ (IsQueued x d (queue ++ (n, suc hop) ∷ [])
                ⊎ IsSettled x d (distance ++ (n, suc hop) ∷ []))
      settled x d (inr (same, at)) =
          inr (inl (Memᴰ.append_right queue (Memᴰ.head (rw (same, at) refl))))
      settled x d (inl old) = elim (w.settled x d old) [
        | inl at_path ↦ inl at_path
        | inr (inl m) ↦ inr (inl (Memᴰ.append_left ((n, suc hop) ∷ []) m))
        | inr (inr s) ↦ inr (inr (IsSettled-keep x d distance (n, suc hop) s))
      ]

      passed :
          (m : Text)
          → Memᴰ m (n ∷ rest) ⊎ ((e : ℕ) × (hops_of m distance ≡ some e))
          → Memᴰ m rest ⊎ ((e : ℕ) × (hops_of m (distance ++ (n, suc hop) ∷ []) ≡ some e))
      passed m (inl (Memᴰ.head e)) = inr (
        suc hop,
        subst (λ x. hops_of x (distance ++ (n, suc hop) ∷ []) ≡ some (suc hop)) (sym e)
            (new-hops n distance (suc hop) new),
      )
      passed m (inl (Memᴰ.tail t)) = inl t
      passed m (inr (e, at)) = inr (e, keep-hops m distance (n, suc hop) at)
