-- ===== src/Context/HopBound.antt =====
-- No hops above the limit, and no entry lost: the walk, and the tests added by name.
use ai_pr_reviewer.Prelude.{
  ℕ, zero, suc, ◌≡◌, refl, subst, inl, inr, Bool, true, some, List, [], ◌∷◌, ◌++◌, arith, leb,
  Bool-cases, Option-cases, any, all, any-append_left,
}
use ai_pr_reviewer.Store.{Text, text_eq}
use ai_pr_reviewer.Context.Walk.{Entry, hops_of, visit, walk_from, walk_queue}
use ai_pr_reviewer.Context.Select.{add_tests}

module _ (max_hops : ℕ) where
  abbrev pub is_within : Entry → Bool
  is_within (path, hop) = leb hop max_hops

  all-append_last :
      (es : List Entry) (e : Entry)
      → all is_within es ≡ true
      → is_within e ≡ true
      → all is_within (es ++ e ∷ []) ≡ true
  all-append_last [] e h l = rw l refl
  all-append_last (x ∷ es) e h l = ground (arith, all-append_last es e)

  visit-within :
      (hop : ℕ) (ns : List Text) (distance queue : List Entry)
      → leb hop max_hops ≡ true
      → all is_within distance ≡ true
      → all is_within (visit hop ns (distance, queue)).0 ≡ true
  unfolding visit
  visit-within hop [] distance queue l h = h
  visit-within hop (n ∷ ns) distance queue l h = elim (Option-cases (hops_of n distance)) [
    | inr (d, old) ↦ rw (old, visit) (visit-within hop ns distance queue l h)
    | inl new ↦
        rw (new, visit)
          (visit-within hop ns (distance ++ (n, hop) ∷ []) (queue ++ (n, hop) ∷ []) l
            (all-append_last distance (n, hop) h l))
  ]

  walk_from-within :
      (near : Text → List Text) (path : Text) (hop : ℕ) (distance queue : List Entry)
      → all is_within distance ≡ true
      → all is_within (walk_from near max_hops path hop (distance, queue)).0 ≡ true
  unfolding walk_from
  walk_from-within near path hop distance queue h = elim (Bool-cases (leb max_hops hop)) [
    | inl far ↦ rw far h
    | inr go ↦ rw go (visit-within (suc hop) (near path) distance queue (ground arith) h)
  ]

  pub walk_queue-within :
      (near : Text → List Text) (fuel : ℕ) (distance queue r : List Entry)
      → all is_within distance ≡ true
      → walk_queue fuel near max_hops (distance, queue) ≡ some r
      → all is_within r ≡ true
  unfolding walk_queue
  walk_queue-within near fuel distance [] r h e =
      let same : distance ≡ r = cc in subst (λ x. all is_within x ≡ true) same h
  walk_queue-within near zero distance (x ∷ queue) r h e = cc
  walk_queue-within near (suc fuel) distance ((path, hop) ∷ queue) r h e =
      let s = walk_from near max_hops path hop (distance, queue) in
      walk_queue-within near fuel s.0 s.1 r (walk_from-within near path hop distance queue h) e

  pub add_tests-within :
      (hop : ℕ) (ts : List Text) (hops : List Entry) (matched : List Text)
      → leb hop max_hops ≡ true
      → all is_within hops ≡ true
      → all is_within (add_tests hop ts (hops, matched)).0 ≡ true
  unfolding add_tests
  add_tests-within hop [] hops matched l h = h
  add_tests-within hop (t ∷ ts) hops matched l h = elim (Option-cases (hops_of t hops)) [
    | inr (d, old) ↦ rw (old, add_tests) (add_tests-within hop ts hops matched l h)
    | inl new ↦
        rw (new, add_tests)
          (add_tests-within hop ts (hops ++ (t, hop) ∷ []) (t ∷ matched) l
            (all-append_last hops (t, hop) h l))
  ]

-- The entry of a path stays.
abbrev pub has_entry : Text → List Entry → Bool
has_entry x es = any (λ (e : Entry). text_eq e.0 x) es

pub hops-has_entry :
    (x : Text) (es : List Entry) {d : ℕ} → hops_of x es ≡ some d → has_entry x es ≡ true
hops-has_entry x [] e = cc
hops-has_entry x ((y, k) ∷ es) {d} e = ground (arith, hops-has_entry x es {d = d})

pub add_tests-has_entry :
    (x : Text) (hop : ℕ) (ts : List Text) (hops : List Entry) (matched : List Text)
    → has_entry x hops ≡ true
    → has_entry x (add_tests hop ts (hops, matched)).0 ≡ true
unfolding add_tests
add_tests-has_entry x hop [] hops matched h = h
add_tests-has_entry x hop (t ∷ ts) hops matched h = elim (Option-cases (hops_of t hops)) [
  | inr (d, old) ↦ rw (old, add_tests) (add_tests-has_entry x hop ts hops matched h)
  | inl new ↦
      rw (new, add_tests)
        (add_tests-has_entry x hop ts (hops ++ (t, hop) ∷ []) (t ∷ matched)
          (any-append_left (λ (e : Entry). text_eq e.0 x) hops ((t, hop) ∷ []) h))
]
