-- ===== src/Retention/Kept.antt =====
-- Membership in filtered, sorted and cut lists, and what a deletion leaves.
use ai_pr_reviewer.Prelude.{
  ℕ, zero, suc, ◌+◌, ◌≤◌, ◌<◌, ◌≡◌, refl, sym, ap, ◌∙◌, inl, inr, Bool, true, not, List, [], ◌∷◌,
  arith, leb, ◌==◌, Bool-cases, any, keep, length, take, map,
}
use mathlib.Core.List.{Memᴰ}
use mathlib.Core.List.Memᴰ
use ai_pr_reviewer.Retention.Sweep.{insert_row, sort_rows}

module _ {A : Type 0} where
  pub keep-mem :
      (p : A → Bool) (x : A) (xs : List A) → Memᴰ x (keep p xs) → Memᴰ x xs × (p x ≡ true)
  keep-mem p x [] m = absurd (Memᴰ.not-nil m)
  keep-mem p x (y ∷ xs) m = elim (Bool-cases (p y)) [
    | inr no_y ↦ let (i, h) = keep-mem p x xs (rw no_y at m) in (Memᴰ.tail i, h)
    | inl yes_y ↦ elim (Memᴰ.cases_cons {A = A} (rw yes_y at m)) [
      | inl e ↦ (Memᴰ.head e, ap p e ∙ yes_y)
      | inr t ↦ let (i, h) = keep-mem p x xs t in (Memᴰ.tail i, h)
    ]
  ]

  pub mem-keep : (p : A → Bool) (x : A) (xs : List A) → Memᴰ x xs → p x ≡ true → Memᴰ x (keep p xs)
  mem-keep p x [] m h = absurd (Memᴰ.not-nil m)
  mem-keep p x (y ∷ xs) (Memᴰ.head e) h = rw (sym (ap p e) ∙ h) (Memᴰ.head e)
  mem-keep p x (y ∷ xs) (Memᴰ.tail t) h = elim (Bool-cases (p y)) [
    | inl yes_y ↦ rw yes_y (Memᴰ.tail (mem-keep p x xs t h))
    | inr no_y ↦ rw no_y (mem-keep p x xs t h)
  ]

  pub mem-length : (x : A) (xs : List A) → Memᴰ x xs → 1 ≤ length xs
  mem-length x [] m = absurd (Memᴰ.not-nil m)
  mem-length x (y ∷ xs) m = omega arith

  pub take-mem : (n : ℕ) (x : A) (xs : List A) → Memᴰ x (take n xs) → Memᴰ x xs
  take-mem zero x xs m = absurd (Memᴰ.not-nil m)
  take-mem (suc n) x [] m = absurd (Memᴰ.not-nil m)
  take-mem (suc n) x (y ∷ xs) (Memᴰ.head e) = Memᴰ.head e
  take-mem (suc n) x (y ∷ xs) (Memᴰ.tail t) = Memᴰ.tail (take-mem n x xs t)

  pub take-all : (n : ℕ) (xs : List A) → length (take n xs) < n → take n xs ≡ xs
  take-all zero xs h = absurd (omega arith)
  take-all (suc n) [] h = refl
  take-all (suc n) (x ∷ xs) h = ap (λ ys. x ∷ ys) (take-all n xs (omega arith))

  pub any-mem :
      (key : A → ℕ) (k : ℕ) (xs : List A)
      → any (λ j. j == k) (map key xs) ≡ true
      → (x : A) × Memᴰ x xs × (key x ≡ k)
  any-mem key k [] h = cc
  any-mem key k (y ∷ xs) h = elim (Bool-cases (key y == k)) [
    | inl same ↦ (y, Memᴰ.head refl, ground arith)
    | inr other ↦ let (x, m, e) = any-mem key k xs (rw other at h) in (x, Memᴰ.tail m, e)
  ]

  pub mem-any :
      (key : A → ℕ) (x : A) (xs : List A) → Memᴰ x xs → any (λ j. j == key x) (map key xs) ≡ true
  mem-any key x [] m = absurd (Memᴰ.not-nil m)
  mem-any key x (y ∷ xs) (Memᴰ.head e) = let same : key x ≡ key y = ap key e in ground (arith, same)
  mem-any key x (y ∷ xs) (Memᴰ.tail t) = ground (arith, mem-any key x xs t)

  module _ (at : A → ℕ) where
    insert-mem : (x r : A) (rows : List A) → Memᴰ x (insert_row at r rows) → Memᴰ x (r ∷ rows)
    unfolding insert_row
    insert-mem x r [] m = m
    insert-mem x r (s ∷ rows) m = elim (Bool-cases (leb (at r) (at s))) [
      | inl first ↦ rw first at m
      | inr later ↦ elim (Memᴰ.cases_cons {A = A} (rw later at m)) [
        | inl e ↦ Memᴰ.tail (Memᴰ.head e)
        | inr t ↦ elim (Memᴰ.cases_cons {A = A} (insert-mem x r rows t)) [
          | inl e ↦ Memᴰ.head e
          | inr u ↦ Memᴰ.tail (Memᴰ.tail u)
        ]
      ]
    ]

    mem-insert : (x r : A) (rows : List A) → Memᴰ x (r ∷ rows) → Memᴰ x (insert_row at r rows)
    unfolding insert_row
    mem-insert x r [] m = m
    mem-insert x r (s ∷ rows) m = elim (Bool-cases (leb (at r) (at s))) [
      | inl first ↦ rw first m
      | inr later ↦ rw later (moved (mem-insert x r rows) m)
    ]
      where
        moved :
            (Memᴰ x (r ∷ rows) → Memᴰ x (insert_row at r rows))
            → Memᴰ x (r ∷ s ∷ rows)
            → Memᴰ x (s ∷ insert_row at r rows)
        moved below (Memᴰ.head e) = Memᴰ.tail (below (Memᴰ.head e))
        moved below (Memᴰ.tail (Memᴰ.head e)) = Memᴰ.head e
        moved below (Memᴰ.tail (Memᴰ.tail t)) = Memᴰ.tail (below (Memᴰ.tail t))

    pub sort-mem : (x : A) (rows : List A) → Memᴰ x (sort_rows at rows) → Memᴰ x rows
    unfolding sort_rows
    sort-mem x [] m = m
    sort-mem x (r ∷ rows) m =
        elim (Memᴰ.cases_cons {A = A} (insert-mem x r (sort_rows at rows) m)) [
          | inl e ↦ Memᴰ.head e
          | inr t ↦ Memᴰ.tail (sort-mem x rows t)
        ]

    pub mem-sort : (x : A) (rows : List A) → Memᴰ x rows → Memᴰ x (sort_rows at rows)
    unfolding sort_rows
    mem-sort x [] m = m
    mem-sort x (r ∷ rows) (Memᴰ.head e) = mem-insert x r (sort_rows at rows) (Memᴰ.head e)
    mem-sort x (r ∷ rows) (Memᴰ.tail t) =
        mem-insert x r (sort_rows at rows) (Memᴰ.tail (mem-sort x rows t))

  -- Rows that are deleted where `sel` holds, among those where `stale` does.
  module _ (sel stale : A → Bool) where
    pub length-deleted :
        (rows : List A)
        → length (keep sel rows) + length (keep (λ r. not (sel r)) rows) ≡ length rows
    length-deleted [] = refl
    length-deleted (r ∷ rows) = ground (arith, length-deleted rows)

    pub keep-fresh :
        (rows : List A)
        → ((r : A) → Memᴰ r rows → sel r ≡ true → stale r ≡ true)
        → keep (λ r. not (stale r)) (keep (λ r. not (sel r)) rows) ≡ keep (λ r. not (stale r)) rows
    keep-fresh [] h = refl
    keep-fresh (r ∷ rows) h =
        let later = keep-fresh rows (λ s m. h s (Memᴰ.tail m)) in
        elim (Bool-cases (sel r)) [
          | inl gone ↦ rw (gone, h r (Memᴰ.head refl) gone) later
          | inr stays ↦ elim (Bool-cases (stale r)) [
            | inl old ↦ rw (stays, old) later
            | inr new ↦ rw (stays, new) (ap (λ xs. r ∷ xs) later)
          ]
        ]

    pub count-stale :
        (rows : List A)
        → ((r : A) → Memᴰ r rows → sel r ≡ true → stale r ≡ true)
        → length (keep sel rows) + length (keep stale (keep (λ r. not (sel r)) rows))
          ≡ length (keep stale rows)
    count-stale [] h = refl
    count-stale (r ∷ rows) h =
        let later = count-stale rows (λ s m. h s (Memᴰ.tail m)) in
        elim (Bool-cases (sel r)) [
          | inl gone ↦ rw (gone, h r (Memᴰ.head refl) gone) (omega arith)
          | inr stays ↦ elim (Bool-cases (stale r)) [
            | inl old ↦ rw (stays, old) (omega arith)
            | inr new ↦ rw (stays, new) later
          ]
        ]
