-- ===== src/Retention/Ends.antt =====
-- The batch loop ends, and what it deletes are the stale rows.
use ai_pr_reviewer.Prelude.{
  ℕ, zero, suc, ◌+◌, ◌≤◌, ◌<◌, ◌≡◌, refl, sym, ap, subst, ◌∙◌, inl, inr, Bool, true, false, not,
  some, List, [], ◌∷◌, arith, ltb, ltb→lt, ◌==◌, Bool-cases, keep, length, map,
}
use mathlib.Core.List.{Memᴰ}
use ai_pr_reviewer.Retention.Sweep.{
  delete_batch_size, sort_rows, next_batch, is_selected, delete_many, sweep,
}
use ai_pr_reviewer.Retention.Kept.{
  keep-mem, mem-keep, mem-length, take-mem, take-all, any-mem, mem-any, length-deleted, keep-fresh,
  count-stale, sort-mem, mem-sort,
}

module _ {A : Type 0} (key at : A → ℕ) (is_stale is_deletable : A → Bool) where
  -- A row that shares its identifier with a stale one and may be deleted is stale.
  abbrev pub IsSafe : List A → Type 0
  IsSafe rows =
      (r s : A)
      → Memᴰ r rows
      → Memᴰ s rows
      → key s ≡ key r
      → is_stale s ≡ true
      → is_deletable r ≡ true
      → is_stale r ≡ true

  abbrev batch_of : List A → List A
  batch_of = next_batch key at is_stale is_deletable

  abbrev selects : List A → A → Bool
  selects rows = is_selected key at is_stale is_deletable (map key (batch_of rows))

  batch-mem : (s : A) (rows : List A) → Memᴰ s (batch_of rows) → Memᴰ s rows × (is_stale s ≡ true)
  unfolding next_batch
  batch-mem s rows m = keep-mem is_stale s rows (
      sort-mem at s (keep is_stale rows)
        (take-mem delete_batch_size s (sort_rows at (keep is_stale rows)) m))

  selects-stale :
      (rows : List A)
      → IsSafe rows
      → (r : A) → Memᴰ r rows
      → selects rows r ≡ true
      → is_stale r ≡ true
  selects-stale rows safe r m h =
      let (s, i, e) = any-mem key (key r) (batch_of rows) (ground arith) in
      let (j, old) = batch-mem s rows i in safe r s m j e old (ground arith)

  -- A short batch holds every stale row.
  stale-selects :
      (rows : List A)
      → ((r : A) → is_stale r ≡ true → is_deletable r ≡ true)
      → length (batch_of rows) < delete_batch_size
      → (r : A) → Memᴰ r rows
      → is_stale r ≡ true
      → selects rows r ≡ true
  unfolding next_batch
  stale-selects rows may short r m old =
      let whole = take-all delete_batch_size (sort_rows at (keep is_stale rows)) short in
      let i = mem-sort at r (keep is_stale rows) (mem-keep is_stale r rows m old) in
      let there : Memᴰ r (batch_of rows) = subst (λ xs. Memᴰ r xs) (sym whole) i in
      let named = mem-any key r (batch_of rows) there in
      let free = may r old in ground (arith, named, free)

  first-selects :
      (rows : List A)
      → ((r : A) → is_stale r ≡ true → is_deletable r ≡ true)
      → (length (batch_of rows) == 0) ≡ false
      → 1 ≤ length (keep (selects rows) rows)
  first-selects rows may full = go (batch_of rows) refl full
    where
      go :
          (batch : List A)
          → batch_of rows ≡ batch
          → (length batch == 0) ≡ false
          → 1 ≤ length (keep (selects rows) rows)
      go [] e h = ground arith
      go (s ∷ batch) e h =
          let here : Memᴰ s (batch_of rows) =
            subst (λ xs. Memᴰ s xs) (sym e) (Memᴰ.head {xs = batch} refl) in
          let (m, old) = batch-mem s rows here in
          let named = mem-any key s (batch_of rows) here in
          let free = may s old in
          let sel : selects rows s ≡ true = ground (arith, named, free) in
          mem-length s (keep (selects rows) rows) (mem-keep (selects rows) s rows m sel)

  keep-none :
      (rows : List A)
      → ((r : A) → Memᴰ r rows → is_stale r ≡ true → ⊥)
      → (keep is_stale rows ≡ []) × (keep (λ r. not (is_stale r)) rows ≡ rows)
  keep-none [] h = (refl, refl)
  keep-none (r ∷ rows) h = elim (Bool-cases (is_stale r)) [
    | inl old ↦ absurd (h r (Memᴰ.head refl) old)
    | inr new ↦
        let (a, b) = keep-none rows (λ s m. h s (Memᴰ.tail m)) in rw new (a, ap (λ xs. r ∷ xs) b)
  ]

  -- Where every stale row is selected, the deletion is whole.
  all-deleted :
      (sel : A → Bool) (rows : List A)
      → ((r : A) → Memᴰ r rows → sel r ≡ true → is_stale r ≡ true)
      → ((r : A) → Memᴰ r rows → is_stale r ≡ true → sel r ≡ true)
      → (length (keep sel rows) ≡ length (keep is_stale rows))
        × (keep (λ r. not (sel r)) rows ≡ keep (λ r. not (is_stale r)) rows)
  all-deleted sel [] f g = (refl, refl)
  all-deleted sel (r ∷ rows) f g =
      let (a, b) = all-deleted sel rows (λ s m. f s (Memᴰ.tail m)) (λ s m. g s (Memᴰ.tail m)) in
      elim (Bool-cases (is_stale r)) [
        | inl old ↦ rw (old, g r (Memᴰ.head refl) old) (ap suc a, b)
        | inr new ↦ elim (Bool-cases (sel r)) [
          | inl gone ↦ absurd (let x = f r (Memᴰ.head refl) gone in cc)
          | inr stays ↦ rw (new, stays) (a, ap (λ xs. r ∷ xs) b)
        ]
      ]

  none-stale :
      (rows : List A)
      → ((r : A) → is_stale r ≡ true → is_deletable r ≡ true)
      → (length (batch_of rows) == 0) ≡ true
      → (r : A) → Memᴰ r rows
      → is_stale r ≡ true
      → ⊥
  none-stale rows may empty r m old =
      let none_left : length (batch_of rows) ≡ 0 = ground arith in
      let sel = stale-selects rows may (omega arith) r m old in
      let (s, i, e) = any-mem key (key r) (batch_of rows) (ground arith) in
      let some_left = mem-length s (batch_of rows) i in omega arith

  -- With more turns than rows the loop ends: it counts the stale rows, and the others are left in
  -- their order.
  pub sweep-ends :
      (fuel count : ℕ) (rows : List A)
      → ((r : A) → is_stale r ≡ true → is_deletable r ≡ true)
      → IsSafe rows
      → length rows < fuel
      → sweep key at is_stale is_deletable fuel count rows
        ≡ some (count + length (keep is_stale rows), keep (λ r. not (is_stale r)) rows)
  unfolding sweep delete_many
  sweep-ends zero count rows may safe lt = absurd (omega arith)
  sweep-ends (suc fuel) count rows may safe lt =
      let sel = selects rows in
      let old = selects-stale rows safe in
      let left = keep (λ r. not (sel r)) rows in
      let left_safe : IsSafe left = λ r s m n.
        safe r s (keep-mem (λ x. not (sel x)) r rows m).0
          (keep-mem (λ x. not (sel x)) s rows n).0 in
      elim (Bool-cases (length (batch_of rows) == 0)) [
        | inl empty ↦
            let (a, b) = keep-none rows (none-stale rows may empty) in
            rw (empty, a, b) (ap (λ n. some (n, rows)) (omega arith))
        | inr full ↦ elim (Bool-cases (ltb (length (batch_of rows)) delete_batch_size)) [
          | inl short ↦
              let (a, b) = all-deleted sel rows old (
                stale-selects rows may (ltb→lt (length (batch_of rows)) delete_batch_size short)) in
              rw (full, short, a, b) refl
          | inr long ↦
              let split = length-deleted sel is_stale rows in
              let some_gone = first-selects rows may full in
              let fresh = keep-fresh sel is_stale rows old in
              let stale = count-stale sel is_stale rows old in
              let later =
                sweep-ends fuel (count + length (keep sel rows)) left may left_safe (omega arith) in
              let sum : count + length (keep sel rows) + length (keep is_stale left)
                  ≡ count + length (keep is_stale rows) =
                omega arith in
              rw (full, long)
                (later
                  ∙ ap (λ n. some (n, keep (λ r. not (is_stale r)) left)) sum
                  ∙ ap (λ xs. some (count + length (keep is_stale rows), xs)) fresh)
        ]
      ]

  pub sweep-ends_zero :
      (rows : List A)
      → ((r : A) → is_stale r ≡ true → is_deletable r ≡ true)
      → IsSafe rows
      → sweep key at is_stale is_deletable (suc (length rows)) 0 rows
        ≡ some (length (keep is_stale rows), keep (λ r. not (is_stale r)) rows)
  sweep-ends_zero rows may safe =
      sweep-ends (suc (length rows)) 0 rows may safe (omega arith)
      ∙ ap (λ n. some (n, keep (λ r. not (is_stale r)) rows)) (omega arith)
