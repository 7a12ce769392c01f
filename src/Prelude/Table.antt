-- ===== src/Prelude/Table.antt =====
-- Database tables as lists of rows. A lookup and an update by primary key act on the first row with
-- that key, which is the only one.
use Prim.Native.Nat.{ℕ, ◌+◌}
use mathlib.Core.Path.{◌≡◌, refl}
use mathlib.Core.Logic.{◌≢◌}
use mathlib.Core.Option
use mathlib.Core.Option.{Option, none, some}
use mathlib.Core.List.{List, [], ◌∷◌}
use mathlib.Core.Bool.{Bool, true, false}
use native.Mathlib.Omega.{arith}
use ai_pr_reviewer.Prelude.Tests.{◌==◌, if◌then◌else◌}
use ai_pr_reviewer.Prelude.Lists.{total, find_first}

module _ {ℓ} {A : Type ℓ} (key : A → ℕ) where
  abbrev pub find_unique : ℕ → List A → Option A
  find_unique k [] = none
  find_unique k (r ∷ rs) = if key r == k then some r else find_unique k rs

  abbrev pub update_unique : ℕ → (A → A) → List A → List A
  update_unique k f [] = []
  update_unique k f (r ∷ rs) = if key r == k then f r ∷ rs else r ∷ update_unique k f rs

  -- An update that keeps the key changes the row that it names.
  pub find_unique-update_self :
      (k : ℕ) (f : A → A) (rs : List A) {r : A}
      → find_unique k rs ≡ some r
      → key (f r) ≡ k
      → find_unique k (update_unique k f rs) ≡ some (f r)
  find_unique-update_self k f [] e h = cc
  find_unique-update_self k f (x ∷ rs) {r} e h =
      ground (arith, find_unique-update_self k f rs {r = r})

  -- It leaves every other row.
  pub find_unique-update_ne :
      (k j : ℕ) (f : A → A) (rs : List A)
      → k ≢ j
      → ((r : A) → key (f r) ≡ key r)
      → find_unique j (update_unique k f rs) ≡ find_unique j rs
  find_unique-update_ne k j f [] ne h = refl
  find_unique-update_ne k j f (x ∷ rs) ne h =
      ground (arith, h x, find_unique-update_ne k j f rs ne h)

  -- A sum of weights moves by the change of the one row.
  pub total-update :
      (w : A → ℕ) (k : ℕ) (f : A → A) (rs : List A) {r : A}
      → find_unique k rs ≡ some r
      → total w (update_unique k f rs) + w r ≡ total w rs + w (f r)
  total-update w k f [] e = cc
  total-update w k f (x ∷ rs) {r} e = ground (arith, total-update w k f rs {r = r})

  pub find_unique-key : (k : ℕ) (rs : List A) {r : A} → find_unique k rs ≡ some r → key r ≡ k
  find_unique-key k [] e = cc
  find_unique-key k (x ∷ rs) {r} e = ground (arith, find_unique-key k rs {r = r})

  -- No two rows share a key.
  abbrev pub HasUniqueKeys : List A → Type ℓ
  HasUniqueKeys [] = Unit
  HasUniqueKeys (r ∷ rs) = (find_unique (key r) rs ≡ none) × HasUniqueKeys rs

  find_unique-of-find_first-ne :
      (k : ℕ) (p : A → Bool) (rs : List A) {r : A}
      → find_unique k rs ≡ none
      → find_first p rs ≡ some r
      → (key r == k) ≡ false
  find_unique-of-find_first-ne k p [] h e = cc
  find_unique-of-find_first-ne k p (x ∷ rs) {r} h e =
      ground (arith, find_unique-of-find_first-ne k p rs {r = r})

  -- The first row that passes a test is the one that its key names.
  pub find_unique-of-find_first :
      (p : A → Bool) (rs : List A) {r : A}
      → HasUniqueKeys rs
      → find_first p rs ≡ some r
      → find_unique (key r) rs ≡ some r
  find_unique-of-find_first p [] u e = cc
  find_unique-of-find_first p (x ∷ rs) {r} (fresh, u) e = ground (
    arith,
    find_unique-of-find_first p rs {r = r} u,
    find_unique-of-find_first-ne (key x) p rs {r = r} fresh,
  )

  update_unique-find_none :
      (k j : ℕ) (f : A → A) (rs : List A)
      → ((r : A) → key (f r) ≡ key r)
      → find_unique j rs ≡ none
      → find_unique j (update_unique k f rs) ≡ none
  update_unique-find_none k j f [] h e = e
  update_unique-find_none k j f (x ∷ rs) h e =
      ground (arith, h x, update_unique-find_none k j f rs h)

  pub update-HasUniqueKeys :
      (k : ℕ) (f : A → A) (rs : List A)
      → ((r : A) → key (f r) ≡ key r)
      → HasUniqueKeys rs
      → HasUniqueKeys (update_unique k f rs)
  update-HasUniqueKeys k f [] h u = u
  update-HasUniqueKeys k f (x ∷ rs) h (fresh, u) =
      elim (key x == k) as (λ b. HasUniqueKeys (if b then f x ∷ rs else x ∷ update_unique k f rs)) [
        | true ↦ (rw (h x) fresh, u)
        | false ↦ (update_unique-find_none k (key x) f rs h fresh, update-HasUniqueKeys k f rs h u)
      ]

  pub find_first-holds :
      (p : A → Bool) (rs : List A) {r : A} → find_first p rs ≡ some r → p r ≡ true
  find_first-holds p [] e = cc
  find_first-holds p (x ∷ rs) {r} e = ground (arith, find_first-holds p rs {r = r})

  -- A lookup after an update that keeps the keys.
  pub find_unique-update :
      (k j : ℕ) (f : A → A) (rs : List A)
      → ((r : A) → key (f r) ≡ key r)
      → find_unique j (update_unique k f rs)
        ≡ (if k == j then Option.map f (find_unique j rs) else find_unique j rs)
  find_unique-update k j f [] h = ground arith
  find_unique-update k j f (x ∷ rs) h = ground (arith, h x, find_unique-update k j f rs h)

  -- A search still finds its row after a write to it that passes the search.
  pub find_first-update :
      (p : A → Bool) (f : A → A) (rs : List A) {r : A}
      → HasUniqueKeys rs
      → find_first p rs ≡ some r
      → p (f r) ≡ true
      → find_first p (update_unique (key r) f rs) ≡ some (f r)
  find_first-update p f [] u e h = cc
  find_first-update p f (x ∷ rs) {r} (fresh, u) e h = ground (
    arith,
    find_first-update p f rs {r = r} u,
    find_unique-of-find_first-ne (key x) p rs {r = r} fresh,
  )
