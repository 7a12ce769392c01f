-- ===== src/Context/Reached.antt =====
-- Entries of a distance map, the order of the queue, and what it is to be reached.
use ai_pr_reviewer.Prelude.{
  ℕ, suc, ◌≤◌, ◌≡◌, refl, ◌⊎◌, inl, inr, true, none, some, List, [], ◌∷◌, ◌++◌, arith, Bool-cases,
}
use mathlib.Core.List.{Memᴰ}
use ai_pr_reviewer.Store.{Text, text_eq, text_eq-eq}
use ai_pr_reviewer.Context.Walk.{Entry, hops_of}

pub text_eq_self : (t : Text) → text_eq t t ≡ true
text_eq_self [] = refl
text_eq_self (c ∷ t) = ground (arith, text_eq_self t)

-- An entry that is set at the end of the map.
pub keep-hops :
    (x : Text) (es : List Entry) (e : Entry) {d : ℕ}
    → hops_of x es ≡ some d
    → hops_of x (es ++ e ∷ []) ≡ some d
keep-hops x [] e h = cc
keep-hops x ((y, k) ∷ es) e {d} h = ground (arith, keep-hops x es e {d = d})

pub new-hops :
    (x : Text) (es : List Entry) (k : ℕ)
    → hops_of x es ≡ none
    → hops_of x (es ++ (x, k) ∷ []) ≡ some k
new-hops x [] k h = rw (text_eq_self x) refl
new-hops x ((y, j) ∷ es) k h = ground (arith, new-hops x es k)

pub split-hops :
    (x : Text) (es : List Entry) (n : Text) (k : ℕ) {d : ℕ}
    → hops_of x (es ++ (n, k) ∷ []) ≡ some d
    → (hops_of x es ≡ some d) ⊎ ((n ≡ x) × (d ≡ k))
split-hops x [] n k {d} h = elim (Bool-cases (text_eq n x)) [
  | inl same ↦ inr (text_eq-eq n x same, ground arith)
  | inr other ↦ ground arith
]
split-hops x ((y, j) ∷ es) n k h = elim (Bool-cases (text_eq y x)) [
  | inl same ↦ rw same (inl (rw same at h))
  | inr other ↦ rw other (split-hops x es n k (rw other at h))
]

-- The hops of the queue do not fall, and lie between two bounds.
abbrev pub IsOrdered : ℕ → ℕ → List Entry → Type 0
IsOrdered low high [] = Unit
IsOrdered low high ((p, h) ∷ q) = (low ≤ h) × (h ≤ high) × IsOrdered h high q

pub IsOrdered-append :
    (low high : ℕ) (q : List Entry) (n : Text)
    → low ≤ high
    → IsOrdered low high q
    → IsOrdered low high (q ++ (n, high) ∷ [])
IsOrdered-append low high [] n l o = (l, omega arith, tt)
IsOrdered-append low high ((p, h) ∷ q) n l (a, b, o) = (a, b, IsOrdered-append h high q n b o)

pub IsOrdered-widen :
    (low high high' : ℕ) (q : List Entry)
    → high ≤ high'
    → IsOrdered low high q
    → IsOrdered low high' q
IsOrdered-widen low high high' [] le o = tt
IsOrdered-widen low high high' ((p, h) ∷ q) le (a, b, o) =
    (a, omega arith, IsOrdered-widen h high high' q le o)

abbrev pub IsQueued : Text → ℕ → List Entry → Type 0
IsQueued x d queue = Memᴰ {A = Entry} (x, d) queue

-- There is a walk of so many hops from a changed file.
pub data IsReached (near : Text → List Text) (changed : List Text) : ℕ → Text → Type 0 where
  start : {x : Text} → Memᴰ x changed → IsReached near changed 0 x
  onward :
      {n : ℕ} {x y : Text}
      → IsReached near changed n x
      → Memᴰ y (near x)
      → IsReached near changed (suc n) y
