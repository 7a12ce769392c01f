-- ===== src/Context/Known.antt =====
-- Every neighbour is the end of an edge.
use ai_pr_reviewer.Prelude.{inl, inr, [], ◌∷◌, ◌++◌, Bool-cases}
use mathlib.Core.List.{Memᴰ}
use mathlib.Core.List.Memᴰ
use ai_pr_reviewer.Store.{Text, text_eq}
use ai_pr_reviewer.Context.Walk.{Edges, targets_of, neighbours, all_targets}

targets-known : (x n : Text) (es : Edges) → Memᴰ n (targets_of x es) → Memᴰ n (all_targets es)
targets-known x n [] m = absurd (Memᴰ.not-nil m)
targets-known x n ((y, ts) ∷ es) m = elim (Bool-cases (text_eq y x)) [
  | inl same ↦ Memᴰ.append_left (all_targets es) (rw same at m)
  | inr other ↦ Memᴰ.append_right ts (targets-known x n es (rw other at m))
]

pub neighbours-known :
    (forward reverse : Edges) (x n : Text)
    → Memᴰ n (neighbours forward reverse x)
    → Memᴰ n (all_targets forward ++ all_targets reverse)
neighbours-known forward reverse x n m = elim (Memᴰ.append_cases (targets_of x forward) m) [
  | inl f ↦ Memᴰ.append_left (all_targets reverse) (targets-known x n forward f)
  | inr r ↦ Memᴰ.append_right (all_targets forward) (targets-known x n reverse r)
]
