-- ===== src/Context/Tests.antt =====
-- Paths, imports and a walk at concrete values.
use ai_pr_reviewer.Prelude.{
  ℕ, ◌≡◌, ◌≤◌, ◌⊎◌, refl, true, none, some, List, [], ◌∷◌, all, get_elem?, distinct,
}
use ai_pr_reviewer.Store.{Text}
use ai_pr_reviewer.Context.Paths.{split, join, collapse, normalize, dirname_of, build_file_index}
use ai_pr_reviewer.Context.Resolve.{
  has_scheme, first_hit, shapes, lookup, first_candidate, resolve_import_specifier,
}
use ai_pr_reviewer.Context.Walk.{
  Entry, Edges, hops_of, neighbours, visit, walk_from, walk_queue, walk_bfs,
}
use ai_pr_reviewer.Context.Reached.{IsReached}
use ai_pr_reviewer.Context.Normal.{is_plain, normalize_is_canonical, import_resolves_to_a_file}
use ai_pr_reviewer.Context.Shortest.{IsShortest, walk_finds-IsShortest}

-- `a/./b/../c`
abbrev dotted : Text
dotted = 97 ∷ 47 ∷ 46 ∷ 47 ∷ 98 ∷ 47 ∷ 46 ∷ 46 ∷ 47 ∷ 99 ∷ []

normal_dotted : normalize dotted ≡ 97 ∷ 47 ∷ 99 ∷ []
unfolding normalize join collapse split
normal_dotted = refl

normalize_is_canonical_example :
    (normalize (normalize dotted) ≡ normalize dotted)
    × ((normalize dotted ≡ []) ⊎ (all is_plain (split (normalize dotted)) ≡ true))
normalize_is_canonical_example = normalize_is_canonical dotted

-- `a/c.ts`
abbrev file : Text
file = 97 ∷ 47 ∷ 99 ∷ 46 ∷ 116 ∷ 115 ∷ []

-- `./c` imported by `a/b`
resolved_file :
    resolve_import_specifier
      (46 ∷ 47 ∷ 99 ∷ [])
      (97 ∷ 47 ∷ 98 ∷ [])
      (build_file_index (file ∷ []))
      none
    ≡ some file
unfolding resolve_import_specifier has_scheme first_candidate lookup first_hit shapes dirname_of
    build_file_index normalize join collapse split distinct
resolved_file = refl

import_resolves_to_a_file_example :
    ((i : ℕ) × (p : Text) × (get_elem? (file ∷ []) i ≡ some p) × (normalize p ≡ file))
    × (normalize file ≡ file)
import_resolves_to_a_file_example =
    import_resolves_to_a_file (46 ∷ 47 ∷ 99 ∷ []) (97 ∷ 47 ∷ 98 ∷ []) (file ∷ []) none file
      resolved_file

abbrev a : Text
a = 97 ∷ []

abbrev b : Text
b = 98 ∷ []

abbrev c : Text
c = 99 ∷ []

-- `a` imports `b`, and `b` imports `c`.
abbrev imports : Edges
imports = (a, b ∷ []) ∷ (b, c ∷ []) ∷ []

abbrev importers : Edges
importers = (b, a ∷ []) ∷ (c, b ∷ []) ∷ []

walk_from_a : walk_bfs (a ∷ []) imports importers 1 ≡ some ((a, 0) ∷ (b, 1) ∷ [])
unfolding walk_bfs walk_queue walk_from visit
walk_from_a = refl

walk_finds-IsShortest_example :
    let near = neighbours imports importers in
    (r : List Entry) × (walk_bfs (a ∷ []) imports importers 1 ≡ some r)
    × ((x : Text) (d : ℕ) → hops_of x r ≡ some d → IsShortest near (a ∷ []) x d × (d ≤ 1))
    × ((x : Text) (m : ℕ) → IsReached near (a ∷ []) m x → m ≤ 1 → (d : ℕ) × (hops_of x r ≡ some d))
walk_finds-IsShortest_example = walk_finds-IsShortest (a ∷ []) imports importers 1
