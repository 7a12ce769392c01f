-- ===== src/Context/Graph.antt =====
-- The input of `selectContextFiles` of services/context-retrieval.service.ts, its edges, and how near
-- two paths stand.
use ai_pr_reviewer.Prelude.{
  ℕ, suc, Bool, true, false, Option, none, some, List, [], ◌∷◌, ◌++◌, if◌then◌else◌, take,
}
use ai_pr_reviewer.Store.{Text, text_eq}
use ai_pr_reviewer.Context.Paths.{split, join}
use ai_pr_reviewer.Context.Resolve.{PathAliases}
use ai_pr_reviewer.Context.Walk.{Edges}
use ai_pr_reviewer.Context.Reach.{is_among}
use ai_pr_reviewer.Context.Rank.{Candidate}

pub record IndexedImports : Type 0 where
  pub specifiers : List Text
  pub barrel : Bool

pub record NeighbourWalkInput : Type 0 where
  pub changed_paths : List Text
  pub contents : List (Text × Text)
  pub all_paths : List Text
  pub aliases : Option PathAliases
  pub max_hops : ℕ
  pub max_files : ℕ
  pub indexed_imports : Option (List (Text × IndexedImports))

pub record NeighbourWalkResult : Type 0 where
  pub candidates : List Candidate
  pub dropped : List Candidate
  pub truncated : Bool

-- `map.get(path)`
abbrev pub value_of {ℓ} : {A : Type ℓ} → Text → List (Text × A) → Option A
value_of path [] = none
value_of path ((p, a) ∷ rows) = if text_eq p path then some a else value_of path rows

abbrev pub is_given {ℓ} : {A : Type ℓ} → Option A → Bool
is_given none = false
is_given (some a) = true

abbrev pub or_empty : Option Text → Text
or_empty none = []
or_empty (some t) = t

-- `indexedImports?.get(path)`
abbrev pub indexed_at : Text → NeighbourWalkInput → Option IndexedImports
indexed_at path input = elim input.indexed_imports [ none ↦ none | some rows ↦ value_of path rows ]

abbrev pub is_readable : NeighbourWalkInput → Text → Bool
is_readable input path = elim input.indexed_imports [
  | none ↦ is_given (value_of path input.contents)
  | some rows ↦ is_given (value_of path rows)
]

-- `reverse.get(target).add(path)`
unfoldable pub add_importer : Text → Text → Edges → Edges
add_importer path target [] = (target, path ∷ []) ∷ []
add_importer path target ((t, importers) ∷ edges) =
    let rest = add_importer path target edges in
    if text_eq t target
    then (t, if is_among importers path then importers else importers ++ path ∷ []) ∷ edges
    else (t, importers) ∷ rest

unfoldable pub add_importers : Text → List Text → Edges → Edges
add_importers path [] edges = edges
add_importers path (target ∷ targets) edges =
    add_importers path targets (add_importer path target edges)

unfoldable pub reverse_edges : Edges → Edges → Edges
reverse_edges [] reverse = reverse
reverse_edges ((path, targets) ∷ forward) reverse =
    reverse_edges forward (add_importers path targets reverse)

-- `apps` and `packages`
abbrev pub package_roots : List Text
package_roots = (97 ∷ 112 ∷ 112 ∷ 115 ∷ []) ∷ (112 ∷ 97 ∷ 99 ∷ 107 ∷ 97 ∷ 103 ∷ 101 ∷ 115 ∷ []) ∷ []

abbrev pub scope_of : List Text → Text
scope_of [] = []
scope_of (root ∷ parts) = if is_among package_roots root then join (take 2 (root ∷ parts)) else []

unfoldable pub package_scope : Text → Text
package_scope path = scope_of (split path)

-- `slice(0, -1)`
abbrev pub without_last : List Text → List Text
without_last [] = []
without_last (s ∷ []) = []
without_last (s ∷ u ∷ ss) = s ∷ without_last (u ∷ ss)

abbrev pub common_prefix : List Text → List Text → ℕ
common_prefix [] right = 0
common_prefix (s ∷ left) [] = 0
common_prefix (s ∷ left) (u ∷ right) =
    let rest = common_prefix left right in if text_eq s u then suc rest else 0

unfoldable pub shared_directory_depth : Text → Text → ℕ
shared_directory_depth a b = common_prefix (without_last (split a)) (without_last (split b))
