-- ===== src/Context/Rank.antt =====
-- `rankCandidates` of services/context-retrieval.service.ts. Candidates have distinct paths, so that
-- `includes` compares these.
use ai_pr_reviewer.Prelude.{
  ℕ, Bool, false, not, ◌&&◌, ◌||◌, Option, none, some, List, [], ◌∷◌, ◌++◌, ltb, leb, ◌==◌,
  if◌then◌else◌, any, keep, length, find_first,
}
use ai_pr_reviewer.Store.{Text, text_eq}

pub data Relation : Type 0 where
  test caller dependency transitive likely_test : Relation

-- Paths of a prompt line, and how many more there are.
pub record Listing : Type 0 where
  pub shown : List Text
  pub hidden : ℕ

-- The texts of `reasons`.
pub data Reason : Type 0 where
  imported_by_changed imports_changed imported_by : Listing → Reason
  connected_test connected_within_graph likely_related_test : Reason

pub record Candidate : Type 0 where
  pub path : Text
  pub hops : ℕ
  pub reasons : List Reason
  pub changed_reach : ℕ
  pub in_degree : ℕ
  pub is_barrel : Bool
  pub relation : Option Relation

abbrev pub relation_code : Relation → ℕ
relation_code test = 0
relation_code caller = 1
relation_code dependency = 2
relation_code transitive = 3
relation_code likely_test = 4

abbrev pub relation_in : List Relation → Candidate → Bool
relation_in group c = elim c.relation [
  | none ↦ false
  | some r ↦ any (λ g. relation_code g == relation_code r) group
]

abbrev pub groups : List (List Relation)
groups = (caller ∷ []) ∷ (test ∷ likely_test ∷ []) ∷ (dependency ∷ []) ∷ []

abbrev pub includes : List Candidate → Candidate → Bool
includes kept c = any (λ k. text_eq k.path c.path) kept

-- `localeCompare` of two paths is at most 0.
module _ (locale_le : Text → Text → Bool) where
  -- The comparison of two candidates is at most 0.
  unfoldable pub ranks_before : Candidate → Candidate → Bool
  ranks_before a b =
      if (a.is_barrel && not b.is_barrel) || (not a.is_barrel && b.is_barrel)
      then not a.is_barrel
      else if not (a.hops == b.hops)
      then ltb a.hops b.hops
      else if not (b.changed_reach == a.changed_reach)
      then ltb b.changed_reach a.changed_reach
      else if not (a.in_degree == b.in_degree)
      then ltb a.in_degree b.in_degree
      else locale_le a.path b.path

  unfoldable pub insert_candidate : Candidate → List Candidate → List Candidate
  insert_candidate c [] = c ∷ []
  insert_candidate c (d ∷ ds) =
      let rest = insert_candidate c ds in if ranks_before c d then c ∷ d ∷ ds else d ∷ rest

  -- The stable `sort`.
  unfoldable pub sort_candidates : List Candidate → List Candidate
  sort_candidates [] = []
  sort_candidates (c ∷ cs) = insert_candidate c (sort_candidates cs)

abbrev pub add_found : Option Candidate → List Candidate → List Candidate
add_found none kept = kept
add_found (some c) kept = kept ++ c ∷ []

-- One representative of each group while there is room.
unfoldable pub reserve : ℕ → List Candidate → List (List Relation) → List Candidate → List Candidate
reserve max_files sorted [] kept = kept
reserve max_files sorted (group ∷ more) kept =
    if leb max_files (length kept)
    then kept
    else reserve max_files sorted more (add_found (find_first (relation_in group) sorted) kept)

abbrev pub keep_next : ℕ → Candidate → List Candidate → List Candidate
keep_next max_files c kept =
    if ltb (length kept) max_files && not (includes kept c) then kept ++ c ∷ [] else kept

-- The slots that are left, in the order of the ranking.
unfoldable pub fill : ℕ → List Candidate → List Candidate → List Candidate
fill max_files [] kept = kept
fill max_files (c ∷ cs) kept = fill max_files cs (keep_next max_files c kept)

pub record Ranking : Type 0 where
  pub kept : List Candidate
  pub dropped : List Candidate

unfoldable pub keep_ranked : ℕ → Bool → List Candidate → List Candidate
keep_ranked max_files balance sorted =
    fill max_files sorted (if balance then reserve max_files sorted groups [] else [])

unfoldable pub rank_candidates : (Text → Text → Bool) → List Candidate → ℕ → Bool → Ranking
rank_candidates locale_le candidates max_files balance =
    let sorted = sort_candidates locale_le candidates in
    let kept = keep_ranked max_files balance sorted in
    record { kept = kept; dropped = keep (λ c. not (includes kept c)) sorted }
