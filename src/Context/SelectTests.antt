-- ===== src/Context/SelectTests.antt =====
-- The ranking and the selection at a concrete repository.
use ai_pr_reviewer.Prelude.{
  ℕ, ◌≡◌, ◌≤◌, ◌⊎◌, Bool, true, false, none, some, List, [], ◌∷◌, all, length,
}
use ai_pr_reviewer.Store.{Text}
use ai_pr_reviewer.Context.Reached.{IsReached}
use ai_pr_reviewer.Context.Reach.{is_among}
use ai_pr_reviewer.Context.Rank.{Candidate, caller, includes, rank_candidates}
use ai_pr_reviewer.Context.RankLaws.{ranking_keeps_or_drops}
use ai_pr_reviewer.Context.Graph.{NeighbourWalkInput, NeighbourWalkResult}
use ai_pr_reviewer.Context.Select.{select_context_files}
use ai_pr_reviewer.Context.Selected.{is_near}
use ai_pr_reviewer.Context.Selection.{near_of, changed_of, selection_is_bounded_and_complete}

abbrev order : Text → Text → Bool
order a b = true

abbrev near_one : Candidate
near_one = record {
  path = 97 ∷ [];
  hops = 1;
  reasons = [];
  changed_reach = 1;
  in_degree = 0;
  is_barrel = false;
  relation = some caller;
}

abbrev far_one : Candidate
far_one = record near_one { path = 98 ∷ []; hops = 2 }

abbrev two : List Candidate
two = far_one ∷ near_one ∷ []

ranking_keeps_or_drops_example :
    let r = rank_candidates order two 1 true in
    (length r.kept ≤ 1)
    × ((r.dropped ≡ []) ⊎ (length r.kept ≡ 1))
    × ((c : Candidate)
        → includes two c ≡ true
        → (includes r.kept c ≡ true) ⊎ (includes r.dropped c ≡ true))
ranking_keeps_or_drops_example = ranking_keeps_or_drops order two 1 true

-- `a.ts` imports `./b`.
abbrev a_ts : Text
a_ts = 97 ∷ 46 ∷ 116 ∷ 115 ∷ []

abbrev b_ts : Text
b_ts = 98 ∷ 46 ∷ 116 ∷ 115 ∷ []

abbrev input : NeighbourWalkInput
input = record {
  changed_paths = b_ts ∷ [];
  contents = (a_ts, 46 ∷ 47 ∷ 98 ∷ []) ∷ (b_ts, []) ∷ [];
  all_paths = a_ts ∷ b_ts ∷ [];
  aliases = none;
  max_hops = 2;
  max_files = 5;
  indexed_imports = none;
}

-- A file whose text is one specifier imports it.
abbrev imports : Text → List Text
imports [] = []
imports (c ∷ t) = (c ∷ t) ∷ []

abbrev no_test : Text → Bool
no_test t = false

selection_is_bounded_and_complete_example :
    (r : NeighbourWalkResult) × (select_context_files order imports no_test no_test
        (λ a b. false)
        input
      ≡ some r)
    × (length r.candidates ≤ 5)
    × (all (is_near 2 (changed_of order imports no_test no_test (λ a b. false) input)) r.candidates
        ≡ true)
    × ((c : Candidate) (m : ℕ)
        → IsReached
            (near_of order imports no_test no_test (λ a b. false) input)
            (changed_of order imports no_test no_test (λ a b. false) input)
            m
            c.path
        → m ≤ 2
        → is_among (changed_of order imports no_test no_test (λ a b. false) input) c.path ≡ false
        → (includes r.candidates c ≡ true) ⊎ (includes r.dropped c ≡ true))
selection_is_bounded_and_complete_example =
    selection_is_bounded_and_complete order imports no_test no_test (λ a b. false) input
