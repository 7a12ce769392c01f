-- ===== src/Context/Selection.antt =====
-- What `selectContextFiles` selects.
use ai_pr_reviewer.Prelude.{
  ℕ, ◌≤◌, ◌≡◌, refl, ◌⊎◌, Bool, true, false, some, List, [], ◌∷◌, arith, all, keep, length,
  distinct, map,
}
use ai_pr_reviewer.Store.{Text, text_eq}
use ai_pr_reviewer.Context.Paths.{build_file_index}
use ai_pr_reviewer.Context.Walk.{Edges, neighbours, walk_bfs, at_start, turns}
use ai_pr_reviewer.Context.Reached.{IsReached}
use ai_pr_reviewer.Context.Reach.{is_among}
use ai_pr_reviewer.Context.Rank.{Candidate, includes, rank_candidates}
use ai_pr_reviewer.Context.RankLaws.{ranking_keeps_or_drops}
use ai_pr_reviewer.Context.Shortest.{walk_finds-IsShortest}
use ai_pr_reviewer.Context.Graph.{NeighbourWalkInput, NeighbourWalkResult, is_given, reverse_edges}
use ai_pr_reviewer.Context.Select.{
  with_tests, result_of, select_among, select_context_files, forward_edges,
}
use ai_pr_reviewer.Context.RankKept.{all-kept}
use ai_pr_reviewer.Context.HopBound.{is_within, walk_queue-within, has_entry, hops-has_entry}
use ai_pr_reviewer.Context.Selected.{with_tests-IsKept, is_near, candidates-some}

starts-within :
    (max_hops : ℕ) (changed : List Text) → all (is_within max_hops) (map at_start changed) ≡ true
starts-within max_hops [] = refl
starts-within max_hops (c ∷ cs) = ground (arith, starts-within max_hops cs)

module _ (locale_le : Text → Text → Bool) (extract_imports : Text → List Text)
    (is_barrel_file is_test_path : Text → Bool) (matches_related : Text → Text → Bool) where
  abbrev pub index_of : NeighbourWalkInput → List Text
  index_of input = build_file_index input.all_paths

  -- The changed files of the repository, and the graph of its imports.
  abbrev pub changed_of : NeighbourWalkInput → List Text
  changed_of input = distinct text_eq [] (keep (is_among (index_of input)) input.changed_paths)

  abbrev pub forward_of : NeighbourWalkInput → Edges
  forward_of input =
      forward_edges locale_le extract_imports is_barrel_file is_test_path matches_related input
        (index_of input)

  abbrev pub near_of : NeighbourWalkInput → Text → List Text
  near_of input = neighbours (forward_of input) (reverse_edges (forward_of input) [])

  -- The selection gives a result. It has at most `max_files` files, each within `max_hops` and none
  -- of them changed, and a file that is not changed and that some walk over at most `max_hops`
  -- imports reaches from a changed one is selected or reported as dropped.
  pub selection_is_bounded_and_complete :
      (input : NeighbourWalkInput)
      → (r : NeighbourWalkResult) × (select_context_files locale_le extract_imports is_barrel_file
            is_test_path matches_related input
          ≡ some r)
        × (length r.candidates ≤ input.max_files)
        × (all (is_near input.max_hops (changed_of input)) r.candidates ≡ true)
        × ((c : Candidate) (m : ℕ)
            → IsReached (near_of input) (changed_of input) m c.path
            → m ≤ input.max_hops
            → is_among (changed_of input) c.path ≡ false
            → (includes r.candidates c ≡ true) ⊎ (includes r.dropped c ≡ true))
  unfolding select_context_files select_among walk_bfs
  selection_is_bounded_and_complete input =
      let changed = changed_of input in
      let forward = forward_of input in
      let reverse = reverse_edges forward [] in
      let near = neighbours forward reverse in
      let (hops, walked, shortest, complete) =
        walk_finds-IsShortest changed forward reverse input.max_hops in
      let within =
        walk_queue-within input.max_hops near (turns changed forward reverse) (map at_start changed)
          (map at_start changed) hops (starts-within input.max_hops changed) walked in
      let (more, matched) =
        with_tests locale_le extract_imports is_barrel_file is_test_path matches_related input
          changed hops in
      let kept = λ (x : Text).
        with_tests-IsKept locale_le extract_imports is_barrel_file is_test_path matches_related
          (has_entry x hops ≡ true) input x changed hops (within, (λ h. h)) in
      let (cs, ran, near_by, has) =
        candidates-some locale_le extract_imports is_barrel_file is_test_path matches_related input
          changed matched forward reverse more (kept []).0 in
      let balance = is_given input.indexed_imports in
      let (le, full, parts) = ranking_keeps_or_drops locale_le cs input.max_files balance in
      rw (walked, select_among, ran)
        (
          result_of (rank_candidates locale_le cs input.max_files balance),
          refl,
          le,
          all-kept (is_near input.max_hops changed) locale_le cs input.max_files balance near_by,
          (λ c m reached short new.
              let (d, at) = complete c.path m reached short in
              parts c (has c new ((kept c.path).1 (hops-has_entry c.path hops at)))),
        )
