-- ===== src/Context/Select.antt =====
-- `selectContextFiles` of services/context-retrieval.service.ts and its helpers. Of other components it
-- calls `extractImports`, `isBarrelFile`, `isTestPath` and `matchesRelated`, which are arguments.
use ai_pr_reviewer.Prelude.{
  ℕ, suc, ◌-◌, Bool, true, false, not, ◌&&◌, ◌||◌, Option, none, some, List, [], ◌∷◌, ◌++◌, ltb,
  leb, ◌==◌, if◌then◌else◌, any, keep, take, length, distinct, map,
}
use ai_pr_reviewer.Store.{Text, text_eq}
use ai_pr_reviewer.Findings.Dedup.{sort_words}
use ai_pr_reviewer.Context.Paths.{build_file_index}
use ai_pr_reviewer.Context.Resolve.{PathAliases, resolve_import_specifier}
use ai_pr_reviewer.Context.Walk.{Entry, Edges, hops_of, targets_of, walk_bfs}
use ai_pr_reviewer.Context.Reach.{is_among, count_changed_reach}
use ai_pr_reviewer.Context.Rank.{
  Relation, test, caller, dependency, transitive, likely_test, Listing, Reason, imported_by_changed,
  imports_changed, imported_by, connected_test, connected_within_graph, likely_related_test,
  Candidate, Ranking, rank_candidates,
}
use ai_pr_reviewer.Context.Graph.{
  NeighbourWalkInput, NeighbourWalkResult, indexed_at, is_given, is_readable, or_empty,
  package_scope, reverse_edges, shared_directory_depth, value_of,
}

-- At most four paths in order, and how many more there are.
abbrev pub sort_for_prompt : List Text → Listing
sort_for_prompt paths = record { shown = take 4 (sort_words paths); hidden = length paths - 4 }

abbrev pub one_if : Bool → Reason → List Reason
one_if true r = r ∷ []
one_if false r = []

abbrev pub is_nil : List Text → Bool
is_nil [] = true
is_nil (t ∷ ts) = false

abbrev pub or_connected : List Reason → List Reason
or_connected [] = connected_within_graph ∷ []
or_connected (r ∷ rs) = r ∷ rs

abbrev pub sequence : List (Option Candidate) → Option (List Candidate)
sequence [] = some []
sequence (none ∷ cs) = none
sequence (some c ∷ cs) = elim (sequence cs) [ none ↦ none | some ds ↦ some (c ∷ ds) ]

-- `matched` is `nameMatched`.
unfoldable pub add_tests : ℕ → List Text → List Entry × List Text → List Entry × List Text
add_tests hop [] s = s
add_tests hop (t ∷ ts) (hops, matched) = elim (hops_of t hops) [
  | some d ↦ add_tests hop ts (hops, matched)
  | none ↦ add_tests hop ts (hops ++ (t, hop) ∷ [], t ∷ matched)
]

abbrev pub is_neighbour : List Text → Entry → Bool
is_neighbour changed (path, hop) = not (is_among changed path)

abbrev pub result_of : Ranking → NeighbourWalkResult
result_of r = record {
  candidates = r.kept;
  dropped = r.dropped;
  truncated = ltb 0 (length r.dropped);
}

module _ (locale_le : Text → Text → Bool) (extract_imports : Text → List Text)
    (is_barrel_file is_test_path : Text → Bool) (matches_related : Text → Text → Bool) where
  abbrev pub specifiers_of : NeighbourWalkInput → Text → List Text
  specifiers_of input path = elim (indexed_at path input) [
    | some row ↦ row.specifiers
    | none ↦ extract_imports (or_empty (value_of path input.contents))
  ]

  abbrev pub barrel_of : NeighbourWalkInput → Text → Bool
  barrel_of input path = elim (indexed_at path input) [
    | some row ↦ row.barrel
    | none ↦ is_barrel_file (or_empty (value_of path input.contents))
  ]

  -- The files that a file imports, itself and what does not resolve left out.
  unfoldable pub imported_files : List Text → Option PathAliases → Text → List Text → List Text
  imported_files index aliases path [] = []
  imported_files index aliases path (s ∷ specifiers) =
      let rest = imported_files index aliases path specifiers in
      elim (resolve_import_specifier s path index aliases) [
        | none ↦ rest
        | some target ↦ if text_eq target path then rest else target ∷ rest
      ]

  unfoldable pub forward_edges : NeighbourWalkInput → List Text → Edges
  forward_edges input index =
      map
        (λ path. (
          path,
          distinct text_eq [] (imported_files index input.aliases path (specifiers_of input path)),
        ))
        (keep (is_readable input) input.all_paths)

  abbrev pub closer_test : Text → Text → Text → Bool
  closer_test source a b =
      let depth_a = shared_directory_depth source a in
      let depth_b = shared_directory_depth source b in
      if depth_a == depth_b then locale_le a b else ltb depth_b depth_a

  unfoldable pub insert_test : Text → Text → List Text → List Text
  insert_test source t [] = t ∷ []
  insert_test source t (u ∷ us) =
      let rest = insert_test source t us in if closer_test source t u then t ∷ u ∷ us else u ∷ rest

  unfoldable pub sort_tests : Text → List Text → List Text
  sort_tests source [] = []
  sort_tests source (t ∷ ts) = insert_test source t (sort_tests source ts)

  abbrev pub is_close_match : List Text → Text → Text → Bool
  is_close_match changed source t =
      not (is_among changed t)
      && (matches_related source t && text_eq (package_scope source) (package_scope t))

  -- The two closest tests of a source.
  unfoldable pub closest_tests : List Text → List Text → Text → List Text
  closest_tests changed tests source =
      take 2 (sort_tests source (keep (is_close_match changed source) tests))

  unfoldable pub match_names :
      ℕ → List Text → List Text → List Entry → List Entry × List Text → List Entry × List Text
  match_names max_hops changed tests [] s = s
  match_names max_hops changed tests ((source, hop) ∷ sources) s =
      match_names max_hops changed tests sources (
        if leb max_hops hop || is_test_path source
        then s
        else add_tests (suc hop) (closest_tests changed tests source) s)

  unfoldable pub with_tests : NeighbourWalkInput → List Text → List Entry → List Entry × List Text
  with_tests input changed hops =
      if is_given input.indexed_imports && ltb 0 input.max_hops
      then match_names input.max_hops changed (keep is_test_path input.all_paths) hops (hops, [])
      else (hops, [])

  unfoldable pub describe_relations : Text → List Text → Edges → Edges → List Reason
  describe_relations path changed forward reverse =
      let all_importers = targets_of path reverse in
      let importers = keep (is_among changed) all_importers in
      let imported = keep (is_among changed) (targets_of path forward) in
      or_connected (
        one_if (not (is_nil importers)) (imported_by_changed (sort_for_prompt importers))
        ++ (one_if (not (is_nil imported)) (imports_changed (sort_for_prompt imported))
            ++ (one_if (is_nil importers && not (is_nil all_importers))
                  (imported_by (sort_for_prompt (take 3 all_importers)))
                ++ one_if (is_test_path path) connected_test)))

  abbrev pub relation_of : List Text → List Text → Edges → Edges → Text → Relation
  relation_of changed matched forward reverse path =
      if is_among matched path
      then likely_test
      else if is_test_path path
      then test
      else if any (is_among changed) (targets_of path forward)
      then caller
      else if any (is_among changed) (targets_of path reverse)
      then dependency
      else transitive

  abbrev pub reasons_of : List Text → List Text → Edges → Edges → Text → List Reason
  reasons_of changed matched forward reverse path =
      if is_among matched path
      then likely_related_test ∷ []
      else describe_relations path changed forward reverse

  unfoldable pub candidate_of :
      NeighbourWalkInput → List Text → List Text → Edges → Edges → Entry → Option Candidate
  candidate_of input changed matched forward reverse (path, hop) =
      elim (count_changed_reach path changed forward reverse) [
        | none ↦ none
        | some reach ↦ some (record {
          path = path;
          hops = hop;
          reasons = reasons_of changed matched forward reverse path;
          changed_reach = reach;
          in_degree = length (targets_of path reverse);
          is_barrel = barrel_of input path;
          relation = some (relation_of changed matched forward reverse path);
        })
      ]

  unfoldable pub select_among :
      NeighbourWalkInput
      → List Text
      → Edges
      → Edges
      → List Entry × List Text
      → Option NeighbourWalkResult
  select_among input changed forward reverse (hops, matched) =
      elim (sequence (
        map (candidate_of input changed matched forward reverse)
          (keep (is_neighbour changed) hops))) [
            | none ↦ none
            | some candidates ↦ some (
                result_of (
                  rank_candidates locale_le candidates input.max_files
                    (is_given input.indexed_imports)))
          ]

  abbrev pub select_hops :
      NeighbourWalkInput
      → List Text
      → Edges
      → Edges
      → Option (List Entry)
      → Option NeighbourWalkResult
  select_hops input changed forward reverse none = none
  select_hops input changed forward reverse (some hops) =
      select_among input changed forward reverse (with_tests input changed hops)

  -- `none` where a loop runs out of the turns it is given.
  unfoldable pub select_context_files : NeighbourWalkInput → Option NeighbourWalkResult
  select_context_files input =
      let index = build_file_index input.all_paths in
      let changed = distinct text_eq [] (keep (is_among index) input.changed_paths) in
      let forward = forward_edges input index in
      let reverse = reverse_edges forward [] in
      select_hops input changed forward reverse (walk_bfs changed forward reverse input.max_hops)
