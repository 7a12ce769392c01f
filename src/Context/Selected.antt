-- ===== src/Context/Selected.antt =====
-- The candidates of `selectContextFiles`: those of the walk and the tests added by name.
use ai_pr_reviewer.Prelude.{
  ℕ, suc, ◌≡◌, refl, subst, inl, inr, Bool, true, false, not, ◌&&◌, ◌||◌, some, List, [], ◌∷◌,
  arith, ltb, leb, Bool-cases, all, keep, length, map,
}
use ai_pr_reviewer.Store.{Text, text_eq, text_eq-eq}
use ai_pr_reviewer.Context.Walk.{Entry, Edges, targets_of}
use ai_pr_reviewer.Context.Reach.{is_among, count_changed_reach-some}
use ai_pr_reviewer.Context.Rank.{Candidate, includes}
use ai_pr_reviewer.Context.Graph.{NeighbourWalkInput, is_given}
use ai_pr_reviewer.Context.Select.{
  reasons_of, barrel_of, relation_of, sequence, add_tests, match_names, with_tests, closest_tests,
  candidate_of, is_neighbour,
}
use ai_pr_reviewer.Context.HopBound.{is_within, add_tests-within, has_entry, add_tests-has_entry}

-- A candidate that is near and not changed.
abbrev pub is_near : ℕ → List Text → Candidate → Bool
is_near max_hops changed c = leb c.hops max_hops && not (is_among changed c.path)

module _ (locale_le : Text → Text → Bool) (extract_imports : Text → List Text)
    (is_barrel_file is_test_path : Text → Bool) (matches_related : Text → Text → Bool) where
  -- No entry is too far, and the path `x` has one where `S` holds.
  abbrev pub IsKept : Type 0 → ℕ → Text → List Entry → Type 0
  IsKept S max_hops x hops = (all (is_within max_hops) hops ≡ true) × (S → has_entry x hops ≡ true)

  abbrev named :
      ℕ → List Text → List Text → List Entry → List Entry × List Text → List Entry × List Text
  named = match_names locale_le extract_imports is_barrel_file is_test_path matches_related

  match_names-IsKept :
      (S : Type 0) (max_hops : ℕ) (x : Text) (changed tests : List Text) (sources hops : List Entry)
      (matched : List Text)
      → IsKept S max_hops x hops
      → IsKept S max_hops x (named max_hops changed tests sources (hops, matched)).0
  unfolding match_names
  match_names-IsKept S max_hops x changed tests [] hops matched h = h
  match_names-IsKept S max_hops x changed tests ((source, hop) ∷ sources) hops matched (w, i) =
      let ts =
        closest_tests locale_le extract_imports is_barrel_file is_test_path matches_related changed
          tests source in
      let s = add_tests (suc hop) ts (hops, matched) in
      elim (Bool-cases (leb max_hops hop || is_test_path source)) [
        | inl skip ↦
            rw (skip, match_names)
              (match_names-IsKept S max_hops x changed tests sources hops matched (w, i))
        | inr go ↦
            rw (go, match_names)
              (match_names-IsKept S max_hops x changed tests sources s.0 s.1 (
                add_tests-within max_hops (suc hop) ts hops matched (ground arith) w,
                (λ z. add_tests-has_entry x (suc hop) ts hops matched (i z)),
              ))
      ]

  pub with_tests-IsKept :
      (S : Type 0) (input : NeighbourWalkInput) (x : Text) (changed : List Text) (hops : List Entry)
      → IsKept S input.max_hops x hops
      → IsKept S input.max_hops x
          (with_tests locale_le extract_imports is_barrel_file is_test_path matches_related input
            changed hops).0
  unfolding with_tests
  with_tests-IsKept S input x changed hops h =
      elim (Bool-cases (is_given input.indexed_imports && ltb 0 input.max_hops)) [
        | inl named_too ↦ rw named_too (
            match_names-IsKept S input.max_hops x changed (keep is_test_path input.all_paths) hops
              hops [] h)
        | inr plain ↦ rw plain h
      ]

  abbrev new_candidate :
      NeighbourWalkInput → List Text → List Text → Edges → Edges → Text → ℕ → ℕ → Candidate
  new_candidate input changed matched forward reverse path hop reach = record {
    path = path;
    hops = hop;
    reasons =
        reasons_of locale_le extract_imports is_barrel_file is_test_path matches_related changed
          matched forward reverse path;
    changed_reach = reach;
    in_degree = length (targets_of path reverse);
    is_barrel =
        barrel_of locale_le extract_imports is_barrel_file is_test_path matches_related input path;
    relation = some (
        relation_of locale_le extract_imports is_barrel_file is_test_path matches_related changed
          matched forward reverse path);
  }

  pub candidates-some :
      (input : NeighbourWalkInput) (changed matched : List Text) (forward reverse : Edges)
      (es : List Entry)
      → all (is_within input.max_hops) es ≡ true
      → (cs : List Candidate) × (sequence (
            map
              (candidate_of locale_le extract_imports is_barrel_file is_test_path matches_related
                input changed matched forward reverse)
              (keep (is_neighbour changed) es))
          ≡ some cs)
        × (all (is_near input.max_hops changed) cs ≡ true)
        × ((c : Candidate)
            → is_among changed c.path ≡ false
            → has_entry c.path es ≡ true
            → includes cs c ≡ true)
  unfolding candidate_of
  candidates-some input changed matched forward reverse [] w = ([], refl, refl, λ c n h. cc)
  candidates-some input changed matched forward reverse ((path, hop) ∷ es) w =
      let (cs, ran, near, has) =
        candidates-some input changed matched forward reverse es (ground arith) in
      let (reach, counted) = count_changed_reach-some path changed forward reverse in
      elim (Bool-cases (is_among changed path)) [
        | inl is_changed ↦ rw is_changed (
          cs,
          ran,
          near,
          (λ c n h. elim (Bool-cases (text_eq path c.path)) [
            | inl same ↦
                let e = text_eq-eq path c.path same in
                let also : is_among changed c.path ≡ true =
                  subst (λ p. is_among changed p ≡ true) e is_changed in
                cc
            | inr other ↦ has c n (rw other at h)
          ]),
        )
        | inr new ↦
            let first = new_candidate input changed matched forward reverse path hop reach in
            rw (new, counted, candidate_of, ran)
              (
                first ∷ cs,
                refl,
                ground arith,
                (λ c n h. elim (Bool-cases (text_eq path c.path)) [
                  | inl same ↦ rw same refl
                  | inr other ↦ rw other (has c n (rw other at h))
                ]),
              )
      ]
