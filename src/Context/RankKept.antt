-- ===== src/Context/RankKept.antt =====
-- What holds of every candidate holds of those that the ranking keeps.
use ai_pr_reviewer.Prelude.{
  ℕ, ◌≡◌, refl, inl, inr, Bool, true, false, not, ◌&&◌, List, [], ◌∷◌, ◌++◌, arith, ltb, leb,
  Bool-cases, all, length, find_first, ◌∙◌,
}
use ai_pr_reviewer.Store.{Text}
use ai_pr_reviewer.Context.Rank.{
  keep_next, Relation, Candidate, relation_in, groups, includes, insert_candidate, sort_candidates,
  add_found, reserve, fill, keep_ranked, rank_candidates,
}

module _ (p : Candidate → Bool) where
  all-insert :
      (le : Text → Text → Bool) (c : Candidate) (cs : List Candidate)
      → all p (insert_candidate le c cs) ≡ p c && all p cs
  unfolding insert_candidate
  all-insert le c [] = refl
  all-insert le c (d ∷ ds) = ground (arith, all-insert le c ds)

  all-sort :
      (le : Text → Text → Bool) (cs : List Candidate) → all p (sort_candidates le cs) ≡ all p cs
  unfolding sort_candidates
  all-sort le [] = refl
  all-sort le (c ∷ cs) = ground (arith, all-insert le c (sort_candidates le cs), all-sort le cs)

  all-append :
      (xs : List Candidate) (c : Candidate)
      → all p xs ≡ true
      → p c ≡ true
      → all p (xs ++ c ∷ []) ≡ true
  all-append [] c h l = rw l refl
  all-append (x ∷ xs) c h l = ground (arith, all-append xs c)

  all-found :
      (q : Candidate → Bool) (xs kept : List Candidate)
      → all p xs ≡ true
      → all p kept ≡ true
      → all p (add_found (find_first q xs) kept) ≡ true
  all-found q [] kept h l = l
  all-found q (x ∷ xs) kept h l = elim (Bool-cases (q x)) [
    | inl hit ↦ rw hit (all-append kept x l (ground arith))
    | inr miss ↦ rw miss (all-found q xs kept (ground arith) l)
  ]

  all-reserve :
      (n : ℕ) (sorted : List Candidate) (gs : List (List Relation)) (kept : List Candidate)
      → all p sorted ≡ true
      → all p kept ≡ true
      → all p (reserve n sorted gs kept) ≡ true
  unfolding reserve
  all-reserve n sorted [] kept h l = l
  all-reserve n sorted (g ∷ gs) kept h l =
      let later =
        all-reserve n sorted gs (add_found (find_first (relation_in g) sorted) kept) h
          (all-found (relation_in g) sorted kept h l) in
      elim (Bool-cases (leb n (length kept))) [ inl full ↦ rw full l | inr room ↦ rw room later ]

  all-fill :
      (n : ℕ) (cs kept : List Candidate)
      → all p cs ≡ true
      → all p kept ≡ true
      → all p (fill n cs kept) ≡ true
  unfolding fill
  all-fill n [] kept h l = l
  all-fill n (c ∷ cs) kept h l =
      let add = all-append kept c l (ground arith) in
      all-fill n cs (keep_next n c kept) (ground arith)
        (elim (Bool-cases (ltb (length kept) n && not (includes kept c))) [
          | inl go ↦ rw go add
          | inr stop ↦ rw stop l
        ])

  pub all-kept :
      (le : Text → Text → Bool) (candidates : List Candidate) (n : ℕ) (balance : Bool)
      → all p candidates ≡ true
      → all p (rank_candidates le candidates n balance).kept ≡ true
  unfolding rank_candidates keep_ranked
  all-kept le candidates n true h =
      let s = all-sort le candidates ∙ h in
      all-fill n (sort_candidates le candidates) _ s
        (all-reserve n (sort_candidates le candidates) groups [] s refl)
  all-kept le candidates n false h =
      all-fill n (sort_candidates le candidates) [] (all-sort le candidates ∙ h) refl
