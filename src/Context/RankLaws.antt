-- ===== src/Context/RankLaws.antt =====
-- The ranking keeps as many candidates as it may, and loses none.
use ai_pr_reviewer.Prelude.{
  ℕ, ◌≤◌, ◌≡◌, ◌+◌, refl, ◌⊎◌, inl, inr, Bool, true, false, not, ◌&&◌, ◌||◌, Option, none, some,
  List, [], ◌∷◌, ◌++◌, arith, ltb, leb, if◌then◌else◌, Bool-cases, any, keep, length, length-append,
  find_first, any-append_left, any-append_last, ◌∙◌, sym, subst, ltb→le,
}
use ai_pr_reviewer.Store.{Text, text_eq, text_eq-eq}
use ai_pr_reviewer.Context.Reached.{text_eq_self}
use ai_pr_reviewer.Context.Rank.{
  keep_next, Relation, Candidate, relation_in, groups, includes, insert_candidate, sort_candidates,
  add_found, reserve, fill, keep_ranked, rank_candidates,
}

any-insert :
    (le : Text → Text → Bool) (p : Candidate → Bool) (c : Candidate) (cs : List Candidate)
    → any p (insert_candidate le c cs) ≡ p c || any p cs
unfolding insert_candidate
any-insert le p c [] = refl
any-insert le p c (d ∷ ds) = ground (arith, any-insert le p c ds)

any-sort :
    (le : Text → Text → Bool) (p : Candidate → Bool) (cs : List Candidate)
    → any p (sort_candidates le cs) ≡ any p cs
unfolding sort_candidates
any-sort le p [] = refl
any-sort le p (c ∷ cs) = ground (arith, any-insert le p c (sort_candidates le cs), any-sort le p cs)

reserve-le :
    (n : ℕ) (sorted : List Candidate) (gs : List (List Relation)) (kept : List Candidate)
    → length kept ≤ n
    → length (reserve n sorted gs kept) ≤ n
unfolding reserve
reserve-le n sorted [] kept le = le
reserve-le n sorted (g ∷ gs) kept le = elim (Bool-cases (leb n (length kept))) [
  | inl full ↦ rw full le
  | inr room ↦ rw room (
      reserve-le n sorted gs (add_found (find_first (relation_in g) sorted) kept)
        (added (find_first (relation_in g) sorted) (ground arith)))
]
  where
    added : (o : Option Candidate) → length kept + 1 ≤ n → length (add_found o kept) ≤ n
    added none below = omega arith
    added (some c) below = let e = length-append kept (c ∷ []) in omega arith

keep_next-le :
    (n : ℕ) (c : Candidate) (kept : List Candidate)
    → length kept ≤ n
    → length (keep_next n c kept) ≤ n
keep_next-le n c kept le = elim (Bool-cases (ltb (length kept) n && not (includes kept c))) [
  | inl add ↦ rw add (let e = length-append kept (c ∷ []) in ground arith)
  | inr leave ↦ rw leave le
]

fill-le : (n : ℕ) (cs kept : List Candidate) → length kept ≤ n → length (fill n cs kept) ≤ n
unfolding fill
fill-le n [] kept le = le
fill-le n (c ∷ cs) kept le = fill-le n cs (keep_next n c kept) (keep_next-le n c kept le)

keep_next-includes :
    (n : ℕ) (c d : Candidate) (kept : List Candidate)
    → includes kept d ≡ true
    → includes (keep_next n c kept) d ≡ true
keep_next-includes n c d kept h = elim (Bool-cases (ltb (length kept) n && not (includes kept c))) [
  | inl add ↦ rw add (any-append_left (λ k. text_eq k.path d.path) kept (c ∷ []) h)
  | inr leave ↦ rw leave h
]

fill-includes :
    (n : ℕ) (cs kept : List Candidate) (d : Candidate)
    → includes kept d ≡ true
    → includes (fill n cs kept) d ≡ true
unfolding fill
fill-includes n [] kept d h = h
fill-includes n (c ∷ cs) kept d h =
    fill-includes n cs (keep_next n c kept) d (keep_next-includes n c d kept h)

fill-grows : (n : ℕ) (cs kept : List Candidate) → length kept ≤ length (fill n cs kept)
unfolding fill
fill-grows n [] kept = omega arith
fill-grows n (c ∷ cs) kept =
    let later = fill-grows n cs (keep_next n c kept) in
    elim (Bool-cases (ltb (length kept) n && not (includes kept c))) [
      | inl add ↦
          let e = length-append kept (c ∷ []) in
          let grown : length (kept ++ c ∷ []) ≤ length (fill n cs (kept ++ c ∷ [])) =
            rw add at later in
          rw add (omega arith)
      | inr leave ↦ rw leave (rw leave at later)
    ]

keep_next-met :
    (n : ℕ) (c d : Candidate) (kept : List Candidate)
    → ltb (length kept) n ≡ true
    → text_eq c.path d.path ≡ true
    → includes (keep_next n c kept) d ≡ true
keep_next-met n c d kept room same = elim (Bool-cases (includes kept c)) [
  | inl old ↦
      let e = text_eq-eq c.path d.path same in
      rw (room, old) (subst (λ p. any (λ k. text_eq k.path p) kept ≡ true) e old)
  | inr new ↦ rw (room, new) (any-append_last (λ k. text_eq k.path d.path) kept c same)
]

-- A pass that ends with room has kept every item it met.
fill-full :
    (n : ℕ) (cs kept : List Candidate)
    → length kept ≤ n
    → (length (fill n cs kept) ≡ n)
      ⊎ ((d : Candidate)
          → any (λ c. text_eq c.path d.path) cs ≡ true
          → includes (fill n cs kept) d ≡ true)
unfolding fill
fill-full n [] kept le = inr (λ d h. cc)
fill-full n (c ∷ cs) kept le =
    let later = fill-full n cs (keep_next n c kept) (keep_next-le n c kept le) in
    elim (Bool-cases (ltb (length kept) n)) [
      | inr full ↦ inl (
          let a = fill-le n cs (keep_next n c kept) (keep_next-le n c kept le) in
          let b = fill-grows n (c ∷ cs) kept in let f = ltb→le (length kept) n full in omega arith)
      | inl room ↦ elim later [
        | inl whole ↦ inl whole
        | inr rest ↦ inr (λ d h. met d room h (rest d))
      ]
    ]
  where
    met :
        (d : Candidate)
        → ltb (length kept) n ≡ true
        → any (λ c. text_eq c.path d.path) (c ∷ cs) ≡ true
        → (any (λ c. text_eq c.path d.path) cs ≡ true
            → includes (fill n cs (keep_next n c kept)) d ≡ true)
        → includes (fill n cs (keep_next n c kept)) d ≡ true
    met d room h rest = elim (Bool-cases (text_eq c.path d.path)) [
      | inl same ↦ fill-includes n cs (keep_next n c kept) d (keep_next-met n c d kept room same)
      | inr other ↦ rest (rw other at h)
    ]

reserved : ℕ → Bool → List Candidate → List Candidate
reserved n balance sorted = if balance then reserve n sorted groups [] else []

reserved-le :
    (n : ℕ) (balance : Bool) (sorted : List Candidate) → length (reserved n balance sorted) ≤ n
unfolding reserved
reserved-le n true sorted = reserve-le n sorted groups [] (omega arith)
reserved-le n false sorted = omega arith

none-dropped :
    (kept cs : List Candidate)
    → ((d : Candidate) → any (λ c. text_eq c.path d.path) cs ≡ true → includes kept d ≡ true)
    → keep (λ c. not (includes kept c)) cs ≡ []
none-dropped kept [] h = refl
none-dropped kept (c ∷ cs) h =
    rw (h c (rw (text_eq_self c.path) refl)) (none-dropped kept cs (λ d m. h d (ground arith)))

dropped-any :
    (kept cs : List Candidate) (d : Candidate)
    → any (λ c. text_eq c.path d.path) cs ≡ true
    → includes kept d ≡ false
    → any (λ c. text_eq c.path d.path) (keep (λ c. not (includes kept c)) cs) ≡ true
dropped-any kept [] d h out = cc
dropped-any kept (c ∷ cs) d h out = elim (Bool-cases (text_eq c.path d.path)) [
  | inl same ↦
      let e = text_eq-eq c.path d.path same in
      let fresh : includes kept c ≡ false =
        subst (λ p. any (λ k. text_eq k.path p) kept ≡ false) (sym e) out in
      rw (fresh, same) refl
  | inr other ↦
      let later = dropped-any kept cs d (rw other at h) out in
      elim (Bool-cases (includes kept c)) [
        | inl old ↦ rw old later
        | inr new ↦ rw (new, other) later
      ]
]

-- At most `max_files` candidates are kept, and exactly so many where one is dropped; the path of each
-- candidate is among those that are kept or those that are dropped.
pub ranking_keeps_or_drops :
    (locale_le : Text → Text → Bool) (candidates : List Candidate) (max_files : ℕ) (balance : Bool)
    → let r = rank_candidates locale_le candidates max_files balance in
      (length r.kept ≤ max_files)
      × ((r.dropped ≡ []) ⊎ (length r.kept ≡ max_files))
      × ((c : Candidate)
          → includes candidates c ≡ true
          → (includes r.kept c ≡ true) ⊎ (includes r.dropped c ≡ true))
unfolding rank_candidates keep_ranked reserved
ranking_keeps_or_drops locale_le candidates n balance =
    let sorted = sort_candidates locale_le candidates in
    let kept = keep_ranked n balance sorted in
    let le = reserved-le n balance sorted in
    (
      fill-le n sorted (reserved n balance sorted) le,
      (elim (fill-full n sorted (reserved n balance sorted) le) [
        | inl full ↦ inr full
        | inr all_kept ↦ inl (none-dropped kept sorted all_kept)
      ]),
      (λ c h. elim (Bool-cases (includes kept c)) [
        | inl old ↦ inl old
        | inr new ↦ inr (
            dropped-any kept sorted c
              (any-sort locale_le (λ k. text_eq k.path c.path) candidates ∙ h) new)
      ]),
    )
