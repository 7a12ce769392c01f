-- ===== src/Findings/Coverage.antt =====
-- The loop of `deduplicate`: every finding that it has seen has a survivor that stands for it.
use ai_pr_reviewer.Prelude.{
  ℕ, zero, suc, ◌≡◌, refl, sym, subst, ◌∙◌, ◌⊎◌, inl, inr, Bool, true, Option, none, some, List, [],
  ◌∷◌, arith, ltb, Bool-cases, Option-cases, length, get_elem?, find_index, update_at,
  find_index-holds, get_elem?-update_at_self, get_elem?-append_left, get_elem?-append_last,
}
use ai_pr_reviewer.Store.{Text}
use ai_pr_reviewer.Findings.Taxonomy.{AiSuggestion}
use ai_pr_reviewer.Findings.Dedup.{
  merge, same_anchor, LooseKey, key_eq, get_key, Kept, checked, or_else, normalize_path, loose_key,
  is_exact, is_nearby, merge_target, add_finding, add_findings, deduplicate,
}
use ai_pr_reviewer.Findings.Survivors.{
  text_eq→eq, category_eq→eq, Covers, Covers-refl, Covers-trans, merge-Covers_existing,
  merge-Covers_incoming,
}

checked-holds :
    (p : AiSuggestion → Bool) (kept : List AiSuggestion) (o : Option ℕ) {i : ℕ}
    → checked p kept o ≡ some i
    → o ≡ some i
checked-holds p kept none e = cc
checked-holds p kept (some j) e = ground arith

or_else-cases : (a b : Option ℕ) {i : ℕ} → or_else a b ≡ some i → (a ≡ some i) ⊎ (b ≡ some i)
or_else-cases none b e = inr e
or_else-cases (some a) b e = inl e

module _ (lower : Text → Text) (tokenize : Text → List Text) where
  abbrev HasPlace : AiSuggestion → AiSuggestion → Type 0
  HasPlace f k =
      (normalize_path lower k.file_path ≡ normalize_path lower f.file_path)
      × (k.agent_type ≡ f.agent_type)

  -- An entry of `byLooseKey` leads to a kept finding of its path and category.
  abbrev IsIndexed : Kept → Type 0
  IsIndexed s =
      (key : LooseKey) (i : ℕ)
      → get_key key s.by_loose_key ≡ some i
      → (k : AiSuggestion) × (get_elem? s.kept i ≡ some k)
        × (normalize_path lower k.file_path ≡ key.path)
        × (k.agent_type ≡ key.category)

  -- Some kept finding stands for `f`.
  abbrev pub IsCovered : AiSuggestion → List AiSuggestion → Type 0
  IsCovered f kept = (i : ℕ) × (k : AiSuggestion) × (get_elem? kept i ≡ some k) × Covers lower k f

  exact-HasPlace : (f k : AiSuggestion) → is_exact lower tokenize f k ≡ true → HasPlace f k
  unfolding is_exact
  exact-HasPlace f k h = (text_eq→eq _ _ (ground arith), category_eq→eq _ _ (ground arith))

  nearby-HasPlace : (f k : AiSuggestion) → is_nearby lower tokenize f k ≡ true → HasPlace f k
  unfolding is_nearby
  nearby-HasPlace f k h = (text_eq→eq _ _ (ground arith), category_eq→eq _ _ (ground arith))

  target-HasPlace :
      (s : Kept) (f : AiSuggestion) {i : ℕ}
      → IsIndexed s
      → merge_target lower tokenize s f ≡ some i
      → (k : AiSuggestion) × (get_elem? s.kept i ≡ some k) × HasPlace f k
  unfolding merge_target
  target-HasPlace s f {i} ix e =
      elim (or_else-cases (find_index (is_exact lower tokenize f) s.kept) _ e) [
        | inl exact ↦
            let (k, at, h) = find_index-holds (is_exact lower tokenize f) s.kept exact in
            (k, at, exact-HasPlace f k h)
        | inr rest ↦
            elim (or_else-cases
              (checked (λ k. same_anchor k f) s.kept
                (get_key (loose_key lower tokenize f) s.by_loose_key))
              _ rest) [
                | inl loose ↦
                    let (k, at, p, c) =
                      ix (loose_key lower tokenize f) i (checked-holds _ s.kept _ loose) in
                    (k, at, (p, c))
                | inr near ↦
                    let (k, at, h) =
                      find_index-holds (is_nearby lower tokenize f) s.kept
                        (checked-holds _ s.kept _ near) in
                    (k, at, nearby-HasPlace f k h)
              ]
      ]

  merge-kept :
      (f : AiSuggestion) (i : ℕ) (kept : List AiSuggestion) (j : ℕ) {k : AiSuggestion}
      → get_elem? kept j ≡ some k
      → (k' : AiSuggestion) × (get_elem? (update_at i (λ x. merge x f) kept) j ≡ some k')
        × Covers lower k' k
  merge-kept f i [] j e = cc
  merge-kept f zero (x ∷ kept) zero e = (
    merge x f,
    refl,
    subst (Covers lower (merge x f)) (ground arith) (merge-Covers_existing lower x f),
  )
  merge-kept f zero (x ∷ kept) (suc j) {k} e = (k, e, Covers-refl lower k)
  merge-kept f (suc i) (x ∷ kept) zero {k} e = (k, e, Covers-refl lower k)
  merge-kept f (suc i) (x ∷ kept) (suc j) e = merge-kept f i kept j e

  -- A step keeps every kept finding in its place, or puts there one that stands for it.
  add-kept :
      (s : Kept) (f : AiSuggestion) (j : ℕ) {k : AiSuggestion}
      → get_elem? s.kept j ≡ some k
      → (k' : AiSuggestion) × (get_elem? (add_finding lower tokenize s f).kept j ≡ some k')
        × Covers lower k' k
  unfolding add_finding
  add-kept s f j {k} e = elim (Option-cases (merge_target lower tokenize s f)) [
    | inl fresh ↦
        rw (fresh, add_finding) (k, get_elem?-append_left s.kept (f ∷ []) j e, Covers-refl lower k)
    | inr (i, hit) ↦ rw (hit, add_finding) (merge-kept f i s.kept j e)
  ]

  add-IsCovered :
      (s : Kept) (f : AiSuggestion)
      → IsIndexed s
      → IsCovered f (add_finding lower tokenize s f).kept
  unfolding add_finding
  add-IsCovered s f ix = elim (Option-cases (merge_target lower tokenize s f)) [
    | inl fresh ↦
        rw (fresh, add_finding)
          (length s.kept, f, get_elem?-append_last s.kept f, Covers-refl lower f)
    | inr (i, hit) ↦
        let (k, at, (p, c)) = target-HasPlace s f ix hit in
        rw (hit, add_finding)
          (
            i,
            merge k f,
            get_elem?-update_at_self i (λ x. merge x f) s.kept at,
            merge-Covers_incoming lower k f p c,
          )
  ]

  get_key-cons {ℓ} :
      {P : Type ℓ} (new key : LooseKey) (n : ℕ) (rows : List (LooseKey × ℕ)) {i : ℕ}
      → P
      → get_key key ((new, n) ∷ rows) ≡ some i
      → (get_key key rows ≡ some i) ⊎ P × (key_eq new key ≡ true) × (i ≡ n)
  get_key-cons new key n rows p e = elim (Bool-cases (key_eq new key)) [
    | inl same ↦ inr (p, same, ground arith)
    | inr different ↦ inl (rw different at e)
  ]

  add-get_key :
      (s : Kept) (f : AiSuggestion) (key : LooseKey) {i : ℕ}
      → get_key key (add_finding lower tokenize s f).by_loose_key ≡ some i
      → (get_key key s.by_loose_key ≡ some i)
        ⊎ (merge_target lower tokenize s f ≡ none)
          × (key_eq (loose_key lower tokenize f) key ≡ true)
          × (i ≡ length s.kept)
  unfolding add_finding
  add-get_key s f key {i} e = elim (Option-cases (merge_target lower tokenize s f)) [
    | inl fresh ↦
        get_key-cons (loose_key lower tokenize f) key (length s.kept) s.by_loose_key fresh
          (rw (fresh, add_finding) at e)
    | inr (j, hit) ↦ inl (rw (hit, add_finding) at e)
  ]

  add-last :
      (s : Kept) (f : AiSuggestion)
      → merge_target lower tokenize s f ≡ none
      → get_elem? (add_finding lower tokenize s f).kept (length s.kept) ≡ some f
  unfolding add_finding
  add-last s f fresh = rw (fresh, add_finding) (get_elem?-append_last s.kept f)

  add-IsIndexed :
      (s : Kept) (f : AiSuggestion) → IsIndexed s → IsIndexed (add_finding lower tokenize s f)
  add-IsIndexed s f ix key i e = elim (add-get_key s f key e) [
    | inl old ↦
        let (k, at, p, c) = ix key i old in
        let (k', at', covers) = add-kept s f i at in (k', at', covers.path ∙ p, covers.category ∙ c)
    | inr (fresh, same, last) ↦ (
      f,
      subst (λ n. get_elem? (add_finding lower tokenize s f).kept n ≡ some f) (sym last)
          (add-last s f fresh),
      text_eq→eq _ _ (ground arith),
      category_eq→eq _ _ (ground arith),
    )
  ]

  adds-kept :
      (s : Kept) (fs : List AiSuggestion) (j : ℕ) {k : AiSuggestion}
      → get_elem? s.kept j ≡ some k
      → (k' : AiSuggestion) × (get_elem? (add_findings lower tokenize s fs).kept j ≡ some k')
        × Covers lower k' k
  unfolding add_findings
  adds-kept s [] j {k} e = (k, e, Covers-refl lower k)
  adds-kept s (f ∷ fs) j e =
      let (k, at, covers) = add-kept s f j e in
      let (k', at', covers') = adds-kept (add_finding lower tokenize s f) fs j at in
      (k', at', Covers-trans lower covers' covers)

  adds-IsCovered :
      (s : Kept) (fs : List AiSuggestion) (i : ℕ) {f : AiSuggestion}
      → IsIndexed s
      → get_elem? fs i ≡ some f
      → IsCovered f (add_findings lower tokenize s fs).kept
  unfolding add_findings
  adds-IsCovered s [] i ix e = cc
  adds-IsCovered s (g ∷ fs) (suc i) ix e =
      adds-IsCovered (add_finding lower tokenize s g) fs i (add-IsIndexed s g ix) e
  adds-IsCovered s (g ∷ fs) zero {f} ix e =
      let (j, k, at, covers) = add-IsCovered s g ix in
      let (k', at', covers') = adds-kept (add_finding lower tokenize s g) fs j at in
      subst
        (λ x. IsCovered x (add_findings lower tokenize (add_finding lower tokenize s g) fs).kept)
        (ground arith) (j, k', at', Covers-trans lower covers' covers)

  -- Merging hides no finding: every finding that goes in has a survivor of the same file and category
  -- that is at least as severe, whose source ranks no lower, and that stands at its line or an earlier
  -- one where it has a line.
  pub deduplicate_covers :
      (findings : List AiSuggestion) (i : ℕ) (f : AiSuggestion)
      → get_elem? findings i ≡ some f
      → IsCovered f (deduplicate lower tokenize findings)
  unfolding deduplicate
  deduplicate_covers findings i f e = elim (Bool-cases (ltb (length findings) 2)) [
    | inl few ↦ rw (few, deduplicate) (i, f, e, Covers-refl lower f)
    | inr many ↦
        rw (many, deduplicate)
          (adds-IsCovered (record { kept = []; by_loose_key = [] }) findings i nothing e)
  ]
    where
      nothing : IsIndexed (record { kept = []; by_loose_key = [] })
      nothing key j h = cc
