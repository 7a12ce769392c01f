-- ===== src/Context/Normal.antt =====
-- Normal paths: what `normalize` leaves, and that imports resolve to files of the index only.
use ai_pr_reviewer.Prelude.{
  ℕ, ◌≡◌, refl, sym, ap, subst, ◌∙◌, ◌⊎◌, inl, inr, Bool, true, false, not, ◌&&◌, ◌||◌, Option,
  some, List, [], ◌∷◌, ◌++◌, arith, ◌==◌, Bool-cases, Option-cases, any, all, any-distinct, map,
  get_elem?, suc,
}
use ai_pr_reviewer.Store.{Text, text_eq, text_eq-eq}
use ai_pr_reviewer.Context.Paths.{
  slash, prepend, split, join, is_here, is_parent, push_segment, collapse, reverse_onto, normalize,
  build_file_index, get,
}
use ai_pr_reviewer.Context.Resolve.{
  PathAliases, first_hit, shapes, lookup, first_candidate, candidates_of, resolve_import_specifier,
  has_scheme,
}

unfoldable pub has_no_slash : Text → Bool
has_no_slash s = all (λ c. not (c == slash)) s

-- A segment that names a file or a directory.
unfoldable pub is_plain : Text → Bool
is_plain s = not (is_here s) && (not (is_parent s) && has_no_slash s)

prepend-has_no_slash :
    (c : ℕ) (ss : List Text)
    → (c == slash) ≡ false
    → all has_no_slash ss ≡ true
    → all has_no_slash (prepend c ss) ≡ true
unfolding has_no_slash
prepend-has_no_slash c [] h a = ground arith
prepend-has_no_slash c (s ∷ ss) h a = ground arith

split-has_no_slash : (t : Text) → all has_no_slash (split t) ≡ true
unfolding split has_no_slash
split-has_no_slash [] = refl
split-has_no_slash (c ∷ t) = elim (Bool-cases (c == slash)) [
  | inl here ↦ rw here (split-has_no_slash t)
  | inr other ↦ rw other (prepend-has_no_slash c (split t) other (split-has_no_slash t))
]

collapse-plain :
    (out ss : List Text)
    → all is_plain out ≡ true
    → all has_no_slash ss ≡ true
    → all is_plain (collapse out ss) ≡ true
unfolding collapse is_plain
collapse-plain out [] h a = h
collapse-plain out (s ∷ ss) h a =
    collapse-plain (push_segment s out) ss (pushed out h) (ground arith)
  where
    pushed : (out : List Text) → all is_plain out ≡ true → all is_plain (push_segment s out) ≡ true
    pushed [] h = ground arith
    pushed (u ∷ us) h = ground arith

reverse_onto-plain :
    (ss done : List Text)
    → all is_plain ss ≡ true
    → all is_plain done ≡ true
    → all is_plain (reverse_onto ss done) ≡ true
reverse_onto-plain [] done h d = d
reverse_onto-plain (s ∷ ss) done h d =
    reverse_onto-plain ss (s ∷ done) (ground arith) (ground arith)

split-plain : (s : Text) → has_no_slash s ≡ true → split s ≡ s ∷ []
unfolding split has_no_slash
split-plain [] h = refl
split-plain (c ∷ s) h = ground (arith, split-plain s)

split-append : (s t : Text) → has_no_slash s ≡ true → split (s ++ slash ∷ t) ≡ s ∷ split t
unfolding split has_no_slash
split-append [] t h = refl
split-append (c ∷ s) t h = ground (arith, split-append s t)

plain-has_no_slash : (s : Text) → is_plain s ≡ true → has_no_slash s ≡ true
unfolding is_plain
plain-has_no_slash s h = ground arith

split-join :
    (s : Text) (ss : List Text) → all is_plain (s ∷ ss) ≡ true → split (join (s ∷ ss)) ≡ s ∷ ss
unfolding join
split-join s [] h = split-plain s (plain-has_no_slash s (ground arith))
split-join s (u ∷ ss) h =
    split-append s (join (u ∷ ss)) (plain-has_no_slash s (ground arith))
    ∙ ap (λ x. s ∷ x) (split-join u ss (ground arith))

collapse-of_plain :
    (out ss : List Text) → all is_plain ss ≡ true → collapse out ss ≡ reverse_onto ss out
unfolding collapse is_plain
collapse-of_plain out [] h = refl
collapse-of_plain out (s ∷ ss) h = ground (arith, collapse-of_plain (s ∷ out) ss)

reverse_onto-twice :
    (a b c : List Text) → reverse_onto (reverse_onto a b) c ≡ reverse_onto b (a ++ c)
reverse_onto-twice [] b c = refl
reverse_onto-twice (s ∷ a) b c = reverse_onto-twice a (s ∷ b) c

append-nil : (a : List Text) → a ++ [] ≡ a
append-nil [] = refl
append-nil (s ∷ a) = ap (λ x. s ∷ x) (append-nil a)

normalize-join : (ss : List Text) → all is_plain ss ≡ true → normalize (join ss) ≡ join ss
unfolding normalize
normalize-join [] h = unfold split collapse join in refl
normalize-join (s ∷ ss) h =
    ap (λ x. join (reverse_onto (collapse [] x) [])) (split-join s ss h)
    ∙ ap (λ x. join (reverse_onto x [])) (collapse-of_plain [] (s ∷ ss) h)
    ∙ ap join (reverse_onto-twice (s ∷ ss) [] [] ∙ append-nil (s ∷ ss))

-- The segments of a normal path.
abbrev segments : Text → List Text
segments p = reverse_onto (collapse [] (split p)) []

segments-plain : (p : Text) → all is_plain (segments p) ≡ true
segments-plain p =
    reverse_onto-plain (collapse [] (split p)) []
      (collapse-plain [] (split p) refl (split-has_no_slash p)) refl

normal_segments :
    (ss : List Text)
    → all is_plain ss ≡ true
    → (join ss ≡ []) ⊎ (all is_plain (split (join ss)) ≡ true)
normal_segments [] h = inl (unfold join in refl)
normal_segments (s ∷ ss) h = inr (rw (split-join s ss h) h)

-- `normalize` leaves no empty, `.` or `..` segment: its result is the root or a path of names, and
-- to normalize it again changes nothing.
pub normalize_is_canonical :
    (p : Text)
    → (normalize (normalize p) ≡ normalize p)
      × ((normalize p ≡ []) ⊎ (all is_plain (split (normalize p)) ≡ true))
unfolding normalize
normalize_is_canonical p = (
  normalize-join (segments p) (segments-plain p),
  normal_segments (segments p) (segments-plain p),
)

get-in :
    (t : Text) (index : List Text) {hit : Text}
    → get t index ≡ some hit
    → any (text_eq hit) index ≡ true
get-in [] index e = cc
get-in (c ∷ t) index {hit} e = elim (Bool-cases (any (text_eq (c ∷ t)) index)) [
  | inr out ↦ absurd (cc (rw out at e))
  | inl in_index ↦
      let same : some (c ∷ t) ≡ some hit = rw in_index at e in
      let whole : c ∷ t ≡ hit = cc in subst (λ x. any (text_eq x) index ≡ true) whole in_index
]

first_hit-in :
    (ts index : List Text) {hit : Text}
    → first_hit ts index ≡ some hit
    → any (text_eq hit) index ≡ true
unfolding first_hit
first_hit-in [] index e = cc
first_hit-in (t ∷ ts) index {hit} e = elim (Option-cases (get t index)) [
  | inl miss ↦ first_hit-in ts index (rw (miss, first_hit) at e)
  | inr (found, at_t) ↦ get-in t index (at_t ∙ (rw (at_t, first_hit) at e))
]

first_candidate-in :
    (index ts : List Text) {hit : Text}
    → first_candidate index ts ≡ some hit
    → any (text_eq hit) index ≡ true
unfolding first_candidate lookup
first_candidate-in index [] e = cc
first_candidate-in index (t ∷ ts) {hit} e = elim (Option-cases (lookup index t)) [
  | inl miss ↦ first_candidate-in index ts (rw (miss, first_candidate) at e)
  | inr (found, at_t) ↦
      first_hit-in (shapes (normalize t)) index (at_t ∙ (rw (at_t, first_candidate) at e))
]

resolve-in :
    (specifier from_file : Text) (index : List Text) (aliases : Option PathAliases) {hit : Text}
    → resolve_import_specifier specifier from_file index aliases ≡ some hit
    → any (text_eq hit) index ≡ true
unfolding resolve_import_specifier
resolve-in specifier from_file index aliases {hit} e =
    elim (Bool-cases (text_eq specifier [] || has_scheme specifier)) [
      | inl external ↦ absurd (cc (rw (external, resolve_import_specifier) at e))
      | inr internal ↦
          first_candidate-in index (candidates_of specifier from_file aliases)
            (rw (internal, resolve_import_specifier) at e)
    ]

any-map-witness :
    (hit : Text) (paths : List Text)
    → any (text_eq hit) (map normalize paths) ≡ true
    → (i : ℕ) × (p : Text) × (get_elem? paths i ≡ some p) × (normalize p ≡ hit)
any-map-witness hit [] h = cc
any-map-witness hit (p ∷ paths) h = elim (Bool-cases (text_eq hit (normalize p))) [
  | inl same ↦ (0, p, refl, sym (text_eq-eq hit (normalize p) same))
  | inr other ↦ let (i, q, at, e) = any-map-witness hit paths (rw other at h) in (suc i, q, at, e)
]

-- An import resolves only to a file of the repository: in the index of the given paths, its result is
-- the normal form of one of them, and is itself normal.
pub import_resolves_to_a_file :
    (specifier from_file : Text) (paths : List Text) (aliases : Option PathAliases) (hit : Text)
    → resolve_import_specifier specifier from_file (build_file_index paths) aliases ≡ some hit
    → ((i : ℕ) × (p : Text) × (get_elem? paths i ≡ some p) × (normalize p ≡ hit))
      × (normalize hit ≡ hit)
unfolding build_file_index
import_resolves_to_a_file specifier from_file paths aliases hit e =
    let (i, p, at, same) = any-map-witness hit paths (
      any-distinct text_eq (text_eq hit) [] (map normalize paths)
        (resolve-in specifier from_file (build_file_index paths) aliases e)) in
    let again : normalize hit ≡ hit =
      subst (λ h. normalize h ≡ h) same (normalize_is_canonical p).0 in
    ((i, p, at, same), again)
