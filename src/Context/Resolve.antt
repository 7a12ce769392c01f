-- ===== src/Context/Resolve.antt =====
-- `resolveImportSpecifier` of services/import-graph.service.ts and what it calls.
use ai_pr_reviewer.Prelude.{
  ℕ, zero, suc, Bool, true, false, not, ◌&&◌, ◌||◌, Option, none, some, List, [], ◌∷◌, ◌++◌, leb,
  ◌==◌, if◌then◌else◌, map,
}
use ai_pr_reviewer.Store.{Text, text_eq}
use ai_pr_reviewer.Context.Paths.{slash, dot, normalize, starts_with, join_path, dirname_of, get}

-- `wildcard` may be missing.
pub record AliasEntry : Type 0 where
  pub prefix : Text
  pub targets : List Text
  pub wildcard : Option Bool

pub record PathAliases : Type 0 where
  pub base_url : Text
  pub entries : List AliasEntry

abbrev pub is_letter : ℕ → Bool
is_letter c = (leb 65 c && leb c 90) || (leb 97 c && leb c 122)

-- `[a-z0-9+.-]` without regard to case.
abbrev pub is_scheme_character : ℕ → Bool
is_scheme_character c =
    is_letter c || ((leb 48 c && leb c 57) || ((c == 43) || ((c == 46) || (c == 45))))

abbrev pub ends_scheme : Text → Bool
ends_scheme [] = false
ends_scheme (c ∷ t) = if is_scheme_character c then ends_scheme t else c == 58

-- `/^[a-z][a-z0-9+.-]*:/i`
unfoldable pub has_scheme : Text → Bool
has_scheme [] = false
has_scheme (c ∷ t) = is_letter c && ends_scheme t

-- `slice(n)`
abbrev pub drop : ℕ → Text → Text
drop zero t = t
drop (suc n) [] = []
drop (suc n) (c ∷ t) = drop n t

abbrev pub text_length : Text → ℕ
text_length [] = 0
text_length (c ∷ t) = suc (text_length t)

-- `replace(/^\//, '')`
abbrev pub drop_slash : Text → Text
drop_slash [] = []
drop_slash (c ∷ t) = if c == slash then t else c ∷ t

-- The replacement text of `String.replace`: `$$`, `$&`, and the text before and after the match.
unfoldable pub expand : Text → Text → Text → Text
expand before after [] = []
expand before after (c ∷ []) = c ∷ []
expand before after (c ∷ d ∷ t) =
    let plain = c ∷ expand before after (d ∷ t) in
    let rest = expand before after t in
    if not (c == 36)
    then plain
    else if d == 36
    then 36 ∷ rest
    else if d == 38
    then 42 ∷ rest
    else if d == 96
    then before ++ rest
    else if d == 39
    then after ++ rest
    else plain

-- `target.replace('*', rest)`; `before` is what was passed of the target.
unfoldable pub replace_star : Text → Text → Text → Text
replace_star before [] rest = before
replace_star before (c ∷ t) rest =
    let later = replace_star (before ++ c ∷ []) t rest in
    if c == 42 then before ++ (expand before t rest ++ t) else later

abbrev pub alias_matches : Text → AliasEntry → Bool
alias_matches specifier entry = elim entry.wildcard [
  | some false ↦ text_eq specifier entry.prefix
  | some true ↦ text_eq specifier entry.prefix || starts_with (entry.prefix ++ slash ∷ []) specifier
  | none ↦ text_eq specifier entry.prefix || starts_with (entry.prefix ++ slash ∷ []) specifier
]

abbrev pub alias_target : Text → Text → Text → Text
alias_target base_url rest target = join_path base_url (replace_star [] target rest)

abbrev pub entry_candidates : Text → Text → AliasEntry → List Text
entry_candidates base_url specifier entry =
    map (alias_target base_url (drop_slash (drop (text_length entry.prefix) specifier)))
      entry.targets

unfoldable pub alias_candidates : Text → Text → List AliasEntry → List Text
alias_candidates base_url specifier [] = []
alias_candidates base_url specifier (entry ∷ entries) =
    let rest = alias_candidates base_url specifier entries in
    if alias_matches specifier entry
    then entry_candidates base_url specifier entry ++ rest
    else rest

-- `CONTEXT_SOURCE_EXTENSIONS`, in its order.
abbrev pub source_extensions : List Text
source_extensions =
    (46 ∷ 116 ∷ 115 ∷ [])
    ∷ (46 ∷ 116 ∷ 115 ∷ 120 ∷ [])
    ∷ (46 ∷ 106 ∷ 115 ∷ [])
    ∷ (46 ∷ 106 ∷ 115 ∷ 120 ∷ [])
    ∷ (46 ∷ 109 ∷ 116 ∷ 115 ∷ [])
    ∷ (46 ∷ 99 ∷ 116 ∷ 115 ∷ [])
    ∷ (46 ∷ 109 ∷ 106 ∷ 115 ∷ [])
    ∷ (46 ∷ 99 ∷ 106 ∷ 115 ∷ [])
    ∷ []

-- `/index`
abbrev pub index_suffix : Text
index_suffix = 47 ∷ 105 ∷ 110 ∷ 100 ∷ 101 ∷ 120 ∷ []

-- `.js`, `.mjs`, `.cjs`, and what TypeScript compiles to them.
abbrev pub compiled_extensions : List Text
compiled_extensions =
    (46 ∷ 106 ∷ 115 ∷ []) ∷ (46 ∷ 109 ∷ 106 ∷ 115 ∷ []) ∷ (46 ∷ 99 ∷ 106 ∷ 115 ∷ []) ∷ []

abbrev pub typescript_extensions : List Text
typescript_extensions = (46 ∷ 116 ∷ 115 ∷ []) ∷ (46 ∷ 116 ∷ 115 ∷ 120 ∷ []) ∷ []

-- The text before a suffix that it ends with.
abbrev pub stem_of : Text → Text → Option Text
stem_of suffix [] = if text_eq suffix [] then some [] else none
stem_of suffix (c ∷ t) =
    let rest = stem_of suffix t in
    if text_eq suffix (c ∷ t) then some [] else elim rest [ none ↦ none | some s ↦ some (c ∷ s) ]

-- The first text of a list that the index has.
unfoldable pub first_hit : List Text → List Text → Option Text
first_hit [] index = none
first_hit (t ∷ ts) index = elim (get t index) [ none ↦ first_hit ts index | some hit ↦ some hit ]

abbrev pub with_stem : Option Text → List Text
with_stem none = []
with_stem (some stem) = map (λ e. stem ++ e) typescript_extensions

abbrev pub compiled_shapes : Text → List Text → List Text
compiled_shapes clean [] = []
compiled_shapes clean (e ∷ es) = with_stem (stem_of e clean) ++ compiled_shapes clean es

-- The shapes that `lookup` tries, in order.
unfoldable pub shapes : Text → List Text
shapes clean =
    clean
    ∷ (map (λ e. clean ++ e) source_extensions
        ++ (map (λ e. clean ++ (index_suffix ++ e)) source_extensions
            ++ compiled_shapes clean compiled_extensions))

unfoldable pub lookup : List Text → Text → Option Text
lookup index base = first_hit (shapes (normalize base)) index

unfoldable pub first_candidate : List Text → List Text → Option Text
first_candidate index [] = none
first_candidate index (t ∷ ts) = elim (lookup index t) [
  | none ↦ first_candidate index ts
  | some hit ↦ some hit
]

abbrev pub candidates_of : Text → Text → Option PathAliases → List Text
candidates_of specifier from_file aliases =
    if starts_with (dot ∷ []) specifier
    then join_path (dirname_of from_file) specifier ∷ []
    else elim aliases [ none ↦ [] | some a ↦ alias_candidates a.base_url specifier a.entries ]

unfoldable pub resolve_import_specifier : Text → Text → List Text → Option PathAliases → Option Text
resolve_import_specifier specifier from_file index aliases =
    if text_eq specifier [] || has_scheme specifier
    then none
    else first_candidate index (candidates_of specifier from_file aliases)
