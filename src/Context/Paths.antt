-- ===== src/Context/Paths.antt =====
-- The paths of services/import-graph.service.ts: `normalize`, `joinPath`, `dirnameOf` and
-- `buildFileIndex`.
use ai_pr_reviewer.Prelude.{
  ℕ, Bool, true, false, ◌||◌, Option, none, some, List, [], ◌∷◌, ◌++◌, ◌==◌, if◌then◌else◌, any,
  distinct, map,
}
use ai_pr_reviewer.Store.{Text, text_eq}

abbrev pub slash : ℕ
slash = 47

abbrev pub dot : ℕ
dot = 46

abbrev pub prepend : ℕ → List Text → List Text
prepend c [] = (c ∷ []) ∷ []
prepend c (s ∷ ss) = (c ∷ s) ∷ ss

-- `path.split('/')`
unfoldable pub split : Text → List Text
split [] = [] ∷ []
split (c ∷ t) = let rest = split t in if c == slash then [] ∷ rest else prepend c rest

-- `out.join('/')`
unfoldable pub join : List Text → Text
join [] = []
join (s ∷ []) = s
join (s ∷ u ∷ ss) = s ++ slash ∷ join (u ∷ ss)

abbrev pub is_here : Text → Bool
is_here s = text_eq s [] || text_eq s (dot ∷ [])

abbrev pub is_parent : Text → Bool
is_parent s = text_eq s (dot ∷ dot ∷ [])

-- `out.pop()`, on the reversed array.
abbrev pub pop : List Text → List Text
pop [] = []
pop (s ∷ out) = out

abbrev pub push_segment : Text → List Text → List Text
push_segment s out = if is_here s then out else if is_parent s then pop out else s ∷ out

-- The loop, with `out` reversed.
unfoldable pub collapse : List Text → List Text → List Text
collapse out [] = out
collapse out (s ∷ ss) = collapse (push_segment s out) ss

abbrev pub reverse_onto : List Text → List Text → List Text
reverse_onto [] done = done
reverse_onto (s ∷ ss) done = reverse_onto ss (s ∷ done)

unfoldable pub normalize : Text → Text
normalize path = join (reverse_onto (collapse [] (split path)) [])

abbrev pub starts_with : Text → Text → Bool
starts_with [] t = true
starts_with (c ∷ p) [] = false
starts_with (c ∷ p) (d ∷ t) = if c == d then starts_with p t else false

abbrev pub join_path : Text → Text → Text
join_path base rel =
    if starts_with (slash ∷ []) rel then normalize rel else normalize (base ++ slash ∷ rel)

-- `path.slice(0, path.lastIndexOf('/'))`, empty without a slash.
unfoldable pub dirname_of : Text → Text
dirname_of [] = []
dirname_of (c ∷ t) = let rest = c ∷ dirname_of t in if any (λ d. d == slash) t then rest else []

-- The keys of the index; every key is its own value.
unfoldable pub build_file_index : List Text → List Text
build_file_index paths = distinct text_eq [] (map normalize paths)

-- `fileIndex.get(path)`, where the empty path is falsy.
abbrev pub get : Text → List Text → Option Text
get [] index = none
get (c ∷ t) index = if any (text_eq (c ∷ t)) index then some (c ∷ t) else none
