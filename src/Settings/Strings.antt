-- ===== src/Settings/Strings.antt =====
-- The string functions of JavaScript that the settings and the findings use: `trim`, `length` and the code units.
use ai_pr_reviewer.Prelude.{
  ℕ, ◌+◌, ◌-◌, ◌/◌, ◌%◌, Bool, true, false, ◌||◌, ◌&&◌, leb, ◌==◌, if◌then◌else◌,
}
use Prim.Native.Char.{Char, code}
use Prim.Native.String.{String, [], ◌∷◌}
use mathlib.Core.List.{[] as nil, ◌∷◌ as ◌then◌}
use ai_pr_reviewer.Store.{Text}

-- The characters that `trim` removes.
abbrev pub is_blank : ℕ → Bool
is_blank c =
    (leb 9 c && leb c 13)
    || ((c == 32)
        || ((c == 160)
            || ((c == 5760)
                || ((leb 8192 c && leb c 8202)
                    || ((c == 8232)
                        || ((c == 8233)
                            || ((c == 8239)
                                || ((c == 8287) || ((c == 12288) || (c == 65279))))))))))

unfoldable pub trim_start : String → String
trim_start [] = []
trim_start (c ∷ t) = let rest = trim_start t in if is_blank (code c) then rest else c ∷ t

unfoldable pub trim_end : String → String
trim_end [] = []
trim_end (c ∷ t) = end_of c (trim_end t)
  where
    end_of : Char → String → String
    end_of c [] = if is_blank (code c) then [] else c ∷ []
    end_of c (d ∷ u) = c ∷ d ∷ u

unfoldable pub trim : String → String
trim t = trim_end (trim_start t)

-- `length`: UTF-16 code units.
unfoldable pub utf16_length : String → ℕ
utf16_length [] = 0
utf16_length (c ∷ t) = (if leb 65536 (code c) then 2 else 1) + utf16_length t

abbrev pub is_empty : String → Bool
is_empty [] = true
is_empty (c ∷ t) = false

-- The code units of a character: a pair of surrogates above the basic plane.
abbrev pub units_of : ℕ → Text → Text
units_of c rest =
    if leb 65536 c
    then (55296 + (c - 65536) / 1024)
    then ((56320 + (c - 65536) % 1024) then rest)
    else c then rest

unfoldable pub to_units : String → Text
to_units [] = nil
to_units (c ∷ t) = units_of (code c) (to_units t)
