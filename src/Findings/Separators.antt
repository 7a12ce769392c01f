-- ===== src/Findings/Separators.antt =====
-- `replace(/[\s-]+/g, '_')` in `normalizeCategory` of services/ai/finding-taxonomy.ts.
use ai_pr_reviewer.Prelude.{ℕ, Bool, true, false, ◌||◌, ◌==◌, if◌then◌else◌}
use Prim.Native.Char.{code}
use Prim.Native.String.{String, [], ◌∷◌}
use ai_pr_reviewer.Settings.Strings.{is_blank}

abbrev pub is_separator : ℕ → Bool
is_separator c = is_blank c || (c == 45)

-- The Boolean says that the character before was one of the run.
unfoldable pub underscored_from : Bool → String → String
underscored_from run [] = []
underscored_from run (c ∷ t) =
    let after = underscored_from true t in
    let rest = underscored_from false t in
    if is_separator (code c) then (if run then after else "_" ∷ after) else c ∷ rest

abbrev pub underscored : String → String
underscored t = underscored_from false t
