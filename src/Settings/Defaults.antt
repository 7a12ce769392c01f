-- ===== src/Settings/Defaults.antt =====
-- A repository without usable settings is reviewed with the platform's configuration.
use ai_pr_reviewer.Prelude.{
  ◌≡◌, refl, ◌∙◌, ap, ◌⊎◌, inl, inr, true, false, List, [], ◌∷◌, ◌++◌, Option, none, some, All,
}
use Prim.Native.String.{String}
use ai_pr_reviewer.Findings.Taxonomy.{low}
use ai_pr_reviewer.Settings.Value.{
  finite, Value, undefined, null, boolean, number, string, array, object, Fields, field_of,
}
use ai_pr_reviewer.Settings.Strings.{trim, trim_start, trim_end, is_empty}
use ai_pr_reviewer.Settings.Config.{
  Limits, AiPrConfig, parse_context_config, parse_security_config, parse_severity, config_of,
  config_of_value, config_of_file, parse_config_yaml, first_file, config_candidate_paths,
  fetch_repo_config,
}

-- The configuration that the platform documents: every check but semgrep is on, the context goes up to
-- the ceilings, and generated files are ignored.
abbrev pub platform_config : Limits → AiPrConfig
platform_config limits = record {
  version = finite false 1 0;
  ignore =
      "dist/**" ∷ "build/**" ∷ "node_modules/**" ∷ "**/*.min.js" ∷ "**/*.min.css" ∷ "**/*.map"
      ∷ "**/*.lock" ∷ "package-lock.json" ∷ "yarn.lock" ∷ "pnpm-lock.yaml" ∷ "**/*.svg" ∷ "**/*.png"
      ∷ "**/*.jpg" ∷ "**/*.jpeg" ∷ [];
  min_severity = low;
  guidelines = [];
  language = "en";
  summarize = true;
  context = record {
    enabled = true;
    max_files = limits.files;
    max_hops = limits.hops;
    max_tokens = limits.tokens;
  };
  security = record {
    enabled = true;
    sast = true;
    secrets = true;
    dependencies = true;
    osv = true;
    semgrep = false;
    block_on_critical_secret = true;
  };
}

-- None of the eight settings is there.
pub record HasNoSetting (fields : Fields) : Type 0 where
  pub version : field_of "version" fields ≡ undefined
  pub ignore : field_of "ignore" fields ≡ undefined
  pub min_severity : field_of "min_severity" fields ≡ undefined
  pub guidelines : field_of "guidelines" fields ≡ undefined
  pub language : field_of "language" fields ≡ undefined
  pub summarize : field_of "summarize" fields ≡ undefined
  pub context : field_of "context" fields ≡ undefined
  pub security : field_of "security" fields ≡ undefined

-- The text does not parse, or to something that is no object or has none of the settings.
abbrev pub IsUnusable : Option Value → Type 0
IsUnusable none = Unit
IsUnusable (some (object fields)) = HasNoSetting fields
IsUnusable (some v) = Unit

-- The read of a path fails or gives an empty text.
abbrev pub IsMissing : (String → Option String) → String → Type 0
IsMissing read path = (read path ≡ none) ⊎ (read path ≡ some "")

-- The first of the paths that is not missing, with its text.
abbrev pub IsFirst : (String → Option String) → List String → Option String → Type 0
IsFirst read paths none = All (IsMissing read) paths
IsFirst read paths (some content) =
    (before : List String) × (path : String) × (after : List String) × (paths
      ≡ before ++ path ∷ after)
    × All (IsMissing read) before
    × (read path ≡ some content)
    × (is_empty content ≡ false)

missing-first_file :
    (read : String → Option String) (before rest : List String)
    → All (IsMissing read) before
    → first_file read (before ++ rest) ≡ first_file read rest
unfolding first_file
missing-first_file read [] rest h = refl
missing-first_file read (path ∷ before) rest (inl fails, h) =
    rw (fails, first_file) (missing-first_file read before rest h)
missing-first_file read (path ∷ before) rest (inr empty, h) =
    rw (empty, first_file) (missing-first_file read before rest h)

first_file-IsFirst :
    (read : String → Option String) (paths : List String) (found : Option String)
    → IsFirst read paths found
    → first_file read paths ≡ found
unfolding first_file
first_file-IsFirst read [] none h = refl
first_file-IsFirst read (path ∷ paths) none (inl fails, h) =
    rw (fails, first_file) (first_file-IsFirst read paths none h)
first_file-IsFirst read (path ∷ paths) none (inr empty, h) =
    rw (empty, first_file) (first_file-IsFirst read paths none h)
first_file-IsFirst read paths (some content) (before, path, after, split, skipped, there, full) =
    rw split
      (missing-first_file read before (path ∷ after) skipped ∙ rw (there, full, first_file) refl)

settingless-default :
    (upper : String → String) (limits : Limits) (fields : Fields)
    → HasNoSetting fields
    → config_of upper limits fields ≡ platform_config limits
unfolding config_of parse_context_config parse_security_config parse_severity trim trim_start
    trim_end
settingless-default upper limits fields h =
    rw
      (
        h.version, h.ignore, h.min_severity, h.guidelines, h.language, h.summarize, h.context,
        h.security,
      )
      refl

unusable-default :
    (upper : String → String) (limits : Limits) (parsed : Option Value)
    → IsUnusable parsed
    → config_of_value upper limits parsed ≡ platform_config limits
unfolding config_of parse_context_config parse_security_config parse_severity trim trim_start
    trim_end
unusable-default upper limits none h = refl
unusable-default upper limits (some undefined) h = refl
unusable-default upper limits (some null) h = refl
unusable-default upper limits (some (boolean b)) h = refl
unusable-default upper limits (some (number n)) h = refl
unusable-default upper limits (some (string t)) h = refl
unusable-default upper limits (some (array vs)) h = refl
unusable-default upper limits (some (object fields)) h = settingless-default upper limits fields h

-- The text of the file that was found says nothing usable.
abbrev pub SaysNothing : (String → Option Value) → Option String → Type 0
SaysNothing parse none = Unit
SaysNothing parse (some content) = IsUnusable (parse content)

found-default :
    (upper : String → String) (parse : String → Option Value) (limits : Limits)
    (found : Option String)
    → SaysNothing parse found
    → config_of_file upper parse limits found ≡ platform_config limits
unfolding parse_config_yaml
found-default upper parse limits none h = refl
found-default upper parse limits (some content) h = unusable-default upper limits (parse content) h

-- Where no candidate file can be read with a text, or the first that can does not parse, parses to no
-- object or to an object with none of the eight settings, the review runs with the platform's
-- configuration.
pub unusable_config_is_default :
    (upper : String → String) (parse : String → Option Value) (limits : Limits)
    (read : String → Option String) (found : Option String)
    → IsFirst read
        (".aipr.yml" ∷ ".aipr.yaml" ∷ ".github/.aipr.yml" ∷ ".github/.aipr.yaml" ∷ [])
        found
    → SaysNothing parse found
    → fetch_repo_config upper parse limits read ≡ platform_config limits
unfolding fetch_repo_config
unusable_config_is_default upper parse limits read found first nothing =
    ap (config_of_file upper parse limits)
      (first_file-IsFirst read config_candidate_paths found first)
    ∙ found-default upper parse limits found nothing
