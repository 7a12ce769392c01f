-- ===== src/Settings/Config.antt =====
-- services/config.service.ts: the repository's configuration file. `YAML.parse` and the read of a file
-- are arguments, `none` where they throw, and so are `toUpperCase` and the platform's ceilings.
use ai_pr_reviewer.Prelude.{
  ℕ, min, Bool, true, false, List, [], ◌∷◌, Option, none, some, if◌then◌else◌,
}
use Prim.Native.String.{String}
use ai_pr_reviewer.Findings.Taxonomy.{FindingSeverity, low, normalize_severity}
use ai_pr_reviewer.Settings.Value.{
  Number, finite, Value, Fields, field_of, fields_of, record_of, boolean_or, text_or, number_or,
  texts_or, floor_from_one, number,
}
use ai_pr_reviewer.Settings.Strings.{trim, is_empty}

pub record ContextConfig : Type 0 where
  pub enabled : Bool
  pub max_files : ℕ
  pub max_hops : ℕ
  pub max_tokens : ℕ

pub record SecurityConfig : Type 0 where
  pub enabled : Bool
  pub sast : Bool
  pub secrets : Bool
  pub dependencies : Bool
  pub osv : Bool
  pub semgrep : Bool
  pub block_on_critical_secret : Bool

-- `min_severity` is the severity itself in place of its name in lower case.
pub record AiPrConfig : Type 0 where
  pub version : Number
  pub ignore : List String
  pub min_severity : FindingSeverity
  pub guidelines : List String
  pub language : String
  pub summarize : Bool
  pub context : ContextConfig
  pub security : SecurityConfig

-- `CONTEXT_MAX_FILES`, `CONTEXT_MAX_HOPS` and `CONTEXT_MAX_TOKENS`, which the environment sets
-- to natural numbers; a text there that `parseInt` does not read as one is left out.
pub record Limits : Type 0 where
  pub files : ℕ
  pub hops : ℕ
  pub tokens : ℕ

abbrev pub default_ignore : List String
default_ignore =
    "dist/**" ∷ "build/**" ∷ "node_modules/**" ∷ "**/*.min.js" ∷ "**/*.min.css" ∷ "**/*.map"
    ∷ "**/*.lock" ∷ "package-lock.json" ∷ "yarn.lock" ∷ "pnpm-lock.yaml" ∷ "**/*.svg" ∷ "**/*.png"
    ∷ "**/*.jpg" ∷ "**/*.jpeg" ∷ []

abbrev pub default_context : Limits → ContextConfig
default_context limits = record {
  enabled = true;
  max_files = limits.files;
  max_hops = limits.hops;
  max_tokens = limits.tokens;
}

abbrev pub default_security : SecurityConfig
default_security = record {
  enabled = true;
  sast = true;
  secrets = true;
  dependencies = true;
  osv = true;
  semgrep = false;
  block_on_critical_secret = true;
}

abbrev pub default_config : Limits → AiPrConfig
default_config limits = record {
  version = finite false 1 0;
  ignore = default_ignore;
  min_severity = low;
  guidelines = [];
  language = "en";
  summarize = true;
  context = default_context limits;
  security = default_security;
}

unfoldable pub parse_security_config : Value → SecurityConfig
parse_security_config raw = elim (record_of raw) [
  | none ↦ default_security
  | some input ↦ record {
    enabled = boolean_or default_security.enabled (field_of "enabled" input);
    sast = boolean_or default_security.sast (field_of "sast" input);
    secrets = boolean_or default_security.secrets (field_of "secrets" input);
    dependencies = boolean_or default_security.dependencies (field_of "dependencies" input);
    osv = boolean_or default_security.osv (field_of "osv" input);
    semgrep = boolean_or default_security.semgrep (field_of "semgrep" input);
    block_on_critical_secret =
        boolean_or default_security.block_on_critical_secret
          (field_of "block_on_critical_secret" input);
  }
]

-- `clamp`, with the fallback of a value that it does not accept.
abbrev pub clamp_floor : Option ℕ → ℕ → ℕ
clamp_floor none ceiling = ceiling
clamp_floor (some n) ceiling = min ceiling n

abbrev pub clamp_or : Value → ℕ → ℕ
clamp_or (number n) ceiling = clamp_floor (floor_from_one n) ceiling
clamp_or v ceiling = ceiling

unfoldable pub parse_context_config : Limits → Value → ContextConfig
parse_context_config limits raw = elim (record_of raw) [
  | none ↦ default_context limits
  | some input ↦ record {
    enabled = boolean_or true (field_of "enabled" input);
    max_files = clamp_or (field_of "max_files" input) limits.files;
    max_hops = clamp_or (field_of "max_hops" input) limits.hops;
    max_tokens = clamp_or (field_of "max_tokens" input) limits.tokens;
  }
]

abbrev pub config_candidate_paths : List String
config_candidate_paths =
    ".aipr.yml" ∷ ".aipr.yaml" ∷ ".github/.aipr.yml" ∷ ".github/.aipr.yaml" ∷ []

-- An unknown level leaves the default, with a warning.
abbrev pub severity_or_low : Option FindingSeverity → FindingSeverity
severity_or_low none = low
severity_or_low (some s) = s

unfoldable pub parse_severity : (String → String) → String → FindingSeverity
parse_severity upper raw =
    if is_empty raw then low else severity_or_low (normalize_severity upper (some raw))

unfoldable pub config_of : (String → String) → Limits → Fields → AiPrConfig
config_of upper limits parsed = record {
  version = number_or (default_config limits).version (field_of "version" parsed);
  ignore = texts_or default_ignore (field_of "ignore" parsed);
  min_severity = parse_severity upper (trim (text_or "" (field_of "min_severity" parsed)));
  guidelines = texts_or [] (field_of "guidelines" parsed);
  language = text_or "en" (field_of "language" parsed);
  summarize = boolean_or true (field_of "summarize" parsed);
  context = parse_context_config limits (field_of "context" parsed);
  security = parse_security_config (field_of "security" parsed);
}

abbrev pub config_of_value : (String → String) → Limits → Option Value → AiPrConfig
config_of_value upper limits none = default_config limits
config_of_value upper limits (some parsed) = elim (fields_of parsed) [
  | none ↦ default_config limits
  | some fields ↦ config_of upper limits fields
]

unfoldable pub parse_config_yaml :
    (String → String) → (String → Option Value) → Limits → String → AiPrConfig
parse_config_yaml upper parse limits yaml = config_of_value upper limits (parse yaml)

-- The first file that can be read and is not empty.
unfoldable pub first_file : (String → Option String) → List String → Option String
first_file read [] = none
first_file read (path ∷ paths) =
    let rest = first_file read paths in
    elim (read path) [
      | none ↦ rest
      | some content ↦ if is_empty content then rest else some content
    ]

abbrev pub config_of_file :
    (String → String) → (String → Option Value) → Limits → Option String → AiPrConfig
config_of_file upper parse limits none = default_config limits
config_of_file upper parse limits (some content) = parse_config_yaml upper parse limits content

unfoldable pub fetch_repo_config :
    (String → String) → (String → Option Value) → Limits → (String → Option String) → AiPrConfig
fetch_repo_config upper parse limits read =
    config_of_file upper parse limits (first_file read config_candidate_paths)
