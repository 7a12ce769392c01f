-- ===== src/Settings/Ceilings.antt =====
-- The configuration stays within the platform's ceilings, whatever the file says.
use ai_pr_reviewer.Prelude.{ℕ, ◌≤◌, inl, inr, true, false, Option, none, some, arith, Option-cases}
use Prim.Native.String.{String}
use ai_pr_reviewer.Settings.Value.{
  not_a_number, infinite, finite, Value, undefined, null, boolean, number, string, array, object,
  field_of, fields_of, record_of,
}
use ai_pr_reviewer.Settings.Config.{
  ContextConfig, Limits, default_config, clamp_or, parse_context_config, config_of, config_of_value,
  parse_config_yaml, first_file, config_candidate_paths, fetch_repo_config,
}

-- Between 1 and the ceiling, where the ceiling allows 1.
abbrev pub IsClamped : ℕ → ℕ → Type 0
IsClamped n ceiling = (n ≤ ceiling) × (1 ≤ ceiling → 1 ≤ n)

pub record IsWithin (limits : Limits) (c : ContextConfig) : Type 0 where
  pub files : IsClamped c.max_files limits.files
  pub hops : IsClamped c.max_hops limits.hops
  pub tokens : IsClamped c.max_tokens limits.tokens

clamp-IsClamped : (v : Value) (ceiling : ℕ) → IsClamped (clamp_or v ceiling) ceiling
clamp-IsClamped undefined c = (omega arith, λ h. h)
clamp-IsClamped null c = (omega arith, λ h. h)
clamp-IsClamped (boolean b) c = (omega arith, λ h. h)
clamp-IsClamped (string t) c = (omega arith, λ h. h)
clamp-IsClamped (array vs) c = (omega arith, λ h. h)
clamp-IsClamped (object fs) c = (omega arith, λ h. h)
clamp-IsClamped (number not_a_number) c = (omega arith, λ h. h)
clamp-IsClamped (number (infinite b)) c = (omega arith, λ h. h)
clamp-IsClamped (number (finite true m e)) c = (omega arith, λ h. omega arith)
clamp-IsClamped (number (finite false m e)) c = (omega arith, λ h. omega arith)

default-IsWithin : (limits : Limits) → IsWithin limits (default_config limits).context
default-IsWithin limits = record {
  files = (omega arith, λ h. h);
  hops = (omega arith, λ h. h);
  tokens = (omega arith, λ h. h);
}

context-IsWithin :
    (limits : Limits) (raw : Value) → IsWithin limits (parse_context_config limits raw)
unfolding parse_context_config
context-IsWithin limits raw = elim (Option-cases (record_of raw)) [
  | inl bad ↦ rw (bad, parse_context_config) (default-IsWithin limits)
  | inr (input, good) ↦
      rw (good, parse_context_config)
        (record {
          files = clamp-IsClamped (field_of "max_files" input) limits.files;
          hops = clamp-IsClamped (field_of "max_hops" input) limits.hops;
          tokens = clamp-IsClamped (field_of "max_tokens" input) limits.tokens;
        })
]

value-IsWithin :
    (upper : String → String) (limits : Limits) (parsed : Option Value)
    → IsWithin limits (config_of_value upper limits parsed).context
unfolding config_of
value-IsWithin upper limits none = default-IsWithin limits
value-IsWithin upper limits (some parsed) = elim (Option-cases (fields_of parsed)) [
  | inl bad ↦ rw (bad, config_of_value) (default-IsWithin limits)
  | inr (fields, good) ↦
      rw (good, config_of_value) (context-IsWithin limits (field_of "context" fields))
]

-- Whatever the configuration files say and whether or not they can be read and parsed, each limit of
-- the context is at most the platform's ceiling for it, and at least 1 where that ceiling is.
pub config_never_widens :
    (upper : String → String) (parse : String → Option Value) (limits : Limits)
    (read : String → Option String)
    → IsWithin limits (fetch_repo_config upper parse limits read).context
unfolding fetch_repo_config parse_config_yaml
config_never_widens upper parse limits read =
    elim (Option-cases (first_file read config_candidate_paths)) [
      | inl missing ↦ rw missing (default-IsWithin limits)
      | inr (content, there) ↦ rw there (value-IsWithin upper limits (parse content))
    ]
