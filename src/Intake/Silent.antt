-- ===== src/Intake/Silent.antt =====
-- What remains of an installation once its deletion was handled.
use ai_pr_reviewer.Prelude.{
  ℕ, ◌≡◌, refl, ap, ◌∙◌, false, not, none, some, List, [], ◌∷◌, ◌==◌, arith, inl, inr,
  if◌then◌else◌, Bool-cases, keep,
}
use ai_pr_reviewer.Store.{Text, Repository}
use ai_pr_reviewer.Intake.State.{Intake, Environment}
use ai_pr_reviewer.Intake.Payload.{
  Header, invalid_repository, ping, pull_request_event, push_event, other_event, Payload, Texts,
}
use ai_pr_reviewer.Intake.Webhook.{
  find_installation, has_installation, matches_payload, inactive, register, resolve, route,
  is_invalid, handle_github_event, only_match,
}
use ai_pr_reviewer.Intake.Installation.{
  deleted, delete_installation, handle_installation_event, installation_deleted,
}

-- The rows without those of an installation do not know it.
forgotten :
    (g : ℕ) (rows : List (ℕ × ℕ))
    → find_installation g (keep (λ (row : ℕ × ℕ). not (row.0 == g)) rows) ≡ none
forgotten g [] = refl
forgotten g ((h, k) ∷ rows) = elim (Bool-cases (h == g)) [
  | inl same ↦ rw same (forgotten g rows)
  | inr other ↦ rw (other, other) (forgotten g rows)
]

-- A repository has not the installation of a payload that has no row.
strange :
    (g : ℕ) (ids : List (ℕ × ℕ)) (p : Payload) (r : Repository)
    → find_installation g ids ≡ none
    → p.installation ≡ some g
    → has_installation ids p.installation r ≡ false
strange g ids p r gone from =
    ap (λ i. has_installation ids i r) from ∙ rw (gone, has_installation) refl

none_match :
    (g : ℕ) (ids : List (ℕ × ℕ)) (p : Payload) (rows : List Repository)
    → find_installation g ids ≡ none
    → p.installation ≡ some g
    → keep (matches_payload ids p) rows ≡ []
none_match g ids p [] gone from = refl
none_match g ids p (r ∷ rows) gone from =
    ground (arith, strange g ids p r gone from, none_match g ids p rows gone from)

unregistered :
    (env : Environment) (g : ℕ) (p : Payload) (t : Intake)
    → find_installation g t.github_installations ≡ none
    → p.installation ≡ some g
    → register env p t ≡ inactive
unfolding register
unregistered env g p t gone from = ground arith

unresolved :
    (env : Environment) (g : ℕ) (p : Payload) (t : Intake)
    → find_installation g t.github_installations ≡ none
    → p.installation ≡ some g
    → resolve env p t ≡ inactive
unfolding resolve
unresolved env g p t gone from =
    ap (only_match env p t) (none_match g t.github_installations p t.store.repositories gone from)
    ∙ unregistered env g p t gone from

routed :
    (texts : Texts) (env : Environment) (header : Header) (g : ℕ) (p : Payload) (t : Intake)
    → find_installation g t.github_installations ≡ none
    → p.installation ≡ some g
    → (if is_invalid p
        then (t, invalid_repository)
        else route texts env header p t (resolve env p t)).0
      ≡ t
unfolding route
routed texts env header g p t gone from = ground (arith, unresolved env g p t gone from)

-- A delivery for an installation that has no row changes nothing.
stranger_is_ignored :
    (texts : Texts) (env : Environment) (header : Header) (g : ℕ) (p : Payload) (t : Intake)
    → find_installation g t.github_installations ≡ none
    → p.installation ≡ some g
    → (handle_github_event texts env header p t).0 ≡ t
unfolding handle_github_event
stranger_is_ignored texts env ping g p t gone from = refl
stranger_is_ignored texts env pull_request_event g p t gone from =
    routed texts env pull_request_event g p t gone from
stranger_is_ignored texts env push_event g p t gone from =
    routed texts env push_event g p t gone from
stranger_is_ignored texts env other_event g p t gone from =
    routed texts env other_event g p t gone from

-- Once the deletion of an installation was handled, a delivery for it changes nothing.
pub deleted_installation_is_silent :
    (notes : Text × Text) (env : Environment) (g : ℕ) (t : Intake) (texts : Texts)
    (later : Environment) (header : Header) (p : Payload)
    → p.installation ≡ some g
    → (handle_github_event texts later header p
        (handle_installation_event notes env deleted (some g) t).0.intake).0
      ≡ (handle_installation_event notes env deleted (some g) t).0.intake
unfolding handle_installation_event installation_deleted delete_installation
deleted_installation_is_silent notes env g t texts later header p from =
    stranger_is_ignored texts later header g p
      (handle_installation_event notes env deleted (some g) t).0.intake (forgotten g _) from
