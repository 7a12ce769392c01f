-- ===== src/Intake/Installation.antt =====
-- `handleInstallationEvent` and `handleInstallationRepositoriesEvent` of
-- controllers/webhook.controller.ts. The names and pictures of accounts and repositories are left out, and
-- a cleared cache is the identifier of its repository.
use ai_pr_reviewer.Prelude.{
  ℕ, Bool, true, false, not, ◌&&◌, ◌||◌, Option, none, some, List, [], ◌∷◌, ◌++◌, ◌==◌,
  if◌then◌else◌, any, keep, find_first, find_unique, update_unique, map,
}
use ai_pr_reviewer.Store.{Text, free, Repository, Installation, UsageLedger, Store}
use ai_pr_reviewer.Review.Job.{StatusEvent, same_number, is_none}
use ai_pr_reviewer.Review.Disconnect.{cancel_disconnected_reviews}
use ai_pr_reviewer.Intake.State.{Intake, Environment}
use ai_pr_reviewer.Intake.Webhook.{find_installation, is_registered}

pub data InstallationAction : Type 0 where
  created deleted other_action : InstallationAction

-- The database with the caches that were cleared and the messages that were sent.
pub record Served : Type 0 where
  pub intake : Intake
  pub cleared : List ℕ
  pub events : List StatusEvent

pub data InstallationResponse : Type 0 where
  missing_installation processed installation_not_found failed_request : InstallationResponse

abbrev pub served : Intake → Served
served t = record { intake = t; cleared = []; events = [] }

-- `upsert`: a new installation has no owner yet.
unfoldable pub upsert_installation : Environment → ℕ → Intake → Intake
upsert_installation env g t = elim (find_installation g t.github_installations) [
  | some k ↦ t
  | none ↦ record t {
    store = record t.store {
      installations =
          record { id = env.fresh_repository; user_id = none; plan = free } ∷ t.store.installations;
    };
    github_installations = (g, env.fresh_repository) ∷ t.github_installations;
  }
]

abbrev pub is_linked : Option ℕ → Repository → Bool
is_linked none r = false
is_linked (some k) r = same_number r.installation_id (some k)

abbrev pub deactivate : (Repository → Bool) → Repository → Repository
deactivate p r = if p r then record r { is_active = false } else r

abbrev pub with_store : (Store → Store) → Intake → Intake
with_store f t = record t { store = f t.store }

-- `updateMany({ data: { isActive: false } })`
unfoldable pub deactivate_all : (Repository → Bool) → Intake → Intake
deactivate_all p t =
    with_store (λ s. record s { repositories = map (deactivate p) s.repositories }) t

abbrev pub after_cancel : ℕ → Served → Store × List StatusEvent → Served
after_cancel repository d (s, events) = record {
  intake = with_store (λ old. s) d.intake;
  cleared = repository ∷ d.cleared;
  events = d.events ++ events;
}

-- The reviews of each repository are cancelled before its cached code is deleted.
unfoldable pub disconnect_each : Text × Text → ℕ → List Repository → Served → Served
disconnect_each texts now [] d = d
disconnect_each texts now (r ∷ rs) d =
    disconnect_each texts now rs
      (after_cancel r.id d (cancel_disconnected_reviews texts r.id now d.intake.store))

abbrev pub unlink : Option ℕ → Repository → Repository
unlink k r = if is_linked k r then record r { installation_id = none } else r

abbrev pub has_ledger_of : Option ℕ → UsageLedger → Bool
has_ledger_of none l = false
has_ledger_of (some k) l = same_number l.installation_id (some k)

abbrev pub has_id : Option ℕ → Installation → Bool
has_id none i = false
has_id (some k) i = i.id == k

-- `installation.deleteMany` with the `onDelete` of its relations: repositories lose the link, and the
-- ledgers of the installation go with it.
unfoldable pub delete_installation : ℕ → Intake → Intake
delete_installation g t =
    let k = find_installation g t.github_installations in
    record t {
      store = record t.store {
        installations = keep (λ i. not (has_id k i)) t.store.installations;
        repositories = map (unlink k) t.store.repositories;
        ledgers = keep (λ l. not (has_ledger_of k l)) t.store.ledgers;
      };
      github_installations = keep (λ (row : ℕ × ℕ). not (row.0 == g)) t.github_installations;
    }

abbrev pub delete_from : ℕ → Served → Served
delete_from g d = record d { intake = delete_installation g d.intake }

unfoldable pub installation_deleted : Text × Text → ℕ → ℕ → Intake → Served
installation_deleted texts now g t =
    let linked = is_linked (find_installation g t.github_installations) in
    delete_from g (
      disconnect_each texts now (keep linked t.store.repositories)
        (served (deactivate_all linked t)))

unfoldable pub handle_installation_event :
    Text × Text
    → Environment
    → InstallationAction
    → Option ℕ
    → Intake
    → Served × InstallationResponse
handle_installation_event texts env action none t = (served t, missing_installation)
handle_installation_event texts env created (some g) t =
    (served (upsert_installation env g t), processed)
handle_installation_event texts env deleted (some g) t =
    (installation_deleted texts env.now g t, processed)
handle_installation_event texts env other_action (some g) t = (served t, processed)

-- A repository of `repositories_added` or `repositories_removed`, with the identifier and the time of
-- a row that is created for it.
pub record Listed : Type 0 where
  pub github_repo_id : ℕ
  pub is_private : Bool
  pub fresh_repository : ℕ
  pub now : ℕ

abbrev pub added_row : Listed → ℕ → ℕ → Repository
added_row l user k = record {
  id = l.fresh_repository;
  user_id = user;
  is_active = true;
  is_private = l.is_private;
  installation_id = some k;
  github_repo_id = l.github_repo_id;
  created_at = l.now;
}

abbrev pub may_relink : ℕ → ℕ → Repository → Bool
may_relink user k r =
    (r.user_id == user) && (is_none r.installation_id || same_number r.installation_id (some k))

abbrev pub relinked : Listed → ℕ → ℕ → Repository → Repository
relinked l user k r = record r {
  user_id = user;
  is_private = l.is_private;
  is_active = true;
  installation_id = some k;
}

-- `none` where the unique key rejects the new row.
unfoldable pub create_listed : Listed → ℕ → ℕ → Store → Option Store
create_listed l user k s =
    if any (is_registered k l.github_repo_id) s.repositories
    then none
    else some (record s { repositories = added_row l user k ∷ s.repositories })

unfoldable pub add_listed : Listed → ℕ → ℕ → Store → Option Store
add_listed l user k s =
    elim (find_first (λ (r : Repository). r.github_repo_id == l.github_repo_id) s.repositories) [
      | none ↦ create_listed l user k s
      | some r ↦
          if may_relink user k r
          then some (record s {
            repositories =
                update_unique (λ (x : Repository). x.id) r.id (relinked l user k) s.repositories;
          })
          else if same_number r.installation_id (some k)
          then some s
          else create_listed l user k s
    ]

-- An exception ends the handler, with what was added before it.
unfoldable pub add_each : List Listed → ℕ → ℕ → Store → Store × InstallationResponse
add_each [] user k s = (s, processed)
add_each (l ∷ ls) user k s = elim (add_listed l user k s) [
  | none ↦ (s, failed_request)
  | some s' ↦ add_each ls user k s'
]

unfoldable pub remove_each : Text × Text → ℕ → ℕ → List Listed → Served → Served
remove_each texts now k [] d = d
remove_each texts now k (l ∷ ls) d =
    let affected = is_registered k l.github_repo_id in
    remove_each texts now k ls (
      disconnect_each texts now (keep affected d.intake.store.repositories)
        (record d { intake = deactivate_all affected d.intake }))

pub data RepositoriesAction : Type 0 where
  added removed : List Listed → RepositoriesAction
  neither : RepositoriesAction

abbrev pub add_for : List Listed → Option ℕ → ℕ → Intake → Served × InstallationResponse
add_for ls none k t = (served t, processed)
add_for ls (some user) k t =
    let (s, answer) = add_each ls user k t.store in (served (with_store (λ old. s) t), answer)

unfoldable pub repositories_of :
    Text × Text → ℕ → RepositoriesAction → Installation → Intake → Served × InstallationResponse
repositories_of texts now (added ls) i t = add_for ls i.user_id i.id t
repositories_of texts now (removed ls) i t = (remove_each texts now i.id ls (served t), processed)
repositories_of texts now neither i t = (served t, processed)

unfoldable pub handle_installation_repositories_event :
    Text × Text → ℕ → RepositoriesAction → ℕ → Intake → Served × InstallationResponse
handle_installation_repositories_event texts now action g t =
    elim (find_installation g t.github_installations) [
      | none ↦ (served t, installation_not_found)
      | some k ↦ elim (find_unique (λ (i : Installation). i.id) k t.store.installations) [
        | none ↦ (served t, installation_not_found)
        | some i ↦ repositories_of texts now action i t
      ]
    ]
