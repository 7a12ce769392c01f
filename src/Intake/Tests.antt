-- ===== src/Intake/Tests.antt =====
-- A webhook delivered twice, the events of an installation, and the theorems at those runs.
use ai_pr_reviewer.Prelude.{ℕ, Option, ◌≡◌, ◌≤◌, refl, true, false, none, some, [], ◌∷◌, List}
use ai_pr_reviewer.Store.{absent, free, Repository, Text}
use ai_pr_reviewer.Quota.Entitlement.{tier_of}
use ai_pr_reviewer.Quota.Usage.{check_quota, get_account_usage}
use ai_pr_reviewer.Quota.Reserve.{
  refusal, eligible_repository, upsert_ledger, charge_ledger, reserve_within, charge_job,
  link_reservation, reserve_found, is_available, is_reservable, reserve_review,
}
use ai_pr_reviewer.Intake.State.{
  pull_request, Identity, Intake, Environment, create_job, queue_reserved, insert_and_queue,
}
use ai_pr_reviewer.Intake.Payload.{
  pull_request_event, opened, Payload, duplicate, was_queued, Texts, digits, event_of, identity_of,
}
use ai_pr_reviewer.Intake.Webhook.{
  resolve, refresh_private, admit, review_event, route, handle_github_event,
}
use ai_pr_reviewer.Intake.Poller.{Poller}
use ai_pr_reviewer.Intake.Installation.{
  deleted, handle_installation_event, Listed, processed, failed_request, add_each, add_listed,
  create_listed,
}
use ai_pr_reviewer.Intake.Silent.{deleted_installation_is_silent}
use ai_pr_reviewer.Intake.Once.{requests_for, reviews_for}
use ai_pr_reviewer.Intake.Delivery.{IsFree, redelivery-IsFree}
use ai_pr_reviewer.Intake.System.{Step, delivery, run, reviewed_at_most_once}

abbrev repository : Repository
repository = record {
  id = 2;
  user_id = 4;
  is_active = true;
  is_private = false;
  installation_id = none;
  github_repo_id = 77;
  created_at = 0;
}

abbrev start : Intake
start = record {
  store = record {
    jobs = [];
    ledgers = [];
    repositories = repository ∷ [];
    subscriptions = [];
    installations = [];
  };
  reviews = [];
  queue = [];
  notices = [];
  github_installations = [];
}

abbrev texts : Texts
texts = record { missing_sha = absent; denial = λ reason. absent }

abbrev payload : Payload
payload = record {
  action = opened;
  full_name = 65 ∷ [];
  github_repo_id = 77;
  is_private = false;
  installation = none;
  pull_request = record { number = 12; head_sha = some (97 ∷ 98 ∷ []); base_sha = none };
  after = none;
  before = none;
}

abbrev first : Environment
first = record {
  fresh_job = 100;
  fresh_repository = 101;
  fresh_ledger = 102;
  month = 24321;
  now = 9;
  queue_accepts = true;
}

abbrev second : Environment
second = record {
  fresh_job = 200;
  fresh_repository = 201;
  fresh_ledger = 202;
  month = 24321;
  now = 19;
  queue_accepts = true;
}

after_first : Intake
after_first = (handle_github_event texts first pull_request_event payload start).0

first_is_queued :
    (handle_github_event texts first pull_request_event payload start).1 ≡ was_queued 100
unfolding handle_github_event route review_event admit refresh_private resolve event_of
    insert_and_queue create_job queue_reserved digits check_quota reserve_review is_available
    is_reservable reserve_found charge_job link_reservation reserve_within refusal
    eligible_repository upsert_ledger charge_ledger get_account_usage tier_of
first_is_queued = refl

second_is_duplicate :
    (handle_github_event texts second pull_request_event payload after_first).1 ≡ duplicate none
unfolding after_first handle_github_event route review_event admit refresh_private resolve event_of
    insert_and_queue create_job queue_reserved digits check_quota reserve_review is_available
    is_reservable reserve_found charge_job link_reservation reserve_within refusal
    eligible_repository upsert_ledger charge_ledger get_account_usage tier_of
second_is_duplicate = refl

abbrev commit : Identity
commit = identity_of pull_request payload repository

abbrev known : Intake
known = record start { reviews = record { id = 100; identity = commit } ∷ [] }

redelivery-IsFree_example :
    IsFree known (review_event texts second pull_request payload repository known).0
    × ((id : Option ℕ) × ((review_event texts second pull_request payload repository known).1
          ≡ duplicate id))
redelivery-IsFree_example =
    redelivery-IsFree texts second pull_request payload repository known (97 ∷ 98 ∷ [])
      (record { id = 100; identity = commit }) refl (unfold digits in refl)

abbrev idle : Poller
idle = record { intake = start; scanned = []; seen = []; webhooks = [] }

abbrev deliveries : List Step
deliveries =
    delivery first pull_request_event payload ∷ delivery second pull_request_event payload ∷ []

reviewed_at_most_once_example :
    (requests_for commit (run (λ t. t) (λ k. []) texts deliveries idle).intake.queue ≤ 1)
    × (reviews_for commit (run (λ t. t) (λ k. []) texts deliveries idle).intake.reviews ≤ 1)
reviewed_at_most_once_example =
    reviewed_at_most_once (λ t. t) (λ k. []) texts deliveries idle refl refl commit

-- Installation 5 of GitHub, with the repository linked to it.
abbrev installed : Intake
installed = record start {
  store = record start.store {
    repositories = record repository { installation_id = some 6 } ∷ [];
    installations = record { id = 6; user_id = some 4; plan = free } ∷ [];
  };
  github_installations = (5, 6) ∷ [];
}

abbrev sent : Payload
sent = record payload { installation = some 5 }

abbrev notes : Text × Text
notes = (82 ∷ [], 77 ∷ [])

deleted_installation_is_silent_example :
    (handle_github_event texts second pull_request_event sent
      (handle_installation_event notes first deleted (some 5) installed).0.intake).0
    ≡ (handle_installation_event notes first deleted (some 5) installed).0.intake
deleted_installation_is_silent_example =
    deleted_installation_is_silent notes first 5 installed texts second pull_request_event sent refl

-- The repository comes back to its installation while another account has a row for it.
abbrev foreign : Repository
foreign = record repository { id = 9; user_id = 8; installation_id = some 7 }

abbrev returning : Listed
returning = record { github_repo_id = 77; is_private = false; fresh_repository = 301; now = 5 }

abbrev own : Repository
own = record repository { installation_id = some 6; is_active = false }

relinks_first_row :
    (add_each (returning ∷ []) 4 6 (record start.store { repositories = own ∷ foreign ∷ [] })).1
    ≡ processed
unfolding add_each add_listed
relinks_first_row = refl

foreign_row_blocks :
    (add_each (returning ∷ []) 4 6 (record start.store { repositories = foreign ∷ own ∷ [] })).1
    ≡ failed_request
unfolding add_each add_listed create_listed
foreign_row_blocks = refl
