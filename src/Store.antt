-- ===== src/Store.antt =====
-- The rows of apps/backend/prisma/schema.prisma that reviews, quota and billing share, and the
-- database that holds them. Identifiers, times (in milliseconds) and month keys are numbers.
use ai_pr_reviewer.Prelude.{
  ◌≡◌, refl, arith, ◌∷◌, [], true, false, ◌&&◌, ◌==◌, ℕ, Bool, Option, List, find_unique,
  update_unique,
}
use Prim.Native.String.{String}

-- `enum JobStatus`
pub data JobStatus : Type 0 where
  queued fetching analyzing generating posting running retrying : JobStatus
  completed failed skipped cancelled timeout : JobStatus

-- UTF-16 code units.
abbrev pub Text : Type 0
Text = List ℕ

abbrev pub text_eq : Text → Text → Bool
text_eq [] [] = true
text_eq (c ∷ a) (d ∷ b) = (c == d) && text_eq a b
text_eq _ _ = false

pub text_eq-eq : (a b : Text) → text_eq a b ≡ true → a ≡ b
text_eq-eq [] [] h = refl
text_eq-eq [] (d ∷ b) h = cc
text_eq-eq (c ∷ a) [] h = cc
text_eq-eq (c ∷ a) (d ∷ b) h = ground (arith, text_eq-eq a b)

-- The column `results`: no value, a value that is no object, or the fields of an object.
pub data Results : Type 0 where
  absent : Results
  other : Text → Results
  object : List (String × Text) → Results

-- `model AnalysisJob`, less the columns that no modelled operation reads.
pub record Job : Type 0 where
  pub id : ℕ
  pub repository_id : ℕ
  pub status : JobStatus
  pub results : Results
  pub updated_at : ℕ
  pub queue_job_id : Option ℕ
  pub queue_version : ℕ
  pub quota_ledger_id : Option ℕ
  pub quota_is_private : Option Bool
  pub quota_refunded_at : Option ℕ

-- `model UsageLedger`
pub record UsageLedger : Type 0 where
  pub id : ℕ
  pub installation_id : Option ℕ
  pub user_id : Option ℕ
  pub billing_month : ℕ
  pub public_reviews_count : ℕ
  pub private_reviews_count : ℕ

-- `model Repository`
pub record Repository : Type 0 where
  pub id : ℕ
  pub user_id : ℕ
  pub is_active : Bool
  pub is_private : Bool
  pub installation_id : Option ℕ
  pub github_repo_id : ℕ
  pub created_at : ℕ

-- `enum PlanTier`
pub data PlanTier : Type 0 where
  free indie team : PlanTier

pub data BillingCycle : Type 0 where
  monthly yearly : BillingCycle

-- `model Subscription`
pub record Subscription : Type 0 where
  pub id : ℕ
  pub user_id : ℕ
  pub status : String
  pub plan : PlanTier
  pub polar_subscription_id : Option ℕ
  pub polar_customer_id : Option ℕ
  pub polar_product_id : Option ℕ
  pub billing_cycle : BillingCycle
  pub current_period_end : Option ℕ
  pub cancel_at_period_end : Bool
  pub last_event_at : Option ℕ
  pub updated_at : ℕ

-- `model Installation`
pub record Installation : Type 0 where
  pub id : ℕ
  pub user_id : Option ℕ
  pub plan : PlanTier

pub record Store : Type 0 where
  pub jobs : List Job
  pub ledgers : List UsageLedger
  pub repositories : List Repository
  pub subscriptions : List Subscription
  pub installations : List Installation

abbrev pub job_id : Job → ℕ
job_id j = j.id

abbrev pub ledger_id : UsageLedger → ℕ
ledger_id l = l.id

abbrev pub find_job : ℕ → Store → Option Job
find_job k s = find_unique job_id k s.jobs

abbrev pub find_ledger : ℕ → Store → Option UsageLedger
find_ledger k s = find_unique ledger_id k s.ledgers

abbrev pub update_job : ℕ → (Job → Job) → Store → Store
update_job k f s = record s { jobs = update_unique job_id k f s.jobs }

abbrev pub update_ledger : ℕ → (UsageLedger → UsageLedger) → Store → Store
update_ledger k f s = record s { ledgers = update_unique ledger_id k f s.ledgers }
