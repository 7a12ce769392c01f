-- ===== src/Billing/Sync.antt =====
-- `syncSubscription`, `syncCancellation` and `syncEntitlements` of services/billing.service.ts.
-- Statuses are in lower case, as `toLowerCase` leaves them.
use ai_pr_reviewer.Prelude.{
  ℕ, Bool, false, not, ◌&&◌, ◌||◌, Option, none, some, List, [], ◌∷◌, map, leb, if◌then◌else◌,
  find_first,
}
use Prim.Native.String.{String}
use text.Mathlib.Text.{◌==◌ as str_eq}
use ai_pr_reviewer.Store.{
  PlanTier, free, indie, team, BillingCycle, monthly, yearly, Subscription, Installation, Store,
}
use ai_pr_reviewer.Review.Job.{same_number}
use ai_pr_reviewer.Quota.Entitlement.{is_entitling, tier_of}

-- The slice of a Polar subscription that is read. `customer` is its id and our user's id.
pub record PolarSubscription : Type 0 where
  pub id : ℕ
  pub status : Option String
  pub product_id : Option ℕ
  pub current_period_end : Option ℕ
  pub cancel_at_period_end : Option Bool
  pub customer_id : Option ℕ
  pub external_id : Option ℕ
  pub prices : List (Option String)
  pub price : Option String

-- The environment's `POLAR_PRODUCT_…`, for each tier and cycle.
pub record Products : Type 0 where
  pub indie_monthly : Option ℕ
  pub indie_yearly : Option ℕ
  pub team_monthly : Option ℕ
  pub team_yearly : Option ℕ

abbrev pub is_product : Option ℕ → ℕ → Bool
is_product configured product = same_number configured (some product)

-- A later entry of the map replaces an earlier one with the same product.
unfoldable pub tier_for_product : Products → Option ℕ → Option PlanTier
tier_for_product env none = none
tier_for_product env (some product) =
    if is_product env.team_monthly product || is_product env.team_yearly product
    then some team
    else if is_product env.indie_monthly product || is_product env.indie_yearly product
    then some indie
    else none

abbrev pub status_or_inactive : Option String → String
status_or_inactive none = "inactive"
status_or_inactive (some status) = status

abbrev pub tier_or_free : Option PlanTier → PlanTier
tier_or_free none = free
tier_or_free (some tier) = tier

-- `ENTITLING_STATUSES.has(status) ? (productTier ?? 'FREE') : 'FREE'`
abbrev pub tier_for_status : String → Option PlanTier → PlanTier
tier_for_status status tier = if is_entitling status then tier_or_free tier else free

abbrev pub first_price : List (Option String) → Option String
first_price [] = none
first_price (p ∷ ps) = p

abbrev pub is_year : Option String → Bool
is_year none = false
is_year (some interval) = str_eq interval "year"

abbrev pub or_price : Option String → Option String → Option String
or_price none b = b
or_price (some a) b = some a

unfoldable pub cycle_for_subscription : PolarSubscription → BillingCycle
cycle_for_subscription e =
    if is_year (or_price e.price (first_price e.prices)) then yearly else monthly

abbrev pub or_false : Option Bool → Bool
or_false none = false
or_false (some b) = b

-- `x ?? undefined`: an update leaves the column.
abbrev pub or_old : Option ℕ → Option ℕ → Option ℕ
or_old none old = old
or_old (some new) old = some new

abbrev pub is_polar : ℕ → Subscription → Bool
is_polar k row = same_number row.polar_subscription_id (some k)

abbrev pub find_polar : ℕ → List Subscription → Option Subscription
find_polar k rows = find_first (is_polar k) rows

-- The `update` of the upsert; the caller has computed the status.
unfoldable pub update_subscription :
    Products → PolarSubscription → String → ℕ → ℕ → ℕ → Subscription → Subscription
unfolding tier_for_product
update_subscription env e status user event_at now row = record row {
  user_id = user;
  status = status;
  last_event_at = some event_at;
  plan = tier_for_status status (tier_for_product env e.product_id);
  billing_cycle = cycle_for_subscription e;
  current_period_end = e.current_period_end;
  cancel_at_period_end = or_false e.cancel_at_period_end;
  polar_customer_id = or_old e.customer_id row.polar_customer_id;
  polar_product_id = or_old e.product_id row.polar_product_id;
  updated_at = now;
}

-- The `create` of the upsert.
unfoldable pub create_subscription :
    Products → PolarSubscription → String → ℕ → ℕ → ℕ → ℕ → Subscription
unfolding tier_for_product
create_subscription env e status user event_at now fresh = record {
  id = fresh;
  user_id = user;
  status = status;
  plan = tier_for_status status (tier_for_product env e.product_id);
  polar_subscription_id = some e.id;
  polar_customer_id = e.customer_id;
  polar_product_id = e.product_id;
  billing_cycle = cycle_for_subscription e;
  current_period_end = e.current_period_end;
  cancel_at_period_end = or_false e.cancel_at_period_end;
  last_event_at = some event_at;
  updated_at = now;
}

abbrev pub is_canceled : String → Bool
is_canceled status = str_eq status "canceled"

-- A cancellation of the same time as the last event still counts.
unfoldable pub is_same_time_revocation : String → ℕ → Subscription → Bool
is_same_time_revocation status event_at row =
    same_number row.last_event_at (some event_at) && (is_canceled status && is_entitling row.status)

abbrev pub not_before : Option ℕ → ℕ → Bool
not_before none event_at = false
not_before (some last) event_at = leb event_at last

-- The event is older than what the row has seen.
unfoldable pub is_stale : String → ℕ → Subscription → Bool
unfolding is_same_time_revocation
is_stale status event_at row =
    not_before row.last_event_at event_at && not (is_same_time_revocation status event_at row)

abbrev pub update_first :
    (Subscription → Bool) → (Subscription → Subscription) → List Subscription → List Subscription
update_first p f [] = []
update_first p f (row ∷ rows) = if p row then f row ∷ rows else row ∷ update_first p f rows

-- Every installation of the user gets the plan of the user's best subscription.
unfoldable pub sync_entitlements : ℕ → Store → Store × PlanTier
sync_entitlements user s =
    let tier = tier_of user s in
    (
      record s {
        installations =
            map
              (λ (i : Installation).
                if same_number i.user_id (some user) then record i { plan = tier } else i)
              s.installations;
      },
      tier,
    )

pub record SyncResult : Type 0 where
  pub user_id : Option ℕ
  pub tier : PlanTier

-- The transaction. `fresh` is the identifier that a new row is given.
unfoldable pub sync_write :
    Products → PolarSubscription → ℕ → ℕ → ℕ → ℕ → Store → Store × SyncResult
unfolding tier_for_product
sync_write env e user event_at fresh now s =
    let status = status_or_inactive e.status in
    let tier = tier_for_status status (tier_for_product env e.product_id) in
    elim (find_polar e.id s.subscriptions) [
      | none ↦ (
        (sync_entitlements user (record s {
          subscriptions =
              create_subscription env e status user event_at now fresh ∷ s.subscriptions;
        })).0,
        record { user_id = some user; tier = tier },
      )
      | some row ↦
          if is_stale status event_at row
          then (s, record { user_id = some user; tier = row.plan })
          else (
            (sync_entitlements user (record s {
              subscriptions =
                  update_first (is_polar e.id) (update_subscription env e status user event_at now)
                    s.subscriptions;
            })).0,
            record { user_id = some user; tier = tier },
          )
    ]

-- `known?.userId ?? subscription.customer?.external_id ?? null`
unfoldable pub sync_user : PolarSubscription → Store → Option ℕ
sync_user e s = elim (find_polar e.id s.subscriptions) [
  | some row ↦ some row.user_id
  | none ↦ e.external_id
]

-- `none` where the timestamp of the event is invalid and the call throws.
unfoldable pub sync_subscription :
    Products → PolarSubscription → Option ℕ → ℕ → ℕ → Store → Option (Store × SyncResult)
sync_subscription env e none fresh now s = none
sync_subscription env e (some event_at) fresh now s = elim (sync_user e s) [
  | none ↦ some (s, record { user_id = none; tier = free })
  | some user ↦ some (sync_write env e user event_at fresh now s)
]

-- The event as `syncCancellation` passes it on.
abbrev pub as_cancellation : PolarSubscription → PolarSubscription
as_cancellation e = record e { status = some "canceled"; cancel_at_period_end = some false }

abbrev pub owner_of : Option (Store × SyncResult) → Option (Store × Option ℕ)
owner_of none = none
owner_of (some (s, result)) = some (s, result.user_id)

unfoldable pub sync_cancellation :
    Products → PolarSubscription → Option ℕ → ℕ → ℕ → Store → Option (Store × Option ℕ)
sync_cancellation env e event_at fresh now s =
    owner_of (sync_subscription env (as_cancellation e) event_at fresh now s)
