-- ===== src/Billing/Tests.antt =====
-- Tests of billing: a cancellation, then the activation that it overtook.
use ai_pr_reviewer.Prelude.{◌≡◌, ◌⊎◌, refl, inr, false, none, some, [], ◌∷◌, arith}
use ai_pr_reviewer.Store.{free, indie, BillingCycle, Subscription, Store}
use ai_pr_reviewer.Quota.Entitlement.{is_entitling, tier_of, get_subscription}
use ai_pr_reviewer.Billing.Sync.{
  PolarSubscription, Products, find_polar, sync_subscription, sync_cancellation, sync_user,
  sync_write, sync_entitlements, create_subscription, cycle_for_subscription,
}
use ai_pr_reviewer.Billing.Order.{Delivery, sync_all, revocation_is_final}
use ai_pr_reviewer.Billing.Mirror.{HasSeen, IsMirrored, sync-IsMirrored}

abbrev env : Products
env = record {
  indie_monthly = some 1;
  indie_yearly = some 2;
  team_monthly = some 3;
  team_yearly = none;
}

abbrev activation : PolarSubscription
activation = record {
  id = 50;
  status = some "active";
  product_id = some 1;
  current_period_end = none;
  cancel_at_period_end = none;
  customer_id = some 8;
  external_id = some 4;
  prices = some "month" ∷ [];
  price = none;
}

abbrev shop : Store
shop = record {
  jobs = [];
  ledgers = [];
  repositories = [];
  subscriptions = [];
  installations = record { id = 1; user_id = some 4; plan = free } ∷ [];
}

abbrev canceled_row : Subscription
canceled_row = record {
  id = 70;
  user_id = 4;
  status = "canceled";
  plan = free;
  polar_subscription_id = some 50;
  polar_customer_id = some 8;
  polar_product_id = some 1;
  billing_cycle = BillingCycle.monthly;
  current_period_end = none;
  cancel_at_period_end = false;
  last_event_at = some 200;
  updated_at = 300;
}

abbrev shop_canceled : Store
shop_canceled = record shop { subscriptions = canceled_row ∷ [] }

canceled_first :
    sync_cancellation env activation (some 200) 70 300 shop ≡ some (shop_canceled, some 4)
unfolding sync_cancellation sync_subscription sync_user sync_write create_subscription
    cycle_for_subscription sync_entitlements tier_of get_subscription is_entitling
canceled_first = refl

abbrev late : Delivery
late = record { event = activation; at_time = 100; fresh = 71; now = 400 }

revocation_is_final_example :
    (row : Subscription) × (find_polar 50
        (sync_all env (late ∷ late ∷ []) shop_canceled).subscriptions
      ≡ some row)
    × (is_entitling row.status ≡ false)
revocation_is_final_example =
    revocation_is_final env activation 4 200 70 300 shop shop_canceled (late ∷ late ∷ [])
      canceled_first tt (inr (ground arith), (inr (ground arith), tt))

abbrev active_row : Subscription
active_row = record canceled_row { status = "active"; plan = indie; last_event_at = some 100 }

abbrev shop_active : Store
shop_active = record shop {
  subscriptions = active_row ∷ [];
  installations = record { id = 1; user_id = some 4; plan = indie } ∷ [];
}

activated :
    sync_subscription env activation (some 100) 70 300 shop
    ≡ some (shop_active, record { user_id = some 4; tier = indie })
unfolding sync_subscription sync_user sync_write create_subscription cycle_for_subscription
    sync_entitlements tier_of get_subscription is_entitling
activated = refl

-- The installation showed nothing of the plan before.
sync-IsMirrored_example : ((shop_active ≡ shop) × HasSeen 50 100 shop) ⊎ IsMirrored 4 shop_active
sync-IsMirrored_example =
    sync-IsMirrored env activation 100 70 300 4 indie shop shop_active activated
