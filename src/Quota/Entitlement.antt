-- ===== src/Quota/Entitlement.antt =====
-- services/entitlement.service.ts: the subscription that decides an account's tier.
use ai_pr_reviewer.Prelude.{
  ℕ, Bool, true, false, ◌&&◌, Option, none, some, List, [], ◌∷◌, ltb, ◌==◌, if◌then◌else◌, any,
}
use Prim.Native.String.{String}
use text.Mathlib.Text.{◌==◌ as str_eq}
use ai_pr_reviewer.Store.{PlanTier, free, indie, team, Subscription, Store}

abbrev pub entitling_statuses : List String
entitling_statuses = "active" ∷ "past_due" ∷ "trialing" ∷ []

unfoldable pub is_entitling : String → Bool
is_entitling status = any (str_eq status) entitling_statuses

-- `PlanTier` is declared FREE, INDIE, TEAM, and PostgreSQL orders it so.
abbrev pub plan_rank : PlanTier → ℕ
plan_rank free = 0
plan_rank indie = 1
plan_rank team = 2

abbrev pub is_paid : PlanTier → Bool
is_paid free = false
is_paid _ = true

abbrev pub entitles : ℕ → Subscription → Bool
entitles user sub = sub.user_id == user && (is_entitling sub.status && is_paid sub.plan)

-- `orderBy: [{ plan: 'desc' }, { updatedAt: 'desc' }, { id: 'asc' }]`
unfoldable pub precedes : Subscription → Subscription → Bool
precedes a b =
    if plan_rank a.plan == plan_rank b.plan
    then (if a.updated_at == b.updated_at then ltb a.id b.id else ltb b.updated_at a.updated_at)
    else ltb (plan_rank b.plan) (plan_rank a.plan)

abbrev pub earlier : Subscription → Option Subscription → Subscription
earlier a none = a
earlier a (some b) = if precedes b a then b else a

-- `findFirst` takes the row that comes first in that order.
unfoldable pub best_of : ℕ → List Subscription → Option Subscription
unfolding precedes is_entitling
best_of user [] = none
best_of user (sub ∷ subs) =
    let rest = best_of user subs in if entitles user sub then some (earlier sub rest) else rest

unfoldable pub get_subscription : ℕ → Store → Option Subscription
unfolding best_of
get_subscription user s = best_of user s.subscriptions

-- `(await EntitlementService.getSubscription(userId))?.plan ?? 'FREE'`
abbrev pub plan_or_free : Option Subscription → PlanTier
plan_or_free none = free
plan_or_free (some sub) = sub.plan

unfoldable pub tier_of : ℕ → Store → PlanTier
unfolding get_subscription
tier_of user s = plan_or_free (get_subscription user s)
