-- ===== src/Billing/Mirror.antt =====
-- Installations mirror the plan of their account: `Installation.plan` is what a dashboard shows.
use ai_pr_reviewer.Prelude.{
  ℕ, ◌≡◌, ◌≤◌, ◌⊎◌, Option, none, refl, sym, ap, subst, ◌∙◌, inl, inr, true, some, List, [], ◌∷◌,
  map, arith, if◌then◌else◌, Bool-cases, Option-cases, All,
}
use Prim.Native.String.{String}
use ai_pr_reviewer.Store.{PlanTier, Installation, Subscription, Store}
use ai_pr_reviewer.Review.Job.{same_number}
use ai_pr_reviewer.Quota.Entitlement.{get_subscription, tier_of}
use ai_pr_reviewer.Billing.Sync.{
  PolarSubscription, Products, status_or_inactive, find_polar, is_stale, not_before,
  sync_entitlements, sync_write, sync_user, sync_subscription, SyncResult,
}

-- Every installation of the user shows the plan of the user's best paid subscription.
abbrev pub IsMirrored : ℕ → Store → Type 0
IsMirrored user s =
    All (λ i. same_number i.user_id (some user) ≡ true → i.plan ≡ tier_of user s) s.installations

-- What a write of the installations leaves of the tier.
tier_of-installations :
    (user : ℕ) (rows : List Installation) (s : Store)
    → tier_of user (record s { installations = rows }) ≡ tier_of user s
unfolding tier_of get_subscription
tier_of-installations user rows s = refl

mirror-All :
    (user : ℕ) (tier : PlanTier) (rows : List Installation)
    → All
        (λ i. same_number i.user_id (some user) ≡ true → i.plan ≡ tier)
        (map
          (λ (i : Installation).
            if same_number i.user_id (some user) then record i { plan = tier } else i)
          rows)
mirror-All user tier [] = tt
mirror-All user tier (i ∷ rows) = (ground arith, mirror-All user tier rows)

entitlements-IsMirrored : (user : ℕ) (s : Store) → IsMirrored user (sync_entitlements user s).0
unfolding sync_entitlements tier_of get_subscription
entitlements-IsMirrored user s = mirror-All user (tier_of user s) s.installations

-- A subscription row has seen an event of this time or a later one.
abbrev pub HasSeen : ℕ → ℕ → Store → Type 0
HasSeen polar event_at s =
    (row : Subscription) × (find_polar polar s.subscriptions ≡ some row)
    × ((last : ℕ) × (row.last_event_at ≡ some last) × (event_at ≤ last))

not_before-last :
    (at : Option ℕ) (event_at : ℕ)
    → not_before at event_at ≡ true
    → (last : ℕ) × (at ≡ some last) × (event_at ≤ last)
not_before-last none event_at h = cc
not_before-last (some last) event_at h = (last, refl, ground arith)

stale-not_before :
    (status : String) (event_at : ℕ) (row : Subscription)
    → is_stale status event_at row ≡ true
    → not_before row.last_event_at event_at ≡ true
unfolding is_stale
stale-not_before status event_at row h = ground arith

write-IsMirrored :
    (env : Products) (e : PolarSubscription) (user event_at fresh now : ℕ) (s : Store)
    → let s' = (sync_write env e user event_at fresh now s).0 in
      ((s' ≡ s) × HasSeen e.id event_at s) ⊎ IsMirrored user s'
unfolding sync_write
write-IsMirrored env e user event_at fresh now s =
    elim (Option-cases (find_polar e.id s.subscriptions)) [
      | inl miss ↦ inr (rw (miss, sync_write) (entitlements-IsMirrored user _))
      | inr (row, hit) ↦ elim (Bool-cases (is_stale (status_or_inactive e.status) event_at row)) [
        | inl stale ↦ inl (
          rw (hit, stale, sync_write) refl,
          (
            row,
            hit,
            not_before-last row.last_event_at event_at
                (stale-not_before (status_or_inactive e.status) event_at row stale),
          ),
        )
        | inr current ↦ inr (rw (hit, current, sync_write) (entitlements-IsMirrored user _))
      ]
    ]

write-user :
    (env : Products) (e : PolarSubscription) (user event_at fresh now : ℕ) (s : Store)
    → (sync_write env e user event_at fresh now s).1.user_id ≡ some user
unfolding sync_write
write-user env e user event_at fresh now s = ground arith

some-pair :
    (w : Store × SyncResult) (s' : Store) (r : SyncResult)
    → some w ≡ some (s', r)
    → (w.0 ≡ s') × (w.1 ≡ r)
some-pair (s, q) s' r h = (cc, cc)

some-inj : {a b : ℕ} → some a ≡ some b → b ≡ a
some-inj h = cc

-- After a billing event for an account either every installation of the account shows the plan of its
-- best paid subscription, whatever they showed before, or nothing has changed, because the
-- subscription's row has seen an event of the same time or a later one.
pub sync-IsMirrored :
    (env : Products) (e : PolarSubscription) (event_at fresh now user : ℕ) (tier : PlanTier)
    (s s' : Store)
    → sync_subscription env e (some event_at) fresh now s
      ≡ some (s', record { user_id = some user; tier = tier })
    → ((s' ≡ s) × HasSeen e.id event_at s) ⊎ IsMirrored user s'
unfolding sync_subscription
sync-IsMirrored env e event_at fresh now user tier s s' run = elim (Option-cases (sync_user e s)) [
  | inl nobody ↦ ground arith
  | inr (owner, known) ↦
      let ran : some (sync_write env e owner event_at fresh now s)
          ≡ some (s', record { user_id = some user; tier = tier }) =
        rw (known, sync_subscription) at run in
      let (written, result) =
        some-pair (sync_write env e owner event_at fresh now s) s'
          (record { user_id = some user; tier = tier }) ran in
      let same : some owner ≡ some user =
        sym (write-user env e owner event_at fresh now s)
        ∙ ap (λ (r : SyncResult). r.user_id) result in
      subst (λ u. ((s' ≡ s) × HasSeen e.id event_at s) ⊎ IsMirrored u s') (sym (some-inj same))
        (subst (λ t. ((t ≡ s) × HasSeen e.id event_at s) ⊎ IsMirrored owner t) written
          (write-IsMirrored env e owner event_at fresh now s))
]
