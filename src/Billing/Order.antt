-- ===== src/Billing/Order.antt =====
-- Billing events that arrive late, twice or out of order: an account that lost its plan does not get
-- it back from an event that is no newer than the loss.
use ai_pr_reviewer.Prelude.{
  ℕ, ◌≤◌, ◌≡◌, refl, sym, ap, subst, ◌∙◌, ◌≢◌, ◌⊎◌, inl, inr, true, false, Option, none, some, List,
  [], ◌∷◌, arith, ◌==◌, ==_iff, Bool-cases, Option-cases, All, find_first-holds,
}
use Prim.Native.String.{String}
use ai_pr_reviewer.Store.{Subscription, Store}
use ai_pr_reviewer.Quota.Entitlement.{is_entitling}
use ai_pr_reviewer.Billing.Sync.{
  PolarSubscription, Products, status_or_inactive, is_polar, find_polar, update_subscription,
  create_subscription, is_same_time_revocation, is_stale, update_first, sync_entitlements,
  sync_write, sync_user, sync_subscription, SyncResult, as_cancellation, sync_cancellation,
}

-- One delivery of an event: what it says, its provider time, and the identifier and time that a write
-- would use.
pub record Delivery : Type 0 where
  pub event : PolarSubscription
  pub at_time : ℕ
  pub fresh : ℕ
  pub now : ℕ

abbrev pub store_or : Store → Option (Store × SyncResult) → Store
store_or s none = s
store_or s (some (s', result)) = s'

unfoldable pub sync_all : Products → List Delivery → Store → Store
sync_all env [] s = s
sync_all env (d ∷ ds) s =
    sync_all env ds (store_or s (sync_subscription env d.event (some d.at_time) d.fresh d.now s))

-- An event of another subscription, or one that is no newer than `last`.
abbrev pub IsNoNewer : ℕ → ℕ → Delivery → Type 0
IsNoNewer k last d = (d.event.id ≢ k) ⊎ (d.at_time ≤ last)

find_polar-update_first :
    (k : ℕ) (f : Subscription → Subscription) (rows : List Subscription) {row : Subscription}
    → find_polar k rows ≡ some row
    → is_polar k (f row) ≡ true
    → find_polar k (update_first (is_polar k) f rows) ≡ some (f row)
find_polar-update_first k f [] e h = cc
find_polar-update_first k f (r ∷ rows) {row} e h =
    ground (arith, find_polar-update_first k f rows {row = row})

is_polar-ne : (k j : ℕ) (r : Subscription) → k ≢ j → is_polar k r ≡ true → is_polar j r ≡ false
is_polar-ne k j r ne h = elim (Option-cases r.polar_subscription_id) [
  | inl miss ↦ ground arith
  | inr (i, hit) ↦ ground arith
]

find_polar-update_ne :
    (k j : ℕ) (f : Subscription → Subscription) (rows : List Subscription)
    → k ≢ j
    → ((r : Subscription) → (f r).polar_subscription_id ≡ r.polar_subscription_id)
    → find_polar j (update_first (is_polar k) f rows) ≡ find_polar j rows
find_polar-update_ne k j f [] ne h = refl
find_polar-update_ne k j f (r ∷ rows) ne h =
    ground (arith, h r, is_polar-ne k j r ne, find_polar-update_ne k j f rows ne h)

update-polar :
    (env : Products) (e : PolarSubscription) (status : String) (user event_at now : ℕ)
    (r : Subscription)
    → (update_subscription env e status user event_at now r).polar_subscription_id
      ≡ r.polar_subscription_id
unfolding update_subscription
update-polar env e status user event_at now r = refl

-- A delivery for another subscription leaves the row.
sync_write-other :
    (env : Products) (e : PolarSubscription) (user event_at fresh now k : ℕ) (s : Store)
    → e.id ≢ k
    → find_polar k (sync_write env e user event_at fresh now s).0.subscriptions
      ≡ find_polar k s.subscriptions
unfolding sync_write sync_entitlements
sync_write-other env e user event_at fresh now k s ne =
    elim (Option-cases (find_polar e.id s.subscriptions)) [
      | inl miss ↦ rw (miss, sync_write) (unfold create_subscription in ground arith)
      | inr (row, hit) ↦ elim (Bool-cases (is_stale (status_or_inactive e.status) event_at row)) [
        | inl stale ↦ rw (hit, stale, sync_write) refl
        | inr current ↦
            rw (hit, current, sync_write)
              (find_polar-update_ne e.id k
                (update_subscription env e (status_or_inactive e.status) user event_at now)
                s.subscriptions ne
                (update-polar env e (status_or_inactive e.status) user event_at now))
      ]
    ]

unentitled-stale :
    (status : String) (event_at last : ℕ) (row : Subscription)
    → is_entitling row.status ≡ false
    → row.last_event_at ≡ some last
    → event_at ≤ last
    → is_stale status event_at row ≡ true
unfolding is_stale is_same_time_revocation
unentitled-stale status event_at last row off at le = ground arith

sync_write-stale :
    (env : Products) (e : PolarSubscription) (user event_at fresh now : ℕ) (s : Store)
    (row : Subscription)
    → find_polar e.id s.subscriptions ≡ some row
    → is_stale (status_or_inactive e.status) event_at row ≡ true
    → (sync_write env e user event_at fresh now s).0 ≡ s
unfolding sync_write
sync_write-stale env e user event_at fresh now s row hit stale = rw (hit, stale, sync_write) refl

-- A row that is not entitled is left by every delivery that is no newer than what it has seen.
sync-unentitled :
    (env : Products) (k last : ℕ) (d : Delivery) (s : Store) (row : Subscription)
    → find_polar k s.subscriptions ≡ some row
    → is_entitling row.status ≡ false
    → row.last_event_at ≡ some last
    → IsNoNewer k last d
    → find_polar k
        (store_or s (sync_subscription env d.event (some d.at_time) d.fresh d.now s)).subscriptions
      ≡ some row
unfolding sync_subscription
sync-unentitled env k last d s row hit off at no_newer = elim (Option-cases (sync_user d.event s)) [
  | inl nobody ↦ rw (nobody, sync_subscription) hit
  | inr (user, known) ↦
      rw (known, sync_subscription)
        (elim no_newer [
          | inl other ↦ sync_write-other env d.event user d.at_time d.fresh d.now k s other ∙ hit
          | inr le ↦ elim (Bool-cases (d.event.id == k)) [
            | inl same ↦
                let own : find_polar d.event.id s.subscriptions ≡ some row =
                  subst (λ j. find_polar j s.subscriptions ≡ some row)
                    (sym ((==_iff d.event.id k).0 same)) hit in
                ap (λ (t : Store). find_polar k t.subscriptions)
                  (sync_write-stale env d.event user d.at_time d.fresh d.now s row own (
                    unentitled-stale (status_or_inactive d.event.status) d.at_time last row off at
                      le))
                ∙ hit
            | inr different ↦
                sync_write-other env d.event user d.at_time d.fresh d.now k s (ground arith) ∙ hit
          ]
        ])
]

sync_all-unentitled :
    (env : Products) (k last : ℕ) (ds : List Delivery) (s : Store) (row : Subscription)
    → find_polar k s.subscriptions ≡ some row
    → is_entitling row.status ≡ false
    → row.last_event_at ≡ some last
    → All (IsNoNewer k last) ds
    → find_polar k (sync_all env ds s).subscriptions ≡ some row
unfolding sync_all
sync_all-unentitled env k last [] s row hit off at old = hit
sync_all-unentitled env k last (d ∷ ds) s row hit off at (o, old) =
    sync_all-unentitled env k last ds _ row (sync-unentitled env k last d s row hit off at o) off at
      old

-- The cancellation is no older than what the row has seen.
abbrev pub IsNewest : ℕ → Option Subscription → Type 0
IsNewest at none = Unit
IsNewest at (some row) = (last : ℕ) → row.last_event_at ≡ some last → last ≤ at

stale-cancel :
    (event_at : ℕ) (row : Subscription)
    → is_stale "canceled" event_at row ≡ true
    → IsNewest event_at (some row)
    → (row.last_event_at ≡ some event_at) × (is_entitling row.status ≡ false)
unfolding is_stale is_same_time_revocation
stale-cancel event_at row stale newest = elim (Option-cases row.last_event_at) [
  | inl never ↦ ground arith
  | inr (last, seen) ↦ ground (arith, newest last seen)
]

cancel-records :
    (env : Products) (e : PolarSubscription) (user event_at fresh now : ℕ) (s : Store)
    → IsNewest event_at (find_polar e.id s.subscriptions)
    → (row : Subscription) × (find_polar e.id
          (sync_write env (as_cancellation e) user event_at fresh now s).0.subscriptions
        ≡ some row)
      × (is_entitling row.status ≡ false)
      × (row.last_event_at ≡ some event_at)
unfolding sync_write sync_entitlements
cancel-records env e user event_at fresh now s newest =
    elim (Option-cases (find_polar e.id s.subscriptions)) [
      | inl miss ↦
          rw (miss, sync_write)
            (
              create_subscription env (as_cancellation e) "canceled" user event_at now fresh,
              unfold create_subscription in ground arith,
              unfold create_subscription is_entitling in refl,
              unfold create_subscription in refl,
            )
      | inr (row, hit) ↦ elim (Bool-cases (is_stale "canceled" event_at row)) [
        | inl stale ↦
            rw (hit, stale, sync_write)
              (let lost = stale-cancel event_at row stale (subst (IsNewest event_at) hit newest) in
                (row, hit, lost.1, lost.0))
        | inr current ↦
            rw (hit, current, sync_write)
              (
                update_subscription env (as_cancellation e) "canceled" user event_at now row,
                find_polar-update_first e.id
                    (update_subscription env (as_cancellation e) "canceled" user event_at now)
                    s.subscriptions hit
                    (unfold update_subscription in
                      find_first-holds (λ (r : Subscription). r.id) (is_polar e.id) s.subscriptions
                        hit),
                unfold update_subscription is_entitling in refl,
                unfold update_subscription in refl,
              )
      ]
    ]

cancel-runs :
    (env : Products) (e : PolarSubscription) (user event_at fresh now : ℕ) (s s' : Store)
    → sync_cancellation env e (some event_at) fresh now s ≡ some (s', some user)
    → (owner : ℕ) × (s' ≡ (sync_write env (as_cancellation e) owner event_at fresh now s).0)
unfolding sync_cancellation sync_subscription
cancel-runs env e user event_at fresh now s s' run =
    elim (Option-cases (sync_user (as_cancellation e) s)) [
      | inl nobody ↦ ground arith
      | inr (owner, known) ↦ (owner, ground arith)
    ]

-- After a cancellation that is no older than what its row had seen, no sequence of deliveries, late,
-- repeated or of other subscriptions, entitles the account through that subscription again, unless an
-- event of the subscription is newer than the cancellation.
pub revocation_is_final :
    (env : Products) (e : PolarSubscription) (user event_at fresh now : ℕ) (s s' : Store)
    (ds : List Delivery)
    → sync_cancellation env e (some event_at) fresh now s ≡ some (s', some user)
    → IsNewest event_at (find_polar e.id s.subscriptions)
    → All (IsNoNewer e.id event_at) ds
    → (row : Subscription) × (find_polar e.id (sync_all env ds s').subscriptions ≡ some row)
      × (is_entitling row.status ≡ false)
revocation_is_final env e user event_at fresh now s s' ds run newest old =
    let (owner, written) = cancel-runs env e user event_at fresh now s s' run in
    let (row, hit, off, at) = cancel-records env e owner event_at fresh now s newest in
    let there : find_polar e.id s'.subscriptions ≡ some row =
      ap (λ (t : Store). find_polar e.id t.subscriptions) written ∙ hit in
    (row, sync_all-unentitled env e.id event_at ds s' row there off at old, off)
