-- ===== src/Quota/Entries.antt =====
-- What one charge and its receipt do to the count of a ledger and to the open charges.
use ai_pr_reviewer.Prelude.{
  ℕ, ◌+◌, ◌≡◌, refl, ap, ◌∙◌, Bool, true, false, ◌&&◌, Option, none, some, arith, ◌==◌,
  if◌then◌else◌, ==_iff, find_unique-update,
}
use mathlib.Core.Option
use ai_pr_reviewer.Store.{
  Job, UsageLedger, Store, ledger_id, find_job, find_ledger, update_job, update_ledger,
}
use ai_pr_reviewer.Quota.Reserve.{is_ledger_of, upsert_ledger, increment, link_charge}
use ai_pr_reviewer.Quota.Balance.{
  same_kind, charge_weight, open_charges, open_charges-update, open_charges-update_ledger,
  ledger_count, ledger_count-update_job, count_of, IsBalanced,
}

pub increment-id : (q : Bool) (l : UsageLedger) → (increment q l).id ≡ l.id
increment-id true l = refl
increment-id false l = refl

pub increment-is_ledger_of :
    (user month : ℕ) (q : Bool) (l : UsageLedger)
    → is_ledger_of user month (increment q l) ≡ is_ledger_of user month l
increment-is_ledger_of user month true l = refl
increment-is_ledger_of user month false l = refl

pub count-increment :
    (p q b : Bool) (o : Option UsageLedger) (l : UsageLedger)
    → (b ≡ true → o ≡ some l)
    → count_of p (if b then Option.map (increment q) o else o)
      ≡ (if b && same_kind p (some q) then count_of p o + 1 else count_of p o)
count-increment p q false o l e = refl
count-increment true true true o l e = ground (arith, e refl)
count-increment true false true o l e = ground (arith, e refl)
count-increment false true true o l e = ground (arith, e refl)
count-increment false false true o l e = ground (arith, e refl)

module _ (ledger : ℕ) (p : Bool) where
  pub ledger_count-increment :
      (k : ℕ) (q : Bool) (s : Store) (l : UsageLedger)
      → find_ledger k s ≡ some l
      → ledger_count ledger p (update_ledger k (increment q) s) ≡ (
          if (k == ledger) && same_kind p (some q)
          then ledger_count ledger p s + 1
          else ledger_count ledger p s)
  unfolding ledger_count
  ledger_count-increment k q s l e =
      rw (find_unique-update ledger_id k ledger (increment q) s.ledgers (increment-id q)) (
        count-increment p q (k == ledger) (find_ledger ledger s) l
          (λ h. rw (← (==_iff k ledger).0 h) e))

  -- A new empty row counts nothing.
  pub upsert-IsBalanced :
      (fresh user month base : ℕ) (s : Store)
      → find_ledger fresh s ≡ none
      → IsBalanced ledger p base s
      → IsBalanced ledger p base (upsert_ledger fresh user month s)
  unfolding upsert_ledger ledger_count open_charges
  upsert-IsBalanced fresh user month base s new b = ground arith

pub charge_weight-free :
    (ledger : ℕ) (p : Bool) (job : Job)
    → job.quota_ledger_id ≡ none
    → charge_weight ledger p job ≡ 0
charge_weight-free ledger p job h = ground arith

pub charge_weight-linked :
    (ledger : ℕ) (p : Bool) (charged : ℕ) (q : Bool) (k now : ℕ) (job : Job)
    → job.quota_refunded_at ≡ none
    → charge_weight ledger p (link_charge charged q k now job)
      ≡ (if (charged == ledger) && same_kind p (some q) then 1 else 0)
charge_weight-linked ledger p charged q k now job h = ground arith

-- The arithmetic of a charge: the count and the open charges rise together.
pub balance_rise :
    (b : Bool) (base opened_s : ℕ) {count count_s : ℕ} (opened : ℕ) {w w' : ℕ}
    → count ≡ (if b then count_s + 1 else count_s)
    → opened + w ≡ opened_s + w'
    → w ≡ 0
    → w' ≡ (if b then 1 else 0)
    → count_s ≡ base + opened_s
    → count ≡ base + opened
balance_rise true base o c o' f w w' e = omega arith
balance_rise false base o c o' f w w' e = omega arith

module _ (ledger : ℕ) (p : Bool) where
  -- A charge and its receipt together.
  pub charge-IsBalanced :
      (k : ℕ) (q : Bool) (now base : ℕ) (s : Store) (l : UsageLedger) (job : Job)
      → find_ledger l.id s ≡ some l
      → find_job k s ≡ some job
      → job.quota_ledger_id ≡ none
      → job.quota_refunded_at ≡ none
      → IsBalanced ledger p base s
      → IsBalanced ledger p base
          (update_job k (link_charge l.id q k now) (update_ledger l.id (increment q) s))
  charge-IsBalanced k q now base s l job found e free unspent b =
      let linked =
        open_charges-update ledger p k (link_charge l.id q k now)
          (update_ledger l.id (increment q) s) e in
      let counted = ledger_count-increment ledger p l.id q s l found in
      balance_rise ((l.id == ledger) && same_kind p (some q)) base (open_charges ledger p s) _
        (ledger_count-update_job ledger p k (link_charge l.id q k now)
            (update_ledger l.id (increment q) s)
          ∙ counted)
        (linked
          ∙ ap (λ n. n + charge_weight ledger p (link_charge l.id q k now job))
              (open_charges-update_ledger ledger p l.id (increment q) s))
        (charge_weight-free ledger p job free)
        (charge_weight-linked ledger p l.id q k now job unspent) b
