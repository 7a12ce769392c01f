-- ===== src/Quota/Charge.antt =====
-- What a reservation does to the totals of an account: the charge of `reserveWithin`.
use ai_pr_reviewer.Prelude.{
  ℕ, ◌+◌, ◌≤◌, ◌<◌, ◌≡◌, refl, sym, ap, subst, ◌∙◌, ◌≢◌, inl, inr, Bool, true, false, not, Option,
  none, some, List, arith, Option-cases, total-update, HasUniqueKeys, find_unique-of-find_first,
  find_first-holds,
}
use ai_pr_reviewer.Store.{UsageLedger, Installation, Store, ledger_id, find_ledger}
use ai_pr_reviewer.Review.Job.{same_number}
use ai_pr_reviewer.Quota.Usage.{
  Usage, QuotaCheckResult, allowed, denied, DenialReason, is_account_ledger, account_weight,
  get_account_usage,
}
use ai_pr_reviewer.Quota.Reserve.{
  is_ledger_of, account_ledger, empty_ledger, upsert_ledger, increment, charge_ledger, refusal,
  usage_of, reserve_within,
}

same_number_lem : (a : Option ℕ) (b : ℕ) → same_number a (some b) ≡ true → a ≡ some b
same_number_lem none b h = cc
same_number_lem (some a) b h = ground arith

-- The account's own row of a month is among the rows that its total sums.
own-is_account :
    (rows : List Installation) (user month : ℕ) (l : UsageLedger)
    → is_ledger_of user month l ≡ true
    → is_account_ledger rows user month l ≡ true
unfolding is_account_ledger
own-is_account rows user month l h = ground arith

increment-weight :
    (rows : List Installation) (user month : ℕ) (p : Bool) (l : UsageLedger)
    → is_ledger_of user month l ≡ true
    → account_weight rows user month p (increment p l) ≡ account_weight rows user month p l + 1
increment-weight rows user month true l h =
    ground (
      arith,
      own-is_account rows user month l h,
      own-is_account rows user month (increment true l) h,
    )
increment-weight rows user month false l h = ground (
  arith,
  own-is_account rows user month l h,
  own-is_account rows user month (increment false l) h,
)

increment-weight_other :
    (rows : List Installation) (user month : ℕ) (p : Bool) (l : UsageLedger)
    → account_weight rows user month (not p) (increment p l)
      ≡ account_weight rows user month (not p) l
unfolding is_account_ledger
increment-weight_other rows user month true l = ground arith
increment-weight_other rows user month false l = ground arith

upsert-usage :
    (fresh user month : ℕ) (p : Bool) (s : Store)
    → get_account_usage user month p (upsert_ledger fresh user month s)
      ≡ get_account_usage user month p s
unfolding get_account_usage upsert_ledger
upsert-usage fresh user month true s = ground arith
upsert-usage fresh user month false s = ground arith

-- The row that `upsert` leaves for the account, and that its identifier names.
pub upsert-ledger :
    (fresh user month : ℕ) (s : Store)
    → HasUniqueKeys ledger_id s.ledgers
    → find_ledger fresh s ≡ none
    → (l : UsageLedger) × (account_ledger user month (upsert_ledger fresh user month s) ≡ some l)
      × (find_ledger l.id (upsert_ledger fresh user month s) ≡ some l)
      × (is_ledger_of user month l ≡ true)
unfolding upsert_ledger
upsert-ledger fresh user month s u new = elim (Option-cases (account_ledger user month s)) [
  | inl e ↦
      rw (e, upsert_ledger)
        (empty_ledger fresh user month, ground arith, ground arith, ground arith)
  | inr (l, e) ↦
      rw (e, upsert_ledger)
        (
          l,
          e,
          find_unique-of-find_first ledger_id (is_ledger_of user month) s.ledgers u e,
          find_first-holds ledger_id (is_ledger_of user month) s.ledgers e,
        )
]

-- One charge adds one to the account's total of that kind.
charge-usage :
    (user month : ℕ) (p : Bool) (s : Store) (l : UsageLedger)
    → account_ledger user month s ≡ some l
    → find_ledger l.id s ≡ some l
    → is_ledger_of user month l ≡ true
    → get_account_usage user month p (charge_ledger user month p s)
      ≡ get_account_usage user month p s + 1
unfolding get_account_usage charge_ledger
charge-usage user month p s l e found mine =
    rw (e, charge_ledger)
      (omega (
        arith,
        total-update ledger_id (account_weight s.installations user month p) l.id (increment p)
            s.ledgers found,
        increment-weight s.installations user month p l mine,
      ))

charge-usage_other :
    (user month : ℕ) (p : Bool) (s : Store) (l : UsageLedger)
    → account_ledger user month s ≡ some l
    → find_ledger l.id s ≡ some l
    → get_account_usage user month (not p) (charge_ledger user month p s)
      ≡ get_account_usage user month (not p) s
unfolding get_account_usage charge_ledger
charge-usage_other user month p s l e found =
    rw (e, charge_ledger)
      (omega (
        arith,
        total-update ledger_id (account_weight s.installations user month (not p)) l.id
            (increment p) s.ledgers found,
        increment-weight_other s.installations user month p l,
      ))

-- What an accepted reservation leaves: the total of its kind is one more and is what the result
-- reports, the other total stays, and a limit is not passed.
pub record Charged (user month : ℕ) (p : Bool) (s s' : Store) (u : Usage) : Type 0 where
  pub grows : get_account_usage user month p s' ≡ get_account_usage user month p s + 1
  pub keeps : get_account_usage user month (not p) s' ≡ get_account_usage user month (not p) s
  pub reported : u.current ≡ get_account_usage user month p s'
  pub limited : (n : ℕ) → u.limit ≡ some n → u.current ≤ n

refusal-limit :
    (limit : Option ℕ) (user github_repo current : ℕ) (u : Usage) (s : Store)
    → refusal limit user github_repo current u s ≡ none
    → (n : ℕ) → limit ≡ some n
    → current < n
unfolding refusal
refusal-limit none user github_repo current u s h n e = cc
refusal-limit (some limit) user github_repo current u s h n e = ground arith

pub refusal-denies :
    (limit : Option ℕ) (user github_repo current : ℕ) (u : Usage) (s : Store)
    (result : QuotaCheckResult) (v : Usage)
    → refusal limit user github_repo current u s ≡ some result
    → result ≢ allowed v
unfolding refusal
refusal-denies none user github_repo current u s result v h = cc
refusal-denies (some limit) user github_repo current u s result v h = ground arith

charge-Charged :
    (fresh : ℕ) (p : Bool) (user github_repo month : ℕ) (s : Store)
    → HasUniqueKeys ledger_id s.ledgers
    → find_ledger fresh s ≡ none
    → let u = usage_of user month p s in
      refusal u.limit user github_repo u.current u s ≡ none
      → Charged user month p s
          (charge_ledger user month p (upsert_ledger fresh user month s))
          (record u { current = u.current + 1 })
charge-Charged fresh p user github_repo month s uniq new go =
    let (l, e, found, mine) = upsert-ledger fresh user month s uniq new in
    let u = usage_of user month p s in
    let t = upsert_ledger fresh user month s in
    let grown =
      charge-usage user month p t l e found mine
      ∙ ap (λ n. n + 1) (upsert-usage fresh user month p s) in
    record {
      grows = grown;
      keeps = charge-usage_other user month p t l e found ∙ upsert-usage fresh user month (not p) s;
      reported = sym grown;
      limited = λ n h.
          let below = refusal-limit u.limit user github_repo u.current u s go n h in omega arith;
    }

-- Where ledgers have distinct identifiers and the new row's is unused: an accepted reservation adds
-- one to the account's total of its kind and nothing to the other, reports the new total and does not
-- pass a limit; a denied one leaves the database as it was.
pub reserve_within_lem :
    (fresh : ℕ) (p : Bool) (user github_repo month : ℕ) (s : Store)
    → HasUniqueKeys ledger_id s.ledgers
    → find_ledger fresh s ≡ none
    → ((u : Usage)
        → (reserve_within fresh p user github_repo month s).1 ≡ allowed u
        → Charged user month p s (reserve_within fresh p user github_repo month s).0 u)
      × ((r : DenialReason) (u : Usage)
          → (reserve_within fresh p user github_repo month s).1 ≡ denied r u
          → (reserve_within fresh p user github_repo month s).0 ≡ s)
unfolding reserve_within
reserve_within_lem fresh p user github_repo month s uniq new =
    let u = usage_of user month p s in
    elim (Option-cases (refusal u.limit user github_repo u.current u s)) [
      | inl go ↦
          rw (go, reserve_within)
            (
              (λ v same.
                  subst (Charged user month p s _) (cc same)
                    (charge-Charged fresh p user github_repo month s uniq new go)),
              (λ r v same. cc),
            )
      | inr (result, stop) ↦
          rw (stop, reserve_within)
            (
              (λ v same.
                  absurd
                    (refusal-denies u.limit user github_repo u.current u s result v stop same)),
              (λ r v same. refl),
            )
    ]
