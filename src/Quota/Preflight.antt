-- ===== src/Quota/Preflight.antt =====
-- The preflight `checkQuota` and the reservation `reserveWithin` agree.
use ai_pr_reviewer.Prelude.{
  ℕ, ◌+◌, ◌≡◌, refl, sym, ap, inl, inr, Bool, true, Option, none, some, arith, Option-cases,
}
use ai_pr_reviewer.Store.{Store}
use ai_pr_reviewer.Quota.Usage.{Usage, allowed, within_limit, check_quota}
use ai_pr_reviewer.Quota.Charge.{refusal-denies}
use ai_pr_reviewer.Quota.Reserve.{refusal, usage_of, reserve_within}

check_quota-within :
    (installation : Option ℕ) (p : Bool) (user month : ℕ) (s : Store)
    → let u = usage_of user month p s in
      within_limit u.limit u.current ≡ true
      → check_quota installation p (some user) month s ≡ allowed u
unfolding check_quota
check_quota-within installation p user month s h = rw (h, check_quota) refl

refusal-within :
    (limit : Option ℕ) (user github_repo current : ℕ) (u : Usage) (s : Store)
    → refusal limit user github_repo current u s ≡ none
    → within_limit limit current ≡ true
unfolding refusal
refusal-within none user github_repo current u s h = refl
refusal-within (some limit) user github_repo current u s h = ground arith

allowed-inj : {a b : Usage} → allowed a ≡ allowed b → a ≡ b
allowed-inj h = cc

-- The preflight never turns away a review that the reservation would accept: where `reserveWithin`
-- charges the account, `checkQuota` on the same database allows the review, and shows the total
-- before the charge, the same limit and the same month.
pub preflight_allows_reservable :
    (installation : Option ℕ) (fresh : ℕ) (p : Bool) (user github_repo month : ℕ) (s : Store)
    (u : Usage)
    → (reserve_within fresh p user github_repo month s).1 ≡ allowed u
    → (v : Usage) × (check_quota installation p (some user) month s ≡ allowed v)
      × (u.current ≡ v.current + 1)
      × (u.limit ≡ v.limit)
      × (u.billing_month ≡ v.billing_month)
unfolding reserve_within
preflight_allows_reservable installation fresh p user github_repo month s u run =
    let v = usage_of user month p s in
    elim (Option-cases (refusal v.limit user github_repo v.current v s)) [
      | inl go ↦
          let same : allowed (record v { current = v.current + 1 }) ≡ allowed u =
            rw (go, reserve_within) at run in
          (
            v,
            check_quota-within installation p user month s
                (refusal-within v.limit user github_repo v.current v s go),
            (let e = allowed-inj same in sym (ap (λ (x : Usage). x.current) e)),
            (let e = allowed-inj same in sym (ap (λ (x : Usage). x.limit) e)),
            (let e = allowed-inj same in sym (ap (λ (x : Usage). x.billing_month) e)),
          )
      | inr (r, stop) ↦ absurd (
          refusal-denies v.limit user github_repo v.current v s r u stop
            (rw (stop, reserve_within) at run))
    ]
