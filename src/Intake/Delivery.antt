-- ===== src/Intake/Delivery.antt =====
-- What a delivery of a webhook does to the reviews and the queue, a repeated one above all.
use ai_pr_reviewer.Prelude.{
  ℕ, ◌≡◌, refl, sym, ap, subst, ◌∙◌, ◌⊎◌, inl, inr, Option, none, some, List, [], ◌∷◌, arith,
  if◌then◌else◌, Bool-cases, Option-cases, keep, find_first,
}
use ai_pr_reviewer.Store.{skipped, queued, absent, JobStatus, Results, Text, Repository}
use ai_pr_reviewer.Quota.Usage.{DenialReason, QuotaCheckResult, allowed, denied, check_quota}
use ai_pr_reviewer.Intake.State.{
  EventType, pull_request, push, Identity, identifies, ReviewRow, ReviewRequest, Intake,
  Environment, find_review, create_job, QueueOutcome, is_duplicate, is_denied, is_queued, fails,
  insert_and_queue,
}
use ai_pr_reviewer.Intake.Payload.{
  Header, ping, pull_request_event, push_event, other_event, Payload, SkipReason, missing_head_sha,
  quota_exceeded, Response, duplicate, Texts, identity_of, head_of, event_of,
}
use ai_pr_reviewer.Intake.Webhook.{
  Resolved, ambiguous, inactive, rejected, resolved, register_for, register, only_match, resolve,
  matches_payload, refresh_private, notice, record_skip, deny_delivery, respond, request_of, admit,
  review_event, route, is_invalid, handle_github_event,
}
use ai_pr_reviewer.Intake.Once.{IsOnceIn, insert-IsOnce, create_job-IsOnce, intake_after}

-- What a delivery may have changed beside the rows of the reviews and the queue.
abbrev SameReviews : Intake → Intake → Type 0
SameReviews t t' = (t'.reviews ≡ t.reviews) × (t'.queue ≡ t.queue)

SameReviews-IsOnce : (t t' : Intake) → SameReviews t t' → IsOnceIn t → IsOnceIn t'
SameReviews-IsOnce t t' (rows, queue) h = rw (rows, queue) h

refresh-SameReviews :
    (p : Payload) (r : Repository) (t : Intake) → SameReviews t (refresh_private p r t)
unfolding refresh_private
refresh-SameReviews p r t = ground arith

notice-SameReviews :
    (event : EventType) (p : Payload) (i : Identity) (t : Intake)
    → SameReviews t (notice event p i t)
notice-SameReviews push p i t = (refl, refl)
notice-SameReviews pull_request p i t = ground arith

record_skip-IsOnce :
    (env : Environment) (why : SkipReason) (i : Identity) (results : Results) (t : Intake)
    → IsOnceIn t
    → IsOnceIn (record_skip why t (create_job env i skipped results t)).0
record_skip-IsOnce env why i results t h =
    elim (Option-cases (create_job env i skipped results t)) [
      | inl taken ↦ rw taken h
      | inr (t', made) ↦ rw made (create_job-IsOnce env i skipped results t t' made h)
    ]

deny-IsOnce :
    (texts : Texts) (env : Environment) (event : EventType) (p : Payload) (i : Identity)
    (reason : DenialReason) (t : Intake)
    → IsOnceIn t
    → IsOnceIn (deny_delivery texts env event p i reason t).0
unfolding deny_delivery
deny-IsOnce texts env event p i reason t h = elim (Option-cases (find_review i t)) [
  | inr (row, known) ↦ rw (known, deny_delivery) h
  | inl new ↦
      rw (new, deny_delivery)
        (record_skip-IsOnce env quota_exceeded i (texts.denial reason) (notice event p i t)
          (SameReviews-IsOnce t (notice event p i t) (notice-SameReviews event p i t) h))
]

respond-intake :
    (env : Environment) (t : Intake) (o : QueueOutcome) → (respond env t o).0 ≡ intake_after t o
respond-intake env t is_duplicate = refl
respond-intake env t (is_denied t' result) = refl
respond-intake env t (is_queued t') = refl
respond-intake env t (fails t') = refl

admit-IsOnce :
    (texts : Texts) (env : Environment) (event : EventType) (p : Payload) (r : Repository)
    (t : Intake) (result : QuotaCheckResult)
    → IsOnceIn t
    → IsOnceIn (admit texts env event p r t result).0
unfolding admit
admit-IsOnce texts env event p r t (denied reason usage) h =
    deny-IsOnce texts env event p (identity_of event p r) reason t h
admit-IsOnce texts env event p r t (allowed usage) h =
    rw (respond-intake env t _) (insert-IsOnce texts.denial env (request_of env event p r) t h)

review_event-IsOnce :
    (texts : Texts) (env : Environment) (event : EventType) (p : Payload) (r : Repository)
    (t : Intake)
    → IsOnceIn t
    → IsOnceIn (review_event texts env event p r t).0
unfolding review_event
review_event-IsOnce texts env event p r t h = elim (Option-cases (head_of event p)) [
  | inl missing ↦
      rw (missing, review_event)
        (record_skip-IsOnce env missing_head_sha (identity_of event p r) texts.missing_sha t h)
  | inr (sha, has) ↦
      rw (has, review_event)
        (admit-IsOnce texts env event p r (refresh_private p r t) _
          (SameReviews-IsOnce t (refresh_private p r t) (refresh-SameReviews p r t) h))
]

register-SameReviews :
    (env : Environment) (p : Payload) (t : Intake) (r : Repository) (t' : Intake)
    → register env p t ≡ resolved r t'
    → SameReviews t t'
unfolding register register_for
register-SameReviews env p t r t' e = ground arith

only_match-SameReviews :
    (env : Environment) (p : Payload) (t : Intake) (found : List Repository) (r : Repository)
    (t' : Intake)
    → only_match env p t found ≡ resolved r t'
    → SameReviews t t'
only_match-SameReviews env p t [] r t' e = register-SameReviews env p t r t' e
only_match-SameReviews env p t (s ∷ []) r t' e = (cc, cc)
only_match-SameReviews env p t (s ∷ u ∷ rest) r t' e = cc

event_cases :
    (o : SkipReason ⊎ EventType)
    → ((why : SkipReason) × (o ≡ inl why)) ⊎ ((event : EventType) × (o ≡ inr event))
event_cases (inl why) = inl (why, refl)
event_cases (inr event) = inr (event, refl)

route-IsOnce :
    (texts : Texts) (env : Environment) (header : Header) (p : Payload) (t : Intake)
    (found : Resolved)
    → ((r : Repository) (t' : Intake) → found ≡ resolved r t' → SameReviews t t')
    → IsOnceIn t
    → IsOnceIn (route texts env header p t found).0
unfolding route
route-IsOnce texts env header p t ambiguous same h = h
route-IsOnce texts env header p t inactive same h = h
route-IsOnce texts env header p t rejected same h = h
route-IsOnce texts env header p t (resolved r t') same h =
    let h' = SameReviews-IsOnce t t' (same r t' refl) h in
    elim (event_cases (event_of header p)) [
      | inl (why, e) ↦ rw (e, route) h'
      | inr (event, e) ↦ rw (e, route) (review_event-IsOnce texts env event p r t' h')
    ]

admitted-IsOnce :
    (texts : Texts) (env : Environment) (header : Header) (p : Payload) (t : Intake)
    → IsOnceIn t
    → IsOnceIn
        (if is_invalid p
          then (t, Response.invalid_repository)
          else route texts env header p t (resolve env p t)).0
unfolding resolve
admitted-IsOnce texts env header p t h =
    let routed =
      route-IsOnce texts env header p t (resolve env p t)
        (λ r t' e.
          only_match-SameReviews env p t
            (keep (matches_payload t.github_installations p) t.store.repositories) r t' e)
        h in
    elim (Bool-cases (is_invalid p)) [ inl bad ↦ rw bad h | inr good ↦ rw good routed ]

pub handle-IsOnce :
    (texts : Texts) (env : Environment) (header : Header) (p : Payload) (t : Intake)
    → IsOnceIn t
    → IsOnceIn (handle_github_event texts env header p t).0
unfolding handle_github_event
handle-IsOnce texts env ping p t h = h
handle-IsOnce texts env pull_request_event p t h =
    admitted-IsOnce texts env pull_request_event p t h
handle-IsOnce texts env push_event p t h = admitted-IsOnce texts env push_event p t h
handle-IsOnce texts env other_event p t h = admitted-IsOnce texts env other_event p t h

-- What a delivery leaves alone.
pub record IsFree (t t' : Intake) : Type 0 where
  pub reviews : t'.reviews ≡ t.reviews
  pub queue : t'.queue ≡ t.queue
  pub notices : t'.notices ≡ t.notices
  pub ledgers : t'.store.ledgers ≡ t.store.ledgers
  pub jobs : t'.store.jobs ≡ t.store.jobs

refresh-IsFree : (p : Payload) (r : Repository) (t : Intake) → IsFree t (refresh_private p r t)
unfolding refresh_private
refresh-IsFree p r t = record {
  reviews = ground arith;
  queue = ground arith;
  notices = ground arith;
  ledgers = ground arith;
  jobs = ground arith;
}

known-duplicate :
    (env : Environment) (j : Identity) (status : JobStatus) (results : Results) (t : Intake)
    (row : ReviewRow)
    → find_review j t ≡ some row
    → create_job env j status results t ≡ none
unfolding create_job
known-duplicate env j status results t row known = rw (known, create_job) refl

known-insert :
    (texts : DenialReason → Results) (env : Environment) (request : ReviewRequest) (t : Intake)
    (row : ReviewRow)
    → find_review request.identity t ≡ some row
    → insert_and_queue texts env request t ≡ is_duplicate
unfolding insert_and_queue
known-insert texts env request t row known =
    rw (known-duplicate env request.identity queued absent t row known, insert_and_queue) refl

known-admit :
    (texts : Texts) (env : Environment) (event : EventType) (p : Payload) (r : Repository)
    (t : Intake) (result : QuotaCheckResult) (row : ReviewRow)
    → find_review (identity_of event p r) t ≡ some row
    → (id : Option ℕ) × (admit texts env event p r t result ≡ (t, duplicate id))
unfolding admit deny_delivery
known-admit texts env event p r t (denied reason usage) row known =
    (some row.id, rw (known, deny_delivery) refl)
known-admit texts env event p r t (allowed usage) row known = (
  none,
  ap (respond env t) (known-insert texts.denial env (request_of env event p r) t row known),
)

-- A delivery for a head commit that has a row is answered as a duplicate, whatever the quota says:
-- no row, no job of the queue, no notice and no charge is added, and every job stays as it was.
pub redelivery-IsFree :
    (texts : Texts) (env : Environment) (event : EventType) (p : Payload) (r : Repository)
    (t : Intake) (sha : Text) (row : ReviewRow)
    → head_of event p ≡ some sha
    → find_review (identity_of event p r) t ≡ some row
    → IsFree t (review_event texts env event p r t).0
      × ((id : Option ℕ) × ((review_event texts env event p r t).1 ≡ duplicate id))
unfolding review_event
redelivery-IsFree texts env event p r t sha row has known =
    let u = refresh_private p r t in
    let free = refresh-IsFree p r t in
    let still : find_review (identity_of event p r) u ≡ some row =
      ap (find_first (identifies (identity_of event p r))) free.reviews ∙ known in
    let (id, e) =
      known-admit texts env event p r u
        (check_quota r.installation_id p.is_private (some r.user_id) env.month u.store) row still in
    rw (has, review_event) (subst (IsFree t) (sym (ap (λ x. x.0) e)) free, (id, ap (λ x. x.1) e))
