-- ===== src/Intake/System.antt =====
-- The webhook and the poller together: runs of deliveries, polls and expired keys in any order.
use ai_pr_reviewer.Prelude.{
  ℕ, ◌≤◌, ◌≡◌, refl, inl, inr, Bool, true, false, Option, none, some, List, [], ◌∷◌, arith,
  Bool-cases, keep, not,
}
use ai_pr_reviewer.Store.{Results, Text, Repository}
use ai_pr_reviewer.Quota.Usage.{DenialReason}
use ai_pr_reviewer.Intake.State.{
  EventType, pull_request, push, Identity, Intake, Environment, QueueOutcome, is_duplicate,
  is_denied, is_queued, fails, insert_and_queue,
}
use ai_pr_reviewer.Intake.Payload.{Header, Payload, Texts, number_text}
use ai_pr_reviewer.Intake.Webhook.{handle_github_event}
use ai_pr_reviewer.Intake.Poller.{
  Pull, Answers, Poller, scanned_sha, is_text, request_for, after_queue, queue_review, mark_scanned,
  poll_new_head, poll_head, mark_seen, is_own, was_seen, poll_pull, poll_pulls, poll_open,
  poll_repository, poll_all, is_polled, poll_repositories_once,
}
use ai_pr_reviewer.Intake.Once.{IsOnceIn, insert-IsOnce, intake_after, requests_for, reviews_for}
use ai_pr_reviewer.Intake.Delivery.{handle-IsOnce}

-- A key of Redis may expire between two runs.
pub data Step : Type 0 where
  delivery : Environment → Header → Payload → Step
  poll : (ℕ → Answers) → Step
  expiry : Step

queue_review-IsOnce :
    (texts : DenialReason → Results) (env : Environment) (r : Repository) (event : EventType)
    (reference head base : Text) (t : Intake)
    → IsOnceIn t
    → IsOnceIn (queue_review texts env r event reference head base t).0
unfolding queue_review
queue_review-IsOnce texts env r event reference head base t h =
    let request = request_for env r event reference head base in
    rw (after-intake t (insert_and_queue texts env request t)) (insert-IsOnce texts env request t h)
  where
    after-intake : (t : Intake) (o : QueueOutcome) → (after_queue t o).0 ≡ intake_after t o
    after-intake t is_duplicate = refl
    after-intake t (is_denied t' result) = refl
    after-intake t (is_queued t') = refl
    after-intake t (fails t') = refl

mark_scanned-IsOnce :
    (k : ℕ) (head : Text) (o : Intake × Bool) (p : Poller)
    → IsOnceIn o.0
    → IsOnceIn (mark_scanned k head o p).0.intake
mark_scanned-IsOnce k head (t, true) p h = h
mark_scanned-IsOnce k head (t, false) p h = h

mark_seen-IsOnce :
    (k : ℕ) (pr : Pull) (o : Intake × Bool) (p : Poller)
    → IsOnceIn o.0
    → IsOnceIn (mark_seen k pr o p).0.intake
mark_seen-IsOnce k pr (t, true) p h = h
mark_seen-IsOnce k pr (t, false) p h = h

poll_new_head-IsOnce :
    (texts : DenialReason → Results) (env : Environment) (r : Repository) (head : Text) (p : Poller)
    (last : Option Text)
    → IsOnceIn p.intake
    → IsOnceIn (poll_new_head texts env r head p last).0.intake
unfolding poll_new_head
poll_new_head-IsOnce texts env r head p none h = h
poll_new_head-IsOnce texts env r head p (some last) h =
    mark_scanned-IsOnce r.id head (queue_review texts env r push head head last p.intake) p
      (queue_review-IsOnce texts env r push head head last p.intake h)

poll_head-IsOnce :
    (texts : DenialReason → Results) (env : Environment) (r : Repository)
    (head : Option (Option Text)) (p : Poller)
    → IsOnceIn p.intake
    → IsOnceIn (poll_head texts env r head p).0.intake
unfolding poll_head
poll_head-IsOnce texts env r none p h = h
poll_head-IsOnce texts env r (some none) p h = h
poll_head-IsOnce texts env r (some (some [])) p h = h
poll_head-IsOnce texts env r (some (some (c ∷ head))) p h =
    let last = scanned_sha r.id p.scanned in
    elim (Bool-cases (is_text last (c ∷ head))) [
      | inl same ↦ rw (same, poll_head) h
      | inr new ↦ rw (new, poll_head) (poll_new_head-IsOnce texts env r (c ∷ head) p last h)
    ]

module _ (lower : Text → Text) (username : ℕ → Text) where
  poll_pull-IsOnce :
      (texts : DenialReason → Results) (env : Environment) (r : Repository) (pr : Pull) (p : Poller)
      → IsOnceIn p.intake
      → IsOnceIn (poll_pull lower username texts env r pr p).0.intake
  unfolding poll_pull
  poll_pull-IsOnce texts env r pr p h =
      let o =
        queue_review texts env r pull_request (number_text pr.number) pr.head_sha pr.base_sha
          p.intake in
      let queued = mark_seen-IsOnce r.id pr o p (
        queue_review-IsOnce texts env r pull_request (number_text pr.number) pr.head_sha pr.base_sha
          p.intake h) in
      elim (Bool-cases (not (is_own lower username r pr))) [
        | inl foreign ↦ rw (foreign, poll_pull) h
        | inr own ↦ elim (Bool-cases (was_seen r.id pr.number pr.head_sha p.seen)) [
          | inl old ↦ rw (own, old, poll_pull) h
          | inr new ↦ rw (own, new, poll_pull) queued
        ]
      ]

  poll_pulls-IsOnce :
      (texts : DenialReason → Results) (r : Repository) (prs : List (Environment × Pull))
      (q : Poller × Bool)
      → IsOnceIn q.0.intake
      → IsOnceIn (poll_pulls lower username texts r prs q).intake
  unfolding poll_pulls
  poll_pulls-IsOnce texts r prs (p, true) h = h
  poll_pulls-IsOnce texts r [] (p, false) h = h
  poll_pulls-IsOnce texts r ((env, pr) ∷ prs) (p, false) h =
      poll_pulls-IsOnce texts r prs (poll_pull lower username texts env r pr p)
        (poll_pull-IsOnce texts env r pr p h)

  poll_open-IsOnce :
      (texts : DenialReason → Results) (r : Repository) (prs : Option (List (Environment × Pull)))
      (q : Poller × Bool)
      → IsOnceIn q.0.intake
      → IsOnceIn (poll_open lower username texts r prs q).intake
  poll_open-IsOnce texts r none q h = h
  poll_open-IsOnce texts r (some prs) q h = poll_pulls-IsOnce texts r prs q h

  poll_all-IsOnce :
      (texts : DenialReason → Results) (answers : ℕ → Answers) (rs : List Repository) (p : Poller)
      → IsOnceIn p.intake
      → IsOnceIn (poll_all lower username texts answers rs p).intake
  unfolding poll_all poll_repository
  poll_all-IsOnce texts answers [] p h = h
  poll_all-IsOnce texts answers (r ∷ rs) p h =
      poll_all-IsOnce texts answers rs (poll_repository lower username texts (answers r.id) r p) (
        poll_open-IsOnce texts r (answers r.id).pulls
          (poll_head texts (answers r.id).head_env r (answers r.id).head p)
          (poll_head-IsOnce texts (answers r.id).head_env r (answers r.id).head p h))

  unfoldable pub step : Texts → Step → Poller → Poller
  step texts (delivery env header payload) p = record p {
    intake = (handle_github_event texts env header payload p.intake).0;
  }
  step texts (poll answers) p = poll_repositories_once lower username texts.denial answers p
  step texts expiry p = record p { seen = [] }

  unfoldable pub run : Texts → List Step → Poller → Poller
  run texts [] p = p
  run texts (x ∷ xs) p = run texts xs (step texts x p)

  step-IsOnce :
      (texts : Texts) (x : Step) (p : Poller) → IsOnceIn p.intake → IsOnceIn (step texts x p).intake
  unfolding step poll_repositories_once
  step-IsOnce texts (delivery env header payload) p h =
      handle-IsOnce texts env header payload p.intake h
  step-IsOnce texts (poll answers) p h =
      poll_all-IsOnce texts.denial answers
        (keep (is_polled lower username p.webhooks) p.intake.store.repositories) p h
  step-IsOnce texts expiry p h = h

  run-IsOnce :
      (texts : Texts) (xs : List Step) (p : Poller)
      → IsOnceIn p.intake
      → IsOnceIn (run texts xs p).intake
  unfolding run
  run-IsOnce texts [] p h = h
  run-IsOnce texts (x ∷ xs) p h = run-IsOnce texts xs (step texts x p) (step-IsOnce texts x p h)

  -- From a database without reviews and an empty queue, webhook deliveries, polls and expired poller
  -- keys in any order and any number send each commit of a pull request or a push to the queue at
  -- most once, and store at most one review for it.
  pub reviewed_at_most_once :
      (texts : Texts) (xs : List Step) (p : Poller)
      → p.intake.reviews ≡ []
      → p.intake.queue ≡ []
      → (i : Identity)
      → (requests_for i (run texts xs p).intake.queue ≤ 1)
        × (reviews_for i (run texts xs p).intake.reviews ≤ 1)
  unfolding requests_for reviews_for
  reviewed_at_most_once texts xs p no_reviews no_requests i =
      let h = run-IsOnce texts xs p (
        rw (no_reviews, no_requests)
          (record { queued_once = λ j. omega arith; unique = λ j. omega arith })) in
      let a = h.queued_once i in let b = h.unique i in (omega arith, omega arith)
