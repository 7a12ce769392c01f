-- ===== src/Review/Tests.antt =====
-- Runs of the review lifecycle, and its theorems at a concrete review.
use ai_pr_reviewer.Prelude.{◌≡◌, refl, ◌⊎◌, true, false, none, some, [], ◌∷◌}
use ai_pr_reviewer.Store.{analyzing, retrying, cancelled, object, Job, Store, UsageLedger, find_job}
use ai_pr_reviewer.Review.Status.{
  ReviewPhase, post_phase, is_in_progress_status, is_terminal_status, is_superseded_status,
  is_review_phase, phase_status, statuses_split,
}
use ai_pr_reviewer.Review.Job.{
  persist_state, advance_write, refund_review_quota, refund_charge, claim_refund,
}
use ai_pr_reviewer.Review.Lifecycle.{Advance, System, writes, here, next, finished_is_final}

abbrev analysing_job : Job
analysing_job = record {
  id = 1;
  repository_id = 2;
  status = analyzing;
  results = object (("suggestions", 65 ∷ []) ∷ []);
  updated_at = 5;
  queue_job_id = some 1;
  queue_version = 1;
  quota_ledger_id = some 9;
  quota_is_private = some true;
  quota_refunded_at = none;
}

abbrev charged_ledger : UsageLedger
charged_ledger = record {
  id = 9;
  installation_id = none;
  user_id = some 4;
  billing_month = 24321;
  public_reviews_count = 0;
  private_reviews_count = 3;
}

abbrev one_review : Store
one_review = record {
  jobs = analysing_job ∷ [];
  ledgers = charged_ledger ∷ [];
  repositories = [];
  subscriptions = [];
  installations = [];
}

cancelled_job : Job
cancelled_job = record analysing_job {
  status = cancelled;
  updated_at = 8;
  quota_refunded_at = some 8;
}

-- The user cancels while an advance to POSTING has read ANALYZING and not yet written.
late_advance : Advance
late_advance = record { job = 1; observed = analyzing; phase = post_phase }

cancelled_system : System
cancelled_system = record {
  store = (persist_state 1 cancelled none none 8 one_review).0;
  pending = late_advance ∷ [];
}

cancelled_row : find_job 1 cancelled_system.store ≡ some cancelled_job
unfolding cancelled_system cancelled_job persist_state is_terminal_status refund_review_quota
    refund_charge claim_refund
cancelled_row = refl

finished_is_final_example :
    find_job 1 (advance_write 1 analyzing post_phase 9 cancelled_system.store).0
    ≡ some cancelled_job
unfolding cancelled_system late_advance
finished_is_final_example =
    finished_is_final
      {v = record cancelled_system {
        store = (advance_write 1 analyzing post_phase 9 cancelled_system.store).0;
      }}
      1 cancelled_job (next here (writes 0 9 late_advance refl refl)) (late_open, tt) cancelled_row
      cancelled_terminal
  where
    late_open : is_terminal_status late_advance.observed ≡ false
    late_open = unfold is_terminal_status in refl

    cancelled_terminal : is_terminal_status cancelled_job.status ≡ true
    cancelled_terminal = unfold is_terminal_status cancelled_job in refl

refund_taken :
    (persist_state 1 cancelled none none 8 one_review).0.ledgers
    ≡ record charged_ledger { private_reviews_count = 2 } ∷ []
unfolding persist_state is_terminal_status refund_review_quota refund_charge claim_refund
refund_taken = refl

statuses_split_example :
    ((is_in_progress_status retrying ≡ true) × (is_terminal_status retrying ≡ false)
      ⊎ (is_in_progress_status retrying ≡ false) × (is_terminal_status retrying ≡ true))
    × (is_superseded_status retrying ≡ true → is_terminal_status retrying ≡ true)
    × ((p : ReviewPhase)
        → is_review_phase retrying ≡ some p
        → (phase_status p ≡ retrying) × (is_in_progress_status retrying ≡ true))
statuses_split_example = statuses_split retrying
