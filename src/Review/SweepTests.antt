-- ===== src/Review/SweepTests.antt =====
-- The sweep at concrete reviews.
use ai_pr_reviewer.Prelude.{◌+◌, ◌≡◌, refl, ◌⊎◌, true, false, Option, none, some, [], ◌∷◌}
use ai_pr_reviewer.Store.{
  analyzing, posting, failed, cancelled, object, Text, Job, Repository, find_job,
}
use ai_pr_reviewer.Review.Status.{is_terminal_status}
use ai_pr_reviewer.Review.Job.{Fields, persist_state}
use ai_pr_reviewer.Review.Spread.{IsLaidOver}
use ai_pr_reviewer.Review.Written.{open_review_is_written}
use ai_pr_reviewer.Review.Recovery.{
  queue_failed, QueueJob, Queue, StopReason, attempts_exhausted, decide, look_decision, look_up,
  settle_state, Swept, recover_row,
}
use ai_pr_reviewer.Review.Sweep.{
  HasEnded, IsLate, moved_review_is_left, stop_needs_evidence, disconnected_review_is_cancelled,
}

abbrev stuck : Job
stuck = record {
  id = 1;
  repository_id = 2;
  status = analyzing;
  results = object (("suggestions", 65 ∷ []) ∷ []);
  updated_at = 5;
  queue_job_id = some 1;
  queue_version = 1;
  quota_ledger_id = none;
  quota_is_private = none;
  quota_refunded_at = none;
}

abbrev connected : Repository
connected = record {
  id = 2;
  user_id = 4;
  is_active = true;
  is_private = true;
  installation_id = none;
  github_repo_id = 77;
  created_at = 1;
}

abbrev failed_job : QueueJob
failed_job = record {
  id = 1;
  job_id = some 1;
  repository_id = some 2;
  user_id = some 4;
  processed_on = none;
}

-- The queue has the one job, and it failed.
abbrev failed_queue : Queue
failed_queue = record {
  get_job = λ k. some (some failed_job);
  legacy = none;
  get_state = λ q. some queue_failed;
}

-- Every read of the queue fails.
abbrev broken_queue : Queue
broken_queue = record { get_job = λ k. none; legacy = none; get_state = λ q. none }

abbrev no_texts : StopReason → Text × Text
no_texts why = ([], [])

abbrev start_with : Job → Swept
start_with j = record {
  store = record {
    jobs = j ∷ [];
    ledgers = [];
    repositories = [];
    subscriptions = [];
    installations = [];
  };
  changed = 0;
  down = false;
  events = [];
}

moved_review_is_left_example :
    let t = start_with (record stuck { status = posting; updated_at = 9 }) in
    ((recover_row no_texts 600000 1000 failed_queue stuck connected t).store ≡ t.store)
    × ((recover_row no_texts 600000 1000 failed_queue stuck connected t).changed ≡ t.changed)
moved_review_is_left_example =
    moved_review_is_left no_texts 600000 1000 failed_queue stuck connected
      (start_with (record stuck { status = posting; updated_at = 9 }))
      (record stuck { status = posting; updated_at = 9 }) refl refl

stop_needs_evidence_example :
    (connected.is_active ≡ false)
    ⊎ IsLate 600000 1000 stuck.updated_at
    ⊎ HasEnded failed_queue stuck connected
stop_needs_evidence_example =
    stop_needs_evidence 600000 1000 failed_queue false stuck connected failed attempts_exhausted
      (unfold decide look_decision look_up settle_state in refl)

disconnected_review_is_cancelled_example :
    let u =
      recover_row no_texts 600000 1000 broken_queue stuck
        (record connected { is_active = false })
        (start_with stuck) in
    ((j : Job) × (find_job 1 u.store ≡ some j) × (j.status ≡ cancelled)) × (u.changed ≡ 0 + 1)
unfolding is_terminal_status
disconnected_review_is_cancelled_example =
    disconnected_review_is_cancelled no_texts 600000 1000 broken_queue stuck
      (record connected { is_active = false }) (start_with stuck) refl refl refl

-- The failure is added to the result fields, in place of an older one.
abbrev reported : Job
reported = record stuck { results = object (("suggestions", 65 ∷ []) ∷ ("error", 67 ∷ []) ∷ []) }

abbrev failure : Option Fields
failure = some (("error", 66 ∷ []) ∷ ("reason", 68 ∷ []) ∷ [])

open_review_is_written_example :
    ((persist_state 1 failed failure (some (analyzing, 5)) 8 (start_with reported).store).1 ≡ true)
    × ((row : Job) × (find_job 1
            (persist_state 1 failed failure (some (analyzing, 5)) 8 (start_with reported).store).0
          ≡ some row)
        × (row.status ≡ failed)
        × IsLaidOver failure reported.results row.results)
unfolding is_terminal_status
open_review_is_written_example =
    open_review_is_written 1 failed failure (some (analyzing, 5)) 8 (start_with reported).store
      reported refl refl (refl, refl)
