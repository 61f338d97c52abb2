-- ===== src/Outbox/Tests.antt =====
-- The theorems on the outbox at a concrete table.
use spacecraft_corporation.Prelude.{
  refl, ◌≤◌, ◌+◌, ◌*◌, ◌^◌, String, ◌≡◌, true, false, not, ◌||◌, ◌==◌, Option, some, List, [], ◌∷◌,
  arith, All,
}
use spacecraft_corporation.Outbox.{
  Row, Config, Request, Outcome, Step, same_group, process_batch, run, newest, step, backoff,
}
use spacecraft_corporation.Outbox.Retry.{backoff-min, min}
use spacecraft_corporation.Outbox.Tries.{tries, step_tries, run-tries}
use spacecraft_corporation.Outbox.Batch.{process_batch-once}

abbrev cfg : Config
cfg = record { batch_size = 20; max_attempts = 3; done_retention = 100; failed_retention = 100 }

abbrev refresh_one : Request
refresh_one = record {
  kind = "refresh";
  version = 0;
  payload = "1";
  chronometric_id = some 1;
  delay = 0;
}

abbrev flaky : String → Option (Row → Outcome)
flaky kind = some (λ t. Outcome.failure false "timeout")

abbrev later_ticks : List Step
later_ticks =
    Step.polled (λ id. 5) (λ id. false) 5
    ∷ Step.polled (λ id. 60) (λ id. false) 60
    ∷ Step.cleaned 500
    ∷ []

-- The failing task is tried at both ticks.
tried_twice : tries cfg flaky 2 (Step.enqueued 2 0 refresh_one ∷ later_ticks) [] ≡ 2
unfolding tries step_tries step newest
tried_twice = refl

run-tries_example : tries cfg flaky 2 (Step.enqueued 2 0 refresh_one ∷ later_ticks) [] ≤ 3
run-tries_example =
    run-tries cfg flaky 2 (omega arith) 0 refresh_one later_ticks [] (tt, (tt, (tt, tt))) tt refl

abbrev two_refreshes : List Row
two_refreshes =
    run cfg flaky (Step.enqueued 1 0 refresh_one ∷ Step.enqueued 2 1 refresh_one ∷ []) []

process_batch-once_example :
    All
      (λ a.
        All
          (λ b. (not (same_group a b) || (a.id == b.id)) ≡ true)
          (process_batch cfg flaky (λ id. 5) (λ id. false) 5 two_refreshes).1)
      (process_batch cfg flaky (λ id. 5) (λ id. false) 5 two_refreshes).1
process_batch-once_example = process_batch-once cfg flaky (λ id. 5) (λ id. false) 5 two_refreshes

backoff-min_example : backoff (3 + 1) ≡ min (10 * 2 ^ 3) 3600
backoff-min_example = backoff-min 3
