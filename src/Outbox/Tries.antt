-- ===== src/Outbox/Tries.antt =====
-- How often a task is executed: every execution counts against its attempts.
use spacecraft_corporation.Prelude.{
  ℕ, ◌+◌, ◌≤◌, ◌<◌, String, ◌≡◌, refl, sym, Bool, true, false, ◌&&◌, inl, inr, Option, List, [],
  ◌∷◌, ◌==◌, Bool-cases, subst, arith, All,
}
use spacecraft_corporation.Prelude.Every.{All-vacuous}
use spacecraft_corporation.Outbox.{
  is_pending, Row, Config, Request, enqueue, has_id, mark_superseded, cleanup, finished, Outcome,
  execute, batch_loop, process_batch, is_newest, due, Step, step,
}
use spacecraft_corporation.Outbox.Retry.{
  Retryable, enqueue-Retryable, process_batch-Retryable, cleanup-Retryable,
}
use spacecraft_corporation.Outbox.Left.{
  executions, left_all, left-none, left-other, left-less, executions-update, left-delete,
}
use spacecraft_corporation.Outbox.Due.{IsFresh, executions-due, due-All, rows-IsFresh}
use spacecraft_corporation.Outbox.Executed.{execute-left, execute-update}

-- How often task `k` is executed in a sequence of steps.
module _ (cfg : Config) (handlers : String → Option (Row → Outcome)) (k : ℕ) where
  unfoldable pub step_tries : Step → List Row → ℕ
  step_tries (Step.enqueued id now req) rows = 0
  step_tries (Step.polled clock stopped now) rows =
      executions k (process_batch cfg handlers clock stopped now rows).1
  step_tries (Step.cleaned now) rows = 0

  unfoldable pub tries : List Step → List Row → ℕ
  unfolding step_tries
  tries [] rows = 0
  tries (s ∷ ss) rows = step_tries s rows + tries ss (step cfg handlers s rows)

-- No step enqueues a task with the id `k`.
abbrev pub IsOther : ℕ → Step → Type 0
IsOther k (Step.enqueued id now req) = (id == k) ≡ false
IsOther k (Step.polled clock stopped now) = Unit
IsOther k (Step.cleaned now) = Unit

module _ (cfg : Config) (handlers : String → Option (Row → Outcome)) (k : ℕ) where
  abbrev left_here : List Row → ℕ
  left_here = left_all cfg.max_attempts k

  module _ (clock : ℕ → ℕ) (stopped : ℕ → Bool) (all : List Row) where
    abbrev looped : List Row → List Row → List Row × List Row
    looped = batch_loop cfg handlers clock stopped all

    -- A loop over tasks takes a try for each execution of task `k`, and keeps its row one.
    abbrev IsCounted : List Row → List Row × List Row → Type 0
    IsCounted rows r = (executions k r.1 + left_here r.0 ≤ left_here rows) × (executions k r.0 ≤ 1)

    loop-tries :
        (tasks rows : List Row)
        → executions k tasks ≤ 1
        → executions k rows ≤ 1
        → All (IsFresh cfg.max_attempts k (left_here rows)) tasks
        → IsCounted rows (looped tasks rows)
    unfolding batch_loop mark_superseded
    loop-tries [] rows few one fresh = (omega arith, one)
    loop-tries (d ∷ ds) rows few one fresh =
        let now = clock d.id in
        let ran = execute-update cfg handlers k now d rows in
        let ran_one : executions k (execute cfg handlers now d rows) ≤ 1 = rw ran.2 (
          omega
            (arith, one, executions-update cfg.max_attempts k (has_id d.id) ran.0 rows ran.1)) in
        let skip_one =
          executions-update cfg.max_attempts k (λ t. has_id d.id t && is_pending t.status)
            (finished now) rows (λ x. refl) in
        let superseded = mark_superseded now d.id rows in
        elim (Bool-cases (stopped d.id)) [
          | inl s ↦ rw s (omega arith, one)
          | inr s ↦ elim (Bool-cases (has_id k d)) [
            | inl own ↦
                let gone : executions k ds ≡ 0 = ground (arith, few, own) in
                elim (Bool-cases (is_newest all d)) [
                  | inl n ↦
                      let taken =
                        execute-left cfg handlers k now d rows one own (fresh.0 own).0
                          (fresh.0 own).1 in
                      let rest =
                        loop-tries ds (execute cfg handlers now d rows) (omega (arith, gone))
                          ran_one (All-vacuous (has_id k) _ ds gone) in
                      rw (s, n) (ground (arith, rest.0, own, taken), rest.1)
                  | inr n ↦
                      let rest =
                        loop-tries ds superseded (omega (arith, gone))
                          (omega (arith, skip_one, one)) (All-vacuous (has_id k) _ ds gone) in
                      let less =
                        left-less cfg.max_attempts k (λ t. has_id d.id t && is_pending t.status)
                          (finished now) rows (λ x. ground arith) in
                      rw (s, n) (omega (arith, rest.0, less), rest.1)
                ]
            | inr other ↦
                let few' : executions k ds ≤ 1 = ground (arith, few, other) in
                let apart : (t : Row) → has_id k t ≡ true → has_id d.id t ≡ false =
                  λ t own. ground (arith, own, other) in
                elim (Bool-cases (is_newest all d)) [
                  | inl n ↦
                      let same : left_here (execute cfg handlers now d rows) ≡ left_here rows =
                        rw ran.2
                          (left-other cfg.max_attempts k (has_id d.id) ran.0 rows apart ran.1) in
                      let rest =
                        loop-tries ds (execute cfg handlers now d rows) few' ran_one
                          (subst (λ p. All (IsFresh cfg.max_attempts k p) ds) (sym same) fresh.1) in
                      rw (s, n) (ground (arith, rest.0, other, same), rest.1)
                  | inr n ↦
                      let same : left_here superseded ≡ left_here rows =
                        left-other cfg.max_attempts k (λ t. has_id d.id t && is_pending t.status)
                          (finished now) rows (λ t own. ground (arith, apart t own)) (λ x. refl) in
                      let rest =
                        loop-tries ds superseded few' (omega (arith, skip_one, one))
                          (subst (λ p. All (IsFresh cfg.max_attempts k p) ds) (sym same) fresh.1) in
                      rw (s, n) (omega (arith, rest.0, same), rest.1)
                ]
          ]
        ]

  batch-tries :
      (clock : ℕ → ℕ) (stopped : ℕ → Bool) (now : ℕ) (rows : List Row)
      → Retryable cfg.max_attempts rows
      → executions k rows ≤ 1
      → IsCounted clock stopped
          (due now cfg.batch_size rows)
          rows
          (process_batch cfg handlers clock stopped now rows)
  unfolding process_batch
  batch-tries clock stopped now rows h one =
      loop-tries clock stopped (due now cfg.batch_size rows) (due now cfg.batch_size rows) rows
        (omega (arith, executions-due k now cfg.batch_size rows, one)) one
        (due-All (IsFresh cfg.max_attempts k (left_here rows)) now cfg.batch_size rows
          (rows-IsFresh cfg.max_attempts k rows one h))

  tries-left :
      0 < cfg.max_attempts
      → (steps : List Step) (rows : List Row) → All (IsOther k) steps
      → Retryable cfg.max_attempts rows
      → executions k rows ≤ 1
      → tries cfg handlers k steps rows ≤ left_here rows
  unfolding tries step
  tries-left pos [] rows other h one = omega arith
  tries-left pos (Step.enqueued id now req ∷ ss) rows other h one =
      let own : left_here (enqueue id now req rows) ≡ left_here rows = ground (arith, other.0) in
      let same : executions k (enqueue id now req rows) ≡ executions k rows =
        ground (arith, other.0) in
      omega (
        arith,
        own,
        tries-left pos ss (enqueue id now req rows) other.1
            (enqueue-Retryable cfg.max_attempts id now req rows pos h) (omega (arith, same, one)),
      )
  tries-left pos (Step.polled clock stopped now ∷ ss) rows other h one =
      let batch = batch-tries clock stopped now rows h one in
      omega (
        arith,
        batch.0,
        tries-left pos ss (process_batch cfg handlers clock stopped now rows).0 other.1
            (process_batch-Retryable cfg handlers clock stopped now rows h) batch.1,
      )
  tries-left pos (Step.cleaned now ∷ ss) rows other h one =
      let less : (left_here (cleanup cfg now rows) ≤ left_here rows)
          × (executions k (cleanup cfg now rows) ≤ executions k rows) =
        left-delete cfg.max_attempts k _ rows in
      omega (
        arith,
        less.0,
        tries-left pos ss (cleanup cfg now rows) other.1 (cleanup-Retryable cfg now rows h)
            (omega (arith, less.1, one)),
      )

  -- With a positive maximum of attempts, from tasks that have been tried less than it if they are
  -- pending: a task that is enqueued under an id of its own is executed at most that often, whatever
  -- the handlers return, whatever else is enqueued, and whenever the worker and its cleanup tick.
  pub run-tries :
      0 < cfg.max_attempts
      → (now : ℕ) (req : Request) (steps : List Step) (rows : List Row) → All (IsOther k) steps
      → Retryable cfg.max_attempts rows
      → executions k rows ≡ 0
      → tries cfg handlers k (Step.enqueued k now req ∷ steps) rows ≤ cfg.max_attempts
  unfolding tries step
  run-tries pos now req steps rows other h new =
      let full : left_here (enqueue k now req rows) ≤ cfg.max_attempts =
        ground (arith, left-none cfg.max_attempts k rows new) in
      let one : executions k (enqueue k now req rows) ≤ 1 = ground (arith, new) in
      omega (
        arith,
        full,
        tries-left pos steps (enqueue k now req rows) other
            (enqueue-Retryable cfg.max_attempts k now req rows pos h) one,
      )
