-- ===== src/Outbox/Executed.antt =====
-- What one execution takes of the attempts that are left.
use spacecraft_corporation.Prelude.{
  text_append, ℕ, ◌+◌, ◌-◌, ◌≤◌, ◌<◌, String, ◌≡◌, refl, Bool, true, ◌||◌, inl, inr, Option, none,
  some, List, leb, Bool-cases, Option-cases, arith,
}
use spacecraft_corporation.Prelude.Rows.{update_where}
use spacecraft_corporation.Outbox.{
  Row, Config, has_id, mark_done, mark_retry, mark_failed, finished, retried, abandoned, backoff,
  Outcome, run_handler, settle, execute,
}
use spacecraft_corporation.Outbox.Left.{executions, left_all, left-own}

module _ (cfg : Config) (handlers : String → Option (Row → Outcome)) (k : ℕ) where
  abbrev left_here : List Row → ℕ
  left_here = left_all cfg.max_attempts k

  -- An execution of task `k` takes one of its tries.
  settle-left :
      (now : ℕ) (t : Row) (e : Option (Bool × String)) (rows : List Row)
      → executions k rows ≤ 1
      → has_id k t ≡ true
      → t.attempts + left_here rows ≡ cfg.max_attempts
      → 0 < left_here rows
      → left_here (settle cfg now t e rows) < left_here rows
  unfolding settle mark_done mark_retry mark_failed
  settle-left now t none rows one own spent some_left =
      let id : t.id ≡ k = ground (arith, own) in
      let after =
        left-own cfg.max_attempts k 0 (finished now) rows one (λ x. refl) (λ x. ground arith) in
      rw id (omega (arith, after, some_left))
  settle-left now t (some (permanent, msg)) rows one own spent some_left =
      let id : t.id ≡ k = ground (arith, own) in
      elim (Bool-cases (permanent || leb cfg.max_attempts (t.attempts + 1))) [
        | inl over ↦
            let after =
              left-own cfg.max_attempts k 0 (abandoned now (t.attempts + 1) msg) rows one
                (λ x. refl) (λ x. ground arith) in
            rw (over, id) (omega (arith, after, some_left))
        | inr again ↦
            let after =
              left-own cfg.max_attempts k (cfg.max_attempts - (t.attempts + 1))
                (retried now (t.attempts + 1) msg (now + backoff (t.attempts + 1))) rows one
                (λ x. refl) (λ x. ground arith) in
            rw (again, id) (omega (arith, after, some_left, spent))
      ]

  pub execute-left :
      (now : ℕ) (t : Row) (rows : List Row)
      → executions k rows ≤ 1
      → has_id k t ≡ true
      → t.attempts + left_here rows ≡ cfg.max_attempts
      → 0 < left_here rows
      → left_here (execute cfg handlers now t rows) < left_here rows
  unfolding execute mark_failed
  execute-left now t rows one own spent some_left = elim (Option-cases (handlers t.kind)) [
    | inl e ↦
        let id : t.id ≡ k = ground (arith, own) in
        let after =
          left-own cfg.max_attempts k 0
            (abandoned now t.attempts (text_append "no handler for kind " t.kind)) rows one
            (λ x. refl) (λ x. ground arith) in
        rw (e, execute, id) (omega (arith, after, some_left))
    | inr e ↦ rw (e.1, execute) (settle-left now t (run_handler e.0 t) rows one own spent some_left)
  ]

  -- What an execution does to the rows is an update of those of its task.
  pub execute-update :
      (now : ℕ) (t : Row) (rows : List Row)
      → (f : Row → Row) × ((x : Row) → (f x).id ≡ x.id)
        × (execute cfg handlers now t rows ≡ update_where (has_id t.id) f rows)
  unfolding execute settle mark_done mark_retry mark_failed
  execute-update now t rows = elim (Option-cases (handlers t.kind)) [
    | inl e ↦
        rw (e, execute)
          (abandoned now t.attempts (text_append "no handler for kind " t.kind), (λ x. refl), refl)
    | inr e ↦ rw (e.1, execute) (settled (run_handler e.0 t))
  ]
    where
      settled :
          (o : Option (Bool × String))
          → (f : Row → Row) × ((x : Row) → (f x).id ≡ x.id)
            × (settle cfg now t o rows ≡ update_where (has_id t.id) f rows)
      settled none = (finished now, (λ x. refl), refl)
      settled (some (permanent, msg)) =
          elim (Bool-cases (permanent || leb cfg.max_attempts (t.attempts + 1))) [
            | inl over ↦ rw over (abandoned now (t.attempts + 1) msg, (λ x. refl), refl)
            | inr again ↦ rw again (
              retried now (t.attempts + 1) msg (now + backoff (t.attempts + 1)),
              (λ x. refl),
              refl,
            )
          ]
