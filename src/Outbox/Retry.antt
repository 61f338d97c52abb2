-- ===== src/Outbox/Retry.antt =====
-- The retry schedule, and that a pending task has attempts left.
use spacecraft_corporation.Prelude.{
  text_append, ℕ, zero, suc, ◌+◌, ◌*◌, ◌-◌, ◌^◌, ◌≤◌, ◌<◌, String, ◌≡◌, refl, ap, sym, ◌∙◌, Bool,
  true, not, ◌&&◌, ◌||◌, inl, inr, Option, none, some, List, [], ◌∷◌, leb, ltb, if◌then◌else◌,
  Bool-cases, Option-cases, arith, All,
}
use native.Mathlib.Nat.{pow-succ', mul_assoc, le-mul_of_pos_right}
use spacecraft_corporation.Prelude.Rows.{All-delete, All-update_where}
use spacecraft_corporation.Outbox.{
  is_pending, Row, Config, Request, enqueue, has_id, mark_done, mark_retry, mark_failed,
  mark_superseded, cleanup, finished, retried, abandoned, backoff_loop, backoff, Outcome,
  run_handler, settle, execute, batch_loop, process_batch, is_newest,
}

abbrev pub min : ℕ → ℕ → ℕ
min a b = if ltb b a then b else a

doubled : (n : ℕ) → 2 ^ suc n ≡ 2 * 2 ^ n
doubled n = pow-succ' 2 n

pow_pos : (n : ℕ) → 1 ≤ 2 ^ n
pow_pos zero = omega arith
pow_pos (suc n) = omega (arith, doubled n, pow_pos n)

regroup : (n d : ℕ) → d * 2 ^ suc n ≡ d * 2 * 2 ^ n
regroup n d = ap (λ x. d * x) (doubled n) ∙ sym (mul_assoc d 2 (2 ^ n))

loop-min : (n d : ℕ) → d ≤ 3600 → backoff_loop n d ≡ min (d * 2 ^ n) 3600
unfolding backoff_loop
loop-min zero d h = ground arith
loop-min (suc n) d h = elim (Bool-cases (leb 3600 (d * 2))) [
  | inl far ↦
      let enough : 3600 ≤ d * 2 = ground arith in
      let grown : d * 2 ≤ d * 2 * 2 ^ n = le-mul_of_pos_right (d * 2) (pow_pos n) in
      rw (far, regroup n d) (ground arith)
  | inr near ↦
      rw near (loop-min n (d * 2) (ground arith) ∙ ap (λ x. min x 3600) (sym (regroup n d)))
]

-- From the first failure on, the delay of the n-th attempt is ten seconds times 2 ^ (n - 1), but
-- never more than an hour.
pub backoff-min : (n : ℕ) → backoff (n + 1) ≡ min (10 * 2 ^ n) 3600
unfolding backoff
backoff-min n = let rounds : n + 1 - 1 ≡ n = omega arith in rw rounds (loop-min n 10 (omega arith))

-- A pending task has been tried less than `max` times.
abbrev pub IsRetryable : ℕ → Row → Type 0
IsRetryable max t = (not (is_pending t.status) || ltb t.attempts max) ≡ true

abbrev pub Retryable : ℕ → List Row → Type 0
Retryable max = All (IsRetryable max)

pub enqueue-Retryable :
    (max id now : ℕ) (req : Request) (rows : List Row)
    → 0 < max
    → Retryable max rows
    → Retryable max (enqueue id now req rows)
unfolding enqueue
enqueue-Retryable max id now req rows pos h = (ground arith, h)

module _ (cfg : Config) where
  settle-Retryable :
      (now : ℕ) (t : Row) (e : Option (Bool × String)) (rows : List Row)
      → Retryable cfg.max_attempts rows
      → Retryable cfg.max_attempts (settle cfg now t e rows)
  unfolding settle mark_done mark_retry mark_failed
  settle-Retryable now t none rows h =
      All-update_where (IsRetryable cfg.max_attempts) (has_id t.id) (finished now) rows
        (λ x _. refl) h
  settle-Retryable now t (some (permanent, msg)) rows h =
      elim (Bool-cases (permanent || leb cfg.max_attempts (t.attempts + 1))) [
        | inl over ↦ rw over (
            All-update_where (IsRetryable cfg.max_attempts) (has_id t.id)
              (abandoned now (t.attempts + 1) msg) rows (λ x _. refl) h)
        | inr again ↦ rw again (
            All-update_where (IsRetryable cfg.max_attempts) (has_id t.id)
              (retried now (t.attempts + 1) msg (now + backoff (t.attempts + 1))) rows
              (λ x _. ground arith) h)
      ]

  module _ (handlers : String → Option (Row → Outcome)) where
    execute-Retryable :
        (now : ℕ) (t : Row) (rows : List Row)
        → Retryable cfg.max_attempts rows
        → Retryable cfg.max_attempts (execute cfg handlers now t rows)
    unfolding execute mark_failed
    execute-Retryable now t rows h = elim (Option-cases (handlers t.kind)) [
      | inl e ↦
          rw (e, execute)
            (All-update_where (IsRetryable cfg.max_attempts) (has_id t.id)
              (abandoned now t.attempts (text_append "no handler for kind " t.kind)) rows
              (λ x _. refl) h)
      | inr e ↦ rw (e.1, execute) (settle-Retryable now t (run_handler e.0 t) rows h)
    ]

    module _ (clock : ℕ → ℕ) (stopped : ℕ → Bool) (all : List Row) where
      loop-Retryable :
          (tasks rows : List Row)
          → Retryable cfg.max_attempts rows
          → Retryable cfg.max_attempts (batch_loop cfg handlers clock stopped all tasks rows).0
      unfolding batch_loop mark_superseded
      loop-Retryable [] rows h = h
      loop-Retryable (d ∷ ds) rows h =
          let skipped = loop-Retryable ds _ (
            All-update_where (IsRetryable cfg.max_attempts)
              (λ t. has_id d.id t && is_pending t.status) (finished (clock d.id)) rows (λ x _. refl)
              h) in
          let ran = loop-Retryable ds _ (execute-Retryable (clock d.id) d rows h) in
          elim (Bool-cases (stopped d.id)) [
            | inl s ↦ rw s h
            | inr s ↦ elim (Bool-cases (is_newest all d)) [
              | inl n ↦ rw (s, n) ran
              | inr n ↦ rw (s, n) skipped
            ]
          ]

    pub process_batch-Retryable :
        (clock : ℕ → ℕ) (stopped : ℕ → Bool) (now : ℕ) (rows : List Row)
        → Retryable cfg.max_attempts rows
        → Retryable cfg.max_attempts (process_batch cfg handlers clock stopped now rows).0
    unfolding process_batch
    process_batch-Retryable clock stopped now rows h = loop-Retryable clock stopped _ _ rows h

  pub cleanup-Retryable :
      (now : ℕ) (rows : List Row)
      → Retryable cfg.max_attempts rows
      → Retryable cfg.max_attempts (cleanup cfg now rows)
  unfolding cleanup
  cleanup-Retryable now rows h = All-delete (IsRetryable cfg.max_attempts) _ rows h
