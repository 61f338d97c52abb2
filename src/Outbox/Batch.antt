-- ===== src/Outbox/Batch.antt =====
-- The collapsing of a tick: which of the due tasks the worker executes.
use spacecraft_corporation.Prelude.{
  ℕ, String, ◌≡◌, refl, ap, Bool, true, not, ◌||◌, inl, inr, Option, List, [], ◌∷◌, ◌==◌,
  Bool-cases, str_eq, eq_iff, arith, All,
}
use spacecraft_corporation.Prelude.Rows.{All-map}
use spacecraft_corporation.Outbox.{
  Row, Config, Outcome, same_group, newest, is_newest, due, batch_loop, process_batch,
}

-- Tasks of one group see the same newest task.
newest-group : (all : List Row) (a b : Row) → same_group a b ≡ true → newest all a ≡ newest all b
unfolding newest
newest-group [] a b e = refl
newest-group (d ∷ ds) a b e =
    let kinds : a.kind ≡ b.kind = ground (arith, eq_iff a.kind b.kind) in
    let alike : same_group d a ≡ same_group d b = ground (arith, ap (str_eq d.kind) kinds) in
    ground (arith, newest-group ds a b e, alike)

module _ (cfg : Config) (handlers : String → Option (Row → Outcome)) (clock : ℕ → ℕ)
    (stopped : ℕ → Bool) (all : List Row) where
  ran-newest :
      (tasks rows : List Row)
      → All (λ t. is_newest all t ≡ true) (batch_loop cfg handlers clock stopped all tasks rows).1
  unfolding batch_loop
  ran-newest [] rows = tt
  ran-newest (d ∷ ds) rows = elim (Bool-cases (stopped d.id)) [
    | inl s ↦ rw s tt
    | inr s ↦ elim (Bool-cases (is_newest all d)) [
      | inl n ↦ rw (s, n) (n, ran-newest ds _)
      | inr n ↦ rw (s, n) (ran-newest ds _)
    ]
  ]

abbrev is_same : Row → Row → Bool
is_same a b = not (same_group a b) || (a.id == b.id)

newest-one :
    (all : List Row) (a b : Row)
    → is_newest all a ≡ true
    → is_newest all b ≡ true
    → is_same a b ≡ true
newest-one all a b ha hb = elim (Bool-cases (same_group a b)) [
  | inl e ↦ let same = newest-group all a b e in ground (arith, same)
  | inr e ↦ rw e refl
]

All-same :
    (all xs ys : List Row)
    → All (λ t. is_newest all t ≡ true) xs
    → All (λ t. is_newest all t ≡ true) ys
    → All (λ a. All (λ b. is_same a b ≡ true) ys) xs
All-same all xs ys hx hy =
    All-map _ _ xs (λ a ha. All-map _ _ ys (λ b hb. newest-one all a b ha hb) hy) hx

-- In one tick of the worker, whatever the tables, the handlers and the time of a cancellation: any
-- two tasks that are executed and have the same kind and chronometric id are one task.
pub process_batch-once :
    (cfg : Config) (handlers : String → Option (Row → Outcome)) (clock : ℕ → ℕ) (stopped : ℕ → Bool)
    (now : ℕ)
    → (rows : List Row)
    → All
        (λ a.
          All
            (λ b. (not (same_group a b) || (a.id == b.id)) ≡ true)
            (process_batch cfg handlers clock stopped now rows).1)
        (process_batch cfg handlers clock stopped now rows).1
unfolding process_batch
process_batch-once cfg handlers clock stopped now rows =
    let all = due now cfg.batch_size rows in
    let ran = ran-newest cfg handlers clock stopped all all rows in All-same all _ _ ran ran
