-- ===== src/Outbox/Due.antt =====
-- The tasks of a tick: rows of the table, as they were read.
use spacecraft_corporation.Prelude.{
  ℕ, zero, suc, ◌+◌, ◌≤◌, ◌<◌, ◌≡◌, refl, sym, Bool, true, inl, inr, List, [], ◌∷◌, leb, Bool-cases,
  subst, arith, All, take,
}
use spacecraft_corporation.Prelude.Rows.{select_all, All-map}
use spacecraft_corporation.Prelude.Every.{take-All, All-vacuous}
use spacecraft_corporation.Outbox.{is_pending, Row, has_id, is_due, due, order_by_id, insert_by_id}
use spacecraft_corporation.Outbox.Retry.{Retryable}
use spacecraft_corporation.Outbox.Left.{executions, left_all, left-none}

-- The tasks of a tick are rows of the table.
module _ (k : ℕ) where
  executions-insert :
      (t : Row) (xs : List Row) → executions k (insert_by_id t xs) ≡ executions k (t ∷ xs)
  unfolding insert_by_id
  executions-insert t [] = refl
  executions-insert t (x ∷ xs) = ground (arith, executions-insert t xs)

  executions-order : (xs : List Row) → executions k (order_by_id xs) ≡ executions k xs
  unfolding order_by_id
  executions-order [] = refl
  executions-order (x ∷ xs) =
      ground (arith, executions-insert x (order_by_id xs), executions-order xs)

  executions-select :
      (p : Row → Bool) (xs : List Row) → executions k (select_all p xs) ≤ executions k xs
  executions-select p [] = omega arith
  executions-select p (x ∷ xs) = ground (arith, executions-select p xs)

  executions-take : (n : ℕ) (xs : List Row) → executions k (take n xs) ≤ executions k xs
  executions-take zero xs = omega arith
  executions-take (suc n) [] = omega arith
  executions-take (suc n) (x ∷ xs) = ground (arith, executions-take n xs)

  pub executions-due :
      (now limit : ℕ) (rows : List Row) → executions k (due now limit rows) ≤ executions k rows
  unfolding due
  executions-due now limit rows = omega (
    arith,
    executions-take limit (order_by_id (select_all (is_due now) rows)),
    executions-order (select_all (is_due now) rows),
    executions-select (is_due now) rows,
  )

module _ (P : Row → Type 0) where
  insert-All : (t : Row) (xs : List Row) → P t → All P xs → All P (insert_by_id t xs)
  unfolding insert_by_id
  insert-All t [] h all = (h, tt)
  insert-All t (x ∷ xs) h all = elim (Bool-cases (leb t.id x.id)) [
    | inl e ↦ rw e (h, all)
    | inr e ↦ rw e (all.0, insert-All t xs h all.1)
  ]

  order-All : (xs : List Row) → All P xs → All P (order_by_id xs)
  unfolding order_by_id
  order-All [] all = tt
  order-All (x ∷ xs) all = insert-All x (order_by_id xs) all.0 (order-All xs all.1)

  pub due-All :
      (now limit : ℕ) (rows : List Row)
      → All (λ t. is_pending t.status ≡ true → P t) rows
      → All P (due now limit rows)
  unfolding due
  due-All now limit rows all = take-All P limit _ (order-All _ (chosen rows all))
    where
      chosen :
          (xs : List Row)
          → All (λ t. is_pending t.status ≡ true → P t) xs
          → All P (select_all (is_due now) xs)
      chosen [] h = tt
      chosen (x ∷ xs) h = elim (Bool-cases (is_due now x)) [
        | inl e ↦ rw e (h.0 (ground (arith, e)), chosen xs h.1)
        | inr e ↦ rw e (chosen xs h.1)
      ]

module _ (max k : ℕ) where
  -- What a task of the tick says of the table: it has tries left, and the row is as it was read.
  abbrev pub IsFresh : ℕ → Row → Type 0
  IsFresh p t = has_id k t ≡ true → (t.attempts + p ≡ max) × (0 < p)

  pub rows-IsFresh :
      (rows : List Row)
      → executions k rows ≤ 1
      → Retryable max rows
      → All (λ t. is_pending t.status ≡ true → IsFresh (left_all max k rows) t) rows
  rows-IsFresh [] one h = tt
  rows-IsFresh (t ∷ rows) one h = elim (Bool-cases (has_id k t)) [
    | inl e ↦
        let gone : executions k rows ≡ 0 = ground (arith, one, e) in
        let IsPromised : Row → Type 0 =
          λ x. (x.attempts + left_all max k (t ∷ rows) ≡ max) × (0 < left_all max k (t ∷ rows)) in
        (
          λ pending own. (
            ground (arith, left-none max k rows gone, pending, e, h.0),
            ground (arith, left-none max k rows gone, pending, e, h.0),
          ),
          All-map (λ x. has_id k x ≡ true → IsPromised x)
              (λ x. is_pending x.status ≡ true → IsFresh (left_all max k (t ∷ rows)) x) rows
              (λ x fresh pending own. fresh own) (All-vacuous (has_id k) IsPromised rows gone),
        )
    | inr e ↦
        let same : left_all max k (t ∷ rows) ≡ left_all max k rows = ground (arith, e) in
        (
          λ pending own. absurd (ground (arith, own, e)),
          subst (λ p. All (λ x. is_pending x.status ≡ true → IsFresh p x) rows) (sym same)
              (rows-IsFresh rows (ground (arith, one, e)) h.1),
        )
  ]
