-- ===== src/Outbox/Left.antt =====
-- The attempts that the rows of a task have left, and what an update or a deletion does to them.
use spacecraft_corporation.Prelude.{
  ℕ, ◌-◌, ◌≤◌, ◌≡◌, refl, ◌∙◌, Bool, true, false, ◌&&◌, inl, inr, List, [], ◌∷◌, if◌then◌else◌,
  Bool-cases, arith,
}
use spacecraft_corporation.Prelude.Rows.{update_where, delete_where, count_where, sum_by}
use spacecraft_corporation.Outbox.{is_pending, Row, has_id}

-- The rows of task `k` in a list, and so how often a list of executed tasks has it.
abbrev pub executions : ℕ → List Row → ℕ
executions k = count_where (has_id k)

module _ (max k : ℕ) where
  -- The attempts that a row of task `k` has left.
  abbrev pub left : Row → ℕ
  left t = if has_id k t && is_pending t.status then max - t.attempts else 0

  abbrev pub left_all : List Row → ℕ
  left_all = sum_by left

  pub left-none : (rows : List Row) → executions k rows ≡ 0 → left_all rows ≡ 0
  left-none [] e = refl
  left-none (t ∷ rows) e = ground (arith, left-none rows)

  -- An update of the rows of other tasks.
  pub left-other :
      (p : Row → Bool) (f : Row → Row) (rows : List Row)
      → ((t : Row) → has_id k t ≡ true → p t ≡ false)
      → ((t : Row) → (f t).id ≡ t.id)
      → left_all (update_where p f rows) ≡ left_all rows
  left-other p f [] other same = refl
  left-other p f (t ∷ rows) other same =
      let rest = left-other p f rows other same in
      elim (Bool-cases (has_id k t)) [
        | inl h ↦ rw (other t h, rest) refl
        | inr h ↦ ground (arith, rest, same t)
      ]

  pub left-less :
      (p : Row → Bool) (f : Row → Row) (rows : List Row)
      → ((t : Row) → left (f t) ≤ left t)
      → left_all (update_where p f rows) ≤ left_all rows
  left-less p f [] less = omega arith
  left-less p f (t ∷ rows) less = ground (arith, left-less p f rows less, less t)

  pub executions-update :
      (p : Row → Bool) (f : Row → Row) (rows : List Row)
      → ((t : Row) → (f t).id ≡ t.id)
      → executions k (update_where p f rows) ≡ executions k rows
  executions-update p f [] same = refl
  executions-update p f (t ∷ rows) same = ground (arith, executions-update p f rows same, same t)

  -- An update of the one row of task `k`.
  pub left-own :
      (w : ℕ) (f : Row → Row) (rows : List Row)
      → executions k rows ≤ 1
      → ((t : Row) → (f t).id ≡ t.id)
      → ((t : Row) → left (f t) ≤ w)
      → left_all (update_where (has_id k) f rows) ≤ w
  left-own w f [] one same few = omega arith
  left-own w f (t ∷ rows) one same few = elim (Bool-cases (has_id k t)) [
    | inl h ↦
        let gone : executions k rows ≡ 0 = ground (arith, one, h) in
        let none_left =
          left-none (update_where (has_id k) f rows)
            (executions-update (has_id k) f rows same ∙ gone) in
        rw h (omega (arith, few t, none_left))
    | inr h ↦ ground (arith, left-own w f rows (ground (arith, one, h)) same few)
  ]

  pub left-delete :
      (p : Row → Bool) (rows : List Row)
      → (left_all (delete_where p rows) ≤ left_all rows)
        × (executions k (delete_where p rows) ≤ executions k rows)
  left-delete p [] = (omega arith, omega arith)
  left-delete p (t ∷ rows) =
      (ground (arith, (left-delete p rows).0), ground (arith, (left-delete p rows).1))
