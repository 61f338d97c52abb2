-- ===== src/Contracts/Once.antt =====
-- The guarded updates of the contracts: what happens when MarkExpired, MarkNotified,
-- MarkPayoutsPaid or SavePayouts runs a second time.
use spacecraft_corporation.Prelude.{
  ℕ, ◌≤◌, String, ◌≡◌, refl, subst, Bool, true, false, ◌&&◌, inl, inr, List, [], ◌∷◌, arith, ◌==◌,
  Bool-cases, Option-cases, str_eq, eq_iff, none, some,
}
use spacecraft_corporation.Prelude.Rows.{
  select?, exists, exists-false, update_where, update_where-none,
}
use spacecraft_corporation.Prelude.Tx.{
  Ensures, Ensures-pure, Ensures-check, Ensures-write, Ensures-bind, tx_rules, commit-keeps, ok,
  commit, ◌>>=◌,
}
use spacecraft_corporation.Contracts.Model.{Status, Contract, PayoutRow, Db}
use spacecraft_corporation.Contracts.Guards.{enqueue_close, enqueue_notify}
use spacecraft_corporation.Contracts.Lifecycle
use spacecraft_corporation.Contracts.PayoutTable
use spacecraft_corporation.Contracts.PayoutTable.{Payout}

module _ {A : Type 0} where
  exists-update_where :
      (p q : A → Bool) (f : A → A) (xs : List A)
      → ((x : A) → p x ≡ true → q (f x) ≡ false)
      → ((x : A) → p x ≡ false → q x ≡ false)
      → exists q (update_where p f xs) ≡ false
  exists-update_where p q f [] hit miss = refl
  exists-update_where p q f (x ∷ xs) hit miss =
      let rest = exists-update_where p q f xs hit miss in
      elim (Bool-cases (p x)) [
        | inl h ↦ ground (arith, hit x h, rest)
        | inr h ↦ ground (arith, miss x h, rest)
      ]

-- MarkPayoutsPaid has one winner: after a call, whatever it returned, another call by anyone at any
-- time returns false and leaves the tables as they are.
pub mark_payouts_paid-once :
    (server cid : ℕ) (actor other : String) (now later : ℕ) (db : Db)
    → commit
        (PayoutTable.mark_payouts_paid server cid other later)
        (commit (PayoutTable.mark_payouts_paid server cid actor now) db).1
      ≡ (ok false, (commit (PayoutTable.mark_payouts_paid server cid actor now) db).1)
unfolding PayoutTable.mark_payouts_paid commit
mark_payouts_paid-once server cid actor other now later db =
    let may = PayoutTable.may_pay server cid in
    let cs = update_where may (PayoutTable.paid_by actor now) db.contracts in
    let none_left : exists may cs ≡ false =
      exists-update_where may may (PayoutTable.paid_by actor now) db.contracts (λ x h. ground arith)
        (λ x h. h) in
    rw
      (
        none_left,
        update_where-none may (PayoutTable.paid_by other later) cs (exists-false may cs none_left),
      )
      refl

-- A contract that is not due at `now` is not due earlier either.
pub is_due_mono :
    (now later : ℕ) (x : Contract)
    → later ≤ now
    → Lifecycle.is_due now x ≡ false
    → Lifecycle.is_due later x ≡ false
is_due_mono now later x le h = elim (Option-cases x.deadline) [
  | inl e ↦ ground arith
  | inr e ↦ ground (arith, e.1)
]

module _ (cid : ℕ) where
  abbrev pub due_at : ℕ → Contract → Bool
  due_at now c = (c.id == cid) && Lifecycle.is_due now c

  mark_expired-done :
      (now later : ℕ)
      → later ≤ now
      → (cs : List Contract)
      → exists (due_at later) (
          update_where
            (due_at now)
            (Lifecycle.closed_as Status.expired_status Lifecycle.system_actor now)
            cs)
        ≡ false
  mark_expired-done now later le cs =
      exists-update_where (due_at now) (due_at later) _ cs (λ x h. ground arith)
        λ x h. elim (Bool-cases (x.id == cid)) [
          | inl e ↦ rw e (is_due_mono now later x le (ground arith))
          | inr e ↦ rw e refl
        ]

  mark_expired-idle :
      (now : ℕ) (db : Db)
      → exists (due_at now) db.contracts ≡ false
      → commit (Lifecycle.mark_expired cid now) db ≡ (ok false, db)
  unfolding Lifecycle.mark_expired commit
  mark_expired-idle now db e = rw e refl

  -- MarkExpired closes a contract once: a second call, with a clock that is not ahead of the first,
  -- returns false and leaves the tables as they are.
  pub mark_expired-once :
      (now later : ℕ) (db : Db)
      → later ≤ now
      → commit (Lifecycle.mark_expired cid later) (commit (Lifecycle.mark_expired cid now) db).1
        ≡ (ok false, (commit (Lifecycle.mark_expired cid now) db).1)
  unfolding Lifecycle.mark_expired enqueue_close commit ◌>>=◌
  mark_expired-once now later db le =
      mark_expired-idle later (commit (Lifecycle.mark_expired cid now) db).1
        (elim (Bool-cases (exists (due_at now) db.contracts)) [
          | inl e ↦ rw e (mark_expired-done now later le db.contracts)
          | inr e ↦ rw e (
              subst (λ cs. exists (due_at later) cs ≡ false)
                (update_where-none _ _ db.contracts (exists-false _ db.contracts e))
                (mark_expired-done now later le db.contracts))
        ])

  mark_notified-idle :
      (now : ℕ) (db : Db)
      → exists (Lifecycle.may_notify cid db) db.contracts ≡ false
      → commit (Lifecycle.mark_notified cid now) db ≡ (ok false, db)
  unfolding Lifecycle.mark_notified commit
  mark_notified-idle now db e = rw e refl

  -- MarkNotified sends one notice: after a call, another one at any time returns false and leaves
  -- the tables as they are.
  pub mark_notified-once :
      (now later : ℕ) (db : Db)
      → commit (Lifecycle.mark_notified cid later) (commit (Lifecycle.mark_notified cid now) db).1
        ≡ (ok false, (commit (Lifecycle.mark_notified cid now) db).1)
  unfolding Lifecycle.mark_notified enqueue_notify commit ◌>>=◌
  mark_notified-once now later db =
      mark_notified-idle later (commit (Lifecycle.mark_notified cid now) db).1
        (elim (Bool-cases (exists (Lifecycle.may_notify cid db) db.contracts)) [
          | inl e ↦ rw e (
              exists-update_where (Lifecycle.may_notify cid db) (Lifecycle.may_notify cid db) _
                db.contracts (λ x h. ground arith) (λ x h. h))
          | inr e ↦ rw e e
        ])

module _ (cid : ℕ) (user : String) (row : PayoutRow) where
  abbrev IsStored : Db → Type 0
  IsStored db = select? (PayoutTable.payout_of cid user) db.payouts ≡ some row

  insert_payout-IsStored :
      (now : ℕ) (p : Payout) (db : Db)
      → IsStored db
      → IsStored (PayoutTable.insert_payout cid now p db)
  unfolding PayoutTable.insert_payout
  insert_payout-IsStored now p db h =
      elim (Bool-cases (exists (PayoutTable.payout_of cid p.user_id) db.payouts)) [
        | inl e ↦ rw e h
        | inr e ↦ rw e (elim (Bool-cases (str_eq p.user_id user)) [
          | inl own ↦
              let same : p.user_id ≡ user = ground (arith, eq_iff p.user_id user) in
              let absent = exists-false (PayoutTable.payout_of cid p.user_id) db.payouts e in
              let none_left =
                subst (λ u. select? (PayoutTable.payout_of cid u) db.payouts ≡ none) same absent in
              ground (arith, none_left, h)
          | inr other ↦ ground (arith, h)
        ])
      ]

  insert_payouts-IsStored :
      (now : ℕ) (ps : List Payout) (db : Db)
      → IsStored db
      → Ensures (PayoutTable.insert_payouts cid now ps db) (λ _ db'. IsStored db')
  unfolding PayoutTable.insert_payouts
  insert_payouts-IsStored now [] db h = Ensures-pure tt db h
  insert_payouts-IsStored now (p ∷ ps) db h = Ensures-check _ _ _ db λ _.
      Ensures-write _ _ db (insert_payouts-IsStored now ps _ (insert_payout-IsStored now p db h))

  -- The payout row that is stored for a user of the contract stays as it is, whatever SavePayouts
  -- is called with again.
  pub save_payouts-IsStored :
      (ps : List Payout) (decimals now : ℕ) (db : Db)
      → select? (PayoutTable.payout_of cid user) db.payouts ≡ some row
      → select?
          (PayoutTable.payout_of cid user)
          (commit (PayoutTable.save_payouts cid ps decimals now) db).1.payouts
        ≡ some row
  unfolding PayoutTable.save_payouts
  save_payouts-IsStored ps decimals now db h =
      commit-keeps IsStored (PayoutTable.save_payouts cid ps decimals now) db
        (Ensures-bind _ (λ _ db'. IsStored db') _ db (insert_payouts-IsStored now ps db h)
          λ _ db' h'. search tx_rules)
        h
