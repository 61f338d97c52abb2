-- ===== src/Contracts/Lifecycle.antt =====
-- What ends a contract, its notice and its forum post: CancelByID, MarkExpired, MarkNotified,
-- SetThreadID, RecreatePost and Republish of postgres.go.
use spacecraft_corporation.Prelude.{
  ℕ, String, Bool, true, false, not, ◌&&◌, ◌||◌, Option, none, some, ◌==◌, if◌then◌else◌, str_eq,
}
use spacecraft_corporation.Prelude.Rows.{select?, update_where, exists}
use spacecraft_corporation.Prelude.Tx.{Tx, Result, ok, err, reads, check, write, pure, ◌>>=◌, ◌>>◌}
use spacecraft_corporation.Contracts.Model.{
  Status, is_open, TaskKind, current_post_version, Error, Contract, Item, Reservation, Db,
}
use spacecraft_corporation.Contracts.Guards.{
  is_past, set_contract, task_for, enqueue, enqueue_refresh, enqueue_close, enqueue_notify, text_is,
}
use spacecraft_corporation.Contracts.Items.{is_some}

abbrev pub closed_as : Status → String → ℕ → Contract → Contract
closed_as st actor now c = record c {
  status = st;
  closed_at = some now;
  updated_at = now;
  last_refreshed_at = now;
  updated_by = actor;
}

-- CancelByID asks only for an open status, so a contract past its deadline can be cancelled.
cancel_guard : Option Contract → Result Error Contract
cancel_guard none = err Error.not_found
cancel_guard (some c) = if is_open c.status then ok c else err Error.closed

unfoldable pub lock_for_cancel : ℕ → ℕ → Db → Result Error Contract
unfolding cancel_guard
lock_for_cancel server cid db =
    cancel_guard
      (select? (λ (c : Contract). (c.id == cid) && (c.servers_id == server)) db.contracts)

unfoldable pub cancel_by_id : (server cid : ℕ) (actor : String) (now : ℕ) → Tx Error Db Unit
cancel_by_id server cid actor now = do
  c ← reads (lock_for_cancel server cid)
  write (set_contract cid (closed_as Status.cancelled actor now))
  write (enqueue_close cid)
  pure tt

abbrev pub system_actor : String
system_actor = "system"

-- status = 'open' AND deadline IS NOT NULL AND deadline <= now
abbrev pub is_due : ℕ → Contract → Bool
is_due now c = is_open c.status && is_past c.deadline now

-- An UPDATE that changes no row returns false, and the deferred rollback ends the transaction.
unfoldable pub mark_expired : (cid now : ℕ) → Tx Error Db Bool
mark_expired cid now db =
    if exists (λ (c : Contract). (c.id == cid) && is_due now c) db.contracts
    then (do
      write (λ db. record db {
        contracts =
            update_where (λ (c : Contract). (c.id == cid) && is_due now c)
              (closed_as Status.expired_status system_actor now) db.contracts;
      })
      write (enqueue_close cid)
      pure true)
        db
    else ok (false, db)

-- EXISTS over contract_reservations JOIN contract_items
abbrev pub has_participant : ℕ → Db → Bool
has_participant cid db =
    exists
      (λ (r : Reservation).
        exists (λ (i : Item). (i.id == r.items_id) && (i.contracts_id == cid)) db.items)
      db.reservations

abbrev pub may_notify : ℕ → Db → Contract → Bool
may_notify cid db c =
    (c.id == cid)
    && is_open c.status
    && not (is_some c.expiry_notified_at)
    && has_participant cid db

unfoldable pub mark_notified : (cid now : ℕ) → Tx Error Db Bool
mark_notified cid now db =
    if exists (may_notify cid db) db.contracts
    then (do
      write (λ db. record db {
        contracts =
            update_where (may_notify cid db) (λ c. record c { expiry_notified_at = some now })
              db.contracts;
      })
      write (enqueue_notify cid)
      pure true)
        db
    else ok (false, db)

-- The unique index on thread_id: where there is a row to update, no other contract has the thread.
unfoldable pub set_thread_id : (cid : ℕ) (thread : String) (now : ℕ) → Tx Error Db Unit
set_thread_id cid thread now = do
  check
      (λ db.
        not (exists (λ (c : Contract). c.id == cid) db.contracts)
        || not (
            exists (λ (c : Contract). not (c.id == cid) && text_is c.thread_id thread)
              db.contracts))
      Error.constraint
  write (
      set_contract cid (λ c. record c {
        thread_id = some thread;
        post_version = current_post_version;
        updated_at = now;
      }))
  pure tt

unfoldable pub recreate_post : (cid now : ℕ) → Tx Error Db Unit
recreate_post cid now = do
  write (set_contract cid (λ c. record c { thread_id = none; updated_at = now }))
  write (enqueue (task_for TaskKind.create_thread cid))
  pure tt

pub data RepublishAction : Type 0 where
  creating refreshing : RepublishAction

found_contract : Option Contract → Result Error Contract
found_contract none = err Error.not_found
found_contract (some c) = ok c

unfoldable pub lock_scoped : ℕ → ℕ → Db → Result Error Contract
unfolding found_contract
lock_scoped server cid db =
    found_contract
      (select? (λ (c : Contract). (c.id == cid) && (c.servers_id == server)) db.contracts)

-- thread_id IS NULL or empty
abbrev pub is_unset : Option String → Bool
is_unset none = true
is_unset (some t) = str_eq t ""

abbrev pub has_no_thread : Contract → Bool
has_no_thread c = is_unset c.thread_id

unfoldable pub republish : (server cid : ℕ) → Tx Error Db RepublishAction
republish server cid = do
  c ← reads (lock_scoped server cid)
  write (
      if has_no_thread c
      then enqueue (task_for TaskKind.create_thread cid)
      else if is_open c.status
      then enqueue_refresh cid
      else enqueue_close cid)
  pure (if has_no_thread c then creating else refreshing)
