-- ===== src/Contracts/Consistent/Requests.antt =====
-- Every method of the repository keeps the invariant of contracts and requests.
use spacecraft_corporation.Prelude.{
  ℕ, String, ◌≡◌, refl, Bool, true, false, ◌&&◌, inl, inr, Option, some, List, [], ◌∷◌, arith, ◌==◌,
  if◌then◌else◌, Bool-cases, str_eq,
}
use spacecraft_corporation.Prelude.Rows.{exists}
use spacecraft_corporation.Prelude.Tx.{
  Tx, ok, Ensures, Ensures-reads, Ensures-gets, Ensures-write, Ensures-guard, Ensures-check,
  Ensures-pure, Ensures-bind, Ensures-ok, tx_rules,
}
use spacecraft_corporation.Contracts.Model.{
  Status, is_open, current_post_version, TaskKind, Error, Contract, Db,
}
use spacecraft_corporation.Contracts.Guards.{
  task_for, null_if_empty, touch, touched, enqueue, enqueue_refresh, enqueue_payout, enqueue_close,
  enqueue_notify,
}
use spacecraft_corporation.Contracts.Items
use spacecraft_corporation.Contracts.Edits as Changes
use spacecraft_corporation.Contracts.Lifecycle
use spacecraft_corporation.Contracts.PayoutTable
use spacecraft_corporation.Contracts.Consistent.{IsConsistent-enqueue, Consistent, is_contract}
use spacecraft_corporation.Contracts.Consistent.Edits.{
  SameView, IsConsistent-set, IsConsistent-edit, IsConsistent-close, IsConsistent-recreate,
}
use spacecraft_corporation.Contracts.Consistent.Locks.{lock_by_id-LockedAt, lock_for_cancel-row}

abbrev pub Keeps : {A : Type 0} → Tx Error Db A → Type 0
Keeps m = (db : Db) → Consistent db → Ensures (m db) (λ _ db'. Consistent db')

-- The pair of writes that ends an edit.
pub refresh-Consistent : (cid : ℕ) (db : Db) → Consistent db → Consistent (enqueue_refresh cid db)
unfolding enqueue_refresh
refresh-Consistent cid db h = IsConsistent-enqueue h (task_for TaskKind.refresh cid) refl

pub touch-Consistent :
    (cid now : ℕ) (actor : String) (db : Db) → Consistent db → Consistent (touch cid now actor db)
unfolding touch
touch-Consistent cid now actor db h =
    IsConsistent-edit h (is_contract cid) (touched now actor) (λ c. refl)
      (λ c. (refl, refl, refl, refl, refl))

pub ruleset writes = (tx_rules, refresh-Consistent, touch-Consistent)

pub update_details-Consistent :
    (server cid : ℕ) (title description actor : String) (now : ℕ)
    → Keeps (Changes.update_details server cid title description actor now)
unfolding Changes.update_details
update_details-Consistent server cid title description actor now db h = Ensures-reads _ _ db λ c _.
    let h' =
      IsConsistent-edit h (is_contract c.id) (Changes.with_details title description actor now)
        (λ c. refl) (λ c. (refl, refl, refl, refl, refl)) in
    search (writes, h') depth 8

pub set_deadline-Consistent :
    (server cid : ℕ) (deadline : Option ℕ) (actor : String) (now : ℕ)
    → Keeps (Changes.set_deadline server cid deadline actor now)
unfolding Changes.set_deadline
set_deadline-Consistent server cid deadline actor now db h = Ensures-reads _ _ db λ c _.
    let h' =
      IsConsistent-edit h (is_contract c.id) (Changes.with_deadline deadline actor now) (λ c. refl)
        (λ c. (refl, refl, refl, refl, refl)) in
    search (writes, h') depth 8

pub set_delivery_location-Consistent :
    (server cid : ℕ) (gdid gd_version actor : String) (now : ℕ)
    → Keeps (Changes.set_delivery_location server cid gdid gd_version actor now)
unfolding Changes.set_delivery_location
set_delivery_location-Consistent server cid gdid gd_version actor now db h =
    Ensures-reads _ _ db λ c _. Ensures-guard _ _ _ db λ _.
      let h' =
        IsConsistent-edit h (is_contract c.id)
          (Changes.with_location gdid (if str_eq gdid "" then "" else gd_version) actor now)
          (λ c. refl) (λ c. (refl, refl, refl, refl, refl)) in
      search (writes, h') depth 8

-- New rewards: the contract is open, so no payout has been requested.
pub update_rewards-Consistent :
    (server cid : ℕ) (credits : Option ℕ) (factor : ℕ) (reputation licence_points : Option ℕ)
    → (actor : String) (now : ℕ)
    → Keeps (Changes.update_rewards server cid credits factor reputation licence_points actor now)
unfolding Changes.update_rewards
update_rewards-Consistent server cid credits factor reputation licence_points actor now db h =
    Ensures-reads _ _ db λ c locked. Ensures-guard _ _ _ db λ _.
      let at = lock_by_id-LockedAt now db h.keyed server cid locked in
      let h' =
        IsConsistent-set h (is_contract c.id)
          (Changes.with_rewards credits factor reputation licence_points actor now) (λ c. refl)
          (λ d a b e here t x.
            let o : is_open d.status ≡ true = ground (arith, at.row, at.opened) in
            record {
              payout = ground (arith, x.payout);
              post = x.post;
              closing = x.closing;
              closed = x.closed;
              paid = x.paid;
            }) in
      search (writes, h') depth 8

pub cancel_by_id-Consistent :
    (server cid : ℕ) (actor : String) (now : ℕ)
    → Keeps (Lifecycle.cancel_by_id server cid actor now)
unfolding Lifecycle.cancel_by_id enqueue_close
cancel_by_id-Consistent server cid actor now db h = Ensures-reads _ _ db λ c locked.
    let at = lock_for_cancel-row now db h.keyed server cid locked in
    let h' =
      IsConsistent-close h (is_contract cid) cid Status.cancelled actor now refl refl
        (λ d here t. (ground arith, ground (arith, at.0, at.1))) in
    search (tx_rules, h') depth 8

pub mark_expired-Consistent : (cid now : ℕ) → Keeps (Lifecycle.mark_expired cid now)
unfolding Lifecycle.mark_expired enqueue_close
mark_expired-Consistent cid now db h =
    elim (Bool-cases
      (exists (λ (c : Contract). (c.id == cid) && Lifecycle.is_due now c) db.contracts)) [
        | inl e ↦
            let h' =
              IsConsistent-close h (λ (c : Contract). (c.id == cid) && Lifecycle.is_due now c) cid
                Status.expired_status Lifecycle.system_actor now refl refl
                (λ d here t. (ground arith, ground arith)) in
            rw e (search (tx_rules, h') depth 8)
        | inr e ↦ rw e (Ensures-ok _ db h)
      ]

pub mark_notified-Consistent : (cid now : ℕ) → Keeps (Lifecycle.mark_notified cid now)
unfolding Lifecycle.mark_notified enqueue_notify
mark_notified-Consistent cid now db h =
    elim (Bool-cases (exists (Lifecycle.may_notify cid db) db.contracts)) [
      | inl e ↦
          let h' =
            IsConsistent-edit h (Lifecycle.may_notify cid db)
              (λ c. record c { expiry_notified_at = some now }) (λ c. refl)
              (λ c. (refl, refl, refl, refl, refl)) in
          let h2 = IsConsistent-enqueue h' (task_for TaskKind.notify cid) refl in
          rw e (search (tx_rules, h2) depth 8)
      | inr e ↦ rw e (Ensures-ok _ db h)
    ]

pub set_thread_id-Consistent :
    (cid : ℕ) (thread : String) (now : ℕ) → Keeps (Lifecycle.set_thread_id cid thread now)
unfolding Lifecycle.set_thread_id
set_thread_id-Consistent cid thread now db h = Ensures-check _ _ _ db λ _.
    let h' =
      IsConsistent-set h (is_contract cid)
        (λ c. record c {
          thread_id = some thread;
          post_version = current_post_version;
          updated_at = now;
        })
        (λ c. refl)
        (λ d a b e here t x. record {
          payout = x.payout;
          post = λ n. cc;
          closing = x.closing;
          closed = x.closed;
          paid = x.paid;
        }) in
    search (tx_rules, h') depth 8

pub recreate_post-Consistent : (cid now : ℕ) → Keeps (Lifecycle.recreate_post cid now)
unfolding Lifecycle.recreate_post
recreate_post-Consistent cid now db h =
    let h' = IsConsistent-recreate h cid now in search (tx_rules, h') depth 8

republish_write :
    (b o : Bool) (cid : ℕ) (db : Db)
    → Consistent db
    → Consistent (
        (if b
            then enqueue (task_for TaskKind.create_thread cid)
            else if o
            then enqueue_refresh cid
            else enqueue_close cid)
          db)
unfolding enqueue_refresh enqueue_close
republish_write true o cid db h = IsConsistent-enqueue h _ refl
republish_write false true cid db h = IsConsistent-enqueue h _ refl
republish_write false false cid db h = IsConsistent-enqueue h _ refl

pub republish-Consistent : (server cid : ℕ) → Keeps (Lifecycle.republish server cid)
unfolding Lifecycle.republish
republish-Consistent server cid db h = Ensures-reads _ _ db λ c _.
    Ensures-write _ _ db
      (Ensures-pure _ _ (republish_write (Lifecycle.has_no_thread c) (is_open c.status) cid db h))

insert_payout-Consistent :
    (cid now : ℕ) (p : PayoutTable.Payout) (db : Db)
    → Consistent db
    → Consistent (PayoutTable.insert_payout cid now p db)
unfolding PayoutTable.insert_payout
insert_payout-Consistent cid now p db h =
    elim (Bool-cases (exists (PayoutTable.payout_of cid p.user_id) db.payouts)) [
      | inl e ↦ rw e h
      | inr e ↦ rw e h
    ]

insert_payouts-Consistent :
    (cid now : ℕ) (ps : List PayoutTable.Payout) → Keeps (PayoutTable.insert_payouts cid now ps)
unfolding PayoutTable.insert_payouts
insert_payouts-Consistent cid now [] db h = Ensures-pure tt db h
insert_payouts-Consistent cid now (p ∷ ps) db h = Ensures-check _ _ _ db λ _.
    Ensures-write _ _ db
      (insert_payouts-Consistent cid now ps _ (insert_payout-Consistent cid now p db h))

stamp_SameView : (decimals : ℕ) (c : Contract) → SameView c (PayoutTable.stamp_decimals decimals c)
stamp_SameView decimals c = elim (Bool-cases (Items.is_some c.payout_decimals)) [
  | inl e ↦ rw e (refl, refl, refl, refl, refl)
  | inr e ↦ rw e (refl, refl, refl, refl, refl)
]

pub save_payouts-Consistent :
    (cid : ℕ) (ps : List PayoutTable.Payout) (decimals now : ℕ)
    → Keeps (PayoutTable.save_payouts cid ps decimals now)
unfolding PayoutTable.save_payouts
save_payouts-Consistent cid ps decimals now db h =
    Ensures-bind _ (λ _ db'. Consistent db') _ db (insert_payouts-Consistent cid now ps db h)
      λ _ db' h'.
        let h2 =
          IsConsistent-edit h' (is_contract cid) (PayoutTable.stamp_decimals decimals)
            (λ c. ground arith) (stamp_SameView decimals) in
        search (tx_rules, h2) depth 8

pub mark_payout_posted-Consistent :
    (cid : ℕ) (channel message : String) (now : ℕ)
    → Keeps (PayoutTable.mark_payout_posted cid channel message now)
unfolding PayoutTable.mark_payout_posted
mark_payout_posted-Consistent cid channel message now db h =
    let h' =
      IsConsistent-edit h (is_contract cid)
        (λ c. record c {
          payout_posted_at = some now;
          report_channel_id = null_if_empty channel;
          report_message_id = null_if_empty message;
          updated_at = now;
        })
        (λ c. refl) (λ c. (refl, refl, refl, refl, refl)) in
    search (tx_rules, h') depth 8

pub request_payout_repost-Consistent :
    (server cid : ℕ) → Keeps (PayoutTable.request_payout_repost server cid)
unfolding PayoutTable.request_payout_repost enqueue_payout
request_payout_repost-Consistent server cid db h =
    let h' =
      IsConsistent-enqueue h (record (task_for TaskKind.payout cid) { repost = true }) refl in
    search (tx_rules, h') depth 8

-- The guard of the UPDATE: only a completed contract is marked as paid out.
pub mark_payouts_paid-Consistent :
    (server cid : ℕ) (actor : String) (now : ℕ)
    → Keeps (PayoutTable.mark_payouts_paid server cid actor now)
unfolding PayoutTable.mark_payouts_paid
mark_payouts_paid-Consistent server cid actor now db h = Ensures-ok _ _ (
    IsConsistent-set h (PayoutTable.may_pay server cid) (PayoutTable.paid_by actor now) (λ c. refl)
      (λ d a b e here t x. record {
        payout = x.payout;
        post = x.post;
        closing = x.closing;
        closed = x.closed;
        paid = λ n. ground arith;
      }))
