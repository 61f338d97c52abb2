-- ===== src/Contracts/Terminal/Requests.antt =====
-- No method of the repository changes the status of a contract that has ended.
use spacecraft_corporation.Prelude.{
  ℕ, String, ◌≡◌, refl, Bool, true, false, ◌&&◌, inl, inr, Option, none, some, List, [], ◌∷◌, arith,
  ◌==◌, if◌then◌else◌, Bool-cases, str_eq,
}
use spacecraft_corporation.Prelude.Rows.{exists, exists-false}
use spacecraft_corporation.Prelude.Tx.{
  Ensures-reads, Ensures-write, Ensures-check, Ensures-pure, Ensures-bind, Ensures-ok, tx_rules,
}
use spacecraft_corporation.Contracts.Model.{
  Status, is_open, current_post_version, TaskKind, Contract, Db,
}
use spacecraft_corporation.Contracts.Guards.{
  task_for, null_if_empty, enqueue, enqueue_refresh, enqueue_payout, enqueue_close, enqueue_notify,
}
use spacecraft_corporation.Contracts.Items
use spacecraft_corporation.Contracts.Create
use spacecraft_corporation.Contracts.Edits as Changes
use spacecraft_corporation.Contracts.Lifecycle
use spacecraft_corporation.Contracts.PayoutTable
use spacecraft_corporation.Contracts.Consistent.{is_contract}
use spacecraft_corporation.Contracts.Consistent.Locks.{lock_for_cancel-row}
use spacecraft_corporation.Contracts.Terminal.{
  Ended, EndedAs-edit, EndedAs-other, EndedAs-insert, complete-Ended,
}
use spacecraft_corporation.Contracts.Terminal.Members.{Keeps}

module _ (k : ℕ) (st : Status) where
  edit_open-Ended :
      (server cid now : ℕ) (f : Contract → Contract)
      → ((x : Contract) → (f x).id ≡ x.id)
      → ((x : Contract) → (f x).status ≡ x.status)
      → Keeps k st (Changes.edit_open server cid now f)
  unfolding Changes.edit_open enqueue_refresh
  edit_open-Ended server cid now f same kept db h =
      Ensures-reads _ _ db λ c _.
        let h' = EndedAs-edit h (is_contract c.id) f same kept in search (tx_rules, h') depth 8

  pub update_details-Ended :
      (server cid : ℕ) (title description actor : String) (now : ℕ)
      → Keeps k st (Changes.update_details server cid title description actor now)
  unfolding Changes.update_details
  update_details-Ended server cid title description actor now =
      edit_open-Ended server cid now (Changes.with_details title description actor now) (λ x. refl)
        (λ x. refl)

  pub set_deadline-Ended :
      (server cid : ℕ) (deadline : Option ℕ) (actor : String) (now : ℕ)
      → Keeps k st (Changes.set_deadline server cid deadline actor now)
  unfolding Changes.set_deadline
  set_deadline-Ended server cid deadline actor now =
      edit_open-Ended server cid now (Changes.with_deadline deadline actor now) (λ x. refl)
        (λ x. refl)

  pub set_delivery_location-Ended :
      (server cid : ℕ) (gdid gd_version actor : String) (now : ℕ)
      → Keeps k st (Changes.set_delivery_location server cid gdid gd_version actor now)
  unfolding Changes.set_delivery_location enqueue_refresh
  set_delivery_location-Ended server cid gdid gd_version actor now db h =
      Ensures-reads _ _ db λ c _.
        let h' =
          EndedAs-edit h (is_contract c.id)
            (Changes.with_location gdid (if str_eq gdid "" then "" else gd_version) actor now)
            (λ x. refl) (λ x. refl) in
        search (tx_rules, h') depth 8

  pub update_rewards-Ended :
      (server cid : ℕ) (credits : Option ℕ) (factor : ℕ) (reputation licence_points : Option ℕ)
      → (actor : String) (now : ℕ)
      → Keeps k st
          (Changes.update_rewards server cid credits factor reputation licence_points actor now)
  unfolding Changes.update_rewards enqueue_refresh
  update_rewards-Ended server cid credits factor reputation licence_points actor now db h =
      Ensures-reads _ _ db λ c _.
        let h' =
          EndedAs-edit h (is_contract c.id)
            (Changes.with_rewards credits factor reputation licence_points actor now) (λ x. refl)
            (λ x. refl) in
        search (tx_rules, h') depth 8

  pub cancel_by_id-Ended :
      (server cid : ℕ) (actor : String) (now : ℕ)
      → Keeps k st (Lifecycle.cancel_by_id server cid actor now)
  unfolding Lifecycle.cancel_by_id enqueue_close
  cancel_by_id-Ended server cid actor now db h = Ensures-reads _ _ db λ c locked.
      let at = lock_for_cancel-row now db h.keyed server cid locked in
      let h' =
        complete-Ended k st (is_contract cid) (Lifecycle.closed_as Status.cancelled actor now) cid
          {c = c} db h at.0 at.1 (λ x t. ground arith) (λ x. refl) in
      search (tx_rules, h') depth 8

  pub mark_expired-Ended : (cid now : ℕ) → Keeps k st (Lifecycle.mark_expired cid now)
  unfolding Lifecycle.mark_expired enqueue_close
  mark_expired-Ended cid now db h =
      elim (Bool-cases
        (exists (λ (c : Contract). (c.id == cid) && Lifecycle.is_due now c) db.contracts)) [
          | inl e ↦
              let h' =
                EndedAs-other h (λ (c : Contract). (c.id == cid) && Lifecycle.is_due now c)
                  (Lifecycle.closed_as Status.expired_status Lifecycle.system_actor now) (λ x. refl)
                  (λ x here t. ground arith) in
              rw e (search (tx_rules, h') depth 8)
          | inr e ↦ rw e (Ensures-ok _ db h)
        ]

  pub mark_notified-Ended : (cid now : ℕ) → Keeps k st (Lifecycle.mark_notified cid now)
  unfolding Lifecycle.mark_notified enqueue_notify
  mark_notified-Ended cid now db h =
      elim (Bool-cases (exists (Lifecycle.may_notify cid db) db.contracts)) [
        | inl e ↦
            let h' =
              EndedAs-edit h (Lifecycle.may_notify cid db)
                (λ c. record c { expiry_notified_at = some now }) (λ x. refl) (λ x. refl) in
            rw e (search (tx_rules, h') depth 8)
        | inr e ↦ rw e (Ensures-ok _ db h)
      ]

  pub set_thread_id-Ended :
      (cid : ℕ) (thread : String) (now : ℕ) → Keeps k st (Lifecycle.set_thread_id cid thread now)
  unfolding Lifecycle.set_thread_id
  set_thread_id-Ended cid thread now db h =
      let h' =
        EndedAs-edit h (is_contract cid)
          (λ c. record c {
            thread_id = some thread;
            post_version = current_post_version;
            updated_at = now;
          })
          (λ x. refl) (λ x. refl) in
      search (tx_rules, h') depth 8

  pub recreate_post-Ended : (cid now : ℕ) → Keeps k st (Lifecycle.recreate_post cid now)
  unfolding Lifecycle.recreate_post
  recreate_post-Ended cid now db h =
      let h' =
        EndedAs-edit h (is_contract cid) (λ c. record c { thread_id = none; updated_at = now })
          (λ x. refl) (λ x. refl) in
      search (tx_rules, h') depth 8

  republish_write :
      (b o : Bool) (cid : ℕ) (db : Db)
      → Ended k st db
      → Ended k st (
          (if b
              then enqueue (task_for TaskKind.create_thread cid)
              else if o
              then enqueue_refresh cid
              else enqueue_close cid)
            db)
  unfolding enqueue_refresh enqueue_close
  republish_write true o cid db h = h
  republish_write false true cid db h = h
  republish_write false false cid db h = h

  pub republish-Ended : (server cid : ℕ) → Keeps k st (Lifecycle.republish server cid)
  unfolding Lifecycle.republish
  republish-Ended server cid db h = Ensures-reads _ _ db λ c _.
      Ensures-write _ _ db
        (Ensures-pure _ _ (republish_write (Lifecycle.has_no_thread c) (is_open c.status) cid db h))

  insert_payout-Ended :
      (cid now : ℕ) (p : PayoutTable.Payout) (db : Db)
      → Ended k st db
      → Ended k st (PayoutTable.insert_payout cid now p db)
  unfolding PayoutTable.insert_payout
  insert_payout-Ended cid now p db h =
      elim (Bool-cases (exists (PayoutTable.payout_of cid p.user_id) db.payouts)) [
        | inl e ↦ rw e h
        | inr e ↦ rw e h
      ]

  insert_payouts-Ended :
      (cid now : ℕ) (ps : List PayoutTable.Payout)
      → Keeps k st (PayoutTable.insert_payouts cid now ps)
  unfolding PayoutTable.insert_payouts
  insert_payouts-Ended cid now [] db h = Ensures-pure tt db h
  insert_payouts-Ended cid now (p ∷ ps) db h = Ensures-check _ _ _ db λ _.
      Ensures-write _ _ db (insert_payouts-Ended cid now ps _ (insert_payout-Ended cid now p db h))

  pub save_payouts-Ended :
      (cid : ℕ) (ps : List PayoutTable.Payout) (decimals now : ℕ)
      → Keeps k st (PayoutTable.save_payouts cid ps decimals now)
  unfolding PayoutTable.save_payouts
  save_payouts-Ended cid ps decimals now db h =
      Ensures-bind _ (λ _ db'. Ended k st db') _ db (insert_payouts-Ended cid now ps db h)
        λ _ db' h'.
          let h2 =
            EndedAs-edit h' (is_contract cid) (PayoutTable.stamp_decimals decimals)
              (λ x. ground arith) (λ x. ground arith) in
          search (tx_rules, h2) depth 8

  pub mark_payout_posted-Ended :
      (cid : ℕ) (channel message : String) (now : ℕ)
      → Keeps k st (PayoutTable.mark_payout_posted cid channel message now)
  unfolding PayoutTable.mark_payout_posted
  mark_payout_posted-Ended cid channel message now db h =
      let h' =
        EndedAs-edit h (is_contract cid)
          (λ c. record c {
            payout_posted_at = some now;
            report_channel_id = null_if_empty channel;
            report_message_id = null_if_empty message;
            updated_at = now;
          })
          (λ x. refl) (λ x. refl) in
      search (tx_rules, h') depth 8

  pub request_payout_repost-Ended :
      (server cid : ℕ) → Keeps k st (PayoutTable.request_payout_repost server cid)
  unfolding PayoutTable.request_payout_repost enqueue_payout
  request_payout_repost-Ended server cid db h = search tx_rules depth 8

  pub mark_payouts_paid-Ended :
      (server cid : ℕ) (actor : String) (now : ℕ)
      → Keeps k st (PayoutTable.mark_payouts_paid server cid actor now)
  unfolding PayoutTable.mark_payouts_paid
  mark_payouts_paid-Ended server cid actor now db h = Ensures-ok _ _ (
      EndedAs-edit h (PayoutTable.may_pay server cid) (PayoutTable.paid_by actor now) (λ x. refl)
        (λ x. refl))

  -- A new contract is not one that has ended.
  insert_items-Ended :
      (lower : String → String) (cid : ℕ) (actor : String) (now : ℕ)
      (inps : List (ℕ × Create.CreateItemInput))
      → Keeps k st (Create.insert_items lower cid actor now inps)
  unfolding Create.insert_items Items.insert_item
  insert_items-Ended lower cid actor now [] db h = Ensures-pure tt db h
  insert_items-Ended lower cid actor now (inp ∷ inps) db h =
      Ensures-bind _ (λ _ db'. Ended k st db') _ db (search tx_rules)
        λ _ db' h'. insert_items-Ended lower cid actor now inps db' h'

  pub create-Ended :
      (lower : String → String) (inp : Create.CreateInput) (id now : ℕ)
      → Keeps k st (Create.create lower inp id now)
  unfolding Create.create Create.created Create.contract_row_ok
  create-Ended lower inp id now db h = Ensures-check _ _ _ db λ ok_row.
      let h' =
        EndedAs-insert h (Create.created inp id now)
          (exists-false (is_contract id) db.contracts (ground arith)) in
      Ensures-write _ _ db (
        Ensures-bind _ (λ _ db'. Ended k st db') _ _
          (insert_items-Ended lower id inp.created_by now inp.items _ h')
          λ _ db' h2. search (tx_rules, h2))
