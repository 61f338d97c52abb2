-- ===== src/Contracts/Terminal/History.antt =====
-- No history of requests changes the status of a contract that has ended.
use spacecraft_corporation.Prelude.{ℕ, String, List, [], ◌∷◌}
use spacecraft_corporation.Prelude.Tx.{commit-keeps}
use spacecraft_corporation.Contracts.Model.{Status, Db}
use spacecraft_corporation.Contracts.Items
use spacecraft_corporation.Contracts.Members as Ops
use spacecraft_corporation.Contracts.Create
use spacecraft_corporation.Contracts.Edits
use spacecraft_corporation.Contracts.Lifecycle
use spacecraft_corporation.Contracts.PayoutTable
use spacecraft_corporation.Contracts.History.{Request, apply, run}
use spacecraft_corporation.Contracts.Terminal.{Ended}
use spacecraft_corporation.Contracts.Terminal.Requests
use spacecraft_corporation.Contracts.Terminal.Members

module _ (lower fold : String → String) (k : ℕ) (st : Status) where
  pub apply-Ended : (r : Request) (db : Db) → Ended k st db → Ended k st (apply lower fold r db)
  unfolding apply
  apply-Ended (Request.create inp id now) db h =
      commit-keeps (Ended k st) (Create.create lower inp id now) db
        (Requests.create-Ended k st lower inp id now db h) h
  apply-Ended (Request.add_item s c n g v al q limit a id now) db h =
      commit-keeps (Ended k st) (Items.add_item_by_id lower fold s c n g v al q limit a id now) db
        (Members.add_item_by_id-Ended k st lower fold s c n g v al q limit a id now db h) h
  apply-Ended (Request.link_item s i g v al a now) db h =
      commit-keeps (Ended k st) (Items.link_item_gdid lower fold s i g v al a now) db
        (Members.link_item_gdid-Ended k st lower fold s i g v al a now db h) h
  apply-Ended (Request.remove_item s i a now) db h =
      commit-keeps (Ended k st) (Items.remove_item_by_id s i a now) db
        (Members.remove_item_by_id-Ended k st s i a now db h) h
  apply-Ended (Request.update_item s i n q a now) db h =
      commit-keeps (Ended k st) (Items.update_item lower s i n q a now) db
        (Members.update_item-Ended k st lower s i n q a now db h) h
  apply-Ended (Request.participate s t n u q id now) db h =
      commit-keeps (Ended k st) (Ops.participate lower s t n u q id now) db
        (Members.participate-Ended k st lower s t n u q id now db h) h
  apply-Ended (Request.deliver s t n u q now) db h =
      commit-keeps (Ended k st) (Ops.deliver lower s t n u q now) db
        (Members.deliver-Ended k st lower s t n u q now db h) h
  apply-Ended (Request.release s t n u q a now) db h =
      commit-keeps (Ended k st) (Ops.release lower s t n u q a now) db
        (Members.release-Ended k st lower s t n u q a now db h) h
  apply-Ended (Request.deliver_by_item s i u q a now) db h =
      commit-keeps (Ended k st) (Ops.deliver_by_item s i u q a now) db
        (Members.deliver_by_item-Ended k st s i u q a now db h) h
  apply-Ended (Request.set_reservation s i u q a now) db h =
      commit-keeps (Ended k st) (Ops.set_reservation_by_item s i u q a now) db
        (Members.set_reservation_by_item-Ended k st s i u q a now db h) h
  apply-Ended (Request.remove_reservation s i u a now) db h =
      commit-keeps (Ended k st) (Ops.remove_reservation s i u a now) db
        (Members.remove_reservation-Ended k st s i u a now db h) h
  apply-Ended (Request.update_details s c t d a now) db h =
      commit-keeps (Ended k st) (Edits.update_details s c t d a now) db
        (Requests.update_details-Ended k st s c t d a now db h) h
  apply-Ended (Request.set_deadline s c d a now) db h =
      commit-keeps (Ended k st) (Edits.set_deadline s c d a now) db
        (Requests.set_deadline-Ended k st s c d a now db h) h
  apply-Ended (Request.update_rewards s c cr f rep lp a now) db h =
      commit-keeps (Ended k st) (Edits.update_rewards s c cr f rep lp a now) db
        (Requests.update_rewards-Ended k st s c cr f rep lp a now db h) h
  apply-Ended (Request.set_location s c g v a now) db h =
      commit-keeps (Ended k st) (Edits.set_delivery_location s c g v a now) db
        (Requests.set_delivery_location-Ended k st s c g v a now db h) h
  apply-Ended (Request.cancel s c a now) db h =
      commit-keeps (Ended k st) (Lifecycle.cancel_by_id s c a now) db
        (Requests.cancel_by_id-Ended k st s c a now db h) h
  apply-Ended (Request.mark_expired c now) db h =
      commit-keeps (Ended k st) (Lifecycle.mark_expired c now) db
        (Requests.mark_expired-Ended k st c now db h) h
  apply-Ended (Request.mark_notified c now) db h =
      commit-keeps (Ended k st) (Lifecycle.mark_notified c now) db
        (Requests.mark_notified-Ended k st c now db h) h
  apply-Ended (Request.set_thread c t now) db h =
      commit-keeps (Ended k st) (Lifecycle.set_thread_id c t now) db
        (Requests.set_thread_id-Ended k st c t now db h) h
  apply-Ended (Request.recreate_post c now) db h =
      commit-keeps (Ended k st) (Lifecycle.recreate_post c now) db
        (Requests.recreate_post-Ended k st c now db h) h
  apply-Ended (Request.republish s c) db h =
      commit-keeps (Ended k st) (Lifecycle.republish s c) db
        (Requests.republish-Ended k st s c db h) h
  apply-Ended (Request.save_payouts c ps d now) db h =
      commit-keeps (Ended k st) (PayoutTable.save_payouts c ps d now) db
        (Requests.save_payouts-Ended k st c ps d now db h) h
  apply-Ended (Request.mark_posted c ch m now) db h =
      commit-keeps (Ended k st) (PayoutTable.mark_payout_posted c ch m now) db
        (Requests.mark_payout_posted-Ended k st c ch m now db h) h
  apply-Ended (Request.request_repost s c) db h =
      commit-keeps (Ended k st) (PayoutTable.request_payout_repost s c) db
        (Requests.request_payout_repost-Ended k st s c db h) h
  apply-Ended (Request.mark_paid s c a now) db h =
      commit-keeps (Ended k st) (PayoutTable.mark_payouts_paid s c a now) db
        (Requests.mark_payouts_paid-Ended k st s c a now db h) h

  -- Whatever requests come in whatever order, a contract that is completed, expired or cancelled
  -- stays in the tables with that status.
  pub run-Ended : (rs : List Request) (db : Db) → Ended k st db → Ended k st (run lower fold rs db)
  unfolding run
  run-Ended [] db h = h
  run-Ended (r ∷ rs) db h = run-Ended rs (apply lower fold r db) (apply-Ended r db h)
