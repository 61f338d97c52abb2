-- ===== src/Contracts/Consistent/History.antt =====
-- Every history of requests keeps the invariant of contracts and outbox requests.
use spacecraft_corporation.Prelude.{String, List, [], ◌∷◌}
use spacecraft_corporation.Prelude.Tx.{commit-keeps}
use spacecraft_corporation.Contracts.Model.{Db}
use spacecraft_corporation.Contracts.Items
use spacecraft_corporation.Contracts.Members as Ops
use spacecraft_corporation.Contracts.Create
use spacecraft_corporation.Contracts.Edits
use spacecraft_corporation.Contracts.Lifecycle
use spacecraft_corporation.Contracts.PayoutTable
use spacecraft_corporation.Contracts.History.{Request, apply, run}
use spacecraft_corporation.Contracts.Consistent.{Consistent}
use spacecraft_corporation.Contracts.Consistent.Requests
use spacecraft_corporation.Contracts.Consistent.Members

module _ (lower fold : String → String) where
  pub apply-Consistent :
      (r : Request) (db : Db) → Consistent db → Consistent (apply lower fold r db)
  unfolding apply
  apply-Consistent (Request.create inp id now) db h =
      commit-keeps Consistent (Create.create lower inp id now) db
        (Members.create-Consistent lower inp id now db h) h
  apply-Consistent (Request.add_item s c n g v al q limit a id now) db h =
      commit-keeps Consistent (Items.add_item_by_id lower fold s c n g v al q limit a id now) db
        (Members.add_item_by_id-Consistent lower fold s c n g v al q limit a id now db h) h
  apply-Consistent (Request.link_item s i g v al a now) db h =
      commit-keeps Consistent (Items.link_item_gdid lower fold s i g v al a now) db
        (Members.link_item_gdid-Consistent lower fold s i g v al a now db h) h
  apply-Consistent (Request.remove_item s i a now) db h =
      commit-keeps Consistent (Items.remove_item_by_id s i a now) db
        (Members.remove_item_by_id-Consistent s i a now db h) h
  apply-Consistent (Request.update_item s i n q a now) db h =
      commit-keeps Consistent (Items.update_item lower s i n q a now) db
        (Members.update_item-Consistent lower s i n q a now db h) h
  apply-Consistent (Request.participate s t n u q id now) db h =
      commit-keeps Consistent (Ops.participate lower s t n u q id now) db
        (Members.participate-Consistent lower s t n u q id now db h) h
  apply-Consistent (Request.deliver s t n u q now) db h =
      commit-keeps Consistent (Ops.deliver lower s t n u q now) db
        (Members.deliver-Consistent lower s t n u q now db h) h
  apply-Consistent (Request.release s t n u q a now) db h =
      commit-keeps Consistent (Ops.release lower s t n u q a now) db
        (Members.release-Consistent lower s t n u q a now db h) h
  apply-Consistent (Request.deliver_by_item s i u q a now) db h =
      commit-keeps Consistent (Ops.deliver_by_item s i u q a now) db
        (Members.deliver_by_item-Consistent s i u q a now db h) h
  apply-Consistent (Request.set_reservation s i u q a now) db h =
      commit-keeps Consistent (Ops.set_reservation_by_item s i u q a now) db
        (Members.set_reservation_by_item-Consistent s i u q a now db h) h
  apply-Consistent (Request.remove_reservation s i u a now) db h =
      commit-keeps Consistent (Ops.remove_reservation s i u a now) db
        (Members.remove_reservation-Consistent s i u a now db h) h
  apply-Consistent (Request.update_details s c t d a now) db h =
      commit-keeps Consistent (Edits.update_details s c t d a now) db
        (Requests.update_details-Consistent s c t d a now db h) h
  apply-Consistent (Request.set_deadline s c d a now) db h =
      commit-keeps Consistent (Edits.set_deadline s c d a now) db
        (Requests.set_deadline-Consistent s c d a now db h) h
  apply-Consistent (Request.update_rewards s c cr f rep lp a now) db h =
      commit-keeps Consistent (Edits.update_rewards s c cr f rep lp a now) db
        (Requests.update_rewards-Consistent s c cr f rep lp a now db h) h
  apply-Consistent (Request.set_location s c g v a now) db h =
      commit-keeps Consistent (Edits.set_delivery_location s c g v a now) db
        (Requests.set_delivery_location-Consistent s c g v a now db h) h
  apply-Consistent (Request.cancel s c a now) db h =
      commit-keeps Consistent (Lifecycle.cancel_by_id s c a now) db
        (Requests.cancel_by_id-Consistent s c a now db h) h
  apply-Consistent (Request.mark_expired c now) db h =
      commit-keeps Consistent (Lifecycle.mark_expired c now) db
        (Requests.mark_expired-Consistent c now db h) h
  apply-Consistent (Request.mark_notified c now) db h =
      commit-keeps Consistent (Lifecycle.mark_notified c now) db
        (Requests.mark_notified-Consistent c now db h) h
  apply-Consistent (Request.set_thread c t now) db h =
      commit-keeps Consistent (Lifecycle.set_thread_id c t now) db
        (Requests.set_thread_id-Consistent c t now db h) h
  apply-Consistent (Request.recreate_post c now) db h =
      commit-keeps Consistent (Lifecycle.recreate_post c now) db
        (Requests.recreate_post-Consistent c now db h) h
  apply-Consistent (Request.republish s c) db h =
      commit-keeps Consistent (Lifecycle.republish s c) db (Requests.republish-Consistent s c db h)
        h
  apply-Consistent (Request.save_payouts c ps d now) db h =
      commit-keeps Consistent (PayoutTable.save_payouts c ps d now) db
        (Requests.save_payouts-Consistent c ps d now db h) h
  apply-Consistent (Request.mark_posted c ch m now) db h =
      commit-keeps Consistent (PayoutTable.mark_payout_posted c ch m now) db
        (Requests.mark_payout_posted-Consistent c ch m now db h) h
  apply-Consistent (Request.request_repost s c) db h =
      commit-keeps Consistent (PayoutTable.request_payout_repost s c) db
        (Requests.request_payout_repost-Consistent s c db h) h
  apply-Consistent (Request.mark_paid s c a now) db h =
      commit-keeps Consistent (PayoutTable.mark_payouts_paid s c a now) db
        (Requests.mark_payouts_paid-Consistent s c a now db h) h

  -- Whatever requests come in whatever order: a contract has exactly one initial payout request if
  -- it is completed with a credit reward and none otherwise, a contract without a thread has a
  -- request to create its post, a contract that is not open has a request to close its post,
  -- `closed_at` is set exactly on the contracts that are not open, only completed contracts are
  -- paid out, and no two contracts share an identifier.
  pub run-Consistent :
      (rs : List Request) (db : Db) → Consistent db → Consistent (run lower fold rs db)
  unfolding run
  run-Consistent [] db h = h
  run-Consistent (r ∷ rs) db h = run-Consistent rs (apply lower fold r db) (apply-Consistent r db h)
