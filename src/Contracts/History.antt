-- ===== src/Contracts/History.antt =====
-- Every state-changing method of the repository as one request, and a history of requests. Each
-- transaction locks the contract that it changes, so concurrent calls take effect one after
-- another: a history is one of their orders. The time is an argument of each request.
use spacecraft_corporation.Prelude.{ℕ, String, Option, List, [], ◌∷◌}
use spacecraft_corporation.Prelude.Tx.{commit}
use spacecraft_corporation.Contracts.Model.{Db}
use spacecraft_corporation.Contracts.Items
use spacecraft_corporation.Contracts.Members
use spacecraft_corporation.Contracts.Create
use spacecraft_corporation.Contracts.Edits
use spacecraft_corporation.Contracts.Lifecycle
use spacecraft_corporation.Contracts.Create.{CreateInput}
use spacecraft_corporation.Contracts.PayoutTable
use spacecraft_corporation.Contracts.PayoutTable.{Payout}

pub data Request : Type 0 where
  create : CreateInput → (id now : ℕ) → Request
  add_item :
      (server cid : ℕ) (name gdid gd_version : String) (aliases : List String) (qty limit : ℕ)
      (actor : String) (id now : ℕ)
      → Request
  link_item :
      (server item : ℕ) (gdid gd_version : String) (aliases : List String) (actor : String)
      (now : ℕ)
      → Request
  remove_item : (server item : ℕ) (actor : String) (now : ℕ) → Request
  update_item : (server item : ℕ) (name : String) (qty : ℕ) (actor : String) (now : ℕ) → Request
  participate : (server : ℕ) (thread name user : String) (qty id now : ℕ) → Request
  deliver : (server : ℕ) (thread name user : String) (qty now : ℕ) → Request
  release :
      (server : ℕ) (thread name target : String) (qty : ℕ) (actor : String) (now : ℕ) → Request
  deliver_by_item :
      (server item : ℕ) (target : String) (qty : ℕ) (actor : String) (now : ℕ) → Request
  set_reservation :
      (server item : ℕ) (target : String) (qty : ℕ) (actor : String) (now : ℕ) → Request
  remove_reservation : (server item : ℕ) (target actor : String) (now : ℕ) → Request
  update_details : (server cid : ℕ) (title description actor : String) (now : ℕ) → Request
  set_deadline : (server cid : ℕ) (deadline : Option ℕ) (actor : String) (now : ℕ) → Request
  update_rewards :
      (server cid : ℕ) (credits : Option ℕ) (factor : ℕ) (reputation licence_points : Option ℕ)
      (actor : String) (now : ℕ)
      → Request
  set_location : (server cid : ℕ) (gdid gd_version actor : String) (now : ℕ) → Request
  cancel : (server cid : ℕ) (actor : String) (now : ℕ) → Request
  mark_expired : (cid now : ℕ) → Request
  mark_notified : (cid now : ℕ) → Request
  set_thread : (cid : ℕ) (thread : String) (now : ℕ) → Request
  recreate_post : (cid now : ℕ) → Request
  republish : (server cid : ℕ) → Request
  save_payouts : (cid : ℕ) → List Payout → (decimals now : ℕ) → Request
  mark_posted : (cid : ℕ) (channel message : String) (now : ℕ) → Request
  request_repost : (server cid : ℕ) → Request
  mark_paid : (server cid : ℕ) (actor : String) (now : ℕ) → Request

module _ (lower fold : String → String) where
  -- The tables after one request, whatever it returned.
  unfoldable pub apply : Request → Db → Db
  apply (Request.create inp id now) db = (commit (Create.create lower inp id now) db).1
  apply (Request.add_item s c n g v al q limit a id now) db =
      (commit (Items.add_item_by_id lower fold s c n g v al q limit a id now) db).1
  apply (Request.link_item s i g v al a now) db =
      (commit (Items.link_item_gdid lower fold s i g v al a now) db).1
  apply (Request.remove_item s i a now) db = (commit (Items.remove_item_by_id s i a now) db).1
  apply (Request.update_item s i n q a now) db =
      (commit (Items.update_item lower s i n q a now) db).1
  apply (Request.participate s t n u q id now) db =
      (commit (Members.participate lower s t n u q id now) db).1
  apply (Request.deliver s t n u q now) db = (commit (Members.deliver lower s t n u q now) db).1
  apply (Request.release s t n u q a now) db = (commit (Members.release lower s t n u q a now) db).1
  apply (Request.deliver_by_item s i u q a now) db =
      (commit (Members.deliver_by_item s i u q a now) db).1
  apply (Request.set_reservation s i u q a now) db =
      (commit (Members.set_reservation_by_item s i u q a now) db).1
  apply (Request.remove_reservation s i u a now) db =
      (commit (Members.remove_reservation s i u a now) db).1
  apply (Request.update_details s c t d a now) db =
      (commit (Edits.update_details s c t d a now) db).1
  apply (Request.set_deadline s c d a now) db = (commit (Edits.set_deadline s c d a now) db).1
  apply (Request.update_rewards s c cr f rep lp a now) db =
      (commit (Edits.update_rewards s c cr f rep lp a now) db).1
  apply (Request.set_location s c g v a now) db =
      (commit (Edits.set_delivery_location s c g v a now) db).1
  apply (Request.cancel s c a now) db = (commit (Lifecycle.cancel_by_id s c a now) db).1
  apply (Request.mark_expired c now) db = (commit (Lifecycle.mark_expired c now) db).1
  apply (Request.mark_notified c now) db = (commit (Lifecycle.mark_notified c now) db).1
  apply (Request.set_thread c t now) db = (commit (Lifecycle.set_thread_id c t now) db).1
  apply (Request.recreate_post c now) db = (commit (Lifecycle.recreate_post c now) db).1
  apply (Request.republish s c) db = (commit (Lifecycle.republish s c) db).1
  apply (Request.save_payouts c ps d now) db = (commit (PayoutTable.save_payouts c ps d now) db).1
  apply (Request.mark_posted c ch m now) db =
      (commit (PayoutTable.mark_payout_posted c ch m now) db).1
  apply (Request.request_repost s c) db = (commit (PayoutTable.request_payout_repost s c) db).1
  apply (Request.mark_paid s c a now) db = (commit (PayoutTable.mark_payouts_paid s c a now) db).1

  unfoldable pub run : List Request → Db → Db
  unfolding apply
  run [] db = db
  run (r ∷ rs) db = run rs (apply r db)
