-- ===== src/Contracts/Sound/History.antt =====
-- The remaining methods do not write to items and reservations; every history keeps the invariant.
use spacecraft_corporation.Prelude.{
  ℕ, ◌==◌, ◌&&◌, String, inl, inr, Option, List, [], ◌∷◌, Bool-cases,
}
use spacecraft_corporation.Prelude.Rows.{exists}
use spacecraft_corporation.Prelude.Tx.{
  Ensures-reads, Ensures-check, Ensures-write, Ensures-bind, Ensures-pure, Ensures-ok, tx_rules,
  commit-keeps,
}
use spacecraft_corporation.Contracts.Model.{Contract, Db, is_open}
use spacecraft_corporation.Contracts.Guards.{
  enqueue_refresh, enqueue_close, enqueue_notify, enqueue_payout,
}
use spacecraft_corporation.Contracts.Items
use spacecraft_corporation.Contracts.Members as Ops
use spacecraft_corporation.Contracts.Create
use spacecraft_corporation.Contracts.Edits
use spacecraft_corporation.Contracts.Lifecycle
use spacecraft_corporation.Contracts.PayoutTable
use spacecraft_corporation.Contracts.PayoutTable.{Payout}
use spacecraft_corporation.Contracts.History.{Request, apply, run}
use spacecraft_corporation.Contracts.Sound.Requests
use spacecraft_corporation.Contracts.Sound.Requests.{Sound, KeepsSound}
use spacecraft_corporation.Contracts.Sound.Members

update_details-Sound :
    (server cid : ℕ) (title description actor : String) (now : ℕ)
    → KeepsSound (Edits.update_details server cid title description actor now)
unfolding Edits.update_details enqueue_refresh
update_details-Sound server cid title description actor now db s = search tx_rules depth 8

set_deadline-Sound :
    (server cid : ℕ) (deadline : Option ℕ) (actor : String) (now : ℕ)
    → KeepsSound (Edits.set_deadline server cid deadline actor now)
unfolding Edits.set_deadline enqueue_refresh
set_deadline-Sound server cid deadline actor now db s = search tx_rules depth 8

update_rewards-Sound :
    (server cid : ℕ) (credits : Option ℕ) (factor : ℕ) (reputation licence_points : Option ℕ)
    → (actor : String) (now : ℕ)
    → KeepsSound
        (Edits.update_rewards server cid credits factor reputation licence_points actor now)
unfolding Edits.update_rewards enqueue_refresh
update_rewards-Sound server cid credits factor reputation licence_points actor now db s =
    search tx_rules depth 8

set_delivery_location-Sound :
    (server cid : ℕ) (gdid gd_version actor : String) (now : ℕ)
    → KeepsSound (Edits.set_delivery_location server cid gdid gd_version actor now)
unfolding Edits.set_delivery_location enqueue_refresh
set_delivery_location-Sound server cid gdid gd_version actor now db s = search tx_rules depth 8

cancel_by_id-Sound :
    (server cid : ℕ) (actor : String) (now : ℕ)
    → KeepsSound (Lifecycle.cancel_by_id server cid actor now)
unfolding Lifecycle.cancel_by_id enqueue_close
cancel_by_id-Sound server cid actor now db s = search tx_rules depth 8

set_thread_id-Sound :
    (cid : ℕ) (thread : String) (now : ℕ) → KeepsSound (Lifecycle.set_thread_id cid thread now)
unfolding Lifecycle.set_thread_id
set_thread_id-Sound cid thread now db s = search tx_rules depth 8

recreate_post-Sound : (cid now : ℕ) → KeepsSound (Lifecycle.recreate_post cid now)
unfolding Lifecycle.recreate_post
recreate_post-Sound cid now db s = search tx_rules depth 8

mark_payout_posted-Sound :
    (cid : ℕ) (channel message : String) (now : ℕ)
    → KeepsSound (PayoutTable.mark_payout_posted cid channel message now)
unfolding PayoutTable.mark_payout_posted
mark_payout_posted-Sound cid channel message now db s = search tx_rules depth 8

request_payout_repost-Sound :
    (server cid : ℕ) → KeepsSound (PayoutTable.request_payout_repost server cid)
unfolding PayoutTable.request_payout_repost enqueue_payout
request_payout_repost-Sound server cid db s = search tx_rules depth 8

republish-Sound : (server cid : ℕ) → KeepsSound (Lifecycle.republish server cid)
unfolding Lifecycle.republish enqueue_refresh enqueue_close
republish-Sound server cid db s = Ensures-reads _ _ db λ c _. Ensures-write _ _ db (
    Ensures-pure _ _ (elim (Bool-cases (Lifecycle.has_no_thread c)) [
      | inl h ↦ rw h s
      | inr h ↦ rw h (elim (Bool-cases (is_open c.status)) [ inl o ↦ rw o s | inr o ↦ rw o s ])
    ]))

mark_expired-Sound : (cid now : ℕ) → KeepsSound (Lifecycle.mark_expired cid now)
unfolding Lifecycle.mark_expired enqueue_close
mark_expired-Sound cid now db s =
    elim (Bool-cases
      (exists (λ (c : Contract). (c.id == cid) && Lifecycle.is_due now c) db.contracts)) [
        | inl h ↦ rw h (search tx_rules)
        | inr h ↦ rw h (Ensures-ok _ db s)
      ]

mark_notified-Sound : (cid now : ℕ) → KeepsSound (Lifecycle.mark_notified cid now)
unfolding Lifecycle.mark_notified enqueue_notify
mark_notified-Sound cid now db s =
    elim (Bool-cases (exists (Lifecycle.may_notify cid db) db.contracts)) [
      | inl h ↦ rw h (search tx_rules)
      | inr h ↦ rw h (Ensures-ok _ db s)
    ]

insert_payout-Sound :
    (cid now : ℕ) (p : Payout) (db : Db) → Sound db → Sound (PayoutTable.insert_payout cid now p db)
unfolding PayoutTable.insert_payout
insert_payout-Sound cid now p db s =
    elim (Bool-cases (exists (PayoutTable.payout_of cid p.user_id) db.payouts)) [
      | inl h ↦ rw h s
      | inr h ↦ rw h s
    ]

insert_payouts-Sound :
    (cid now : ℕ) (ps : List Payout) → KeepsSound (PayoutTable.insert_payouts cid now ps)
unfolding PayoutTable.insert_payouts
insert_payouts-Sound cid now [] db s = Ensures-pure tt db s
insert_payouts-Sound cid now (p ∷ ps) db s = Ensures-check _ _ _ db λ _.
    Ensures-write _ _ db (insert_payouts-Sound cid now ps _ (insert_payout-Sound cid now p db s))

save_payouts-Sound :
    (cid : ℕ) (ps : List Payout) (decimals now : ℕ)
    → KeepsSound (PayoutTable.save_payouts cid ps decimals now)
unfolding PayoutTable.save_payouts
save_payouts-Sound cid ps decimals now db s =
    Ensures-bind _ (λ _ db'. Sound db') _ db (insert_payouts-Sound cid now ps db s)
      λ _ db' s'. search tx_rules

mark_payouts_paid-Sound :
    (server cid : ℕ) (actor : String) (now : ℕ)
    → KeepsSound (PayoutTable.mark_payouts_paid server cid actor now)
unfolding PayoutTable.mark_payouts_paid
mark_payouts_paid-Sound server cid actor now db s = Ensures-ok _ _ s

module _ (lower fold : String → String) where
  pub apply-Sound : (r : Request) (db : Db) → Sound db → Sound (apply lower fold r db)
  unfolding apply
  apply-Sound (Request.create inp id now) db sound =
      commit-keeps Sound (Create.create lower inp id now) db
        (Requests.create-Sound lower inp id now db sound) sound
  apply-Sound (Request.add_item s c n g v al q limit a id now) db sound =
      commit-keeps Sound (Items.add_item_by_id lower fold s c n g v al q limit a id now) db
        (Requests.add_item_by_id-Sound lower fold s c n g v al q limit a id now db sound) sound
  apply-Sound (Request.link_item s i g v al a now) db sound =
      commit-keeps Sound (Items.link_item_gdid lower fold s i g v al a now) db
        (Requests.link_item_gdid-Sound lower fold s i g v al a now db sound) sound
  apply-Sound (Request.remove_item s i a now) db sound =
      commit-keeps Sound (Items.remove_item_by_id s i a now) db
        (Requests.remove_item_by_id-Sound s i a now db sound) sound
  apply-Sound (Request.update_item s i n q a now) db sound =
      commit-keeps Sound (Items.update_item lower s i n q a now) db
        (Requests.update_item-Sound lower s i n q a now db sound) sound
  apply-Sound (Request.participate s t n u q id now) db sound =
      commit-keeps Sound (Ops.participate lower s t n u q id now) db
        (Members.participate-Sound lower s t n u q id now db sound) sound
  apply-Sound (Request.deliver s t n u q now) db sound =
      commit-keeps Sound (Ops.deliver lower s t n u q now) db
        (Members.deliver-Sound lower s t n u q now db sound) sound
  apply-Sound (Request.release s t n u q a now) db sound =
      commit-keeps Sound (Ops.release lower s t n u q a now) db
        (Members.release-Sound lower s t n u q a now db sound) sound
  apply-Sound (Request.deliver_by_item s i u q a now) db sound =
      commit-keeps Sound (Ops.deliver_by_item s i u q a now) db
        (Members.deliver_by_item-Sound s i u q a now db sound) sound
  apply-Sound (Request.set_reservation s i u q a now) db sound =
      commit-keeps Sound (Ops.set_reservation_by_item s i u q a now) db
        (Members.set_reservation_by_item-Sound s i u q a now db sound) sound
  apply-Sound (Request.remove_reservation s i u a now) db sound =
      commit-keeps Sound (Ops.remove_reservation s i u a now) db
        (Members.remove_reservation-Sound s i u a now db sound) sound
  apply-Sound (Request.update_details s c t d a now) db sound =
      commit-keeps Sound (Edits.update_details s c t d a now) db
        (update_details-Sound s c t d a now db sound) sound
  apply-Sound (Request.set_deadline s c d a now) db sound =
      commit-keeps Sound (Edits.set_deadline s c d a now) db
        (set_deadline-Sound s c d a now db sound) sound
  apply-Sound (Request.update_rewards s c cr f rep lp a now) db sound =
      commit-keeps Sound (Edits.update_rewards s c cr f rep lp a now) db
        (update_rewards-Sound s c cr f rep lp a now db sound) sound
  apply-Sound (Request.set_location s c g v a now) db sound =
      commit-keeps Sound (Edits.set_delivery_location s c g v a now) db
        (set_delivery_location-Sound s c g v a now db sound) sound
  apply-Sound (Request.cancel s c a now) db sound =
      commit-keeps Sound (Lifecycle.cancel_by_id s c a now) db
        (cancel_by_id-Sound s c a now db sound) sound
  apply-Sound (Request.mark_expired c now) db sound =
      commit-keeps Sound (Lifecycle.mark_expired c now) db (mark_expired-Sound c now db sound) sound
  apply-Sound (Request.mark_notified c now) db sound =
      commit-keeps Sound (Lifecycle.mark_notified c now) db (mark_notified-Sound c now db sound)
        sound
  apply-Sound (Request.set_thread c t now) db sound =
      commit-keeps Sound (Lifecycle.set_thread_id c t now) db (set_thread_id-Sound c t now db sound)
        sound
  apply-Sound (Request.recreate_post c now) db sound =
      commit-keeps Sound (Lifecycle.recreate_post c now) db (recreate_post-Sound c now db sound)
        sound
  apply-Sound (Request.republish s c) db sound =
      commit-keeps Sound (Lifecycle.republish s c) db (republish-Sound s c db sound) sound
  apply-Sound (Request.save_payouts c ps d now) db sound =
      commit-keeps Sound (PayoutTable.save_payouts c ps d now) db
        (save_payouts-Sound c ps d now db sound) sound
  apply-Sound (Request.mark_posted c ch m now) db sound =
      commit-keeps Sound (PayoutTable.mark_payout_posted c ch m now) db
        (mark_payout_posted-Sound c ch m now db sound) sound
  apply-Sound (Request.request_repost s c) db sound =
      commit-keeps Sound (PayoutTable.request_payout_repost s c) db
        (request_payout_repost-Sound s c db sound) sound
  apply-Sound (Request.mark_paid s c a now) db sound =
      commit-keeps Sound (PayoutTable.mark_payouts_paid s c a now) db
        (mark_payouts_paid-Sound s c a now db sound) sound

  -- Whatever requests come in whatever order, valid or not: no member has delivered more than
  -- reserved, no item is reserved beyond its required quantity, a member has one row on an item,
  -- identifiers are unique, and nothing is reserved on an item that is not there.
  pub run-Sound : (rs : List Request) (db : Db) → Sound db → Sound (run lower fold rs db)
  unfolding run
  run-Sound [] db s = s
  run-Sound (r ∷ rs) db s = run-Sound rs (apply lower fold r db) (apply-Sound r db s)
