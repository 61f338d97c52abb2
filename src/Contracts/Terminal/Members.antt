-- ===== src/Contracts/Terminal/Members.antt =====
-- No method on items and reservations changes the status of a contract that has ended.
use spacecraft_corporation.Prelude.{
  ℕ, ◌-◌, String, ◌≡◌, refl, true, ◌&&◌, inl, inr, some, List, arith, ◌==◌, Bool-cases,
}
use spacecraft_corporation.Prelude.Rows.{select?, exists}
use spacecraft_corporation.Prelude.Tx.{
  Tx, Ensures, Ensures-reads, Ensures-gets, Ensures-write, Ensures-guard, Ensures-check,
  Ensures-pure, Ensures-bind, tx_rules,
}
use spacecraft_corporation.Contracts.Model.{Status, is_open, Error, Contract, Item, Reservation, Db}
use spacecraft_corporation.Contracts.Guards.{
  touch, enqueue_refresh, enqueue_payout, enqueue_close, set_contract,
}
use spacecraft_corporation.Contracts.Items
use spacecraft_corporation.Contracts.Members
use spacecraft_corporation.Contracts.Members.{same_member}
use spacecraft_corporation.Contracts.Consistent.{is_contract}
use spacecraft_corporation.Contracts.Consistent.Locks.{
  lock_open_contract-LockedAt, lock_by_item-LockedAt,
}
use spacecraft_corporation.Contracts.Terminal.{Ended, complete-Ended, touch-Ended}

abbrev pub Keeps : (k : ℕ) (st : Status) {A : Type 0} → Tx Error Db A → Type 0
Keeps k st m = (db : Db) → Ended k st db → Ensures (m db) (λ _ db'. Ended k st db')

module _ (k : ℕ) (st : Status) where
  touched-Ended :
      (cid now : ℕ) (actor : String) (db : Db)
      → Ended k st db
      → Ended k st (enqueue_refresh cid (touch cid now actor db))
  unfolding enqueue_refresh
  touched-Ended cid now actor db h = touch-Ended k st cid now actor db h

  pay_if_rewarded-Ended :
      (cid : ℕ) (db : Db) → Ended k st db → Ended k st (Members.pay_if_rewarded cid db)
  unfolding Members.pay_if_rewarded enqueue_payout
  pay_if_rewarded-Ended cid db h =
      elim (Bool-cases
        (Members.is_rewarded? (select? (λ (c : Contract). c.id == cid) db.contracts))) [
          | inl e ↦ rw e h
          | inr e ↦ rw e h
        ]

  finish-Ended :
      (cid now : ℕ) (actor : String) (db : Db) {c : Contract}
      → select? (is_contract cid) db.contracts ≡ some c
      → is_open c.status ≡ true
      → Ended k st db
      → Ended k st (Members.finish cid now actor db)
  unfolding Members.finish enqueue_close
  finish-Ended cid now actor db {c} here opened h =
      elim (Bool-cases (Members.all_delivered cid db)) [
        | inl e ↦
            let h' =
              complete-Ended k st (is_contract cid) (Members.completed_by actor now) cid {c = c} db
                h here opened (λ x t. ground arith) (λ x. refl) in
            rw e
              (pay_if_rewarded-Ended cid (set_contract cid (Members.completed_by actor now) db) h')
        | inr e ↦ rw e (touched-Ended cid now actor db h)
      ]

  finish_if_complete-Ended :
      (cid now : ℕ) (actor : String) (db : Db) {c : Contract}
      → select? (is_contract cid) db.contracts ≡ some c
      → is_open c.status ≡ true
      → Ended k st db
      → Ensures (Members.finish_if_complete cid now actor db) (λ _ db'. Ended k st db')
  unfolding Members.finish_if_complete
  finish_if_complete-Ended cid now actor db {c} here opened h =
      let h' = finish-Ended cid now actor db {c = c} here opened h in search (tx_rules, h')

  upsert-Ended :
      (id item : ℕ) (user : String) (qty now : ℕ) (db : Db)
      → Ended k st db
      → Ended k st (Members.upsert_reservation id item user qty now db)
  unfolding Members.upsert_reservation
  upsert-Ended id item user qty now db h =
      elim (Bool-cases (exists (same_member item user) db.reservations)) [
        | inl e ↦ rw e h
        | inr e ↦ rw e h
      ]

  shrink-Ended :
      (r : Reservation) (qty : ℕ) (actor : String) (now : ℕ) (db : Db)
      → Ended k st db
      → Ended k st (Members.shrink_reservation r qty actor now db)
  unfolding Members.shrink_reservation
  shrink-Ended r qty actor now db h = elim (Bool-cases ((qty == 0) && (r.delivered_qty == 0))) [
    | inl e ↦ rw e h
    | inr e ↦ rw e h
  ]

  ruleset edits = (tx_rules, touched-Ended)

  module _ (lower : String → String) where
    pub participate-Ended :
        (server : ℕ) (thread name user : String) (qty id now : ℕ)
        → Keeps k st (Members.participate lower server thread name user qty id now)
    unfolding Members.participate
    participate-Ended server thread name user qty id now db h = Ensures-reads _ _ db λ c _.
        Ensures-reads _ _ db λ it _.
          let h' = upsert-Ended id it.id user qty now db h in
          let h2 =
            touched-Ended c.id now user (Members.upsert_reservation id it.id user qty now db) h' in
          search (tx_rules, h2) depth 10

    pub deliver-Ended :
        (server : ℕ) (thread name user : String) (qty now : ℕ)
        → Keeps k st (Members.deliver lower server thread name user qty now)
    unfolding Members.deliver
    deliver-Ended server thread name user qty now db h = Ensures-reads _ _ db λ c locked.
        Ensures-reads _ _ db λ it _. Ensures-reads _ _ db λ r _. Ensures-guard _ _ _ db λ _.
          let at = lock_open_contract-LockedAt now db h.keyed server thread locked in
          Ensures-write _ _ db (finish_if_complete-Ended c.id now user _ at.row at.opened h)

    pub release-Ended :
        (server : ℕ) (thread name target : String) (qty : ℕ) (actor : String) (now : ℕ)
        → Keeps k st (Members.release lower server thread name target qty actor now)
    unfolding Members.release
    release-Ended server thread name target qty actor now db h = Ensures-reads _ _ db λ c _.
        Ensures-reads _ _ db λ it _. Ensures-reads _ _ db λ r _.
          let h' = shrink-Ended r (r.reserved_qty - qty) actor now db h in
          let h2 =
            touched-Ended c.id now actor
              (Members.shrink_reservation r (r.reserved_qty - qty) actor now db) h' in
          search (tx_rules, h2) depth 10

  pub deliver_by_item-Ended :
      (server item : ℕ) (target : String) (qty : ℕ) (actor : String) (now : ℕ)
      → Keeps k st (Members.deliver_by_item server item target qty actor now)
  unfolding Members.deliver_by_item
  deliver_by_item-Ended server item target qty actor now db h = Ensures-reads _ _ db λ c locked.
      Ensures-reads _ _ db λ r _. Ensures-guard _ _ _ db λ _.
        let at = lock_by_item-LockedAt now db h.keyed server item locked in
        Ensures-write _ _ db (
          Ensures-bind _ (λ _ db'. Ended k st db') _ _
            (finish_if_complete-Ended c.id now actor _ at.row at.opened h)
            λ _ db' h'. Ensures-pure _ db' h')

  pub set_reservation_by_item-Ended :
      (server item : ℕ) (target : String) (qty : ℕ) (actor : String) (now : ℕ)
      → Keeps k st (Members.set_reservation_by_item server item target qty actor now)
  unfolding Members.set_reservation_by_item
  set_reservation_by_item-Ended server item target qty actor now db h = Ensures-reads _ _ db λ c _.
      Ensures-check _ _ _ db λ _. Ensures-gets _ _ db (
        Ensures-reads _ _ db λ r _.
          let h' = shrink-Ended r qty actor now db h in
          let h2 =
            touched-Ended c.id now actor (Members.shrink_reservation r qty actor now db) h' in
          search (tx_rules, h2) depth 10)

  pub remove_reservation-Ended :
      (server item : ℕ) (target actor : String) (now : ℕ)
      → Keeps k st (Members.remove_reservation server item target actor now)
  unfolding Members.remove_reservation
  remove_reservation-Ended server item target actor now db h = search edits depth 10

  pub insert_item-Ended :
      (lower : String → String) (row : Item) → Keeps k st (Items.insert_item lower row)
  unfolding Items.insert_item
  insert_item-Ended lower row db h = search tx_rules

  module _ (lower fold : String → String) where
    pub add_item_by_id-Ended :
        (server cid : ℕ) (name gdid gd_version : String) (aliases : List String)
        → (qty limit : ℕ) (actor : String) (id now : ℕ)
        → Keeps k st (
            Items.add_item_by_id lower fold server cid name gdid gd_version aliases qty limit actor
              id now)
    unfolding Items.add_item_by_id
    add_item_by_id-Ended server cid name gdid gd_version aliases qty limit actor id now db h =
        Ensures-reads _ _ db λ c e. Ensures-check _ _ _ db λ _. Ensures-check _ _ _ db λ _.
          Ensures-bind _ (λ _ db'. Ended k st db') _ db (insert_item-Ended lower _ db h)
            λ _ db' h'. search edits depth 10

    pub link_item_gdid-Ended :
        (server item : ℕ) (gdid gd_version : String) (aliases : List String) (actor : String)
        → (now : ℕ)
        → Keeps k st (Items.link_item_gdid lower fold server item gdid gd_version aliases actor now)
    unfolding Items.link_item_gdid
    link_item_gdid-Ended server item gdid gd_version aliases actor now db h = search edits depth 10

  pub remove_item_by_id-Ended :
      (server item : ℕ) (actor : String) (now : ℕ)
      → Keeps k st (Items.remove_item_by_id server item actor now)
  unfolding Items.remove_item_by_id
  remove_item_by_id-Ended server item actor now db h = search edits depth 10

  pub update_item-Ended :
      (lower : String → String) (server item : ℕ) (name : String) (qty : ℕ) (actor : String)
      → (now : ℕ) → Keeps k st (Items.update_item lower server item name qty actor now)
  unfolding Items.update_item
  update_item-Ended lower server item name qty actor now db h = search edits depth 10
