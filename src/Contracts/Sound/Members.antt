-- ===== src/Contracts/Sound/Members.antt =====
-- The methods on reservations keep the invariant of items and reservations.
use spacecraft_corporation.Prelude.{
  ℕ, ◌+◌, ◌-◌, ◌≤◌, String, ◌≡◌, true, ◌&&◌, inl, inr, some, arith, ◌==◌, Bool-cases,
}
use spacecraft_corporation.Prelude.Rows.{exists, select?}
use spacecraft_corporation.Prelude.Tx.{
  ok, Ensures-bind, Ensures-reads, Ensures-gets, Ensures-write, Ensures-guard, Ensures-check,
  Ensures-pure, tx_rules,
}
use spacecraft_corporation.Contracts.Model.{Contract, Item, Reservation, Db}
use spacecraft_corporation.Contracts.Guards.{
  lock_reservation, touch, enqueue_refresh, enqueue_close, set_contract, reserved_total,
}
use spacecraft_corporation.Contracts.Members
use spacecraft_corporation.Contracts.Members.{reserved_by_others, same_member}
use spacecraft_corporation.Contracts.Sound.{is_item}
use spacecraft_corporation.Reservations.Locked.{
  reserved_total-split, locked_within, IsSound-reserve_exactly, IsSound-deliver_more,
}
use spacecraft_corporation.Reservations.Sound.{IsSound-delete, is_row_of}
use spacecraft_corporation.Reservations.Writes.{IsSound-upsert}
use spacecraft_corporation.Contracts.Sound.Requests.{
  Sound, KeepsSound, lock_item-found, lock_reservation-row, lock_by_item-found,
}

pub pay_if_rewarded-Sound : (cid : ℕ) (db : Db) → Sound db → Sound (Members.pay_if_rewarded cid db)
unfolding Members.pay_if_rewarded
pay_if_rewarded-Sound cid db s =
    elim (Bool-cases
      (Members.is_rewarded? (select? (λ (c : Contract). c.id == cid) db.contracts))) [
        | inl h ↦ rw h s
        | inr h ↦ rw h s
      ]

pub finish-Sound :
    (cid now : ℕ) (actor : String) (db : Db) → Sound db → Sound (Members.finish cid now actor db)
unfolding Members.finish enqueue_refresh touch enqueue_close
finish-Sound cid now actor db s = elim (Bool-cases (Members.all_delivered cid db)) [
  | inl h ↦
      rw h (pay_if_rewarded-Sound cid (set_contract cid (Members.completed_by actor now) db) s)
  | inr h ↦ rw h s
]

pub finish_if_complete-Sound :
    (cid now : ℕ) (actor : String) → KeepsSound (Members.finish_if_complete cid now actor)
unfolding Members.finish_if_complete
finish_if_complete-Sound cid now actor db s = search (tx_rules, finish-Sound)

-- The locked row of a member, on an item that is there.
module _ (item : ℕ) (user : String) (db : Db) (s : Sound db) {it : Item}
    (owner : select? (is_item item) db.items ≡ some it) (r : Reservation)
    (e : lock_reservation item user db ≡ ok r) where
  row : select? (same_member item user) db.reservations ≡ some r
  row = lock_reservation-row item user db s.reservations_keyed e

  pub within_locked : reserved_total item db.reservations ≤ it.required_qty
  within_locked = locked_within s item user owner r row

  pub shrink-Sound :
      (qty : ℕ) (actor : String) (now : ℕ)
      → r.delivered_qty ≤ qty
      → reserved_total item db.reservations + qty ≤ it.required_qty + r.reserved_qty
      → Sound (Members.shrink_reservation r qty actor now db)
  unfolding Members.shrink_reservation
  shrink-Sound qty actor now d w = elim (Bool-cases ((qty == 0) && (r.delivered_qty == 0))) [
    | inl h ↦ rw h (IsSound-delete s (is_row_of r.id))
    | inr h ↦ rw h (IsSound-reserve_exactly s item user owner r row qty actor now d w)
  ]

  pub deliver_more-Sound :
      (qty : ℕ) (actor : String) (now : ℕ)
      → qty + r.delivered_qty ≤ r.reserved_qty
      → Sound (Members.set_reservation r.id (Members.deliver_more qty actor now) db)
  deliver_more-Sound qty actor now d = IsSound-deliver_more s item user owner r row qty actor now d

pub upsert-Sound :
    (id k : ℕ) (user : String) (qty now : ℕ) (db : Db) {it : Item}
    → Sound db
    → select? (is_item k) db.items ≡ some it
    → reserved_total k db.reservations + qty ≤ it.required_qty
    → Members.reservation_id_ok id k user db ≡ true
    → Sound (Members.upsert_reservation id k user qty now db)
unfolding Members.upsert_reservation Members.reservation_id_ok
upsert-Sound id k user qty now db {it} s owner room fresh =
    let s' = IsSound-upsert s k user qty now owner room id fresh in
    elim (Bool-cases (exists (same_member k user) db.reservations)) [
      | inl h ↦ rw h (rw h at s')
      | inr h ↦ rw h (rw h at s')
    ]

module _ (lower : String → String) where
  pub participate-Sound :
      (server : ℕ) (thread name user : String) (qty id now : ℕ)
      → KeepsSound (Members.participate lower server thread name user qty id now)
  unfolding Members.participate touch enqueue_refresh
  participate-Sound server thread name user qty id now db s = Ensures-reads _ _ db λ c _.
      Ensures-reads _ _ db λ it found. Ensures-gets _ _ db (
        Ensures-guard _ _ _ db λ room. Ensures-check _ _ _ db λ fresh.
          let owner = lock_item-found lower c.id name db s.items_keyed found in
          let s' = upsert-Sound id it.id user qty now db s owner (ground arith) fresh in
          search (tx_rules, s') depth 8)

  pub deliver-Sound :
      (server : ℕ) (thread name user : String) (qty now : ℕ)
      → KeepsSound (Members.deliver lower server thread name user qty now)
  unfolding Members.deliver
  deliver-Sound server thread name user qty now db s = Ensures-reads _ _ db λ c _.
      Ensures-reads _ _ db λ it found. Ensures-reads _ _ db λ r locked. Ensures-guard _ _ _ db λ h.
        Ensures-write _ _ db (
          finish_if_complete-Sound c.id now user _ (
            deliver_more-Sound it.id user db s
              (lock_item-found lower c.id name db s.items_keyed found) r locked qty user now
              (ground arith)))

  pub release-Sound :
      (server : ℕ) (thread name target : String) (qty : ℕ) (actor : String) (now : ℕ)
      → KeepsSound (Members.release lower server thread name target qty actor now)
  unfolding Members.release touch enqueue_refresh
  release-Sound server thread name target qty actor now db s = Ensures-reads _ _ db λ c _.
      Ensures-reads _ _ db λ it found. Ensures-reads _ _ db λ r locked. Ensures-guard _ _ _ db λ h.
        (let owner = lock_item-found lower c.id name db s.items_keyed found in
          let s' =
            shrink-Sound it.id target db s owner r locked (r.reserved_qty - qty) actor now
              (ground arith) (omega (arith, within_locked it.id target db s owner r locked)) in
          search tx_rules depth 8)

pub deliver_by_item-Sound :
    (server item : ℕ) (target : String) (qty : ℕ) (actor : String) (now : ℕ)
    → KeepsSound (Members.deliver_by_item server item target qty actor now)
unfolding Members.deliver_by_item
deliver_by_item-Sound server item target qty actor now db s = Ensures-reads _ _ db λ c lock.
    Ensures-reads _ _ db λ r locked. Ensures-guard _ _ _ db λ h. Ensures-write _ _ db (
      Ensures-bind _ (λ _ db'. Sound db') _ _
        (finish_if_complete-Sound c.id now actor _ (
          deliver_more-Sound item target db s (lock_by_item-found server item now db lock).1 r
            locked qty actor now (ground arith)))
        λ _ db' s'. Ensures-pure _ db' s')

pub set_reservation_by_item-Sound :
    (server item : ℕ) (target : String) (qty : ℕ) (actor : String) (now : ℕ)
    → KeepsSound (Members.set_reservation_by_item server item target qty actor now)
unfolding Members.set_reservation_by_item touch enqueue_refresh
set_reservation_by_item-Sound server item target qty actor now db s = Ensures-reads _ _ db λ c lock.
    Ensures-check _ _ _ db λ _. Ensures-gets _ _ db (
      Ensures-reads _ _ db λ r locked. Ensures-guard _ _ _ db λ d. Ensures-check _ _ _ db λ w.
        let it : Item = (lock_by_item-found server item now db lock).0 in
        let owner : select? (is_item item) db.items ≡ some it =
          (lock_by_item-found server item now db lock).1 in
        let split =
          reserved_total-split item target db.reservations s.one_row
            (lock_reservation-row item target db s.reservations_keyed locked) in
        let room : qty + reserved_by_others item target db.reservations ≤ it.required_qty =
          ground arith in
        let s' =
          shrink-Sound item target db s owner r locked qty actor now (ground arith)
            (omega (arith, split, room)) in
        search (tx_rules, s') depth 8)

pub remove_reservation-Sound :
    (server item : ℕ) (target actor : String) (now : ℕ)
    → KeepsSound (Members.remove_reservation server item target actor now)
unfolding Members.remove_reservation touch enqueue_refresh
remove_reservation-Sound server item target actor now db s =
    let s' = IsSound-delete s (same_member item target) in search tx_rules depth 8
