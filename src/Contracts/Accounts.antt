-- ===== src/Contracts/Accounts.antt =====
-- What Participate, Deliver and Release change in the sums of an item: the books of the members.
use spacecraft_corporation.Prelude.{
  ℕ, ◌+◌, ◌-◌, ◌<◌, ◌≤◌, ◌⊎◌, leb, String, ◌≡◌, refl, sym, subst, Bool, true, false, ◌&&◌, inl, inr,
  some, List, ◌∷◌, arith, ◌==◌, Bool-cases,
}
use spacecraft_corporation.Prelude.Rows.{
  select?, exists, update_where, delete_where, sum_by-update, sum_by-delete, IsKeyed, exists-true,
  select?_test, select?_key,
}
use spacecraft_corporation.Prelude.Tx.{ok, err, ◌>>=◌}
use spacecraft_corporation.Contracts.Model.{Contract, Item, Reservation, Error, Db}
use spacecraft_corporation.Contracts.Guards.{
  touch, enqueue_refresh, enqueue_close, lock_open_contract, lock_item, lock_reservation,
  reserved_on, delivered_on, reserved_total, delivered_total, set_contract,
}
use spacecraft_corporation.Contracts.Members
use spacecraft_corporation.Contracts.Members.{same_member}
use spacecraft_corporation.Reservations.Sound.{reservation_id, is_row_of}
use spacecraft_corporation.Reservations.Writes.{update-member}
use spacecraft_corporation.Contracts.Sound.Requests.{
  Sound, lock_reservation-found, lock_reservation-item,
}

-- Between two states of the reservations, the reserved sum of `item` grows by `more` and shrinks by
-- `less`, its delivered sum grows by `brought`, and the sums of every other item stay.
pub record Books (item more less brought : ℕ) (rs new : List Reservation) : Type 0 where
  pub reserved : reserved_total item new + less ≡ reserved_total item rs + more
  pub delivered : delivered_total item new ≡ delivered_total item rs + brought
  pub reserved_other : (k : ℕ) → (k == item) ≡ false → reserved_total k new ≡ reserved_total k rs
  pub delivered_other : (k : ℕ) → (k == item) ≡ false → delivered_total k new ≡ delivered_total k rs

pay_if_rewarded-frame :
    (cid : ℕ) (db : Db) → (Members.pay_if_rewarded cid db).reservations ≡ db.reservations
unfolding Members.pay_if_rewarded
pay_if_rewarded-frame cid db =
    elim (Bool-cases
      (Members.is_rewarded? (select? (λ (c : Contract). c.id == cid) db.contracts))) [
        | inl h ↦ rw h refl
        | inr h ↦ rw h refl
      ]

finish-frame :
    (cid now : ℕ) (actor : String) (db : Db)
    → (Members.finish cid now actor db).reservations ≡ db.reservations
unfolding Members.finish enqueue_refresh touch enqueue_close
finish-frame cid now actor db = elim (Bool-cases (Members.all_delivered cid db)) [
  | inl h ↦ rw h (pay_if_rewarded-frame cid (set_contract cid (Members.completed_by actor now) db))
  | inr h ↦ rw h refl
]

-- One row `r` of the item changes, or goes.
module _ (item : ℕ) (rs : List Reservation) (keyed : IsKeyed reservation_id rs) (r : Reservation)
    (here : select? (is_row_of r.id) rs ≡ some r) (on : r.items_id ≡ item)
    (more less brought : ℕ) where
  set-Books :
      (f : Reservation → Reservation)
      → (f r).items_id ≡ r.items_id
      → (f r).reserved_qty + less ≡ r.reserved_qty + more
      → (f r).delivered_qty ≡ r.delivered_qty + brought
      → Books item more less brought rs (update_where (is_row_of r.id) f rs)
  set-Books f same a b =
      let changed = λ (w : Reservation → ℕ). sum_by-update reservation_id w f r.id rs keyed here in
      record {
        reserved = ground (arith, changed (reserved_on item));
        delivered = ground (arith, changed (delivered_on item));
        reserved_other = λ k ne. ground (arith, changed (reserved_on k));
        delivered_other = λ k ne. ground (arith, changed (delivered_on k));
      }

  delete-Books :
      less ≡ r.reserved_qty + more
      → r.delivered_qty + brought ≡ 0
      → Books item more less brought rs (delete_where (is_row_of r.id) rs)
  delete-Books a b =
      let changed = λ (w : Reservation → ℕ). sum_by-delete reservation_id w r.id rs keyed here in
      record {
        reserved = ground (arith, changed (reserved_on item));
        delivered = ground (arith, changed (delivered_on item));
        reserved_other = λ k ne. ground (arith, changed (reserved_on k));
        delivered_other = λ k ne. ground (arith, changed (delivered_on k));
      }

new-Books :
    (id item : ℕ) (user : String) (qty now : ℕ) (rs : List Reservation)
    → Books item qty 0 0 rs (Members.new_reservation id item user qty now ∷ rs)
new-Books id item user qty now rs = record {
  reserved = ground arith;
  delivered = ground arith;
  reserved_other = λ k ne. ground arith;
  delivered_other = λ k ne. ground arith;
}

upsert-Books :
    (id item : ℕ) (user : String) (qty now : ℕ) (db : Db)
    → Sound db
    → Books item qty 0 0 db.reservations
        (Members.upsert_reservation id item user qty now db).reservations
unfolding Members.upsert_reservation
upsert-Books id item user qty now db s =
    elim (Bool-cases (exists (same_member item user) db.reservations)) [
      | inl h ↦
          let r = (exists-true (same_member item user) db.reservations h).0 in
          let e : select? (same_member item user) db.reservations ≡ some r =
            (exists-true (same_member item user) db.reservations h).1 in
          let on : r.items_id ≡ item = ground (
            arith,
            select?_test reservation_id (same_member item user) {r = r} db.reservations e,
          ) in
          rw
            (
              h,
              update-member item user (Members.reserve_more qty user now) db.reservations
                  s.reservations_keyed s.one_row e,
            )
            (set-Books item db.reservations s.reservations_keyed r
              (select?_key reservation_id (same_member item user) db.reservations
                s.reservations_keyed e)
              on qty 0 0 (Members.reserve_more qty user now) refl (omega arith) (omega arith))
      | inr h ↦ rw h (new-Books id item user qty now db.reservations)
    ]

shrink-Books :
    (item qty less : ℕ) (actor : String) (now : ℕ) (db : Db) (r : Reservation)
    → Sound db
    → select? (is_row_of r.id) db.reservations ≡ some r
    → r.items_id ≡ item
    → qty + less ≡ r.reserved_qty
    → Books item 0 less 0 db.reservations
        (Members.shrink_reservation r qty actor now db).reservations
unfolding Members.shrink_reservation
shrink-Books item qty less actor now db r s here on e =
    elim (Bool-cases ((qty == 0) && (r.delivered_qty == 0))) [
      | inl h ↦ rw h (
          delete-Books item db.reservations s.reservations_keyed r here on 0 less 0 (ground arith)
            (ground arith))
      | inr h ↦ rw h (
          set-Books item db.reservations s.reservations_keyed r here on 0 less 0
            (Members.reserve_exactly qty actor now) refl (omega arith) (omega arith))
    ]

module _ (lower : String → String) (server : ℕ) (thread name : String) (now : ℕ) (db : Db)
    (s : Sound db) (c : Contract) (lock : lock_open_contract server thread now db ≡ ok c)
    (it : Item) (found : lock_item lower c.id name db ≡ ok it) where
  participate-ok :
      (user : String) (qty id : ℕ)
      → Members.reservation_id_ok id it.id user db ≡ true
      → leb (qty + reserved_total it.id db.reservations) it.required_qty ≡ true
      → Members.participate lower server thread name user qty id now db
        ≡ ok (
          tt,
          enqueue_refresh c.id
              (touch c.id now user (Members.upsert_reservation id it.id user qty now db)),
        )
  unfolding Members.participate ◌>>=◌
  participate-ok user qty id fresh room = rw (lock, found, room, fresh) refl

  participate-over_cap :
      (user : String) (qty id : ℕ)
      → leb (qty + reserved_total it.id db.reservations) it.required_qty ≡ false
      → Members.participate lower server thread name user qty id now db ≡ err Error.over_cap
  unfolding Members.participate ◌>>=◌
  participate-over_cap user qty id full = rw (lock, found, full) refl

  -- On sound tables, when the server and thread find an open contract that is not past its deadline,
  -- the name finds an item of it, and the id of a new row is fresh: either the quantity and what is
  -- already reserved exceed the required quantity, and Participate fails with ErrOverCap; or they do
  -- not, it succeeds, the reserved sum of the item grows by exactly the quantity, and every other sum
  -- of reserved or delivered quantities stays.
  pub participate-Books :
      (user : String) (qty id : ℕ)
      → Members.reservation_id_ok id it.id user db ≡ true
      → ((it.required_qty < qty + reserved_total it.id db.reservations)
          × (Members.participate lower server thread name user qty id now db ≡ err Error.over_cap))
        ⊎ ((new : Db) × (qty + reserved_total it.id db.reservations ≤ it.required_qty)
            × (Members.participate lower server thread name user qty id now db ≡ ok (tt, new))
            × Books it.id qty 0 0 db.reservations new.reservations)
  unfolding touch enqueue_refresh
  participate-Books user qty id fresh =
      elim (Bool-cases (leb (qty + reserved_total it.id db.reservations) it.required_qty)) [
        | inl room ↦ inr (
          enqueue_refresh c.id
              (touch c.id now user (Members.upsert_reservation id it.id user qty now db)),
          ground (arith, room),
          participate-ok user qty id fresh room,
          upsert-Books id it.id user qty now db s,
        )
        | inr full ↦ inl (ground arith, participate-over_cap user qty id full)
      ]

  module _ (r : Reservation) (user : String) (own : lock_reservation it.id user db ≡ ok r)
      (qty : ℕ) where
    row_here : select? (is_row_of r.id) db.reservations ≡ some r
    row_here = lock_reservation-found it.id user db s.reservations_keyed own

    row_on : r.items_id ≡ it.id
    row_on = lock_reservation-item it.id user db s.reservations_keyed own

    abbrev delivered_db : Db
    delivered_db = Members.set_reservation r.id (Members.deliver_more qty user now) db

    deliver-ok :
        leb (qty + r.delivered_qty) r.reserved_qty ≡ true
        → Members.deliver lower server thread name user qty now db
          ≡ ok (Members.all_delivered c.id delivered_db, Members.finish c.id now user delivered_db)
    unfolding Members.deliver Members.finish_if_complete ◌>>=◌
    deliver-ok enough = rw (lock, found, own, enough) refl

    deliver-over :
        leb (qty + r.delivered_qty) r.reserved_qty ≡ false
        → Members.deliver lower server thread name user qty now db ≡ err Error.over_reserved
    unfolding Members.deliver ◌>>=◌
    deliver-over short = rw (lock, found, own, short) refl

    -- On sound tables, when the thread, the item name and the member find an open contract that is
    -- not past its deadline, an item and a reservation: either more would be delivered than is
    -- reserved, and Deliver fails with ErrOverReserved; or not, it succeeds, the delivered sum of the
    -- item grows by exactly the quantity and every other sum of reserved or delivered quantities
    -- stays.
    pub deliver-Books :
        ((r.reserved_qty < qty + r.delivered_qty)
          × (Members.deliver lower server thread name user qty now db ≡ err Error.over_reserved))
        ⊎ ((done : Bool) × (new : Db) × (qty + r.delivered_qty ≤ r.reserved_qty)
            × (Members.deliver lower server thread name user qty now db ≡ ok (done, new))
            × Books it.id 0 0 qty db.reservations new.reservations)
    deliver-Books = elim (Bool-cases (leb (qty + r.delivered_qty) r.reserved_qty)) [
      | inl enough ↦ inr (
        Members.all_delivered c.id delivered_db,
        Members.finish c.id now user delivered_db,
        ground (arith, enough),
        deliver-ok enough,
        subst (λ rs. Books it.id 0 0 qty db.reservations rs)
            (sym (finish-frame c.id now user delivered_db))
            (set-Books it.id db.reservations s.reservations_keyed r row_here row_on 0 0 qty
              (Members.deliver_more qty user now) refl refl (omega arith)),
      )
      | inr short ↦ inl (ground arith, deliver-over short)
    ]

    release-ok :
        (actor : String)
        → leb (qty + r.delivered_qty) r.reserved_qty ≡ true
        → Members.release lower server thread name user qty actor now db
          ≡ ok (
            tt,
            enqueue_refresh c.id (
                touch c.id now actor
                  (Members.shrink_reservation r (r.reserved_qty - qty) actor now db)),
          )
    unfolding Members.release ◌>>=◌
    release-ok actor enough = rw (lock, found, own, enough) refl

    release-below :
        (actor : String)
        → leb (qty + r.delivered_qty) r.reserved_qty ≡ false
        → Members.release lower server thread name user qty actor now db ≡ err Error.below_delivered
    unfolding Members.release ◌>>=◌
    release-below actor short = rw (lock, found, own, short) refl

    -- On sound tables, when the thread, the item name and the target find an open contract that is
    -- not past its deadline, an item and a reservation: either less would stay reserved than is
    -- delivered, and Release fails with ErrBelowDelivered; or not, it succeeds, the reserved sum of
    -- the item shrinks by exactly the quantity and every other sum of reserved or delivered
    -- quantities stays.
    pub release-Books :
        (actor : String)
        → ((r.reserved_qty < qty + r.delivered_qty)
            × (Members.release lower server thread name user qty actor now db
                ≡ err Error.below_delivered))
          ⊎ ((new : Db) × (qty + r.delivered_qty ≤ r.reserved_qty)
              × (Members.release lower server thread name user qty actor now db ≡ ok (tt, new))
              × Books it.id 0 qty 0 db.reservations new.reservations)
    unfolding touch enqueue_refresh
    release-Books actor = elim (Bool-cases (leb (qty + r.delivered_qty) r.reserved_qty)) [
      | inl enough ↦ inr (
        enqueue_refresh c.id (
            touch c.id now actor
              (Members.shrink_reservation r (r.reserved_qty - qty) actor now db)),
        ground (arith, enough),
        release-ok actor enough,
        shrink-Books it.id (r.reserved_qty - qty) qty actor now db r s row_here row_on
            (ground arith),
      )
      | inr short ↦ inl (ground arith, release-below actor short)
    ]
