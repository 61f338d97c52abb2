-- ===== src/Supply/Members.antt =====
-- The panel's mutations, keyed by the thread and the item's gdid: Reserve, Deliver and Release of
-- postgres.go, and finishIfComplete. A quantity is positive, as parseQty has it; a test on a
-- difference is written as a sum, since the subtraction of the source is signed.
use spacecraft_corporation.Prelude.{
  ℕ, ◌+◌, ◌-◌, String, Bool, not, ◌&&◌, ◌||◌, List, ◌∷◌, leb, ltb, ◌==◌, if◌then◌else◌,
}
use spacecraft_corporation.Prelude.Rows.{update_where, delete_where, count_where, exists}
use spacecraft_corporation.Prelude.Tx.{Tx, reads, gets, check, guard, write, pure, ◌>>=◌, ◌>>◌}
use spacecraft_corporation.Reservations.{
  same_member, reserved_total, delivered_total, new_reservation, reserve_more, deliver_more,
  reserve_exactly,
}
use spacecraft_corporation.Supply.Model.{Status, Error, Item, Reservation, Db}
use spacecraft_corporation.Supply.Guards.{
  lock_open_by_thread, lock_item_by_gdid, lock_reservation, set_request, touch, enqueue_refresh,
  enqueue_close,
}
use spacecraft_corporation.Supply.Edits.{closed_as}
use spacecraft_corporation.Supply.Items.{item_of}

-- INSERT INTO supply_reservations … ON CONFLICT (supply_request_items_id, user_id) DO UPDATE
unfoldable pub upsert : ℕ → ℕ → String → ℕ → ℕ → Db → Db
upsert id item user qty now db = record db {
  reservations =
      if exists (same_member item user) db.reservations
      then update_where (same_member item user) (reserve_more qty user now) db.reservations
      else new_reservation id item user qty now ∷ db.reservations;
}

-- The primary key of supply_reservations, where the upsert inserts a row.
unfoldable pub upsert_ok : ℕ → ℕ → String → Db → Bool
upsert_ok id item user db =
    exists (same_member item user) db.reservations
    || not (exists (λ (r : Reservation). r.id == id) db.reservations)

abbrev pub is_short : List Reservation → Item → Bool
is_short rs i = ltb (delivered_total i.id rs) i.required_qty

-- itemCount > 0 && shortItems == 0
unfoldable pub is_complete : ℕ → Db → Bool
is_complete rid db =
    ltb 0 (count_where (item_of rid) db.items)
    && (count_where (λ (i : Item). item_of rid i && is_short db.reservations i) db.items == 0)

-- The writes of `finishIfComplete`.
unfoldable pub finish : ℕ → ℕ → Db → Db
unfolding is_complete
finish rid now db =
    if is_complete rid db
    then enqueue_close rid (set_request rid (closed_as Status.completed now) db)
    else enqueue_refresh rid (touch rid now db)

unfoldable pub finish_if_complete : ℕ → ℕ → Tx Error Db Bool
finish_if_complete rid now = do
  complete ← gets (is_complete rid)
  write (finish rid now)
  pure complete

unfoldable pub reserve :
    (server : ℕ) (thread gdid user : String) (qty id now : ℕ) → Tx Error Db Unit
reserve server thread gdid user qty id now = do
  r ← reads (lock_open_by_thread server thread)
  it ← reads (lock_item_by_gdid r.id gdid)
  reserved ← gets (λ db. reserved_total it.id db.reservations)
  guard (leb (qty + reserved) it.required_qty) Error.over_cap
  check (upsert_ok id it.id user) Error.constraint
  write (upsert id it.id user qty now)
  write (touch r.id now)
  write (enqueue_refresh r.id)
  pure tt

abbrev pub set_reservation : ℕ → (Reservation → Reservation) → Db → Db
set_reservation id f db = record db {
  reservations = update_where (λ (r : Reservation). r.id == id) f db.reservations;
}

unfoldable pub deliver : (server : ℕ) (thread gdid user : String) (qty now : ℕ) → Tx Error Db Bool
deliver server thread gdid user qty now = do
  r ← reads (lock_open_by_thread server thread)
  it ← reads (lock_item_by_gdid r.id gdid)
  row ← reads (lock_reservation it.id user)
  guard (leb (qty + row.delivered_qty) row.reserved_qty) Error.over_reserved
  write (set_reservation row.id (deliver_more qty user now))
  finish_if_complete r.id now

-- A row that is left with nothing reserved and nothing delivered is deleted.
unfoldable pub shrink : Reservation → ℕ → String → ℕ → Db → Db
shrink row qty user now db = record db {
  reservations =
      if (qty == 0) && (row.delivered_qty == 0)
      then delete_where (λ (r : Reservation). r.id == row.id) db.reservations
      else update_where (λ (r : Reservation). r.id == row.id) (reserve_exactly qty user now)
          db.reservations;
}

unfoldable pub release : (server : ℕ) (thread gdid user : String) (qty now : ℕ) → Tx Error Db Unit
release server thread gdid user qty now = do
  r ← reads (lock_open_by_thread server thread)
  it ← reads (lock_item_by_gdid r.id gdid)
  row ← reads (lock_reservation it.id user)
  guard (leb (qty + row.delivered_qty) row.reserved_qty) Error.below_delivered
  write (shrink row (row.reserved_qty - qty) user now)
  write (touch r.id now)
  write (enqueue_refresh r.id)
  pure tt
