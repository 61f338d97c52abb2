-- ===== src/Contracts/Members.antt =====
-- What members and officers do with reservations: Participate, Deliver, Release, DeliverByItem,
-- SetReservationByItem and RemoveReservation of postgres.go, and finishIfComplete. A quantity is
-- non-negative, as parseQty has it; a test on a difference is written as a sum, since the
-- subtraction of the source is signed.
use spacecraft_corporation.Prelude.{
  ℕ, ◌+◌, ◌-◌, String, Bool, true, false, not, ◌&&◌, ◌||◌, Option, none, some, List, ◌∷◌, leb, ltb,
  ◌==◌, if◌then◌else◌,
}
use spacecraft_corporation.Prelude.Rows.{select?, update_where, delete_where, count_where, exists}
use spacecraft_corporation.Prelude.Tx.{Tx, reads, gets, check, guard, write, pure, ◌>>=◌, ◌>>◌}
pub use spacecraft_corporation.Reservations.{
  same_member, new_reservation, reserve_more, deliver_more, reserve_exactly, reserved_by_others,
}
use spacecraft_corporation.Contracts.Model.{Status, Error, Contract, Item, Reservation, Db}
use spacecraft_corporation.Contracts.Guards.{
  lock_open_contract, lock_open_contract_by_item, lock_item, lock_reservation, reserved_total,
  delivered_total, set_contract, touch, enqueue_refresh, enqueue_close, enqueue_payout,
}

-- UPDATE contract_reservations SET f WHERE id = rid
abbrev pub set_reservation : ℕ → (Reservation → Reservation) → Db → Db
set_reservation rid f db = record db {
  reservations = update_where (λ (r : Reservation). r.id == rid) f db.reservations;
}

-- DELETE FROM contract_reservations WHERE id = rid
abbrev pub delete_reservation : ℕ → Db → Db
delete_reservation rid db = record db {
  reservations = delete_where (λ (r : Reservation). r.id == rid) db.reservations;
}

-- INSERT INTO contract_reservations … ON CONFLICT (items_id, user_id) DO UPDATE
unfoldable pub upsert_reservation : ℕ → ℕ → String → ℕ → ℕ → Db → Db
upsert_reservation id item user qty now db =
    if exists (same_member item user) db.reservations
    then record db {
      reservations =
          update_where (same_member item user) (reserve_more qty user now) db.reservations;
    }
    else record db { reservations = new_reservation id item user qty now ∷ db.reservations }

-- The primary key of contract_reservations, where the upsert inserts a row.
unfoldable pub reservation_id_ok : ℕ → ℕ → String → Db → Bool
reservation_id_ok id item user db =
    exists (same_member item user) db.reservations
    || not (exists (λ (r : Reservation). r.id == id) db.reservations)

-- A row that is left with nothing reserved and nothing delivered is deleted.
unfoldable pub shrink_reservation : Reservation → ℕ → String → ℕ → Db → Db
shrink_reservation r qty actor now =
    if (qty == 0) && (r.delivered_qty == 0)
    then delete_reservation r.id
    else set_reservation r.id (reserve_exactly qty actor now)

abbrev pub is_short : List Reservation → Item → Bool
is_short rs i = ltb (delivered_total i.id rs) i.required_qty

-- itemCount > 0 && shortItems == 0
unfoldable pub all_delivered : ℕ → Db → Bool
all_delivered cid db =
    ltb 0 (count_where (λ (i : Item). i.contracts_id == cid) db.items)
    && (count_where (λ (i : Item). (i.contracts_id == cid) && is_short db.reservations i) db.items
        == 0)

abbrev pub completed_by : String → ℕ → Contract → Contract
completed_by actor now c = record c {
  status = Status.completed;
  closed_at = some now;
  updated_at = now;
  last_refreshed_at = now;
  updated_by = actor;
}

-- creditsSet
abbrev pub credits_set : Option ℕ → Bool
credits_set none = false
credits_set (some n) = ltb 0 n

-- The contract has something to pay out: a credit reward, and a factor above zero.
abbrev pub is_rewarded : Contract → Bool
is_rewarded c = credits_set c.reward_credits && ltb 0 c.participant_reward_factor

abbrev pub is_rewarded? : Option Contract → Bool
is_rewarded? none = false
is_rewarded? (some c) = is_rewarded c

unfoldable pub pay_if_rewarded : ℕ → Db → Db
unfolding enqueue_payout
pay_if_rewarded cid db =
    if is_rewarded? (select? (λ (c : Contract). c.id == cid) db.contracts)
    then enqueue_payout cid false db
    else db

-- The whole of `finishIfComplete` on the tables.
unfoldable pub finish : ℕ → ℕ → String → Db → Db
unfolding all_delivered pay_if_rewarded enqueue_close enqueue_refresh touch
finish cid now actor db =
    if all_delivered cid db
    then enqueue_close cid (pay_if_rewarded cid (set_contract cid (completed_by actor now) db))
    else enqueue_refresh cid (touch cid now actor db)

unfoldable pub finish_if_complete : ℕ → ℕ → String → Tx Error Db Bool
finish_if_complete cid now actor = do
  complete ← gets (all_delivered cid)
  write (finish cid now actor)
  pure complete

module _ (lower : String → String) where
  unfoldable pub participate :
      (server : ℕ) (thread name user : String) (qty id now : ℕ) → Tx Error Db Unit
  participate server thread name user qty id now = do
    c ← reads (lock_open_contract server thread now)
    it ← reads (lock_item lower c.id name)
    reserved ← gets (λ db. reserved_total it.id db.reservations)
    guard (leb (qty + reserved) it.required_qty) Error.over_cap
    check (reservation_id_ok id it.id user) Error.constraint
    write (upsert_reservation id it.id user qty now)
    write (touch c.id now user)
    write (enqueue_refresh c.id)
    pure tt

  unfoldable pub deliver : (server : ℕ) (thread name user : String) (qty now : ℕ) → Tx Error Db Bool
  deliver server thread name user qty now = do
    c ← reads (lock_open_contract server thread now)
    it ← reads (lock_item lower c.id name)
    r ← reads (lock_reservation it.id user)
    guard (leb (qty + r.delivered_qty) r.reserved_qty) Error.over_reserved
    write (set_reservation r.id (deliver_more qty user now))
    finish_if_complete c.id now user

  unfoldable pub release :
      (server : ℕ) (thread name target : String) (qty : ℕ) (actor : String) (now : ℕ)
      → Tx Error Db Unit
  release server thread name target qty actor now = do
    c ← reads (lock_open_contract server thread now)
    it ← reads (lock_item lower c.id name)
    r ← reads (lock_reservation it.id target)
    guard (leb (qty + r.delivered_qty) r.reserved_qty) Error.below_delivered
    write (shrink_reservation r (r.reserved_qty - qty) actor now)
    write (touch c.id now actor)
    write (enqueue_refresh c.id)
    pure tt

unfoldable pub deliver_by_item :
    (server item : ℕ) (target : String) (qty : ℕ) (actor : String) (now : ℕ)
    → Tx Error Db (ℕ × Bool)
deliver_by_item server item target qty actor now = do
  c ← reads (lock_open_contract_by_item server item now)
  r ← reads (lock_reservation item target)
  guard (leb (qty + r.delivered_qty) r.reserved_qty) Error.over_reserved
  write (set_reservation r.id (deliver_more qty actor now))
  complete ← finish_if_complete c.id now actor
  pure (c.id, complete)

item_row : ℕ → Db → Option Item
item_row item db = select? (λ (i : Item). i.id == item) db.items

abbrev required_of : Option Item → ℕ
required_of none = 0
required_of (some i) = i.required_qty

abbrev found : Option Item → Bool
found none = false
found (some _) = true

unfoldable pub set_reservation_by_item :
    (server item : ℕ) (target : String) (qty : ℕ) (actor : String) (now : ℕ) → Tx Error Db ℕ
unfolding item_row
set_reservation_by_item server item target qty actor now = do
  c ← reads (lock_open_contract_by_item server item now)
  check (λ db. found (item_row item db)) Error.item_not_found
  required ← gets (λ db. required_of (item_row item db))
  r ← reads (lock_reservation item target)
  guard (leb r.delivered_qty qty) Error.below_delivered
  check (λ db. leb (qty + reserved_by_others item target db.reservations) required) Error.over_cap
  write (shrink_reservation r qty actor now)
  write (touch c.id now actor)
  write (enqueue_refresh c.id)
  pure c.id

unfoldable pub remove_reservation :
    (server item : ℕ) (target actor : String) (now : ℕ) → Tx Error Db ℕ
remove_reservation server item target actor now = do
  c ← reads (lock_open_contract_by_item server item now)
  check (λ db. exists (same_member item target) db.reservations) Error.no_reservation
  write (λ db. record db { reservations = delete_where (same_member item target) db.reservations })
  write (touch c.id now actor)
  write (enqueue_refresh c.id)
  pure c.id
