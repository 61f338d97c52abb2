-- ===== src/Supply/Items.antt =====
-- The items of a request: AddItem, UpdateItemQty and RemoveItem of postgres.go, and the constraints
-- of supply_request_items.
use spacecraft_corporation.Prelude.{ℕ, String, Bool, not, ◌&&◌, ◌∷◌, leb, ltb, ◌==◌, str_eq}
use spacecraft_corporation.Prelude.Rows.{update_where, delete_where, count_where, exists}
use spacecraft_corporation.Prelude.Tx.{Tx, reads, gets, check, guard, write, pure, ◌>>=◌, ◌>>◌}
use spacecraft_corporation.Reservations.{reserved_total}
use spacecraft_corporation.Supply.Model.{Error, Item, Reservation, Db}
use spacecraft_corporation.Supply.Guards.{
  lock_open_by_owner, lock_open_by_item_owner, touch, enqueue_refresh,
}
use spacecraft_corporation.Supply.Edits.{is_quantity}

abbrev pub item_of : ℕ → Item → Bool
item_of rid i = i.requests_id == rid

abbrev pub new_item : ℕ → ℕ → String → String → ℕ → ℕ → Item
new_item id rid gdid gd_version qty now = record {
  id = id;
  requests_id = rid;
  item_gdid = gdid;
  gamedata_version = gd_version;
  required_qty = qty;
  created_at = now;
  updated_at = now;
}

unfoldable pub add_item :
    (server : ℕ) (owner : String) (rid : ℕ) (gdid gd_version : String) (qty max_items : ℕ)
    → (id now : ℕ) → Tx Error Db Unit
add_item server owner rid gdid gd_version qty max_items id now = do
  _ ← reads (lock_open_by_owner server owner rid)
  check (λ db. ltb (count_where (item_of rid) db.items) max_items) Error.max_items
  check (λ db. not (exists (λ (i : Item). item_of rid i && str_eq i.item_gdid gdid) db.items))
      Error.item_exists
  check (λ db. not (exists (λ (i : Item). i.id == id) db.items)) Error.constraint
  guard (is_quantity qty) Error.constraint
  write (λ db. record db { items = new_item id rid gdid gd_version qty now ∷ db.items })
  write (touch rid now)
  write (enqueue_refresh rid)
  pure tt

abbrev pub with_qty : ℕ → ℕ → Item → Item
with_qty qty now i = record i { required_qty = qty; updated_at = now }

unfoldable pub update_item_qty : (server : ℕ) (owner : String) (item qty now : ℕ) → Tx Error Db Unit
update_item_qty server owner item qty now = do
  r ← reads (lock_open_by_item_owner server owner item)
  check (λ db. leb (reserved_total item db.reservations) qty) Error.qty_below_reserved
  guard (is_quantity qty) Error.constraint
  write (λ db. record db {
    items = update_where (λ (i : Item). i.id == item) (with_qty qty now) db.items;
  })
  write (touch r.id now)
  write (enqueue_refresh r.id)
  pure tt

-- Deletes the item with its reservations, and returns how many there were.
unfoldable pub remove_item : (server : ℕ) (owner : String) (item now : ℕ) → Tx Error Db ℕ
remove_item server owner item now = do
  r ← reads (lock_open_by_item_owner server owner item)
  cleared ← gets (λ db. count_where (λ (s : Reservation). s.items_id == item) db.reservations)
  write (λ db. record db {
    reservations = delete_where (λ (s : Reservation). s.items_id == item) db.reservations;
  })
  write (λ db. record db { items = delete_where (λ (i : Item). i.id == item) db.items })
  write (touch r.id now)
  write (enqueue_refresh r.id)
  pure cleared
