-- ===== src/Contracts/Items.antt =====
-- The required items of a contract: AddItemByID, LinkItemGDID, RemoveItemByID and UpdateItem of
-- postgres.go, and the constraints of contract_items. `lower` is PostgreSQL's, `fold` is the code's
-- strings.ToLower(strings.TrimSpace(s)).
use spacecraft_corporation.Prelude.{
  text_in, ℕ, String, Bool, true, false, not, ◌&&◌, ◌||◌, Option, none, some, List, [], ◌∷◌, leb,
  ltb, ◌==◌, if◌then◌else◌, str_eq,
}
use spacecraft_corporation.Prelude.Rows.{update_where, delete_where, count_where, exists}
use spacecraft_corporation.Prelude.Tx.{Tx, reads, gets, check, guard, write, pure, ◌>>=◌, ◌>>◌}
use spacecraft_corporation.Contracts.Model.{Error, Contract, Item, Reservation, Db}
use spacecraft_corporation.Contracts.Guards.{
  text_is, null_if_empty, lock_open_contract_by_id, lock_open_contract_by_item, reserved_total,
  touch, enqueue_refresh,
}

abbrev pub is_some {ℓ} : {A : Type ℓ} → Option A → Bool
is_some none = false
is_some (some _) = true

abbrev pub same_bool : Bool → Bool → Bool
same_bool true b = b
same_bool false b = not b

-- CHECK (required_qty > 0) on a 32-bit INTEGER column
abbrev pub is_quantity : ℕ → Bool
is_quantity q = ltb 0 q && ltb q 2147483648

-- A nullable text against a nullable parameter: NULL matches nothing.
abbrev pub same_text : Option String → Option String → Bool
same_text none _ = false
same_text (some s) none = false
same_text (some s) (some t) = str_eq s t

-- The primary key, the unique indexes, the foreign key and the checks of contract_items.
unfoldable pub item_row_ok : (String → String) → Item → Db → Bool
item_row_ok lower row db =
    not (exists (λ (i : Item). i.id == row.id) db.items)
    && exists (λ (c : Contract). c.id == row.contracts_id) db.contracts
    && not (
        exists
          (λ (i : Item).
            (i.contracts_id == row.contracts_id)
            && (str_eq (lower i.item_name) (lower row.item_name)
                || same_text i.item_gdid row.item_gdid))
          db.items)
    && is_quantity row.required_qty
    && same_bool (is_some row.item_gdid) (is_some row.gamedata_version)

-- INSERT INTO contract_items
unfoldable pub insert_item : (String → String) → Item → Tx Error Db Unit
insert_item lower row = do
  check (item_row_ok lower row) Error.constraint
  write (λ db. record db { items = row ∷ db.items })

-- The folded names, in order, each once and none of them empty.
folded : (String → String) → List String → List String → List String
folded fold seen [] = []
folded fold seen (n ∷ ns) =
    let name = fold n in
    let skip = str_eq name "" || text_in name seen in
    let rest = folded fold (if skip then seen else name ∷ seen) ns in
    if skip then rest else name ∷ rest

unfoldable pub lowered_names : (String → String) → String → List String → List String
unfolding folded
lowered_names fold name aliases = folded fold [] (name ∷ aliases)

abbrev item_of : ℕ → Item → Bool
item_of cid i = i.contracts_id == cid

-- A row of the contract has one of the names, or the gdid.
duplicate_item : (String → String) → ℕ → List String → Option String → List Item → Bool
duplicate_item lower cid names gdid = exists (λ (i : Item).
    item_of cid i && (text_in (lower i.item_name) names || same_text i.item_gdid gdid))

module _ (lower fold : String → String) where
  unfoldable pub add_item_by_id :
      (server cid : ℕ) (name gdid gd_version : String) (aliases : List String)
      → (qty cap : ℕ) (actor : String) (id now : ℕ) → Tx Error Db Unit
  unfolding duplicate_item lowered_names
  add_item_by_id server cid name gdid gd_version aliases qty cap actor id now = do
    c ← reads (lock_open_contract_by_id server cid now)
    check (λ db. ltb (count_where (item_of c.id) db.items) cap) Error.max_items
    check
        (λ db. not (
          duplicate_item lower c.id (lowered_names fold name aliases) (null_if_empty gdid)
            db.items))
        Error.item_exists
    insert_item lower (record {
      id = id;
      contracts_id = c.id;
      item_name = name;
      item_gdid = null_if_empty gdid;
      gamedata_version = null_if_empty gd_version;
      required_qty = qty;
      created_by = actor;
      updated_by = actor;
      created_at = now;
      updated_at = now;
    })
    write (touch c.id now actor)
    write (enqueue_refresh c.id)
    pure tt

-- Another item of the contract has the gdid, or one of the names.
linked_elsewhere : (String → String) → ℕ → ℕ → List String → String → List Item → Bool
linked_elsewhere lower cid item names gdid = exists (λ (i : Item).
    item_of cid i
    && not (i.id == item)
    && (text_is i.item_gdid gdid || text_in (lower i.item_name) names))

abbrev pub linked : String → String → String → ℕ → Item → Item
linked gdid gd_version actor now i = record i {
  item_gdid = some gdid;
  gamedata_version = some gd_version;
  updated_by = actor;
  updated_at = now;
}

module _ (lower fold : String → String) where
  unfoldable pub link_item_gdid :
      (server item : ℕ) (gdid gd_version : String) (aliases : List String) (actor : String)
      → (now : ℕ) → Tx Error Db ℕ
  unfolding linked_elsewhere lowered_names
  link_item_gdid server item gdid gd_version aliases actor now = do
    c ← reads (lock_open_contract_by_item server item now)
    check
        (λ db. not (linked_elsewhere lower c.id item (lowered_names fold "" aliases) gdid db.items))
        Error.item_exists
    write (λ db. record db {
      items =
          update_where (λ (i : Item). (i.id == item) && item_of c.id i)
            (linked gdid gd_version actor now) db.items;
    })
    write (touch c.id now actor)
    write (enqueue_refresh c.id)
    pure c.id

-- Deletes the item with its reservations, and returns how many there were.
unfoldable pub remove_item_by_id :
    (server item : ℕ) (actor : String) (now : ℕ) → Tx Error Db (ℕ × ℕ)
remove_item_by_id server item actor now = do
  c ← reads (lock_open_contract_by_item server item now)
  cleared ← gets (λ db. count_where (λ (r : Reservation). r.items_id == item) db.reservations)
  write (λ db. record db {
    reservations = delete_where (λ (r : Reservation). r.items_id == item) db.reservations;
  })
  write (λ db. record db {
    items = delete_where (λ (i : Item). (i.id == item) && item_of c.id i) db.items;
  })
  write (touch c.id now actor)
  write (enqueue_refresh c.id)
  pure (c.id, cleared)

abbrev pub renamed : String → ℕ → String → ℕ → Item → Item
renamed name qty actor now i = record i {
  item_name = name;
  required_qty = qty;
  updated_by = actor;
  updated_at = now;
}

named_elsewhere : (String → String) → ℕ → ℕ → String → List Item → Bool
named_elsewhere lower cid item name =
    exists
      (λ (i : Item). item_of cid i && str_eq (lower i.item_name) (lower name) && not (i.id == item))

unfoldable pub update_item :
    (lower : String → String) (server item : ℕ) (name : String) (qty : ℕ) (actor : String)
    → (now : ℕ) → Tx Error Db ℕ
unfolding named_elsewhere
update_item lower server item name qty actor now = do
  c ← reads (lock_open_contract_by_item server item now)
  check (λ db. not (named_elsewhere lower c.id item name db.items)) Error.item_exists
  check (λ db. leb (reserved_total item db.reservations) qty) Error.qty_below_reserved
  guard (is_quantity qty) Error.constraint
  write (λ db. record db {
    items =
        update_where (λ (i : Item). (i.id == item) && item_of c.id i) (renamed name qty actor now)
          db.items;
  })
  write (touch c.id now actor)
  write (enqueue_refresh c.id)
  pure c.id
