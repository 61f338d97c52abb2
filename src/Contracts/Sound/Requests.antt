-- ===== src/Contracts/Sound/Requests.antt =====
-- Every method of the repository keeps the invariant of items and reservations.
use spacecraft_corporation.Prelude.{
  ℕ, String, ◌≡◌, refl, ◌&&◌, inl, inr, some, List, [], ◌∷◌, arith, ◌==◌, str_eq, Option-cases,
}
use spacecraft_corporation.Prelude.Rows.{IsKeyed, select?, select?_key, exists-false}
use spacecraft_corporation.Prelude.Tx.{
  Tx, ok, Ensures, Ensures-reads, Ensures-write, Ensures-guard, Ensures-check, Ensures-pure,
  Ensures-write_last, Ensures-bind, tx_rules,
}
use spacecraft_corporation.Contracts.Members.{same_member}
use spacecraft_corporation.Contracts.Model.{Error, Contract, Item, Reservation, Db}
use spacecraft_corporation.Contracts.Guards.{
  lock_item, lock_open_contract_by_item, lock_reservation, touch, enqueue_refresh,
}
use spacecraft_corporation.Contracts.Items
use spacecraft_corporation.Contracts.Create
use spacecraft_corporation.Contracts.Sound.{item_id, required_qty, is_item}
use spacecraft_corporation.Reservations.Locked.{locked-item}
use spacecraft_corporation.Reservations.Sound.{
  IsSound, IsSound-insert_item, reservation_id, is_row_of,
}
use spacecraft_corporation.Reservations.Writes.{IsSound-update_item, IsSound-remove_item}

abbrev pub Sound : Db → Type 0
Sound db = IsSound item_id required_qty db.items db.reservations

abbrev pub KeepsSound : {A : Type 0} → Tx Error Db A → Type 0
KeepsSound m = (db : Db) → Sound db → Ensures (m db) (λ _ db'. Sound db')

-- What the locking reads have found.
pub lock_item-found :
    (lower : String → String) (cid : ℕ) (name : String) (db : Db) {it : Item}
    → IsKeyed item_id db.items
    → lock_item lower cid name db ≡ ok it
    → select? (is_item it.id) db.items ≡ some it
unfolding lock_item
lock_item-found lower cid name db {it} k e =
    select?_key item_id
      (λ (i : Item). (i.contracts_id == cid) && str_eq (lower i.item_name) (lower name)) db.items k
      (ground arith)

module _ (item : ℕ) (user : String) (db : Db) (k : IsKeyed reservation_id db.reservations)
    {r : Reservation} (e : lock_reservation item user db ≡ ok r) where
  pub lock_reservation-row : select? (same_member item user) db.reservations ≡ some r
  unfolding lock_reservation
  lock_reservation-row = ground arith

  pub lock_reservation-found : select? (is_row_of r.id) db.reservations ≡ some r
  lock_reservation-found =
      select?_key reservation_id (same_member item user) db.reservations k lock_reservation-row

  pub lock_reservation-item : r.items_id ≡ item
  lock_reservation-item = locked-item item user db.reservations lock_reservation-row

pub lock_by_item-found :
    (server item now : ℕ) (db : Db) {c : Contract}
    → lock_open_contract_by_item server item now db ≡ ok c
    → (it : Item) × (select? (is_item item) db.items ≡ some it)
unfolding lock_open_contract_by_item
lock_by_item-found server item now db e = elim (Option-cases (select? (is_item item) db.items)) [
  | inl absent ↦ ground arith
  | inr (it, h) ↦ (it, h)
]

pub insert_item-Sound :
    (lower : String → String) (row : Item) → KeepsSound (Items.insert_item lower row)
unfolding Items.insert_item Items.item_row_ok
insert_item-Sound lower row db s = Ensures-check _ _ _ db λ h.
    Ensures-write_last _ db
      (IsSound-insert_item s row (exists-false (is_item row.id) db.items (ground arith)))

pub insert_items-Sound :
    (lower : String → String) (cid : ℕ) (actor : String) (now : ℕ)
    → (inps : List (ℕ × Create.CreateItemInput))
    → KeepsSound (Create.insert_items lower cid actor now inps)
unfolding Create.insert_items
insert_items-Sound lower cid actor now [] db s = Ensures-pure tt db s
insert_items-Sound lower cid actor now (inp ∷ inps) db s =
    Ensures-bind _ (λ _ db'. Sound db') _ db (insert_item-Sound lower _ db s)
      λ _ db' s'. insert_items-Sound lower cid actor now inps db' s'

pub create-Sound :
    (lower : String → String) (inp : Create.CreateInput) (id now : ℕ)
    → KeepsSound (Create.create lower inp id now)
unfolding Create.create
create-Sound lower inp id now db s = Ensures-check _ _ _ db λ _. Ensures-write _ _ db (
    Ensures-bind _ (λ _ db'. Sound db') _ _
      (insert_items-Sound lower id inp.created_by now inp.items _ s) λ _ db' s'. search tx_rules)

module _ (lower fold : String → String) where
  pub add_item_by_id-Sound :
      (server cid : ℕ) (name gdid gd_version : String) (aliases : List String)
      → (qty cap : ℕ) (actor : String) (id now : ℕ)
      → KeepsSound (
          Items.add_item_by_id lower fold server cid name gdid gd_version aliases qty cap actor id
            now)
  unfolding Items.add_item_by_id touch enqueue_refresh
  add_item_by_id-Sound server cid name gdid gd_version aliases qty cap actor id now db s =
      Ensures-reads _ _ db λ c e. Ensures-check _ _ _ db λ _. Ensures-check _ _ _ db λ _.
        Ensures-bind _ (λ _ db'. Sound db') _ db (insert_item-Sound lower _ db s)
          λ _ db' s'. search tx_rules

  pub link_item_gdid-Sound :
      (server item : ℕ) (gdid gd_version : String) (aliases : List String) (actor : String)
      → (now : ℕ)
      → KeepsSound (Items.link_item_gdid lower fold server item gdid gd_version aliases actor now)
  unfolding Items.link_item_gdid touch enqueue_refresh
  link_item_gdid-Sound server item gdid gd_version aliases actor now db s =
      Ensures-reads _ _ db λ c e. Ensures-check _ _ _ db λ _. Ensures-write _ _ db (
        let s' =
          IsSound-update_item s (λ (i : Item). (i.id == item) && (i.contracts_id == c.id))
            (Items.linked gdid gd_version actor now) (λ x. refl) (λ x _ h. h) in
        search tx_rules depth 9)

pub remove_item_by_id-Sound :
    (server item : ℕ) (actor : String) (now : ℕ)
    → KeepsSound (Items.remove_item_by_id server item actor now)
unfolding Items.remove_item_by_id touch enqueue_refresh
remove_item_by_id-Sound server item actor now db s = Ensures-reads _ _ db λ c e.
    (let s' =
        IsSound-remove_item s (λ (i : Item). (i.id == item) && (i.contracts_id == c.id)) item
          (λ x t. ground arith) in
      search tx_rules depth 9)

pub update_item-Sound :
    (lower : String → String) (server item : ℕ) (name : String) (qty : ℕ) (actor : String)
    → (now : ℕ) → KeepsSound (Items.update_item lower server item name qty actor now)
unfolding Items.update_item touch enqueue_refresh
update_item-Sound lower server item name qty actor now db s = Ensures-reads _ _ db λ c e.
    Ensures-check _ _ _ db λ _. Ensures-check _ _ _ db λ h. Ensures-guard _ _ _ db λ _.
      (let s' =
          IsSound-update_item s (λ (i : Item). (i.id == item) && (i.contracts_id == c.id))
            (Items.renamed name qty actor now) (λ x. refl) (λ x t w. ground arith) in
        search tx_rules depth 9)
