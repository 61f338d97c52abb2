-- ===== src/Supply/Balanced.antt =====
-- The books of a supply request: nobody has delivered more than reserved, and no item is reserved
-- beyond its required quantity. The calls that write to the items and reservations keep them.
pub mod History
use spacecraft_corporation.Prelude.{
  ℕ, ◌+◌, ◌-◌, ◌≤◌, String, ◌≡◌, refl, true, Bool, ◌&&◌, inl, inr, Option, none, some, List, [],
  ◌∷◌, arith, ◌==◌, str_eq, if◌then◌else◌, Bool-cases, Option-cases,
}
use spacecraft_corporation.Prelude.Rows.{IsKeyed, select?, select?_key, exists-false}
use spacecraft_corporation.Prelude.Tx.{
  Tx, ok, Ensures, Ensures-reads, Ensures-gets, Ensures-write, Ensures-guard, Ensures-check,
  Ensures-pure, Ensures-write_last, Ensures-bind, tx_rules, commit-keeps,
}
use spacecraft_corporation.Reservations.{same_member, reserved_total}
use spacecraft_corporation.Reservations.Locked.{
  locked_within, IsSound-reserve_exactly, IsSound-deliver_more,
}
use spacecraft_corporation.Reservations.Sound.{
  IsSound, IsSound-insert_item, IsSound-delete, is_row_of,
}
use spacecraft_corporation.Reservations.Writes.{
  IsSound-update_item, IsSound-remove_item, IsSound-upsert,
}
use spacecraft_corporation.Supply.Model.{Error, Request, Item, Reservation, Db, CreateInput}
use spacecraft_corporation.Supply.Guards.{
  lock_item_by_gdid, lock_open_by_item_owner, lock_reservation, touch, enqueue_refresh,
  enqueue_close, check_open,
}
use spacecraft_corporation.Supply.Edits
use spacecraft_corporation.Supply.Items
use spacecraft_corporation.Supply.Members

abbrev pub item_id : Item → ℕ
item_id i = i.id

abbrev pub required_qty : Item → ℕ
required_qty i = i.required_qty

abbrev pub Balanced : Db → Type 0
Balanced db = IsSound item_id required_qty db.items db.reservations

abbrev pub KeepsBalanced : {A : Type 0} → Tx Error Db A → Type 0
KeepsBalanced m = (db : Db) → Balanced db → Ensures (m db) (λ _ db'. Balanced db')

abbrev pub is_item : ℕ → Item → Bool
is_item k i = i.id == k

-- What the locking reads have found.
pub lock_item-found :
    (rid : ℕ) (gdid : String) (db : Db) {it : Item}
    → IsKeyed item_id db.items
    → lock_item_by_gdid rid gdid db ≡ ok it
    → select? (is_item it.id) db.items ≡ some it
unfolding lock_item_by_gdid
lock_item-found rid gdid db {it} k e =
    select?_key item_id (λ (i : Item). (i.requests_id == rid) && str_eq i.item_gdid gdid) db.items k
      (ground arith)

pub lock_reservation-row :
    (item : ℕ) (user : String) (db : Db) {r : Reservation}
    → lock_reservation item user db ≡ ok r
    → select? (same_member item user) db.reservations ≡ some r
unfolding lock_reservation
lock_reservation-row item user db e = ground arith

-- mutateOpen keeps what its statement keeps.
pub mutate_open-Balanced :
    (server : ℕ) (owner : String) (rid : ℕ) (fn : Tx Error Db Unit)
    → KeepsBalanced fn
    → KeepsBalanced (Edits.mutate_open server owner rid fn)
unfolding Edits.mutate_open enqueue_refresh
mutate_open-Balanced server owner rid fn kept db s =
    Ensures-reads _ _ db
      λ r _. Ensures-bind fn (λ _ db'. Balanced db') _ db (kept db s) λ _ db' s'. search tx_rules

pub republish-Balanced :
    (server : ℕ) (owner : String) (rid now : ℕ)
    → KeepsBalanced (Edits.republish server owner rid now)
unfolding Edits.republish touch enqueue_refresh
republish-Balanced server owner rid now db s = Ensures-reads _ _ db λ r _. Ensures-write _ _ db (
    Ensures-write_last _ _
      (elim (Bool-cases (Edits.has_no_thread r)) [ inl h ↦ rw h s | inr h ↦ rw h s ]))

pub add_item-Balanced :
    (server : ℕ) (owner : String) (rid : ℕ) (gdid gd_version : String) (qty max_items id now : ℕ)
    → KeepsBalanced (Items.add_item server owner rid gdid gd_version qty max_items id now)
unfolding Items.add_item touch enqueue_refresh
add_item-Balanced server owner rid gdid gd_version qty max_items id now db s =
    Ensures-reads _ _ db λ r _. Ensures-check _ _ _ db λ _. Ensures-check _ _ _ db λ _.
      Ensures-check _ _ _ db λ h.
        let s' =
          IsSound-insert_item s (Items.new_item id rid gdid gd_version qty now)
            (exists-false (is_item id) db.items (ground arith)) in
        search tx_rules depth 8

pub update_item_qty-Balanced :
    (server : ℕ) (owner : String) (item qty now : ℕ)
    → KeepsBalanced (Items.update_item_qty server owner item qty now)
unfolding Items.update_item_qty touch enqueue_refresh
update_item_qty-Balanced server owner item qty now db s = Ensures-reads _ _ db λ r _.
    Ensures-check _ _ _ db λ h.
      let s' =
        IsSound-update_item s (is_item item) (Items.with_qty qty now) (λ x. refl)
          (λ x t w. ground arith) in
      search tx_rules depth 8

pub remove_item-Balanced :
    (server : ℕ) (owner : String) (item now : ℕ)
    → KeepsBalanced (Items.remove_item server owner item now)
unfolding Items.remove_item touch enqueue_refresh
remove_item-Balanced server owner item now db s =
    let s' = IsSound-remove_item s (is_item item) item (λ x t. ground arith) in
    search tx_rules depth 9

finish-Balanced : (rid now : ℕ) (db : Db) → Balanced db → Balanced (Members.finish rid now db)
unfolding Members.finish touch enqueue_refresh enqueue_close
finish-Balanced rid now db s = elim (Bool-cases (Members.is_complete rid db)) [
  | inl h ↦ rw h s
  | inr h ↦ rw h s
]

pub reserve-Balanced :
    (server : ℕ) (thread gdid user : String) (qty id now : ℕ)
    → KeepsBalanced (Members.reserve server thread gdid user qty id now)
unfolding Members.reserve Members.upsert Members.upsert_ok touch enqueue_refresh
reserve-Balanced server thread gdid user qty id now db s = Ensures-reads _ _ db λ r _.
    Ensures-reads _ _ db λ it found. Ensures-gets _ _ db (
      Ensures-guard _ _ _ db λ room. Ensures-check _ _ _ db λ fresh.
        let s' =
          IsSound-upsert s it.id user qty now (lock_item-found r.id gdid db s.items_keyed found)
            (ground arith) id fresh in
        search tx_rules depth 8)

pub deliver-Balanced :
    (server : ℕ) (thread gdid user : String) (qty now : ℕ)
    → KeepsBalanced (Members.deliver server thread gdid user qty now)
unfolding Members.deliver Members.finish_if_complete
deliver-Balanced server thread gdid user qty now db s = Ensures-reads _ _ db λ r _.
    Ensures-reads _ _ db λ it found. Ensures-reads _ _ db λ row locked. Ensures-guard _ _ _ db λ h.
      let owner = lock_item-found r.id gdid db s.items_keyed found in
      let here = lock_reservation-row it.id user db locked in
      let s' = IsSound-deliver_more s it.id user owner row here qty user now (ground arith) in
      search (tx_rules, finish-Balanced) depth 8

pub release-Balanced :
    (server : ℕ) (thread gdid user : String) (qty now : ℕ)
    → KeepsBalanced (Members.release server thread gdid user qty now)
unfolding Members.release Members.shrink touch enqueue_refresh
release-Balanced server thread gdid user qty now db s = Ensures-reads _ _ db λ r _.
    Ensures-reads _ _ db λ it found. Ensures-reads _ _ db λ row locked. Ensures-guard _ _ _ db λ h.
      Ensures-write _ _ db (
        let owner = lock_item-found r.id gdid db s.items_keyed found in
        let here = lock_reservation-row it.id user db locked in
        let less : ℕ = row.reserved_qty - qty in
        let set =
          IsSound-reserve_exactly s it.id user owner row here less user now (ground arith)
            (omega (arith, locked_within s it.id user owner row here)) in
        elim (Bool-cases ((less == 0) && (row.delivered_qty == 0))) [
          | inl e ↦ rw e (let s' = IsSound-delete s (is_row_of row.id) in search tx_rules)
          | inr e ↦ rw e (search (tx_rules, set))
        ])
