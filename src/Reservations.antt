-- ===== src/Reservations.antt =====
-- The rows of contract_reservations and of supply_reservations, two tables with the same columns:
-- `items_id` is contract_items_id in the one and supply_request_items_id in the other.
pub mod Sound
pub mod Writes
pub mod Locked
use spacecraft_corporation.Prelude.{
  ℕ, ◌+◌, String, Bool, not, ◌&&◌, List, ◌∷◌, ◌==◌, if◌then◌else◌, str_eq,
}
use spacecraft_corporation.Prelude.Rows.{sum_by, exists, update_where}

-- A member's commitment to an item: one row for each item and member.
pub record Reservation : Type 0 where
  pub id : ℕ
  pub items_id : ℕ
  pub user_id : String
  pub reserved_qty : ℕ
  pub delivered_qty : ℕ
  pub created_by : String
  pub updated_by : String
  pub created_at : ℕ
  pub updated_at : ℕ

abbrev pub same_member : ℕ → String → Reservation → Bool
same_member item user r = (r.items_id == item) && str_eq r.user_id user

-- SUM(reserved_qty) and SUM(delivered_qty) of an item.
abbrev pub reserved_on : ℕ → Reservation → ℕ
reserved_on item r = if r.items_id == item then r.reserved_qty else 0

abbrev pub delivered_on : ℕ → Reservation → ℕ
delivered_on item r = if r.items_id == item then r.delivered_qty else 0

abbrev pub reserved_total : ℕ → List Reservation → ℕ
reserved_total item = sum_by (reserved_on item)

abbrev pub delivered_total : ℕ → List Reservation → ℕ
delivered_total item = sum_by (delivered_on item)

-- What the other members have reserved on the item.
abbrev pub reserved_by_others : ℕ → String → List Reservation → ℕ
reserved_by_others item user = sum_by (λ (r : Reservation).
    if (r.items_id == item) && not (str_eq r.user_id user) then r.reserved_qty else 0)

abbrev pub new_reservation : ℕ → ℕ → String → ℕ → ℕ → Reservation
new_reservation id item user qty now = record {
  id = id;
  items_id = item;
  user_id = user;
  reserved_qty = qty;
  delivered_qty = 0;
  created_by = user;
  updated_by = user;
  created_at = now;
  updated_at = now;
}

abbrev pub reserve_more : ℕ → String → ℕ → Reservation → Reservation
reserve_more qty user now r = record r {
  reserved_qty = r.reserved_qty + qty;
  updated_by = user;
  updated_at = now;
}

abbrev pub deliver_more : ℕ → String → ℕ → Reservation → Reservation
deliver_more qty actor now r = record r {
  delivered_qty = r.delivered_qty + qty;
  updated_by = actor;
  updated_at = now;
}

abbrev pub reserve_exactly : ℕ → String → ℕ → Reservation → Reservation
reserve_exactly qty actor now r = record r {
  reserved_qty = qty;
  updated_by = actor;
  updated_at = now;
}
