-- ===== src/Contracts/Sound.antt =====
-- The invariant of contract_items and contract_reservations, which every method keeps.
pub mod Requests
mod Members
pub mod History
use spacecraft_corporation.Prelude.{ℕ, Bool, ◌==◌}
use spacecraft_corporation.Contracts.Model.{Item}

abbrev pub item_id : Item → ℕ
item_id i = i.id

abbrev pub required_qty : Item → ℕ
required_qty i = i.required_qty

abbrev pub is_item : ℕ → Item → Bool
is_item k i = i.id == k
