-- ===== src/Supply/Invariant/Edits.antt =====
-- The statements of the repository that edit a row of supply_requests.
use spacecraft_corporation.Prelude.{ℕ, String, ◌≡◌, refl, true, Option, arith, str_eq}
use spacecraft_corporation.Supply.Guards.{touched}
use spacecraft_corporation.Supply.Edits
use spacecraft_corporation.Supply.Invariant.{IsEdit}

pub touched-IsEdit : (now : ℕ) → IsEdit (touched now)
unfolding touched
touched-IsEdit now = record {
  same_id = λ x. refl;
  same_server = λ x. refl;
  same_owner = λ x. refl;
  same_status = λ x. refl;
  same_end = λ x. refl;
  threaded = λ x h. h;
  columns = λ x h. h;
}

pub with_details-IsEdit : (t d : String) (now : ℕ) → IsEdit (Edits.with_details t d now)
with_details-IsEdit t d now = record {
  same_id = λ x. refl;
  same_server = λ x. refl;
  same_owner = λ x. refl;
  same_status = λ x. refl;
  same_end = λ x. refl;
  threaded = λ x h. h;
  columns = λ x h. h;
}

pub with_thread-IsEdit : (t : String) → IsEdit (Edits.with_thread t)
with_thread-IsEdit t = record {
  same_id = λ x. refl;
  same_server = λ x. refl;
  same_owner = λ x. refl;
  same_status = λ x. refl;
  same_end = λ x. refl;
  threaded = λ x h. refl;
  columns = λ x h. h;
}

pub with_location-IsEdit :
    (gdid gd_version : String) (now : ℕ)
    → Edits.same_bool (str_eq gdid "") (str_eq gd_version "") ≡ true
    → IsEdit (Edits.with_location gdid gd_version now)
with_location-IsEdit gdid gd_version now h = record {
  same_id = λ x. refl;
  same_server = λ x. refl;
  same_owner = λ x. refl;
  same_status = λ x. refl;
  same_end = λ x. refl;
  threaded = λ x h. h;
  columns = λ x w. ground arith;
}

pub with_system-IsEdit :
    (name code : String) (planet : Option ℕ) (now : ℕ)
    → Edits.is_planet planet ≡ true
    → IsEdit (Edits.with_system name code planet now)
with_system-IsEdit name code planet now h = record {
  same_id = λ x. refl;
  same_server = λ x. refl;
  same_owner = λ x. refl;
  same_status = λ x. refl;
  same_end = λ x. refl;
  threaded = λ x h. h;
  columns = λ x w. ground arith;
}

pub with_message-IsEdit :
    (guild channel message : String) (now : ℕ)
    → Edits.is_message_ref guild channel message ≡ true
    → IsEdit (Edits.with_message guild channel message now)
with_message-IsEdit guild channel message now h = record {
  same_id = λ x. refl;
  same_server = λ x. refl;
  same_owner = λ x. refl;
  same_status = λ x. refl;
  same_end = λ x. refl;
  threaded = λ x h. h;
  columns = λ x w. ground arith;
}
