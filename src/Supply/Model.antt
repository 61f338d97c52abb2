-- ===== src/Supply/Model.antt =====
-- The tables of internal/features/supply: supply_requests, supply_request_items,
-- supply_reservations and the outbox rows that the repository enqueues, with the sentinel errors
-- of supply.go. An identifier (UUID) is a number, a timestamp a number, and a nullable column an
-- `Option`.
pub use spacecraft_corporation.Reservations.{Reservation}
use spacecraft_corporation.Prelude.{ℕ, String, Bool, true, false, Option, List}

pub data Status : Type 0 where
  open_status completed cancelled : Status

abbrev pub is_open : Status → Bool
is_open Status.open_status = true
is_open _ = false

abbrev pub current_post_version : ℕ
current_post_version = 1

pub data TaskKind : Type 0 where
  create_task refresh_task close_task : TaskKind

-- The sentinel errors, and a violated constraint of a table.
pub data Error : Type 0 where
  not_found closed item_not_found item_exists max_items limit over_cap over_reserved : Error
  no_reservation below_delivered qty_below_reserved constraint : Error

-- A row of `supply_requests`.
pub record Request : Type 0 where
  pub id : ℕ
  pub servers_id : ℕ
  pub owner_user_id : String
  pub thread_id : Option String
  pub title : String
  pub description : String
  pub status : Status
  pub post_version : ℕ
  pub location_gdid : Option String
  pub location_gd_version : Option String
  pub system_name : Option String
  pub system_code : Option String
  pub planet_number : Option ℕ
  pub ref_guild_id : Option String
  pub ref_channel_id : Option String
  pub ref_message_id : Option String
  pub created_at : ℕ
  pub updated_at : ℕ
  pub closed_at : Option ℕ

-- A row of `supply_request_items`.
pub record Item : Type 0 where
  pub id : ℕ
  pub requests_id : ℕ
  pub item_gdid : String
  pub gamedata_version : String
  pub required_qty : ℕ
  pub created_at : ℕ
  pub updated_at : ℕ

-- An outbox request of the feature: its kind, its `taskPayload` and its collapsing key.
pub record Task : Type 0 where
  pub kind : TaskKind
  pub request_id : ℕ
  pub app_id : String
  pub token : String
  pub chronometric_id : ℕ

-- The tables. New rows stand in front; `tasks` holds every request that was ever enqueued.
pub record Db : Type 0 where
  pub requests : List Request
  pub items : List Item
  pub reservations : List Reservation
  pub tasks : List Task

pub record CreateInput : Type 0 where
  pub server_id : ℕ
  pub owner_user_id : String
  pub title : String
  pub description : String
  pub open_limit : ℕ
  pub app_id : String
  pub token : String
