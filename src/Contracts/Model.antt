-- ===== src/Contracts/Model.antt =====
-- The tables of internal/features/contracts: contracts, contract_items, contract_reservations,
-- contract_payouts and the outbox rows that the repository enqueues, with the sentinel errors.
-- An identifier (UUID) is a number, a timestamp a number, and a NUMERIC(_, 2) column the number
-- of its hundredths. A nullable column is an `Option`.
pub use spacecraft_corporation.Reservations.{Reservation}
use spacecraft_corporation.Prelude.{ℕ, String, Bool, true, false, Option, List}

pub data Status : Type 0 where
  open_status completed expired_status cancelled : Status

abbrev pub is_open : Status → Bool
is_open Status.open_status = true
is_open _ = false

abbrev pub is_completed : Status → Bool
is_completed Status.completed = true
is_completed _ = false

pub data Kind : Type 0 where
  custom template : Kind

abbrev pub current_post_version : ℕ
current_post_version = 2

pub data TaskKind : Type 0 where
  create_thread refresh close notify payout : TaskKind

-- The sentinel errors, and a violated constraint of a table.
pub data Error : Type 0 where
  not_found closed expired item_not_found item_exists max_items over_cap over_reserved : Error
  no_reservation below_delivered qty_below_reserved constraint : Error

-- A row of `contracts`.
pub record Contract : Type 0 where
  pub id : ℕ
  pub servers_id : ℕ
  pub thread_id : Option String
  pub title : String
  pub description : String
  pub status : Status
  pub kind : Kind
  pub post_version : ℕ
  pub deadline : Option ℕ
  pub reward_credits : Option ℕ
  pub reward_reputation : Option ℕ
  pub reward_licence_points : Option ℕ
  pub participant_reward_factor : ℕ
  pub location_gdid : Option String
  pub location_gd_version : Option String
  pub template_id : Option ℕ
  pub payout_decimals : Option ℕ
  pub payout_posted_at : Option ℕ
  pub payouts_paid_at : Option ℕ
  pub payouts_paid_by : Option String
  pub report_channel_id : Option String
  pub report_message_id : Option String
  pub expiry_notified_at : Option ℕ
  pub closed_at : Option ℕ
  pub created_by : String
  pub updated_by : String
  pub created_at : ℕ
  pub updated_at : ℕ
  pub last_refreshed_at : ℕ

-- A row of `contract_items`.
pub record Item : Type 0 where
  pub id : ℕ
  pub contracts_id : ℕ
  pub item_name : String
  pub item_gdid : Option String
  pub gamedata_version : Option String
  pub required_qty : ℕ
  pub created_by : String
  pub updated_by : String
  pub created_at : ℕ
  pub updated_at : ℕ

-- A row of `contract_payouts`, the amount in hundredths and the share in millionths of a percent.
pub record PayoutRow : Type 0 where
  pub id : ℕ
  pub contracts_id : ℕ
  pub user_id : String
  pub user_name : String
  pub amount : ℕ
  pub share_percent : ℕ
  pub created_at : ℕ

-- An outbox request of the feature: its kind, its `taskPayload` and its collapsing key.
pub record Task : Type 0 where
  pub kind : TaskKind
  pub contract_id : ℕ
  pub app_id : String
  pub token : String
  pub repost : Bool
  pub chronometric_id : ℕ

-- The tables. New rows stand in front; `tasks` holds every request that was ever enqueued.
pub record Db : Type 0 where
  pub contracts : List Contract
  pub items : List Item
  pub reservations : List Reservation
  pub payouts : List PayoutRow
  pub tasks : List Task
