-- ===== src/Contracts/Create.antt =====
-- `Create` of postgres.go: the contract, its first items and the request for its forum post, in one
-- transaction. The servers and the templates that a row refers to are other tables.
use spacecraft_corporation.Prelude.{
  ℕ, String, Bool, true, some, ltb, not, ◌&&◌, Option, none, List, [], ◌∷◌, leb, ◌==◌,
}
use spacecraft_corporation.Prelude.Rows.{exists}
use spacecraft_corporation.Prelude.Tx.{Tx, check, write, pure, ◌>>◌}
use spacecraft_corporation.Contracts.Model.{
  Status, Kind, TaskKind, current_post_version, Error, Contract, Item, Db,
}
use spacecraft_corporation.Contracts.Guards.{null_if_empty, task_for, enqueue}
use spacecraft_corporation.Contracts.Items.{is_some, same_bool, insert_item}

pub record CreateItemInput : Type 0 where
  pub name : String
  pub gdid : String
  pub gd_version : String
  pub qty : ℕ

pub record CreateInput : Type 0 where
  pub server_id : ℕ
  pub kind : Kind
  pub title : String
  pub description : String
  pub deadline : Option ℕ
  pub reward_credits : Option ℕ
  pub reward_reputation : Option ℕ
  pub reward_licence_points : Option ℕ
  pub participant_reward_factor : ℕ
  pub location_gdid : String
  pub location_gd_version : String
  pub template_id : Option ℕ
  -- each item with the id that uuidv7 gives it
  pub items : List (ℕ × CreateItemInput)
  pub created_by : String
  pub app_id : String
  pub token : String

-- The row that `Create` inserts.
unfoldable pub created : CreateInput → ℕ → ℕ → Contract
created inp id now = record {
  id = id;
  servers_id = inp.server_id;
  thread_id = none;
  title = inp.title;
  description = inp.description;
  status = Status.open_status;
  kind = inp.kind;
  post_version = current_post_version;
  deadline = inp.deadline;
  reward_credits = inp.reward_credits;
  reward_reputation = inp.reward_reputation;
  reward_licence_points = inp.reward_licence_points;
  participant_reward_factor = inp.participant_reward_factor;
  location_gdid = null_if_empty inp.location_gdid;
  location_gd_version = null_if_empty inp.location_gd_version;
  template_id = inp.template_id;
  payout_decimals = none;
  payout_posted_at = none;
  payouts_paid_at = none;
  payouts_paid_by = none;
  report_channel_id = none;
  report_message_id = none;
  expiry_notified_at = none;
  closed_at = none;
  created_by = inp.created_by;
  updated_by = inp.created_by;
  created_at = now;
  updated_at = now;
  last_refreshed_at = now;
}

-- CHECK (participant_reward_factor <= 100), in hundredths of a percent
abbrev pub is_factor : ℕ → Bool
is_factor f = leb f 10000

-- NUMERIC(14, 2), in hundredths
abbrev pub is_amount : ℕ → Bool
is_amount n = ltb n 100000000000000

-- INTEGER
abbrev pub is_integer : ℕ → Bool
is_integer n = ltb n 2147483648

abbrev pub null_or : (ℕ → Bool) → Option ℕ → Bool
null_or p none = true
null_or p (some n) = p n

-- The columns of the rewards.
unfoldable pub rewards_ok : (credits reputation licence_points : Option ℕ) → Bool
rewards_ok credits reputation licence_points =
    null_or is_amount credits && null_or is_integer reputation && null_or is_integer licence_points

-- The primary key, the column types and the checks of contracts.
unfoldable pub contract_row_ok : Contract → Db → Bool
unfolding rewards_ok
contract_row_ok row db =
    not (exists (λ (c : Contract). c.id == row.id) db.contracts)
    && is_factor row.participant_reward_factor
    && rewards_ok row.reward_credits row.reward_reputation row.reward_licence_points
    && same_bool (is_some row.location_gdid) (is_some row.location_gd_version)

item_input : ℕ → String → ℕ → ℕ × CreateItemInput → Item
item_input cid actor now (id, inp) = record {
  id = id;
  contracts_id = cid;
  item_name = inp.name;
  item_gdid = null_if_empty inp.gdid;
  gamedata_version = null_if_empty inp.gd_version;
  required_qty = inp.qty;
  created_by = actor;
  updated_by = actor;
  created_at = now;
  updated_at = now;
}

unfoldable pub insert_items :
    (lower : String → String) (cid : ℕ) (actor : String) (now : ℕ)
    → List (ℕ × CreateItemInput)
    → Tx Error Db Unit
unfolding item_input
insert_items lower cid actor now [] = pure tt
insert_items lower cid actor now (inp ∷ inps) = do
  insert_item lower (item_input cid actor now inp)
  insert_items lower cid actor now inps

unfoldable pub create : (lower : String → String) (inp : CreateInput) (id now : ℕ) → Tx Error Db ℕ
create lower inp id now = do
  check (contract_row_ok (created inp id now)) Error.constraint
  write (λ db. record db { contracts = created inp id now ∷ db.contracts })
  insert_items lower id inp.created_by now inp.items
  write (
      enqueue
        (record (task_for TaskKind.create_thread id) { app_id = inp.app_id; token = inp.token }))
  pure id
