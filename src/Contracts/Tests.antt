-- ===== src/Contracts/Tests.antt =====
-- The theorems on the contracts at a concrete server: one open contract for ten units of ore, and
-- one that was cancelled.
use spacecraft_corporation.Prelude.{
  ◌<◌, ◌≤◌, ◌+◌, ◌⊎◌, String, ◌≡◌, refl, Bool, true, false, none, some, List, [], ◌∷◌, arith,
}
use spacecraft_corporation.Prelude.Tx.{ok, err, commit}
use spacecraft_corporation.Contracts.Model.{
  PayoutRow, Status, Kind, Error, Contract, Item, Reservation, Db,
}
use spacecraft_corporation.Contracts.Guards.{lock_open_contract, lock_item, lock_reservation}
use spacecraft_corporation.Contracts.Create.{CreateInput}
use spacecraft_corporation.Contracts.Lifecycle
use spacecraft_corporation.Contracts.PayoutTable
use spacecraft_corporation.Contracts.PayoutTable.{Payout, payout_of}
use spacecraft_corporation.Contracts.Members.{participate, deliver, release, reservation_id_ok}
use spacecraft_corporation.Contracts.History.{Request, run}
use spacecraft_corporation.Contracts.Sound.Requests.{Sound}
use spacecraft_corporation.Contracts.Sound.History.{run-Sound}
use spacecraft_corporation.Contracts.Consistent.{Consistent}
use spacecraft_corporation.Contracts.Consistent.History.{run-Consistent}
use spacecraft_corporation.Contracts.Terminal.{Ended}
use spacecraft_corporation.Contracts.Terminal.History.{run-Ended}
use spacecraft_corporation.Contracts.Accounts.{
  Books, participate-Books, deliver-Books, release-Books,
}
use spacecraft_corporation.Contracts.Sweep.{sweep}
use spacecraft_corporation.Contracts.Sweep.Expire.{sweep-none_due}
use spacecraft_corporation.Prelude.Rows.{exists, select?}
use spacecraft_corporation.Contracts.Once.{
  mark_payouts_paid-once, mark_expired-once, mark_notified-once, save_payouts-IsStored,
}

-- The inputs are ASCII in lower case, on which `lower` and `fold` change nothing.
abbrev same : String → String
same s = s

abbrev empty : Db
empty = record { contracts = []; items = []; reservations = []; payouts = []; tasks = [] }

abbrev ore_contract : Contract
ore_contract = record {
  id = 1;
  servers_id = 7;
  thread_id = some "t1";
  title = "ore";
  description = "";
  status = Status.open_status;
  kind = Kind.custom;
  post_version = 2;
  deadline = some 100;
  reward_credits = some 5000;
  reward_reputation = none;
  reward_licence_points = none;
  participant_reward_factor = 5000;
  location_gdid = none;
  location_gd_version = none;
  template_id = none;
  payout_decimals = none;
  payout_posted_at = none;
  payouts_paid_at = none;
  payouts_paid_by = none;
  report_channel_id = none;
  report_message_id = none;
  expiry_notified_at = none;
  closed_at = none;
  created_by = "ann";
  updated_by = "ann";
  created_at = 0;
  updated_at = 0;
  last_refreshed_at = 0;
}

abbrev cancelled_contract : Contract
cancelled_contract = record ore_contract {
  id = 2;
  thread_id = some "t2";
  status = Status.cancelled;
  closed_at = some 5;
}

abbrev ore : Item
ore = record {
  id = 11;
  contracts_id = 1;
  item_name = "ore";
  item_gdid = none;
  gamedata_version = none;
  required_qty = 10;
  created_by = "ann";
  updated_by = "ann";
  created_at = 0;
  updated_at = 0;
}

abbrev bob_row : Reservation
bob_row = record {
  id = 21;
  items_id = 11;
  user_id = "bob";
  reserved_qty = 4;
  delivered_qty = 1;
  created_by = "bob";
  updated_by = "bob";
  created_at = 0;
  updated_at = 0;
}

abbrev tables : Db
tables = record {
  contracts = ore_contract ∷ cancelled_contract ∷ [];
  items = ore ∷ [];
  reservations = bob_row ∷ [];
  payouts = [];
  tasks = [];
}

tables-Sound : Sound tables
tables-Sound = record {
  items_keyed = (refl, tt);
  reservations_keyed = (refl, tt);
  one_row = (refl, tt);
  bound = (omega arith, tt);
  within = (omega arith, tt);
  orphans = λ k e. ground arith;
}

abbrev ore_input : CreateInput
ore_input = record {
  server_id = 7;
  kind = Kind.custom;
  title = "ore";
  description = "";
  deadline = some 100;
  reward_credits = some 5000;
  reward_reputation = none;
  reward_licence_points = none;
  participant_reward_factor = 5000;
  location_gdid = "";
  location_gd_version = "";
  template_id = none;
  items = (11, record { name = "ore"; gdid = ""; gd_version = ""; qty = 10 }) ∷ [];
  created_by = "ann";
  app_id = "app";
  token = "token";
}

-- A contract is created, filled and closed, with a late cancel.
abbrev story : List Request
story =
    Request.create ore_input 3 1
    ∷ Request.set_thread 3 "t3" 2
    ∷ Request.participate 7 "t3" "ore" "bob" 10 31 3
    ∷ Request.release 7 "t3" "ore" "bob" 2 "ann" 4
    ∷ Request.participate 7 "t3" "ore" "eve" 2 32 5
    ∷ Request.deliver 7 "t3" "ore" "bob" 8 6
    ∷ Request.deliver 7 "t3" "ore" "eve" 2 7
    ∷ Request.cancel 7 3 "ann" 8
    ∷ Request.mark_paid 7 3 "ann" 9
    ∷ []

empty-Sound : Sound empty
empty-Sound = record {
  items_keyed = tt;
  reservations_keyed = tt;
  one_row = tt;
  bound = tt;
  within = tt;
  orphans = λ k e. refl;
}

empty-Consistent : Consistent empty
empty-Consistent = record { keyed = tt; fits = λ k. refl }

run-Sound_example : Sound (run same same story tables)
run-Sound_example = run-Sound same same story tables tables-Sound

run-Consistent_example : Consistent (run same same story empty)
run-Consistent_example = run-Consistent same same story empty empty-Consistent

tables-Ended : Ended 2 Status.cancelled tables
tables-Ended = record {
  keyed = (refl, (refl, tt));
  ended = refl;
  row = (cancelled_contract, refl, refl);
}

run-Ended_example :
    Ended 2 Status.cancelled (run same same (Request.mark_expired 2 200 ∷ story) tables)
run-Ended_example =
    run-Ended same same 2 Status.cancelled (Request.mark_expired 2 200 ∷ story) tables tables-Ended

locked : lock_open_contract 7 "t1" 50 tables ≡ ok ore_contract
unfolding lock_open_contract
locked = refl

found : lock_item same 1 "ore" tables ≡ ok ore
unfolding lock_item
found = refl

own : lock_reservation 11 "bob" tables ≡ ok bob_row
unfolding lock_reservation
own = refl

fresh : reservation_id_ok 22 11 "eve" tables ≡ true
unfolding reservation_id_ok
fresh = refl

participate-Books_example :
    ((10 < 6 + 4) × (participate same 7 "t1" "ore" "eve" 6 22 50 tables ≡ err Error.over_cap))
    ⊎ ((new : Db) × (6 + 4 ≤ 10)
        × (participate same 7 "t1" "ore" "eve" 6 22 50 tables ≡ ok (tt, new))
        × Books 11 6 0 0 tables.reservations new.reservations)
participate-Books_example =
    participate-Books same 7 "t1" "ore" 50 tables tables-Sound ore_contract locked ore found "eve" 6
      22 fresh

deliver-Books_example :
    ((4 < 3 + 1) × (deliver same 7 "t1" "ore" "bob" 3 50 tables ≡ err Error.over_reserved))
    ⊎ ((done : Bool) × (new : Db) × (3 + 1 ≤ 4)
        × (deliver same 7 "t1" "ore" "bob" 3 50 tables ≡ ok (done, new))
        × Books 11 0 0 3 tables.reservations new.reservations)
deliver-Books_example =
    deliver-Books same 7 "t1" "ore" 50 tables tables-Sound ore_contract locked ore found bob_row
      "bob" own 3

release-Books_example :
    ((4 < 3 + 1) × (release same 7 "t1" "ore" "bob" 3 "ann" 50 tables ≡ err Error.below_delivered))
    ⊎ ((new : Db) × (3 + 1 ≤ 4)
        × (release same 7 "t1" "ore" "bob" 3 "ann" 50 tables ≡ ok (tt, new))
        × Books 11 0 3 0 tables.reservations new.reservations)
release-Books_example =
    release-Books same 7 "t1" "ore" 50 tables tables-Sound ore_contract locked ore found bob_row
      "bob" own 3 "ann"

abbrev paid_out : Db
paid_out = record tables {
  contracts = record ore_contract { status = Status.completed; closed_at = some 5 } ∷ [];
}

mark_payouts_paid-once_example :
    commit
      (PayoutTable.mark_payouts_paid 7 1 "eve" 9)
      (commit (PayoutTable.mark_payouts_paid 7 1 "ann" 8) paid_out).1
    ≡ (ok false, (commit (PayoutTable.mark_payouts_paid 7 1 "ann" 8) paid_out).1)
mark_payouts_paid-once_example = mark_payouts_paid-once 7 1 "ann" "eve" 8 9 paid_out

mark_expired-once_example :
    commit (Lifecycle.mark_expired 1 150) (commit (Lifecycle.mark_expired 1 150) tables).1
    ≡ (ok false, (commit (Lifecycle.mark_expired 1 150) tables).1)
mark_expired-once_example = mark_expired-once 1 150 150 tables (omega arith)

mark_notified-once_example :
    commit (Lifecycle.mark_notified 1 60) (commit (Lifecycle.mark_notified 1 50) tables).1
    ≡ (ok false, (commit (Lifecycle.mark_notified 1 50) tables).1)
mark_notified-once_example = mark_notified-once 1 50 60 tables

sweep-none_due_example :
    exists (Lifecycle.is_due 150) (sweep (λ k. 151) (λ k. 152) 150 20 tables).contracts ≡ false
sweep-none_due_example =
    sweep-none_due 150 (λ k. 151) (λ k. 152) (λ k. omega arith) 20 tables (omega arith)

abbrev bob_payout : PayoutRow
bob_payout = record {
  id = 41;
  contracts_id = 1;
  user_id = "bob";
  user_name = "Bob";
  amount = 250000;
  share_percent = 100000000;
  created_at = 8;
}

abbrev bob_again : Payout
bob_again = record {
  row_id = 42;
  user_id = "bob";
  user_name = "Robert";
  amount = 1;
  share_percent = 0;
}

abbrev bob_stored : Db
bob_stored = record tables { payouts = bob_payout ∷ [] }

save_payouts-IsStored_example :
    select?
      (payout_of 1 "bob")
      (commit (PayoutTable.save_payouts 1 (bob_again ∷ []) 0 9) bob_stored).1.payouts
    ≡ some bob_payout
save_payouts-IsStored_example =
    save_payouts-IsStored 1 "bob" bob_payout (bob_again ∷ []) 0 9 bob_stored refl
