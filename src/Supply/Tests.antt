-- ===== src/Supply/Tests.antt =====
-- The theorems on supply requests at a concrete server: Ann's open request for ten units of ore,
-- six of which Bob has reserved, and one that she cancelled.
use spacecraft_corporation.Prelude.{
  ltb, ◌↔◌, ◌≡◌, refl, true, none, some, List, [], ◌∷◌, arith, All, length,
}
use spacecraft_corporation.Prelude.Order.{count_where-order_by, order_by, page, skip}
use spacecraft_corporation.Prelude.Tx.{ok, ◌>>=◌}
use spacecraft_corporation.Supply.Model.{
  Status, Error, Request, Item, Reservation, TaskKind, Db, CreateInput,
}
use spacecraft_corporation.Supply.Guards.{
  task_for, lock_open_by_thread, check_open, lock_item_by_gdid, lock_reservation, enqueue_close,
}
use spacecraft_corporation.Supply.History.{OwnerCall, Call, apply_owner, run}
use spacecraft_corporation.Supply.Members.{deliver, finish_if_complete, finish, is_complete}
use spacecraft_corporation.Supply.Balanced.{Balanced}
use spacecraft_corporation.Supply.Balanced.History.{run-Balanced}
use spacecraft_corporation.Supply.Limit.{IsLimited, run-IsLimited}
use spacecraft_corporation.Supply.Ended.{EndedAt, run-EndedAt}
use spacecraft_corporation.Supply.Announced.{Announced, run-Announced}
use spacecraft_corporation.Supply.Complete.{IsDelivered, status_of, deliver-answer}
use spacecraft_corporation.Supply.Forged.{error_owner, apply_owner-forged}
use spacecraft_corporation.Supply.Reads.{load_items, list_by_owner}
use spacecraft_corporation.Supply.Totals.{IsTotal, load_items-IsTotal}
use spacecraft_corporation.Supply.Paging.{IsSort, length-list_by_owner}

abbrev ore_request : Request
ore_request = record {
  id = 1;
  servers_id = 7;
  owner_user_id = "ann";
  thread_id = some "t1";
  title = "ore";
  description = "";
  status = Status.open_status;
  post_version = 1;
  location_gdid = none;
  location_gd_version = none;
  system_name = none;
  system_code = none;
  planet_number = some 3;
  ref_guild_id = none;
  ref_channel_id = none;
  ref_message_id = none;
  created_at = 10;
  updated_at = 20;
  closed_at = none;
}

abbrev gone_request : Request
gone_request = record ore_request {
  id = 2;
  thread_id = none;
  title = "gone";
  status = Status.cancelled;
  created_at = 5;
  closed_at = some 9;
}

abbrev ore : Item
ore = record {
  id = 10;
  requests_id = 1;
  item_gdid = "ore";
  gamedata_version = "v1";
  required_qty = 10;
  created_at = 11;
  updated_at = 11;
}

abbrev bob_row : Reservation
bob_row = record {
  id = 20;
  items_id = 10;
  user_id = "bob";
  reserved_qty = 6;
  delivered_qty = 2;
  created_by = "bob";
  updated_by = "bob";
  created_at = 12;
  updated_at = 12;
}

abbrev tables : Db
tables = record {
  requests = ore_request ∷ gone_request ∷ [];
  items = ore ∷ [];
  reservations = bob_row ∷ [];
  tasks = task_for TaskKind.close_task 2 ∷ task_for TaskKind.create_task 2 ∷ [];
}

abbrev second : CreateInput
second = record {
  server_id = 7;
  owner_user_id = "ann";
  title = "more";
  description = "";
  open_limit = 1;
  app_id = "app";
  token = "tok";
}

-- A reservation, a refused second request, both deliveries, and what comes too late.
abbrev story : List Call
story =
    Call.reserve 7 "t1" "ore" "eve" 4 21 30
    ∷ Call.create second 3 31
    ∷ Call.deliver 7 "t1" "ore" "eve" 4 32
    ∷ Call.deliver 7 "t1" "ore" "bob" 4 33
    ∷ Call.by_owner 7 "ann" 34 (OwnerCall.cancel 1)
    ∷ Call.create second 4 35
    ∷ []

tables-Balanced : Balanced tables
tables-Balanced = record {
  items_keyed = (refl, tt);
  reservations_keyed = (refl, tt);
  one_row = (refl, tt);
  bound = (omega arith, tt);
  within = (omega arith, tt);
  orphans = λ k e. ground arith;
}

run-Balanced_example : Balanced (run story tables)
run-Balanced_example = run-Balanced story tables tables-Balanced

tables-IsLimited : IsLimited 7 "ann" 1 tables.requests
tables-IsLimited = record { keyed = (refl, (refl, tt)); limited = omega arith }

run-IsLimited_example : IsLimited 7 "ann" 1 (run story tables).requests
run-IsLimited_example =
    run-IsLimited 7 "ann" 1 story tables
      (tt, (λ _. omega arith, (tt, (tt, (tt, (λ _. omega arith, tt)))))) tables-IsLimited

gone-EndedAt : EndedAt 2 Status.cancelled (some 9) tables.requests
gone-EndedAt = record {
  keyed = (refl, (refl, tt));
  ended = refl;
  row = (gone_request, refl, refl, refl);
}

run-EndedAt_example : EndedAt 2 Status.cancelled (some 9) (run story tables).requests
run-EndedAt_example = run-EndedAt 2 Status.cancelled (some 9) story tables gone-EndedAt

tables-Announced : Announced tables.requests tables.tasks
tables-Announced = record {
  keyed = (refl, (refl, tt));
  all = (
    record {
      closing = λ e. ground arith;
      stamped = refl;
      posting = λ e. ground arith;
      columns = refl;
    },
    (record { closing = λ e. refl; stamped = refl; posting = λ e. refl; columns = refl }, tt),
  );
}

run-Announced_example : Announced (run story tables).requests (run story tables).tasks
run-Announced_example = run-Announced story tables tables-Announced

apply_owner-forged_example :
    (error_owner 7 "eve" 34 (OwnerCall.remove_item 10) tables ≡ some Error.not_found)
    × (apply_owner 7 "eve" 34 (OwnerCall.remove_item 10) tables ≡ tables)
apply_owner-forged_example = apply_owner-forged 7 "eve" 34 (OwnerCall.remove_item 10) tables refl

load_items-IsTotal_example : All IsTotal (load_items (λ a b. true) 1 tables)
load_items-IsTotal_example = load_items-IsTotal (λ a b. true) 1 tables tables-Balanced

abbrev both : List Status
both = Status.open_status ∷ Status.cancelled ∷ []

-- Bob has reserved all ten units, and brings the last four.
abbrev nearly : Db
nearly = record tables {
  reservations = record bob_row { reserved_qty = 10; delivered_qty = 6 } ∷ [];
}

abbrev finished : Db
finished = record nearly {
  requests =
      record ore_request { status = Status.completed; closed_at = some 33; updated_at = 33 }
      ∷ gone_request
      ∷ [];
  reservations = record bob_row { reserved_qty = 10; delivered_qty = 10; updated_at = 33 } ∷ [];
  tasks = task_for TaskKind.close_task 1 ∷ tables.tasks;
}

bob_locks : lock_open_by_thread 7 "t1" nearly ≡ ok ore_request
unfolding lock_open_by_thread check_open
bob_locks = ground arith

bob_finishes : deliver 7 "t1" "ore" "bob" 4 33 nearly ≡ ok (true, finished)
unfolding deliver lock_open_by_thread check_open lock_item_by_gdid lock_reservation
    finish_if_complete finish is_complete enqueue_close ◌>>=◌
bob_finishes = ground arith

deliver-answer_example :
    ((true ≡ true) ↔ IsDelivered 1 finished) × (status_of 1 finished ≡ some Status.completed)
deliver-answer_example =
    deliver-answer 7 "t1" "ore" "bob" 4 33 nearly finished true ore_request (refl, (refl, tt))
      bob_locks bob_finishes

abbrev newest_first : List Request → List Request
newest_first = order_by (λ a b. ltb b.created_at a.created_at)

newest_first-IsSort : IsSort newest_first
newest_first-IsSort = record {
  keeps = count_where-order_by (λ (a b : Request). ltb b.created_at a.created_at);
}

length-list_by_owner_example : length (list_by_owner newest_first 7 "ann" both 1 0 tables).0 ≡ 1
unfolding list_by_owner order_by page skip
length-list_by_owner_example =
    length-list_by_owner newest_first newest_first-IsSort 7 "ann" both tables 1 0
