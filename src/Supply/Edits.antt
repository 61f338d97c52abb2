-- ===== src/Supply/Edits.antt =====
-- Create, the edits of an open request by its owner (mutateOpen and its four users), Cancel, and
-- the thread's lifecycle: SetThreadID, RecreatePost and Republish of postgres.go.
use spacecraft_corporation.Prelude.{
  ℕ, String, Bool, true, false, not, ◌&&◌, ◌||◌, Option, none, some, ◌∷◌, ltb, ◌==◌, if◌then◌else◌,
  str_eq,
}
use spacecraft_corporation.Prelude.Rows.{select?, count_where, exists}
use spacecraft_corporation.Prelude.Tx.{Tx, reads, check, guard, write, pure, ◌>>=◌, ◌>>◌}
use spacecraft_corporation.Supply.Model.{
  Status, is_open, current_post_version, TaskKind, Error, Request, Task, Db, CreateInput,
}
use spacecraft_corporation.Supply.Guards.{
  text_is, null_if_empty, check_open, owned, lock_open_by_owner, set_request, touch, task_for,
  enqueue, enqueue_refresh, enqueue_close,
}

abbrev pub is_some {ℓ} : {A : Type ℓ} → Option A → Bool
is_some none = false
is_some (some _) = true

abbrev pub same_bool : Bool → Bool → Bool
same_bool true b = b
same_bool false b = not b

-- CHECK (… > 0) on a 32-bit INTEGER column
abbrev pub is_quantity : ℕ → Bool
is_quantity q = ltb 0 q && ltb q 2147483648

-- The open requests of a member on a server.
abbrev pub open_of : ℕ → String → Request → Bool
open_of server owner r =
    (r.servers_id == server) && str_eq r.owner_user_id owner && is_open r.status

-- The row that `Create` inserts.
unfoldable pub created : CreateInput → ℕ → ℕ → Request
created inp id now = record {
  id = id;
  servers_id = inp.server_id;
  owner_user_id = inp.owner_user_id;
  thread_id = none;
  title = inp.title;
  description = inp.description;
  status = Status.open_status;
  post_version = current_post_version;
  location_gdid = none;
  location_gd_version = none;
  system_name = none;
  system_code = none;
  planet_number = none;
  ref_guild_id = none;
  ref_channel_id = none;
  ref_message_id = none;
  created_at = now;
  updated_at = now;
  closed_at = none;
}

abbrev pub create_task_for : CreateInput → ℕ → Task
create_task_for inp id = record (task_for TaskKind.create_task id) {
  app_id = inp.app_id;
  token = inp.token;
}

unfoldable pub create : CreateInput → (id now : ℕ) → Tx Error Db ℕ
create inp id now = do
  check
      (λ db. ltb (count_where (open_of inp.server_id inp.owner_user_id) db.requests) inp.open_limit)
      Error.limit
  check (λ db. not (exists (λ (r : Request). r.id == id) db.requests)) Error.constraint
  write (λ db. record db { requests = created inp id now ∷ db.requests })
  write (enqueue (create_task_for inp id))
  pure id

-- mutateOpen, with the statement of `fn`.
unfoldable pub mutate_open :
    (server : ℕ) (owner : String) (rid : ℕ) → Tx Error Db Unit → Tx Error Db Unit
mutate_open server owner rid fn = do
  _ ← reads (lock_open_by_owner server owner rid)
  fn
  write (enqueue_refresh rid)
  pure tt

abbrev pub with_details : String → String → ℕ → Request → Request
with_details title description now r = record r {
  title = title;
  description = description;
  updated_at = now;
}

unfoldable pub update_details :
    (server : ℕ) (owner : String) (rid : ℕ) (title description : String) (now : ℕ)
    → Tx Error Db Unit
unfolding mutate_open
update_details server owner rid title description now =
    mutate_open server owner rid (write (set_request rid (with_details title description now)))

abbrev pub with_location : String → String → ℕ → Request → Request
with_location gdid gd_version now r = record r {
  location_gdid = null_if_empty gdid;
  location_gd_version = null_if_empty gd_version;
  updated_at = now;
}

-- The UPDATE, with supply_requests_location_pair_check.
unfoldable pub set_delivery_location :
    (server : ℕ) (owner : String) (rid : ℕ) (gdid gd_version : String) (now : ℕ) → Tx Error Db Unit
unfolding mutate_open
set_delivery_location server owner rid gdid gd_version now = mutate_open server owner rid (do
  guard (same_bool (str_eq gdid "") (str_eq gd_version "")) Error.constraint
  write (set_request rid (with_location gdid gd_version now)))

abbrev pub with_system : String → String → Option ℕ → ℕ → Request → Request
with_system name code planet now r = record r {
  system_name = null_if_empty name;
  system_code = null_if_empty code;
  planet_number = planet;
  updated_at = now;
}

-- supply_requests_planet_check
abbrev pub is_planet : Option ℕ → Bool
is_planet none = true
is_planet (some n) = is_quantity n

unfoldable pub set_system_info :
    (server : ℕ) (owner : String) (rid : ℕ) (name code : String) (planet : Option ℕ) (now : ℕ)
    → Tx Error Db Unit
unfolding mutate_open
set_system_info server owner rid name code planet now = mutate_open server owner rid (do
  guard (is_planet planet) Error.constraint
  write (set_request rid (with_system name code planet now)))

abbrev pub with_message : String → String → String → ℕ → Request → Request
with_message guild channel message now r = record r {
  ref_guild_id = null_if_empty guild;
  ref_channel_id = null_if_empty channel;
  ref_message_id = null_if_empty message;
  updated_at = now;
}

-- supply_requests_ref_message_check: all three are set, or none.
abbrev pub is_message_ref : String → String → String → Bool
is_message_ref guild channel message =
    same_bool (str_eq guild "") (str_eq channel "")
    && same_bool (str_eq channel "") (str_eq message "")

unfoldable pub set_message_ref :
    (server : ℕ) (owner : String) (rid : ℕ) (guild channel message : String) (now : ℕ)
    → Tx Error Db Unit
unfolding mutate_open
set_message_ref server owner rid guild channel message now = mutate_open server owner rid (do
  guard (is_message_ref guild channel message) Error.constraint
  write (set_request rid (with_message guild channel message now)))

abbrev pub closed_as : Status → ℕ → Request → Request
closed_as st now r = record r { status = st; closed_at = some now; updated_at = now }

unfoldable pub cancel : (server : ℕ) (owner : String) (rid now : ℕ) → Tx Error Db Unit
cancel server owner rid now = do
  _ ← reads (lock_open_by_owner server owner rid)
  write (set_request rid (closed_as Status.cancelled now))
  write (enqueue_close rid)
  pure tt

abbrev pub with_thread : String → Request → Request
with_thread thread r = record r { thread_id = some thread; post_version = current_post_version }

-- The UPDATE, with the unique index on thread_id.
unfoldable pub set_thread_id : (rid : ℕ) (thread : String) → Tx Error Db Unit
set_thread_id rid thread = do
  check
      (λ db.
        not (exists (λ (r : Request). r.id == rid) db.requests)
        || not
            (exists (λ (r : Request). text_is r.thread_id thread && not (r.id == rid)) db.requests))
      Error.constraint
  write (set_request rid (with_thread thread))

abbrev pub without_thread : ℕ → Request → Request
without_thread now r = record r { thread_id = none; updated_at = now }

unfoldable pub recreate_post : (rid now : ℕ) → Tx Error Db Unit
recreate_post rid now = do
  write (set_request rid (without_thread now))
  write (enqueue (task_for TaskKind.create_task rid))

abbrev pub has_no_thread : Request → Bool
has_no_thread r = not (is_some r.thread_id) || text_is r.thread_id ""

unfoldable pub republish : (server : ℕ) (owner : String) (rid now : ℕ) → Tx Error Db Unit
republish server owner rid now = do
  r ← reads (λ db. check_open (select? (owned server owner rid) db.requests))
  write (touch rid now)
  write
      (if has_no_thread r then enqueue (task_for TaskKind.create_task rid) else enqueue_refresh rid)
