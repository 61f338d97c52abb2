-- ===== src/Supply/Guards.antt =====
-- The locking reads of postgres.go and the statements that its methods share. A locked row is not
-- changed by another transaction, so a method is one step on the tables; Create is one by its
-- advisory lock.
use spacecraft_corporation.Prelude.{
  ℕ, String, Bool, false, ◌&&◌, Option, none, some, List, ◌∷◌, ◌==◌, if◌then◌else◌, str_eq,
}
use spacecraft_corporation.Prelude.Rows.{select?, update_where}
use spacecraft_corporation.Prelude.Tx.{Result, ok, err}
use spacecraft_corporation.Reservations.{same_member}
use spacecraft_corporation.Supply.Model.{
  is_open, TaskKind, Error, Request, Item, Reservation, Task, Db,
}

-- A comparison with a nullable column: NULL is equal to nothing.
abbrev pub text_is : Option String → String → Bool
text_is none t = false
text_is (some s) t = str_eq s t

-- nullIfEmpty
abbrev pub null_if_empty : String → Option String
null_if_empty s = if str_eq s "" then none else some s

-- checkOpen, with the whole row in place of its id.
unfoldable pub check_open : Option Request → Result Error Request
check_open none = err Error.not_found
check_open (some r) = if is_open r.status then ok r else err Error.closed

unfoldable pub lock_open_by_thread : ℕ → String → Db → Result Error Request
unfolding check_open
lock_open_by_thread server thread db =
    check_open (
      select? (λ (r : Request). (r.servers_id == server) && text_is r.thread_id thread) db.requests)

abbrev pub owned : ℕ → String → ℕ → Request → Bool
owned server owner rid r = (r.id == rid) && (r.servers_id == server) && str_eq r.owner_user_id owner

unfoldable pub lock_open_by_owner : ℕ → String → ℕ → Db → Result Error Request
unfolding check_open
lock_open_by_owner server owner rid db = check_open (select? (owned server owner rid) db.requests)

-- supply_request_items i JOIN supply_requests req ON req.id = i.supply_requests_id
abbrev pub item_request : ℕ → String → Option Item → List Request → Option Request
item_request server owner none requests = none
item_request server owner (some it) requests = select? (owned server owner it.requests_id) requests

unfoldable pub lock_open_by_item_owner : ℕ → String → ℕ → Db → Result Error Request
unfolding check_open
lock_open_by_item_owner server owner item db =
    check_open
      (item_request server owner (select? (λ (i : Item). i.id == item) db.items) db.requests)

or_error : {A : Type 0} → Option A → Error → Result Error A
or_error none e = err e
or_error (some a) e = ok a

unfoldable pub lock_item_by_gdid : ℕ → String → Db → Result Error Item
unfolding or_error
lock_item_by_gdid rid gdid db =
    or_error (select? (λ (i : Item). (i.requests_id == rid) && str_eq i.item_gdid gdid) db.items)
      Error.item_not_found

unfoldable pub lock_reservation : ℕ → String → Db → Result Error Reservation
unfolding or_error
lock_reservation item user db =
    or_error (select? (same_member item user) db.reservations) Error.no_reservation

-- UPDATE supply_requests SET f WHERE id = rid
abbrev pub set_request : ℕ → (Request → Request) → Db → Db
set_request rid f db = record db {
  requests = update_where (λ (r : Request). r.id == rid) f db.requests;
}

unfoldable pub touched : ℕ → Request → Request
touched now r = record r { updated_at = now }

unfoldable pub touch : ℕ → ℕ → Db → Db
unfolding touched
touch rid now = set_request rid (touched now)

-- The requests of the feature carry the request's id as payload and as collapsing key.
abbrev pub task_for : TaskKind → ℕ → Task
task_for k rid = record {
  kind = k;
  request_id = rid;
  app_id = "";
  token = "";
  chronometric_id = rid;
}

abbrev pub enqueue : Task → Db → Db
enqueue t db = record db { tasks = t ∷ db.tasks }

unfoldable pub enqueue_refresh : ℕ → Db → Db
enqueue_refresh rid = enqueue (task_for TaskKind.refresh_task rid)

unfoldable pub enqueue_close : ℕ → Db → Db
enqueue_close rid = enqueue (task_for TaskKind.close_task rid)
