-- ===== src/Contracts/Guards.antt =====
-- The locking reads of postgres.go and the statements that its methods share. A locked row is not
-- changed by another transaction, so a method is one step on the tables.
use spacecraft_corporation.Prelude.{
  ℕ, String, Bool, false, not, ◌&&◌, Option, none, some, List, ◌∷◌, leb, ◌==◌, if◌then◌else◌,
  str_eq,
}
use spacecraft_corporation.Prelude.Rows.{select?, update_where}
use spacecraft_corporation.Prelude.Tx.{Result, ok, err}
pub use spacecraft_corporation.Reservations.{
  reserved_on, delivered_on, reserved_total, delivered_total,
}
use spacecraft_corporation.Contracts.Model.{
  is_open, TaskKind, Error, Contract, Item, Reservation, Task, Db,
}

-- A comparison with a nullable column: NULL is equal to nothing.
abbrev pub text_is : Option String → String → Bool
text_is none t = false
text_is (some s) t = str_eq s t

-- COALESCE(deadline <= now, false)
abbrev pub is_past : Option ℕ → ℕ → Bool
is_past none now = false
is_past (some d) now = leb d now

-- nullIfEmpty
abbrev pub null_if_empty : String → Option String
null_if_empty s = if str_eq s "" then none else some s

-- The guard that the three locks share: the contract is open, and its deadline has not passed.
unfoldable pub open_guard : Contract → ℕ → Result Error Contract
open_guard c now =
    if not (is_open c.status)
    then err Error.closed
    else if is_past c.deadline now
    then err Error.expired
    else ok c

unfoldable pub guard_found : Option Contract → ℕ → Result Error Contract
guard_found none now = err Error.not_found
guard_found (some c) now = open_guard c now

unfoldable pub lock_open_contract : ℕ → String → ℕ → Db → Result Error Contract
unfolding guard_found open_guard
lock_open_contract server thread now db =
    guard_found
      (select? (λ (c : Contract). (c.servers_id == server) && text_is c.thread_id thread)
        db.contracts)
      now

unfoldable pub lock_open_contract_by_id : ℕ → ℕ → ℕ → Db → Result Error Contract
unfolding guard_found open_guard
lock_open_contract_by_id server cid now db =
    guard_found (select? (λ (c : Contract). (c.id == cid) && (c.servers_id == server)) db.contracts)
      now

-- contract_items ci JOIN contracts c ON c.id = ci.contracts_id
abbrev pub item_owner : ℕ → Option Item → List Contract → Option Contract
item_owner server none contracts = none
item_owner server (some it) contracts =
    select? (λ (c : Contract). (c.id == it.contracts_id) && (c.servers_id == server)) contracts

unfoldable pub lock_open_contract_by_item : ℕ → ℕ → ℕ → Db → Result Error Contract
unfolding guard_found open_guard
lock_open_contract_by_item server item now db =
    guard_found (item_owner server (select? (λ (i : Item). i.id == item) db.items) db.contracts) now

or_error : {A : Type 0} → Option A → Error → Result Error A
or_error none e = err e
or_error (some a) e = ok a

-- lockItem: `lower` is PostgreSQL's.
unfoldable pub lock_item : (String → String) → ℕ → String → Db → Result Error Item
unfolding or_error
lock_item lower cid name db =
    or_error
      (select? (λ (i : Item). (i.contracts_id == cid) && str_eq (lower i.item_name) (lower name))
        db.items)
      Error.item_not_found

-- The member's row of an item.
unfoldable pub lock_reservation : ℕ → String → Db → Result Error Reservation
unfolding or_error
lock_reservation item user db =
    or_error
      (select? (λ (r : Reservation). (r.items_id == item) && str_eq r.user_id user) db.reservations)
      Error.no_reservation

-- UPDATE contracts SET f WHERE id = cid
abbrev pub set_contract : ℕ → (Contract → Contract) → Db → Db
set_contract cid f db = record db {
  contracts = update_where (λ (c : Contract). c.id == cid) f db.contracts;
}

unfoldable pub touched : ℕ → String → Contract → Contract
touched now actor c = record c { updated_at = now; updated_by = actor; last_refreshed_at = now }

-- touch
unfoldable pub touch : ℕ → ℕ → String → Db → Db
unfolding touched
touch cid now actor = set_contract cid (touched now actor)

-- The requests of the feature carry the contract's id as payload and as collapsing key.
abbrev pub task_for : TaskKind → ℕ → Task
task_for k cid = record {
  kind = k;
  contract_id = cid;
  app_id = "";
  token = "";
  repost = false;
  chronometric_id = cid;
}

abbrev pub enqueue : Task → Db → Db
enqueue t db = record db { tasks = t ∷ db.tasks }

-- enqueueRefresh
unfoldable pub enqueue_refresh : ℕ → Db → Db
enqueue_refresh cid = enqueue (task_for TaskKind.refresh cid)

-- enqueueClose
unfoldable pub enqueue_close : ℕ → Db → Db
enqueue_close cid = enqueue (task_for TaskKind.close cid)

-- enqueueNotify
unfoldable pub enqueue_notify : ℕ → Db → Db
enqueue_notify cid = enqueue (task_for TaskKind.notify cid)

-- enqueuePayout
unfoldable pub enqueue_payout : ℕ → Bool → Db → Db
enqueue_payout cid repost db =
    enqueue (record (task_for TaskKind.payout cid) { repost = repost }) db
