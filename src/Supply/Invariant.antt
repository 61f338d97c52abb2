-- ===== src/Supply/Invariant.antt =====
-- What a property of the requests and of the outbox needs in order to hold after every history: it
-- withstands each kind of write that the repository makes to the two tables.
mod Edits
pub mod History
use spacecraft_corporation.Prelude.{
  ℕ, String, ◌≡◌, subst, Bool, true, false, not, ◌&&◌, ◌||◌, inl, inr, Option, none, some, List,
  ◌∷◌, arith, ltb, ◌==◌, str_eq, Bool-cases, Option-cases,
}
use spacecraft_corporation.Prelude.Rows.{
  IsKeyed, select?, select?_key, select?_test, update_where, count_where, exists,
}
use spacecraft_corporation.Prelude.Tx.{ok}
use spacecraft_corporation.Supply.Model.{
  Status, is_open, TaskKind, Request, Item, Task, Db, CreateInput,
}
use spacecraft_corporation.Supply.Guards.{
  check_open, owned, item_request, lock_open_by_owner, lock_open_by_thread, lock_open_by_item_owner,
  task_for,
}
use spacecraft_corporation.Supply.Edits.{
  is_some, same_bool, is_planet, open_of, created, create_task_for, closed_as, without_thread,
}

abbrev pub request_id : Request → ℕ
request_id r = r.id

abbrev pub is_request : ℕ → Request → Bool
is_request k r = r.id == k

-- The checks of supply_requests on a row.
abbrev pub columns_ok : Request → Bool
columns_ok r =
    same_bool (is_some r.location_gdid) (is_some r.location_gd_version)
    && is_planet r.planet_number
    && same_bool (is_some r.ref_guild_id) (is_some r.ref_channel_id)
    && same_bool (is_some r.ref_channel_id) (is_some r.ref_message_id)

-- An edit of a row that leaves its identity, its owner and its status, and does not lose its
-- thread.
pub record IsEdit (f : Request → Request) : Type 0 where
  pub same_id : (x : Request) → (f x).id ≡ x.id
  pub same_server : (x : Request) → (f x).servers_id ≡ x.servers_id
  pub same_owner : (x : Request) → (f x).owner_user_id ≡ x.owner_user_id
  pub same_status : (x : Request) → (f x).status ≡ x.status
  pub same_end : (x : Request) → (f x).closed_at ≡ x.closed_at
  pub threaded : (x : Request) → is_some x.thread_id ≡ true → is_some (f x).thread_id ≡ true
  pub columns : (x : Request) → columns_ok x ≡ true → columns_ok (f x) ≡ true

-- The row of `rid` is there, and open.
abbrev pub IsOpenAt : ℕ → List Request → Type 0
IsOpenAt rid rs = (r : Request) × (select? (is_request rid) rs ≡ some r) × (is_open r.status ≡ true)

-- `Allowed` is what is known of the inputs of Create.
pub record IsInvariant (Allowed : CreateInput → Type 0) (P : List Request → List Task → Type 0)
    : Type 0 where
  pub keyed : (rs : List Request) (ts : List Task) → P rs ts → IsKeyed request_id rs
  pub enqueued : (rs : List Request) (ts : List Task) (t : Task) → P rs ts → P rs (t ∷ ts)
  pub edited :
      (rs : List Request) (ts : List Task) (rid : ℕ) (f : Request → Request)
      → IsEdit f
      → P rs ts
      → P (update_where (is_request rid) f rs) ts
  pub reposted :
      (rs : List Request) (ts : List Task) (rid now : ℕ)
      → P rs ts
      → P
          (update_where (is_request rid) (without_thread now) rs)
          (task_for TaskKind.create_task rid ∷ ts)
  pub ended :
      (rs : List Request) (ts : List Task) (rid : ℕ) (st : Status) (now : ℕ)
      → IsOpenAt rid rs
      → is_open st ≡ false
      → P rs ts
      → P
          (update_where (is_request rid) (closed_as st now) rs)
          (task_for TaskKind.close_task rid ∷ ts)
  pub inserted :
      (rs : List Request) (ts : List Task) (inp : CreateInput) (id now : ℕ)
      → Allowed inp
      → ltb (count_where (open_of inp.server_id inp.owner_user_id) rs) inp.open_limit ≡ true
      → select? (is_request id) rs ≡ none
      → P rs ts
      → P (created inp id now ∷ rs) (create_task_for inp id ∷ ts)

-- What the locks have found.
module _ (db : Db) (k : IsKeyed request_id db.requests) {r : Request} where
  check_open-row :
      (p : Request → Bool)
      → check_open (select? p db.requests) ≡ ok r
      → (select? (is_request r.id) db.requests ≡ some r) × (is_open r.status ≡ true)
  unfolding check_open
  check_open-row p e = (select?_key request_id p db.requests k (ground arith), ground arith)

  pub lock_by_thread-IsOpenAt :
      (server : ℕ) (thread : String)
      → lock_open_by_thread server thread db ≡ ok r
      → IsOpenAt r.id db.requests
  unfolding lock_open_by_thread
  lock_by_thread-IsOpenAt server thread e = let found = check_open-row _ e in (r, found.0, found.1)

  pub lock_by_owner-IsOpenAt :
      (server : ℕ) (owner : String) (rid : ℕ)
      → lock_open_by_owner server owner rid db ≡ ok r
      → IsOpenAt rid db.requests
  unfolding lock_open_by_owner check_open
  lock_by_owner-IsOpenAt server owner rid e =
      let at : r.id ≡ rid = ground (
        arith,
        select?_test request_id (owned server owner rid) {r = r} db.requests (ground arith),
      ) in
      let found = check_open-row (owned server owner rid) e in
      (r, subst (λ i. select? (is_request i) db.requests ≡ some r) at found.0, found.1)
