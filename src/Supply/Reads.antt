-- ===== src/Supply/Reads.antt =====
-- What the panels read: loadItems with the aggregates and the participants, the Progress loads,
-- MemberOutstanding and ListByOwner of postgres.go, and the quantities of supply.go. `text_before`
-- is the order of PostgreSQL on user ids.
use spacecraft_corporation.Prelude.{
  ℕ, ◌-◌, String, Bool, true, false, ◌&&◌, ◌||◌, Option, none, some, List, [], ◌∷◌, ◌++◌, map, ltb,
  ◌==◌, str_eq,
}
use spacecraft_corporation.Prelude.Rows.{select?, select_all, update_where, count_where, exists}
use spacecraft_corporation.Prelude.Order.{order_by, page}
use spacecraft_corporation.Prelude.Tx.{Result, ok, err}
use spacecraft_corporation.Reservations.{reserved_total, delivered_total}
use spacecraft_corporation.Supply.Model.{Status, Error, Request, Item, Reservation, Db}
use spacecraft_corporation.Supply.Guards.{text_is, owned, item_request}
use spacecraft_corporation.Supply.Items.{item_of}

-- One member's contribution to an item.
pub record Participant : Type 0 where
  pub user_id : String
  pub reserved : ℕ
  pub delivered : ℕ

-- An item with its aggregates over all members: the `Item` of supply.go.
pub record ItemProgress : Type 0 where
  pub id : ℕ
  pub gdid : String
  pub gd_version : String
  pub required_qty : ℕ
  pub reserved_qty : ℕ
  pub delivered_qty : ℕ
  pub participants : List Participant

-- Remaining and OutstandingReserved: a negative difference is 0.
unfoldable pub remaining : ItemProgress → ℕ
remaining it = it.required_qty - it.reserved_qty

unfoldable pub outstanding_reserved : ItemProgress → ℕ
outstanding_reserved it = it.reserved_qty - it.delivered_qty

abbrev item_before : Item → Item → Bool
item_before a b = ltb a.created_at b.created_at || ((a.created_at == b.created_at) && ltb a.id b.id)

-- The row of the first query.
abbrev pub aggregated : List Reservation → Item → ItemProgress
aggregated rs i = record {
  id = i.id;
  gdid = i.item_gdid;
  gd_version = i.gamedata_version;
  required_qty = i.required_qty;
  reserved_qty = reserved_total i.id rs;
  delivered_qty = delivered_total i.id rs;
  participants = [];
}

abbrev pub participant : Reservation → Participant
participant r = record {
  user_id = r.user_id;
  reserved = r.reserved_qty;
  delivered = r.delivered_qty;
}

abbrev pub with_participant : Reservation → ItemProgress → ItemProgress
with_participant r it = record it { participants = it.participants ++ (participant r ∷ []) }

-- The loop over the second query: each row goes to the item that `byID` finds.
unfoldable pub attach_all : List Reservation → List ItemProgress → List ItemProgress
attach_all [] items = items
attach_all (r ∷ rs) items =
    attach_all rs
      (update_where (λ (it : ItemProgress). it.id == r.items_id) (with_participant r) items)

abbrev pub item_of? : ℕ → Option Item → Bool
item_of? rid none = false
item_of? rid (some i) = item_of rid i

-- supply_reservations res JOIN supply_request_items i … WHERE i.supply_requests_id = rid
abbrev pub row_of : ℕ → List Item → Reservation → Bool
row_of rid items r = item_of? rid (select? (λ (i : Item). i.id == r.items_id) items)

module _ (text_before : String → String → Bool) where
  unfoldable pub load_items : ℕ → Db → List ItemProgress
  unfolding attach_all
  load_items rid db =
      attach_all
        (order_by (λ (a b : Reservation). text_before a.user_id b.user_id)
          (select_all (row_of rid db.items) db.reservations))
        (map (aggregated db.reservations)
          (order_by item_before (select_all (item_of rid) db.items)))

  -- A request with its items.
  abbrev pub Progress : Type 0
  Progress = Request × List ItemProgress

  loaded : Option Request → Db → Result Error Progress
  loaded none db = err Error.not_found
  loaded (some r) db = ok (r, load_items r.id db)

  -- loadByID and ProgressByID
  unfoldable pub load_by_id : ℕ → Db → Result Error Progress
  unfolding loaded
  load_by_id rid db = loaded (select? (λ (r : Request). r.id == rid) db.requests) db

  found : Option Request → Db → Result Error Progress
  found none db = err Error.not_found
  found (some r) db = load_by_id r.id db

  unfoldable pub progress : ℕ → String → Db → Result Error Progress
  unfolding found
  progress server thread db =
      found
        (select? (λ (r : Request). (r.servers_id == server) && text_is r.thread_id thread)
          db.requests)
        db

  unfoldable pub progress_by_id_owned : ℕ → String → ℕ → Db → Result Error Progress
  unfolding found
  progress_by_id_owned server owner rid db = found (select? (owned server owner rid) db.requests) db

  unfoldable pub progress_by_item_owned : ℕ → String → ℕ → Db → Result Error Progress
  unfolding found
  progress_by_item_owned server owner item db =
      found (item_request server owner (select? (λ (i : Item). i.id == item) db.items) db.requests)
        db

pub record MemberItem : Type 0 where
  pub gdid : String
  pub gd_version : String
  pub reserved : ℕ
  pub delivered : ℕ

abbrev in_thread : ℕ → String → Option Request → Bool
in_thread server thread none = false
in_thread server thread (some r) = (r.servers_id == server) && text_is r.thread_id thread

-- The rows of an item of the thread on which the member still owes something.
abbrev pub owes : ℕ → String → String → Db → Item → Reservation → Bool
owes server thread user db i r =
    (r.items_id == i.id)
    && str_eq r.user_id user
    && ltb r.delivered_qty r.reserved_qty
    && in_thread server thread (select? (λ (q : Request). q.id == i.requests_id) db.requests)

abbrev member_item : Item → Reservation → MemberItem
member_item i r = record {
  gdid = i.item_gdid;
  gd_version = i.gamedata_version;
  reserved = r.reserved_qty;
  delivered = r.delivered_qty;
}

unfoldable pub outstanding_on : ℕ → String → String → Db → List Item → List MemberItem
outstanding_on server thread user db [] = []
outstanding_on server thread user db (i ∷ is) =
    map (member_item i) (select_all (owes server thread user db i) db.reservations)
    ++ outstanding_on server thread user db is

unfoldable pub member_outstanding : ℕ → String → String → Db → List MemberItem
unfolding outstanding_on
member_outstanding server thread user db =
    outstanding_on server thread user db (order_by item_before db.items)

pub record ListEntry : Type 0 where
  pub id : ℕ
  pub title : String
  pub status : Status

abbrev list_entry : Request → ListEntry
list_entry r = record { id = r.id; title = r.title; status = r.status }

abbrev same_status : Status → Status → Bool
same_status Status.open_status Status.open_status = true
same_status Status.completed Status.completed = true
same_status Status.cancelled Status.cancelled = true
same_status _ _ = false

-- WHERE servers_id = … AND owner_user_id = … AND status = ANY(statuses)
abbrev pub listed : ℕ → String → List Status → Request → Bool
listed server owner statuses r =
    (r.servers_id == server)
    && str_eq r.owner_user_id owner
    && exists (same_status r.status) statuses

-- A page of the owner's requests, and the total of the filter. `newest_first` is what the database
-- makes of ORDER BY created_at DESC, which leaves the order of equal times to it.
unfoldable pub list_by_owner :
    (newest_first : List Request → List Request)
    → ℕ
    → String
    → List Status
    → (limit offset : ℕ) → Db
    → List ListEntry × ℕ
list_by_owner newest_first server owner statuses limit offset db = (
  map list_entry
      (page limit offset (newest_first (select_all (listed server owner statuses) db.requests))),
  count_where (listed server owner statuses) db.requests,
)
