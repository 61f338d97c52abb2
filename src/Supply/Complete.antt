-- ===== src/Supply/Complete.antt =====
-- When a delivery completes a request.
use mathlib.Core.Option
use spacecraft_corporation.Prelude.{
  Option, some, ℕ, ◌≤◌, String, ◌≡◌, refl, sym, subst, Bool, true, false, ◌&&◌, ◌⊎◌, ◌↔◌, inl, inr,
  List, [], ◌∷◌, arith, ltb, ◌==◌, if◌then◌else◌, Bool-cases, All,
}
use spacecraft_corporation.Prelude.Rows.{count_where, exists, select?, select?-update, IsKeyed}
use spacecraft_corporation.Prelude.Tx.{ok, Ensures, Ensures-reads, Ensures-guard, tx_rules}
use spacecraft_corporation.Reservations.{delivered_total, deliver_more}
use spacecraft_corporation.Supply.Model.{Status, is_open, Request, Item, Reservation, Db}
use spacecraft_corporation.Supply.Guards.{
  lock_open_by_thread, touch, touched, enqueue_refresh, enqueue_close,
}
use spacecraft_corporation.Supply.Edits.{closed_as}
use spacecraft_corporation.Supply.Items.{item_of}
use spacecraft_corporation.Supply.Invariant.{request_id, IsOpenAt, lock_by_thread-IsOpenAt}
use spacecraft_corporation.Supply.Members.{
  is_short, is_complete, finish, finish_if_complete, deliver, set_reservation,
}

count_where-exists :
    {A : Type 0} (p : A → Bool) (xs : List A) → ltb 0 (count_where p xs) ≡ exists p xs
count_where-exists p [] = refl
count_where-exists p (x ∷ xs) = ground (arith, count_where-exists p xs)

-- The request has an item, and every item of it was delivered in full.
pub record IsDelivered (rid : ℕ) (db : Db) : Type 0 where
  pub has_item : exists (item_of rid) db.items ≡ true
  pub all :
      All
        (λ (i : Item).
          (item_of rid i ≡ false) ⊎ (i.required_qty ≤ delivered_total i.id db.reservations))
        db.items

none_short :
    (rid : ℕ) (rs : List Reservation) (items : List Item)
    → (count_where (λ (i : Item). item_of rid i && is_short rs i) items == 0) ≡ true
    → All (λ (i : Item). (item_of rid i ≡ false) ⊎ (i.required_qty ≤ delivered_total i.id rs)) items
none_short rid rs [] e = tt
none_short rid rs (i ∷ is) e = (
  elim (Bool-cases (item_of rid i)) [ inl of ↦ inr (ground arith) | inr other ↦ inl other ],
  none_short rid rs is (ground arith),
)

count_short :
    (rid : ℕ) (rs : List Reservation) (items : List Item)
    → All (λ (i : Item). (item_of rid i ≡ false) ⊎ (i.required_qty ≤ delivered_total i.id rs)) items
    → (count_where (λ (i : Item). item_of rid i && is_short rs i) items == 0) ≡ true
count_short rid rs [] h = refl
count_short rid rs (i ∷ is) h = ground (arith, count_short rid rs is h.1, h.0)

is_complete-IsDelivered : (rid : ℕ) (db : Db) → (is_complete rid db ≡ true) ↔ IsDelivered rid db
unfolding is_complete
is_complete-IsDelivered rid db = (
  λ e. record {
    has_item = ground (arith, count_where-exists (item_of rid) db.items);
    all = none_short rid db.reservations db.items (ground arith);
  },
  λ h. ground (
    arith,
    count_where-exists (item_of rid) db.items,
    count_short rid db.reservations db.items h.all,
    h.has_item,
  ),
)

-- `finish` does not change items and reservations.
finish-frame :
    (rid now : ℕ) (db : Db)
    → ((finish rid now db).items ≡ db.items) × ((finish rid now db).reservations ≡ db.reservations)
unfolding finish touch enqueue_refresh enqueue_close
finish-frame rid now db = elim (Bool-cases (is_complete rid db)) [
  | inl e ↦ rw e (refl, refl)
  | inr e ↦ rw e (refl, refl)
]

finish-is_complete :
    (rid now : ℕ) (db : Db) → is_complete rid (finish rid now db) ≡ is_complete rid db
unfolding is_complete
finish-is_complete rid now db = let same = finish-frame rid now db in rw (same.0, same.1) refl

-- What finishing does to the row of the request and to the outbox.
abbrev pub status_of : ℕ → Db → Option Status
status_of rid db =
    Option.map (λ (r : Request). r.status) (select? (λ (r : Request). r.id == rid) db.requests)

finish-status :
    (rid now : ℕ) (db : Db)
    → status_of rid db ≡ some Status.open_status
    → status_of rid (finish rid now db)
      ≡ some (if is_complete rid db then Status.completed else Status.open_status)
unfolding finish touch touched enqueue_refresh enqueue_close
finish-status rid now db e = elim (Bool-cases (is_complete rid db)) [
  | inl h ↦ rw h (
      ground (
        arith,
        e,
        select?-update (λ (r : Request). r.id) (closed_as Status.completed now) rid rid db.requests
            (λ x. refl),
      ))
  | inr h ↦ rw h (
      ground (
        arith,
        e,
        select?-update (λ (r : Request). r.id) (touched now) rid rid db.requests (λ x. refl),
      ))
]

open-status :
    (rid : ℕ) (db : Db) → IsOpenAt rid db.requests → status_of rid db ≡ some Status.open_status
open-status rid db o = rw o.1 (open_only o.0.status o.2)
  where
    open_only : (st : Status) → is_open st ≡ true → some st ≡ some Status.open_status
    open_only Status.open_status e = refl
    open_only Status.completed e = cc
    open_only Status.cancelled e = cc

-- What Deliver answers, in terms of the tables that it leaves behind.
record Answers (rid : ℕ) (complete : Bool) (db : Db) : Type 0 where
  pub exact : (complete ≡ true) ↔ IsDelivered rid db
  pub status : status_of rid db ≡ some (if complete then Status.completed else Status.open_status)

finish-Answers :
    (rid now : ℕ) (db : Db)
    → IsOpenAt rid db.requests
    → Answers rid (is_complete rid db) (finish rid now db)
finish-Answers rid now db o = record {
  exact = rw (← finish-is_complete rid now db) (is_complete-IsDelivered rid (finish rid now db));
  status = finish-status rid now db (open-status rid db o);
}

deliver-Answers :
    (server : ℕ) (thread gdid user : String) (qty now : ℕ) (db : Db) {r : Request}
    → IsKeyed request_id db.requests
    → lock_open_by_thread server thread db ≡ ok r
    → Ensures (deliver server thread gdid user qty now db) (λ b db'. Answers r.id b db')
unfolding deliver finish_if_complete
deliver-Answers server thread gdid user qty now db {r} k lock = Ensures-reads _ _ db λ r' lock'.
    Ensures-reads _ _ db λ it _. Ensures-reads _ _ db λ row _. Ensures-guard _ _ _ db λ _.
      let same : r' ≡ r = cc in
      let brought : Db = set_reservation row.id (deliver_more qty user now) db in
      let h : Answers r.id (is_complete r'.id brought) (finish r'.id now brought) =
        subst (λ (q : Request). Answers r.id (is_complete q.id brought) (finish q.id now brought))
          (sym same)
          (finish-Answers r.id now brought (lock_by_thread-IsOpenAt db k server thread lock)) in
      search (tx_rules, h) depth 8

-- When Deliver returns with no error, its answer tells whether the request now has an item and all
-- of its items are delivered in full; then the request is completed, and otherwise still open.
pub deliver-answer :
    (server : ℕ) (thread gdid user : String) (qty now : ℕ) (db db' : Db) (complete : Bool)
    → (r : Request) → IsKeyed request_id db.requests
    → lock_open_by_thread server thread db ≡ ok r
    → deliver server thread gdid user qty now db ≡ ok (complete, db')
    → ((complete ≡ true) ↔ IsDelivered r.id db')
      × (status_of r.id db' ≡ some (if complete then Status.completed else Status.open_status))
deliver-answer server thread gdid user qty now db db' complete r k lock e =
    let answers =
      (deliver-Answers server thread gdid user qty now db {r = r} k lock).at complete db' e in
    (answers.exact, answers.status)
