-- ===== src/Supply/Forged.antt =====
-- The ownership boundary: every call of an owner carries the owner's id in its WHERE, so a forged
-- id finds no row.
use spacecraft_corporation.Prelude.{ℕ, String, ◌≡◌, refl, ◌&&◌, str_eq, Option, none, some, ◌==◌}
use spacecraft_corporation.Prelude.Rows.{select?}
use spacecraft_corporation.Prelude.Tx.{
  Result, ok, err, Tx, reads, ◌>>=◌, commit, reads-err, commit-err,
}
use spacecraft_corporation.Supply.Model.{Error, Request, Item, Db}
use spacecraft_corporation.Supply.Guards.{
  check_open, item_request, lock_open_by_owner, lock_open_by_item_owner,
}
use spacecraft_corporation.Supply.Edits
use spacecraft_corporation.Supply.Items
use spacecraft_corporation.Supply.History.{OwnerCall, apply_owner}

-- The request `k` of the owner on the server, and the request of the item `k` if it is theirs.
abbrev own_request : ℕ → String → ℕ → Db → Option Request
own_request s o k db =
    select? (λ (r : Request). (r.id == k) && (r.servers_id == s) && str_eq r.owner_user_id o)
      db.requests

abbrev own_item : ℕ → String → Option Item → Db → Option Request
own_item s o none db = none
own_item s o (some i) db = own_request s o i.requests_id db

-- The row of supply_requests that a call names, as far as it is the caller's.
abbrev pub named : ℕ → String → OwnerCall → Db → Option Request
named s o (OwnerCall.update_details r _ _) db = own_request s o r db
named s o (OwnerCall.set_location r _ _) db = own_request s o r db
named s o (OwnerCall.set_system r _ _ _) db = own_request s o r db
named s o (OwnerCall.set_message r _ _ _) db = own_request s o r db
named s o (OwnerCall.add_item r _ _ _ _ _) db = own_request s o r db
named s o (OwnerCall.update_qty i _) db =
    own_item s o (select? (λ (x : Item). x.id == i) db.items) db
named s o (OwnerCall.remove_item i) db =
    own_item s o (select? (λ (x : Item). x.id == i) db.items) db
named s o (OwnerCall.cancel r) db = own_request s o r db
named s o (OwnerCall.republish r) db = own_request s o r db

abbrev error_of : {A : Type 0} → Result Error A → Option Error
error_of (ok _) = none
error_of (err e) = some e

-- The error that a call of the owner returns.
unfoldable pub error_owner : ℕ → String → ℕ → OwnerCall → Db → Option Error
error_owner s o now (OwnerCall.update_details r t d) db =
    error_of (commit (Edits.update_details s o r t d now) db).0
error_owner s o now (OwnerCall.set_location r g v) db =
    error_of (commit (Edits.set_delivery_location s o r g v now) db).0
error_owner s o now (OwnerCall.set_system r n c p) db =
    error_of (commit (Edits.set_system_info s o r n c p now) db).0
error_owner s o now (OwnerCall.set_message r g c m) db =
    error_of (commit (Edits.set_message_ref s o r g c m now) db).0
error_owner s o now (OwnerCall.add_item r g v q most id) db =
    error_of (commit (Items.add_item s o r g v q most id now) db).0
error_owner s o now (OwnerCall.update_qty i q) db =
    error_of (commit (Items.update_item_qty s o i q now) db).0
error_owner s o now (OwnerCall.remove_item i) db =
    error_of (commit (Items.remove_item s o i now) db).0
error_owner s o now (OwnerCall.cancel r) db = error_of (commit (Edits.cancel s o r now) db).0
error_owner s o now (OwnerCall.republish r) db = error_of (commit (Edits.republish s o r now) db).0

-- A refused transaction, seen by its error and by its tables.
module _ {A B : Type 0} (f : Db → Result Error A) (k : A → Tx Error Db B) (db : Db)
    (e : f db ≡ err Error.not_found) where
  refused :
      (error_of (commit (reads f >>= k) db).0 ≡ some Error.not_found)
      × ((commit (reads f >>= k) db).1 ≡ db)
  refused = rw (commit-err (reads f >>= k) db (reads-err f k db e)) (refl, refl)

no_row : (o : Option Request) → o ≡ none → check_open o ≡ err Error.not_found
unfolding check_open
no_row none h = refl
no_row (some r) h = cc

lock_by_owner-none :
    (s : ℕ) (o : String) (r : ℕ) (db : Db)
    → own_request s o r db ≡ none
    → lock_open_by_owner s o r db ≡ err Error.not_found
unfolding lock_open_by_owner
lock_by_owner-none s o r db h = no_row _ h

item_request-none :
    (s : ℕ) (o : String) (i : Option Item) (db : Db)
    → own_item s o i db ≡ none
    → item_request s o i db.requests ≡ none
item_request-none s o none db h = refl
item_request-none s o (some i) db h = h

lock_by_item_owner-none :
    (s : ℕ) (o : String) (i : ℕ) (db : Db)
    → own_item s o (select? (λ (x : Item). x.id == i) db.items) db ≡ none
    → lock_open_by_item_owner s o i db ≡ err Error.not_found
unfolding lock_open_by_item_owner
lock_by_item_owner-none s o i db h = no_row _ (item_request-none s o _ db h)

-- A call by an owner, on a server, to whom the request or the item that it names does not belong
-- returns ErrNotFound, and leaves the tables as they were. All nine kinds of calls are meant.
pub apply_owner-forged :
    (s : ℕ) (o : String) (now : ℕ) (c : OwnerCall) (db : Db)
    → named s o c db ≡ none
    → (error_owner s o now c db ≡ some Error.not_found) × (apply_owner s o now c db ≡ db)
unfolding apply_owner error_owner Edits.update_details Edits.set_delivery_location
    Edits.set_system_info Edits.set_message_ref Edits.mutate_open Items.add_item
    Items.update_item_qty Items.remove_item Edits.cancel Edits.republish
apply_owner-forged s o now (OwnerCall.update_details r t d) db h =
    refused _ _ db (lock_by_owner-none s o r db h)
apply_owner-forged s o now (OwnerCall.set_location r g v) db h =
    refused _ _ db (lock_by_owner-none s o r db h)
apply_owner-forged s o now (OwnerCall.set_system r n c p) db h =
    refused _ _ db (lock_by_owner-none s o r db h)
apply_owner-forged s o now (OwnerCall.set_message r g c m) db h =
    refused _ _ db (lock_by_owner-none s o r db h)
apply_owner-forged s o now (OwnerCall.add_item r g v q most id) db h =
    refused _ _ db (lock_by_owner-none s o r db h)
apply_owner-forged s o now (OwnerCall.update_qty i q) db h =
    refused _ _ db (lock_by_item_owner-none s o i db h)
apply_owner-forged s o now (OwnerCall.remove_item i) db h =
    refused _ _ db (lock_by_item_owner-none s o i db h)
apply_owner-forged s o now (OwnerCall.cancel r) db h =
    refused _ _ db (lock_by_owner-none s o r db h)
apply_owner-forged s o now (OwnerCall.republish r) db h = refused _ _ db (no_row _ h)
