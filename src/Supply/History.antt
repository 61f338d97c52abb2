-- ===== src/Supply/History.antt =====
-- Every state-changing method of the repository as one call, and a history of calls. Each
-- transaction locks the request that it changes, so concurrent calls take effect one after
-- another: a history is one of their orders. The time is an argument of each call.
use spacecraft_corporation.Prelude.{ℕ, String, Option, List, [], ◌∷◌}
use spacecraft_corporation.Prelude.Tx.{commit}
use spacecraft_corporation.Supply.Model.{Db, CreateInput}
use spacecraft_corporation.Supply.Edits
use spacecraft_corporation.Supply.Items
use spacecraft_corporation.Supply.Members

-- What an owner does to a request from the console: `server` and `owner` are the caller's.
pub data OwnerCall : Type 0 where
  update_details : (rid : ℕ) (title description : String) → OwnerCall
  set_location : (rid : ℕ) (gdid gd_version : String) → OwnerCall
  set_system : (rid : ℕ) (name code : String) (planet : Option ℕ) → OwnerCall
  set_message : (rid : ℕ) (guild channel message : String) → OwnerCall
  add_item : (rid : ℕ) (gdid gd_version : String) (qty max_items id : ℕ) → OwnerCall
  update_qty : (item qty : ℕ) → OwnerCall
  remove_item : (item : ℕ) → OwnerCall
  cancel : (rid : ℕ) → OwnerCall
  republish : (rid : ℕ) → OwnerCall

-- A call of the repository: by the console, by a member at the panel of a thread, or by the
-- outbox worker.
pub data Call : Type 0 where
  create : CreateInput → (id now : ℕ) → Call
  by_owner : (server : ℕ) (owner : String) (now : ℕ) → OwnerCall → Call
  reserve : (server : ℕ) (thread gdid user : String) (qty id now : ℕ) → Call
  deliver : (server : ℕ) (thread gdid user : String) (qty now : ℕ) → Call
  release : (server : ℕ) (thread gdid user : String) (qty now : ℕ) → Call
  set_thread : (rid : ℕ) (thread : String) → Call
  recreate : (rid now : ℕ) → Call

-- The tables after a call of the owner, whatever it returned.
unfoldable pub apply_owner : ℕ → String → ℕ → OwnerCall → Db → Db
apply_owner s o now (OwnerCall.update_details r t d) db =
    (commit (Edits.update_details s o r t d now) db).1
apply_owner s o now (OwnerCall.set_location r g v) db =
    (commit (Edits.set_delivery_location s o r g v now) db).1
apply_owner s o now (OwnerCall.set_system r n c p) db =
    (commit (Edits.set_system_info s o r n c p now) db).1
apply_owner s o now (OwnerCall.set_message r g c m) db =
    (commit (Edits.set_message_ref s o r g c m now) db).1
apply_owner s o now (OwnerCall.add_item r g v q most id) db =
    (commit (Items.add_item s o r g v q most id now) db).1
apply_owner s o now (OwnerCall.update_qty i q) db =
    (commit (Items.update_item_qty s o i q now) db).1
apply_owner s o now (OwnerCall.remove_item i) db = (commit (Items.remove_item s o i now) db).1
apply_owner s o now (OwnerCall.cancel r) db = (commit (Edits.cancel s o r now) db).1
apply_owner s o now (OwnerCall.republish r) db = (commit (Edits.republish s o r now) db).1

-- The tables after one call, whatever it returned.
unfoldable pub apply : Call → Db → Db
unfolding apply_owner
apply (Call.create inp id now) db = (commit (Edits.create inp id now) db).1
apply (Call.by_owner s o now c) db = apply_owner s o now c db
apply (Call.reserve s t g u q id now) db = (commit (Members.reserve s t g u q id now) db).1
apply (Call.deliver s t g u q now) db = (commit (Members.deliver s t g u q now) db).1
apply (Call.release s t g u q now) db = (commit (Members.release s t g u q now) db).1
apply (Call.set_thread r t) db = (commit (Edits.set_thread_id r t) db).1
apply (Call.recreate r now) db = (commit (Edits.recreate_post r now) db).1

unfoldable pub run : List Call → Db → Db
unfolding apply
run [] db = db
run (c ∷ cs) db = run cs (apply c db)
