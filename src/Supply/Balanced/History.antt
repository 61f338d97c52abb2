-- ===== src/Supply/Balanced/History.antt =====
-- The remaining calls do not write to items and reservations; every history keeps the books.
use spacecraft_corporation.Prelude.{ℕ, String, Option, List, [], ◌∷◌}
use spacecraft_corporation.Prelude.Tx.{tx_rules, commit-keeps}
use spacecraft_corporation.Supply.Model.{Db, CreateInput}
use spacecraft_corporation.Supply.Guards.{enqueue_close}
use spacecraft_corporation.Supply.Edits
use spacecraft_corporation.Supply.History.{OwnerCall, Call, apply_owner, apply, run}
use spacecraft_corporation.Supply.Balanced
use spacecraft_corporation.Supply.Balanced.{Balanced, KeepsBalanced}

create-Balanced : (inp : CreateInput) (id now : ℕ) → KeepsBalanced (Edits.create inp id now)
unfolding Edits.create
create-Balanced inp id now db s = search tx_rules depth 8

module _ (server : ℕ) (owner : String) (rid now : ℕ) where
  update_details-Balanced :
      (title description : String)
      → KeepsBalanced (Edits.update_details server owner rid title description now)
  unfolding Edits.update_details
  update_details-Balanced title description =
      Balanced.mutate_open-Balanced server owner rid _ λ db s. search tx_rules

  set_delivery_location-Balanced :
      (gdid gd_version : String)
      → KeepsBalanced (Edits.set_delivery_location server owner rid gdid gd_version now)
  unfolding Edits.set_delivery_location
  set_delivery_location-Balanced gdid gd_version =
      Balanced.mutate_open-Balanced server owner rid _ λ db s. search tx_rules

  set_system_info-Balanced :
      (name code : String) (planet : Option ℕ)
      → KeepsBalanced (Edits.set_system_info server owner rid name code planet now)
  unfolding Edits.set_system_info
  set_system_info-Balanced name code planet =
      Balanced.mutate_open-Balanced server owner rid _ λ db s. search tx_rules

  set_message_ref-Balanced :
      (guild channel message : String)
      → KeepsBalanced (Edits.set_message_ref server owner rid guild channel message now)
  unfolding Edits.set_message_ref
  set_message_ref-Balanced guild channel message =
      Balanced.mutate_open-Balanced server owner rid _ λ db s. search tx_rules

  cancel-Balanced : KeepsBalanced (Edits.cancel server owner rid now)
  unfolding Edits.cancel enqueue_close
  cancel-Balanced db s = search tx_rules depth 8

set_thread_id-Balanced :
    (rid : ℕ) (thread : String) → KeepsBalanced (Edits.set_thread_id rid thread)
unfolding Edits.set_thread_id
set_thread_id-Balanced rid thread db s = search tx_rules depth 8

recreate_post-Balanced : (rid now : ℕ) → KeepsBalanced (Edits.recreate_post rid now)
unfolding Edits.recreate_post
recreate_post-Balanced rid now db s = search tx_rules depth 8

apply_owner-Balanced :
    (server : ℕ) (owner : String) (now : ℕ) (c : OwnerCall) (db : Db)
    → Balanced db
    → Balanced (apply_owner server owner now c db)
unfolding apply_owner
apply_owner-Balanced s o now (OwnerCall.update_details r t d) db h =
    commit-keeps Balanced _ db (update_details-Balanced s o r now t d db h) h
apply_owner-Balanced s o now (OwnerCall.set_location r g v) db h =
    commit-keeps Balanced _ db (set_delivery_location-Balanced s o r now g v db h) h
apply_owner-Balanced s o now (OwnerCall.set_system r n c p) db h =
    commit-keeps Balanced _ db (set_system_info-Balanced s o r now n c p db h) h
apply_owner-Balanced s o now (OwnerCall.set_message r g c m) db h =
    commit-keeps Balanced _ db (set_message_ref-Balanced s o r now g c m db h) h
apply_owner-Balanced s o now (OwnerCall.add_item r g v q most id) db h =
    commit-keeps Balanced _ db (Balanced.add_item-Balanced s o r g v q most id now db h) h
apply_owner-Balanced s o now (OwnerCall.update_qty i q) db h =
    commit-keeps Balanced _ db (Balanced.update_item_qty-Balanced s o i q now db h) h
apply_owner-Balanced s o now (OwnerCall.remove_item i) db h =
    commit-keeps Balanced _ db (Balanced.remove_item-Balanced s o i now db h) h
apply_owner-Balanced s o now (OwnerCall.cancel r) db h =
    commit-keeps Balanced _ db (cancel-Balanced s o r now db h) h
apply_owner-Balanced s o now (OwnerCall.republish r) db h =
    commit-keeps Balanced _ db (Balanced.republish-Balanced s o r now db h) h

apply-Balanced : (c : Call) (db : Db) → Balanced db → Balanced (apply c db)
unfolding apply
apply-Balanced (Call.create inp id now) db h =
    commit-keeps Balanced _ db (create-Balanced inp id now db h) h
apply-Balanced (Call.by_owner s o now c) db h = apply_owner-Balanced s o now c db h
apply-Balanced (Call.reserve s t g u q id now) db h =
    commit-keeps Balanced _ db (Balanced.reserve-Balanced s t g u q id now db h) h
apply-Balanced (Call.deliver s t g u q now) db h =
    commit-keeps Balanced _ db (Balanced.deliver-Balanced s t g u q now db h) h
apply-Balanced (Call.release s t g u q now) db h =
    commit-keeps Balanced _ db (Balanced.release-Balanced s t g u q now db h) h
apply-Balanced (Call.set_thread r t) db h =
    commit-keeps Balanced _ db (set_thread_id-Balanced r t db h) h
apply-Balanced (Call.recreate r now) db h =
    commit-keeps Balanced _ db (recreate_post-Balanced r now db h) h

-- Whatever calls come in whatever order, on tables with sound books: nobody has ever delivered
-- more than reserved, no item is reserved beyond its required quantity, a member has one row on
-- an item, and nothing is reserved on an item that is gone.
pub run-Balanced : (cs : List Call) (db : Db) → Balanced db → Balanced (run cs db)
unfolding run
run-Balanced [] db h = h
run-Balanced (c ∷ cs) db h = run-Balanced cs (apply c db) (apply-Balanced c db h)
