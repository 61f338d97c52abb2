-- ===== src/Supply/Invariant/History.antt =====
-- An invariant of the requests and of the outbox holds after every history of calls.
use spacecraft_corporation.Prelude.{
  ℕ, String, ◌≡◌, refl, false, inl, inr, Option, List, [], ◌∷◌, arith, Bool-cases, All,
}
use spacecraft_corporation.Prelude.Rows.{exists-false}
use spacecraft_corporation.Prelude.Tx.{
  Tx, Ensures, Ensures-reads, Ensures-check, Ensures-write, Ensures-guard, Ensures-pure,
  Ensures-write_last, Ensures-bind, tx_rules, commit-keeps,
}
use spacecraft_corporation.Reservations.{deliver_more}
use spacecraft_corporation.Supply.Model.{
  Status, is_open, TaskKind, Error, Request, Task, Db, CreateInput,
}
use spacecraft_corporation.Supply.Guards.{
  touch, touched, enqueue_refresh, enqueue_close, task_for, set_request,
}
use spacecraft_corporation.Supply.Edits
use spacecraft_corporation.Supply.Items
use spacecraft_corporation.Supply.Members
use spacecraft_corporation.Supply.History.{OwnerCall, Call, apply_owner, apply, run}
use spacecraft_corporation.Supply.Invariant.Edits.{
  touched-IsEdit, with_details-IsEdit, with_thread-IsEdit, with_location-IsEdit, with_system-IsEdit,
  with_message-IsEdit,
}
use spacecraft_corporation.Supply.Invariant.{
  is_request, IsEdit, IsInvariant, IsOpenAt, lock_by_thread-IsOpenAt, lock_by_owner-IsOpenAt,
}

-- The inputs of Create in a history are allowed.
abbrev pub AllowedCall : (CreateInput → Type 0) → Call → Type 0
AllowedCall Allowed (Call.create inp _ _) = Allowed inp
AllowedCall Allowed _ = Unit

pub every_call-AllowedCall : (cs : List Call) → All (AllowedCall (λ inp. Unit)) cs
every_call-AllowedCall [] = tt
every_call-AllowedCall (Call.create _ _ _ ∷ cs) = (tt, every_call-AllowedCall cs)
every_call-AllowedCall (_ ∷ cs) = (tt, every_call-AllowedCall cs)

module _ {Allowed : CreateInput → Type 0} {P : List Request → List Task → Type 0}
    (inv : IsInvariant Allowed P) where
  abbrev Holds : Db → Type 0
  Holds db = P db.requests db.tasks

  abbrev Keeps : {A : Type 0} → Tx Error Db A → Type 0
  Keeps m = (db : Db) → Holds db → Ensures (m db) (λ _ db'. Holds db')

  -- The end of most methods: the row is touched, and a refresh is enqueued.
  touched-Keeps :
      (rid now : ℕ) (db : Db) → Holds db → Holds (enqueue_refresh rid (touch rid now db))
  unfolding touch enqueue_refresh
  touched-Keeps rid now db h =
      inv.enqueued _ _ _ (inv.edited _ _ rid (touched now) (touched-IsEdit now) h)

  edit-Keeps :
      (rid : ℕ) (f : Request → Request) (db : Db)
      → IsEdit f
      → Holds db
      → Holds (set_request rid f db)
  edit-Keeps rid f db e h = inv.edited _ _ rid f e h

  end-Keeps :
      (rid : ℕ) (st : Status) (now : ℕ) (db : Db)
      → IsOpenAt rid db.requests
      → is_open st ≡ false
      → Holds db
      → Holds (enqueue_close rid (set_request rid (Edits.closed_as st now) db))
  unfolding enqueue_close
  end-Keeps rid st now db o e h = inv.ended _ _ rid st now o e h

  mutate_open-Keeps :
      (server : ℕ) (owner : String) (rid : ℕ) (fn : Tx Error Db Unit)
      → Keeps fn
      → Keeps (Edits.mutate_open server owner rid fn)
  unfolding Edits.mutate_open enqueue_refresh
  mutate_open-Keeps server owner rid fn kept db h = Ensures-reads _ _ db λ r _.
      Ensures-bind fn (λ _ db'. P db'.requests db'.tasks) _ db (kept db h)
        λ _ db' h'. Ensures-write _ _ db' (Ensures-pure _ _ (inv.enqueued _ _ _ h'))

  create-Keeps : (inp : CreateInput) (id now : ℕ) → Allowed inp → Keeps (Edits.create inp id now)
  unfolding Edits.create
  create-Keeps inp id now a db h = Ensures-check _ _ _ db λ room. Ensures-check _ _ _ db λ fresh.
      let h' =
        inv.inserted db.requests db.tasks inp id now a room
          (exists-false (is_request id) db.requests (ground arith)) h in
      search tx_rules depth 8

  finish-Keeps :
      (rid now : ℕ) (db : Db)
      → IsOpenAt rid db.requests
      → Holds db
      → Holds (Members.finish rid now db)
  unfolding Members.finish
  finish-Keeps rid now db o h = elim (Bool-cases (Members.is_complete rid db)) [
    | inl e ↦ rw e (end-Keeps rid Status.completed now db o refl h)
    | inr e ↦ rw e (touched-Keeps rid now db h)
  ]

  reserve-Keeps :
      (server : ℕ) (thread gdid user : String) (qty id now : ℕ)
      → Keeps (Members.reserve server thread gdid user qty id now)
  unfolding Members.reserve Members.upsert touch enqueue_refresh
  reserve-Keeps server thread gdid user qty id now db h =
      Ensures-reads _ _ db λ r _. let h' = touched-Keeps r.id now db h in search tx_rules depth 10

  deliver-Keeps :
      (server : ℕ) (thread gdid user : String) (qty now : ℕ)
      → Keeps (Members.deliver server thread gdid user qty now)
  unfolding Members.deliver Members.finish_if_complete
  deliver-Keeps server thread gdid user qty now db h = Ensures-reads _ _ db λ r locked.
      Ensures-reads _ _ db λ it _. Ensures-reads _ _ db λ row _. Ensures-guard _ _ _ db λ _.
        let delivered : Db = Members.set_reservation row.id (deliver_more qty user now) db in
        let h' =
          finish-Keeps r.id now delivered
            (lock_by_thread-IsOpenAt db (inv.keyed _ _ h) server thread locked) h in
        search tx_rules depth 8

  release-Keeps :
      (server : ℕ) (thread gdid user : String) (qty now : ℕ)
      → Keeps (Members.release server thread gdid user qty now)
  unfolding Members.release Members.shrink touch enqueue_refresh
  release-Keeps server thread gdid user qty now db h =
      Ensures-reads _ _ db λ r _. let h' = touched-Keeps r.id now db h in search tx_rules depth 10

  add_item-Keeps :
      (server : ℕ) (owner : String) (rid : ℕ) (gdid gd_version : String)
      → (qty max_items id now : ℕ)
      → Keeps (Items.add_item server owner rid gdid gd_version qty max_items id now)
  unfolding Items.add_item touch enqueue_refresh
  add_item-Keeps server owner rid gdid gd_version qty max_items id now db h =
      let h' = touched-Keeps rid now db h in search tx_rules depth 12

  update_item_qty-Keeps :
      (server : ℕ) (owner : String) (item qty now : ℕ)
      → Keeps (Items.update_item_qty server owner item qty now)
  unfolding Items.update_item_qty touch enqueue_refresh
  update_item_qty-Keeps server owner item qty now db h =
      Ensures-reads _ _ db λ r _. let h' = touched-Keeps r.id now db h in search tx_rules depth 10

  remove_item-Keeps :
      (server : ℕ) (owner : String) (item now : ℕ) → Keeps (Items.remove_item server owner item now)
  unfolding Items.remove_item touch enqueue_refresh
  remove_item-Keeps server owner item now db h =
      Ensures-reads _ _ db λ r _. let h' = touched-Keeps r.id now db h in search tx_rules depth 10

  cancel-Keeps :
      (server : ℕ) (owner : String) (rid now : ℕ) → Keeps (Edits.cancel server owner rid now)
  unfolding Edits.cancel enqueue_close
  cancel-Keeps server owner rid now db h = Ensures-reads _ _ db λ r locked.
      let h' =
        end-Keeps rid Status.cancelled now db
          (lock_by_owner-IsOpenAt db (inv.keyed _ _ h) server owner rid locked) refl h in
      search tx_rules depth 8

  republish-Keeps :
      (server : ℕ) (owner : String) (rid now : ℕ) → Keeps (Edits.republish server owner rid now)
  unfolding Edits.republish touch enqueue_refresh
  republish-Keeps server owner rid now db h = Ensures-reads _ _ db λ r _. Ensures-write _ _ db (
      Ensures-write_last _ _ (elim (Bool-cases (Edits.has_no_thread r)) [
        | inl e ↦ rw e (
            inv.enqueued _ _ (task_for TaskKind.create_task rid)
              (edit-Keeps rid (touched now) db (touched-IsEdit now) h))
        | inr e ↦ rw e (touched-Keeps rid now db h)
      ]))

  set_thread_id-Keeps : (rid : ℕ) (thread : String) → Keeps (Edits.set_thread_id rid thread)
  unfolding Edits.set_thread_id
  set_thread_id-Keeps rid thread db h =
      let h' = edit-Keeps rid (Edits.with_thread thread) db (with_thread-IsEdit thread) h in
      search tx_rules depth 8

  recreate_post-Keeps : (rid now : ℕ) → Keeps (Edits.recreate_post rid now)
  unfolding Edits.recreate_post
  recreate_post-Keeps rid now db h =
      let h' = inv.reposted db.requests db.tasks rid now h in search tx_rules depth 8

  -- The four users of mutateOpen.
  update_details-Keeps :
      (server : ℕ) (owner : String) (rid : ℕ) (title description : String) (now : ℕ)
      → Keeps (Edits.update_details server owner rid title description now)
  unfolding Edits.update_details
  update_details-Keeps server owner rid title description now =
      mutate_open-Keeps server owner rid _ λ db h.
        Ensures-write_last _ db (edit-Keeps rid _ db (with_details-IsEdit title description now) h)

  set_delivery_location-Keeps :
      (server : ℕ) (owner : String) (rid : ℕ) (gdid gd_version : String) (now : ℕ)
      → Keeps (Edits.set_delivery_location server owner rid gdid gd_version now)
  unfolding Edits.set_delivery_location
  set_delivery_location-Keeps server owner rid gdid gd_version now =
      mutate_open-Keeps server owner rid _ λ db h. Ensures-guard _ _ _ db λ pair.
        Ensures-write_last _ db
          (edit-Keeps rid _ db (with_location-IsEdit gdid gd_version now pair) h)

  set_system_info-Keeps :
      (server : ℕ) (owner : String) (rid : ℕ) (name code : String) (planet : Option ℕ) (now : ℕ)
      → Keeps (Edits.set_system_info server owner rid name code planet now)
  unfolding Edits.set_system_info
  set_system_info-Keeps server owner rid name code planet now =
      mutate_open-Keeps server owner rid _ λ db h. Ensures-guard _ _ _ db λ positive.
        Ensures-write_last _ db
          (edit-Keeps rid _ db (with_system-IsEdit name code planet now positive) h)

  set_message_ref-Keeps :
      (server : ℕ) (owner : String) (rid : ℕ) (guild channel message : String) (now : ℕ)
      → Keeps (Edits.set_message_ref server owner rid guild channel message now)
  unfolding Edits.set_message_ref
  set_message_ref-Keeps server owner rid guild channel message now =
      mutate_open-Keeps server owner rid _ λ db h. Ensures-guard _ _ _ db λ all.
        Ensures-write_last _ db
          (edit-Keeps rid _ db (with_message-IsEdit guild channel message now all) h)

  apply_owner-keeps :
      (s : ℕ) (o : String) (now : ℕ) (c : OwnerCall) (db : Db)
      → Holds db
      → Holds (apply_owner s o now c db)
  unfolding apply_owner
  apply_owner-keeps s o now (OwnerCall.update_details r t d) db h =
      commit-keeps Holds _ db (update_details-Keeps s o r t d now db h) h
  apply_owner-keeps s o now (OwnerCall.set_location r g v) db h =
      commit-keeps Holds _ db (set_delivery_location-Keeps s o r g v now db h) h
  apply_owner-keeps s o now (OwnerCall.set_system r n c p) db h =
      commit-keeps Holds _ db (set_system_info-Keeps s o r n c p now db h) h
  apply_owner-keeps s o now (OwnerCall.set_message r g c m) db h =
      commit-keeps Holds _ db (set_message_ref-Keeps s o r g c m now db h) h
  apply_owner-keeps s o now (OwnerCall.add_item r g v q most id) db h =
      commit-keeps Holds _ db (add_item-Keeps s o r g v q most id now db h) h
  apply_owner-keeps s o now (OwnerCall.update_qty i q) db h =
      commit-keeps Holds _ db (update_item_qty-Keeps s o i q now db h) h
  apply_owner-keeps s o now (OwnerCall.remove_item i) db h =
      commit-keeps Holds _ db (remove_item-Keeps s o i now db h) h
  apply_owner-keeps s o now (OwnerCall.cancel r) db h =
      commit-keeps Holds _ db (cancel-Keeps s o r now db h) h
  apply_owner-keeps s o now (OwnerCall.republish r) db h =
      commit-keeps Holds _ db (republish-Keeps s o r now db h) h

  apply-keeps : (c : Call) (db : Db) → AllowedCall Allowed c → Holds db → Holds (apply c db)
  unfolding apply
  apply-keeps (Call.create inp id now) db a h =
      commit-keeps Holds _ db (create-Keeps inp id now a db h) h
  apply-keeps (Call.by_owner s o now c) db a h = apply_owner-keeps s o now c db h
  apply-keeps (Call.reserve s t g u q id now) db a h =
      commit-keeps Holds _ db (reserve-Keeps s t g u q id now db h) h
  apply-keeps (Call.deliver s t g u q now) db a h =
      commit-keeps Holds _ db (deliver-Keeps s t g u q now db h) h
  apply-keeps (Call.release s t g u q now) db a h =
      commit-keeps Holds _ db (release-Keeps s t g u q now db h) h
  apply-keeps (Call.set_thread r t) db a h =
      commit-keeps Holds _ db (set_thread_id-Keeps r t db h) h
  apply-keeps (Call.recreate r now) db a h =
      commit-keeps Holds _ db (recreate_post-Keeps r now db h) h

  pub run-keeps :
      (cs : List Call) (db : Db) → All (AllowedCall Allowed) cs → Holds db → Holds (run cs db)
  unfolding run
  run-keeps [] db a h = h
  run-keeps (c ∷ cs) db a h = run-keeps cs (apply c db) a.1 (apply-keeps c db a.0 h)
