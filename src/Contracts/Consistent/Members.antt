-- ===== src/Contracts/Consistent/Members.antt =====
-- The methods on items and reservations, and Create, keep the invariant of contracts and requests.
use spacecraft_corporation.Prelude.{
  ℕ, ◌<◌, String, ◌≡◌, refl, sym, subst, true, false, ◌&&◌, inl, inr, Option, none, some, List, [],
  ◌∷◌, arith, ◌==◌, if◌then◌else◌, Bool-cases, ◌-◌,
}
use spacecraft_corporation.Prelude.Rows.{
  select?, select?-update_where, update_where, exists, exists-false,
}
use spacecraft_corporation.Prelude.Tx.{
  Ensures, Ensures-reads, Ensures-gets, Ensures-write, Ensures-guard, Ensures-check, Ensures-pure,
  Ensures-bind, tx_rules,
}
use spacecraft_corporation.Contracts.Model.{
  is_open, TaskKind, Contract, Item, Reservation, Task, Db,
}
use spacecraft_corporation.Contracts.Guards.{task_for, touch, enqueue_refresh}
use spacecraft_corporation.Contracts.Items
use spacecraft_corporation.Contracts.Members
use spacecraft_corporation.Contracts.Members.{
  is_rewarded, is_rewarded?, completed_by, finish, same_member,
}
use spacecraft_corporation.Contracts.Create
use spacecraft_corporation.Contracts.Consistent.{
  Fits, FitsAt, enqueue-FitsAt, is_initial_payout, payout_requests, create_requests, IsConsistent,
  Consistent, contract_id, is_contract,
}
use spacecraft_corporation.Contracts.Consistent.Edits.{IsConsistent-complete, completed_tasks}
use spacecraft_corporation.Contracts.Consistent.Locks.{
  lock_open_contract-LockedAt, lock_by_item-LockedAt,
}
use spacecraft_corporation.Contracts.Consistent.Requests.{
  Keeps, refresh-Consistent, touch-Consistent, writes,
}

-- The two writes that end most methods.
touched-Consistent :
    (cid now : ℕ) (actor : String) (db : Db)
    → Consistent db
    → Consistent (enqueue_refresh cid (touch cid now actor db))
touched-Consistent cid now actor db h =
    refresh-Consistent cid (touch cid now actor db) (touch-Consistent cid now actor db h)

-- The payout request of the completion is decided by the contract's own rewards.
module _ (cid now : ℕ) (actor : String) (db : Db) (c0 : Contract)
    (here : select? (is_contract cid) db.contracts ≡ some c0) where
  rewarded_after :
      is_rewarded? (
        select?
          (is_contract cid)
          (update_where (is_contract cid) (completed_by actor now) db.contracts))
      ≡ is_rewarded c0
  rewarded_after =
      rw
        (
          select?-update_where contract_id (is_contract cid) (completed_by actor now) cid
              db.contracts (λ c. refl),
          here,
        )
        (ground arith)

  finish-Consistent :
      Consistent db → is_open c0.status ≡ true → Consistent (finish cid now actor db)
  unfolding finish completed_tasks
  finish-Consistent h opened = elim (Bool-cases (Members.all_delivered cid db)) [
    | inl e ↦
        let h' = IsConsistent-complete h cid actor now c0 here opened in
        rw (e, rewarded_after)
          (elim (Bool-cases (is_rewarded c0)) [
            | inl y ↦ rw y (rw y at h')
            | inr n ↦ rw n (rw n at h')
          ])
    | inr e ↦ rw e (touched-Consistent cid now actor db h)
  ]

finish_if_complete-Consistent :
    (cid now : ℕ) (actor : String) (db : Db) (c0 : Contract)
    → select? (is_contract cid) db.contracts ≡ some c0
    → is_open c0.status ≡ true
    → Consistent db
    → Ensures (Members.finish_if_complete cid now actor db) (λ _ db'. Consistent db')
unfolding Members.finish_if_complete
finish_if_complete-Consistent cid now actor db c0 here opened h =
    let h' = finish-Consistent cid now actor db c0 here h opened in search (tx_rules, h')

upsert-Consistent :
    (id item : ℕ) (user : String) (qty now : ℕ) (db : Db)
    → Consistent db
    → Consistent (Members.upsert_reservation id item user qty now db)
unfolding Members.upsert_reservation
upsert-Consistent id item user qty now db h =
    elim (Bool-cases (exists (same_member item user) db.reservations)) [
      | inl e ↦ rw e h
      | inr e ↦ rw e h
    ]

shrink-Consistent :
    (r : Reservation) (qty : ℕ) (actor : String) (now : ℕ) (db : Db)
    → Consistent db
    → Consistent (Members.shrink_reservation r qty actor now db)
unfolding Members.shrink_reservation
shrink-Consistent r qty actor now db h = elim (Bool-cases ((qty == 0) && (r.delivered_qty == 0))) [
  | inl e ↦ rw e h
  | inr e ↦ rw e h
]

ruleset edits = (writes, touched-Consistent)

module _ (lower : String → String) where
  pub participate-Consistent :
      (server : ℕ) (thread name user : String) (qty id now : ℕ)
      → Keeps (Members.participate lower server thread name user qty id now)
  unfolding Members.participate
  participate-Consistent server thread name user qty id now db h = Ensures-reads _ _ db λ c _.
      Ensures-reads _ _ db λ it _.
        let h' = upsert-Consistent id it.id user qty now db h in
        let h2 =
          touched-Consistent c.id now user (Members.upsert_reservation id it.id user qty now db)
            h' in
        search (tx_rules, h2) depth 10

  pub deliver-Consistent :
      (server : ℕ) (thread name user : String) (qty now : ℕ)
      → Keeps (Members.deliver lower server thread name user qty now)
  unfolding Members.deliver
  deliver-Consistent server thread name user qty now db h = Ensures-reads _ _ db λ c locked.
      Ensures-reads _ _ db λ it _. Ensures-reads _ _ db λ r _. Ensures-guard _ _ _ db λ _.
        let at = lock_open_contract-LockedAt now db h.keyed server thread locked in
        Ensures-write _ _ db (finish_if_complete-Consistent c.id now user _ c at.row at.opened h)

  pub release-Consistent :
      (server : ℕ) (thread name target : String) (qty : ℕ) (actor : String) (now : ℕ)
      → Keeps (Members.release lower server thread name target qty actor now)
  unfolding Members.release
  release-Consistent server thread name target qty actor now db h = Ensures-reads _ _ db λ c _.
      Ensures-reads _ _ db λ it _. Ensures-reads _ _ db λ r _.
        let h' = shrink-Consistent r (r.reserved_qty - qty) actor now db h in
        let h2 =
          touched-Consistent c.id now actor
            (Members.shrink_reservation r (r.reserved_qty - qty) actor now db) h' in
        search (tx_rules, h2) depth 10

pub deliver_by_item-Consistent :
    (server item : ℕ) (target : String) (qty : ℕ) (actor : String) (now : ℕ)
    → Keeps (Members.deliver_by_item server item target qty actor now)
unfolding Members.deliver_by_item
deliver_by_item-Consistent server item target qty actor now db h = Ensures-reads _ _ db λ c locked.
    Ensures-reads _ _ db λ r _. Ensures-guard _ _ _ db λ _.
      let at = lock_by_item-LockedAt now db h.keyed server item locked in
      Ensures-write _ _ db (
        Ensures-bind _ (λ _ db'. Consistent db') _ _
          (finish_if_complete-Consistent c.id now actor _ c at.row at.opened h)
          λ _ db' h'. Ensures-pure _ db' h')

pub set_reservation_by_item-Consistent :
    (server item : ℕ) (target : String) (qty : ℕ) (actor : String) (now : ℕ)
    → Keeps (Members.set_reservation_by_item server item target qty actor now)
unfolding Members.set_reservation_by_item
set_reservation_by_item-Consistent server item target qty actor now db h =
    Ensures-reads _ _ db λ c _. Ensures-check _ _ _ db λ _. Ensures-gets _ _ db (
      Ensures-reads _ _ db λ r _.
        let h' = shrink-Consistent r qty actor now db h in
        let h2 =
          touched-Consistent c.id now actor (Members.shrink_reservation r qty actor now db) h' in
        search (tx_rules, h2) depth 10)

pub remove_reservation-Consistent :
    (server item : ℕ) (target actor : String) (now : ℕ)
    → Keeps (Members.remove_reservation server item target actor now)
unfolding Members.remove_reservation
remove_reservation-Consistent server item target actor now db h = search edits depth 10

pub insert_item-Consistent :
    (lower : String → String) (row : Item) → Keeps (Items.insert_item lower row)
unfolding Items.insert_item
insert_item-Consistent lower row db h = search tx_rules

module _ (lower fold : String → String) where
  pub add_item_by_id-Consistent :
      (server cid : ℕ) (name gdid gd_version : String) (aliases : List String)
      → (qty limit : ℕ) (actor : String) (id now : ℕ)
      → Keeps (
          Items.add_item_by_id lower fold server cid name gdid gd_version aliases qty limit actor id
            now)
  unfolding Items.add_item_by_id
  add_item_by_id-Consistent server cid name gdid gd_version aliases qty limit actor id now db h =
      Ensures-reads _ _ db λ c e. Ensures-check _ _ _ db λ _. Ensures-check _ _ _ db λ _.
        Ensures-bind _ (λ _ db'. Consistent db') _ db (insert_item-Consistent lower _ db h)
          λ _ db' h'. search edits depth 10

  pub link_item_gdid-Consistent :
      (server item : ℕ) (gdid gd_version : String) (aliases : List String) (actor : String)
      → (now : ℕ)
      → Keeps (Items.link_item_gdid lower fold server item gdid gd_version aliases actor now)
  unfolding Items.link_item_gdid
  link_item_gdid-Consistent server item gdid gd_version aliases actor now db h =
      search edits depth 10

pub remove_item_by_id-Consistent :
    (server item : ℕ) (actor : String) (now : ℕ)
    → Keeps (Items.remove_item_by_id server item actor now)
unfolding Items.remove_item_by_id
remove_item_by_id-Consistent server item actor now db h = search edits depth 10

pub update_item-Consistent :
    (lower : String → String) (server item : ℕ) (name : String) (qty : ℕ) (actor : String)
    → (now : ℕ) → Keeps (Items.update_item lower server item name qty actor now)
unfolding Items.update_item
update_item-Consistent lower server item name qty actor now db h = search edits depth 10

-- The first items of a contract do not touch contracts and requests.
insert_items-frame :
    (lower : String → String) (cid : ℕ) (actor : String) (now : ℕ) (cs : List Contract)
    (ts : List Task)
    → (inps : List (ℕ × Create.CreateItemInput)) (db : Db) → (db.contracts ≡ cs) × (db.tasks ≡ ts)
    → Ensures
        (Create.insert_items lower cid actor now inps db)
        (λ _ db'. (db'.contracts ≡ cs) × (db'.tasks ≡ ts))
unfolding Create.insert_items Items.insert_item
insert_items-frame lower cid actor now cs ts [] db h = Ensures-pure tt db h
insert_items-frame lower cid actor now cs ts (inp ∷ inps) db h =
    Ensures-bind _ (λ _ db'. (db'.contracts ≡ cs) × (db'.tasks ≡ ts)) _ db (search tx_rules)
      λ _ db' h'. insert_items-frame lower cid actor now cs ts inps db' h'

created_fresh :
    (inp : Create.CreateInput) (id now : ℕ) (db : Db)
    → Create.contract_row_ok (Create.created inp id now) db ≡ true
    → select? (is_contract id) db.contracts ≡ none
unfolding Create.contract_row_ok Create.created
created_fresh inp id now db h = exists-false (is_contract id) db.contracts (ground arith)

-- A new contract has no thread, and the request to create it.
new_Fits :
    (inp : Create.CreateInput) (id now : ℕ) {a b e : ℕ}
    → a ≡ 0
    → 0 < b
    → Fits (Create.created inp id now) a b e
unfolding Create.created
new_Fits inp id now pa pb = record {
  payout = pa;
  post = λ _. pb;
  closing = λ n. cc;
  closed = refl;
  paid = λ n. cc;
}

module _ (inp : Create.CreateInput) (id now : ℕ) (t : Task) (kind : t.kind ≡ TaskKind.create_thread)
    (at : t.contract_id ≡ id) where
  new_quiet : is_initial_payout t.kind t.repost ≡ false
  new_quiet = ground arith

  new_counted : (k : ℕ) (ts : List Task) → (id == k) ≡ true → 0 < create_requests k (t ∷ ts)
  new_counted k ts hit = ground arith

  new_unpaid :
      (k : ℕ) (ts : List Task)
      → (id == k) ≡ true
      → payout_requests id ts ≡ 0
      → payout_requests k (t ∷ ts) ≡ 0
  new_unpaid k ts hit z =
      let same : id ≡ k = ground arith in
      let z' = subst (λ j. payout_requests j ts ≡ 0) same z in rw new_quiet (omega (arith, z'))

  new_FitsAt :
      (k : ℕ) (ts : List Task) (o : Option Contract)
      → payout_requests id ts ≡ 0
      → FitsAt o k ts
      → FitsAt (if id == k then some (Create.created inp id now) else o) k (t ∷ ts)
  new_FitsAt k ts o z h = elim (Bool-cases (id == k)) [
    | inl hit ↦ rw hit (new_Fits inp id now (new_unpaid k ts hit z) (new_counted k ts hit))
    | inr miss ↦ rw miss (enqueue-FitsAt t k ts o new_quiet h)
  ]

  created-Consistent :
      {cs : List Contract} {ts : List Task} (h : IsConsistent cs ts)
      → select? (is_contract id) cs ≡ none
      → IsConsistent (Create.created inp id now ∷ cs) (t ∷ ts)
  unfolding Create.created
  created-Consistent {cs} {ts} h fresh =
      let z : FitsAt none id ts = subst (λ o. FitsAt o id ts) fresh (h.fits id) in
      record {
        keyed = (fresh, h.keyed);
        fits = λ k. new_FitsAt k ts (select? (is_contract k) cs) z (h.fits k);
      }

at_tables :
    (db : Db) (cs : List Contract) (ts : List Task) (t : Task)
    → (db.contracts ≡ cs) × (db.tasks ≡ ts)
    → IsConsistent cs (t ∷ ts)
    → IsConsistent db.contracts (t ∷ db.tasks)
at_tables db cs ts t (c, k) h =
    subst (λ cs'. IsConsistent cs' (t ∷ db.tasks)) (sym c)
      (subst (λ ts'. IsConsistent cs (t ∷ ts')) (sym k) h)

pub create-Consistent :
    (lower : String → String) (inp : Create.CreateInput) (id now : ℕ)
    → Keeps (Create.create lower inp id now)
unfolding Create.create
create-Consistent lower inp id now db h = Ensures-check _ _ _ db λ ok_row.
    let row = Create.created inp id now in
    let t = record (task_for TaskKind.create_thread id) {
      app_id = inp.app_id;
      token = inp.token;
    } in
    let h' = created-Consistent inp id now t refl refl h (created_fresh inp id now db ok_row) in
    Ensures-write _ _ db (
      Ensures-bind _ (λ _ db'. (db'.contracts ≡ row ∷ db.contracts) × (db'.tasks ≡ db.tasks)) _ _
        (insert_items-frame lower id inp.created_by now (row ∷ db.contracts) db.tasks inp.items _
          (refl, refl))
        λ _ db' same.
          Ensures-write _ _ db'
            (Ensures-pure _ _ (at_tables db' (row ∷ db.contracts) db.tasks t same h')))
