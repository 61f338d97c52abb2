-- ===== src/Contracts/Sweep/Expire.antt =====
-- After a tick of the sweeper nothing is due that was due when it began.
use spacecraft_corporation.Prelude.{
  ℕ, zero, suc, ◌≤◌, ◌≡◌, refl, sym, ap, subst, ◌∙◌, Bool, true, false, not, ◌||◌, inl, inr, some,
  List, [], ◌∷◌, ◌==◌, if◌then◌else◌, length, take, All, arith, Bool-cases,
}
use spacecraft_corporation.Prelude.Rows.{
  exists, exists-false, select_all, count_where, update_where, update_where-none, All-map,
  All-update_where,
}
use spacecraft_corporation.Prelude.Tx.{commit, ◌>>=◌}
use spacecraft_corporation.Contracts.Model.{Status, Contract, Db}
use spacecraft_corporation.Contracts.Guards.{enqueue_close, enqueue_notify}
use spacecraft_corporation.Contracts.Lifecycle.{
  closed_as, system_actor, is_due, may_notify, mark_expired, mark_notified,
}
use spacecraft_corporation.Contracts.Once.{due_at, is_due_mono}
use spacecraft_corporation.Contracts.Sweep.{
  order_by_deadline, insert_by_deadline, ids_of, due_contracts, notify_due, expire_all, notify_all,
  sweep_batch, sweep,
}

abbrev contains : List ℕ → ℕ → Bool
contains [] k = false
contains (x ∷ xs) k = (x == k) || contains xs k

take-all : {A : Type 0} (n : ℕ) (xs : List A) → length xs ≤ n → take n xs ≡ xs
take-all zero [] h = refl
take-all (suc n) [] h = refl
take-all zero (x ∷ xs) h = ground arith
take-all (suc n) (x ∷ xs) h = ap (λ ys. x ∷ ys) (take-all n xs (omega arith))

length-insert :
    (c : Contract) (xs : List Contract)
    → length (ids_of (insert_by_deadline c xs)) ≡ suc (length (ids_of xs))
unfolding insert_by_deadline
length-insert c [] = refl
length-insert c (x ∷ xs) = ground (arith, length-insert c xs)

length-order : (xs : List Contract) → length (ids_of (order_by_deadline xs)) ≡ length (ids_of xs)
unfolding order_by_deadline
length-order [] = refl
length-order (x ∷ xs) = length-insert x (order_by_deadline xs) ∙ ap suc (length-order xs)

contains-insert :
    (k : ℕ) (c : Contract) (xs : List Contract)
    → contains (ids_of (insert_by_deadline c xs)) k ≡ ((c.id == k) || contains (ids_of xs) k)
unfolding insert_by_deadline
contains-insert k c [] = refl
contains-insert k c (x ∷ xs) = ground (arith, contains-insert k c xs)

contains-order :
    (k : ℕ) (xs : List Contract)
    → contains (ids_of (order_by_deadline xs)) k ≡ contains (ids_of xs) k
unfolding order_by_deadline
contains-order k [] = refl
contains-order k (x ∷ xs) =
    ground (arith, contains-insert k x (order_by_deadline xs), contains-order k xs)

module _ (now : ℕ) where
  length-select :
      (cs : List Contract)
      → length (ids_of (select_all (is_due now) cs)) ≡ count_where (is_due now) cs
  length-select [] = refl
  length-select (c ∷ cs) = elim (Bool-cases (is_due now c)) [
    | inl h ↦ rw h (omega (arith, length-select cs))
    | inr h ↦ rw h (omega (arith, length-select cs))
  ]

  -- A contract that is due is one of `ids`.
  abbrev IsListed : List ℕ → Contract → Type 0
  IsListed ids c = (not (is_due now c) || contains ids c.id) ≡ true

  IsListed-more :
      (c x : Contract) (cs : List Contract)
      → IsListed (ids_of (select_all (is_due now) cs)) x
      → IsListed (ids_of (select_all (is_due now) (c ∷ cs))) x
  IsListed-more c x cs h = elim (Bool-cases (is_due now c)) [
    | inl e ↦ rw e (ground (arith, h))
    | inr e ↦ rw e h
  ]

  IsListed-self :
      (c : Contract) (cs : List Contract) → IsListed (ids_of (select_all (is_due now) (c ∷ cs))) c
  IsListed-self c cs = elim (Bool-cases (is_due now c)) [
    | inl e ↦ rw e (ground arith)
    | inr e ↦ rw e refl
  ]

  select-IsListed : (cs : List Contract) → All (IsListed (ids_of (select_all (is_due now) cs))) cs
  select-IsListed [] = tt
  select-IsListed (c ∷ cs) = (
    IsListed-self c cs,
    All-map (IsListed (ids_of (select_all (is_due now) cs)))
        (IsListed (ids_of (select_all (is_due now) (c ∷ cs)))) cs (λ x e. IsListed-more c x cs e)
        (select-IsListed cs),
  )

  scan-ids :
      (limit : ℕ) (db : Db)
      → count_where (is_due now) db.contracts ≤ limit
      → due_contracts now limit db
        ≡ ids_of (order_by_deadline (select_all (is_due now) db.contracts))
  unfolding due_contracts
  scan-ids limit db h = take-all limit _ (
      omega
        (arith, length-order (select_all (is_due now) db.contracts), length-select db.contracts))

  -- The scan lists all that is due, if the batch has room.
  scan-IsListed :
      (limit : ℕ) (db : Db)
      → count_where (is_due now) db.contracts ≤ limit
      → All (IsListed (due_contracts now limit db)) db.contracts
  scan-IsListed limit db h =
      let found = select_all (is_due now) db.contracts in
      All-map (IsListed (ids_of found)) (IsListed (due_contracts now limit db)) db.contracts
        (λ x e.
          subst (λ b. (not (is_due now x) || b) ≡ true)
            (sym (ap (λ is. contains is x.id) (scan-ids limit db h) ∙ contains-order x.id found)) e)
        (select-IsListed db.contracts)

  abbrev expired_by : ℕ → ℕ → List Contract → List Contract
  expired_by id t = update_where (due_at id t) (closed_as Status.expired_status system_actor t)

  mark_expired-contracts :
      (id t : ℕ) (db : Db)
      → (commit (mark_expired id t) db).1.contracts ≡ expired_by id t db.contracts
  unfolding mark_expired enqueue_close commit ◌>>=◌
  mark_expired-contracts id t db = elim (Bool-cases (exists (due_at id t) db.contracts)) [
    | inl e ↦ rw e refl
    | inr e ↦ rw e (sym (update_where-none _ _ db.contracts (exists-false _ db.contracts e)))
  ]

  expired-row :
      (id t : ℕ) (ids : List ℕ) (x : Contract)
      → now ≤ t
      → IsListed (id ∷ ids) x
      → IsListed ids (if due_at id t x then closed_as Status.expired_status system_actor t x else x)
  expired-row id t ids x le h = elim (Bool-cases (due_at id t x)) [
    | inl e ↦ rw e refl
    | inr e ↦ rw e (elim (Bool-cases (x.id == id)) [
      | inl own ↦ let late = is_due_mono t now x le (ground arith) in ground (arith, late)
      | inr other ↦ ground arith
    ])
  ]

  expired-IsListed :
      (id t : ℕ) (ids : List ℕ) (cs : List Contract)
      → now ≤ t
      → All (IsListed (id ∷ ids)) cs
      → All (IsListed ids) (expired_by id t cs)
  expired-IsListed id t ids [] le h = tt
  expired-IsListed id t ids (x ∷ xs) le h =
      (expired-row id t ids x le h.0, expired-IsListed id t ids xs le h.1)

  expire_all-IsListed :
      (clock : ℕ → ℕ)
      → ((k : ℕ) → now ≤ clock k)
      → (ids : List ℕ) (db : Db) → All (IsListed ids) db.contracts
      → All (IsListed []) (expire_all clock ids db).contracts
  unfolding expire_all
  expire_all-IsListed clock later [] db h = h
  expire_all-IsListed clock later (id ∷ ids) db h = expire_all-IsListed clock later ids _ (
      subst (All (IsListed ids)) (sym (mark_expired-contracts id (clock id) db))
        (expired-IsListed id (clock id) ids db.contracts (later id) h))

  none_due : (cs : List Contract) → All (IsListed []) cs → exists (is_due now) cs ≡ false
  none_due [] h = refl
  none_due (x ∷ xs) h = ground (arith, h.0, none_due xs h.1)

  mark_notified-contracts :
      (id t : ℕ) (db : Db)
      → (commit (mark_notified id t) db).1.contracts
        ≡ update_where
            (may_notify id db)
            (λ c. record c { expiry_notified_at = some t })
            db.contracts
  unfolding mark_notified enqueue_notify commit ◌>>=◌
  mark_notified-contracts id t db = elim (Bool-cases (exists (may_notify id db) db.contracts)) [
    | inl e ↦ rw e refl
    | inr e ↦ rw e (sym (update_where-none _ _ db.contracts (exists-false _ db.contracts e)))
  ]

  notify_all-IsListed :
      (clock : ℕ → ℕ) (ids : List ℕ) (db : Db)
      → All (IsListed []) db.contracts
      → All (IsListed []) (notify_all clock ids db).contracts
  unfolding notify_all
  notify_all-IsListed clock [] db h = h
  notify_all-IsListed clock (id ∷ ids) db h = notify_all-IsListed clock ids _ (
      subst (All (IsListed [])) (sym (mark_notified-contracts id (clock id) db)) (
        All-update_where (IsListed []) (may_notify id db)
          (λ c. record c { expiry_notified_at = some (clock id) }) db.contracts (λ x e. e) h))

  -- If the clock of the expiry pass is not behind the tick and no more contracts are due than the
  -- batch of 100 holds, one tick of the sweeper leaves no contract that was due when it began.
  pub sweep-none_due :
      (expire_clock notify_clock : ℕ → ℕ)
      → ((k : ℕ) → now ≤ expire_clock k)
      → (within : ℕ) (db : Db) → count_where (is_due now) db.contracts ≤ sweep_batch
      → exists (is_due now) (sweep expire_clock notify_clock now within db).contracts ≡ false
  unfolding sweep
  sweep-none_due expire_clock notify_clock later within db room =
      let swept = expire_all expire_clock (due_contracts now sweep_batch db) db in
      let soon = notify_due now within sweep_batch swept in
      none_due (notify_all notify_clock soon swept).contracts (
        notify_all-IsListed notify_clock soon swept (
          expire_all-IsListed expire_clock later (due_contracts now sweep_batch db) db
            (scan-IsListed sweep_batch db room)))
