-- ===== src/Contracts/Consistent/Locks.antt =====
-- The contract that a lock returns is the row of its id, open, and before its deadline.
use spacecraft_corporation.Prelude.{
  ℕ, String, ◌≡◌, subst, Bool, true, false, ◌&&◌, Option, none, some, arith, ◌==◌,
}
use spacecraft_corporation.Prelude.Rows.{IsKeyed, select?, select?_key, select?_test}
use spacecraft_corporation.Prelude.Tx.{ok}
use spacecraft_corporation.Contracts.Model.{is_open, Contract, Item, Db}
use spacecraft_corporation.Contracts.Guards.{
  is_past, item_owner, open_guard, guard_found, lock_open_contract, lock_open_contract_by_id,
  lock_open_contract_by_item,
}
use spacecraft_corporation.Contracts.Lifecycle.{lock_for_cancel}
use spacecraft_corporation.Contracts.Consistent.{contract_id, is_contract}

pub record LockedAt (now : ℕ) (db : Db) (c : Contract) : Type 0 where
  pub row : select? (is_contract c.id) db.contracts ≡ some c
  pub opened : is_open c.status ≡ true
  pub live : is_past c.deadline now ≡ false

module _ (now : ℕ) (db : Db) (k : IsKeyed contract_id db.contracts) {c : Contract} where
  guard_found-LockedAt :
      (p : Contract → Bool) → guard_found (select? p db.contracts) now ≡ ok c → LockedAt now db c
  unfolding guard_found open_guard
  guard_found-LockedAt p e = record {
    row = select?_key contract_id p db.contracts k (ground arith);
    opened = ground arith;
    live = ground arith;
  }

  pub lock_open_contract-LockedAt :
      (server : ℕ) (thread : String)
      → lock_open_contract server thread now db ≡ ok c
      → LockedAt now db c
  unfolding lock_open_contract
  lock_open_contract-LockedAt server thread e = guard_found-LockedAt _ e

  pub lock_by_id-LockedAt :
      (server cid : ℕ) → lock_open_contract_by_id server cid now db ≡ ok c → LockedAt now db c
  unfolding lock_open_contract_by_id
  lock_by_id-LockedAt server cid e = guard_found-LockedAt _ e

  item_owner-LockedAt :
      (server : ℕ) (o : Option Item)
      → guard_found (item_owner server o db.contracts) now ≡ ok c
      → LockedAt now db c
  unfolding guard_found
  item_owner-LockedAt server none e = absurd (ground arith)
  item_owner-LockedAt server (some it) e = guard_found-LockedAt _ e

  pub lock_by_item-LockedAt :
      (server item : ℕ) → lock_open_contract_by_item server item now db ≡ ok c → LockedAt now db c
  unfolding lock_open_contract_by_item
  lock_by_item-LockedAt server item e =
      item_owner-LockedAt server (select? (λ (i : Item). i.id == item) db.items) e

  -- CancelByID does not look at the deadline.
  pub lock_for_cancel-row :
      (server cid : ℕ)
      → lock_for_cancel server cid db ≡ ok c
      → (select? (is_contract cid) db.contracts ≡ some c) × (is_open c.status ≡ true)
  unfolding lock_for_cancel
  lock_for_cancel-row server cid e =
      let found : select? (λ (x : Contract). (x.id == cid) && (x.servers_id == server)) db.contracts
          ≡ some c =
        ground arith in
      let same : c.id ≡ cid = ground (
        arith,
        select?_test contract_id (λ (x : Contract). (x.id == cid) && (x.servers_id == server))
            {r = c} db.contracts found,
      ) in
      (
        subst (λ i. select? (is_contract i) db.contracts ≡ some c) same
            (select?_key contract_id _ db.contracts k found),
        ground arith,
      )
