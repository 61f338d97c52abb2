-- ===== src/Contracts/Terminal.antt =====
-- A contract that has ended - completed, expired or cancelled - keeps its status: what each write
-- to the contracts does to it.
mod Requests
mod Members
pub mod History
use mathlib.Core.Option
use spacecraft_corporation.Prelude.{
  ℕ, String, ◌≡◌, refl, subst, Bool, true, false, ◌&&◌, inl, inr, none, some, List, ◌∷◌, arith,
  ◌==◌, if◌then◌else◌, Bool-cases,
}
use spacecraft_corporation.Prelude.Rows.{
  select?, select?_test, select?-update_where, update_where, update-IsKeyed, IsKeyed,
}
use spacecraft_corporation.Contracts.Model.{Status, is_open, Contract, Task, Db}
use spacecraft_corporation.Contracts.Guards.{
  touch, touched, set_contract, enqueue, enqueue_refresh, enqueue_close,
}
use spacecraft_corporation.Contracts.Consistent.{contract_id, is_contract}

-- The tables hold contract `k` with the status `st`, which is not open.
pub record EndedAs (k : ℕ) (st : Status) (cs : List Contract) : Type 0 where
  pub keyed : IsKeyed contract_id cs
  pub ended : is_open st ≡ false
  pub row : (c : Contract) × (select? (is_contract k) cs ≡ some c) × (c.status ≡ st)

abbrev pub Ended : ℕ → Status → Db → Type 0
Ended k st db = EndedAs k st db.contracts

module _ {k : ℕ} {st : Status} {cs : List Contract} (h : EndedAs k st cs) where
  -- An UPDATE that keeps the status of the rows it changes, or changes open rows only.
  pub EndedAs-update :
      (p : Contract → Bool) (f : Contract → Contract)
      → ((x : Contract) → (f x).id ≡ x.id)
      → ((x : Contract)
          → select? (is_contract k) cs ≡ some x
          → p x ≡ true
          → is_open x.status ≡ false
          → (f x).status ≡ x.status)
      → EndedAs k st (update_where p f cs)
  EndedAs-update p f same kept =
      let c : Contract = h.row.0 in
      let here : select? (is_contract k) cs ≡ some c = h.row.1 in
      let is : c.status ≡ st = h.row.2 in
      let over : is_open c.status ≡ false = rw is h.ended in
      record {
        keyed = update-IsKeyed contract_id p f cs same h.keyed;
        ended = h.ended;
        row = (
          (if p c then f c else c),
          ground (arith, select?-update_where contract_id p f k cs same, here),
          elim (Bool-cases (p c)) [
            | inl e ↦ ground (arith, kept c here e over)
            | inr e ↦ ground arith
          ],
        );
      }

  pub EndedAs-edit :
      (p : Contract → Bool) (f : Contract → Contract)
      → ((x : Contract) → (f x).id ≡ x.id)
      → ((x : Contract) → (f x).status ≡ x.status)
      → EndedAs k st (update_where p f cs)
  EndedAs-edit p f same kept = EndedAs-update p f same (λ x _ _ _. kept x)

  pub EndedAs-other :
      (p : Contract → Bool) (f : Contract → Contract)
      → ((x : Contract) → (f x).id ≡ x.id)
      → ((x : Contract)
          → select? (is_contract k) cs ≡ some x
          → p x ≡ true
          → is_open x.status ≡ true)
      → EndedAs k st (update_where p f cs)
  EndedAs-other p f same opened =
      EndedAs-update p f same (λ x e t over. ground (arith, opened x e t))

  -- A new contract has another id.
  pub EndedAs-insert : (c : Contract) → select? (is_contract c.id) cs ≡ none → EndedAs k st (c ∷ cs)
  EndedAs-insert c fresh = record {
    keyed = (fresh, h.keyed);
    ended = h.ended;
    row = (h.row.0, kept_row, h.row.2);
  }
    where
      kept_row : select? (is_contract k) (c ∷ cs) ≡ some h.row.0
      kept_row = elim (Bool-cases (c.id == k)) [
        | inl e ↦
            let same : c.id ≡ k = ground arith in
            let gone = subst (λ i. select? (is_contract i) cs ≡ none) same fresh in
            ground (arith, gone, h.row.1)
        | inr e ↦ ground (arith, h.row.1)
      ]

pub touch-Ended :
    (k : ℕ) (st : Status) (cid now : ℕ) (actor : String) (db : Db)
    → Ended k st db
    → Ended k st (touch cid now actor db)
unfolding touch touched
touch-Ended k st cid now actor db h = EndedAs-edit h _ _ (λ x. refl) (λ x. refl)

-- The contract of `cid` is open, so it is not one that has ended.
pub complete-Ended :
    (k : ℕ) (st : Status) (p : Contract → Bool) (f : Contract → Contract) (cid : ℕ) {c : Contract}
    (db : Db)
    → Ended k st db
    → select? (is_contract cid) db.contracts ≡ some c
    → is_open c.status ≡ true
    → ((x : Contract) → p x ≡ true → x.id ≡ cid)
    → ((x : Contract) → (f x).id ≡ x.id)
    → EndedAs k st (update_where p f db.contracts)
complete-Ended k st p f cid {c} db h here opened only same = EndedAs-other h p f same λ x e t.
    let at : x.id ≡ k =
      ground (arith, select?_test contract_id (is_contract k) {r = x} db.contracts e) in
    let both : k ≡ cid = ground (arith, only x t) in
    let found : select? (is_contract cid) db.contracts ≡ some x =
      subst (λ i. select? (is_contract i) db.contracts ≡ some x) both e in
    ground arith
