-- ===== src/Contracts/Consistent.antt =====
-- The invariant that ties each contract to the requests in the outbox: what was enqueued for it,
-- and what its columns say of one another.
mod Edits
pub mod Locks
mod Requests
mod Members
pub mod History
use mathlib.Core.Option
use spacecraft_corporation.Prelude.{
  ℕ, ◌+◌, ◌<◌, ◌≡◌, refl, sym, subst, Bool, true, false, not, ◌&&◌, inl, inr, Option, none, some,
  List, [], ◌∷◌, arith, ◌==◌, if◌then◌else◌, Bool-cases, Option-cases,
}
use spacecraft_corporation.Prelude.Rows.{
  select?, select?_test, select?-update_where, update_where, update-IsKeyed, sum_by, IsKeyed,
}
use spacecraft_corporation.Contracts.Model.{
  Status, is_open, is_completed, TaskKind, Contract, Task, Db,
}
use spacecraft_corporation.Contracts.Items.{is_some}
use spacecraft_corporation.Contracts.Members.{is_rewarded}

abbrev pub contract_id : Contract → ℕ
contract_id c = c.id

abbrev pub is_contract : ℕ → Contract → Bool
is_contract k c = c.id == k

abbrev pub is_initial_payout : TaskKind → Bool → Bool
is_initial_payout TaskKind.payout repost = not repost
is_initial_payout _ _ = false

abbrev pub is_create : TaskKind → Bool
is_create TaskKind.create_thread = true
is_create _ = false

abbrev pub is_close : TaskKind → Bool
is_close TaskKind.close = true
is_close _ = false

abbrev pub one_if : Bool → ℕ
one_if b = if b then 1 else 0

-- How many requests of a kind were enqueued for contract `k`.
abbrev pub payout_requests : ℕ → List Task → ℕ
payout_requests k =
    sum_by (λ (t : Task). one_if (is_initial_payout t.kind t.repost && (t.contract_id == k)))

abbrev pub create_requests : ℕ → List Task → ℕ
create_requests k = sum_by (λ (t : Task). one_if (is_create t.kind && (t.contract_id == k)))

abbrev pub close_requests : ℕ → List Task → ℕ
close_requests k = sum_by (λ (t : Task). one_if (is_close t.kind && (t.contract_id == k)))

-- A completed contract with a reward has one payout request, any other none; a contract without a
-- thread has a request to create it; a closed one has a request to close its post; `closed_at` is
-- set exactly when the contract is not open; only a completed contract has been paid out.
pub record Fits (c : Contract) (pay create close : ℕ) : Type 0 where
  pub payout : pay ≡ one_if (is_completed c.status && is_rewarded c)
  pub post : is_some c.thread_id ≡ false → 0 < create
  pub closing : is_open c.status ≡ false → 0 < close
  pub closed : is_some c.closed_at ≡ not (is_open c.status)
  pub paid : is_some c.payouts_paid_at ≡ true → is_completed c.status ≡ true

abbrev pub FitsAt : Option Contract → ℕ → List Task → Type 0
FitsAt none k ts = payout_requests k ts ≡ 0
FitsAt (some c) k ts = Fits c (payout_requests k ts) (create_requests k ts) (close_requests k ts)

pub record IsConsistent (cs : List Contract) (ts : List Task) : Type 0 where
  pub keyed : IsKeyed contract_id cs
  pub fits : (k : ℕ) → FitsAt (select? (is_contract k) cs) k ts

abbrev pub Consistent : Db → Type 0
Consistent db = IsConsistent db.contracts db.tasks

change-FitsAt :
    (g : Contract → Contract) (k : ℕ) (ts new : List Task) (o : Option Contract)
    → ((c : Contract) → o ≡ some c → FitsAt (some c) k ts → FitsAt (some (g c)) k new)
    → (o ≡ none → payout_requests k ts ≡ 0 → payout_requests k new ≡ 0)
    → FitsAt o k ts
    → FitsAt (Option.map g o) k new
change-FitsAt g k ts new none one other h = other refl h
change-FitsAt g k ts new (some c) one other h = one c refl h

-- An UPDATE of contracts, with the requests that go with it.
pub IsConsistent-change :
    {cs : List Contract} {ts : List Task} (h : IsConsistent cs ts)
    → (p : Contract → Bool) (f : Contract → Contract) (new : List Task)
    → ((c : Contract) → (f c).id ≡ c.id)
    → ((k : ℕ) (c : Contract)
        → select? (is_contract k) cs ≡ some c
        → FitsAt (some c) k ts
        → FitsAt (some (if p c then f c else c)) k new)
    → ((k : ℕ)
        → select? (is_contract k) cs ≡ none
        → payout_requests k ts ≡ 0
        → payout_requests k new ≡ 0)
    → IsConsistent (update_where p f cs) new
IsConsistent-change {cs} {ts} h p f new same one other = record {
  keyed = update-IsKeyed contract_id p f cs same h.keyed;
  fits = λ k.
      subst (λ o. FitsAt o k new) (sym (select?-update_where contract_id p f k cs same))
        (change-FitsAt (λ c. if p c then f c else c) k ts new (select? (is_contract k) cs) (one k)
          (other k) (h.fits k));
}

pub enqueue-FitsAt :
    (t : Task) (k : ℕ) (ts : List Task) (o : Option Contract)
    → is_initial_payout t.kind t.repost ≡ false
    → FitsAt o k ts
    → FitsAt o k (t ∷ ts)
enqueue-FitsAt t k ts none e h = rw e (omega (arith, h))
enqueue-FitsAt t k ts (some c) e h = record {
  payout = rw e (omega (arith, h.payout));
  post = λ n. omega (arith, h.post n);
  closing = λ n. omega (arith, h.closing n);
  closed = h.closed;
  paid = h.paid;
}

-- A request that is no initial payout.
pub IsConsistent-enqueue :
    {cs : List Contract} {ts : List Task} (h : IsConsistent cs ts) (t : Task)
    → is_initial_payout t.kind t.repost ≡ false
    → IsConsistent cs (t ∷ ts)
IsConsistent-enqueue {cs} {ts} h t e = record {
  keyed = h.keyed;
  fits = λ k. enqueue-FitsAt t k ts (select? (is_contract k) cs) e (h.fits k);
}
