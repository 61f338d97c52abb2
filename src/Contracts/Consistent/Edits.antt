-- ===== src/Contracts/Consistent/Edits.antt =====
-- What each kind of write to contracts does to the invariant.
use spacecraft_corporation.Prelude.{
  ℕ, ◌+◌, ◌<◌, ◌≤◌, String, ◌≡◌, refl, sym, subst, ◌∙◌, Bool, true, false, ◌&&◌, inl, inr, none,
  some, List, ◌∷◌, arith, ◌==◌, if◌then◌else◌, Bool-cases,
}
use spacecraft_corporation.Prelude.Rows.{select?, select?_test, update_where}
use spacecraft_corporation.Contracts.Model.{Status, is_open, is_completed, TaskKind, Contract, Task}
use spacecraft_corporation.Contracts.Guards.{task_for}
use spacecraft_corporation.Contracts.Items.{is_some}
use spacecraft_corporation.Contracts.Members.{is_rewarded, completed_by}
use spacecraft_corporation.Contracts.Lifecycle.{closed_as}
use spacecraft_corporation.Contracts.Consistent.{
  Fits, FitsAt, IsConsistent, IsConsistent-change, contract_id, is_contract, one_if,
  payout_requests, create_requests, close_requests,
}

-- What the invariant reads of a contract.
abbrev pub SameView : Contract → Contract → Type 0
SameView c d =
    (d.status ≡ c.status)
    × (is_rewarded d ≡ is_rewarded c)
    × (is_some d.thread_id ≡ is_some c.thread_id)
    × (is_some d.closed_at ≡ is_some c.closed_at)
    × (is_some d.payouts_paid_at ≡ is_some c.payouts_paid_at)

Fits-same : (c d : Contract) {a b e : ℕ} → SameView c d → Fits c a b e → Fits d a b e
Fits-same c d (status, rewarded, thread, closed, paid) h = record {
  payout = rw (status, rewarded) h.payout;
  post = rw thread h.post;
  closing = rw status h.closing;
  closed = rw (status, closed) h.closed;
  paid = rw (status, paid) h.paid;
}

-- The counts may have grown, and may be written in another way.
Fits-grow :
    (c : Contract) {a b e a' b' e' : ℕ} → a' ≡ a → b ≤ b' → e ≤ e' → Fits c a b e → Fits c a' b' e'
Fits-grow c pa pb pe h = record {
  payout = pa ∙ h.payout;
  post = λ n. omega (arith, h.post n);
  closing = λ n. omega (arith, h.closing n);
  closed = h.closed;
  paid = h.paid;
}

open_not_completed : (st : Status) → is_open st ≡ true → is_completed st ≡ false
open_not_completed st h = ground arith

Fits-closed_as :
    (c : Contract) (st : Status) (actor : String) (now : ℕ) {a b e a' b' e' : ℕ}
    → is_open st ≡ false
    → is_completed st ≡ false
    → is_open c.status ≡ true
    → a' ≡ a
    → b ≤ b'
    → 0 < e'
    → Fits c a b e
    → Fits (closed_as st actor now c) a' b' e'
Fits-closed_as c st actor now shut uncompleted o pa pb pe h =
    let before = open_not_completed c.status o in
    record {
      payout = ground (arith, h.payout);
      post = λ n. omega (arith, h.post n);
      closing = λ _. pe;
      closed = rw shut refl;
      paid = λ n. ground (arith, h.paid n);
    }

module _ {cs : List Contract} {ts : List Task} (h : IsConsistent cs ts) where
  found_id : (k : ℕ) (c : Contract) → select? (is_contract k) cs ≡ some c → c.id ≡ k
  found_id k c e = ground (arith, select?_test contract_id (is_contract k) {r = c} cs e)

  found_here :
      (k : ℕ) (c : Contract)
      → select? (is_contract k) cs ≡ some c
      → select? (is_contract c.id) cs ≡ some c
  found_here k c e = subst (λ i. select? (is_contract i) cs ≡ some c) (sym (found_id k c e)) e

  -- An UPDATE whose effect on each row that it changes is known.
  pub IsConsistent-set :
      (p : Contract → Bool) (f : Contract → Contract)
      → ((c : Contract) → (f c).id ≡ c.id)
      → ((c : Contract) (a b e : ℕ)
          → select? (is_contract c.id) cs ≡ some c
          → p c ≡ true
          → Fits c a b e
          → Fits (f c) a b e)
      → IsConsistent (update_where p f cs) ts
  IsConsistent-set p f same fits = IsConsistent-change h p f ts same one (λ k _ z. z)
    where
      one :
          (k : ℕ) (c : Contract)
          → select? (is_contract k) cs ≡ some c
          → FitsAt (some c) k ts
          → FitsAt (some (if p c then f c else c)) k ts
      one k c e x = elim (Bool-cases (p c)) [
        | inl t ↦ let here = found_here k c e in rw t (fits c _ _ _ here t x)
        | inr t ↦ rw t x
      ]

  -- An UPDATE of columns that the invariant does not read.
  pub IsConsistent-edit :
      (p : Contract → Bool) (f : Contract → Contract)
      → ((c : Contract) → (f c).id ≡ c.id)
      → ((c : Contract) → SameView c (f c))
      → IsConsistent (update_where p f cs) ts
  IsConsistent-edit p f same view =
      IsConsistent-set p f same (λ c _ _ _ _ _ x. Fits-same c (f c) (view c) x)

  -- An open contract is closed without a payout, together with the request to close its post.
  pub IsConsistent-close :
      (p : Contract → Bool) (k : ℕ) (st : Status) (actor : String) (now : ℕ)
      → is_open st ≡ false
      → is_completed st ≡ false
      → ((c : Contract)
          → select? (is_contract c.id) cs ≡ some c
          → p c ≡ true
          → (c.id ≡ k) × (is_open c.status ≡ true))
      → IsConsistent (update_where p (closed_as st actor now) cs) (task_for TaskKind.close k ∷ ts)
  IsConsistent-close p k st actor now shut uncompleted guarded =
      IsConsistent-change h p (closed_as st actor now) new (λ c. refl) one
        (λ j _ z. omega (arith, z))
    where
      new : List Task
      new = task_for TaskKind.close k ∷ ts

      one :
          (j : ℕ) (c : Contract)
          → select? (is_contract j) cs ≡ some c
          → FitsAt (some c) j ts
          → FitsAt
              (some (if p c then closed_as st actor now c else c))
              j
              (task_for TaskKind.close k ∷ ts)
      one j c e x = elim (Bool-cases (p c)) [
        | inl t ↦
            let here = found_here j c e in
            let at : c.id ≡ k = (guarded c here t).0 in
            let id = found_id j c e in
            rw t (
              Fits-closed_as c st actor now shut uncompleted (guarded c here t).1 (omega arith)
                (omega arith) (ground arith) x)
        | inr t ↦ rw t (Fits-grow c (omega arith) (omega arith) (omega arith) x)
      ]

  -- A post is lost, together with the request to create it.
  pub IsConsistent-recreate :
      (k now : ℕ)
      → IsConsistent
          (update_where (is_contract k) (λ c. record c { thread_id = none; updated_at = now }) cs)
          (task_for TaskKind.create_thread k ∷ ts)
  IsConsistent-recreate k now =
      IsConsistent-change h (is_contract k) _ (task_for TaskKind.create_thread k ∷ ts) (λ c. refl)
        one (λ j _ z. omega (arith, z))
    where
      one :
          (j : ℕ) (c : Contract)
          → select? (is_contract j) cs ≡ some c
          → FitsAt (some c) j ts
          → FitsAt
              (some
                (if is_contract k c then record c { thread_id = none; updated_at = now } else c))
              j
              (task_for TaskKind.create_thread k ∷ ts)
      one j c e x = elim (Bool-cases (is_contract k c)) [
        | inl t ↦
            let id = found_id j c e in
            rw t (record {
              payout = omega (arith, x.payout);
              post = λ _. ground arith;
              closing = λ n. omega (arith, x.closing n);
              closed = x.closed;
              paid = x.paid;
            })
        | inr t ↦ rw t (Fits-grow c (omega arith) (omega arith) (omega arith) x)
      ]

-- The last delivery: the contract is completed, with the request to close its post, and with a
-- payout request if it has a reward.
module _ {cs : List Contract} {ts : List Task} (h : IsConsistent cs ts) (k : ℕ) (actor : String)
    (now : ℕ) (c0 : Contract) (here : select? (is_contract k) cs ≡ some c0)
    (opened : is_open c0.status ≡ true) where
  Fits-completed :
      (c : Contract) {a b e a' b' e' : ℕ}
      → is_open c.status ≡ true
      → a' ≡ one_if (is_rewarded c) + a
      → b ≤ b'
      → 0 < e'
      → Fits c a b e
      → Fits (completed_by actor now c) a' b' e'
  Fits-completed c o pa pb pe x =
      let before = open_not_completed c.status o in
      record {
        payout = ground (arith, x.payout);
        post = λ n. omega (arith, x.post n);
        closing = λ _. pe;
        closed = refl;
        paid = λ n. refl;
      }

  unfoldable pub completed_tasks : List Task
  completed_tasks =
      task_for TaskKind.close k ∷ (if is_rewarded c0 then task_for TaskKind.payout k ∷ ts else ts)

  payouts-completed :
      (j : ℕ)
      → payout_requests j completed_tasks
        ≡ one_if ((k == j) && is_rewarded c0) + payout_requests j ts
  unfolding completed_tasks
  payouts-completed j = ground arith

  creates-completed : (j : ℕ) → create_requests j completed_tasks ≡ create_requests j ts
  unfolding completed_tasks
  creates-completed j = ground arith

  closes-completed :
      (j : ℕ) → close_requests j completed_tasks ≡ one_if (k == j) + close_requests j ts
  unfolding completed_tasks
  closes-completed j = ground arith

  pub IsConsistent-complete :
      IsConsistent (update_where (is_contract k) (completed_by actor now) cs) completed_tasks
  IsConsistent-complete =
      IsConsistent-change h (is_contract k) (completed_by actor now) completed_tasks (λ c. refl) one
        (λ j e z. let ne : (k == j) ≡ false = ground arith in payouts-completed j ∙ ground arith)
    where
      one :
          (j : ℕ) (c : Contract)
          → select? (is_contract j) cs ≡ some c
          → FitsAt (some c) j ts
          → FitsAt
              (some (if is_contract k c then completed_by actor now c else c))
              j
              completed_tasks
      one j c e x = elim (Bool-cases (is_contract k c)) [
        | inl t ↦
            let id = found_id h j c e in
            let hit : (k == j) ≡ true = ground arith in
            let same : c ≡ c0 = ground arith in
            let o : is_open c.status ≡ true = ground arith in
            rw t (
              Fits-completed c o (ground (arith, payouts-completed j))
                (omega (arith, creates-completed j)) (ground (arith, closes-completed j)) x)
        | inr t ↦
            let id = found_id h j c e in
            let miss : (k == j) ≡ false = ground arith in
            rw t (
              Fits-grow c (ground (arith, payouts-completed j)) (omega (arith, creates-completed j))
                (omega (arith, closes-completed j)) x)
      ]
