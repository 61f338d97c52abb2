-- ===== src/Supply/Ended.antt =====
-- A request that has ended - completed or cancelled - keeps its status and its time of closing.
use spacecraft_corporation.Prelude.{
  ℕ, ◌≡◌, refl, subst, true, false, inl, inr, Option, none, some, List, ◌∷◌, arith, ◌==◌,
  if◌then◌else◌, Bool-cases,
}
use spacecraft_corporation.Prelude.Rows.{
  IsKeyed, select?, select?_test, select?-update_where, update_where, update-IsKeyed,
}
use spacecraft_corporation.Supply.Model.{Status, is_open, Request, Db}
use spacecraft_corporation.Supply.Edits.{created, closed_as, without_thread}
use spacecraft_corporation.Supply.History.{Call, run}
use spacecraft_corporation.Supply.Invariant.{request_id, is_request, IsOpenAt, IsInvariant}
use spacecraft_corporation.Supply.Invariant.History.{every_call-AllowedCall, run-keeps}

module _ (k : ℕ) (st : Status) (at : Option ℕ) where
  -- The tables hold request `k` with the status `st`, which is not open, closed at the time `at`.
  pub record EndedAt (rs : List Request) : Type 0 where
    pub keyed : IsKeyed request_id rs
    pub ended : is_open st ≡ false
    pub row :
        (r : Request) × (select? (is_request k) rs ≡ some r) × (r.status ≡ st) × (r.closed_at ≡ at)

  update-EndedAt :
      (rs : List Request) (rid : ℕ) (f : Request → Request)
      → ((x : Request) → (f x).id ≡ x.id)
      → ((x : Request)
          → select? (is_request k) rs ≡ some x
          → is_request rid x ≡ true
          → is_open x.status ≡ false
          → ((f x).status ≡ x.status) × ((f x).closed_at ≡ x.closed_at))
      → EndedAt rs
      → EndedAt (update_where (is_request rid) f rs)
  update-EndedAt rs rid f same kept h =
      let r : Request = h.row.0 in
      let here : select? (is_request k) rs ≡ some r = h.row.1 in
      let is : r.status ≡ st = h.row.2 in
      let over : is_open r.status ≡ false = rw is h.ended in
      let new : Request = if is_request rid r then f r else r in
      let both : (new.status ≡ st) × (new.closed_at ≡ at) = elim (Bool-cases (is_request rid r)) [
        | inl e ↦ ground (arith, kept r here e over, h.row.3)
        | inr e ↦ ground (arith, h.row.3)
      ] in
      record {
        keyed = update-IsKeyed request_id (is_request rid) f rs same h.keyed;
        ended = h.ended;
        row = (
          new,
          ground (arith, select?-update_where request_id (is_request rid) f k rs same, here),
          both.0,
          both.1,
        );
      }

  insert-EndedAt :
      (rs : List Request) (r : Request)
      → select? (is_request r.id) rs ≡ none
      → EndedAt rs
      → EndedAt (r ∷ rs)
  insert-EndedAt rs r fresh h = record {
    keyed = (fresh, h.keyed);
    ended = h.ended;
    row = (h.row.0, kept_row, h.row.2, h.row.3);
  }
    where
      kept_row : select? (is_request k) (r ∷ rs) ≡ some h.row.0
      kept_row = elim (Bool-cases (r.id == k)) [
        | inl e ↦
            let same : r.id ≡ k = ground arith in
            let gone = subst (λ i. select? (is_request i) rs ≡ none) same fresh in
            ground (arith, gone, h.row.1)
        | inr e ↦ ground (arith, h.row.1)
      ]

  -- The row of `rid` is open, so it is not the one that has ended.
  not_ended :
      (rs : List Request) (rid : ℕ)
      → IsOpenAt rid rs
      → (x : Request) → select? (is_request k) rs ≡ some x
      → is_request rid x ≡ true
      → is_open x.status ≡ true
  not_ended rs rid o x here at_rid =
      let same : x.id ≡ k =
        ground (arith, select?_test request_id (is_request k) {r = x} rs here) in
      let both : k ≡ rid = ground arith in
      let found : select? (is_request rid) rs ≡ some x =
        subst (λ i. select? (is_request i) rs ≡ some x) both here in
      ground (arith, o.1, o.2)

  ended-IsInvariant : IsInvariant (λ inp. Unit) (λ rs ts. EndedAt rs)
  unfolding created
  ended-IsInvariant = record {
    keyed = λ rs ts h. h.keyed;
    enqueued = λ rs ts t h. h;
    edited = λ rs ts rid f e h.
        update-EndedAt rs rid f e.same_id (λ x _ _ _. (e.same_status x, e.same_end x)) h;
    reposted = λ rs ts rid now h.
        update-EndedAt rs rid (without_thread now) (λ x. refl) (λ x _ _ _. (refl, refl)) h;
    ended = λ rs ts rid st' now o e h.
        update-EndedAt rs rid (closed_as st' now) (λ x. refl)
          (λ x here is over. absurd (ground (arith, not_ended rs rid o x here is))) h;
    inserted = λ rs ts inp id now a room fresh h. insert-EndedAt rs (created inp id now) fresh h;
  }

  -- Whatever calls come in whatever order, a request that is completed or cancelled stays in the
  -- tables with that status and with that time of closing.
  pub run-EndedAt : (cs : List Call) (db : Db) → EndedAt db.requests → EndedAt (run cs db).requests
  run-EndedAt cs db h = run-keeps ended-IsInvariant cs db (every_call-AllowedCall cs) h
