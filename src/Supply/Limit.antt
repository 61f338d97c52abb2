-- ===== src/Supply/Limit.antt =====
-- The open-request limit of a member, which Create enforces under its advisory lock.
use spacecraft_corporation.Prelude.{
  ℕ, ◌≤◌, String, ◌≡◌, refl, true, ◌&&◌, inl, inr, List, ◌∷◌, arith, ltb, ◌==◌, str_eq, eq_iff,
  Bool-cases, All,
}
use spacecraft_corporation.Prelude.Rows.{IsKeyed, update_where, count_where, update-IsKeyed}
use spacecraft_corporation.Prelude.Counts.{count_where-update}
use spacecraft_corporation.Supply.Model.{Request, Db, CreateInput}
use spacecraft_corporation.Supply.Edits.{open_of, created, closed_as, without_thread}
use spacecraft_corporation.Supply.History.{Call, run}
use spacecraft_corporation.Supply.Invariant.{request_id, is_request, IsEdit, IsInvariant}
use spacecraft_corporation.Supply.Invariant.History.{AllowedCall, run-keeps}

module _ (server : ℕ) (owner : String) (most : ℕ) where
  -- The member has at most `most` open requests on the server.
  pub record IsLimited (rs : List Request) : Type 0 where
    pub keyed : IsKeyed request_id rs
    pub limited : count_where (open_of server owner) rs ≤ most

  -- A Create of that member is called with a limit of at most `most`.
  abbrev pub LimitAtMost : CreateInput → Type 0
  LimitAtMost inp =
      (inp.server_id == server) && str_eq inp.owner_user_id owner ≡ true → inp.open_limit ≤ most

  update-IsLimited :
      (rs : List Request) (rid : ℕ) (f : Request → Request)
      → ((x : Request) → (f x).id ≡ x.id)
      → ((x : Request) → open_of server owner (f x) ≡ true → open_of server owner x ≡ true)
      → IsLimited rs
      → IsLimited (update_where (is_request rid) f rs)
  update-IsLimited rs rid f same closes h = record {
    keyed = update-IsKeyed request_id (is_request rid) f rs same h.keyed;
    limited =
        omega (
          arith,
          count_where-update (open_of server owner) (is_request rid) f rs closes,
          h.limited,
        );
  }

  edit-open_of :
      (f : Request → Request)
      → IsEdit f
      → (x : Request) → open_of server owner (f x) ≡ true
      → open_of server owner x ≡ true
  edit-open_of f e x h =
      let at = e.same_server x in
      let by = e.same_owner x in let is = e.same_status x in rw (at, by, is) at h

  insert-limited :
      (rs : List Request) (inp : CreateInput) (id now : ℕ)
      → LimitAtMost inp
      → ltb (count_where (open_of inp.server_id inp.owner_user_id) rs) inp.open_limit ≡ true
      → count_where (open_of server owner) rs ≤ most
      → count_where (open_of server owner) (created inp id now ∷ rs) ≤ most
  unfolding created
  insert-limited rs inp id now a room h =
      elim (Bool-cases ((inp.server_id == server) && str_eq inp.owner_user_id owner)) [
        | inl e ↦
            let at : inp.server_id ≡ server = ground arith in
            let by : inp.owner_user_id ≡ owner = ground (arith, eq_iff inp.owner_user_id owner) in
            let room' : ltb (count_where (open_of server owner) rs) inp.open_limit ≡ true =
              rw (at, by) at room in
            ground (arith, a e)
        | inr e ↦ ground arith
      ]

  limit-IsInvariant : IsInvariant LimitAtMost (λ rs ts. IsLimited rs)
  unfolding created
  limit-IsInvariant = record {
    keyed = λ rs ts h. h.keyed;
    enqueued = λ rs ts t h. h;
    edited = λ rs ts rid f e h. update-IsLimited rs rid f e.same_id (edit-open_of f e) h;
    reposted =
        λ rs ts rid now h. update-IsLimited rs rid (without_thread now) (λ x. refl) (λ x o. o) h;
    ended = λ rs ts rid st now o e h.
        update-IsLimited rs rid (closed_as st now) (λ x. refl) (λ x o. ground arith) h;
    inserted = λ rs ts inp id now a room fresh h. record {
      keyed = (fresh, h.keyed);
      limited = insert-limited rs inp id now a room h.limited;
    };
  }

  -- Whatever calls come in whatever order, a member who has at most `most` open requests never has
  -- more, when the limit of every Create of that member is at most `most`.
  pub run-IsLimited :
      (cs : List Call) (db : Db)
      → All (AllowedCall LimitAtMost) cs
      → IsLimited db.requests
      → IsLimited (run cs db).requests
  run-IsLimited cs db a h = run-keeps limit-IsInvariant cs db a h
