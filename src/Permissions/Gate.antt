-- ===== src/Permissions/Gate.antt =====
-- The gate through its cache refines the gate on the table: every answer is the one that the rows
-- give at that moment.
use spacecraft_corporation.Prelude.{
  ℕ, String, ◌≡◌, ◌⊎◌, refl, ap, sym, subst, Bool, true, false, inl, inr, Option, none, some, List,
  [], ◌∷◌, map, arith, ◌==◌, if◌then◌else◌,
}
use spacecraft_corporation.Prelude.Order.{order_by}
use spacecraft_corporation.Prelude.Tx.{Result, ok, err}
use spacecraft_corporation.Cache.{
  Lru, IsCoherent, IsQuery, IsRead, IsCoherent-remove, fetch, fetch-IsRead,
}
use spacecraft_corporation.Permissions.{
  Grant, ServerRoles, AccessRequest, mapping, mapping_before, list, build, load, set_roles, decided,
  is_allowed, store_roles,
}
use spacecraft_corporation.Permissions.Decision.{permitted, decide-permitted}
use spacecraft_corporation.Permissions.Writes.{select_all-set_roles}

-- What the bot asks of the store, one call after another; `up` tells whether the database answers.
pub data Event : Type 0 where
  check : AccessRequest → (up : Bool) → Event
  write :
      (server : ℕ) (command : String) (roles : List String) (actor : String) (now : ℕ) (up : Bool)
      → Event

-- The answers of the gate on the table alone, each with whether the database was up.
unfoldable pub permissions : List Event → List Grant → List (Bool × Bool)
permissions [] db = []
permissions (Event.check req up ∷ es) db = (permitted req db, up) ∷ permissions es db
permissions (Event.write server command roles actor now up ∷ es) db =
    permissions es (if up then set_roles server command roles actor now db else db)

-- An answer is the permitted one, or an error while the database is down.
abbrev pub Answers : List (Result Unit Bool) → List (Bool × Bool) → Type 0
Answers [] [] = Unit
Answers (a ∷ rest) ((p, up) ∷ ps) = ((a ≡ ok p) ⊎ ((a ≡ err tt) × (up ≡ false))) × Answers rest ps
Answers _ _ = true ≡ false

module _ (text_before : String → String → Bool) {C : Type 0} (lru : Lru ServerRoles C) where
  -- The answers of the gate through the cache.
  unfoldable pub answers : List Event → List Grant → C → List (Result Unit Bool)
  answers [] db c = []
  answers (Event.check req up ∷ es) db c =
      (is_allowed text_before lru req up db c).0
      ∷ answers es db (is_allowed text_before lru req up db c).1
  answers (Event.write server command roles actor now up ∷ es) db c =
      answers es (store_roles text_before lru server command roles actor now up db c).0
        (store_roles text_before lru server command roles actor now up db c).1

  -- The mapping of a server, as the table has it.
  abbrev pub mapping_of : List Grant → ℕ → ServerRoles
  mapping_of db server = build (list text_before server db) []

  load-IsQuery :
      (up : Bool) (db : List Grant) → IsQuery lru (mapping_of db) (load text_before up db)
  unfolding load
  load-IsQuery up db = record { sound = λ k v e. ground arith }

  write-IsCoherent :
      (server : ℕ) (command : String) (roles : List String) (actor : String) (now : ℕ) (up : Bool)
      → (db : List Grant) (c : C) → IsCoherent lru (mapping_of db) c
      → IsCoherent lru
          (mapping_of (store_roles text_before lru server command roles actor now up db c).0)
          (store_roles text_before lru server command roles actor now up db c).1
  unfolding store_roles list
  write-IsCoherent server command roles actor now false db c h = h
  write-IsCoherent server command roles actor now true db c h =
      IsCoherent-remove lru (mapping_of db) _ server c
        (λ j ne.
          ap
            (λ (gs : List Grant). build (order_by (mapping_before text_before) (map mapping gs)) [])
            (select_all-set_roles server command actor now (λ (g : Grant). g.servers_id == j)
              (λ g e. ground arith) roles db))
        h

  module _ (req : AccessRequest) (up : Bool) (db : List Grant) (c : C)
      (h : IsCoherent lru (mapping_of db) c) where
    abbrev query : ℕ → Option ServerRoles
    query = load text_before up db

    read : Option ServerRoles × C
    read = fetch lru query req.server_id c

    read-IsRead : IsRead lru (mapping_of db) query req.server_id c (load-IsQuery up db) h read
    unfolding read
    read-IsRead =
        fetch-IsRead lru (mapping_of db) (load text_before up db) req.server_id c
          (load-IsQuery up db) h

    decided-answer :
        (r : Option ServerRoles × C)
        → (r.0 ≡ some (mapping_of db req.server_id)) ⊎ ((r.0 ≡ none) × (query req.server_id ≡ none))
        → (((decided text_before lru req r).0 ≡ ok (permitted req db))
            ⊎ (((decided text_before lru req r).0 ≡ err tt) × (up ≡ false)))
          × ((decided text_before lru req r).1 ≡ r.1)
    unfolding decided load
    decided-answer (none, c') (inl e) = cc
    decided-answer (none, c') (inr e) = (inr (refl, ground arith), refl)
    decided-answer (some sr, c') (inl e) =
        let same : sr ≡ mapping_of db req.server_id = cc in
        (inl (ap ok (rw same (decide-permitted text_before req db))), refl)
    decided-answer (some sr, c') (inr e) = cc

    -- One check: its answer, and the cache after it.
    check-answer :
        (((is_allowed text_before lru req up db c).0 ≡ ok (permitted req db))
          ⊎ (((is_allowed text_before lru req up db c).0 ≡ err tt) × (up ≡ false)))
        × IsCoherent lru (mapping_of db) (is_allowed text_before lru req up db c).1
    unfolding is_allowed read
    check-answer =
        let r = read-IsRead in
        let a = decided-answer read r.answer in
        (a.0, subst (IsCoherent lru (mapping_of db)) (sym a.1) r.coherent)

  -- Whatever checks and writes come in whatever order, one after another, with a cache that agrees
  -- with the table at the start: each check is answered as the rows permit at that moment, or with
  -- an error, and this only while the database is down.
  pub answers-permitted :
      (es : List Event) (db : List Grant) (c : C)
      → IsCoherent lru (mapping_of db) c
      → Answers (answers es db c) (permissions es db)
  unfolding answers permissions store_roles
  answers-permitted [] db c h = tt
  answers-permitted (Event.check req up ∷ es) db c h =
      let one = check-answer req up db c h in (one.0, answers-permitted es db _ one.1)
  answers-permitted (Event.write server command roles actor now true ∷ es) db c h =
      answers-permitted es _ _ (write-IsCoherent server command roles actor now true db c h)
  answers-permitted (Event.write server command roles actor now false ∷ es) db c h =
      answers-permitted es db c h
