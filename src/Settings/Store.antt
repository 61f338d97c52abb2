-- ===== src/Settings/Store.antt =====
-- The cached store refines the table: every reading is the one that the row gives at that moment.
use spacecraft_corporation.Prelude.{
  ℕ, String, ◌≡◌, ◌⊎◌, refl, ap, sym, subst, Bool, true, false, ◌&&◌, inl, inr, Option, none, some,
  List, [], ◌∷◌, arith, if◌then◌else◌, Bool-cases,
}
use spacecraft_corporation.Cache.{Lru, IsCoherent, IsQuery, IsCoherent-remove, fetch, fetch-IsRead}
use spacecraft_corporation.Settings.{
  Row, Resolved, Change, column_ok, get, upsert, effective, fallback, query, resolved, resolve,
  store,
}
use spacecraft_corporation.Settings.Columns.{get-upsert_other}

-- What the bot asks of the store, one call after another; `up` tells whether the database answers.
pub data Event : Type 0 where
  read : (server : ℕ) (up : Bool) → Event
  write : (id server : ℕ) → Change → (now : ℕ) (up : Bool) → Event

module _ (default_theme default_lang : String) (has_theme has_language : String → Bool) where
  -- The effective settings of a server, as the table has them.
  abbrev pub effective_of : List Row → ℕ → Resolved
  effective_of db server =
      effective default_theme default_lang has_theme has_language (get server db)

  -- The readings of the table alone, each with whether the database was up.
  unfoldable pub stored : List Event → List Row → List (Resolved × Bool)
  stored [] db = []
  stored (Event.read server up ∷ es) db = (effective_of db server, up) ∷ stored es db
  stored (Event.write id server ch now up ∷ es) db =
      stored es (if up && column_ok ch then upsert id server ch now db else db)

  -- A reading is the stored one, or the fallback while the database is down.
  abbrev pub Readings : List (Resolved × Bool) → List (Resolved × Bool) → Type 0
  Readings [] [] = Unit
  Readings (a ∷ rest) ((r, up) ∷ rs) =
      ((a ≡ (r, true))
        ⊎ ((a ≡ (fallback default_theme default_lang has_theme has_language, false))
            × (up ≡ false)))
      × Readings rest rs
  Readings _ _ = true ≡ false

  module _ {C : Type 0} (lru : Lru Resolved C) where
    abbrev reading : ℕ → Bool → List Row → C → (Resolved × Bool) × C
    reading = resolve default_theme default_lang has_theme has_language lru

    abbrev written : ℕ → ℕ → Change → ℕ → Bool → List Row → C → List Row × C
    written = store default_theme default_lang has_theme has_language lru

    -- The readings through the cache.
    unfoldable pub readings : List Event → List Row → C → List (Resolved × Bool)
    readings [] db c = []
    readings (Event.read server up ∷ es) db c =
        (reading server up db c).0 ∷ readings es db (reading server up db c).1
    readings (Event.write id server ch now up ∷ es) db c =
        readings es (written id server ch now up db c).0 (written id server ch now up db c).1

    abbrev asked : Bool → List Row → ℕ → Option Resolved
    asked = query default_theme default_lang has_theme has_language

    asked-IsQuery : (up : Bool) (db : List Row) → IsQuery lru (effective_of db) (asked up db)
    unfolding query
    asked-IsQuery up db = record { sound = λ k v e. ground arith }

    write-IsCoherent :
        (id server : ℕ) (ch : Change) (now : ℕ) (db : List Row) (c : C)
        → IsCoherent lru (effective_of db) c
        → IsCoherent lru (effective_of (upsert id server ch now db)) (lru.remove server c)
    write-IsCoherent id server ch now db c h =
        IsCoherent-remove lru (effective_of db) _ server c
          (λ j ne.
            ap (effective default_theme default_lang has_theme has_language)
              (get-upsert_other now id server ch db j ne))
          h

    module _ (server : ℕ) (up : Bool) (db : List Row) (c : C)
        (h : IsCoherent lru (effective_of db) c) where
      resolved-answer :
          (r : Option Resolved × C)
          → (r.0 ≡ some (effective_of db server)) ⊎ ((r.0 ≡ none) × (asked up db server ≡ none))
          → (((resolved default_theme default_lang has_theme has_language lru r).0
                ≡ (effective_of db server, true))
              ⊎ (((resolved default_theme default_lang has_theme has_language lru r).0
                    ≡ (fallback default_theme default_lang has_theme has_language, false))
                  × (up ≡ false)))
            × ((resolved default_theme default_lang has_theme has_language lru r).1 ≡ r.1)
      unfolding resolved query
      resolved-answer (none, c') (inl e) = cc
      resolved-answer (none, c') (inr e) = (inr (refl, ground arith), refl)
      resolved-answer (some v, c') (inl e) =
          let same : v ≡ effective_of db server = cc in
          (inl (ap (λ (x : Resolved). (x, true)) same), refl)
      resolved-answer (some v, c') (inr e) = cc

      reading-answer :
          (((reading server up db c).0 ≡ (effective_of db server, true))
            ⊎ (((reading server up db c).0
                  ≡ (fallback default_theme default_lang has_theme has_language, false))
                × (up ≡ false)))
          × IsCoherent lru (effective_of db) (reading server up db c).1
      unfolding resolve
      reading-answer =
          let r =
            fetch-IsRead lru (effective_of db) (asked up db) server c (asked-IsQuery up db) h in
          let a = resolved-answer (fetch lru (asked up db) server c) r.answer in
          (a.0, subst (IsCoherent lru (effective_of db)) (sym a.1) r.coherent)

    -- Whatever reads and writes come in whatever order, one after another, with a cache that agrees
    -- with the table at the start: each read gives the effective settings of that moment, or the
    -- defaults of the application, and these only while the database is down.
    pub readings-stored :
        (es : List Event) (db : List Row) (c : C)
        → IsCoherent lru (effective_of db) c
        → Readings (readings es db c) (stored es db)
    unfolding readings stored store
    readings-stored [] db c h = tt
    readings-stored (Event.read server up ∷ es) db c h =
        let one = reading-answer server up db c h in (one.0, readings-stored es db _ one.1)
    readings-stored (Event.write id server ch now up ∷ es) db c h =
        let at = readings-stored es in
        elim (Bool-cases (up && column_ok ch)) [
          | inl e ↦ rw e (readings-stored es _ _ (write-IsCoherent id server ch now db c h))
          | inr e ↦ rw e (readings-stored es db c h)
        ]
