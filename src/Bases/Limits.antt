-- ===== src/Bases/Limits.antt =====
-- The limits of an owner's live bases and of the equipment on a base.
use spacecraft_corporation.Prelude.{
  ℕ, ◌≤◌, String, ◌≡◌, ◌⊎◌, refl, sym, subst, Bool, true, false, ◌&&◌, inl, inr, List, [], ◌∷◌,
  arith, ltb, ◌==◌, eq_iff, Bool-cases, All,
}
use spacecraft_corporation.Prelude.Rows.{update_where, delete_where, count_where}
use spacecraft_corporation.Prelude.Counts.{
  count_where-update, count_where-delete_le, count_where-ext,
}
use spacecraft_corporation.Prelude.Tx.{
  Ensures, Ensures-check, Ensures-write_last, tx_rules, commit-keeps,
}
use spacecraft_corporation.Bases
use spacecraft_corporation.Bases.{
  Kind, Error, Base, Equipment, Db, Ownership, RegisterInput, Table, live_scope, registered,
  ownership_of, deleted, on_base, rows_of, with_rows, equipment, removable,
}
use spacecraft_corporation.Bases.History.{Call, apply, run}

kind_eq : (k l : Kind) → Bases.same_kind k l ≡ true → k ≡ l
kind_eq Kind.member Kind.member e = refl
kind_eq Kind.corp Kind.corp e = refl
kind_eq Kind.member Kind.corp e = cc
kind_eq Kind.corp Kind.member e = cc

kind-cases : (k : Kind) → (k ≡ Kind.member) ⊎ (k ≡ Kind.corp)
kind-cases Kind.member = inl refl
kind-cases Kind.corp = inr refl

-- A new base counts in a scope only if it is registered in that scope.
same_scope :
    (o : Ownership) (inp : RegisterInput) (id now : ℕ)
    → live_scope o (registered inp id now) ≡ true
    → (b : Base) → live_scope (ownership_of inp) b ≡ live_scope o b
unfolding live_scope registered
same_scope o inp id now e b =
    let at : inp.server_id ≡ o.server_id = ground arith in
    let kind : inp.kind ≡ o.kind = kind_eq inp.kind o.kind (ground arith) in
    elim (kind-cases o.kind) [
      | inl member ↦
          let is : inp.kind ≡ Kind.member = rw kind member in
          let owner : inp.owner_user_id ≡ o.owner_user_id =
            ground (arith, eq_iff inp.owner_user_id o.owner_user_id) in
          rw (at, kind, owner) refl
      | inr corp ↦ let is : inp.kind ≡ Kind.corp = rw kind corp in rw (at, is, corp) (ground arith)
    ]

closed_scope :
    (o : Ownership) (now : ℕ) (b : Base)
    → live_scope o (deleted now b) ≡ true
    → live_scope o b ≡ true
unfolding live_scope
closed_scope o now b e = ground arith

module _ (o : Ownership) (most : ℕ) where
  -- The scope has at most `most` live bases.
  abbrev pub FewBases : Db → Type 0
  FewBases db = count_where (live_scope o) db.bases ≤ most

  -- A registration in the scope is called with a limit of at most `most`.
  abbrev pub LimitAtMost : Call → Type 0
  LimitAtMost (Call.register inp limit id now) =
      live_scope o (registered inp id now) ≡ true → limit ≤ most
  LimitAtMost _ = Unit

  register-FewBases :
      (inp : RegisterInput) (limit id now : ℕ)
      → LimitAtMost (Call.register inp limit id now)
      → (db : Db) → FewBases db
      → Ensures (Bases.register inp limit id now db) (λ _ db'. FewBases db')
  unfolding Bases.register
  register-FewBases inp limit id now a db h = Ensures-check _ _ _ db λ room.
      Ensures-check _ _ _ db λ _.
        let h' : count_where (live_scope o) (registered inp id now ∷ db.bases) ≤ most =
          elim (Bool-cases (live_scope o (registered inp id now))) [
            | inl e ↦
                let same =
                  count_where-ext (live_scope (ownership_of inp)) (live_scope o) db.bases
                    (same_scope o inp id now e) in
                ground (arith, a e)
            | inr e ↦ ground arith
          ] in
        search tx_rules depth 8

  update-FewBases :
      (p : Base → Bool) (now : ℕ) (db : Db)
      → FewBases db
      → FewBases (record db { bases = update_where p (deleted now) db.bases })
  update-FewBases p now db h =
      omega (arith, count_where-update (live_scope o) p (deleted now) db.bases (closed_scope o now))

  equipment-FewBases :
      (t : Table) (rows : List Equipment) (db : Db) → FewBases db → FewBases (with_rows t rows db)
  equipment-FewBases Table.base_extractors rows db h = h
  equipment-FewBases Table.base_productions rows db h = h

  apply-FewBases : (c : Call) (db : Db) → LimitAtMost c → FewBases db → FewBases (apply c db)
  unfolding apply Bases.delete_one Bases.delete_all Bases.add_equipment Bases.remove_equipment
  apply-FewBases (Call.register inp limit id now) db a h =
      commit-keeps FewBases _ db (register-FewBases inp limit id now a db h) h
  apply-FewBases (Call.delete_one s base now) db a h =
      let h' = update-FewBases (λ (b : Base). live_scope s b && (b.id == base)) now db h in
      commit-keeps FewBases _ db (search tx_rules depth 8) h
  apply-FewBases (Call.delete_all s now) db a h =
      let h' = update-FewBases (live_scope s) now db h in
      commit-keeps FewBases _ db (search tx_rules depth 8) h
  apply-FewBases (Call.add t s base value limit id now) db a h =
      let h' = equipment-FewBases t (equipment id base value now ∷ rows_of t db) db h in
      commit-keeps FewBases _ db (search tx_rules depth 8) h
  apply-FewBases (Call.remove t s id) db a h =
      let h' = equipment-FewBases t (delete_where (removable s id db.bases) (rows_of t db)) db h in
      commit-keeps FewBases _ db (search tx_rules depth 8) h

  -- Where registrations come one after another, an owner who has at most `most` live bases never
  -- has more, when every registration of that owner is called with a limit of at most `most`.
  pub run-FewBases :
      (cs : List Call) (db : Db) → All LimitAtMost cs → FewBases db → FewBases (run cs db)
  unfolding run
  run-FewBases [] db a h = h
  run-FewBases (c ∷ cs) db a h = run-FewBases cs (apply c db) a.1 (apply-FewBases c db a.0 h)

abbrev same_table : Table → Table → Bool
same_table Table.base_extractors Table.base_extractors = true
same_table Table.base_productions Table.base_productions = true
same_table _ _ = false

module _ (t : Table) (base : ℕ) (most : ℕ) where
  -- The base has at most `most` pieces of equipment of the kind.
  abbrev pub FewEquipment : Db → Type 0
  FewEquipment db = count_where (on_base base) (rows_of t db) ≤ most

  -- An addition of the kind to the base is called with a limit of at most `most`.
  abbrev pub AddAtMost : Call → Type 0
  AddAtMost (Call.add u o b value limit id now) =
      same_table u t && (b == base) ≡ true → limit ≤ most
  AddAtMost _ = Unit

  with_rows-FewEquipment :
      (u : Table) (rows : List Equipment) (db : Db)
      → (same_table u t ≡ true → count_where (on_base base) rows ≤ most)
      → FewEquipment db
      → FewEquipment (with_rows u rows db)
  with_rows-FewEquipment u rows db few h = by_tables u t few h
    where
      by_tables :
          (u t : Table)
          → (same_table u t ≡ true → count_where (on_base base) rows ≤ most)
          → count_where (on_base base) (rows_of t db) ≤ most
          → count_where (on_base base) (rows_of t (with_rows u rows db)) ≤ most
      by_tables Table.base_extractors Table.base_extractors few h = few refl
      by_tables Table.base_productions Table.base_productions few h = few refl
      by_tables Table.base_extractors Table.base_productions few h = h
      by_tables Table.base_productions Table.base_extractors few h = h

  same_rows : (u : Table) (db : Db) → same_table u t ≡ true → rows_of u db ≡ rows_of t db
  same_rows u db e = by_tables u t e
    where
      by_tables : (u t : Table) → same_table u t ≡ true → rows_of u db ≡ rows_of t db
      by_tables Table.base_extractors Table.base_extractors e = refl
      by_tables Table.base_productions Table.base_productions e = refl
      by_tables Table.base_extractors Table.base_productions e = cc
      by_tables Table.base_productions Table.base_extractors e = cc

  add-FewEquipment :
      (u : Table) (o : Ownership) (b : ℕ) (value : String) (limit id now : ℕ)
      → AddAtMost (Call.add u o b value limit id now)
      → (db : Db) → FewEquipment db
      → Ensures (Bases.add_equipment u o b value limit id now db) (λ _ db'. FewEquipment db')
  unfolding Bases.add_equipment
  add-FewEquipment u o b value limit id now a db h = Ensures-check _ _ _ db λ _.
      Ensures-check _ _ _ db λ room. Ensures-check _ _ _ db λ _. Ensures-write_last _ db (
        with_rows-FewEquipment u (equipment id b value now ∷ rows_of u db) db
          (λ same.
            let rows = same_rows u db same in
            elim (Bool-cases (b == base)) [
              | inl e ↦
                  let at : b ≡ base = ground arith in
                  let room' : ltb (count_where (on_base base) (rows_of t db)) limit ≡ true =
                    rw (at, rows) at room in
                  let le = a (ground arith) in rw rows (ground arith)
              | inr e ↦ rw rows (ground arith)
            ])
          h)

  bases-FewEquipment :
      (bases : List Base) (db : Db) → FewEquipment db → FewEquipment (record db { bases = bases })
  bases-FewEquipment bases db h = by_table t h
    where
      by_table :
          (t : Table)
          → count_where (on_base base) (rows_of t db) ≤ most
          → count_where (on_base base) (rows_of t (record db { bases = bases })) ≤ most
      by_table Table.base_extractors h = h
      by_table Table.base_productions h = h

  apply-FewEquipment :
      (c : Call) (db : Db) → AddAtMost c → FewEquipment db → FewEquipment (apply c db)
  unfolding apply Bases.register Bases.delete_one Bases.delete_all Bases.remove_equipment
  apply-FewEquipment (Call.register inp limit id now) db a h =
      let h' = bases-FewEquipment (registered inp id now ∷ db.bases) db h in
      commit-keeps FewEquipment _ db (search tx_rules depth 8) h
  apply-FewEquipment (Call.delete_one s b now) db a h =
      let h' =
        bases-FewEquipment
          (update_where (λ (x : Base). live_scope s x && (x.id == b)) (deleted now) db.bases) db
          h in
      commit-keeps FewEquipment _ db (search tx_rules depth 8) h
  apply-FewEquipment (Call.delete_all s now) db a h =
      let h' = bases-FewEquipment (update_where (live_scope s) (deleted now) db.bases) db h in
      commit-keeps FewEquipment _ db (search tx_rules depth 8) h
  apply-FewEquipment (Call.add u s b value limit id now) db a h =
      commit-keeps FewEquipment _ db (add-FewEquipment u s b value limit id now a db h) h
  apply-FewEquipment (Call.remove u s id) db a h =
      let h' =
        with_rows-FewEquipment u (delete_where (removable s id db.bases) (rows_of u db)) db
          (λ same.
            let less =
              count_where-delete_le (on_base base) (removable s id db.bases) (rows_of u db) in
            let few =
              subst (λ rows. count_where (on_base base) rows ≤ most) (sym (same_rows u db same))
                h in
            omega (arith, less, few))
          h in
      commit-keeps FewEquipment _ db (search tx_rules depth 8) h

  -- Whatever calls come in whatever order, a base with at most `most` pieces of equipment of a kind
  -- never has more, when every addition of that kind to it is called with a limit of at most
  -- `most`.
  pub run-FewEquipment :
      (cs : List Call) (db : Db) → All AddAtMost cs → FewEquipment db → FewEquipment (run cs db)
  unfolding run
  run-FewEquipment [] db a h = h
  run-FewEquipment (c ∷ cs) db a h =
      run-FewEquipment cs (apply c db) a.1 (apply-FewEquipment c db a.0 h)
