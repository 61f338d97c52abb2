-- ===== src/Bases/Scope.antt =====
-- The ownership boundary of the bases: a call in a scope does not touch what lies outside.
use spacecraft_corporation.Prelude.{
  ℕ, String, ◌≡◌, ◌≢◌, refl, ap, All, eq_iff, Bool, true, false, ◌&&◌, inl, inr, Option, none, some,
  List, [], ◌∷◌, arith, ◌==◌, Bool-cases,
}
use spacecraft_corporation.Prelude.Rows.{select_all, update_where, delete_where, exists}
use spacecraft_corporation.Prelude.Tx.{Ensures-check, tx_rules, commit-keeps}
use spacecraft_corporation.Bases
use spacecraft_corporation.Bases.{
  Kind, same_kind, owned_by, Base, Equipment, Db, Ownership, Table, live_scope, deleted, on_base,
  rows_of, with_rows, equipment, removable, owns_base,
}
use spacecraft_corporation.Bases.History.{Call, apply}

module _ {A : Type 0} (p q : A → Bool) where
  update-foreign :
      (f : A → A) (xs : List A)
      → ((x : A) → q (f x) ≡ q x)
      → exists (λ x. p x && q x) xs ≡ false
      → select_all q (update_where p f xs) ≡ select_all q xs
  update-foreign f [] same e = refl
  update-foreign f (x ∷ xs) same e = ground (arith, update-foreign f xs same, same x)

  delete-foreign :
      (xs : List A)
      → ((x : A) → q x ≡ true → p x ≡ false)
      → select_all q (delete_where p xs) ≡ select_all q xs
  delete-foreign [] other = refl
  delete-foreign (x ∷ xs) other = ground (arith, delete-foreign xs other, other x)

  exists-weaken :
      (xs : List A)
      → ((x : A) → p x ≡ true → q x ≡ true)
      → exists q xs ≡ false
      → exists p xs ≡ false
  exists-weaken [] h e = refl
  exists-weaken (x ∷ xs) h e = ground (arith, exists-weaken xs h, h x)

-- The scope in which a call acts: every call but a registration.
abbrev pub scope_of : Call → Option Ownership
scope_of (Call.register _ _ _ _) = none
scope_of (Call.delete_one o _ _) = some o
scope_of (Call.delete_all o _) = some o
scope_of (Call.add _ o _ _ _ _ _) = some o
scope_of (Call.remove _ o _) = some o

-- A base that the owner `o` may not touch: another server's, a deleted one, one of the other kind,
-- or another member's.
pub data IsForeign (o : Ownership) (b : Base) : Type 0 where
  other_server : b.servers_id ≢ o.server_id → IsForeign o b
  is_deleted : (at : ℕ) → b.deleted_at ≡ some at → IsForeign o b
  other_kind : b.kind ≢ o.kind → IsForeign o b
  other_member : o.kind ≡ Kind.member → b.owner_user_id ≢ some o.owner_user_id → IsForeign o b

same_kind-eq : (a b : Kind) → same_kind a b ≡ true → a ≡ b
same_kind-eq Kind.member Kind.member e = refl
same_kind-eq Kind.corp Kind.corp e = refl
same_kind-eq Kind.member Kind.corp e = cc
same_kind-eq Kind.corp Kind.member e = cc

owned_by-eq : (u : Option String) (v : String) → owned_by u v ≡ true → u ≡ some v
owned_by-eq none v e = cc
owned_by-eq (some u) v e = ap some (ground (arith, e, eq_iff u v))

IsForeign-outside : (o : Ownership) (b : Base) → IsForeign o b → live_scope o b ≡ false
unfolding live_scope
IsForeign-outside o b (IsForeign.other_server ne) = ground (arith, ne)
IsForeign-outside o b (IsForeign.is_deleted at e) = rw e (ground arith)
IsForeign-outside o b (IsForeign.other_kind ne) = elim (Bool-cases (same_kind b.kind o.kind)) [
  | inl e ↦ absurd (ne (same_kind-eq b.kind o.kind e))
  | inr e ↦ ground (arith, e)
]
IsForeign-outside o b (IsForeign.other_member m ne) =
    elim (Bool-cases (owned_by b.owner_user_id o.owner_user_id)) [
      | inl e ↦ absurd (ne (owned_by-eq b.owner_user_id o.owner_user_id e))
      | inr e ↦ rw (m, e) (ground arith)
    ]

module _ (k : ℕ) where
  abbrev is_base : Base → Bool
  is_base b = b.id == k

  -- Base `k` and all of its equipment are the same in both states.
  pub record Untouched (db db' : Db) : Type 0 where
    pub base : select_all is_base db'.bases ≡ select_all is_base db.bases
    pub extractors : select_all (on_base k) db'.extractors ≡ select_all (on_base k) db.extractors
    pub productions : select_all (on_base k) db'.productions ≡ select_all (on_base k) db.productions

  Untouched-refl : (db : Db) → Untouched db db
  Untouched-refl db = record { base = refl; extractors = refl; productions = refl }

  bases-Untouched :
      (bases : List Base) (db : Db)
      → select_all is_base bases ≡ select_all is_base db.bases
      → Untouched db (record db { bases = bases })
  bases-Untouched bases db e = record { base = e; extractors = refl; productions = refl }

  rows-Untouched :
      (t : Table) (rows : List Equipment) (db : Db)
      → select_all (on_base k) rows ≡ select_all (on_base k) (rows_of t db)
      → Untouched db (with_rows t rows db)
  rows-Untouched Table.base_extractors rows db e = record {
    base = refl;
    extractors = e;
    productions = refl;
  }
  rows-Untouched Table.base_productions rows db e = record {
    base = refl;
    extractors = refl;
    productions = e;
  }

  module _ (o : Ownership) (db : Db)
      (outside : exists (λ (b : Base). live_scope o b && is_base b) db.bases ≡ false) where
    delete_one-Untouched :
        (base now : ℕ)
        → Untouched db (record db {
          bases =
              update_where (λ (b : Base). live_scope o b && (b.id == base)) (deleted now) db.bases;
        })
    delete_one-Untouched base now = bases-Untouched _ db (
        update-foreign (λ (b : Base). live_scope o b && (b.id == base)) is_base (deleted now)
          db.bases (λ b. refl)
          (exists-weaken _ (λ (b : Base). live_scope o b && is_base b) db.bases
            (λ b e. ground arith) outside))

    delete_all-Untouched :
        (now : ℕ)
        → Untouched db (record db { bases = update_where (live_scope o) (deleted now) db.bases })
    delete_all-Untouched now =
        bases-Untouched _ db
          (update-foreign (live_scope o) is_base (deleted now) db.bases (λ b. refl) outside)

    add-Untouched :
        (t : Table) (id base : ℕ) (value : String) (now : ℕ)
        → owns_base o base db ≡ true
        → Untouched db (with_rows t (equipment id base value now ∷ rows_of t db) db)
    unfolding owns_base
    add-Untouched t id base value now owns = rows-Untouched t _ db (elim (Bool-cases (base == k)) [
      | inl e ↦ let at : base ≡ k = ground arith in absurd (ground arith)
      | inr e ↦ ground arith
    ])

    not_removable :
        (id : ℕ) (e : Equipment) → on_base k e ≡ true → removable o id db.bases e ≡ false
    not_removable id e on =
        let at : e.bases_id ≡ k = ground arith in
        let none_there =
          exists-weaken (λ (b : Base). (e.bases_id == b.id) && live_scope o b)
            (λ (b : Base). live_scope o b && is_base b) db.bases (λ b t. ground arith) outside in
        ground arith

    remove-Untouched :
        (t : Table) (id : ℕ)
        → Untouched db (with_rows t (delete_where (removable o id db.bases) (rows_of t db)) db)
    remove-Untouched t id =
        rows-Untouched t _ db
          (delete-foreign (removable o id db.bases) (on_base k) (rows_of t db) (not_removable id))

  outside_of :
      (s o : Ownership) (db : Db)
      → some s ≡ some o
      → exists (λ (b : Base). live_scope o b && is_base b) db.bases ≡ false
      → exists (λ (b : Base). live_scope s b && is_base b) db.bases ≡ false
  outside_of s o db e outside = let same : s ≡ o = cc in rw same outside

  all_foreign :
      (o : Ownership) (bases : List Base)
      → All (λ b. b.id ≡ k → IsForeign o b) bases
      → exists (λ (b : Base). live_scope o b && is_base b) bases ≡ false
  all_foreign o [] h = refl
  all_foreign o (b ∷ bases) h = elim (Bool-cases (is_base b)) [
    | inl e ↦
        let out = IsForeign-outside o b (h.0 (ground (arith, e))) in
        ground (arith, out, e, all_foreign o bases h.1)
    | inr e ↦ ground (arith, e, all_foreign o bases h.1)
  ]

  scoped-Untouched :
      (c : Call) (o : Ownership) (db : Db)
      → scope_of c ≡ some o
      → exists (λ (b : Base). live_scope o b && is_base b) db.bases ≡ false
      → Untouched db (apply c db)
  unfolding apply Bases.delete_one Bases.delete_all Bases.add_equipment Bases.remove_equipment
  scoped-Untouched (Call.register inp limit id now) o db e outside = cc
  scoped-Untouched (Call.delete_one s base now) o db e outside =
      let at = outside_of s o db e outside in
      let h' = delete_one-Untouched s db at base now in
      commit-keeps (Untouched db) _ db (search tx_rules depth 8) (Untouched-refl db)
  scoped-Untouched (Call.delete_all s now) o db e outside =
      let at = outside_of s o db e outside in
      let h' = delete_all-Untouched s db at now in
      commit-keeps (Untouched db) _ db (search tx_rules depth 8) (Untouched-refl db)
  scoped-Untouched (Call.add t s base value limit id now) o db e outside =
      let at = outside_of s o db e outside in
      commit-keeps (Untouched db) _ db
        (Ensures-check _ _ _ db λ owns.
          let h' = add-Untouched s db at t id base value now owns in search tx_rules depth 8)
        (Untouched-refl db)
  scoped-Untouched (Call.remove t s id) o db e outside =
      let at = outside_of s o db e outside in
      let h' = remove-Untouched s db at t id in
      commit-keeps (Untouched db) _ db (search tx_rules depth 8) (Untouched-refl db)

  -- A call on behalf of an owner leaves the row of base `k` and all of its equipment as they were,
  -- when base `k` is not that owner's to touch: another server's, a deleted one, one of the other
  -- kind, or, for a member, another member's.
  pub apply-Untouched :
      (c : Call) (o : Ownership) (db : Db)
      → scope_of c ≡ some o
      → All (λ b. b.id ≡ k → IsForeign o b) db.bases
      → Untouched db (apply c db)
  apply-Untouched c o db e foreign = scoped-Untouched c o db e (all_foreign o db.bases foreign)
