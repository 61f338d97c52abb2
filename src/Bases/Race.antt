-- ===== src/Bases/Race.antt =====
-- Registrations of one owner that overlap. Register counts the committed live bases and inserts
-- its row in one transaction without a lock, so under READ COMMITTED it does not see the rows of
-- other registrations that are still open: each registration is two steps here, the check and the
-- commit. `register-steps` ties the two to `register`: where nothing comes between them, they are
-- what it does.
use spacecraft_corporation.Prelude.{
  ℕ, ◌+◌, ◌<◌, ◌≡◌, Bool, true, [], List, ◌∷◌, ◌++◌, arith, ltb, length, length-append,
}
use spacecraft_corporation.Prelude.Rows.{count_where, update_where}
use spacecraft_corporation.Prelude.Counts.{count_where-update}
use spacecraft_corporation.Prelude.Tx.{Ensures, Ensures-check, tx_rules}
use spacecraft_corporation.Bases
use spacecraft_corporation.Bases.{
  Base, Db, RegisterInput, Ownership, ownership_of, has_room, registered, base_row_ok, live_scope,
  deleted,
}

-- The committed bases, and the rows of the registrations that have passed the check.
pub record Tables : Type 0 where
  pub bases : List Base
  pub open_rows : List Base

module _ (o : Ownership) (limit : ℕ) (most : ℕ) where
  abbrev live : List Base → ℕ
  live = count_where (live_scope o)

  -- At most `most` registrations of the owner are under way at a time.
  infix 40 ◌⟶◌ ◌⟶*◌
  pub data ◌⟶◌ : Tables → Tables → Type 0 where
    start :
        (bs open_bs : List Base) (inp : RegisterInput) (id now : ℕ)
        → ownership_of inp ≡ o
        → has_room inp limit bs ≡ true
        → length open_bs < most
        → (record { bases = bs; open_rows = open_bs })
          ⟶ (record { bases = bs; open_rows = registered inp id now ∷ open_bs })
    commit :
        (bs xs ys : List Base) (b : Base)
        → (record { bases = bs; open_rows = xs ++ (b ∷ ys) })
          ⟶ (record { bases = b ∷ bs; open_rows = xs ++ ys })
    rollback :
        (bs xs ys : List Base) (b : Base)
        → (record { bases = bs; open_rows = xs ++ (b ∷ ys) })
          ⟶ (record { bases = bs; open_rows = xs ++ ys })
    delete :
        (bs open_bs : List Base) (p : Base → Bool) (now : ℕ)
        → (record { bases = bs; open_rows = open_bs })
          ⟶ (record { bases = update_where p (deleted now) bs; open_rows = open_bs })

  pub data ◌⟶*◌ : Tables → Tables → Type 0 where
    here : {s : Tables} → s ⟶* s
    next : {s t u : Tables} → s ⟶ t → t ⟶* u → s ⟶* u

  register-steps :
      (inp : RegisterInput) (id now : ℕ) (db : Db) (open_bs : List Base)
      → ownership_of inp ≡ o
      → length open_bs < most
      → Ensures (Bases.register inp limit id now db) (λ new db'.
        (record { bases = db.bases; open_rows = open_bs })
        ⟶* (record { bases = db'.bases; open_rows = open_bs }))
  unfolding Bases.register
  register-steps inp id now db open_bs own few = Ensures-check _ _ _ db λ room.
      let steps =
        next (start db.bases open_bs inp id now own room few)
          (next (commit db.bases [] open_bs (registered inp id now)) here) in
      search tx_rules depth 8

  -- The live bases and the registrations under way together stay below the limit and the number of
  -- registrations that may be under way.
  abbrev pub Below : Tables → Type 0
  Below s = live s.bases + length s.open_rows < limit + most

  closed : (now : ℕ) (b : Base) → live_scope o (deleted now b) ≡ true → live_scope o b ≡ true
  unfolding live_scope
  closed now b e = ground arith

  step-Below : {s t : Tables} → s ⟶ t → Below s → Below t
  step-Below (start bs open_bs inp id now own room few) h =
      let below : ltb (live bs) limit ≡ true = rw own at room in ground arith
  step-Below (commit bs xs ys b) h = ground (arith, length-append xs (b ∷ ys), length-append xs ys)
  step-Below (rollback bs xs ys b) h = omega (arith, length-append xs (b ∷ ys), length-append xs ys)
  step-Below (delete bs open_bs p now) h =
      omega (arith, count_where-update (live_scope o) p (deleted now) bs (closed now))

  -- However registrations and deletions interleave, the owner's live bases stay below the limit
  -- plus the number of registrations that may be under way at once: with one at a time, the limit
  -- is exact.
  pub reachable-Below : {s t : Tables} → s ⟶* t → Below s → Below t
  reachable-Below here h = h
  reachable-Below (next st rest) h = reachable-Below rest (step-Below st h)
