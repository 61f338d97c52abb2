-- ===== src/Settings/Columns.antt =====
-- A write of one column: what a later read of the server's settings gives.
use mathlib.Core.Option
use spacecraft_corporation.Prelude.{
  ℕ, ◌≡◌, ◌≢◌, refl, ap, ◌∙◌, inl, inr, Option, none, some, List, arith, ◌==◌, Bool-cases,
}
use spacecraft_corporation.Prelude.Rows.{
  select?, update_where, exists, exists-true, exists-false, select?-update,
}
use spacecraft_corporation.Settings.{
  Row, Settings, get, scanned, scanned?, Change, set_column, blank_row, upsert,
}

-- The same change of the settings as they are read.
abbrev pub changed : Change → Settings → Settings
changed (Change.theme v) st = record st { theme = v }
changed (Change.language v) st = record st { language = v }
changed (Change.contracts_forum v) st = record st { contracts_forum = v }
changed (Change.contracts_reports v) st = record st { contracts_reports = v }
changed (Change.supply_forum v) st = record st { supply_forum = v }
changed (Change.reward_factor v) st = record st { reward_factor = v }
changed (Change.supply_limit v) st = record st { supply_limit = some v }
changed (Change.max_items v) st = record st { max_items = some v }
changed (Change.report_csv v) st = record st { report_csv = v }

module _ (now : ℕ) where
  set_column-servers_id : (ch : Change) (r : Row) → (set_column ch now r).servers_id ≡ r.servers_id
  unfolding set_column
  set_column-servers_id (Change.theme v) r = refl
  set_column-servers_id (Change.language v) r = refl
  set_column-servers_id (Change.contracts_forum v) r = refl
  set_column-servers_id (Change.contracts_reports v) r = refl
  set_column-servers_id (Change.supply_forum v) r = refl
  set_column-servers_id (Change.reward_factor v) r = refl
  set_column-servers_id (Change.supply_limit v) r = refl
  set_column-servers_id (Change.max_items v) r = refl
  set_column-servers_id (Change.report_csv v) r = refl

  scanned-set_column :
      (ch : Change) (r : Row) → scanned (set_column ch now r) ≡ changed ch (scanned r)
  unfolding set_column
  scanned-set_column (Change.theme v) r = refl
  scanned-set_column (Change.language v) r = refl
  scanned-set_column (Change.contracts_forum v) r = refl
  scanned-set_column (Change.contracts_reports v) r = refl
  scanned-set_column (Change.supply_forum v) r = refl
  scanned-set_column (Change.reward_factor v) r = refl
  scanned-set_column (Change.supply_limit v) r = refl
  scanned-set_column (Change.max_items v) r = refl
  scanned-set_column (Change.report_csv v) r = refl

  scanned?-update :
      (ch : Change) (o : Option Row) {r : Row}
      → o ≡ some r
      → scanned? (Option.map (set_column ch now) o) ≡ changed ch (scanned? o)
  scanned?-update ch none e = cc
  scanned?-update ch (some r) e = scanned-set_column ch r

  module _ (id server : ℕ) (ch : Change) (db : List Row) where
    -- The column has the new value, and the other settings of the server stay as they were.
    pub get-upsert : get server (upsert id server ch now db) ≡ changed ch (get server db)
    unfolding get upsert
    get-upsert = elim (Bool-cases (exists (λ (r : Row). r.servers_id == server) db)) [
      | inl there ↦
          let row = exists-true (λ (r : Row). r.servers_id == server) db there in
          let here : select? (λ (r : Row). r.servers_id == server)
                (update_where (λ (r : Row). r.servers_id == server) (set_column ch now) db)
              ≡ Option.map (set_column ch now) (select? (λ (r : Row). r.servers_id == server) db) =
            ground (
              arith,
              select?-update (λ (r : Row). r.servers_id) (set_column ch now) server server db
                  (set_column-servers_id ch),
            ) in
          rw there (
            ap scanned? here
            ∙ scanned?-update ch (select? (λ (r : Row). r.servers_id == server) db) row.1)
      | inr absent ↦
          let gone = exists-false (λ (r : Row). r.servers_id == server) db absent in
          rw absent (
            ground (
              arith,
              gone,
              set_column-servers_id ch (blank_row id server now),
              scanned-set_column ch (blank_row id server now),
            ))
    ]

    -- The settings of every other server stay.
    pub get-upsert_other : (j : ℕ) → j ≢ server → get j (upsert id server ch now db) ≡ get j db
    unfolding get upsert
    get-upsert_other j ne = elim (Bool-cases (exists (λ (r : Row). r.servers_id == server) db)) [
      | inl there ↦
          let here : select? (λ (r : Row). r.servers_id == j)
                (update_where (λ (r : Row). r.servers_id == server) (set_column ch now) db)
              ≡ select? (λ (r : Row). r.servers_id == j) db =
            ground (
              arith,
              select?-update (λ (r : Row). r.servers_id) (set_column ch now) server j db
                  (set_column-servers_id ch),
            ) in
          rw there (ap scanned? here)
      | inr absent ↦ rw absent (ground (arith, set_column-servers_id ch (blank_row id server now)))
    ]
