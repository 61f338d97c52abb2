-- ===== src/Settings.antt =====
-- internal/settings: the settings of a server in the database, their resolution with the defaults
-- of the application, and the cache in front of it. The translator's defaults and tests are
-- parameters.
pub mod Columns
pub mod Store
mod Tests
use spacecraft_corporation.Prelude.{
  ℕ, String, Bool, true, false, not, ◌&&◌, ◌||◌, Option, none, some, List, [], ◌∷◌, ltb, leb, ◌==◌,
  str_eq, if◌then◌else◌,
}
use spacecraft_corporation.Prelude.Rows.{select?, update_where, exists}
use spacecraft_corporation.Cache.{Lru, fetch}

-- A row of `server_settings`; the factor in hundredths of a percent.
pub record Row : Type 0 where
  pub id : ℕ
  pub servers_id : ℕ
  pub theme : Option String
  pub language : Option String
  pub contracts_forum : Option String
  pub contracts_reports : Option String
  pub reward_factor : Option ℕ
  pub supply_forum : Option String
  pub supply_limit : Option ℕ
  pub max_items : Option ℕ
  pub report_csv : Bool
  pub created_at : ℕ
  pub updated_at : ℕ

-- A server's stored choice: "" is unset.
pub record Settings : Type 0 where
  pub theme : String
  pub language : String
  pub contracts_forum : String
  pub contracts_reports : String
  pub reward_factor : ℕ
  pub supply_forum : String
  pub supply_limit : Option ℕ
  pub max_items : Option ℕ
  pub report_csv : Bool

abbrev pub zero_settings : Settings
zero_settings = record {
  theme = "";
  language = "";
  contracts_forum = "";
  contracts_reports = "";
  reward_factor = 0;
  supply_forum = "";
  supply_limit = none;
  max_items = none;
  report_csv = false;
}

-- COALESCE(column, default)
abbrev pub coalesce : {A : Type 0} → Option A → A → A
coalesce none d = d
coalesce (some a) d = a

abbrev pub scanned : Row → Settings
scanned r = record {
  theme = coalesce r.theme "";
  language = coalesce r.language "";
  contracts_forum = coalesce r.contracts_forum "";
  contracts_reports = coalesce r.contracts_reports "";
  reward_factor = coalesce r.reward_factor 0;
  supply_forum = coalesce r.supply_forum "";
  supply_limit = r.supply_limit;
  max_items = r.max_items;
  report_csv = r.report_csv;
}

abbrev pub scanned? : Option Row → Settings
scanned? none = zero_settings
scanned? (some r) = scanned r

-- Get: a server without a row has the zero value.
unfoldable pub get : ℕ → List Row → Settings
get server db = scanned? (select? (λ (r : Row). r.servers_id == server) db)

-- One column with its new value: SetTheme to SetContractsReportCSV.
pub data Change : Type 0 where
  theme language contracts_forum contracts_reports supply_forum : String → Change
  reward_factor supply_limit max_items : ℕ → Change
  report_csv : Bool → Change

unfoldable pub set_column : Change → ℕ → Row → Row
set_column (Change.theme v) now r = record r { theme = some v; updated_at = now }
set_column (Change.language v) now r = record r { language = some v; updated_at = now }
set_column (Change.contracts_forum v) now r = record r {
  contracts_forum = some v;
  updated_at = now;
}
set_column (Change.contracts_reports v) now r = record r {
  contracts_reports = some v;
  updated_at = now;
}
set_column (Change.supply_forum v) now r = record r { supply_forum = some v; updated_at = now }
set_column (Change.reward_factor v) now r = record r { reward_factor = some v; updated_at = now }
set_column (Change.supply_limit v) now r = record r { supply_limit = some v; updated_at = now }
set_column (Change.max_items v) now r = record r { max_items = some v; updated_at = now }
set_column (Change.report_csv v) now r = record r { report_csv = v; updated_at = now }

abbrev pub blank_row : ℕ → ℕ → ℕ → Row
blank_row id server now = record {
  id = id;
  servers_id = server;
  theme = none;
  language = none;
  contracts_forum = none;
  contracts_reports = none;
  reward_factor = none;
  supply_forum = none;
  supply_limit = none;
  max_items = none;
  report_csv = false;
  created_at = now;
  updated_at = now;
}

-- The checks of the columns: a factor of at most 100 percent, and positive 32-bit limits.
abbrev pub column_ok : Change → Bool
column_ok (Change.reward_factor v) = leb v 10000
column_ok (Change.supply_limit v) = ltb 0 v && ltb v 2147483648
column_ok (Change.max_items v) = ltb 0 v && ltb v 2147483648
column_ok _ = true

-- upsert: INSERT … ON CONFLICT (servers_id) DO UPDATE
unfoldable pub upsert : ℕ → ℕ → Change → ℕ → List Row → List Row
unfolding set_column
upsert id server ch now db =
    if exists (λ (r : Row). r.servers_id == server) db
    then update_where (λ (r : Row). r.servers_id == server) (set_column ch now) db
    else set_column ch now (blank_row id server now) ∷ db

-- What the cache holds of a server.
pub record Resolved : Type 0 where
  pub theme : String
  pub lang : String
  pub forum : String
  pub reports : String
  pub factor : ℕ
  pub supply_forum : String
  pub supply_limit : Option ℕ
  pub max_items : Option ℕ
  pub report_csv : Bool

-- The translator: its defaults, and which themes and languages exist.
module _ (default_theme default_lang : String) (has_theme has_language : String → Bool) where
  -- The part of `resolve` behind the query.
  unfoldable pub effective : Settings → Resolved
  effective st = record {
    theme = if str_eq st.theme "" || not (has_theme st.theme) then default_theme else st.theme;
    lang =
        if str_eq st.language "" || not (has_language st.language)
        then default_lang
        else st.language;
    forum = st.contracts_forum;
    reports = st.contracts_reports;
    factor = st.reward_factor;
    supply_forum = st.supply_forum;
    supply_limit = st.supply_limit;
    max_items = st.max_items;
    report_csv = st.report_csv;
  }

  -- What is used while the settings cannot be read.
  unfoldable pub fallback : Resolved
  fallback = record {
    theme = default_theme;
    lang = default_lang;
    forum = "";
    reports = "";
    factor = 0;
    supply_forum = "";
    supply_limit = none;
    max_items = none;
    report_csv = false;
  }

  -- `up` tells whether the database answers.
  unfoldable pub query : Bool → List Row → ℕ → Option Resolved
  unfolding effective get
  query up db server = if up then some (effective (get server db)) else none

  module _ {C : Type 0} (lru : Lru Resolved C) where
    unfoldable pub resolved : Option Resolved × C → (Resolved × Bool) × C
    unfolding fallback
    resolved (none, c) = ((fallback, false), c)
    resolved (some r, c) = ((r, true), c)

    -- resolve: the settings, whether they are the stored ones, and the cache after it.
    unfoldable pub resolve : ℕ → Bool → List Row → C → (Resolved × Bool) × C
    unfolding query fetch resolved
    resolve server up db c = resolved (fetch lru (query up db) server c)

    -- A Set… method of the store; `up` tells whether the database answers.
    unfoldable pub store : ℕ → ℕ → Change → ℕ → Bool → List Row → C → List Row × C
    unfolding upsert
    store id server ch now up db c =
        if up && column_ok ch then (upsert id server ch now db, lru.remove server c) else (db, c)

-- The readers of the features: a channel or a limit, and whether it is set.
unfoldable pub channel : String → String × Bool
channel s = (s, not (str_eq s ""))

unfoldable pub limit : Option ℕ → ℕ × Bool
limit none = (0, false)
limit (some n) = (n, true)
