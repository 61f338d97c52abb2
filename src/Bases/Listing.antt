-- ===== src/Bases/Listing.antt =====
-- The listings of internal/features/bases/postgres.go: List with its filter, attachEquipment, and
-- the lists of an owner. `text_before` is the order of PostgreSQL on names, and `matches v t` is
-- `t ILIKE '%' || v || '%'`.
use spacecraft_corporation.Prelude.{
  ℕ, String, Bool, ◌&&◌, ◌||◌, Option, none, some, List, [], ◌∷◌, ◌++◌, map, ltb, ◌==◌, str_eq,
  if◌then◌else◌, take,
}
use spacecraft_corporation.Prelude.Rows.{select_all, update_where, count_where, exists}
use spacecraft_corporation.Prelude.Order.{order_by, page}
use spacecraft_corporation.Bases.{
  Kind, Base, Equipment, Db, Ownership, owned_by, is_live, live_scope,
}

-- Extractor and Production: the value is the resource or the item.
pub record Piece : Type 0 where
  pub id : ℕ
  pub value : String

-- A base as the listing shows it, with its equipment.
pub record Listed : Type 0 where
  pub id : ℕ
  pub kind : Kind
  pub owner_user_id : String
  pub name : String
  pub sector_name : String
  pub system_code : String
  pub planet_number : ℕ
  pub extractors : List Piece
  pub productions : List Piece

pub record Filter : Type 0 where
  pub sector_name : String
  pub system_code : String
  pub base_name : String
  pub resource : String
  pub item : String
  pub owner_user_id : String

abbrev pub piece : Equipment → Piece
piece e = record { id = e.id; value = e.value }

abbrev pub owner_text : Option String → String
owner_text none = ""
owner_text (some u) = u

-- A scanned row, before its equipment is attached.
abbrev pub scanned : Base → Listed
scanned b = record {
  id = b.id;
  kind = b.kind;
  owner_user_id = owner_text b.owner_user_id;
  name = b.name;
  sector_name = b.sector_name;
  system_code = b.system_code;
  planet_number = b.planet_number;
  extractors = [];
  productions = [];
}

abbrev pub with_extractor : Equipment → Listed → Listed
with_extractor e l = record l { extractors = l.extractors ++ (piece e ∷ []) }

abbrev pub with_production : Equipment → Listed → Listed
with_production e l = record l { productions = l.productions ++ (piece e ∷ []) }

-- A loop over equipment rows: each goes to the base that `byID` finds.
unfoldable pub attach : (Equipment → Listed → Listed) → List Equipment → List Listed → List Listed
attach add [] ls = ls
attach add (e ∷ es) ls =
    attach add es (update_where (λ (l : Listed). l.id == e.bases_id) (add e) ls)

abbrev equipment_before : Equipment → Equipment → Bool
equipment_before a b =
    ltb a.created_at b.created_at || ((a.created_at == b.created_at) && ltb a.id b.id)

-- SELECT … WHERE bases_id = ANY(ids) ORDER BY created_at, id
unfoldable pub fetched : List ℕ → List Equipment → List Equipment
fetched ids rows =
    order_by equipment_before
      (select_all (λ (e : Equipment). exists (λ i. i == e.bases_id) ids) rows)

unfoldable pub attach_equipment : Db → List ℕ → List Listed → List Listed
unfolding attach fetched
attach_equipment db ids ls =
    attach with_production (fetched ids db.productions)
      (attach with_extractor (fetched ids db.extractors) ls)

-- ListExtractors and ListProductions, on the table of the equipment.
unfoldable pub list_equipment : Ownership → ℕ → List Equipment → Db → List Piece
unfolding live_scope
list_equipment o base rows db = map piece (
    order_by equipment_before (
      select_all
        (λ (e : Equipment).
          (e.bases_id == base)
          && exists (λ (b : Base). (b.id == e.bases_id) && live_scope o b) db.bases)
        rows))

-- A condition that an empty filter field leaves out.
abbrev pub unless_empty : String → Bool → Bool
unless_empty v c = str_eq v "" || c

module _ (matches : String → String → Bool) where
  abbrev pub equipped : String → ℕ → List Equipment → Bool
  equipped v base rows = exists (λ (e : Equipment). (base == e.bases_id) && matches v e.value) rows

  -- The WHERE clause of List.
  unfoldable pub passes : ℕ → Filter → Db → Base → Bool
  passes server f db b =
      (b.servers_id == server)
      && is_live b
      && unless_empty f.sector_name (matches f.sector_name b.sector_name)
      && unless_empty f.system_code (matches f.system_code b.system_code)
      && unless_empty f.base_name (matches f.base_name b.name)
      && unless_empty f.owner_user_id (owned_by b.owner_user_id f.owner_user_id)
      && unless_empty f.resource (equipped f.resource b.id db.extractors)
      && unless_empty f.item (equipped f.item b.id db.productions)

module _ (text_before : String → String → Bool) where
  abbrev pub base_before : Base → Base → Bool
  base_before a b = text_before a.name b.name || (str_eq a.name b.name && ltb a.id b.id)

  unfoldable pub list_owned : Ownership → (limit : ℕ) → Db → List Base
  list_owned o limit db = take limit (order_by base_before (select_all (live_scope o) db.bases))

  module _ (matches : String → String → Bool) where
    -- The rows of the page query.
    unfoldable pub page_rows : ℕ → Filter → (limit offset : ℕ) → Db → List Base
    unfolding passes
    page_rows server f limit offset db =
        page limit offset (order_by base_before (select_all (passes matches server f db) db.bases))

    unfoldable pub list : ℕ → Filter → (limit offset : ℕ) → Db → List Listed × ℕ
    unfolding page_rows attach_equipment
    list server f limit offset db =
        let total = count_where (passes matches server f db) db.bases in
        let rows = page_rows server f limit offset db in
        if total == 0
        then ([], 0)
        else (attach_equipment db (map (λ b. b.id) rows) (map scanned rows), total)
