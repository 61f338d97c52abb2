-- ===== src/Bases.antt =====
-- internal/features/bases: the registered bases and their equipment, and the repository's methods
-- that write the three tables. `register` is one step here, as it is where no other registration
-- of the same owner runs at the same time; `Race` takes it apart.
pub mod History
pub mod Limits
pub mod Scope
pub mod Race
pub mod Listing
pub mod Shown
pub mod Filtered
pub mod Exact
mod Tests
use spacecraft_corporation.Prelude.{
  ℕ, String, Bool, true, false, not, ◌&&◌, ◌||◌, Option, none, some, List, [], ◌∷◌, ltb, ◌==◌,
  str_eq, if◌then◌else◌,
}
use spacecraft_corporation.Prelude.Rows.{
  select?, select_all, update_where, delete_where, count_where, exists,
}
use spacecraft_corporation.Prelude.Tx.{
  Tx, Result, ok, err, reads, gets, check, guard, write, pure, ◌>>=◌, ◌>>◌,
}

pub data Kind : Type 0 where
  member corp : Kind

abbrev pub same_kind : Kind → Kind → Bool
same_kind Kind.member Kind.member = true
same_kind Kind.corp Kind.corp = true
same_kind _ _ = false

abbrev pub is_corp : Kind → Bool
is_corp Kind.corp = true
is_corp _ = false

pub data Error : Type 0 where
  base_not_found limit_reached constraint : Error

-- A row of `bases`.
pub record Base : Type 0 where
  pub id : ℕ
  pub servers_id : ℕ
  pub kind : Kind
  pub owner_user_id : Option String
  pub name : String
  pub sector_name : String
  pub system_code : String
  pub planet_number : ℕ
  pub created_by : String
  pub created_at : ℕ
  pub updated_at : ℕ
  pub deleted_at : Option ℕ

-- A row of `base_extractors` or of `base_productions`, whose value is a resource or an item.
pub record Equipment : Type 0 where
  pub id : ℕ
  pub bases_id : ℕ
  pub value : String
  pub created_at : ℕ

pub record Db : Type 0 where
  pub bases : List Base
  pub extractors : List Equipment
  pub productions : List Equipment

pub record Ownership : Type 0 where
  pub server_id : ℕ
  pub kind : Kind
  pub owner_user_id : String

abbrev pub member_ownership : ℕ → String → Ownership
member_ownership server owner = record {
  server_id = server;
  kind = Kind.member;
  owner_user_id = owner;
}

abbrev pub corp_ownership : ℕ → Ownership
corp_ownership server = record { server_id = server; kind = Kind.corp; owner_user_id = "" }

pub record RegisterInput : Type 0 where
  pub server_id : ℕ
  pub kind : Kind
  pub owner_user_id : String
  pub name : String
  pub sector_name : String
  pub system_code : String
  pub planet_number : ℕ
  pub created_by : String

abbrev pub owned_by : Option String → String → Bool
owned_by none u = false
owned_by (some v) u = str_eq v u

abbrev pub is_live : Base → Bool
is_live b = elim b.deleted_at [ none ↦ true | some _ ↦ false ]

-- liveScope, with the arguments of scopeArgs
unfoldable pub live_scope : Ownership → Base → Bool
live_scope o b =
    (b.servers_id == o.server_id)
    && is_live b
    && same_kind b.kind o.kind
    && (owned_by b.owner_user_id o.owner_user_id || is_corp o.kind)

-- ownerArg
abbrev pub owner_arg : Kind → String → Option String
owner_arg Kind.corp owner = none
owner_arg Kind.member owner = some owner

unfoldable pub registered : RegisterInput → ℕ → ℕ → Base
registered inp id now = record {
  id = id;
  servers_id = inp.server_id;
  kind = inp.kind;
  owner_user_id = owner_arg inp.kind inp.owner_user_id;
  name = inp.name;
  sector_name = inp.sector_name;
  system_code = inp.system_code;
  planet_number = inp.planet_number;
  created_by = inp.created_by;
  created_at = now;
  updated_at = now;
  deleted_at = none;
}

abbrev pub ownership_of : RegisterInput → Ownership
ownership_of inp = record {
  server_id = inp.server_id;
  kind = inp.kind;
  owner_user_id = inp.owner_user_id;
}

-- The primary key, and the SMALLINT column of the planet.
abbrev pub base_row_ok : ℕ → RegisterInput → Db → Bool
base_row_ok id inp db =
    not (exists (λ (b : Base). b.id == id) db.bases) && ltb inp.planet_number 32768

-- What the count of the owner's live bases is tested for.
abbrev pub has_room : RegisterInput → ℕ → List Base → Bool
has_room inp limit bases = ltb (count_where (live_scope (ownership_of inp)) bases) limit

unfoldable pub register : RegisterInput → (limit id now : ℕ) → Tx Error Db ℕ
register inp limit id now = do
  check (λ db. has_room inp limit db.bases) Error.limit_reached
  check (base_row_ok id inp) Error.constraint
  write (λ db. record db { bases = registered inp id now ∷ db.bases })
  pure id

abbrev pub deleted : ℕ → Base → Base
deleted now b = record b { deleted_at = some now; updated_at = now }

-- The soft deletes return the number of rows affected.
unfoldable pub delete_one : Ownership → (base now : ℕ) → Tx Error Db ℕ
delete_one o base now = do
  n ← gets (λ db. count_where (λ (b : Base). live_scope o b && (b.id == base)) db.bases)
  write (λ db. record db {
    bases = update_where (λ (b : Base). live_scope o b && (b.id == base)) (deleted now) db.bases;
  })
  pure n

unfoldable pub delete_all : Ownership → (now : ℕ) → Tx Error Db ℕ
delete_all o now = do
  n ← gets (λ db. count_where (live_scope o) db.bases)
  write (λ db. record db { bases = update_where (live_scope o) (deleted now) db.bases })
  pure n

pub data Table : Type 0 where
  base_extractors base_productions : Table

abbrev pub rows_of : Table → Db → List Equipment
rows_of Table.base_extractors db = db.extractors
rows_of Table.base_productions db = db.productions

abbrev pub with_rows : Table → List Equipment → Db → Db
with_rows Table.base_extractors rows db = record db { extractors = rows }
with_rows Table.base_productions rows db = record db { productions = rows }

abbrev pub on_base : ℕ → Equipment → Bool
on_base base e = e.bases_id == base

-- ownsBaseTx
unfoldable pub owns_base : Ownership → ℕ → Db → Bool
unfolding live_scope
owns_base o base db = exists (λ (b : Base). live_scope o b && (b.id == base)) db.bases

abbrev pub equipment : ℕ → ℕ → String → ℕ → Equipment
equipment id base value now = record { id = id; bases_id = base; value = value; created_at = now }

-- addEquipment: the base row is locked, so the count cannot change before the insert.
unfoldable pub add_equipment :
    Table → Ownership → (base : ℕ) (value : String) (limit id now : ℕ) → Tx Error Db Unit
unfolding owns_base
add_equipment t o base value limit id now = do
  check (owns_base o base) Error.base_not_found
  check (λ db. ltb (count_where (on_base base) (rows_of t db)) limit) Error.limit_reached
  check (λ db. not (exists (λ (e : Equipment). e.id == id) (rows_of t db))) Error.constraint
  write (λ db. with_rows t (equipment id base value now ∷ rows_of t db) db)

-- The row of the equipment, on a base of the scope.
abbrev pub removable : Ownership → ℕ → List Base → Equipment → Bool
removable o id bases e =
    (e.id == id) && exists (λ (b : Base). (e.bases_id == b.id) && live_scope o b) bases

unfoldable pub remove_equipment : Table → Ownership → (id : ℕ) → Tx Error Db ℕ
unfolding live_scope
remove_equipment t o id = do
  n ← gets (λ db. count_where (removable o id db.bases) (rows_of t db))
  write (λ db. with_rows t (delete_where (removable o id db.bases) (rows_of t db)) db)
  pure n
