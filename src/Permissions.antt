-- ===== src/Permissions.antt =====
-- internal/features/permissions: the mapping of roles to commands in the database, its cache in
-- front of the gate, and the gate.
pub mod Decision
pub mod Writes
pub mod Gate
mod Tests
use spacecraft_corporation.Prelude.{
  ℕ, String, Bool, true, false, not, ◌&&◌, ◌||◌, Option, none, some, List, [], ◌∷◌, map, ◌==◌,
  str_eq, text_in, if◌then◌else◌,
}
use spacecraft_corporation.Prelude.Rows.{select_all, delete_where, exists}
use spacecraft_corporation.Prelude.Order.{order_by}
use spacecraft_corporation.Prelude.Tx.{Result, ok, err}
use spacecraft_corporation.Cache.{Lru, fetch}

-- A row of `permissions`, the id, creator and time of which nothing reads.
pub record Grant : Type 0 where
  pub servers_id : ℕ
  pub command : String
  pub role_id : String
  pub created_by : String
  pub created_at : ℕ

pub record Mapping : Type 0 where
  pub command : String
  pub role_id : String

abbrev pub grants : ℕ → String → Grant → Bool
grants server command g = (g.servers_id == server) && str_eq g.command command

-- RolesFor
unfoldable pub roles_for : ℕ → String → List Grant → List String
roles_for server command db = map (λ (g : Grant). g.role_id) (select_all (grants server command) db)

abbrev pub is_grant : ℕ → String → String → Grant → Bool
is_grant server command role g = grants server command g && str_eq g.role_id role

-- INSERT … ON CONFLICT (servers_id, command, role_id) DO NOTHING
unfoldable pub insert_grant : ℕ → String → String → String → ℕ → List Grant → List Grant
insert_grant server command actor role now db =
    if exists (is_grant server command role) db
    then db
    else record {
      servers_id = server;
      command = command;
      role_id = role;
      created_by = actor;
      created_at = now;
    }
      ∷ db

unfoldable pub insert_grants : ℕ → String → String → List String → ℕ → List Grant → List Grant
unfolding insert_grant
insert_grants server command actor [] now db = db
insert_grants server command actor (role ∷ roles) now db =
    insert_grants server command actor roles now (insert_grant server command actor role now db)

-- SetRoles of the repository.
unfoldable pub set_roles : ℕ → String → List String → String → ℕ → List Grant → List Grant
unfolding insert_grants
set_roles server command roles actor now db =
    insert_grants server command actor roles now
      (delete_where (λ (g : Grant). grants server command g && not (text_in g.role_id roles)) db)

abbrev pub mapping : Grant → Mapping
mapping g = record { command = g.command; role_id = g.role_id }

-- serverRoles: the set of roles of each command.
abbrev pub ServerRoles : Type 0
ServerRoles = List (String × List String)

-- sr[command]: a missing command has no role.
unfoldable pub roles_of : String → ServerRoles → List String
roles_of command [] = []
roles_of command ((c, roles) ∷ sr) =
    let rest = roles_of command sr in if str_eq c command then roles else rest

-- One round of the loop of `load`.
unfoldable pub add_mapping : Mapping → ServerRoles → ServerRoles
add_mapping m [] = (m.command, m.role_id ∷ []) ∷ []
add_mapping m ((c, roles) ∷ sr) =
    let rest = add_mapping m sr in
    if str_eq c m.command then (c, m.role_id ∷ roles) ∷ sr else (c, roles) ∷ rest

unfoldable pub build : List Mapping → ServerRoles → ServerRoles
unfolding add_mapping
build [] sr = sr
build (m ∷ ms) sr = build ms (add_mapping m sr)

abbrev mapping_before : (String → String → Bool) → Mapping → Mapping → Bool
mapping_before text_before a b =
    text_before a.command b.command
    || (str_eq a.command b.command && text_before a.role_id b.role_id)

pub record AccessRequest : Type 0 where
  pub server_id : ℕ
  pub command : String
  pub default_deny : Bool
  pub user_roles : List String

-- The loop over the user's roles.
unfoldable pub holds_any : List String → List String → Bool
holds_any [] mapped = false
holds_any (r ∷ rs) mapped = text_in r mapped || holds_any rs mapped

-- The decision, once the mapped roles are known.
unfoldable pub decide : AccessRequest → List String → Bool
unfolding holds_any
decide req [] = not req.default_deny
decide req (m ∷ ms) = holds_any req.user_roles (m ∷ ms)

module _ (text_before : String → String → Bool) where
  -- List, for the panel and for the cache; `text_before` is the order of PostgreSQL on texts.
  unfoldable pub list : ℕ → List Grant → List Mapping
  list server db =
      order_by (mapping_before text_before)
        (map mapping (select_all (λ (g : Grant). g.servers_id == server) db))

  -- The query of `load`; `up` tells whether the database answers.
  unfoldable pub load : Bool → List Grant → ℕ → Option ServerRoles
  unfolding list build
  load up db server = if up then some (build (list server db) []) else none

  module _ {C : Type 0} (lru : Lru ServerRoles C) where
    unfoldable pub decided : AccessRequest → Option ServerRoles × C → Result Unit Bool × C
    decided req (none, c) = (err tt, c)
    decided req (some sr, c) = (ok (decide req (roles_of req.command sr)), c)

    -- IsAllowed, through roleSet: the answer, or the error of the database.
    unfoldable pub is_allowed : AccessRequest → Bool → List Grant → C → Result Unit Bool × C
    unfolding load fetch decided decide roles_of
    is_allowed req up db c = decided req (fetch lru (load up db) req.server_id c)

    -- SetRoles of the store: the write, and the invalidation where it has succeeded.
    unfoldable pub store_roles :
        ℕ → String → List String → String → ℕ → Bool → List Grant → C → List Grant × C
    unfolding set_roles
    store_roles server command roles actor now up db c =
        if up then (set_roles server command roles actor now db, lru.remove server c) else (db, c)
