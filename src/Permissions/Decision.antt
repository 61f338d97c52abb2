-- ===== src/Permissions/Decision.antt =====
-- The decision of the gate, on the mapping that `load` builds, against the rows of the table.
use spacecraft_corporation.Prelude.{
  ℕ, String, ◌≡◌, refl, ap, ◌∙◌, Bool, true, false, not, ◌&&◌, ◌||◌, inl, inr, List, [], ◌∷◌, arith,
  ◌==◌, str_eq, eq_iff, text_in, if◌then◌else◌, Bool-cases,
}
use spacecraft_corporation.Prelude.Rows.{exists}
use spacecraft_corporation.Prelude.Order.{
  exists-map, exists-ext, exists-select_all, exists-order_by,
}
use spacecraft_corporation.Permissions.{
  Grant, Mapping, grants, is_grant, mapping, mapping_before, ServerRoles, roles_of, add_mapping,
  build, list, AccessRequest, holds_any, decide,
}

pub str_eq_comm : (a b : String) → str_eq a b ≡ str_eq b a
str_eq_comm a b = elim (Bool-cases (str_eq a b)) [
  | inl e ↦ let same : a ≡ b = ground (arith, eq_iff a b) in rw same refl
  | inr e ↦ elim (Bool-cases (str_eq b a)) [
    | inl f ↦ let same : b ≡ a = ground (arith, eq_iff b a) in rw same refl
    | inr f ↦ rw (e, f) refl
  ]
]

-- The roles that the loop of `load` adds for a command.
gather : String → List Mapping → List String → List String
gather command [] acc = acc
gather command (m ∷ ms) acc =
    gather command ms (if str_eq m.command command then m.role_id ∷ acc else acc)

roles_of-add_mapping :
    (command : String) (m : Mapping) (sr : ServerRoles)
    → roles_of command (add_mapping m sr)
      ≡ (if str_eq m.command command then m.role_id ∷ roles_of command sr else roles_of command sr)
unfolding roles_of add_mapping
roles_of-add_mapping command m [] = refl
roles_of-add_mapping command m ((c, roles) ∷ sr) = elim (Bool-cases (str_eq c m.command)) [
  | inl e ↦
      let same : c ≡ m.command = ground (arith, eq_iff c m.command) in
      rw same (ground (arith, eq_iff m.command m.command))
  | inr e ↦ elim (Bool-cases (str_eq c command)) [
    | inl here ↦
        let same : c ≡ command = ground (arith, eq_iff c command) in
        let other : str_eq m.command command ≡ false =
          rw (str_eq_comm m.command command, ← same) e in
        ground arith
    | inr there ↦ ground (arith, roles_of-add_mapping command m sr)
  ]
]

roles_of-build :
    (command : String) (ms : List Mapping) (sr : ServerRoles)
    → roles_of command (build ms sr) ≡ gather command ms (roles_of command sr)
unfolding build gather
roles_of-build command [] sr = refl
roles_of-build command (m ∷ ms) sr =
    roles_of-build command ms (add_mapping m sr)
    ∙ ap (gather command ms) (roles_of-add_mapping command m sr)

abbrev maps : String → String → Mapping → Bool
maps command role m = str_eq m.command command && str_eq role m.role_id

text_in-gather :
    (command role : String) (ms : List Mapping) (acc : List String)
    → text_in role (gather command ms acc) ≡ (text_in role acc || exists (maps command role) ms)
unfolding gather
text_in-gather command role [] acc = ground arith
text_in-gather command role (m ∷ ms) acc = ground (
  arith,
  text_in-gather command role ms (if str_eq m.command command then m.role_id ∷ acc else acc),
)

abbrev is_empty : List String → Bool
is_empty [] = true
is_empty (_ ∷ _) = false

is_empty-gather :
    (command : String) (ms : List Mapping) (acc : List String)
    → is_empty (gather command ms acc)
      ≡ (is_empty acc && not (exists (λ (m : Mapping). str_eq m.command command) ms))
unfolding gather
is_empty-gather command [] acc = ground arith
is_empty-gather command (m ∷ ms) acc =
    ground (
      arith,
      is_empty-gather command ms (if str_eq m.command command then m.role_id ∷ acc else acc),
    )

-- Some role is mapped to the command, and one of the user's roles is.
abbrev pub is_mapped : ℕ → String → List Grant → Bool
is_mapped server command = exists (grants server command)

abbrev pub is_granted : ℕ → String → List Grant → String → Bool
is_granted server command db role = exists (is_grant server command role) db

-- Who may run a command: without a mapping, everybody unless the command is denied by default,
-- otherwise the users with a mapped role.
unfoldable pub permitted : AccessRequest → List Grant → Bool
permitted req db =
    if is_mapped req.server_id req.command db
    then exists (is_granted req.server_id req.command db) req.user_roles
    else not req.default_deny

decide-cases :
    (req : AccessRequest) (mapped : List String)
    → decide req mapped
      ≡ (if is_empty mapped then not req.default_deny else holds_any req.user_roles mapped)
unfolding decide
decide-cases req [] = refl
decide-cases req (m ∷ ms) = refl

holds_any-exists :
    (roles mapped : List String) → holds_any roles mapped ≡ exists (λ r. text_in r mapped) roles
unfolding holds_any
holds_any-exists [] mapped = refl
holds_any-exists (r ∷ rs) mapped = ap (◌||◌ (text_in r mapped)) (holds_any-exists rs mapped)

module _ (text_before : String → String → Bool) (server : ℕ) (command : String)
    (db : List Grant) where
  roles : List String
  roles = roles_of command (build (list text_before server db) [])

  exists-list :
      (p : Mapping → Bool)
      → exists p (list text_before server db)
        ≡ exists (λ (g : Grant). (g.servers_id == server) && p (mapping g)) db
  unfolding list
  exists-list p =
      exists-order_by (mapping_before text_before) p _
      ∙ exists-map p mapping _
      ∙ exists-select_all (λ g. p (mapping g)) (λ (g : Grant). g.servers_id == server) db

  roles-granted : (role : String) → text_in role roles ≡ is_granted server command db role
  unfolding roles roles_of
  roles-granted role =
      ap (text_in role) (roles_of-build command (list text_before server db) [])
      ∙ text_in-gather command role (list text_before server db) []
      ∙ exists-list (maps command role)
      ∙ exists-ext _ (is_grant server command role) db
          (λ g. ground (arith, str_eq_comm role g.role_id))

  roles-mapped : is_empty roles ≡ not (is_mapped server command db)
  unfolding roles roles_of
  roles-mapped =
      ap is_empty (roles_of-build command (list text_before server db) [])
      ∙ is_empty-gather command (list text_before server db) []
      ∙ ap not (exists-list (λ (m : Mapping). str_eq m.command command))

-- What the gate decides on the mapping of a server is what the rows of the table say.
pub decide-permitted :
    (text_before : String → String → Bool) (req : AccessRequest) (db : List Grant)
    → decide req (roles_of req.command (build (list text_before req.server_id db) []))
      ≡ permitted req db
unfolding permitted roles
decide-permitted text_before req db =
    let server : ℕ = req.server_id in
    let mapped : List String = roles text_before server req.command db in
    decide-cases req mapped
    ∙ rw
        (
          roles-mapped text_before server req.command db,
          holds_any-exists req.user_roles mapped,
          exists-ext (λ r. text_in r mapped) (is_granted server req.command db) req.user_roles
              (roles-granted text_before server req.command db),
        )
        (elim (Bool-cases (is_mapped server req.command db)) [
          | inl e ↦ rw e refl
          | inr e ↦ rw e refl
        ])
