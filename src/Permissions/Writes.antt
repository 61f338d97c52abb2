-- ===== src/Permissions/Writes.antt =====
-- What SetRoles does to the grants.
use spacecraft_corporation.Prelude.{
  ℕ, String, ◌≡◌, refl, ◌∙◌, Bool, true, false, not, ◌&&◌, ◌||◌, inl, inr, List, [], ◌∷◌, arith,
  str_eq, eq_iff, text_in, Bool-cases,
}
use spacecraft_corporation.Prelude.Rows.{select_all, delete_where, exists}
use spacecraft_corporation.Permissions.{
  Grant, grants, is_grant, insert_grant, insert_grants, set_roles,
}
use spacecraft_corporation.Permissions.Decision.{is_granted, str_eq_comm}

exists-delete_where :
    {A : Type 0} (p q : A → Bool) (xs : List A)
    → exists p (delete_where q xs) ≡ exists (λ x. not (q x) && p x) xs
exists-delete_where p q [] = refl
exists-delete_where p q (x ∷ xs) = ground (arith, exists-delete_where p q xs)

exists-none :
    {A : Type 0} (p : A → Bool) (xs : List A) → ((x : A) → p x ≡ false) → exists p xs ≡ false
exists-none p [] h = refl
exists-none p (x ∷ xs) h = ground (arith, h x, exists-none p xs h)

module _ (server : ℕ) (command actor : String) (now : ℕ) where
  insert-granted :
      (role r : String) (db : List Grant)
      → is_granted server command (insert_grant server command actor role now db) r
        ≡ (str_eq r role || is_granted server command db r)
  unfolding insert_grant
  insert-granted role r db = elim (Bool-cases (exists (is_grant server command role) db)) [
    | inl there ↦ elim (Bool-cases (str_eq r role)) [
      | inl e ↦
          let same : r ≡ role = ground (arith, eq_iff r role) in
          rw (there, same) (ground (arith, there, eq_iff role role))
      | inr e ↦ rw (there, e) refl
    ]
    | inr absent ↦ rw absent (ground (arith, eq_iff command command, str_eq_comm role r))
  ]

  insert_grants-granted :
      (roles : List String) (r : String) (db : List Grant)
      → is_granted server command (insert_grants server command actor roles now db) r
        ≡ (text_in r roles || is_granted server command db r)
  unfolding insert_grants
  insert_grants-granted [] r db = refl
  insert_grants-granted (role ∷ roles) r db =
      let first = insert-granted role r db in
      let rest = insert_grants-granted roles r (insert_grant server command actor role now db) in
      ground arith

  -- The rows that the DELETE keeps: of the command, only those with a desired role.
  kept-granted :
      (roles : List String) (r : String) (db : List Grant)
      → text_in r roles ≡ false
      → is_granted server command
          (delete_where
            (λ (g : Grant). grants server command g && not (text_in g.role_id roles))
            db)
          r
        ≡ false
  kept-granted roles r db out =
      exists-delete_where (is_grant server command r)
        (λ (g : Grant). grants server command g && not (text_in g.role_id roles)) db
      ∙ exists-none _ db (λ g. elim (Bool-cases (str_eq g.role_id r)) [
        | inl e ↦
            let same : g.role_id ≡ r = ground (arith, eq_iff g.role_id r) in
            rw same (ground (arith, out))
        | inr e ↦ ground arith
      ])

  -- After SetRoles, the roles that are granted the command on the server are exactly the given
  -- ones.
  pub set_roles-granted :
      (roles : List String) (r : String) (db : List Grant)
      → is_granted server command (set_roles server command roles actor now db) r ≡ text_in r roles
  unfolding set_roles
  set_roles-granted roles r db =
      insert_grants-granted roles r _ ∙ elim (Bool-cases (text_in r roles)) [
        | inl e ↦ rw e refl
        | inr e ↦ rw (e, kept-granted roles r db e) refl
      ]

  -- Queries on other rows than those of the command on the server.
  module _ (p : Grant → Bool)
      (other : (g : Grant) → grants server command g ≡ true → p g ≡ false) where
    select_all-insert :
        (role : String) (db : List Grant)
        → select_all p (insert_grant server command actor role now db) ≡ select_all p db
    unfolding insert_grant
    select_all-insert role db = elim (Bool-cases (exists (is_grant server command role) db)) [
      | inl e ↦ rw e refl
      | inr e ↦ rw e (
          let row : Grant = record {
            servers_id = server;
            command = command;
            role_id = role;
            created_by = actor;
            created_at = now;
          } in
          ground (arith, other row (ground (arith, eq_iff command command))))
    ]

    select_all-inserts :
        (roles : List String) (db : List Grant)
        → select_all p (insert_grants server command actor roles now db) ≡ select_all p db
    unfolding insert_grants
    select_all-inserts [] db = refl
    select_all-inserts (role ∷ roles) db = select_all-inserts roles _ ∙ select_all-insert role db

    select_all-delete :
        (q : Grant → Bool) (db : List Grant)
        → ((g : Grant) → q g ≡ true → grants server command g ≡ true)
        → select_all p (delete_where q db) ≡ select_all p db
    select_all-delete q [] h = refl
    select_all-delete q (g ∷ gs) h = ground (arith, select_all-delete q gs h, other g, h g)

    pub select_all-set_roles :
        (roles : List String) (db : List Grant)
        → select_all p (set_roles server command roles actor now db) ≡ select_all p db
    unfolding set_roles
    select_all-set_roles roles db =
        select_all-inserts roles _ ∙ select_all-delete _ db (λ g e. ground arith)
