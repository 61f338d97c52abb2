-- ===== src/Reservations/Writes.antt =====
-- Writes to the items, and the upsert of the reservations, keep the invariant.
use spacecraft_corporation.Prelude.{
  ℕ, ◌+◌, ◌≤◌, String, ◌≡◌, refl, sym, subst, ◌∙◌, Bool, true, not, ◌||◌, inl, inr, none, some,
  List, [], ◌∷◌, arith, ◌==◌, if◌then◌else◌, eq_iff, Bool-cases,
}
use spacecraft_corporation.Prelude.Rows.{
  IsKeyed, select?, update_where, delete_where, exists, select?_key, select?_test, update-IsKeyed,
  delete-IsKeyed, All-update_if, All-delete, select?-none-update_where, select?-delete_where_other,
  sum_by-delete_all, exists-true, exists-false, update-fresh, update_where-none, select?-none,
  All-select?,
}
use spacecraft_corporation.Reservations.{
  Reservation, reserved_total, reserved_on, same_member, reserve_more, new_reservation,
}
use spacecraft_corporation.Reservations.Sound.{
  IsSound, IsSound-set, IsSound-insert, IsSound-delete, reservation_id, is_item, is_row_of,
  OnePerMember,
}

abbrev pub on_item : ℕ → Reservation → Bool
on_item k r = r.items_id == k

pub absent-member :
    (i : ℕ) (u : String) (x : Reservation) (xs : List Reservation)
    → same_member i u x ≡ true
    → select? (same_member x.items_id x.user_id) xs ≡ none
    → select? (same_member i u) xs ≡ none
absent-member i u x xs t e =
    let item : x.items_id ≡ i = ground arith in
    let user : x.user_id ≡ u = ground (arith, eq_iff x.user_id u) in rw (item, user) at e

-- A member's only row is found by its id.
pub update-member :
    (i : ℕ) (u : String) (f : Reservation → Reservation) {r : Reservation} (rs : List Reservation)
    → IsKeyed reservation_id rs
    → OnePerMember rs
    → select? (same_member i u) rs ≡ some r
    → update_where (same_member i u) f rs ≡ update_where (is_row_of r.id) f rs
update-member i u f [] k o e = refl
update-member i u f {r} (x ∷ xs) k o e = elim (Bool-cases (same_member i u x)) [
  | inl h ↦
      let found : x ≡ r = ground arith in
      let alone = update_where-none (same_member i u) f xs (absent-member i u x xs h o.0) in
      let fresh = update-fresh reservation_id f x.id xs k.0 in
      subst
        (λ (y : Reservation).
          update_where (same_member i u) f (x ∷ xs) ≡ update_where (is_row_of y.id) f (x ∷ xs))
        found (rw (h, alone, fresh) (ground arith))
  | inr h ↦
      let rest : select? (same_member i u) xs ≡ some r = ground arith in
      ground (
        arith,
        update-member i u f {r = r} xs k.1 o.1 rest,
        select?-none reservation_id (same_member i u) x.id {r = r} xs k.0 rest,
      )
]

module _ {I : Type 0} {key required : I → ℕ} where
  -- An UPDATE of one item that leaves it enough room for what is reserved.
  pub IsSound-update_item :
      {items : List I} {rs : List Reservation} (s : IsSound key required items rs)
      → (p : I → Bool) (f : I → I) → ((x : I) → key (f x) ≡ key x)
      → ((x : I)
          → p x ≡ true
          → reserved_total (key x) rs ≤ required x
          → reserved_total (key x) rs ≤ required (f x))
      → IsSound key required (update_where p f items) rs
  IsSound-update_item {items} {rs} s p f same room = record {
    items_keyed = update-IsKeyed key p f items same s.items_keyed;
    reservations_keyed = s.reservations_keyed;
    one_row = s.one_row;
    bound = s.bound;
    within =
        All-update_if (λ (i : I). reserved_total (key i) rs ≤ required i) p f items
          (λ x e h. subst (λ k. reserved_total k rs ≤ required (f x)) (sym (same x)) (room x e h))
          s.within;
    orphans = λ k e. s.orphans k (select?-none-update_where key p f k items same e);
  }

  -- An item goes with all that is reserved on it.
  pub IsSound-remove_item :
      {items : List I} {rs : List Reservation} (s : IsSound key required items rs)
      → (p : I → Bool) (k : ℕ) → ((x : I) → p x ≡ true → key x ≡ k)
      → IsSound key required (delete_where p items) (delete_where (on_item k) rs)
  IsSound-remove_item {items} {rs} s p k only =
      let smaller = IsSound-delete s (on_item k) in
      record {
        items_keyed = delete-IsKeyed key p items s.items_keyed;
        reservations_keyed = smaller.reservations_keyed;
        one_row = smaller.one_row;
        bound = smaller.bound;
        within =
            All-delete
              (λ (i : I). reserved_total (key i) (delete_where (on_item k) rs) ≤ required i) p items
              smaller.within;
        orphans = λ j e. elim (Bool-cases (j == k)) [
          | inl h ↦ sum_by-delete_all (reserved_on j) (on_item k) rs (λ x n. ground arith)
          | inr h ↦
              smaller.orphans j (
                sym (select?-delete_where_other key p j items (λ x t. ground (arith, only x t)))
                ∙ e)
        ];
      }

  -- The upsert of a reservation that the item has room for.
  module _ {items : List I} {rs : List Reservation} (s : IsSound key required items rs) {it : I}
      (k : ℕ) (u : String) (qty now : ℕ) (owner : select? (is_item key k) items ≡ some it)
      (room : reserved_total k rs + qty ≤ required it) where
    IsSound-reserve_more :
        (r : Reservation)
        → select? (same_member k u) rs ≡ some r
        → IsSound key required items (update_where (same_member k u) (reserve_more qty u now) rs)
    IsSound-reserve_more r e =
        let same : r.items_id ≡ k =
          ground (arith, select?_test reservation_id (same_member k u) {r = r} rs e) in
        let b =
          All-select? reservation_id (λ (x : Reservation). x.delivered_qty ≤ x.reserved_qty)
            (same_member k u) {r = r} rs e s.bound in
        let owner' : select? (is_item key r.items_id) items ≡ some it = rw same owner in
        let room' : reserved_total r.items_id rs + (r.reserved_qty + qty)
            ≤ required it + r.reserved_qty =
          rw same (omega arith) in
        rw (update-member k u (reserve_more qty u now) rs s.reservations_keyed s.one_row e) (
          IsSound-set s {it = it} r
            (select?_key reservation_id (same_member k u) rs s.reservations_keyed e) owner'
            (reserve_more qty u now) (λ x. refl) (λ x. (refl, refl)) (omega (arith, b)) room')

    pub IsSound-upsert :
        (id : ℕ)
        → (exists (same_member k u) rs || not (exists (is_row_of id) rs)) ≡ true
        → IsSound key required items (
            if exists (same_member k u) rs
            then update_where (same_member k u) (reserve_more qty u now) rs
            else new_reservation id k u qty now ∷ rs)
    IsSound-upsert id fresh = elim (Bool-cases (exists (same_member k u) rs)) [
      | inl h ↦ rw h (
          IsSound-reserve_more (exists-true (same_member k u) rs h).0
            (exists-true (same_member k u) rs h).1)
      | inr h ↦ rw h (
          IsSound-insert s (new_reservation id k u qty now) owner
            (exists-false (is_row_of id) rs (ground arith)) (exists-false (same_member k u) rs h)
            (omega arith) room)
    ]
