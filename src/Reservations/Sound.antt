-- ===== src/Reservations/Sound.antt =====
-- The invariant of a table of items and of the reservations on them, and what each kind of write to
-- the two tables needs to keep it. `key` is the primary key of the items, `required` the quantity.
use spacecraft_corporation.Prelude.{
  ℕ, ◌+◌, ◌≤◌, String, ◌≡◌, ◌≢◌, refl, sym, subst, ◌∙◌, Bool, inl, inr, none, some, List, [], ◌∷◌,
  arith, ◌==◌, if◌then◌else◌, Bool-cases, All,
}
use spacecraft_corporation.Prelude.Rows.{
  select?, select?_test, update_where, delete_where, IsKeyed, sum_by-update, sum_by-delete_le,
  update-IsKeyed, delete-IsKeyed, update-All, All-delete, All-but_one, All-map,
}
use spacecraft_corporation.Reservations.{Reservation, reserved_on, reserved_total, same_member}

abbrev pub reservation_id : Reservation → ℕ
reservation_id r = r.id

-- A member has at most one row on an item.
abbrev pub OnePerMember : List Reservation → Type 0
OnePerMember [] = Unit
OnePerMember (x ∷ xs) = (select? (same_member x.items_id x.user_id) xs ≡ none) × OnePerMember xs

abbrev pub is_row_of : ℕ → Reservation → Bool
is_row_of k r = r.id == k

abbrev pub is_item : {I : Type 0} → (I → ℕ) → ℕ → I → Bool
is_item key k i = key i == k

-- Nobody has delivered more than reserved, no item is reserved beyond its required quantity, and
-- nothing is reserved on an item that is not there.
pub record IsSound {I : Type 0} (key required : I → ℕ) (items : List I) (rs : List Reservation)
    : Type 0 where
  pub items_keyed : IsKeyed key items
  pub reservations_keyed : IsKeyed reservation_id rs
  pub one_row : OnePerMember rs
  pub bound : All (λ (r : Reservation). r.delivered_qty ≤ r.reserved_qty) rs
  pub within : All (λ (i : I). reserved_total (key i) rs ≤ required i) items
  pub orphans : (k : ℕ) → select? (is_item key k) items ≡ none → reserved_total k rs ≡ 0

module _ (f : Reservation → Reservation)
    (kept : (x : Reservation) → ((f x).items_id ≡ x.items_id) × ((f x).user_id ≡ x.user_id)) where
  absent-update :
      (p : Reservation → Bool) (i : ℕ) (u : String) (xs : List Reservation)
      → select? (same_member i u) xs ≡ none
      → select? (same_member i u) (update_where p f xs) ≡ none
  absent-update p i u [] e = refl
  absent-update p i u (x ∷ xs) e =
      let same : same_member i u (if p x then f x else x) ≡ same_member i u x =
        ground (arith, kept x) in
      rw same (ground (arith, absent-update p i u xs))

  update-OnePerMember :
      (p : Reservation → Bool) (xs : List Reservation)
      → OnePerMember xs
      → OnePerMember (update_where p f xs)
  update-OnePerMember p [] h = tt
  update-OnePerMember p (x ∷ xs) h =
      let item : (if p x then f x else x).items_id ≡ x.items_id = ground (arith, kept x) in
      let user : (if p x then f x else x).user_id ≡ x.user_id = ground (arith, kept x) in
      (rw (item, user) (absent-update p x.items_id x.user_id xs h.0), update-OnePerMember p xs h.1)

absent-delete :
    (p : Reservation → Bool) (i : ℕ) (u : String) (xs : List Reservation)
    → select? (same_member i u) xs ≡ none
    → select? (same_member i u) (delete_where p xs) ≡ none
absent-delete p i u [] e = refl
absent-delete p i u (x ∷ xs) e = ground (arith, absent-delete p i u xs)

delete-OnePerMember :
    (p : Reservation → Bool) (xs : List Reservation)
    → OnePerMember xs
    → OnePerMember (delete_where p xs)
delete-OnePerMember p [] h = tt
delete-OnePerMember p (x ∷ xs) h = elim (Bool-cases (p x)) [
  | inl e ↦ rw e (delete-OnePerMember p xs h.1)
  | inr e ↦ rw e (absent-delete p x.items_id x.user_id xs h.0, delete-OnePerMember p xs h.1)
]

-- The sums when one row is written or deleted.
module _ (rs : List Reservation) (keyed : IsKeyed reservation_id rs) (r : Reservation)
    (here : select? (is_row_of r.id) rs ≡ some r) where
  module _ (f : Reservation → Reservation) (same : (f r).items_id ≡ r.items_id) where
    pub reserved_total-set_other :
        (k : ℕ)
        → k ≢ r.items_id
        → reserved_total k (update_where (is_row_of r.id) f rs) ≡ reserved_total k rs
    reserved_total-set_other k ne =
        ground (arith, sum_by-update reservation_id (reserved_on k) f r.id rs keyed here)

    pub reserved_total-set_self :
        reserved_total r.items_id (update_where (is_row_of r.id) f rs) + r.reserved_qty
        ≡ reserved_total r.items_id rs + (f r).reserved_qty
    reserved_total-set_self =
        ground (arith, sum_by-update reservation_id (reserved_on r.items_id) f r.id rs keyed here)

module _ {I : Type 0} (key : I → ℕ) (items : List I) {it : I} (k : ℕ)
    (owner : select? (is_item key k) items ≡ some it) where
  pub found-id : key it ≡ k
  found-id = ground (arith, select?_test key (is_item key k) {r = it} items owner)

  pub found-ne : (j : ℕ) → select? (is_item key j) items ≡ none → j ≢ k
  found-ne j e = ground arith

on_other :
    (k : ℕ) (r : Reservation) (rs : List Reservation)
    → k ≢ r.items_id
    → reserved_total k (r ∷ rs) ≡ reserved_total k rs
on_other k r rs ne = ground arith

on_self :
    (r : Reservation) (rs : List Reservation)
    → reserved_total r.items_id (r ∷ rs) ≡ r.reserved_qty + reserved_total r.items_id rs
on_self r rs = ground arith

module _ {I : Type 0} {key required : I → ℕ} where
  -- One write to the row `r` of an item that is there.
  module _ {items : List I} {rs : List Reservation} (s : IsSound key required items rs) {it : I}
      (r : Reservation) (here : select? (is_row_of r.id) rs ≡ some r)
      (owner : select? (is_item key r.items_id) items ≡ some it) where
    pub IsSound-set :
        (f : Reservation → Reservation)
        → ((x : Reservation) → (f x).id ≡ x.id)
        → ((x : Reservation) → ((f x).items_id ≡ x.items_id) × ((f x).user_id ≡ x.user_id))
        → (f r).delivered_qty ≤ (f r).reserved_qty
        → reserved_total r.items_id rs + (f r).reserved_qty ≤ required it + r.reserved_qty
        → IsSound key required items (update_where (is_row_of r.id) f rs)
    IsSound-set f same kept b w =
        let self = reserved_total-set_self rs s.reservations_keyed r here f (kept r).0 in
        let other = reserved_total-set_other rs s.reservations_keyed r here f (kept r).0 in
        record {
          items_keyed = s.items_keyed;
          reservations_keyed =
              update-IsKeyed reservation_id (is_row_of r.id) f rs same s.reservations_keyed;
          one_row = update-OnePerMember f kept (is_row_of r.id) rs s.one_row;
          bound =
              update-All reservation_id (λ (x : Reservation). x.delivered_qty ≤ x.reserved_qty) f
                r.id {r = r} rs s.reservations_keyed here b s.bound;
          within =
              All-but_one key (λ (i : I). reserved_total (key i) rs ≤ required i)
                (λ (i : I).
                  reserved_total (key i) (update_where (is_row_of r.id) f rs) ≤ required i)
                r.items_id items s.items_keyed owner (λ x ne h. omega (arith, other (key x) ne))
                (rw (found-id key items r.items_id owner) (omega (arith, self))) s.within;
          orphans = λ k e. other k (found-ne key items r.items_id owner k e) ∙ s.orphans k e;
        }

  -- Rows may go.
  pub IsSound-delete :
      {items : List I} {rs : List Reservation}
      → IsSound key required items rs
      → (p : Reservation → Bool) → IsSound key required items (delete_where p rs)
  IsSound-delete {items} {rs} s p = record {
    items_keyed = s.items_keyed;
    reservations_keyed = delete-IsKeyed reservation_id p rs s.reservations_keyed;
    one_row = delete-OnePerMember p rs s.one_row;
    bound = All-delete (λ (x : Reservation). x.delivered_qty ≤ x.reserved_qty) p rs s.bound;
    within =
        All-map (λ (i : I). reserved_total (key i) rs ≤ required i)
          (λ (i : I). reserved_total (key i) (delete_where p rs) ≤ required i) items
          (λ x h. omega (arith, sum_by-delete_le (reserved_on (key x)) p rs)) s.within;
    orphans = λ k e. omega (arith, sum_by-delete_le (reserved_on k) p rs, s.orphans k e);
  }

  -- A new row of a member who has none on an item that is there.
  pub IsSound-insert :
      {items : List I} {rs : List Reservation} (s : IsSound key required items rs) {it : I}
      (r : Reservation)
      → select? (is_item key r.items_id) items ≡ some it
      → select? (is_row_of r.id) rs ≡ none
      → select? (same_member r.items_id r.user_id) rs ≡ none
      → r.delivered_qty ≤ r.reserved_qty
      → reserved_total r.items_id rs + r.reserved_qty ≤ required it
      → IsSound key required items (r ∷ rs)
  IsSound-insert {items} {rs} s {it} r owner fresh alone b w = record {
    items_keyed = s.items_keyed;
    reservations_keyed = (fresh, s.reservations_keyed);
    one_row = (alone, s.one_row);
    bound = (b, s.bound);
    within =
        All-but_one key (λ (i : I). reserved_total (key i) rs ≤ required i)
          (λ (i : I). reserved_total (key i) (r ∷ rs) ≤ required i) r.items_id items s.items_keyed
          owner (λ x ne h. omega (arith, on_other (key x) r rs ne))
          (subst (λ k. reserved_total k (r ∷ rs) ≤ required it)
            (sym (found-id key items r.items_id owner)) (omega (arith, on_self r rs)))
          s.within;
    orphans = λ k e. on_other k r rs (found-ne key items r.items_id owner k e) ∙ s.orphans k e;
  }

  -- A new item: nothing can be reserved on it yet.
  pub IsSound-insert_item :
      {items : List I} {rs : List Reservation} (s : IsSound key required items rs) (i : I)
      → select? (is_item key (key i)) items ≡ none
      → IsSound key required (i ∷ items) rs
  IsSound-insert_item s i fresh = record {
    items_keyed = (fresh, s.items_keyed);
    reservations_keyed = s.reservations_keyed;
    one_row = s.one_row;
    bound = s.bound;
    within = (omega (arith, s.orphans (key i) fresh), s.within);
    orphans = λ k e. s.orphans k (ground arith);
  }
