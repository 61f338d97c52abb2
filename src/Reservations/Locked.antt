-- ===== src/Reservations/Locked.antt =====
-- What a method knows of the row that it has locked, and what it may write to it.
use spacecraft_corporation.Prelude.{
  ℕ, ◌+◌, ◌≤◌, String, ◌≡◌, refl, inl, inr, none, some, List, [], ◌∷◌, arith, Bool-cases,
}
use spacecraft_corporation.Prelude.Rows.{
  select?, select?_test, select?_key, update_where, All-select?,
}
use spacecraft_corporation.Reservations.{
  Reservation, reserved_total, reserved_by_others, same_member, deliver_more, reserve_exactly,
}
use spacecraft_corporation.Reservations.Sound.{
  IsSound, IsSound-set, reservation_id, is_item, is_row_of, found-id, OnePerMember,
}
use spacecraft_corporation.Reservations.Writes.{absent-member}

-- Without a row of the member, everything is reserved by others.
others_alone :
    (item : ℕ) (user : String) (rs : List Reservation)
    → select? (same_member item user) rs ≡ none
    → reserved_total item rs ≡ reserved_by_others item user rs
others_alone item user [] e = refl
others_alone item user (x ∷ xs) e = ground (arith, others_alone item user xs)

-- What is reserved on an item is the member's row and the others'.
pub reserved_total-split :
    (item : ℕ) (user : String) {r : Reservation} (rs : List Reservation)
    → OnePerMember rs
    → select? (same_member item user) rs ≡ some r
    → reserved_total item rs ≡ reserved_by_others item user rs + r.reserved_qty
reserved_total-split item user [] o e = cc
reserved_total-split item user {r} (x ∷ xs) o e = elim (Bool-cases (same_member item user x)) [
  | inl h ↦
      let alone = others_alone item user xs (absent-member item user x xs h o.0) in ground arith
  | inr h ↦
      let rest : select? (same_member item user) xs ≡ some r = ground arith in
      ground (arith, reserved_total-split item user {r = r} xs o.1 rest)
]

pub locked-item :
    (item : ℕ) (user : String) (rs : List Reservation) {r : Reservation}
    → select? (same_member item user) rs ≡ some r
    → r.items_id ≡ item
locked-item item user rs {r} e =
    ground (arith, select?_test reservation_id (same_member item user) {r = r} rs e)

-- The locked row of a member, on an item that is there.
module _ {I : Type 0} {key required : I → ℕ} {items : List I} {rs : List Reservation}
    (s : IsSound key required items rs) (item : ℕ) (user : String) {it : I}
    (owner : select? (is_item key item) items ≡ some it) (r : Reservation)
    (row : select? (same_member item user) rs ≡ some r) where
  locked_owner : select? (is_item key r.items_id) items ≡ some it
  locked_owner = rw (locked-item item user rs row) owner

  locked_total : reserved_total r.items_id rs ≡ reserved_total item rs
  locked_total = rw (locked-item item user rs row) refl

  pub locked_bound : r.delivered_qty ≤ r.reserved_qty
  locked_bound =
      All-select? reservation_id (λ (x : Reservation). x.delivered_qty ≤ x.reserved_qty)
        (same_member item user) {r = r} rs row s.bound

  pub locked_within : reserved_total item rs ≤ required it
  locked_within =
      let w =
        All-select? key (λ (i : I). reserved_total (key i) rs ≤ required i) (is_item key item)
          {r = it} items owner s.within in
      rw (found-id key items item owner) at w

  locked_set :
      (f : Reservation → Reservation)
      → ((x : Reservation) → (f x).id ≡ x.id)
      → ((x : Reservation) → ((f x).items_id ≡ x.items_id) × ((f x).user_id ≡ x.user_id))
      → (f r).delivered_qty ≤ (f r).reserved_qty
      → reserved_total item rs + (f r).reserved_qty ≤ required it + r.reserved_qty
      → IsSound key required items (update_where (is_row_of r.id) f rs)
  locked_set f same kept d w =
      IsSound-set s {it = it} r
        (select?_key reservation_id (same_member item user) rs s.reservations_keyed row)
        locked_owner f same kept d (omega (arith, locked_total))

  pub IsSound-reserve_exactly :
      (qty : ℕ) (actor : String) (now : ℕ)
      → r.delivered_qty ≤ qty
      → reserved_total item rs + qty ≤ required it + r.reserved_qty
      → IsSound key required items
          (update_where (is_row_of r.id) (reserve_exactly qty actor now) rs)
  IsSound-reserve_exactly qty actor now d w =
      locked_set (reserve_exactly qty actor now) (λ x. refl) (λ x. (refl, refl)) d w

  pub IsSound-deliver_more :
      (qty : ℕ) (actor : String) (now : ℕ)
      → qty + r.delivered_qty ≤ r.reserved_qty
      → IsSound key required items (update_where (is_row_of r.id) (deliver_more qty actor now) rs)
  IsSound-deliver_more qty actor now d =
      locked_set (deliver_more qty actor now) (λ x. refl) (λ x. (refl, refl)) (omega arith)
        (omega (arith, locked_within))
