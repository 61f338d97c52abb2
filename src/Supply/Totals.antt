-- ===== src/Supply/Totals.antt =====
-- What the panels show of an item agrees with the rows of the tables.
use spacecraft_corporation.Prelude.{
  ℕ, ◌+◌, ◌≤◌, String, ◌≡◌, refl, ◌∙◌, subst, Bool, true, false, inl, inr, none, some, List, [],
  ◌∷◌, ◌++◌, map, arith, ◌==◌, if◌then◌else◌, Bool-cases, All,
}
use spacecraft_corporation.Prelude.Rows.{
  IsKeyed, select?, select_all, update_where, sum_by, sum_by_le, All-map,
}
use spacecraft_corporation.Prelude.Order.{order_by, sum_by-order_by, order_by-All}
use spacecraft_corporation.Reservations.{reserved_on, delivered_on, reserved_total, delivered_total}
use spacecraft_corporation.Supply.Model.{Item, Reservation, Db}
use spacecraft_corporation.Supply.Items.{item_of}
use spacecraft_corporation.Supply.Balanced.{Balanced, item_id, is_item}
use spacecraft_corporation.Supply.Reads.{
  Participant, ItemProgress, remaining, outstanding_reserved, aggregated, participant,
  with_participant, attach_all, row_of, load_items,
}

module _ {A : Type 0} where
  sum_by-append : (w : A → ℕ) (xs ys : List A) → sum_by w (xs ++ ys) ≡ sum_by w xs + sum_by w ys
  sum_by-append w [] ys = omega arith
  sum_by-append w (x ∷ xs) ys = omega (arith, sum_by-append w xs ys)

  sum_by-select_all :
      (w : A → ℕ) (p : A → Bool) (xs : List A)
      → ((x : A) → p x ≡ false → w x ≡ 0)
      → sum_by w (select_all p xs) ≡ sum_by w xs
  sum_by-select_all w p [] h = refl
  sum_by-select_all w p (x ∷ xs) h = let rest = sum_by-select_all w p xs h in ground (arith, h x)

  All-select_all {κ} :
      (P : A → Type κ) (p : A → Bool) (xs : List A)
      → All P xs
      → All (λ x. (p x ≡ true) × P x) (select_all p xs)
  All-select_all P p [] h = tt
  All-select_all P p (x ∷ xs) h = elim (Bool-cases (p x)) [
    | inl e ↦ rw e ((e, h.0), All-select_all P p xs h.1)
    | inr e ↦ rw e (All-select_all P p xs h.1)
  ]

  All-update_to {κ μ} :
      (P : A → Type κ) (Q : A → Type μ) (p : A → Bool) (f : A → A) (xs : List A)
      → ((x : A) → P x → Q (if p x then f x else x))
      → All P xs
      → All Q (update_where p f xs)
  All-update_to P Q p f [] h a = tt
  All-update_to P Q p f (x ∷ xs) h a = (h x a.0, All-update_to P Q p f xs h a.1)

  All-both {κ μ} :
      (P : A → Type κ) (Q : A → Type μ) (xs : List A)
      → All P xs
      → All Q xs
      → All (λ x. P x × Q x) xs
  All-both P Q [] h k = tt
  All-both P Q (x ∷ xs) h k = ((h.0, k.0), All-both P Q xs h.1 k.1)

  IsKeyed-self :
      (key : A → ℕ) (xs : List A)
      → IsKeyed key xs
      → All (λ x. select? (λ y. key y == key x) xs ≡ some x) xs
  IsKeyed-self key [] k = tt
  IsKeyed-self key (x ∷ xs) k = (
    ground arith,
    All-map (λ z. select? (λ y. key y == key z) xs ≡ some z)
        (λ z. select? (λ y. key y == key z) (x ∷ xs) ≡ some z) xs
        (λ z h. elim (Bool-cases (key x == key z)) [
          | inl e ↦
              let same : key x ≡ key z = ground arith in
              let gone = subst (λ i. select? (λ y. key y == i) xs ≡ none) same k.0 in ground arith
          | inr e ↦ ground arith
        ])
        (IsKeyed-self key xs k.1),
  )

map-All {κ} :
    {A B : Type 0} (P : B → Type κ) (f : A → B) (xs : List A)
    → All (λ x. P (f x)) xs
    → All P (map f xs)
map-All P f [] h = tt
map-All P f (x ∷ xs) h = (h.0, map-All P f xs h.1)

abbrev pub reserved_by : List Participant → ℕ
reserved_by = sum_by (λ (p : Participant). p.reserved)

abbrev pub delivered_by : List Participant → ℕ
delivered_by = sum_by (λ (p : Participant). p.delivered)

-- Between two rounds of the loop: what an item's participants have, and what the rows to come
-- hold on it, are its aggregates.
record Credit (rest : List Reservation) (it : ItemProgress) : Type 0 where
  pub reserved : reserved_by it.participants + reserved_total it.id rest ≡ it.reserved_qty
  pub delivered : delivered_by it.participants + delivered_total it.id rest ≡ it.delivered_qty
  pub within : it.reserved_qty ≤ it.required_qty
  pub bound : it.delivered_qty ≤ it.reserved_qty

attach-Credit :
    (r : Reservation) (rs : List Reservation) (it : ItemProgress)
    → Credit (r ∷ rs) it
    → Credit rs (if it.id == r.items_id then with_participant r it else it)
attach-Credit r rs it h = elim (Bool-cases (it.id == r.items_id)) [
  | inl e ↦ rw e (record {
    reserved = ground (
      arith,
      h.reserved,
      sum_by-append (λ (p : Participant). p.reserved) it.participants (participant r ∷ []),
    );
    delivered = ground (
      arith,
      h.delivered,
      sum_by-append (λ (p : Participant). p.delivered) it.participants (participant r ∷ []),
    );
    within = h.within;
    bound = h.bound;
  })
  | inr e ↦ rw e (record {
    reserved = ground (arith, h.reserved);
    delivered = ground (arith, h.delivered);
    within = h.within;
    bound = h.bound;
  })
]

attach_all-Credit :
    (rs : List Reservation) (items : List ItemProgress)
    → All (Credit rs) items
    → All (Credit []) (attach_all rs items)
unfolding attach_all
attach_all-Credit [] items h = h
attach_all-Credit (r ∷ rs) items h = attach_all-Credit rs _ (
    All-update_to (Credit (r ∷ rs)) (Credit rs) (λ (it : ItemProgress). it.id == r.items_id)
      (with_participant r) items (attach-Credit r rs) h)

-- The participants of an item account for its aggregates, and what remains is exactly what is not
-- yet reserved, what is outstanding exactly what is not yet delivered.
pub record IsTotal (it : ItemProgress) : Type 0 where
  pub reserved : reserved_by it.participants ≡ it.reserved_qty
  pub delivered : delivered_by it.participants ≡ it.delivered_qty
  pub remains : remaining it + it.reserved_qty ≡ it.required_qty
  pub owed : outstanding_reserved it + it.delivered_qty ≡ it.reserved_qty

Credit-IsTotal : (it : ItemProgress) → Credit [] it → IsTotal it
unfolding remaining outstanding_reserved
Credit-IsTotal it h = record {
  reserved = omega (arith, h.reserved);
  delivered = omega (arith, h.delivered);
  remains = omega (arith, h.within);
  owed = omega (arith, h.bound);
}

module _ (text_before : String → String → Bool) (rid : ℕ) (db : Db) (s : Balanced db) where
  -- A row that the second query leaves out is not on an item of the request.
  left_out :
      (i : Item)
      → item_of rid i ≡ true
      → select? (is_item i.id) db.items ≡ some i
      → (r : Reservation) → row_of rid db.items r ≡ false
      → (r.items_id == i.id) ≡ false
  left_out i of here r out = elim (Bool-cases (r.items_id == i.id)) [
    | inl e ↦
        let same : i.id ≡ r.items_id = ground arith in
        let there = subst (λ k. select? (is_item k) db.items ≡ some i) same here in
        absurd (ground arith)
    | inr e ↦ e
  ]

  rows : List Reservation
  rows =
      order_by (λ (a b : Reservation). text_before a.user_id b.user_id)
        (select_all (row_of rid db.items) db.reservations)

  module _ (i : Item) (of : item_of rid i ≡ true)
      (here : select? (is_item i.id) db.items ≡ some i) where
    rows-reserved : reserved_total i.id rows ≡ reserved_total i.id db.reservations
    unfolding rows
    rows-reserved =
        sum_by-order_by _ (reserved_on i.id) _
        ∙ sum_by-select_all (reserved_on i.id) (row_of rid db.items) db.reservations
            (λ r out. ground (arith, left_out i of here r out))

    rows-delivered : delivered_total i.id rows ≡ delivered_total i.id db.reservations
    unfolding rows
    rows-delivered =
        sum_by-order_by _ (delivered_on i.id) _
        ∙ sum_by-select_all (delivered_on i.id) (row_of rid db.items) db.reservations
            (λ r out. ground (arith, left_out i of here r out))

    delivered_le : delivered_total i.id db.reservations ≤ reserved_total i.id db.reservations
    delivered_le = sum_by_le (delivered_on i.id) (reserved_on i.id) db.reservations (
        All-map (λ (r : Reservation). r.delivered_qty ≤ r.reserved_qty)
          (λ (r : Reservation). delivered_on i.id r ≤ reserved_on i.id r) db.reservations
          (λ r h. ground arith) s.bound)

    aggregated-Credit :
        reserved_total i.id db.reservations ≤ i.required_qty
        → Credit rows (aggregated db.reservations i)
    aggregated-Credit w = record {
      reserved = omega (arith, rows-reserved);
      delivered = omega (arith, rows-delivered);
      within = w;
      bound = delivered_le;
    }

  abbrev IsLoaded : Item → Type 0
  IsLoaded i =
      (select? (is_item i.id) db.items ≡ some i)
      × (reserved_total i.id db.reservations ≤ i.required_qty)

  items-IsLoaded : All IsLoaded db.items
  items-IsLoaded =
      All-both (λ (i : Item). select? (is_item i.id) db.items ≡ some i)
        (λ (i : Item). reserved_total i.id db.reservations ≤ i.required_qty) db.items
        (IsKeyed-self item_id db.items s.items_keyed) s.within

  -- On sound books, every item that is shown has the participants that its aggregates sum up, and
  -- its remaining and outstanding quantities are the true differences.
  pub load_items-IsTotal : All IsTotal (load_items text_before rid db)
  unfolding load_items rows
  load_items-IsTotal = All-map (Credit []) IsTotal _ Credit-IsTotal (
      attach_all-Credit rows _ (
        map-All (Credit rows) (aggregated db.reservations) _ (
          order_by-All _ (λ i. Credit rows (aggregated db.reservations i)) _
            (All-map (λ i. (item_of rid i ≡ true) × IsLoaded i)
              (λ i. Credit rows (aggregated db.reservations i)) _
              (λ i h. aggregated-Credit i h.0 h.1.0 h.1.1)
              (All-select_all IsLoaded (item_of rid) db.items items-IsLoaded)))))
