-- ===== src/Bases/Shown.antt =====
-- What List shows: its rows, each with the equipment that the two queries fetch for it.
use spacecraft_corporation.Prelude.{
  ℕ, zero, suc, String, ◌≡◌, refl, ap, sym, ◌∙◌, Bool, true, inl, inr, List, [], ◌∷◌, ◌++◌, map,
  ◌==◌, if◌then◌else◌, Bool-cases, arith,
}
use mathlib.Core.List.{append-nil, append_assoc}
use spacecraft_corporation.Prelude.Rows.{select_all, update_where, count_where}
use spacecraft_corporation.Prelude.Order.{order_by, page, skip}
use spacecraft_corporation.Bases.{Base, Equipment, Db}
use spacecraft_corporation.Bases.Listing.{
  Piece, Listed, Filter, piece, scanned, with_extractor, with_production, attach, fetched,
  attach_equipment, passes, page_rows, list,
}

-- The pieces of a base among the rows of a query.
unfoldable pub pieces_of : ℕ → List Equipment → List Piece
pieces_of base rows = map piece (select_all (λ (e : Equipment). base == e.bases_id) rows)

-- A base with its own equipment, in the order of the query.
unfoldable pub shown : Db → List ℕ → Base → Listed
unfolding pieces_of
shown db ids b = record (scanned b) {
  extractors = pieces_of b.id (fetched ids db.extractors);
  productions = pieces_of b.id (fetched ids db.productions);
}

module _ {A B : Type 0} where
  map-update_where :
      (p : A → Bool) (f : A → A) (g h : A → B) (xs : List A)
      → ((x : A) → g (if p x then f x else x) ≡ h x)
      → map g (update_where p f xs) ≡ map h xs
  map-update_where p f g h [] e = refl
  map-update_where p f g h (x ∷ xs) e = rw (e x, map-update_where p f g h xs e) refl

module _ {A B C : Type 0} where
  map-map : (g : B → C) (f : A → B) (xs : List A) → map g (map f xs) ≡ map (λ x. g (f x)) xs
  map-map g f [] = refl
  map-map g f (x ∷ xs) = ap (◌∷◌ (g (f x))) (map-map g f xs)

map_id : {A : Type 0} (f : A → A) (xs : List A) → ((x : A) → f x ≡ x) → map f xs ≡ xs
map_id f [] e = refl
map_id f (x ∷ xs) e = rw (e x, map_id f xs e) refl

abbrev extracted : List Equipment → Listed → Listed
extracted es l = record l { extractors = l.extractors ++ pieces_of l.id es }

abbrev produced : List Equipment → Listed → Listed
produced es l = record l { productions = l.productions ++ pieces_of l.id es }

attach-extractors :
    (es : List Equipment) (ls : List Listed) → attach with_extractor es ls ≡ map (extracted es) ls
unfolding attach pieces_of
attach-extractors [] ls =
    sym (map_id _ ls (λ l. ap (λ u. record l { extractors = u }) (append-nil l.extractors)))
attach-extractors (e ∷ es) ls =
    attach-extractors es (update_where (λ (l : Listed). l.id == e.bases_id) (with_extractor e) ls)
    ∙ map-update_where (λ (l : Listed). l.id == e.bases_id) (with_extractor e) (extracted es)
        (extracted (e ∷ es)) ls
        (λ l. elim (Bool-cases (l.id == e.bases_id)) [
          | inl h ↦ rw h (
              ap (λ u. record l { extractors = u })
                (append_assoc l.extractors (piece e ∷ []) (pieces_of l.id es)))
          | inr h ↦ rw h refl
        ])

attach-productions :
    (es : List Equipment) (ls : List Listed) → attach with_production es ls ≡ map (produced es) ls
unfolding attach pieces_of
attach-productions [] ls =
    sym (map_id _ ls (λ l. ap (λ u. record l { productions = u }) (append-nil l.productions)))
attach-productions (e ∷ es) ls =
    attach-productions es (update_where (λ (l : Listed). l.id == e.bases_id) (with_production e) ls)
    ∙ map-update_where (λ (l : Listed). l.id == e.bases_id) (with_production e) (produced es)
        (produced (e ∷ es)) ls
        (λ l. elim (Bool-cases (l.id == e.bases_id)) [
          | inl h ↦ rw h (
              ap (λ u. record l { productions = u })
                (append_assoc l.productions (piece e ∷ []) (pieces_of l.id es)))
          | inr h ↦ rw h refl
        ])

attach_equipment-shown :
    (db : Db) (ids : List ℕ) (rows : List Base)
    → attach_equipment db ids (map scanned rows) ≡ map (shown db ids) rows
unfolding attach_equipment shown
attach_equipment-shown db ids rows =
    rw
      (
        attach-extractors (fetched ids db.extractors) (map scanned rows),
        attach-productions (fetched ids db.productions),
        map-map (extracted (fetched ids db.extractors)) scanned rows,
        map-map (produced (fetched ids db.productions)),
      )
      refl

select_all-none :
    {A : Type 0} (p : A → Bool) (xs : List A) → count_where p xs ≡ 0 → select_all p xs ≡ []
select_all-none p [] h = refl
select_all-none p (x ∷ xs) h = ground (arith, select_all-none p xs)

zero-eq : (n : ℕ) → (n == 0) ≡ true → 0 ≡ n
zero-eq n e = ground arith

page-nil : {A : Type 0} (n k : ℕ) → page {A = A} n k [] ≡ []
unfolding page skip
page-nil zero zero = refl
page-nil (suc n) zero = refl
page-nil zero (suc k) = refl
page-nil (suc n) (suc k) = refl

module _ (text_before matches : String → String → Bool) where
  -- List answers the total of the rows that pass the filter, and for each row of its page the base
  -- with the equipment that is its own, though two queries fetch that of the whole page.
  pub list-rows :
      (server : ℕ) (f : Filter) (limit offset : ℕ) (db : Db)
      → list text_before matches server f limit offset db ≡ (
        map
            (shown db (map (λ b. b.id) (page_rows text_before matches server f limit offset db)))
            (page_rows text_before matches server f limit offset db),
        count_where (passes matches server f db) db.bases,
      )
  unfolding list page_rows order_by
  list-rows server f limit offset db =
      elim (Bool-cases (count_where (passes matches server f db) db.bases == 0)) [
        | inl e ↦
            rw
              (
                e,
                select_all-none (passes matches server f db) db.bases (ground (arith, e)),
                page-nil limit offset,
              )
              (ap (λ n. ([], n)) (zero-eq (count_where (passes matches server f db) db.bases) e))
        | inr e ↦ rw e (
            ap (λ u. (u, count_where (passes matches server f db) db.bases))
              (attach_equipment-shown db _ _))
      ]
