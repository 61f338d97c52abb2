-- ===== src/Supply/Paging.antt =====
-- The pages of ListByOwner.
use spacecraft_corporation.Prelude.{
  sym, Bool, true, ℕ, ◌-◌, String, ◌≡◌, refl, ◌∙◌, List, [], ◌∷◌, arith, ltb, if◌then◌else◌, length,
}
use spacecraft_corporation.Prelude.Rows.{select_all, count_where}
use spacecraft_corporation.Prelude.Order.{length-map, length-page, length-select_all}
use spacecraft_corporation.Supply.Model.{Status, Request, Db}
use spacecraft_corporation.Supply.Reads.{list_by_owner, listed}

-- A sort gives the rows that it is given, each as often.
pub record IsSort (newest_first : List Request → List Request) : Type 0 where
  pub keeps :
      (p : Request → Bool) (rs : List Request) → count_where p (newest_first rs) ≡ count_where p rs

count-all : {A : Type 0} (xs : List A) → count_where (λ x. true) xs ≡ length xs
count-all [] = refl
count-all (x ∷ xs) = omega (arith, count-all xs)

length-sorted :
    (newest_first : List Request → List Request) (rs : List Request)
    → IsSort newest_first
    → length (newest_first rs) ≡ length rs
length-sorted newest_first rs sort =
    sym (count-all (newest_first rs)) ∙ sort.keeps (λ x. true) rs ∙ count-all rs

-- When the sort of the database gives the rows that it is given: a page is full, or it has exactly
-- the entries that the total leaves behind its offset.
pub length-list_by_owner :
    (newest_first : List Request → List Request)
    → IsSort newest_first
    → (server : ℕ) (owner : String) (statuses : List Status) (db : Db) (limit offset : ℕ)
    → length (list_by_owner newest_first server owner statuses limit offset db).0 ≡ (
        if ltb limit ((list_by_owner newest_first server owner statuses limit offset db).1 - offset)
        then limit
        else (list_by_owner newest_first server owner statuses limit offset db).1 - offset)
unfolding list_by_owner
length-list_by_owner newest_first sort server owner statuses db limit offset =
    rw
      (
        length-map,
        length-page,
        length-sorted newest_first (select_all (listed server owner statuses) db.requests) sort,
        length-select_all (listed server owner statuses) db.requests,
      )
      refl
