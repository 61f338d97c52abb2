-- ===== src/Prelude/Order.antt =====
-- ORDER BY, LIMIT and OFFSET: rows in an order, and a page of them.
use Prim.Native.Nat.{ℕ, zero, suc, ◌+◌, ◌-◌}
use mathlib.Core.Path.{◌≡◌, refl, ap}
use mathlib.Core.Logic.{inl, inr}
use mathlib.Core.Bool.{Bool, ◌||◌, ◌&&◌}
use mathlib.Core.List.{List, [], ◌∷◌, map}
use native.Mathlib.Omega.{arith}
use spacecraft_corporation.Prelude.Tests.{ltb, if◌then◌else◌, Bool-cases}
use spacecraft_corporation.Prelude.Lists.{All, length, take}
use spacecraft_corporation.Prelude.Rows.{sum_by, count_where, select_all, exists}

module _ {A : Type 0} (before : A → A → Bool) where
  insert_row : A → List A → List A
  insert_row x [] = x ∷ []
  insert_row x (y ∷ ys) = let rest = insert_row x ys in if before x y then x ∷ y ∷ ys else y ∷ rest

  -- ORDER BY
  unfoldable pub order_by : List A → List A
  unfolding insert_row
  order_by [] = []
  order_by (x ∷ xs) = insert_row x (order_by xs)

  sum_by-insert_row :
      (w : A → ℕ) (x : A) (ys : List A) → sum_by w (insert_row x ys) ≡ w x + sum_by w ys
  unfolding insert_row
  sum_by-insert_row w x [] = refl
  sum_by-insert_row w x (y ∷ ys) = ground (arith, sum_by-insert_row w x ys)

  pub sum_by-order_by : (w : A → ℕ) (xs : List A) → sum_by w (order_by xs) ≡ sum_by w xs
  unfolding order_by
  sum_by-order_by w [] = refl
  sum_by-order_by w (x ∷ xs) =
      omega (arith, sum_by-insert_row w x (order_by xs), sum_by-order_by w xs)

  count_where-insert_row :
      (p : A → Bool) (x : A) (ys : List A)
      → count_where p (insert_row x ys) ≡ (if p x then 1 else 0) + count_where p ys
  unfolding insert_row
  count_where-insert_row p x [] = refl
  count_where-insert_row p x (y ∷ ys) = ground (arith, count_where-insert_row p x ys)

  pub count_where-order_by :
      (p : A → Bool) (xs : List A) → count_where p (order_by xs) ≡ count_where p xs
  unfolding order_by
  count_where-order_by p [] = refl
  count_where-order_by p (x ∷ xs) =
      omega (arith, count_where-insert_row p x (order_by xs), count_where-order_by p xs)

  length-insert_row : (x : A) (ys : List A) → length (insert_row x ys) ≡ suc (length ys)
  unfolding insert_row
  length-insert_row x [] = refl
  length-insert_row x (y ∷ ys) = ground (arith, length-insert_row x ys)

  pub length-order_by : (xs : List A) → length (order_by xs) ≡ length xs
  unfolding order_by
  length-order_by [] = refl
  length-order_by (x ∷ xs) = omega (arith, length-insert_row x (order_by xs), length-order_by xs)

  insert_row-All {κ} :
      (P : A → Type κ) (x : A) (ys : List A) → P x → All P ys → All P (insert_row x ys)
  unfolding insert_row
  insert_row-All P x [] p h = (p, tt)
  insert_row-All P x (y ∷ ys) p h = elim (Bool-cases (before x y)) [
    | inl e ↦ rw e (p, h)
    | inr e ↦ rw e (h.0, insert_row-All P x ys p h.1)
  ]

  pub order_by-All {κ} : (P : A → Type κ) (xs : List A) → All P xs → All P (order_by xs)
  unfolding order_by
  order_by-All P [] h = tt
  order_by-All P (x ∷ xs) h = insert_row-All P x (order_by xs) h.0 (order_by-All P xs h.1)

module _ {ℓ} {A : Type ℓ} where
  -- OFFSET
  unfoldable pub skip : ℕ → List A → List A
  skip zero xs = xs
  skip (suc n) [] = []
  skip (suc n) (x ∷ xs) = skip n xs

  -- LIMIT n OFFSET k
  unfoldable pub page : ℕ → ℕ → List A → List A
  unfolding skip
  page n k xs = take n (skip k xs)

  pub length-skip : (n : ℕ) (xs : List A) → length (skip n xs) ≡ length xs - n
  unfolding skip
  length-skip zero xs = omega arith
  length-skip (suc n) [] = omega arith
  length-skip (suc n) (x ∷ xs) = omega (arith, length-skip n xs)

  pub length-select_all : (p : A → Bool) (xs : List A) → length (select_all p xs) ≡ count_where p xs
  length-select_all p [] = refl
  length-select_all p (x ∷ xs) = ground (arith, length-select_all p xs)

module _ {A B : Type 0} where
  pub exists-map :
      (p : B → Bool) (f : A → B) (xs : List A) → exists p (map f xs) ≡ exists (λ x. p (f x)) xs
  exists-map p f [] = refl
  exists-map p f (x ∷ xs) = ap (◌||◌ (p (f x))) (exists-map p f xs)

module _ {A : Type 0} where
  pub exists-ext :
      (p q : A → Bool) (xs : List A) → ((x : A) → p x ≡ q x) → exists p xs ≡ exists q xs
  exists-ext p q [] h = refl
  exists-ext p q (x ∷ xs) h = ground (arith, h x, exists-ext p q xs h)

  pub exists-select_all :
      (p q : A → Bool) (xs : List A) → exists p (select_all q xs) ≡ exists (λ x. q x && p x) xs
  exists-select_all p q [] = refl
  exists-select_all p q (x ∷ xs) = ground (arith, exists-select_all p q xs)

  exists-insert_row :
      (before : A → A → Bool) (p : A → Bool) (x : A) (xs : List A)
      → exists p (insert_row before x xs) ≡ (p x || exists p xs)
  unfolding insert_row
  exists-insert_row before p x [] = refl
  exists-insert_row before p x (y ∷ ys) = ground (arith, exists-insert_row before p x ys)

  pub exists-order_by :
      (before : A → A → Bool) (p : A → Bool) (xs : List A)
      → exists p (order_by before xs) ≡ exists p xs
  unfolding order_by
  exists-order_by before p [] = refl
  exists-order_by before p (x ∷ xs) =
      ground (arith, exists-insert_row before p x (order_by before xs), exists-order_by before p xs)

pub length-map : {A B : Type 0} (f : A → B) (xs : List A) → length (map f xs) ≡ length xs
length-map f [] = refl
length-map f (x ∷ xs) = ap suc (length-map f xs)

length-take :
    {A : Type 0} (n : ℕ) (xs : List A)
    → length (take n xs) ≡ (if ltb n (length xs) then n else length xs)
length-take zero [] = refl
length-take zero (x ∷ xs) = ground arith
length-take (suc n) [] = ground arith
length-take (suc n) (x ∷ xs) = ground (arith, length-take n xs)

module _ {A : Type 0} where
  pub length-page :
      (n k : ℕ) (xs : List A)
      → length (page n k xs) ≡ (if ltb n (length xs - k) then n else length xs - k)
  unfolding page
  length-page n k xs = rw (length-take n (skip k xs), length-skip k xs) refl
