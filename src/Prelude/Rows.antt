-- ===== src/Prelude/Rows.antt =====
-- Tables as lists of rows, and the SQL statements that the repositories send: SELECT, UPDATE,
-- DELETE, COUNT and SUM over a WHERE test. A table has a primary key, `key`.
use Prim.Native.Nat.{ℕ, ◌+◌, ◌≤◌}
use mathlib.Core.Path.{◌≡◌, refl, sym, ap, subst}
use mathlib.Core.Logic.{◌≢◌, inl, inr}
use mathlib.Core.Bool.{Bool, true, false, ◌||◌}
use mathlib.Core.Option
use mathlib.Core.Option.{Option, none, some}
use mathlib.Core.List.{List, [], ◌∷◌}
use native.Mathlib.Omega.{arith}
use spacecraft_corporation.Prelude.Tests.{◌==◌, if◌then◌else◌, Bool-cases}
use spacecraft_corporation.Prelude.Lists.{All}

module _ {ℓ} {A : Type ℓ} where
  -- SELECT … WHERE p, for a query that reads one row.
  abbrev pub select? : (A → Bool) → List A → Option A
  select? p [] = none
  select? p (x ∷ xs) = if p x then some x else select? p xs

  -- SELECT … WHERE p
  abbrev pub select_all : (A → Bool) → List A → List A
  select_all p [] = []
  select_all p (x ∷ xs) = let rest = select_all p xs in if p x then x ∷ rest else rest

  -- EXISTS (SELECT 1 … WHERE p)
  abbrev pub exists : (A → Bool) → List A → Bool
  exists p [] = false
  exists p (x ∷ xs) = p x || exists p xs

  -- UPDATE … SET f WHERE p
  abbrev pub update_where : (A → Bool) → (A → A) → List A → List A
  update_where p f [] = []
  update_where p f (x ∷ xs) = (if p x then f x else x) ∷ update_where p f xs

  -- DELETE … WHERE p
  abbrev pub delete_where : (A → Bool) → List A → List A
  delete_where p [] = []
  delete_where p (x ∷ xs) = let rest = delete_where p xs in if p x then rest else x ∷ rest

  -- COALESCE(SUM(w), 0), with the WHERE test inside `w`
  abbrev pub sum_by : (A → ℕ) → List A → ℕ
  sum_by w [] = 0
  sum_by w (x ∷ xs) = w x + sum_by w xs

  -- count(*) … WHERE p
  abbrev pub count_where : (A → Bool) → List A → ℕ
  count_where p [] = 0
  count_where p (x ∷ xs) = (if p x then 1 else 0) + count_where p xs

module _ {ℓ} {A : Type ℓ} (key : A → ℕ) where
  abbrev pub IsKeyed : List A → Type ℓ
  IsKeyed [] = Unit
  IsKeyed (x ∷ xs) = (select? (λ y. key y == key x) xs ≡ none) × IsKeyed xs

  -- A row that some test finds satisfies it.
  pub select?_test : (p : A → Bool) {r : A} (xs : List A) → select? p xs ≡ some r → p r ≡ true
  select?_test p [] e = cc
  select?_test p {r} (x ∷ xs) e = elim (Bool-cases (p x)) [
    | inl h ↦ ground arith
    | inr h ↦ ground (arith, select?_test p {r = r} xs)
  ]

  -- No row of a key that is not there.
  pub select?-none :
      (p : A → Bool) (k : ℕ) {r : A} (xs : List A)
      → select? (λ y. key y == k) xs ≡ none
      → select? p xs ≡ some r
      → key r ≢ k
  select?-none p k [] u e = cc
  select?-none p k {r} (x ∷ xs) u e = ground (arith, select?-none p k {r = r} xs)

  -- A row that some test finds is the row of its key.
  pub select?_key :
      (p : A → Bool) {r : A} (xs : List A)
      → IsKeyed xs
      → select? p xs ≡ some r
      → select? (λ y. key y == key r) xs ≡ some r
  select?_key p [] u e = cc
  select?_key p {r} (x ∷ xs) u e =
      ground (arith, select?_key p {r = r} xs, select?-none p (key x) {r = r} xs)

  pub update-fresh :
      (f : A → A) (k : ℕ) (xs : List A)
      → select? (λ y. key y == k) xs ≡ none
      → update_where (λ y. key y == k) f xs ≡ xs
  update-fresh f k [] e = refl
  update-fresh f k (x ∷ xs) e = ground (arith, update-fresh f k xs)

  pub delete-fresh :
      (k : ℕ) (xs : List A)
      → select? (λ y. key y == k) xs ≡ none
      → delete_where (λ y. key y == k) xs ≡ xs
  delete-fresh k [] e = refl
  delete-fresh k (x ∷ xs) e = ground (arith, delete-fresh k xs)

  pub sum_by-update :
      (w : A → ℕ) (f : A → A) (k : ℕ) {r : A} (xs : List A)
      → IsKeyed xs
      → select? (λ y. key y == k) xs ≡ some r
      → sum_by w (update_where (λ y. key y == k) f xs) + w r ≡ sum_by w xs + w (f r)
  sum_by-update w f k [] u e = cc
  sum_by-update w f k {r} (x ∷ xs) u e = elim (Bool-cases (key x == k)) [
    | inl h ↦
        let same : key x ≡ k = ground arith in
        let fresh : select? (λ y. key y == k) xs ≡ none = rw same at u.0 in
        ground (arith, ap (sum_by w) (update-fresh f k xs fresh))
    | inr h ↦ ground (arith, sum_by-update w f k {r = r} xs)
  ]

  pub sum_by-delete :
      (w : A → ℕ) (k : ℕ) {r : A} (xs : List A)
      → IsKeyed xs
      → select? (λ y. key y == k) xs ≡ some r
      → sum_by w (delete_where (λ y. key y == k) xs) + w r ≡ sum_by w xs
  sum_by-delete w k [] u e = cc
  sum_by-delete w k {r} (x ∷ xs) u e = elim (Bool-cases (key x == k)) [
    | inl h ↦
        let same : key x ≡ k = ground arith in
        let fresh : select? (λ y. key y == k) xs ≡ none = rw same at u.0 in
        ground (arith, ap (sum_by w) (delete-fresh k xs fresh))
    | inr h ↦ ground (arith, sum_by-delete w k {r = r} xs)
  ]

  -- How an update of one row is seen by a SELECT on the key.
  pub select?-update :
      (f : A → A) (k j : ℕ) (xs : List A)
      → ((x : A) → key (f x) ≡ key x)
      → select? (λ y. key y == j) (update_where (λ y. key y == k) f xs) ≡ (
          if k == j
          then Option.map f (select? (λ y. key y == j) xs)
          else select? (λ y. key y == j) xs)
  select?-update f k j [] kept = ground arith
  select?-update f k j (x ∷ xs) kept = ground (arith, kept x, select?-update f k j xs kept)

  -- The same for any WHERE test: the row is changed if it passes the test.
  pub select?-update_where :
      (p : A → Bool) (f : A → A) (j : ℕ) (xs : List A)
      → ((x : A) → key (f x) ≡ key x)
      → select? (λ y. key y == j) (update_where p f xs)
        ≡ Option.map (λ x. if p x then f x else x) (select? (λ y. key y == j) xs)
  select?-update_where p f j [] kept = refl
  select?-update_where p f j (x ∷ xs) kept =
      ground (arith, kept x, select?-update_where p f j xs kept)

  pub select?-update_where-none :
      (p : A → Bool) (f : A → A) (j : ℕ) (xs : List A)
      → ((x : A) → key (f x) ≡ key x)
      → select? (λ y. key y == j) xs ≡ none
      → select? (λ y. key y == j) (update_where p f xs) ≡ none
  select?-update_where-none p f j [] kept e = refl
  select?-update_where-none p f j (x ∷ xs) kept e =
      ground (arith, kept x, select?-update_where-none p f j xs kept)

  pub select?-delete_where-none :
      (p : A → Bool) (j : ℕ) (xs : List A)
      → select? (λ y. key y == j) xs ≡ none
      → select? (λ y. key y == j) (delete_where p xs) ≡ none
  select?-delete_where-none p j [] e = refl
  select?-delete_where-none p j (x ∷ xs) e = ground (arith, select?-delete_where-none p j xs)

  pub update-IsKeyed :
      (p : A → Bool) (f : A → A) (xs : List A)
      → ((x : A) → key (f x) ≡ key x)
      → IsKeyed xs
      → IsKeyed (update_where p f xs)
  update-IsKeyed p f [] kept u = tt
  update-IsKeyed p f (x ∷ xs) kept u =
      let same : key (if p x then f x else x) ≡ key x = ground (arith, kept x) in
      let absent : select? (λ y. key y == key x) (update_where p f xs) ≡ none =
        select?-update_where-none p f (key x) xs kept u.0 in
      (rw same absent, update-IsKeyed p f xs kept u.1)

  pub delete-IsKeyed : (p : A → Bool) (xs : List A) → IsKeyed xs → IsKeyed (delete_where p xs)
  delete-IsKeyed p [] u = tt
  delete-IsKeyed p (x ∷ xs) u = elim (Bool-cases (p x)) [
    | inl h ↦ rw h (delete-IsKeyed p xs u.1)
    | inr h ↦ rw h (select?-delete_where-none p (key x) xs u.0, delete-IsKeyed p xs u.1)
  ]

  All-other {κ μ} :
      (P : A → Type κ) (Q : A → Type μ) (k : ℕ) (xs : List A)
      → select? (λ y. key y == k) xs ≡ none
      → ((x : A) → key x ≢ k → P x → Q x)
      → All P xs
      → All Q xs
  All-other P Q k [] e other all = tt
  All-other P Q k (x ∷ xs) e other all =
      (other x (ground arith) all.0, All-other P Q k xs (ground arith) other all.1)

  -- From a property of every row to another one, where one row needs an argument of its own.
  pub All-but_one {κ μ} :
      (P : A → Type κ) (Q : A → Type μ) (k : ℕ) {r : A} (xs : List A)
      → IsKeyed xs
      → select? (λ y. key y == k) xs ≡ some r
      → ((x : A) → key x ≢ k → P x → Q x)
      → Q r
      → All P xs
      → All Q xs
  All-but_one P Q k [] u e other here all = tt
  All-but_one P Q k {r} (x ∷ xs) u e other here all = elim (Bool-cases (key x == k)) [
    | inl h ↦
        let same : key x ≡ k = ground arith in
        let fresh : select? (λ y. key y == k) xs ≡ none = rw same at u.0 in
        let found : r ≡ x = ground arith in
        (subst Q found here, All-other P Q k xs fresh other all.1)
    | inr h ↦ (
      other x (ground arith) all.0,
      All-but_one P Q k {r = r} xs u.1 (ground arith) other here all.1,
    )
  ]

  pub update-All {κ} :
      (P : A → Type κ) (f : A → A) (k : ℕ) {r : A} (xs : List A)
      → IsKeyed xs
      → select? (λ y. key y == k) xs ≡ some r
      → P (f r)
      → All P xs
      → All P (update_where (λ y. key y == k) f xs)
  update-All P f k [] u e new all = tt
  update-All P f k {r} (x ∷ xs) u e new all = elim (Bool-cases (key x == k)) [
    | inl h ↦
        let same : key x ≡ k = ground arith in
        let fresh : select? (λ y. key y == k) xs ≡ none = rw same at u.0 in
        let found : r ≡ x = ground arith in
        (
          rw h (subst (λ y. P (f y)) found new),
          subst (All P) (sym (update-fresh f k xs fresh)) all.1,
        )
    | inr h ↦ (rw h all.0, update-All P f k {r = r} xs u.1 (ground arith) new all.1)
  ]

  pub select?-none-update_where :
      (p : A → Bool) (f : A → A) (j : ℕ) (xs : List A)
      → ((x : A) → key (f x) ≡ key x)
      → select? (λ y. key y == j) (update_where p f xs) ≡ none
      → select? (λ y. key y == j) xs ≡ none
  select?-none-update_where p f j [] kept e = refl
  select?-none-update_where p f j (x ∷ xs) kept e =
      ground (arith, kept x, select?-none-update_where p f j xs kept)

  -- A DELETE of rows of other keys.
  pub select?-delete_where_other :
      (p : A → Bool) (j : ℕ) (xs : List A)
      → ((x : A) → p x ≡ true → key x ≢ j)
      → select? (λ y. key y == j) (delete_where p xs) ≡ select? (λ y. key y == j) xs
  select?-delete_where_other p j [] other = refl
  select?-delete_where_other p j (x ∷ xs) other =
      ground (arith, other x, select?-delete_where_other p j xs other)

  -- The row that a SELECT on the key reads has what every row has.
  pub All-select? {κ} :
      (P : A → Type κ) (p : A → Bool) {r : A} (xs : List A) → select? p xs ≡ some r → All P xs → P r
  All-select? P p [] e all = cc
  All-select? P p {r} (x ∷ xs) e all = elim (Bool-cases (p x)) [
    | inl h ↦ let found : x ≡ r = ground arith in subst P found all.0
    | inr h ↦ All-select? P p {r = r} xs (ground arith) all.1
  ]

module _ {ℓ κ} {A : Type ℓ} (P : A → Type κ) where
  pub All-delete : (p : A → Bool) (xs : List A) → All P xs → All P (delete_where p xs)
  All-delete p [] all = tt
  All-delete p (x ∷ xs) all = elim (Bool-cases (p x)) [
    | inl h ↦ rw h (All-delete p xs all.1)
    | inr h ↦ rw h (all.0, All-delete p xs all.1)
  ]

  pub All-update_where :
      (p : A → Bool) (f : A → A) (xs : List A)
      → ((x : A) → P x → P (f x))
      → All P xs
      → All P (update_where p f xs)
  All-update_where p f [] kept all = tt
  All-update_where p f (x ∷ xs) kept all = elim (Bool-cases (p x)) [
    | inl h ↦ rw h (kept x all.0, All-update_where p f xs kept all.1)
    | inr h ↦ rw h (all.0, All-update_where p f xs kept all.1)
  ]

  pub All-update_if :
      (p : A → Bool) (f : A → A) (xs : List A)
      → ((x : A) → p x ≡ true → P x → P (f x))
      → All P xs
      → All P (update_where p f xs)
  All-update_if p f [] kept all = tt
  All-update_if p f (x ∷ xs) kept all = elim (Bool-cases (p x)) [
    | inl h ↦ rw h (kept x h all.0, All-update_if p f xs kept all.1)
    | inr h ↦ rw h (all.0, All-update_if p f xs kept all.1)
  ]

module _ {ℓ κ μ} {A : Type ℓ} (P : A → Type κ) (Q : A → Type μ) where
  pub All-map : (xs : List A) → ((x : A) → P x → Q x) → All P xs → All Q xs
  All-map [] f all = tt
  All-map (x ∷ xs) f all = (f x all.0, All-map xs f all.1)

module _ {ℓ} {A : Type ℓ} where
  -- An update that keeps each row's summand keeps the sum.
  pub sum_by-update_where :
      (w : A → ℕ) (p : A → Bool) (f : A → A) (xs : List A)
      → ((x : A) → w (f x) ≡ w x)
      → sum_by w (update_where p f xs) ≡ sum_by w xs
  sum_by-update_where w p f [] kept = refl
  sum_by-update_where w p f (x ∷ xs) kept =
      ground (arith, kept x, sum_by-update_where w p f xs kept)

  -- A delete of rows that do not count keeps the sum.
  pub sum_by-delete_where :
      (w : A → ℕ) (p : A → Bool) (xs : List A)
      → ((x : A) → p x ≡ true → w x ≡ 0)
      → sum_by w (delete_where p xs) ≡ sum_by w xs
  sum_by-delete_where w p [] kept = refl
  sum_by-delete_where w p (x ∷ xs) kept = ground (arith, kept x, sum_by-delete_where w p xs kept)

  pub sum_by-delete_le :
      (w : A → ℕ) (p : A → Bool) (xs : List A) → sum_by w (delete_where p xs) ≤ sum_by w xs
  sum_by-delete_le w p [] = omega arith
  sum_by-delete_le w p (x ∷ xs) = ground (arith, sum_by-delete_le w p xs)

  -- What a DELETE leaves sums to nothing, if it deletes all that counts.
  pub sum_by-delete_all :
      (w : A → ℕ) (p : A → Bool) (xs : List A)
      → ((x : A) → p x ≡ false → w x ≡ 0)
      → sum_by w (delete_where p xs) ≡ 0
  sum_by-delete_all w p [] none_left = refl
  sum_by-delete_all w p (x ∷ xs) none_left =
      ground (arith, none_left x, sum_by-delete_all w p xs none_left)

  pub update_where-none :
      (p : A → Bool) (f : A → A) (xs : List A) → select? p xs ≡ none → update_where p f xs ≡ xs
  update_where-none p f [] e = refl
  update_where-none p f (x ∷ xs) e = ground (arith, update_where-none p f xs)

  pub exists-false : (p : A → Bool) (xs : List A) → exists p xs ≡ false → select? p xs ≡ none
  exists-false p [] e = refl
  exists-false p (x ∷ xs) e = ground (arith, exists-false p xs)

  pub exists-true :
      (p : A → Bool) (xs : List A) → exists p xs ≡ true → (r : A) × (select? p xs ≡ some r)
  exists-true p [] e = cc
  exists-true p (x ∷ xs) e = elim (Bool-cases (p x)) [
    | inl h ↦ (x, rw h)
    | inr h ↦ rw h (exists-true p xs (ground arith))
  ]

  pub sum_by_le : (v w : A → ℕ) (xs : List A) → All (λ x. v x ≤ w x) xs → sum_by v xs ≤ sum_by w xs
  sum_by_le v w [] all = omega arith
  sum_by_le v w (x ∷ xs) all = omega (arith, sum_by_le v w xs all.1)
