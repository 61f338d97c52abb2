-- ===== src/Prelude/Every.antt =====
-- What holds of every row that a query gives.
use Prim.Native.Nat.{ℕ, zero, suc}
use mathlib.Core.Path.{◌≡◌}
use mathlib.Core.Logic.{inl, inr}
use mathlib.Core.Bool.{Bool, true}
use mathlib.Core.List.{List, [], ◌∷◌, map}
use native.Mathlib.Omega.{arith}
use spacecraft_corporation.Prelude.Tests.{Bool-cases}
use spacecraft_corporation.Prelude.Lists.{All, take}
use spacecraft_corporation.Prelude.Rows.{select_all, count_where}
use spacecraft_corporation.Prelude.Order.{skip}

module _ {A : Type 0} where
  pub select_all-All : (p : A → Bool) (xs : List A) → All (λ x. p x ≡ true) (select_all p xs)
  select_all-All p [] = tt
  select_all-All p (x ∷ xs) = elim (Bool-cases (p x)) [
    | inl e ↦ rw e (e, select_all-All p xs)
    | inr e ↦ rw e (select_all-All p xs)
  ]

  pub select_all-both {κ} :
      (p : A → Bool) (P : A → Type κ) (xs : List A)
      → All P xs
      → All (λ x. P x × (p x ≡ true)) (select_all p xs)
  select_all-both p P [] h = tt
  select_all-both p P (x ∷ xs) h = elim (Bool-cases (p x)) [
    | inl e ↦ rw e ((h.0, e), select_all-both p P xs h.1)
    | inr e ↦ rw e (select_all-both p P xs h.1)
  ]

  pub skip-All {κ} : (P : A → Type κ) (n : ℕ) (xs : List A) → All P xs → All P (skip n xs)
  unfolding skip
  skip-All P zero xs h = h
  skip-All P (suc n) [] h = tt
  skip-All P (suc n) (x ∷ xs) h = skip-All P n xs h.1

  pub take-All {κ} : (P : A → Type κ) (n : ℕ) (xs : List A) → All P xs → All P (take n xs)
  take-All P zero xs h = tt
  take-All P (suc n) [] h = tt
  take-All P (suc n) (x ∷ xs) h = (h.0, take-All P n xs h.1)

  pub All-both {κ} :
      (P Q : A → Type κ) (xs : List A) → All P xs → All Q xs → All (λ x. P x × Q x) xs
  All-both P Q [] h k = tt
  All-both P Q (x ∷ xs) h k = ((h.0, k.0), All-both P Q xs h.1 k.1)

pub All-image :
    {A B : Type 0} (P : B → Type 0) (f : A → B) (xs : List A)
    → All (λ x. P (f x)) xs
    → All P (map f xs)
All-image P f [] h = tt
All-image P f (x ∷ xs) h = (h.0, All-image P f xs h.1)

-- A test that no row passes is none's premise.
pub All-vacuous {κ} :
    {A : Type 0} (p : A → Bool) (P : A → Type κ) (xs : List A)
    → count_where p xs ≡ 0
    → All (λ x. p x ≡ true → P x) xs
All-vacuous p P [] e = tt
All-vacuous p P (x ∷ xs) e = (λ h. absurd (ground arith), All-vacuous p P xs (ground arith))
