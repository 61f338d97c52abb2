-- ===== src/Prelude/Counts.antt =====
-- How writes change the number of rows that pass a test.
use Prim.Native.Nat.{◌≤◌, ◌<◌}
use mathlib.Core.Path.{◌≡◌, refl}
use mathlib.Core.Logic.{inl, inr}
use mathlib.Core.Bool.{Bool, true, false}
use mathlib.Core.Option.{some}
use mathlib.Core.List.{List, [], ◌∷◌}
use native.Mathlib.Omega.{arith}
use spacecraft_corporation.Prelude.Tests.{Bool-cases}
use spacecraft_corporation.Prelude.Rows.{select?, update_where, delete_where, count_where}

pub count_where-update :
    {A : Type 0} (p q : A → Bool) (f : A → A) (xs : List A)
    → ((x : A) → p (f x) ≡ true → p x ≡ true)
    → count_where p (update_where q f xs) ≤ count_where p xs
count_where-update p q f [] h = omega arith
count_where-update p q f (x ∷ xs) h =
    let rest = count_where-update p q f xs h in ground (arith, h x)

pub count_where-le :
    {A : Type 0} (p q : A → Bool) (xs : List A)
    → ((x : A) → p x ≡ true → q x ≡ true)
    → count_where p xs ≤ count_where q xs
count_where-le p q [] h = omega arith
count_where-le p q (x ∷ xs) h = ground (arith, count_where-le p q xs h, h x)

pub count_where-lt :
    {A : Type 0} (p q r : A → Bool) (xs : List A) {a : A}
    → ((x : A) → p x ≡ true → q x ≡ true)
    → select? r xs ≡ some a
    → p a ≡ false
    → q a ≡ true
    → count_where p xs < count_where q xs
count_where-lt p q r [] h e np qa = cc
count_where-lt p q r (x ∷ xs) {a} h e np qa = elim (Bool-cases (r x)) [
  | inl t ↦
      let found : x ≡ a = ground arith in
      let np' : p x ≡ false = rw found np in
      let qx : q x ≡ true = rw found qa in ground (arith, count_where-le p q xs h)
  | inr f ↦
      let rest : select? r xs ≡ some a = ground arith in
      ground (arith, count_where-lt p q r xs {a = a} h rest np qa, h x)
]

pub count_where-delete_le :
    {A : Type 0} (p q : A → Bool) (xs : List A)
    → count_where p (delete_where q xs) ≤ count_where p xs
count_where-delete_le p q [] = omega arith
count_where-delete_le p q (x ∷ xs) = ground (arith, count_where-delete_le p q xs)

pub count_where-ext :
    {A : Type 0} (p q : A → Bool) (xs : List A)
    → ((x : A) → p x ≡ q x)
    → count_where p xs ≡ count_where q xs
count_where-ext p q [] h = refl
count_where-ext p q (x ∷ xs) h = ground (arith, h x, count_where-ext p q xs h)
