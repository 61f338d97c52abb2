-- ===== src/Feature/Total.antt =====
-- resolve returns: the fuel is enough for every catalog, also one with cycles.
use spacecraft_corporation.Prelude.{
  ℕ, zero, suc, ◌+◌, ◌≤◌, ◌<◌, String, ◌≡◌, ◌⊎◌, refl, Bool, true, false, not, inl, inr, Option,
  none, some, List, [], ◌∷◌, arith, length, eq_iff, text_in, Bool-cases,
}
use spacecraft_corporation.Prelude.Rows.{count_where}
use spacecraft_corporation.Prelude.Counts.{count_where-le, count_where-lt}
use spacecraft_corporation.Feature.{
  Feature, Visit, Outcome, is_named, lookup, then_visit, each, enter, leave, expand, visit, resolve,
}

abbrev pub Grows : Visit → Visit → Type 0
Grows v w = (x : String) → text_in x v.seen ≡ true → text_in x w.seen ≡ true

-- The search has not run out of fuel, and whatever it has seen stays seen.
abbrev pub Returns : Visit → Outcome → Type 0
Returns v (Outcome.done w) = Grows v w
Returns v (Outcome.unknown n) = Unit
Returns v Outcome.out_of_fuel = true ≡ false

found-named :
    (features : List Feature) (n : String) {x : Feature} → lookup features n ≡ some x → x.name ≡ n
unfolding lookup
found-named [] n e = cc
found-named (f ∷ fs) n {x} e = elim (Bool-cases (is_named n f)) [
  | inl t ↦ ground (arith, eq_iff f.name n)
  | inr t ↦ found-named fs n {x = x} (ground arith)
]

Returns-trans : (v w : Visit) (o : Outcome) → Grows v w → Returns w o → Returns v o
Returns-trans v w (Outcome.done u) g r = λ x e. r x (g x e)
Returns-trans v w (Outcome.unknown n) g r = tt
Returns-trans v w Outcome.out_of_fuel g r = r

then_visit-Returns :
    (v : Visit) (o : Outcome) (k : Visit → Outcome)
    → Returns v o
    → ((w : Visit) → Grows v w → Returns w (k w))
    → Returns v (then_visit o k)
then_visit-Returns v (Outcome.done w) k r h = Returns-trans v w (k w) r (h w r)
then_visit-Returns v (Outcome.unknown n) k r h = tt
then_visit-Returns v Outcome.out_of_fuel k r h = r

module _ (features : List Feature) where
  abbrev is_unseen : Visit → Feature → Bool
  is_unseen v f = not (text_in f.name v.seen)

  abbrev unseen : Visit → ℕ
  unseen v = count_where (is_unseen v) features

  unseen-Grows : (v w : Visit) → Grows v w → unseen w ≤ unseen v
  unseen-Grows v w g =
      count_where-le (is_unseen w) (is_unseen v) features (λ f e. ground (arith, g f.name))

  enter-Grows : (n : String) (v : Visit) → Grows v (enter n v)
  enter-Grows n v x e = ground arith

  enter-unseen :
      (n : String) (v : Visit) {x : Feature}
      → text_in n v.seen ≡ false
      → lookup features n ≡ some x
      → unseen (enter n v) < unseen v
  unfolding lookup
  enter-unseen n v {x} fresh e =
      let same : x.name ≡ n = found-named features n e in
      count_where-lt (is_unseen (enter n v)) (is_unseen v) (is_named n) features {a = x}
        (λ f h. ground arith) e (rw same (ground (arith, eq_iff n n))) (rw same (ground arith))

  each-Returns :
      (f : Visit → String → Outcome) (most : ℕ)
      → ((v : Visit) (n : String) → unseen v ≤ most → Returns v (f v n))
      → (ns : List String) (v : Visit) → unseen v ≤ most
      → Returns v (each f ns v)
  unfolding each
  each-Returns f most h [] v room = λ x e. e
  each-Returns f most h (n ∷ ns) v room =
      then_visit-Returns v (f v n) (each f ns) (h v n room)
        (λ w g. each-Returns f most h ns w (omega (arith, unseen-Grows v w g)))

  expand-Returns :
      (fuel : ℕ) (n : String) (v : Visit) (found : Option Feature)
      → lookup features n ≡ found
      → text_in n v.seen ≡ false
      → unseen v ≤ fuel
      → ((w : Visit) (m : String) → unseen w + 1 ≤ fuel → Returns w (visit features fuel w m))
      → Returns v (expand (visit features fuel) n v found)
  expand-Returns fuel n v none e fresh room h = tt
  expand-Returns fuel n v (some x) e fresh room h =
      let less = enter-unseen n v {x = x} fresh e in
      let inside =
        each-Returns (visit features fuel) (unseen (enter n v))
          (λ w m le. h w m (omega (arith, le, less))) x.requires (enter n v) (omega arith) in
      Returns-trans v (enter n v) _ (enter-Grows n v) (
        then_visit-Returns (enter n v) (each (visit features fuel) x.requires (enter n v))
          (λ w. Outcome.done (leave n w)) inside (λ w g y t. t))

  visit-Returns :
      (fuel : ℕ) (v : Visit) (n : String)
      → unseen v + 1 ≤ fuel
      → Returns v (visit features fuel v n)
  unfolding visit
  visit-Returns zero v n room = absurd (omega arith)
  visit-Returns (suc fuel) v n room = elim (Bool-cases (text_in n v.seen)) [
    | inl t ↦ rw t (λ x e. e)
    | inr fresh ↦ rw fresh (
        expand-Returns fuel n v (lookup features n) refl fresh (omega arith)
          (λ w m le. visit-Returns fuel w m le))
  ]

  unseen-le : (v : Visit) (fs : List Feature) → count_where (is_unseen v) fs ≤ length fs
  unseen-le v [] = omega arith
  unseen-le v (f ∷ fs) = ground (arith, unseen-le v fs)

  blank : Visit
  blank = record { seen = []; out = [] }

  resolve-Returns : (selected : List String) → Returns blank (resolve features selected)
  unfolding resolve blank
  resolve-Returns selected =
      each-Returns (visit features (suc (length features))) (length features)
        (λ v n le. visit-Returns (suc (length features)) v n (omega (arith, le))) selected blank
        (unseen-le blank features)

  -- For every catalog, with cycles or without, and every selection: resolve returns, with the
  -- features or with the name of an unknown one.
  pub resolve-total :
      (selected : List String)
      → ((w : Visit) × (resolve features selected ≡ Outcome.done w))
        ⊎ ((n : String) × (resolve features selected ≡ Outcome.unknown n))
  resolve-total selected = returned (resolve features selected) refl (resolve-Returns selected)
    where
      returned :
          (o : Outcome)
          → resolve features selected ≡ o
          → Returns blank o
          → ((w : Visit) × (resolve features selected ≡ Outcome.done w))
            ⊎ ((n : String) × (resolve features selected ≡ Outcome.unknown n))
      returned (Outcome.done w) e r = inl (w, e)
      returned (Outcome.unknown n) e r = inr (n, e)
      returned Outcome.out_of_fuel e r = cc
