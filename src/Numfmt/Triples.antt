-- ===== src/Numfmt/Triples.antt =====
-- The groups of groupThousands, described from the right.
use spacecraft_corporation.Prelude.{
  ℕ, zero, suc, ◌*◌, ◌/◌, ◌≤◌, ◌<◌, ◌-◌, ◌≡◌, refl, ap, ◌∙◌, subst, inl, inr, some, [], ◌∷◌, ◌++◌,
  length, leb, take, Bool-cases, arith,
}
use mathlib.Core.List.{append-nil, append_assoc}
use spacecraft_corporation.Numfmt.{Text, space, drop, lead, with_prefix, triples, group_thousands}

-- The digits in groups of three from the right, with a space before each group but the leftmost,
-- which has one to three digits.
pub data IsGrouped : Text → Text → Type 0 where
  leftmost : {s : Text} → 0 < length s → length s ≤ 3 → IsGrouped s s
  group :
      {s t : Text} (a b c : ℕ)
      → IsGrouped s t
      → IsGrouped (s ++ a ∷ b ∷ c ∷ []) (t ++ space ∷ a ∷ b ∷ c ∷ [])

triples-IsGrouped :
    (k : ℕ) (s t rest : Text)
    → length rest ≡ k * 3
    → IsGrouped s t
    → (r : Text) × (triples rest ≡ some r) × IsGrouped (s ++ rest) (t ++ r)
unfolding triples
triples-IsGrouped zero s t [] h g = ([], refl, rw (append-nil s, append-nil t) g)
triples-IsGrouped zero s t (a ∷ rest) h g = absurd (omega (arith, h))
triples-IsGrouped (suc k) s t [] h g = absurd (omega (arith, h))
triples-IsGrouped (suc k) s t (a ∷ []) h g = absurd (omega (arith, h))
triples-IsGrouped (suc k) s t (a ∷ b ∷ []) h g = absurd (omega (arith, h))
triples-IsGrouped (suc k) s t (a ∷ b ∷ c ∷ rest) h g =
    let next =
      triples-IsGrouped k (s ++ a ∷ b ∷ c ∷ []) (t ++ space ∷ a ∷ b ∷ c ∷ []) rest
        (omega (arith, h)) (IsGrouped.group a b c g) in
    (
      space ∷ a ∷ b ∷ c ∷ next.0,
      ap (with_prefix (space ∷ a ∷ b ∷ c ∷ [])) next.1,
      subst (λ u. IsGrouped u (t ++ space ∷ a ∷ b ∷ c ∷ next.0))
          (append_assoc s (a ∷ b ∷ c ∷ []) rest)
          (subst (λ u. IsGrouped ((s ++ a ∷ b ∷ c ∷ []) ++ rest) u)
            (append_assoc t (space ∷ a ∷ b ∷ c ∷ []) next.0) next.2),
    )

take-drop : (n : ℕ) (s : Text) → take n s ++ drop n s ≡ s
take-drop zero s = refl
take-drop (suc n) [] = refl
take-drop (suc n) (c ∷ s) = ap (λ r. c ∷ r) (take-drop n s)

length-take : (n : ℕ) (s : Text) → n ≤ length s → length (take n s) ≡ n
length-take zero s h = refl
length-take (suc n) [] h = absurd (omega (arith, h))
length-take (suc n) (c ∷ s) h = omega (arith, length-take n s (omega (arith, h)))

length-drop : (n : ℕ) (s : Text) → length (drop n s) ≡ length s - n
length-drop zero s = omega arith
length-drop (suc n) [] = omega arith
length-drop (suc n) (c ∷ s) = omega (arith, length-drop n s)

lead-bounds : (n : ℕ) → 3 < n → (0 < lead n) × (lead n ≤ 3) × (n - lead n ≡ (n - 1) / 3 * 3)
lead-bounds n h = ground arith

long :
    (s : Text)
    → 3 < length s
    → (t : Text) × (with_prefix (take (lead (length s)) s) (triples (drop (lead (length s)) s))
        ≡ some t)
      × IsGrouped s t
long s h =
    let b = lead-bounds (length s) h in
    let k = lead (length s) in
    let fits = length-take k s (omega (arith, h, b.1)) in
    let all =
      triples-IsGrouped ((length s - 1) / 3) (take k s) (take k s) (drop k s)
        (length-drop k s ∙ b.2) (IsGrouped.leftmost (rw fits b.0) (rw fits b.1)) in
    (
      take k s ++ all.0,
      ap (with_prefix (take k s)) all.1,
      subst (λ u. IsGrouped u (take k s ++ all.0)) (take-drop k s) all.2,
    )

-- groupThousands never slices beyond the end of a string of digits that is not empty, and what it
-- returns are the digits in groups of three from the right, the leftmost of one to three.
pub group_thousands-IsGrouped :
    (digits : Text)
    → 0 < length digits
    → (t : Text) × (group_thousands digits ≡ some t) × IsGrouped digits t
unfolding group_thousands
group_thousands-IsGrouped digits h = elim (Bool-cases (leb (length digits) 3)) [
  | inl e ↦ rw e (digits, refl, IsGrouped.leftmost h (ground (arith, e)))
  | inr e ↦ rw e (long digits (ground (arith, e)))
]
