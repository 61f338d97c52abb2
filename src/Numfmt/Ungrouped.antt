-- ===== src/Numfmt/Ungrouped.antt =====
-- Grouped changes nothing of what Fixed wrote but for the spaces that it inserts.
use spacecraft_corporation.Prelude.{
  ℕ, ◌≡◌, refl, ap, ◌∙◌, true, false, inl, inr, some, [], ◌∷◌, ◌++◌, ◌==◌, if◌then◌else◌, All,
  Bool-cases, arith,
}
use spacecraft_corporation.Numfmt.{
  Text, space, minus, point, with_prefix, with_suffix, sign, signed, cut, fraction, group_thousands,
  group_fixed, fixed, grouped,
}
use spacecraft_corporation.Numfmt.Triples.{IsGrouped, group_thousands-IsGrouped}

-- A text without its spaces.
unfoldable pub unspaced : Text → Text
unspaced [] = []
unspaced (c ∷ s) = let rest = unspaced s in if c == space then rest else c ∷ rest

abbrev pub HasNoSpace : Text → Type 0
HasNoSpace s = All (λ c. (c == space) ≡ false) s

unspaced-id : (s : Text) → HasNoSpace s → unspaced s ≡ s
unfolding unspaced
unspaced-id [] h = refl
unspaced-id (c ∷ s) h = rw h.0 (ap (λ r. c ∷ r) (unspaced-id s h.1))

unspaced-append : (s t : Text) → unspaced (s ++ t) ≡ unspaced s ++ unspaced t
unfolding unspaced
unspaced-append [] t = refl
unspaced-append (c ∷ s) t = elim (Bool-cases (c == space)) [
  | inl e ↦ rw e (unspaced-append s t)
  | inr e ↦ rw e (ap (λ r. c ∷ r) (unspaced-append s t))
]

unspaced-IsGrouped : (s t : Text) → IsGrouped s t → unspaced t ≡ unspaced s
unfolding unspaced
unspaced-IsGrouped s t (IsGrouped.leftmost g h) = refl
unspaced-IsGrouped _ _ (IsGrouped.group {s} {t} a b c g) =
    rw
      (
        unspaced-append s (a ∷ b ∷ c ∷ []),
        unspaced-append t (space ∷ a ∷ b ∷ c ∷ []),
        unspaced-IsGrouped s t g,
      )
      refl

unspaced-group_thousands :
    (digits : Text)
    → (t : Text) × (group_thousands digits ≡ some t) × (unspaced t ≡ unspaced digits)
unfolding group_thousands
unspaced-group_thousands [] = ([], refl, refl)
unspaced-group_thousands (c ∷ s) =
    let g = group_thousands-IsGrouped (c ∷ s) (omega arith) in
    (g.0, g.1, unspaced-IsGrouped (c ∷ s) g.0 g.2)

byte-eq : (c d : ℕ) → (c == d) ≡ true → d ≡ c
byte-eq c d e = ground arith

signed-whole : (s : Text) → sign (signed s).0 ++ (signed s).1 ≡ s
signed-whole [] = refl
signed-whole (c ∷ s) = elim (Bool-cases (c == minus)) [
  | inl e ↦ rw e (ap (λ r. r ∷ s) (byte-eq c minus e))
  | inr e ↦ rw e refl
]

cut-whole : (s : Text) → (cut s).0 ++ fraction (cut s).1 ≡ s
unfolding cut
cut-whole [] = refl
cut-whole (c ∷ s) = elim (Bool-cases (c == point)) [
  | inl e ↦ rw e (ap (λ r. r ∷ s) (byte-eq c point e))
  | inr e ↦ rw e (ap (λ r. c ∷ r) (cut-whole s))
]

unspaced-middle :
    (before t s after : Text)
    → unspaced t ≡ unspaced s
    → unspaced (before ++ (t ++ after)) ≡ unspaced (before ++ (s ++ after))
unspaced-middle before t s after h =
    rw
      (
        unspaced-append before (t ++ after),
        unspaced-append t after,
        h,
        unspaced-append before (s ++ after),
        unspaced-append s after,
      )
      refl

unspaced-group_fixed :
    (s : Text) → (t : Text) × (group_fixed s ≡ some t) × (unspaced t ≡ unspaced s)
unfolding group_fixed
unspaced-group_fixed s =
    let r = signed s in
    let parts = cut r.1 in
    let g = unspaced-group_thousands parts.0 in
    (
      sign r.0 ++ (g.0 ++ fraction parts.1),
      ap (λ o. with_prefix (sign r.0) (with_suffix (fraction parts.1) o)) g.1,
      unspaced-middle (sign r.0) g.0 parts.0 (fraction parts.1) g.2
          ∙ ap unspaced (ap (λ u. sign r.0 ++ u) (cut-whole r.1) ∙ signed-whole s),
    )

module _ {D P : Type 0} (truncate : D → P → D) (string_fixed : D → P → Text) where
  -- Where StringFixed writes no space, Grouped returns a text, and it is the one of Fixed once its
  -- spaces are taken out.
  pub unspaced-grouped :
      (d : D) (places : P)
      → HasNoSpace (fixed truncate string_fixed d places)
      → (t : Text) × (grouped truncate string_fixed d places ≡ some t)
        × (unspaced t ≡ fixed truncate string_fixed d places)
  unfolding grouped
  unspaced-grouped d places h =
      let s = fixed truncate string_fixed d places in
      let g = unspaced-group_fixed s in (g.0, g.1, g.2 ∙ unspaced-id s h)
