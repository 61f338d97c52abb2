-- ===== src/Numfmt/Tests.antt =====
-- The amounts -1000000.50 and 1234.
use spacecraft_corporation.Prelude.{ℕ, ◌≡◌, refl, some, [], ◌∷◌, arith}
use spacecraft_corporation.Numfmt.{Text, group_thousands, group_fixed, fixed, grouped}
use spacecraft_corporation.Numfmt.Triples.{IsGrouped, group_thousands-IsGrouped}
use spacecraft_corporation.Numfmt.Ungrouped.{unspaced, HasNoSpace, unspaced-grouped}

abbrev digits : Text
digits = 49 ∷ 50 ∷ 51 ∷ 52 ∷ []

abbrev amount : Text
amount = 45 ∷ 49 ∷ 48 ∷ 48 ∷ 48 ∷ 48 ∷ 48 ∷ 48 ∷ 46 ∷ 53 ∷ 48 ∷ []

group_fixed-amount :
    group_fixed amount ≡ some (45 ∷ 49 ∷ 32 ∷ 48 ∷ 48 ∷ 48 ∷ 32 ∷ 48 ∷ 48 ∷ 48 ∷ 46 ∷ 53 ∷ 48 ∷ [])
unfolding group_fixed
group_fixed-amount = refl

-- A decimal library whose numbers are their digits.
abbrev truncated : Text → ℕ → Text
truncated s places = s

group_thousands-IsGrouped_example :
    (t : Text) × (group_thousands digits ≡ some t) × IsGrouped digits t
group_thousands-IsGrouped_example = group_thousands-IsGrouped digits (omega arith)

amount-HasNoSpace : HasNoSpace amount
amount-HasNoSpace =
    (refl, (refl, (refl, (refl, (refl, (refl, (refl, (refl, (refl, (refl, (refl, tt)))))))))))

unspaced-grouped_example :
    (t : Text) × (grouped truncated truncated amount 2 ≡ some t)
    × (unspaced t ≡ fixed truncated truncated amount 2)
unfolding fixed
unspaced-grouped_example = unspaced-grouped truncated truncated amount 2 amount-HasNoSpace
