-- ===== src/Roman/Tests.antt =====
-- The numeral of the year 2026.
use spacecraft_corporation.Prelude.{ℕ, String, ◌≡◌, refl, arith}
use spacecraft_corporation.Roman.{numeral}
use spacecraft_corporation.Roman.Places.{by_places, place, thousands, numeral-by_places}

abbrev itoa : ℕ → String
itoa n = "?"

by_places-year : by_places 2026 ≡ "MMXXVI"
unfolding by_places place thousands
by_places-year = refl

numeral-by_places_example : numeral itoa 2026 ≡ "MMXXVI"
unfolding by_places
numeral-by_places_example = numeral-by_places itoa 2026 (omega arith)
