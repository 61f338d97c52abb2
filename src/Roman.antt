-- ===== src/Roman.antt =====
-- Numeral of internal/roman/roman.go, for a number that is not negative.
pub mod Places
mod Tests
use spacecraft_corporation.Prelude.{
  text_append, ℕ, zero, suc, ◌-◌, String, List, [], ◌∷◌, leb, ltb, if◌then◌else◌, ◌++◌,
}

pub record Symbol : Type 0 where
  pub value : ℕ
  pub digit : String

abbrev pub symbol : ℕ → String → Symbol
symbol v d = record { value = v; digit = d }

unfoldable pub symbols : List Symbol
symbols =
    symbol 1000 "M"
    ∷ symbol 900 "CM"
    ∷ symbol 500 "D"
    ∷ symbol 400 "CD"
    ∷ symbol 100 "C"
    ∷ symbol 90 "XC"
    ∷ symbol 50 "L"
    ∷ symbol 40 "XL"
    ∷ symbol 10 "X"
    ∷ symbol 9 "IX"
    ∷ symbol 5 "V"
    ∷ symbol 4 "IV"
    ∷ symbol 1 "I"
    ∷ []

-- The inner loop: the symbols that it writes, and what is left of the number. Each round takes at
-- least one off, so the number itself is fuel enough.
unfoldable pub inner_loop : (fuel : ℕ) → Symbol → ℕ → List Symbol × ℕ
inner_loop zero s n = ([], n)
inner_loop (suc fuel) s n =
    let rest = inner_loop fuel s (n - s.value) in
    if leb s.value n then (s ∷ rest.0, rest.1) else ([], n)

-- The loop over the symbols.
unfoldable pub written : List Symbol → ℕ → List Symbol
unfolding inner_loop
written [] n = []
written (s ∷ ss) n = let r = inner_loop n s n in r.0 ++ written ss r.1

unfoldable pub digits : List Symbol → String
unfolding text_append
digits [] = ""
digits (s ∷ ss) = text_append s.digit (digits ss)

-- `itoa` is strconv.Itoa.
unfoldable pub numeral : (ℕ → String) → ℕ → String
unfolding digits written symbols
numeral itoa n = if ltb n 1 then itoa n else digits (written symbols n)
