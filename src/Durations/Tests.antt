-- ===== src/Durations/Tests.antt =====
-- Two days and ninety minutes, with numbers written as strokes.
use spacecraft_corporation.Prelude.{
  ℕ, zero, suc, String, ◌≡◌, refl, ap, false, Option, none, some, str_eq, arith, eq_iff, Bool-cases,
  inl, inr,
}
use spacecraft_corporation.Prelude.Tx.{ok}
use spacecraft_corporation.Durations.{Text, parse_dhm_minutes, dhm_strings}
use spacecraft_corporation.Durations.RoundTrip.{ReadsBack, dhm_strings-parse}

strokes : ℕ → String
strokes zero = "|"
strokes (suc n) = String.◌∷◌ "|" (strokes n)

more : Option ℕ → Option ℕ
more none = some 0
more (some n) = some (suc n)

count : String → Option ℕ
count String.[] = none
count (String.◌∷◌ c s) = more (count s)

abbrev text : Text
text = record { trim_space = λ s. s; atoi = count; itoa = strokes }

count-strokes : (n : ℕ) → count (strokes n) ≡ some n
unfolding count strokes more
count-strokes zero = refl
count-strokes (suc n) = ap more (count-strokes n)

strokes-filled : (n : ℕ) → str_eq (strokes n) "" ≡ false
unfolding count
strokes-filled n = elim (Bool-cases (str_eq (strokes n) "")) [
  | inl h ↦
      let e : strokes n ≡ "" = ground (arith, eq_iff (strokes n) "") in
      let nothing : count (strokes n) ≡ none = ap count e in
      ground (arith, nothing, count-strokes n)
  | inr h ↦ h
]

text-ReadsBack : ReadsBack text
text-ReadsBack = record {
  trim_empty = refl;
  trim_itoa = λ n. refl;
  itoa_filled = strokes-filled;
  atoi_itoa = λ n _. count-strokes n;
}

dhm_strings-parse_example :
    parse_dhm_minutes text
      (dhm_strings text 2970).0
      (dhm_strings text 2970).1.0
      (dhm_strings text 2970).1.1
    ≡ ok 2970
dhm_strings-parse_example = dhm_strings-parse text text-ReadsBack 2970 (omega arith)
