-- ===== src/Numfmt.antt =====
-- internal/numfmt/numfmt.go. A string is the list of its bytes; a slice beyond the end, which
-- panics, is none. The decimal library's Truncate and StringFixed are parameters.
pub mod Triples
pub mod Ungrouped
mod Tests
use spacecraft_corporation.Prelude.{
  ℕ, zero, suc, ◌%◌, Bool, true, false, Option, none, some, List, [], ◌∷◌, ◌++◌, length, leb, ◌==◌,
  if◌then◌else◌, take,
}

abbrev pub Text : Type 0
Text = List ℕ

-- The bytes of " ", "-" and ".".
abbrev pub space : ℕ
space = 32

abbrev pub minus : ℕ
minus = 45

abbrev pub point : ℕ
point = 46

-- s[n:], for n up to the length.
abbrev pub drop : ℕ → Text → Text
drop zero s = s
drop (suc n) [] = []
drop (suc n) (c ∷ s) = drop n s

abbrev pub lead : ℕ → ℕ
lead n = if n % 3 == 0 then 3 else n % 3

abbrev pub with_prefix : Text → Option Text → Option Text
with_prefix s none = none
with_prefix s (some t) = some (s ++ t)

-- The loop of groupThousands, on what digits[i:] is in each round.
unfoldable pub triples : Text → Option Text
triples [] = some []
triples (a ∷ []) = none
triples (a ∷ b ∷ []) = none
triples (a ∷ b ∷ c ∷ s) = with_prefix (space ∷ a ∷ b ∷ c ∷ []) (triples s)

unfoldable pub group_thousands : Text → Option Text
unfolding triples
group_thousands digits =
    let n = length digits in
    if leb n 3
    then some digits
    else with_prefix (take (lead n) digits) (triples (drop (lead n) digits))

-- strings.HasPrefix(s, "-"), and the string without it.
abbrev pub signed : Text → Bool × Text
signed [] = (false, [])
signed (c ∷ s) = if c == minus then (true, s) else (false, c ∷ s)

-- strings.Cut(s, "."): what stands before the first point, and what stands behind it.
unfoldable pub cut : Text → Text × Option Text
cut [] = ([], none)
cut (c ∷ s) = let r = cut s in if c == point then ([], some s) else (c ∷ r.0, r.1)

abbrev pub fraction : Option Text → Text
fraction none = []
fraction (some s) = point ∷ s

abbrev pub sign : Bool → Text
sign true = minus ∷ []
sign false = []

abbrev pub with_suffix : Text → Option Text → Option Text
with_suffix s none = none
with_suffix s (some t) = some (t ++ s)

-- The body of Grouped, on what Fixed returned.
unfoldable pub group_fixed : Text → Option Text
unfolding group_thousands cut
group_fixed s =
    let r = signed s in
    let parts = cut r.1 in
    with_prefix (sign r.0) (with_suffix (fraction parts.1) (group_thousands parts.0))

module _ {D P : Type 0} (truncate : D → P → D) (string_fixed : D → P → Text) where
  unfoldable pub fixed : D → P → Text
  fixed d places = string_fixed (truncate d places) places

  unfoldable pub grouped : D → P → Option Text
  unfolding fixed group_fixed
  grouped d places = group_fixed (fixed d places)
