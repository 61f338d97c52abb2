-- ===== src/Roman/Places.antt =====
-- Numeral against the numeral that is read off the decimal places of the number.
use spacecraft_corporation.Prelude.{
  ℕ, zero, suc, ◌+◌, ◌-◌, ◌*◌, ◌/◌, ◌%◌, ◌≤◌, ◌<◌, String, true, false, ◌≡◌, refl, ap, sym, ◌∙◌,
  List, [], ◌∷◌, leb, ltb, ◌++◌, arith, text_append, text_append_assoc,
}
use spacecraft_corporation.Roman.{Symbol, symbol, symbols, inner_loop, written, digits, numeral}

abbrev pub at : ℕ → List String → String
at zero (s ∷ ss) = s
at (suc n) (s ∷ ss) = at n ss
at n [] = ""

-- A decimal digit in the letters of its place: those of one, five and ten.
unfoldable pub place : (one five ten : String) → ℕ → String
unfolding text_append
place i v x d = at d (
    ""
    ∷ i
    ∷ text_append i i
    ∷ text_append i (text_append i i)
    ∷ text_append i v
    ∷ v
    ∷ text_append v i
    ∷ text_append v (text_append i i)
    ∷ text_append v (text_append i (text_append i i))
    ∷ text_append i x
    ∷ [])

unfoldable pub thousands : ℕ → String
unfolding text_append
thousands zero = ""
thousands (suc n) = text_append "M" (thousands n)

-- The thousands, and then the three other places.
unfoldable pub by_places : ℕ → String
unfolding place thousands
by_places n = text_append (thousands (n / 1000)) (
    text_append (place "C" "D" "M" (n / 100 % 10))
      (text_append (place "X" "L" "C" (n / 10 % 10)) (place "I" "V" "X" (n % 10))))

copies : ℕ → Symbol → List Symbol
copies zero s = []
copies (suc q) s = s ∷ copies q s

abbrev worth : ℕ → ℕ → ℕ
worth zero v = 0
worth (suc q) v = v + worth q v

-- The loop takes off as many of a symbol as go into the number.
inner_loop-copies :
    (fuel q : ℕ) (s : Symbol) (r n : ℕ)
    → n ≡ worth q s.value + r
    → r < s.value
    → n ≤ fuel
    → inner_loop fuel s n ≡ (copies q s, r)
unfolding inner_loop copies
inner_loop-copies zero zero s r n e small enough = ap (λ m. ([], m)) (omega (arith, e))
inner_loop-copies zero (suc q) s r n e small enough = absurd (omega (arith, e, small, enough))
inner_loop-copies (suc fuel) zero s r n e small enough =
    let over : leb s.value n ≡ false = ground (arith, e, small) in
    rw over (ap (λ m. ([], m)) (omega (arith, e)))
inner_loop-copies (suc fuel) (suc q) s r n e small enough =
    let room : leb s.value n ≡ true = ground (arith, e) in
    let rest =
      inner_loop-copies fuel q s r (n - s.value) (omega (arith, e)) small
        (omega (arith, e, small, enough)) in
    rw (room, rest) refl

written-copies :
    (q : ℕ) (s : Symbol) (ss : List Symbol) (r n : ℕ)
    → n ≡ worth q s.value + r
    → r < s.value
    → written (s ∷ ss) n ≡ copies q s ++ written ss r
unfolding written
written-copies q s ss r n e small = rw (inner_loop-copies n q s r n e small (omega arith)) refl

digits-append : (xs ys : List Symbol) → digits (xs ++ ys) ≡ text_append (digits xs) (digits ys)
unfolding digits text_append
digits-append [] ys = refl
digits-append (x ∷ xs) ys =
    ap (text_append x.digit) (digits-append xs ys)
    ∙ sym (text_append_assoc x.digit (digits xs) (digits ys))

-- The symbols of a place: nine, five, four and one units.
abbrev symbols_of : (unit : ℕ) (one five ten : String) → List Symbol → List Symbol
symbols_of u i v x ss =
    symbol (9 * u) (text_append i x)
    ∷ symbol (5 * u) v
    ∷ symbol (4 * u) (text_append i v)
    ∷ symbol u i
    ∷ ss

-- How many of each go into a number below ten units.
module _ (u : ℕ) (i v x : String) (ss : List Symbol) (r : ℕ) (small : r < u) where
  place-copies :
      (q9 q5 q4 q1 n : ℕ)
      → n ≡ worth q9 (9 * u) + (worth q5 (5 * u) + (worth q4 (4 * u) + (worth q1 u + r)))
      → worth q1 u + r < 4 * u
      → worth q4 (4 * u) + (worth q1 u + r) < 5 * u
      → worth q5 (5 * u) + (worth q4 (4 * u) + (worth q1 u + r)) < 9 * u
      → written (symbols_of u i v x ss) n
        ≡ copies q9 (symbol (9 * u) (text_append i x))
          ++ (copies q5 (symbol (5 * u) v)
              ++ (copies q4 (symbol (4 * u) (text_append i v))
                  ++ (copies q1 (symbol u i) ++ written ss r)))
  place-copies q9 q5 q4 q1 n e h4 h5 h9 =
      written-copies q9 (symbol (9 * u) (text_append i x)) _ _ n e h9
      ∙ ap (λ l. copies q9 (symbol (9 * u) (text_append i x)) ++ l)
          (written-copies q5 (symbol (5 * u) v) _ _ _ refl h5
            ∙ ap (λ l. copies q5 (symbol (5 * u) v) ++ l)
                (written-copies q4 (symbol (4 * u) (text_append i v)) _ _ _ refl h4
                  ∙ ap (λ l. copies q4 (symbol (4 * u) (text_append i v)) ++ l)
                      (written-copies q1 (symbol u i) ss r _ refl small)))

  place-digits :
      (q9 q5 q4 q1 n : ℕ)
      → n ≡ worth q9 (9 * u) + (worth q5 (5 * u) + (worth q4 (4 * u) + (worth q1 u + r)))
      → worth q1 u + r < 4 * u
      → worth q4 (4 * u) + (worth q1 u + r) < 5 * u
      → worth q5 (5 * u) + (worth q4 (4 * u) + (worth q1 u + r)) < 9 * u
      → (t : String)
      → digits (
          copies q9 (symbol (9 * u) (text_append i x))
          ++ (copies q5 (symbol (5 * u) v)
              ++ (copies q4 (symbol (4 * u) (text_append i v))
                  ++ (copies q1 (symbol u i) ++ written ss r))))
        ≡ text_append t (digits (written ss r))
      → digits (written (symbols_of u i v x ss) n) ≡ text_append t (digits (written ss r))
  place-digits q9 q5 q4 q1 n e h4 h5 h9 t h = ap digits (place-copies q9 q5 q4 q1 n e h4 h5 h9) ∙ h

  digits-place :
      (d : ℕ)
      → d < 10
      → digits (written (symbols_of u i v x ss) (worth d u + r))
        ≡ text_append (place i v x d) (digits (written ss r))
  unfolding digits place copies text_append
  digits-place zero h =
      place-digits 0 0 0 0 _ (omega arith) (omega arith) (omega arith) (omega arith) (place i v x 0)
        refl
  digits-place (suc zero) h =
      place-digits 0 0 0 1 _ (omega arith) (omega arith) (omega arith) (omega arith) (place i v x 1)
        refl
  digits-place (suc (suc zero)) h =
      place-digits 0 0 0 2 _ (omega arith) (omega arith) (omega arith) (omega arith) (place i v x 2)
        (rw text_append_assoc refl)
  digits-place (suc (suc (suc zero))) h =
      place-digits 0 0 0 3 _ (omega arith) (omega arith) (omega arith) (omega arith) (place i v x 3)
        (rw (text_append_assoc, text_append_assoc) refl)
  digits-place (suc (suc (suc (suc zero)))) h =
      place-digits 0 0 1 0 _ (omega arith) (omega arith) (omega arith) (omega arith) (place i v x 4)
        refl
  digits-place (suc (suc (suc (suc (suc zero))))) h =
      place-digits 0 1 0 0 _ (omega arith) (omega arith) (omega arith) (omega arith) (place i v x 5)
        refl
  digits-place (suc (suc (suc (suc (suc (suc zero)))))) h =
      place-digits 0 1 0 1 _ (omega arith) (omega arith) (omega arith) (omega arith) (place i v x 6)
        (rw text_append_assoc refl)
  digits-place (suc (suc (suc (suc (suc (suc (suc zero))))))) h =
      place-digits 0 1 0 2 _ (omega arith) (omega arith) (omega arith) (omega arith) (place i v x 7)
        (rw (text_append_assoc, text_append_assoc) refl)
  digits-place (suc (suc (suc (suc (suc (suc (suc (suc zero)))))))) h =
      place-digits 0 1 0 3 _ (omega arith) (omega arith) (omega arith) (omega arith) (place i v x 8)
        (rw (text_append_assoc, text_append_assoc, text_append_assoc) refl)
  digits-place (suc (suc (suc (suc (suc (suc (suc (suc (suc zero))))))))) h =
      place-digits 1 0 0 0 _ (omega arith) (omega arith) (omega arith) (omega arith) (place i v x 9)
        refl
  digits-place (suc (suc (suc (suc (suc (suc (suc (suc (suc (suc d)))))))))) h =
      absurd (omega (arith, h))

abbrev ones : List Symbol
ones = symbols_of 1 "I" "V" "X" []

abbrev tens : List Symbol
tens = symbols_of 10 "X" "L" "C" ones

abbrev hundreds : List Symbol
hundreds = symbols_of 100 "C" "D" "M" tens

symbols-places : symbols ≡ symbol 1000 "M" ∷ hundreds
unfolding symbols text_append
symbols-places = refl

worth_mul : (d u : ℕ) → worth d u ≡ d * u
worth_mul zero u = ground arith
worth_mul (suc d) u = ground (arith, worth_mul d u)

digits-thousands :
    (q : ℕ) (ss : List Symbol)
    → digits (copies q (symbol 1000 "M") ++ ss) ≡ text_append (thousands q) (digits ss)
unfolding digits copies thousands text_append
digits-thousands zero ss = refl
digits-thousands (suc q) ss = ap (text_append "M") (digits-thousands q ss)

text_append-empty : (s : String) → text_append s "" ≡ s
unfolding text_append
text_append-empty String.[] = refl
text_append-empty (String.◌∷◌ c s) = ap (String.◌∷◌ c) (text_append-empty s)

ones-place : (d : ℕ) → d < 10 → digits (written ones (worth d 1 + 0)) ≡ place "I" "V" "X" d
unfolding digits written
ones-place d h =
    digits-place 1 "I" "V" "X" [] 0 (omega arith) d h ∙ text_append-empty (place "I" "V" "X" d)

digits-places :
    (a b c d : ℕ)
    → b < 10
    → c < 10
    → d < 10
    → digits (written symbols (worth a 1000 + (worth b 100 + (worth c 10 + (worth d 1 + 0)))))
      ≡ text_append (thousands a) (
          text_append
            (place "C" "D" "M" b)
            (text_append (place "X" "L" "C" c) (place "I" "V" "X" d)))
digits-places a b c d hb hc hd =
    let lb = worth_mul b 100 in
    let lc = worth_mul c 10 in
    let ld = worth_mul d 1 in
    ap (λ ss. digits (written ss (worth a 1000 + (worth b 100 + (worth c 10 + (worth d 1 + 0))))))
      symbols-places
    ∙ ap digits (
        written-copies a (symbol 1000 "M") hundreds _ _ refl
          (omega (arith, lb, lc, ld, hb, hc, hd)))
    ∙ digits-thousands a (written hundreds _)
    ∙ ap (text_append (thousands a)) (
        digits-place 100 "C" "D" "M" tens _ (omega (arith, lc, ld, hc, hd)) b hb
        ∙ ap (text_append (place "C" "D" "M" b)) (
            digits-place 10 "X" "L" "C" ones _ (omega (arith, ld, hd)) c hc
            ∙ ap (text_append (place "X" "L" "C" c)) (ones-place d hd)))

decimal :
    (n : ℕ)
    → n
      ≡ worth (n / 1000) 1000
        + (worth (n / 100 % 10) 100 + (worth (n / 10 % 10) 10 + (worth (n % 10) 1 + 0)))
decimal n = omega (
  arith,
  worth_mul (n / 1000) 1000,
  worth_mul (n / 100 % 10) 100,
  worth_mul (n / 10 % 10) 10,
  worth_mul (n % 10) 1,
)

numeral-written : (itoa : ℕ → String) (n : ℕ) → 0 < n → numeral itoa n ≡ digits (written symbols n)
unfolding numeral
numeral-written itoa n pos = let above : ltb n 1 ≡ false = ground arith in rw above refl

-- For a number from one on, Numeral writes the letters of its thousands, and then its hundreds, tens
-- and ones, each digit in the letters of its place.
pub numeral-by_places : (itoa : ℕ → String) (n : ℕ) → 0 < n → numeral itoa n ≡ by_places n
unfolding by_places
numeral-by_places itoa n pos =
    numeral-written itoa n pos
    ∙ ap (λ m. digits (written symbols m)) (decimal n)
    ∙ digits-places (n / 1000) (n / 100 % 10) (n / 10 % 10) (n % 10) (omega arith) (omega arith)
        (omega arith)
