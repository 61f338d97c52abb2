-- ===== src/Durations/RoundTrip.antt =====
-- The prefilled deadline modal reads back as the minutes that it was filled with.
use spacecraft_corporation.Prelude.{
  ℕ, ◌+◌, ◌*◌, ◌%◌, ◌^◌, ◌<◌, ◌≡◌, refl, ap, ◌∙◌, true, false, inl, inr, some, ◌==◌, str_eq,
  Bool-cases, arith,
}
use spacecraft_corporation.Prelude.Tx.{ok}
use spacecraft_corporation.Durations.{
  Text, minute, clamped, split_dhm, atoi_field, parse_dhm_minutes, dhm_strings,
}

-- The three parts of a whole number of minutes: hours below a day, minutes below an hour, and
-- together the minutes.
split_dhm-total :
    (m : ℕ)
    → ((split_dhm (m * minute)).0 * 24 * 60
          + (split_dhm (m * minute)).1.0 * 60
          + (split_dhm (m * minute)).1.1
        ≡ m)
      × ((split_dhm (m * minute)).1.0 < 24)
      × ((split_dhm (m * minute)).1.1 < 60)
unfolding split_dhm
split_dhm-total m = (omega arith, omega arith, omega arith)

split_dhm-small :
    (m : ℕ)
    → m * minute < 2 ^ 63
    → ((split_dhm (m * minute)).0 < 2 ^ 63)
      × ((split_dhm (m * minute)).1.0 < 2 ^ 63)
      × ((split_dhm (m * minute)).1.1 < 2 ^ 63)
split_dhm-small m fits =
    let parts = split_dhm-total m in
    (omega (arith, parts.0, fits), omega (arith, parts.1), omega (arith, parts.2))

small : (m : ℕ) → m * minute < 2 ^ 63 → m % 2 ^ 64 ≡ m
small m h = ground arith

clamped-id : (n : ℕ) → n < 2 ^ 63 → clamped n ≡ n
unfolding clamped
clamped-id n h = ground arith

-- What strings.TrimSpace, strconv.Itoa and strconv.Atoi do with the digits of a number. Atoi reads
-- back what fits in an int.
pub record ReadsBack (text : Text) : Type 0 where
  pub trim_empty : text.trim_space "" ≡ ""
  pub trim_itoa : (n : ℕ) → text.trim_space (text.itoa n) ≡ text.itoa n
  pub itoa_filled : (n : ℕ) → str_eq (text.itoa n) "" ≡ false
  pub atoi_itoa : (n : ℕ) → n < 2 ^ 63 → text.atoi (text.itoa n) ≡ some n

module _ (text : Text) (reads : ReadsBack text) where
  atoi_field-itoa : (n : ℕ) → n < 2 ^ 63 → atoi_field text (text.itoa n) ≡ ok n
  unfolding atoi_field
  atoi_field-itoa n h = rw (reads.trim_itoa n, reads.itoa_filled n, reads.atoi_itoa n h) refl

  atoi_field-empty : atoi_field text "" ≡ ok 0
  unfolding atoi_field
  atoi_field-empty = rw reads.trim_empty refl

  parse-itoa :
      (d h m : ℕ)
      → d < 2 ^ 63
      → h < 2 ^ 63
      → m < 2 ^ 63
      → parse_dhm_minutes text (text.itoa d) (text.itoa h) (text.itoa m)
        ≡ ok ((d * 24 * 60 + h * 60 + m) % 2 ^ 64)
  unfolding parse_dhm_minutes
  parse-itoa d h m fits fits' fits'' =
      rw (atoi_field-itoa d fits, atoi_field-itoa h fits', atoi_field-itoa m fits'') refl

  parse-empty : parse_dhm_minutes text "" "" "" ≡ ok 0
  unfolding parse_dhm_minutes
  parse-empty = rw atoi_field-empty refl

  zero_minutes : (m : ℕ) → (m == 0) ≡ true → 0 ≡ m
  zero_minutes m z = ground arith

  -- When Itoa, Atoi and TrimSpace read back the digits of a number, and the minutes fit in a
  -- duration of 64 bits: parsing the three prefilled fields gives the minutes.
  pub dhm_strings-parse :
      (m : ℕ)
      → m * minute < 2 ^ 63
      → parse_dhm_minutes text
          (dhm_strings text m).0
          (dhm_strings text m).1.0
          (dhm_strings text m).1.1
        ≡ ok m
  unfolding dhm_strings
  dhm_strings-parse m fits = elim (Bool-cases (m == 0)) [
    | inl z ↦ rw z (parse-empty ∙ ap ok (zero_minutes m z))
    | inr nz ↦
        let below = split_dhm-small m fits in
        rw (nz, clamped-id (m * minute) fits)
          (parse-itoa _ _ _ (below.0) (below.1) (below.2)
            ∙ ap ok (ap (λ x. x % 2 ^ 64) (split_dhm-total m).0 ∙ small m fits))
  ]
