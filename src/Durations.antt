-- ===== src/Durations.antt =====
-- The deadline modal of internal/features/contracts/contracts.go: parseDHMMinutes, atoiField,
-- dhmStrings and splitDHM. A duration is a number of nanoseconds.
pub mod RoundTrip
mod Tests
use spacecraft_corporation.Prelude.{
  ℕ, ◌+◌, ◌-◌, ◌*◌, ◌/◌, ◌%◌, ◌^◌, String, Bool, Option, none, some, List, [], ◌∷◌, ltb, ◌==◌,
  if◌then◌else◌, str_eq,
}
use spacecraft_corporation.Prelude.Tx.{Result, ok, err}

pub data DurationError : Type 0 where
  bad_duration : DurationError

-- What the standard library does: strings.TrimSpace, strconv.Atoi on what it accepts as a number
-- that is not negative, and strconv.Itoa.
pub record Text : Type 0 where
  pub trim_space : String → String
  pub atoi : String → Option ℕ
  pub itoa : ℕ → String

abbrev pub minute : ℕ
minute = 60000000000

abbrev pub hour : ℕ
hour = 60 * minute

-- An int64 product, where splitDHM sets a negative one to zero.
unfoldable pub clamped : ℕ → ℕ
clamped n = let r = n % 2 ^ 64 in if ltb r (2 ^ 63) then r else 0

unfoldable pub split_dhm : ℕ → ℕ × (ℕ × ℕ)
split_dhm d =
    let days = d / (24 * hour) in
    let rest = d - days * (24 * hour) in
    let hours = rest / hour in let left = rest - hours * hour in (days, (hours, left / minute))

module _ (text : Text) where
  number : Option ℕ → Result DurationError ℕ
  number none = err bad_duration
  number (some n) = ok n

  unfoldable pub atoi_field : String → Result DurationError ℕ
  unfolding number
  atoi_field s =
      if str_eq (text.trim_space s) "" then ok 0 else number (text.atoi (text.trim_space s))

  -- The 64 bits of the sum.
  total :
      Result DurationError ℕ
      → Result DurationError ℕ
      → Result DurationError ℕ
      → Result DurationError ℕ
  total (err e) h m = err e
  total (ok d) (err e) m = err e
  total (ok d) (ok h) (err e) = err e
  total (ok d) (ok h) (ok m) = ok ((d * 24 * 60 + h * 60 + m) % 2 ^ 64)

  unfoldable pub parse_dhm_minutes : (days hours mins : String) → Result DurationError ℕ
  unfolding total atoi_field
  parse_dhm_minutes days hours mins = total (atoi_field days) (atoi_field hours) (atoi_field mins)

  unfoldable pub dhm_strings : ℕ → String × (String × String)
  unfolding split_dhm clamped
  dhm_strings minutes =
      if minutes == 0
      then ("", ("", ""))
      else let s = split_dhm (clamped (minutes * minute)) in
        (text.itoa s.0, (text.itoa s.1.0, text.itoa s.1.1))
