-- ===== src/Settings/Tests.antt =====
-- The settings of a server that has chosen a theme which no longer exists, with a cache of one
-- server.
use spacecraft_corporation.Prelude.{
  String, ◌≡◌, Bool, true, false, none, some, List, [], ◌∷◌, arith, str_eq,
}
use spacecraft_corporation.Cache.{IsCoherent}
use spacecraft_corporation.Cache.One.{one}
use spacecraft_corporation.Settings.{Row, get, Change, blank_row, upsert}
use spacecraft_corporation.Settings.Columns.{changed, get-upsert, get-upsert_other}
use spacecraft_corporation.Settings.Store.{
  Event, effective_of, stored, Readings, readings, readings-stored,
}

abbrev rows : List Row
rows = record (blank_row 1 7 10) { theme = some "old"; supply_limit = some 4 } ∷ []

is_pirate : String → Bool
is_pirate s = str_eq s "pirate"

is_english : String → Bool
is_english s = str_eq s "en"

abbrev day : List Event
day =
    Event.read 7 false
    ∷ Event.read 7 true
    ∷ Event.write 2 7 (Change.supply_limit 6) 11 true
    ∷ Event.read 7 true
    ∷ []

empty-IsCoherent : IsCoherent one (effective_of "pirate" "en" is_pirate is_english rows) none
unfolding one
empty-IsCoherent = record { at = λ j w e. cc }

readings-stored_example :
    Readings "pirate" "en" is_pirate is_english
      (readings "pirate" "en" is_pirate is_english one day rows none)
      (stored "pirate" "en" is_pirate is_english day rows)
readings-stored_example =
    readings-stored "pirate" "en" is_pirate is_english one day rows none empty-IsCoherent

get-upsert_example :
    get 7 (upsert 2 7 (Change.supply_limit 6) 11 rows)
    ≡ changed (Change.supply_limit 6) (get 7 rows)
get-upsert_example = get-upsert 11 2 7 (Change.supply_limit 6) rows

get-upsert_other_example : get 8 (upsert 2 7 (Change.supply_limit 6) 11 rows) ≡ get 8 rows
get-upsert_other_example =
    get-upsert_other 11 2 7 (Change.supply_limit 6) rows 8 (λ e. ground arith)
