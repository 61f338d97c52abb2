-- ===== src/Permissions/Tests.antt =====
-- The gate with a cache of one server, on a server whose pilots may run `contract`.
use spacecraft_corporation.Prelude.{String, ◌≡◌, Bool, true, false, none, List, [], ◌∷◌, text_in}
use spacecraft_corporation.Cache.{IsCoherent}
use spacecraft_corporation.Cache.One.{one}
use spacecraft_corporation.Permissions.{Grant, AccessRequest, set_roles}
use spacecraft_corporation.Permissions.Decision.{is_granted}
use spacecraft_corporation.Permissions.Writes.{set_roles-granted}
use spacecraft_corporation.Permissions.Gate.{
  Event, Answers, answers, permissions, mapping_of, answers-permitted,
}

abbrev pilots : List Grant
pilots =
    record {
      servers_id = 7;
      command = "contract";
      role_id = "pilot";
      created_by = "ann";
      created_at = 1;
    }
    ∷ []

abbrev by_pilot : AccessRequest
by_pilot = record {
  server_id = 7;
  command = "contract";
  default_deny = true;
  user_roles = "guest" ∷ "pilot" ∷ [];
}

-- A check while the database is down, one that loads, a write, and one after it.
abbrev evening : List Event
evening =
    Event.check by_pilot false
    ∷ Event.check by_pilot true
    ∷ Event.write 7 "contract" ("captain" ∷ []) "ann" 2 true
    ∷ Event.check by_pilot true
    ∷ []

any_order : String → String → Bool
any_order a b = true

empty-IsCoherent : IsCoherent one (mapping_of any_order one pilots) none
unfolding one
empty-IsCoherent = record { at = λ j w e. cc }

answers-permitted_example :
    Answers (answers any_order one evening pilots none) (permissions evening pilots)
answers-permitted_example = answers-permitted any_order one evening pilots none empty-IsCoherent

set_roles-granted_example :
    is_granted 7 "contract" (set_roles 7 "contract" ("captain" ∷ []) "ann" 2 pilots) "pilot"
    ≡ text_in "pilot" ("captain" ∷ [])
set_roles-granted_example = set_roles-granted 7 "contract" "ann" 2 ("captain" ∷ []) "pilot" pilots
