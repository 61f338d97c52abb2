-- ===== src/Bases/Tests.antt =====
-- The bases of a server with one base of Ann, and two registrations of hers that overlap.
use spacecraft_corporation.Prelude.{
  length, ap, ◌≢◌, Option, String, Bool, true, false, str_eq, ◌≡◌, All, ◌<◌, refl, none, some, List,
  [], ◌∷◌, arith,
}
use spacecraft_corporation.Prelude.Order.{order_by, page}
use spacecraft_corporation.Prelude.Rows.{count_where}
use spacecraft_corporation.Bases.{
  owned_by, Kind, Base, Db, Ownership, RegisterInput, Table, member_ownership, live_scope,
  registered,
}
use spacecraft_corporation.Bases.Listing.{Filter, list}
use spacecraft_corporation.Bases.Shown.{pieces_of, shown}
use spacecraft_corporation.Bases.Exact.{IsExact, wanted, list-exact}
use spacecraft_corporation.Bases.History.{Call, apply, run}
use spacecraft_corporation.Bases.Limits.{FewBases, FewEquipment, run-FewBases, run-FewEquipment}
use spacecraft_corporation.Bases.Scope.{IsForeign, Untouched, apply-Untouched}
use spacecraft_corporation.Bases.Race.{◌⟶◌, ◌⟶*◌, Below, reachable-Below}

abbrev ann : Ownership
ann = member_ownership 7 "ann"

abbrev at_vega : Base
at_vega = record {
  id = 1;
  servers_id = 7;
  kind = Kind.member;
  owner_user_id = some "ann";
  name = "vega";
  sector_name = "north";
  system_code = "V1";
  planet_number = 2;
  created_by = "ann";
  created_at = 3;
  updated_at = 3;
  deleted_at = none;
}

abbrev tables : Db
tables = record {
  bases = at_vega ∷ [];
  extractors = record { id = 5; bases_id = 1; value = "iron"; created_at = 4 } ∷ [];
  productions = [];
}

abbrev second : RegisterInput
second = record {
  server_id = 7;
  kind = Kind.member;
  owner_user_id = "ann";
  name = "rigel";
  sector_name = "south";
  system_code = "R1";
  planet_number = 1;
  created_by = "ann";
}

abbrev story : List Call
story =
    Call.register second 1 2 10
    ∷ Call.add Table.base_extractors ann 1 "gold" 2 6 11
    ∷ Call.delete_all ann 12
    ∷ Call.register second 1 3 13
    ∷ []

one_base : FewBases ann 1 tables
unfolding live_scope
one_base = omega arith

run-FewBases_example : FewBases ann 1 (run story tables)
run-FewBases_example =
    run-FewBases ann 1 story tables ((λ _. omega arith), (tt, (tt, ((λ _. omega arith), tt))))
      one_base

run-FewEquipment_example : FewEquipment Table.base_extractors 1 2 (run story tables)
run-FewEquipment_example =
    run-FewEquipment Table.base_extractors 1 2 story tables
      (tt, ((λ _. omega arith), (tt, (tt, tt)))) (omega arith)

not_eve : ◌≢◌ {A = Option String} (some "ann") (some "eve")
not_eve e =
    let both : true ≡ false = ap (λ (u : Option String). owned_by u "ann") e in
    absurd (ground (arith, both))

apply-Untouched_example :
    Untouched 1 tables
      (apply (Call.remove Table.base_extractors (member_ownership 7 "eve") 5) tables)
apply-Untouched_example =
    apply-Untouched 1 (Call.remove Table.base_extractors (member_ownership 7 "eve") 5)
      (member_ownership 7 "eve") tables refl ((λ _. IsForeign.other_member refl not_eve), tt)

-- Two registrations pass the check before either commits: with a limit of 1, two live bases.
abbrev rigel : Base
rigel = registered second 2 10

abbrev deneb : Base
deneb = registered second 3 10

overlap :
    ◌⟶*◌ ann 1 2
      (record { bases = []; open_rows = [] })
      (record { bases = rigel ∷ deneb ∷ []; open_rows = [] })
unfolding live_scope registered
overlap = ◌⟶*◌.next (◌⟶◌.start [] [] second 2 10 refl refl (omega arith)) (
    ◌⟶*◌.next (◌⟶◌.start [] (rigel ∷ []) second 3 10 refl refl (omega arith)) (
      ◌⟶*◌.next (◌⟶◌.commit [] [] (rigel ∷ []) deneb)
        (◌⟶*◌.next (◌⟶◌.commit (deneb ∷ []) [] [] rigel) ◌⟶*◌.here)))

empty-Below : Below ann 1 2 (record { bases = []; open_rows = [] })
empty-Below = omega arith

reachable-Below_example : Below ann 1 2 (record { bases = rigel ∷ deneb ∷ []; open_rows = [] })
reachable-Below_example = reachable-Below ann 1 2 overlap empty-Below

exceeded : 1 < count_where (live_scope ann) (rigel ∷ deneb ∷ [])
unfolding live_scope registered
exceeded = omega arith

-- Text that is neither sorted nor matched by its parts.
abbrev unsorted : String → String → Bool
unsorted a b = false

abbrev iron : Filter
iron = record {
  sector_name = "";
  system_code = "V1";
  base_name = "";
  resource = "iron";
  item = "";
  owner_user_id = "ann";
}

list-iron : list unsorted str_eq 7 iron 10 0 tables ≡ (shown tables (1 ∷ []) at_vega ∷ [], 1)
unfolding list shown pieces_of order_by page
list-iron = refl

list-exact_example :
    ((list unsorted str_eq 7 iron 10 0 tables).1
      ≡ count_where (wanted str_eq 7 iron tables) tables.bases)
    × All (IsExact str_eq 7 iron tables) (list unsorted str_eq 7 iron 10 0 tables).0
    × (length (list unsorted str_eq 7 iron 10 0 tables).0 ≡ 1)
unfolding list wanted
list-exact_example = list-exact unsorted str_eq 7 iron 10 0 tables
