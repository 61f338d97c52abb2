-- ===== src/Feature.antt =====
-- internal/feature/feature.go: the optional features, and the closure of a selection over the
-- features that they require. `visit` is recursive through the required features; its fuel bounds
-- the depth, and `Total` shows that one more than the catalog's length is enough.
pub mod Total
pub mod Ordered
mod Tests
use spacecraft_corporation.Prelude.{
  ℕ, zero, suc, String, Bool, true, false, Option, none, some, List, [], ◌∷◌, ◌++◌, map, length,
  str_eq, text_in, if◌then◌else◌,
}
use spacecraft_corporation.Prelude.Rows.{select?, select_all}

pub record Feature : Type 0 where
  pub name : String
  pub requires : List String

-- What the catalog of the bot holds.
unfoldable pub catalog : List Feature
catalog =
    record { name = "ping"; requires = [] }
    ∷ record { name = "permissions"; requires = [] }
    ∷ record { name = "bases"; requires = "permissions" ∷ [] }
    ∷ record { name = "contracts"; requires = "permissions" ∷ [] }
    ∷ record { name = "supply"; requires = [] }
    ∷ []

abbrev pub is_named : String → Feature → Bool
is_named n f = str_eq f.name n

-- lookup, over any catalog.
unfoldable pub lookup : List Feature → String → Option Feature
lookup features n = select? (is_named n) features

-- All
unfoldable pub all_names : List Feature → List String
all_names features = map (λ (f : Feature). f.name) features

-- valid
unfoldable pub is_valid : List Feature → String → Bool
unfolding lookup
is_valid features n = elim (lookup features n) [ none ↦ false | some _ ↦ true ]

-- The map `seen` and the slice `out` of resolveWith.
pub record Visit : Type 0 where
  pub seen : List String
  pub out : List String

pub data Outcome : Type 0 where
  done : Visit → Outcome
  unknown : String → Outcome
  out_of_fuel : Outcome

abbrev pub then_visit : Outcome → (Visit → Outcome) → Outcome
then_visit (Outcome.done v) k = k v
then_visit (Outcome.unknown n) k = Outcome.unknown n
then_visit Outcome.out_of_fuel k = Outcome.out_of_fuel

-- A loop over names that stops at the first error.
unfoldable pub each : (Visit → String → Outcome) → List String → Visit → Outcome
each f [] v = Outcome.done v
each f (n ∷ ns) v = then_visit (f v n) (each f ns)

abbrev pub enter : String → Visit → Visit
enter n v = record v { seen = n ∷ v.seen }

abbrev pub leave : String → Visit → Visit
leave n v = record v { out = v.out ++ (n ∷ []) }

-- The part of `visit` behind the tests, for the feature that lookup found.
abbrev pub expand : (Visit → String → Outcome) → String → Visit → Option Feature → Outcome
expand f n v none = Outcome.unknown n
expand f n v (some x) = then_visit (each f x.requires (enter n v)) (λ w. Outcome.done (leave n w))

module _ (features : List Feature) where
  unfoldable pub visit : ℕ → Visit → String → Outcome
  unfolding lookup each
  visit zero v n = Outcome.out_of_fuel
  visit (suc fuel) v n =
      let found = expand (visit fuel) n v (lookup features n) in
      if text_in n v.seen then Outcome.done v else found

  -- resolve
  unfoldable pub resolve : List String → Outcome
  unfolding visit each
  resolve selected = each (visit (suc (length features))) selected (record { seen = []; out = [] })

-- Selected
unfoldable pub selected_names : List String → List String
selected_names enabled = select_all (λ n. if str_eq n "" then false else true) enabled

-- The names that UnmarshalText accepts.
unfoldable pub unmarshal : List Feature → String → Option String
unfolding is_valid
unmarshal features text =
    if str_eq text "" then some "" else if is_valid features text then some text else none

-- The entries of FEATURES, as the environment library parses them one by one.
unfoldable pub unmarshal_all : List Feature → List String → Option (List String)
unfolding unmarshal
unmarshal_all features [] = some []
unmarshal_all features (t ∷ ts) = elim (unmarshal features t) [
  | none ↦ none
  | some n ↦ elim (unmarshal_all features ts) [ none ↦ none | some ns ↦ some (n ∷ ns) ]
]

-- Load, with FEATURES as the environment has it, split at the commas: unset, or a list. `none` is
-- the error of the environment library.
unfoldable pub load : List Feature → Option (List String) → Option Outcome
unfolding resolve all_names selected_names unmarshal_all
load features none = some (resolve features (all_names features))
load features (some entries) = elim (unmarshal_all features entries) [
  | none ↦ none
  | some enabled ↦ some (resolve features (selected_names enabled))
]
