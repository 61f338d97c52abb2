-- ===== src/Feature/Tests.antt =====
-- The closure of the features on the catalog of the bot.
use spacecraft_corporation.Prelude.{
  ℕ, ◌≡◌, ◌⊎◌, String, true, [], ◌∷◌, arith, All, text_in, str_eq, if◌then◌else◌,
}
use spacecraft_corporation.Feature.{Visit, Outcome, catalog, lookup, resolve, each, visit}
use spacecraft_corporation.Feature.Total.{resolve-total}
use spacecraft_corporation.Feature.Ordered.{InOrder, IsAcyclic, ranked-IsAcyclic, resolve-InOrder}

resolve-total_example :
    ((w : Visit) × (resolve catalog ("bases" ∷ "ping" ∷ []) ≡ Outcome.done w))
    ⊎ ((n : String) × (resolve catalog ("bases" ∷ "ping" ∷ []) ≡ Outcome.unknown n))
resolve-total_example = resolve-total catalog ("bases" ∷ "ping" ∷ [])

-- What requires nothing ranks lowest.
abbrev rank : String → ℕ
rank n = if str_eq n "bases" then 1 else if str_eq n "contracts" then 1 else 0

catalog-IsAcyclic : IsAcyclic catalog rank
unfolding catalog
catalog-IsAcyclic =
    ranked-IsAcyclic rank catalog (tt, (tt, ((omega arith, tt), ((omega arith, tt), (tt, tt)))))

abbrev resolved : Visit
resolved = record {
  seen = "ping" ∷ "permissions" ∷ "bases" ∷ [];
  out = "permissions" ∷ "bases" ∷ "ping" ∷ [];
}

resolves : resolve catalog ("bases" ∷ "ping" ∷ []) ≡ Outcome.done resolved
unfolding resolve catalog each visit lookup
resolves = ground arith

resolve-InOrder_example :
    InOrder catalog [] resolved.out
    × All (λ n. text_in n resolved.out ≡ true) ("bases" ∷ "ping" ∷ [])
resolve-InOrder_example =
    resolve-InOrder catalog rank catalog-IsAcyclic ("bases" ∷ "ping" ∷ []) resolved resolves
