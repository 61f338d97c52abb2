-- ===== src/Bases/Filtered.antt =====
-- Why a base is on the page of List: what it shows meets the filter.
use spacecraft_corporation.Prelude.{
  ℕ, String, ◌≡◌, Bool, true, ◌&&◌, List, [], ◌∷◌, map, ◌==◌, str_eq, All, arith,
}
use spacecraft_corporation.Prelude.Rows.{exists, All-map}
use spacecraft_corporation.Bases.{Base}
use spacecraft_corporation.Bases.Listing.{Piece, Listed, Filter, unless_empty}

pub same_number : (n m : ℕ) → (n == m) ≡ true → n ≡ m
same_number n m e = ground arith

abbrev pub is_listed : List Base → Base → Bool
is_listed rows b = exists (λ i. i == b.id) (map (λ (c : Base). c.id) rows)

pub all-listed : (rows : List Base) → All (λ b. is_listed rows b ≡ true) rows
all-listed [] = tt
all-listed (b ∷ rows) = (
  ground arith,
  All-map (λ c. is_listed rows c ≡ true) (λ c. is_listed (b ∷ rows) c ≡ true) rows
      (λ c h. ground (arith, h)) (all-listed rows),
)

module _ (matches : String → String → Bool) where
  abbrev pub shows : String → List Piece → Bool
  shows v ps = exists (λ (p : Piece). matches v p.value) ps

  -- The filter, read off what the page shows.
  unfoldable pub meets : Filter → Listed → Bool
  meets f l =
      unless_empty f.sector_name (matches f.sector_name l.sector_name)
      && unless_empty f.system_code (matches f.system_code l.system_code)
      && unless_empty f.base_name (matches f.base_name l.name)
      && unless_empty f.owner_user_id (str_eq l.owner_user_id f.owner_user_id)
      && unless_empty f.resource (shows f.resource l.extractors)
      && unless_empty f.item (shows f.item l.productions)
