-- ===== src/Bases/Exact.antt =====
-- What List shows, against a description of its own: which bases, with which fields and equipment.
use spacecraft_corporation.Prelude.{
  ℕ, ◌-◌, String, ◌≡◌, refl, ap, sym, ◌∙◌, subst, Bool, true, false, ◌&&◌, ◌||◌, inl, inr, Option,
  none, some, List, [], ◌∷◌, map, ltb, ◌==◌, str_eq, eq_iff, if◌then◌else◌, length, All, Bool-cases,
  arith,
}
use mathlib.Core.List.{Mem, mem-cons_self, mem-cons_of_mem}
use spacecraft_corporation.Prelude.Rows.{select_all, count_where, exists, All-map}
use spacecraft_corporation.Prelude.Counts.{count_where-ext}
use spacecraft_corporation.Prelude.Every.{select_all-both, skip-All, take-All, All-both, All-image}
use spacecraft_corporation.Prelude.Order.{
  order_by, order_by-All, page, exists-map, exists-ext, exists-select_all, count_where-order_by,
  length-order_by, length-select_all, length-map, length-page,
}
use spacecraft_corporation.Bases.{Base, Equipment, Db, owned_by}
use spacecraft_corporation.Bases.Listing.{
  Piece, Listed, Filter, piece, owner_text, fetched, unless_empty, equipped, passes, page_rows,
  list, base_before,
}
use spacecraft_corporation.Bases.Shown.{pieces_of, shown, list-rows}
use spacecraft_corporation.Bases.Filtered.{shows, meets, same_number, is_listed, all-listed}

-- The pieces are those of the base in the table, each as often.
abbrev pub IsOwn : List Equipment → ℕ → List Piece → Type 0
IsOwn rows base ps =
    (q : Piece → Bool)
    → count_where q ps ≡ count_where (λ (e : Equipment). (e.bases_id == base) && q (piece e)) rows

abbrev undeleted : Option ℕ → Bool
undeleted none = true
undeleted (some at) = false

abbrev own_pieces : ℕ → List Equipment → List Piece
own_pieces base rows = map piece (select_all (λ (e : Equipment). e.bases_id == base) rows)

-- A base with the equipment that the tables have of it.
abbrev complete : Db → Base → Listed
complete db b = record {
  id = b.id;
  kind = b.kind;
  owner_user_id = owner_text b.owner_user_id;
  name = b.name;
  sector_name = b.sector_name;
  system_code = b.system_code;
  planet_number = b.planet_number;
  extractors = own_pieces b.id db.extractors;
  productions = own_pieces b.id db.productions;
}

count_where-map :
    {A B : Type 0} (q : B → Bool) (f : A → B) (xs : List A)
    → count_where q (map f xs) ≡ count_where (λ x. q (f x)) xs
count_where-map q f [] = refl
count_where-map q f (x ∷ xs) = ground (arith, count_where-map q f xs)

count_where-select_all :
    {A : Type 0} (p q : A → Bool) (xs : List A)
    → count_where p (select_all q xs) ≡ count_where (λ x. q x && p x) xs
count_where-select_all p q [] = refl
count_where-select_all p q (x ∷ xs) = ground (arith, count_where-select_all p q xs)

asked :
    (ids : List ℕ) (q : Piece → Bool) (base : ℕ) (e : Equipment)
    → exists (λ i. i == base) ids ≡ true
    → (exists (λ i. i == e.bases_id) ids && ((base == e.bases_id) && q (piece e)))
      ≡ ((e.bases_id == base) && q (piece e))
asked ids q base e h = elim (Bool-cases (base == e.bases_id)) [
  | inl s ↦
      let found = subst (λ n. exists (λ i. i == n) ids ≡ true) (same_number base e.bases_id s) h in
      rw found (ground (arith, s))
  | inr d ↦ ground (arith, d)
]

-- What the two queries of a page fetch for a base on it is all that it has.
pieces_of-IsOwn :
    (ids : List ℕ) (base : ℕ) (rows : List Equipment)
    → exists (λ i. i == base) ids ≡ true
    → IsOwn rows base (pieces_of base (fetched ids rows))
unfolding pieces_of fetched
pieces_of-IsOwn ids base rows h q =
    count_where-map q piece _
    ∙ count_where-select_all (λ (e : Equipment). q (piece e)) (λ e. base == e.bases_id) _
    ∙ count_where-order_by _ (λ (e : Equipment). (base == e.bases_id) && q (piece e)) _
    ∙ count_where-select_all (λ (e : Equipment). (base == e.bases_id) && q (piece e)) _ rows
    ∙ count_where-ext _ _ rows (λ e. asked ids q base e h)

all-Mem : {A : Type 0} (xs : List A) → All (λ x. Mem x xs) xs
all-Mem [] = tt
all-Mem (x ∷ xs) = (
  mem-cons_self,
  All-map (λ y. Mem y xs) (λ y. Mem y (x ∷ xs)) xs (λ y h. mem-cons_of_mem x h) (all-Mem xs),
)

regroup :
    (x a b c d e g : Bool) → (x && a && b && c && d && e && g) ≡ (x && (a && b && c && d && e && g))
regroup true a b c d e g = refl
regroup false a b c d e g = refl

empty_owner : (v : String) → (str_eq v "" || str_eq "" v) ≡ str_eq v ""
empty_owner v = elim (Bool-cases (str_eq "" v)) [
  | inl e ↦
      let empty : "" ≡ v = ground (arith, e, eq_iff "" v) in
      subst (λ u. (str_eq u "" || str_eq "" u) ≡ str_eq u "") empty refl
  | inr e ↦ ground (arith, e)
]

owner_read :
    (u : Option String) (v : String)
    → unless_empty v (owned_by u v) ≡ unless_empty v (str_eq (owner_text u) v)
owner_read none v = ground (arith, empty_owner v)
owner_read (some w) v = refl

module _ (matches : String → String → Bool) where
  -- A base that List should show: a live base of the server which, with its equipment, meets the
  -- filter.
  unfoldable pub wanted : ℕ → Filter → Db → Base → Bool
  unfolding meets
  wanted server f db b =
      (b.servers_id == server) && undeleted b.deleted_at && meets matches f (complete db b)

  shows-own :
      (v : String) (base : ℕ) (rows : List Equipment)
      → shows matches v (own_pieces base rows) ≡ equipped matches v base rows
  shows-own v base rows =
      exists-map (λ (p : Piece). matches v p.value) piece _
      ∙ exists-select_all (λ (e : Equipment). matches v e.value) (λ e. e.bases_id == base) rows
      ∙ exists-ext _ _ rows (λ e. ground arith)

  passes-wanted :
      (server : ℕ) (f : Filter) (db : Db) (b : Base)
      → passes matches server f db b ≡ wanted server f db b
  unfolding passes wanted
  passes-wanted server f db b =
      rw
        (
          shows-own f.resource b.id db.extractors,
          shows-own f.item b.id db.productions,
          owner_read b.owner_user_id f.owner_user_id,
        )
        (regroup ((b.servers_id == server) && undeleted b.deleted_at) _ _ _ _ _ _)

  -- An entry of the page is a base of the table that List should show, with its fields and with
  -- exactly its equipment.
  pub record IsEntry (server : ℕ) (f : Filter) (db : Db) (l : Listed) (b : Base) : Type 0 where
    pub found : Mem b db.bases
    pub chosen : wanted server f db b ≡ true
    pub id : l.id ≡ b.id
    pub kind : l.kind ≡ b.kind
    pub owner : l.owner_user_id ≡ owner_text b.owner_user_id
    pub name : l.name ≡ b.name
    pub sector : l.sector_name ≡ b.sector_name
    pub system : l.system_code ≡ b.system_code
    pub planet : l.planet_number ≡ b.planet_number
    pub extractors : IsOwn db.extractors b.id l.extractors
    pub productions : IsOwn db.productions b.id l.productions

  abbrev pub IsExact : ℕ → Filter → Db → Listed → Type 0
  IsExact server f db l = (b : Base) × IsEntry server f db l b

  shown-IsEntry :
      (server : ℕ) (f : Filter) (db : Db) (ids : List ℕ) (b : Base)
      → Mem b db.bases
      → passes matches server f db b ≡ true
      → exists (λ i. i == b.id) ids ≡ true
      → IsEntry server f db (shown db ids b) b
  unfolding shown
  shown-IsEntry server f db ids b here p h = record {
    found = here;
    chosen = sym (passes-wanted server f db b) ∙ p;
    id = refl;
    kind = refl;
    owner = refl;
    name = refl;
    sector = refl;
    system = refl;
    planet = refl;
    extractors = pieces_of-IsOwn ids b.id db.extractors h;
    productions = pieces_of-IsOwn ids b.id db.productions h;
  }

  module _ (text_before : String → String → Bool) where
    abbrev IsPaged : ℕ → Filter → Db → Base → Type 0
    IsPaged server f db b = Mem b db.bases × (passes matches server f db b ≡ true)

    page_rows-IsPaged :
        (server : ℕ) (f : Filter) (limit offset : ℕ) (db : Db)
        → All (IsPaged server f db) (page_rows text_before matches server f limit offset db)
    unfolding page_rows page
    page_rows-IsPaged server f limit offset db =
        let P = IsPaged server f db in
        take-All P limit _ (
          skip-All P offset _ (
            order_by-All _ P _ (
              select_all-both (passes matches server f db) (λ b. Mem b db.bases) db.bases
                (all-Mem db.bases))))

-- List shows the bases that it should: its total is the number of live bases of the server which,
-- with their equipment, meet the filter; each entry of the page is one of them, with its fields and
-- exactly its equipment; and the page is full or has exactly what the total leaves behind its offset.
pub list-exact :
    (text_before matches : String → String → Bool)
    → (server : ℕ) (f : Filter) (limit offset : ℕ) (db : Db)
    → ((list text_before matches server f limit offset db).1
        ≡ count_where (wanted matches server f db) db.bases)
      × All (IsExact matches server f db) (list text_before matches server f limit offset db).0
      × (length (list text_before matches server f limit offset db).0 ≡ (
          if ltb limit (count_where (wanted matches server f db) db.bases - offset)
          then limit
          else count_where (wanted matches server f db) db.bases - offset))
unfolding page_rows
list-exact text_before matches server f limit offset db =
    let rows = page_rows text_before matches server f limit offset db in
    let ids = map (λ (b : Base). b.id) rows in
    let same =
      count_where-ext (wanted matches server f db) (passes matches server f db) db.bases
        (λ b. sym (passes-wanted matches server f db b)) in
    let length-shown =
      length-map (shown db ids) rows
      ∙ length-page limit offset
          (order_by (base_before text_before) (select_all (passes matches server f db) db.bases))
      ∙ ap (λ n. if ltb limit (n - offset) then limit else n - offset)
          (length-order_by (base_before text_before) _
            ∙ length-select_all (passes matches server f db) db.bases) in
    rw (list-rows text_before matches server f limit offset db, same)
      (
        refl,
        All-image (IsExact matches server f db) (shown db ids) rows (
            All-map _ _ rows (λ b h. (b, shown-IsEntry matches server f db ids b h.0.0 h.0.1 h.1))
              (All-both (IsPaged matches text_before server f db) (λ b. is_listed rows b ≡ true)
                rows (page_rows-IsPaged matches text_before server f limit offset db)
                (all-listed rows))),
        length-shown,
      )
