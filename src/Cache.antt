-- ===== src/Cache.antt =====
-- The in-memory caches of permissions/cache.go and settings/cache.go: an LRU library, of which the
-- stores use get, add and remove, in front of a query that may fail.
pub mod One
use spacecraft_corporation.Prelude.{
  ℕ, ◌≡◌, ◌≢◌, ◌⊎◌, refl, ap, inl, inr, Bool, true, false, Option, none, some, arith, ◌==◌,
  Option-cases, if◌then◌else◌, List, [], ◌∷◌,
}

-- What the stores rely on in hashicorp/golang-lru: an entry is what was last added under its key,
-- until it is removed or evicted, and eviction may take any entry at any time of an addition.
pub record Lru (V C : Type 0) : Type 0 where
  pub peek : C → ℕ → Option V
  -- the cache after a Get of a key
  pub used : ℕ → C → C
  pub add : ℕ → V → C → C
  pub remove : ℕ → C → C
  pub peek-used : (c : C) (k j : ℕ) → peek (used k c) j ≡ peek c j
  pub peek-add :
      (c : C) (k : ℕ) (v : V) (j : ℕ) (w : V)
      → peek (add k v c) j ≡ some w
      → ((j ≡ k) × (w ≡ v)) ⊎ ((j ≢ k) × (peek c j ≡ some w))
  pub peek-remove :
      (c : C) (k j : ℕ) (w : V) → peek (remove k c) j ≡ some w → (j ≢ k) × (peek c j ≡ some w)

module _ {V C : Type 0} (lru : Lru V C) where
  fetched : ℕ → C → Option V → Option V × C
  fetched k c none = (none, c)
  fetched k c (some v) = (some v, lru.add k v c)

  looked_up : (ℕ → Option V) → ℕ → C → Option V → Option V × C
  unfolding fetched
  looked_up query k c none = fetched k c (query k)
  looked_up query k c (some v) = (some v, lru.used k c)

  -- A read of the entry of `k`, from the cache, or else by the query, whose result is cached. The
  -- query gives `none` where the database fails, and then nothing is cached.
  unfoldable pub fetch : (ℕ → Option V) → ℕ → C → Option V × C
  unfolding looked_up
  fetch query k c = looked_up query k c (lru.peek c k)

  -- What is cached is the truth.
  pub record IsCoherent (truth : ℕ → V) (c : C) : Type 0 where
    pub at : (j : ℕ) (w : V) → lru.peek c j ≡ some w → w ≡ truth j

  -- A query that gives the truth or fails.
  pub record IsQuery (truth : ℕ → V) (query : ℕ → Option V) : Type 0 where
    pub sound : (k : ℕ) (v : V) → query k ≡ some v → v ≡ truth k

  pub IsCoherent-remove :
      (truth truth' : ℕ → V) (k : ℕ) (c : C)
      → ((j : ℕ) → j ≢ k → truth' j ≡ truth j)
      → IsCoherent truth c
      → IsCoherent truth' (lru.remove k c)
  IsCoherent-remove truth truth' k c same h = record {
    at = λ j w e.
        let kept = lru.peek-remove c k j w e in
        let held = h.at j w kept.1 in let new = same j kept.0 in cc;
  }

  module _ (truth : ℕ → V) (query : ℕ → Option V) (k : ℕ) (c : C) (q : IsQuery truth query)
      (h : IsCoherent truth c) where
    add-IsCoherent : (v : V) → v ≡ truth k → IsCoherent truth (lru.add k v c)
    add-IsCoherent v e = record {
      at = λ j w p. elim (lru.peek-add c k v j w p) [
        | inl here ↦ rw (here.0, here.1) e
        | inr other ↦ h.at j w other.1
      ];
    }

    -- A read keeps the cache coherent, and what it gives is the truth; it gives nothing only where
    -- the query has failed.
    pub record IsRead (r : Option V × C) : Type 0 where
      pub coherent : IsCoherent truth r.1
      pub answer : (r.0 ≡ some (truth k)) ⊎ ((r.0 ≡ none) × (query k ≡ none))

    fetched-IsRead : (o : Option V) → query k ≡ o → IsRead (fetched k c o)
    unfolding fetched
    fetched-IsRead none e = record { coherent = h; answer = inr (refl, e) }
    fetched-IsRead (some v) e =
        let is = q.sound k v e in
        record { coherent = add-IsCoherent v is; answer = inl (ap some is) }

    looked_up-IsRead : (o : Option V) → lru.peek c k ≡ o → IsRead (looked_up query k c o)
    unfolding looked_up
    looked_up-IsRead none e = fetched-IsRead (query k) refl
    looked_up-IsRead (some v) e = record {
      coherent = record { at = λ j w p. h.at j w (rw (lru.peek-used c k j) at p) };
      answer = inl (ap some (h.at k v e));
    }

    pub fetch-IsRead : IsRead (fetch query k c)
    unfolding fetch
    fetch-IsRead = looked_up-IsRead (lru.peek c k) refl
