-- ===== src/Cache/One.antt =====
-- A cache with room for one entry: an instance of what the stores rely on.
use spacecraft_corporation.Prelude.{
  ℕ, ◌≡◌, ◌≢◌, ◌⊎◌, refl, inl, inr, Option, none, some, arith, ◌==◌, if◌then◌else◌, Bool-cases,
}
use spacecraft_corporation.Cache.{Lru}

abbrev pub One : Type 0 → Type 0
One V = Option (ℕ × V)

module _ {V : Type 0} where
  abbrev peek_one : (One V) → ℕ → Option V
  peek_one none j = none
  peek_one (some (k, v)) j = if k == j then some v else none

  abbrev remove_one : ℕ → (One V) → (One V)
  remove_one k none = none
  remove_one k (some (j, v)) = if j == k then none else some (j, v)

  pub peek_one-add :
      (c : (One V)) (k : ℕ) (v : V) (j : ℕ) (w : V)
      → peek_one (some (k, v)) j ≡ some w
      → ((j ≡ k) × (w ≡ v)) ⊎ ((j ≢ k) × (peek_one c j ≡ some w))
  peek_one-add c k v j w e = elim (Bool-cases (k == j)) [
    | inl h ↦ inl (ground arith, ground arith)
    | inr h ↦ absurd (ground arith)
  ]

  pub peek_one-remove :
      (c : (One V)) (k j : ℕ) (w : V)
      → peek_one (remove_one k c) j ≡ some w
      → (j ≢ k) × (peek_one c j ≡ some w)
  peek_one-remove none k j w e = cc
  peek_one-remove (some (i, v)) k j w e = elim (Bool-cases (i == k)) [
    | inl h ↦ absurd (ground arith)
    | inr h ↦ elim (Bool-cases (i == j)) [
      | inl s ↦ (ground arith, ground arith)
      | inr d ↦ absurd (ground arith)
    ]
  ]

  unfoldable pub one : Lru V (One V)
  one = record {
    peek = peek_one;
    used = λ k c. c;
    add = λ k v c. some (k, v);
    remove = remove_one;
    peek-used = λ c k j. refl;
    peek-add = peek_one-add;
    peek-remove = peek_one-remove;
  }
