-- ===== src/Payout/Entries.antt =====
-- The maps of computePayout: every user has one entry, and no delivered value is below zero.
use spacecraft_corporation.Prelude.{
  eq_iff, ap, ℕ, ◌+◌, ◌≤◌, String, ◌≡◌, refl, false, inl, inr, List, [], ◌∷◌, arith, ltb,
  if◌then◌else◌, Bool-cases, str_eq,
}
use spacecraft_corporation.Payout.Arithmetic.{Decimals, IsExact}
use spacecraft_corporation.Payout.{
  Participant, PayoutItem, Tally, add_num, tally_free, tally_one, tally_valued, tally_item, tally,
  no_tally, deliverers, add_delivered,
}
use spacecraft_corporation.Payout.Sums.{occurrences, IsOnce, eq_le, value_nonneg}

-- How many entries a user has.
abbrev entries : String → List (String × ℕ) → ℕ
entries u [] = 0
entries u ((x, n) ∷ rest) = (if str_eq x u then 1 else 0) + entries u rest

abbrev pub IsMap : List (String × ℕ) → Type 0
IsMap m = (u : String) → entries u m ≤ 1

module _ (dec : Decimals) (law : IsExact dec) where
  entries-other :
      (u id : String) (qty : ℕ) (m : List (String × ℕ))
      → str_eq id u ≡ false
      → entries u (add_delivered dec id qty m) ≡ entries u m
  entries-other u id qty [] e = ground arith
  entries-other u id qty ((x, n) ∷ rest) e = ground (arith, entries-other u id qty rest e)

  entries-add :
      (u id : String) (qty : ℕ) (m : List (String × ℕ))
      → entries u m ≤ 1
      → entries u (add_delivered dec id qty m) ≤ 1
  entries-add u id qty [] h = ground arith
  entries-add u id qty ((x, n) ∷ rest) h = elim (Bool-cases (str_eq id u)) [
    | inl e ↦
        let same : id ≡ u = ground (arith, eq_iff id u) in
        ground (arith, ap (str_eq x) same, entries-add u id qty rest)
    | inr e ↦ ground (arith, entries-other u id qty rest e)
  ]

  deliverers-entries :
      (u : String) (m : List (String × ℕ)) → occurrences u (deliverers dec m) ≤ entries u m
  deliverers-entries u [] = omega arith
  deliverers-entries u ((x, n) ∷ rest) = ground (arith, deliverers-entries u rest)

  -- What the loops keep of the two maps.
  pub record IsFair (t : Tally dec) : Type 0 where
    pub one_entry : IsMap t.delivered
    pub nonneg : (u : String) → dec.le dec.zero (t.nums u)

  tally_free-IsFair :
      (ps : List Participant) (t : Tally dec) → IsFair t → IsFair (tally_free dec ps t)
  unfolding tally_free
  tally_free-IsFair [] t h = h
  tally_free-IsFair (p ∷ ps) t h = tally_free-IsFair ps _ (record {
    one_entry = λ u. entries-add u p.user_id p.delivered t.delivered (h.one_entry u);
    nonneg = h.nonneg;
  })

  add_num-nonneg :
      (id : String) (v : dec.D) (f : String → dec.D) (u : String)
      → dec.le dec.zero v
      → dec.le dec.zero (f u)
      → dec.le dec.zero (add_num dec id v f u)
  add_num-nonneg id v f u hv hf = elim (Bool-cases (str_eq u id)) [
    | inl e ↦
        let same : dec.add (f u) v ≡ add_num dec id v f u = ground arith in
        law.trans_le _ _ _ (eq_le dec law (ground (arith, law.add_zero dec.zero)))
          (law.trans_le _ _ _ (law.add_mono _ _ _ _ hf hv) (eq_le dec law same))
    | inr e ↦
        let same : f u ≡ add_num dec id v f u = ground arith in
        law.trans_le _ _ _ hf (eq_le dec law same)
  ]

  tally_one-IsFair :
      (v : dec.D) (p : Participant) (t : Tally dec)
      → dec.le dec.zero v
      → IsFair t
      → IsFair (tally_one dec v p t)
  tally_one-IsFair v p t hv h = record {
    one_entry = λ u. entries-add u p.user_id p.delivered t.delivered (h.one_entry u);
    nonneg = λ u. elim (Bool-cases (ltb 0 p.delivered)) [
      | inl e ↦
          let same : add_num dec p.user_id (dec.mul v (dec.from_int p.delivered)) t.nums u
              ≡ (tally_one dec v p t).nums u =
            rw e refl in
          law.trans_le _ _ _
            (add_num-nonneg p.user_id _ t.nums u (value_nonneg dec law v p.delivered hv)
              (h.nonneg u))
            (eq_le dec law same)
      | inr e ↦
          let same : t.nums u ≡ (tally_one dec v p t).nums u = rw e refl in
          law.trans_le _ _ _ (h.nonneg u) (eq_le dec law same)
    ];
  }

  tally_valued-IsFair :
      (v : dec.D) (ps : List Participant) (t : Tally dec)
      → dec.le dec.zero v
      → IsFair t
      → IsFair (tally_valued dec v ps t)
  unfolding tally_valued
  tally_valued-IsFair v [] t hv h = h
  tally_valued-IsFair v (p ∷ ps) t hv h =
      tally_valued-IsFair v ps (tally_one dec v p t) hv (tally_one-IsFair v p t hv h)

  tally_item-IsFair :
      (it : PayoutItem dec) (t : Tally dec) → IsFair t → IsFair (tally_item dec it t)
  unfolding tally_item
  tally_item-IsFair it t h = elim (Bool-cases (dec.is_positive it.unit_value)) [
    | inl e ↦ rw e (
        tally_valued-IsFair it.unit_value it.delivered _ (law.positive_le it.unit_value e)
          (record { one_entry = h.one_entry; nonneg = h.nonneg }))
    | inr e ↦
        rw e
          (tally_free-IsFair it.delivered _ (record { one_entry = h.one_entry; nonneg = h.nonneg }))
  ]

  pub tally-IsFair :
      (its : List (PayoutItem dec)) (t : Tally dec) → IsFair t → IsFair (tally dec its t)
  unfolding tally
  tally-IsFair [] t h = h
  tally-IsFair (it ∷ its) t h = tally-IsFair its (tally_item dec it t) (tally_item-IsFair it t h)

  pub no_tally-IsFair : IsFair (no_tally dec)
  no_tally-IsFair = record { one_entry = λ u. omega arith; nonneg = λ u. law.refl_le dec.zero }

  pub deliverers-IsOnce : (t : Tally dec) → IsFair t → IsOnce (deliverers dec t.delivered)
  deliverers-IsOnce t h u = omega (arith, deliverers-entries u t.delivered, h.one_entry u)
