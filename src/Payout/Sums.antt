-- ===== src/Payout/Sums.antt =====
-- The values that the participants delivered, summed over a list of users without repetition, are
-- at most the value of everything that the items require.
use spacecraft_corporation.Prelude.{
  ℕ, ◌+◌, ◌≤◌, String, ◌≡◌, refl, sym, ap, subst, ◌∙◌, inl, inr, List, [], ◌∷◌, arith, ltb,
  if◌then◌else◌, Bool-cases, str_eq, All,
}
use spacecraft_corporation.Prelude.Rows.{sum_by}
use spacecraft_corporation.Payout.Arithmetic.{Decimals, IsExact}
use spacecraft_corporation.Payout.{
  Participant, PayoutItem, Tally, add_num, tally_free, tally_one, tally_valued, tally_item, tally,
}

-- How often `u` stands in a list.
abbrev pub occurrences : String → List String → ℕ
occurrences u = sum_by (λ x. if str_eq x u then 1 else 0)

-- Nobody is listed twice.
abbrev pub IsOnce : List String → Type 0
IsOnce us = (u : String) → occurrences u us ≤ 1

abbrev pub delivered_by : List Participant → ℕ
delivered_by = sum_by (λ p. p.delivered)

module _ (dec : Decimals) (law : IsExact dec) where
  pub eq_le : {a b : dec.D} → a ≡ b → dec.le a b
  eq_le {a} {b} e = subst (λ x. dec.le a x) e (law.refl_le a)

  abbrev pub total : (String → dec.D) → List String → dec.D
  total f [] = dec.zero
  total f (u ∷ us) = dec.add (f u) (total f us)

  total-absent :
      (id : String) (v : dec.D) (f : String → dec.D) (us : List String)
      → occurrences id us ≡ 0
      → total (add_num dec id v f) us ≡ total f us
  total-absent id v f [] e = refl
  total-absent id v f (u ∷ us) e = ground (arith, total-absent id v f us)

  -- One more value for one user adds it at most once.
  total-add_num :
      (id : String) (v : dec.D) (f : String → dec.D) (us : List String)
      → dec.le dec.zero v
      → occurrences id us ≤ 1
      → dec.le (total (add_num dec id v f) us) (dec.add (total f us) v)
  total-add_num id v f [] nonneg once = rw (law.add_comm dec.zero v, law.add_zero v) nonneg
  total-add_num id v f (u ∷ us) nonneg once = elim (Bool-cases (str_eq u id)) [
    | inl h ↦
        let gone = total-absent id v f us (ground arith) in
        eq_le (
          ground (
            arith,
            gone,
            law.add_assoc (f u) v (total f us),
            law.add_comm v (total f us),
            law.add_assoc (f u) (total f us) v,
          ))
    | inr h ↦
        let rest = total-add_num id v f us nonneg (ground arith) in
        let same : add_num dec id v f u ≡ f u = ground arith in
        law.trans_le _ _ _ (law.add_mono _ _ _ _ (eq_le same) rest)
          (eq_le (sym (law.add_assoc (f u) (total f us) v)))
  ]

  regroup :
      (v : dec.D) (m n : ℕ) (a : dec.D)
      → dec.add (dec.add a (dec.mul v (dec.from_int m))) (dec.mul v (dec.from_int n))
        ≡ dec.add a (dec.mul v (dec.from_int (m + n)))
  regroup v m n a = ground (
    arith,
    law.from_int_add m n,
    law.mul_add v (dec.from_int m) (dec.from_int n),
    law.add_assoc a (dec.mul v (dec.from_int m)) (dec.mul v (dec.from_int n)),
  )

  pub value_nonneg :
      (v : dec.D) (n : ℕ) → dec.le dec.zero v → dec.le dec.zero (dec.mul v (dec.from_int n))
  value_nonneg v n nonneg = law.trans_le _ _ _ (eq_le (sym (law.mul_zero v))) (
      law.mul_mono v _ _ nonneg
        (law.trans_le _ _ _ (eq_le (sym law.from_int_zero)) (law.from_int_mono 0 n (omega arith))))

  tally_one-total :
      (v : dec.D) (us : List String)
      → dec.le dec.zero v
      → IsOnce us
      → (p : Participant) (t : Tally dec)
      → dec.le
          (total (tally_one dec v p t).nums us)
          (dec.add (total t.nums us) (dec.mul v (dec.from_int p.delivered)))
  tally_one-total v us nonneg once p t = elim (Bool-cases (ltb 0 p.delivered)) [
    | inl h ↦
        let same : (tally_one dec v p t).nums
            ≡ add_num dec p.user_id (dec.mul v (dec.from_int p.delivered)) t.nums =
          rw h refl in
        law.trans_le _ _ _ (eq_le (ap (λ f. total f us) same))
          (total-add_num p.user_id _ t.nums us (value_nonneg v p.delivered nonneg) (once p.user_id))
    | inr h ↦
        let same : (tally_one dec v p t).nums ≡ t.nums = rw h refl in
        let z : p.delivered ≡ 0 = ground arith in
        law.trans_le _ _ _ (eq_le (ap (λ f. total f us) same)) (
          eq_le (
            sym (
              ground
                (arith, z, law.from_int_zero, law.mul_zero v, law.add_zero (total t.nums us)))))
  ]

  -- The participants of one item add at most the value of what they delivered.
  tally_valued-total :
      (v : dec.D) (us : List String)
      → dec.le dec.zero v
      → IsOnce us
      → (ps : List Participant) (t : Tally dec)
      → dec.le
          (total (tally_valued dec v ps t).nums us)
          (dec.add (total t.nums us) (dec.mul v (dec.from_int (delivered_by ps))))
  unfolding tally_valued
  tally_valued-total v us nonneg once [] t =
      eq_le
        (sym (ground (arith, law.from_int_zero, law.mul_zero v, law.add_zero (total t.nums us))))
  tally_valued-total v us nonneg once (p ∷ ps) t =
      let one = tally_one-total v us nonneg once p t in
      let rest = tally_valued-total v us nonneg once ps (tally_one dec v p t) in
      let more =
        law.add_mono _ _ _ _ one (law.refl_le (dec.mul v (dec.from_int (delivered_by ps)))) in
      law.trans_le _ _ _ rest (
        law.trans_le _ _ _ more (eq_le (regroup v p.delivered (delivered_by ps) (total t.nums us))))

  tally_valued-den :
      (v : dec.D) (ps : List Participant) (t : Tally dec) → (tally_valued dec v ps t).den ≡ t.den
  unfolding tally_valued
  tally_valued-den v [] t = refl
  tally_valued-den v (p ∷ ps) t = tally_valued-den v ps (tally_one dec v p t)

  -- No item has more delivered than it requires.
  abbrev pub Fulfilled : List (PayoutItem dec) → Type 0
  Fulfilled = All (λ (it : PayoutItem dec). delivered_by it.delivered ≤ it.required_qty)

  tally_free-total :
      (us : List String) (ps : List Participant) (t : Tally dec)
      → dec.le (total t.nums us) t.den
      → dec.le (total (tally_free dec ps t).nums us) (tally_free dec ps t).den
  unfolding tally_free
  tally_free-total us [] t le = le
  tally_free-total us (p ∷ ps) t le = tally_free-total us ps _ le

  -- The denominator has grown by the value of the required quantity.
  valued_item-total :
      (us : List String) (v : dec.D) (n : ℕ) (ps : List Participant) (t : Tally dec)
      → dec.le dec.zero v
      → IsOnce us
      → delivered_by ps ≤ n
      → {a : dec.D} → dec.le (total t.nums us) a
      → t.den ≡ dec.add a (dec.mul v (dec.from_int n))
      → dec.le (total (tally_valued dec v ps t).nums us) (tally_valued dec v ps t).den
  valued_item-total us v n ps t nonneg once full le e =
      law.trans_le _ _ _ (tally_valued-total v us nonneg once ps t) (
        law.trans_le _ _ _
          (law.add_mono _ _ _ _ le
            (law.mul_mono v _ _ nonneg (law.from_int_mono (delivered_by ps) n full)))
          (eq_le (sym (tally_valued-den v ps t ∙ e))))

  tally_item-total :
      (us : List String)
      → IsOnce us
      → (it : PayoutItem dec) (t : Tally dec) → delivered_by it.delivered ≤ it.required_qty
      → dec.le (total t.nums us) t.den
      → dec.le (total (tally_item dec it t).nums us) (tally_item dec it t).den
  unfolding tally_item
  tally_item-total us once it t full le = elim (Bool-cases (dec.is_positive it.unit_value)) [
    | inl h ↦ rw h (
        valued_item-total us it.unit_value it.required_qty it.delivered _
          (law.positive_le it.unit_value h) once full le refl)
    | inr h ↦ rw h (tally_free-total us it.delivered _ le)
  ]

  pub tally-total :
      (us : List String)
      → IsOnce us
      → (its : List (PayoutItem dec)) (t : Tally dec) → Fulfilled its
      → dec.le (total t.nums us) t.den
      → dec.le (total (tally dec its t).nums us) (tally dec its t).den
  unfolding tally
  tally-total us once [] t full le = le
  tally-total us once (it ∷ its) t full le =
      tally-total us once its (tally_item dec it t) full.1 (tally_item-total us once it t full.0 le)
