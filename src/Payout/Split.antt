-- ===== src/Payout/Split.antt =====
-- What computePayout promises: it never pays out more than the pool.
use spacecraft_corporation.Prelude.{
  ℕ, String, ◌≡◌, refl, sym, ap, ◌∙◌, true, false, not, inl, inr, List, [], ◌∷◌, arith,
  if◌then◌else◌, Bool-cases,
}
use spacecraft_corporation.Payout.Arithmetic.{Decimals, IsExact}
use spacecraft_corporation.Payout.{
  PayoutItem, Share, Tally, participant_pool, share_of, split, tally, no_tally, deliverers,
  compute_payout,
}
use spacecraft_corporation.Payout.Sums.{occurrences, IsOnce, total, eq_le, Fulfilled, tally-total}
use spacecraft_corporation.Payout.Entries.{tally-IsFair, no_tally-IsFair, deliverers-IsOnce}

module _ (dec : Decimals) (law : IsExact dec) where
  total-zero : (us : List String) → total dec law (λ u. dec.zero) us ≡ dec.zero
  total-zero [] = refl
  total-zero (u ∷ us) = ap (dec.add dec.zero) (total-zero us) ∙ law.add_zero dec.zero

  -- What the shares pay out together.
  abbrev pub paid : List (Share dec) → dec.D
  paid [] = dec.zero
  paid (s ∷ ss) = dec.add s.amount (paid ss)

  module _ (pool : dec.D) (t : Tally dec) (decimals : ℕ) where
    abbrev shares_of : List String → List (Share dec)
    shares_of [] = []
    shares_of (u ∷ us) = share_of dec pool t decimals u ∷ shares_of us

    split-shares :
        (us : List String) (d : dec.D) → (split dec pool t decimals us d).0 ≡ shares_of us
    unfolding split
    split-shares [] d = refl
    split-shares (u ∷ us) d = ap (λ ss. share_of dec pool t decimals u ∷ ss) (split-shares us _)

    split-distributed :
        dec.is_positive t.den ≡ true
        → (us : List String) (d : dec.D)
        → (split dec pool t decimals us d).1 ≡ dec.add d (paid (shares_of us))
    unfolding split
    split-distributed h [] d = sym (law.add_zero d)
    split-distributed h (u ∷ us) d =
        let a = (share_of dec pool t decimals u).amount in
        let first : (if not (dec.is_positive t.den) then d else dec.add d a) ≡ dec.add d a =
          rw h refl in
        ap (λ x. (split dec pool t decimals us x).1) first
        ∙ (split-distributed h us (dec.add d a) ∙ law.add_assoc d a (paid (shares_of us)))

    split-nothing :
        dec.is_positive t.den ≡ false
        → (us : List String) (d : dec.D) → (split dec pool t decimals us d).1 ≡ d
    unfolding split
    split-nothing h [] d = refl
    split-nothing h (u ∷ us) d =
        let a = (share_of dec pool t decimals u).amount in
        let first : (if not (dec.is_positive t.den) then d else dec.add d a) ≡ d = rw h refl in
        ap (λ x. (split dec pool t decimals us x).1) first ∙ split-nothing h us d

    paid-nothing :
        dec.is_positive t.den ≡ false → (us : List String) → paid (shares_of us) ≡ dec.zero
    paid-nothing h [] = refl
    paid-nothing h (u ∷ us) =
        let none_due : (share_of dec pool t decimals u).amount ≡ dec.zero = rw h refl in
        ground (arith, none_due, paid-nothing h us, law.add_zero dec.zero)

    -- The amounts, times the denominator, are within the pool times the values.
    paid-within :
        dec.is_positive t.den ≡ true
        → dec.le dec.zero pool
        → ((u : String) → dec.le dec.zero (t.nums u))
        → (us : List String)
        → dec.le (dec.mul t.den (paid (shares_of us))) (dec.mul pool (total dec law t.nums us))
    paid-within h nonneg nums [] = eq_le dec law (law.mul_zero t.den ∙ sym (law.mul_zero pool))
    paid-within h nonneg nums (u ∷ us) =
        let a = (share_of dec pool t decimals u).amount in
        let amount : a ≡ dec.quo (dec.mul pool (t.nums u)) t.den decimals = rw h refl in
        let due : dec.le dec.zero (dec.mul pool (t.nums u)) =
          law.trans_le _ _ _ (eq_le dec law (sym (law.mul_zero pool)))
            (law.mul_mono pool _ _ nonneg (nums u)) in
        let one : dec.le (dec.mul t.den a) (dec.mul pool (t.nums u)) =
          law.trans_le _ _ _ (eq_le dec law (ap (dec.mul t.den) amount))
            (law.quo_le _ t.den decimals h due) in
        law.trans_le _ _ _ (eq_le dec law (law.mul_add t.den a (paid (shares_of us)))) (
          law.trans_le _ _ _ (law.add_mono _ _ _ _ one (paid-within h nonneg nums us))
            (eq_le dec law (sym (law.mul_add pool (t.nums u) (total dec law t.nums us)))))

    paid-pool :
        dec.le dec.zero pool
        → ((u : String) → dec.le dec.zero (t.nums u))
        → (us : List String) → dec.le (total dec law t.nums us) t.den
        → dec.le (paid (shares_of us)) pool
    paid-pool nonneg nums us le = elim (Bool-cases (dec.is_positive t.den)) [
      | inl h ↦ law.mul_cancel t.den _ _ h (
          law.trans_le _ _ _ (paid-within h nonneg nums us) (
            law.trans_le _ _ _ (law.mul_mono pool _ _ nonneg le)
              (eq_le dec law (law.mul_comm pool t.den))))
      | inr h ↦ law.trans_le _ _ _ (eq_le dec law (paid-nothing h us)) nonneg
    ]

    distributed-paid :
        (us : List String) → (split dec pool t decimals us dec.zero).1 ≡ paid (shares_of us)
    distributed-paid us = elim (Bool-cases (dec.is_positive t.den)) [
      | inl h ↦
          split-distributed h us dec.zero
          ∙ (law.add_comm dec.zero (paid (shares_of us)) ∙ law.add_zero (paid (shares_of us)))
      | inr h ↦ split-nothing h us dec.zero ∙ sym (paid-nothing h us)
    ]

  -- With decimals that add and multiply exactly and divide towards zero, a sort that neither drops
  -- nor repeats a string, a reward and a factor that are not negative, and items of which no more
  -- is delivered than they require: the amounts of all shares together are at most the pool, and
  -- the remainder is not negative.
  pub compute_payout-within :
      (sort_strings : List String → List String)
      → ((u : String) (us : List String) → occurrences u (sort_strings us) ≡ occurrences u us)
      → (credits factor : dec.D) → dec.le dec.zero credits
      → dec.le dec.zero factor
      → (items : List (PayoutItem dec)) → Fulfilled dec law items
      → (decimals : ℕ)
      → dec.le
          (paid (compute_payout dec sort_strings credits factor items decimals).shares)
          (compute_payout dec sort_strings credits factor items decimals).pool
        × dec.le dec.zero (compute_payout dec sort_strings credits factor items decimals).remainder
  unfolding compute_payout
  compute_payout-within sort_strings sorts credits factor hc hf items full decimals =
      let t = tally dec items (no_tally dec) in
      let pool = dec.truncate (participant_pool dec credits factor) decimals in
      let users = sort_strings (deliverers dec t.delivered) in
      let fair = tally-IsFair dec law items (no_tally dec) (no_tally-IsFair dec law) in
      let once : IsOnce users = λ u.
        omega (arith, sorts u (deliverers dec t.delivered), deliverers-IsOnce dec law t fair u) in
      let le =
        tally-total dec law users once items (no_tally dec) full
          (eq_le dec law (total-zero users)) in
      let nonneg : dec.le dec.zero pool = law.truncate_le _ decimals (
        law.shift_le _ (
          law.trans_le _ _ _ (eq_le dec law (sym (law.mul_zero credits)))
            (law.mul_mono credits _ _ hc hf))) in
      let within = paid-pool pool t decimals nonneg fair.nonneg users le in
      (
        law.trans_le _ _ _ (eq_le dec law (ap paid (split-shares pool t decimals users dec.zero)))
            within,
        law.sub_le _ _
            (law.trans_le _ _ _ (eq_le dec law (distributed-paid pool t decimals users)) within),
      )
