-- ===== src/Payout/Tests.antt =====
-- The split of a reward of 1000 credits at a factor of 50 percent, in whole credits.
use native.Mathlib.Nat.{
  mul_comm, mul-add, mul-zero, mul-le-mul_left, le_of_mul-le-mul_left, mul-div-le,
}
use spacecraft_corporation.Prelude.{ℕ, ◌+◌, ◌*◌, ◌-◌, ◌/◌, ◌≤◌, refl, List, [], ◌∷◌, ltb, arith}
use spacecraft_corporation.Payout.Arithmetic.{Decimals, IsExact}
use spacecraft_corporation.Payout.{PayoutItem, compute_payout}
use spacecraft_corporation.Payout.Split.{paid, compute_payout-within}

-- Numbers without a fraction.
abbrev whole : Decimals
whole = record {
  D = ℕ;
  zero = 0;
  add = λ a b. a + b;
  mul = λ a b. a * b;
  sub = λ a b. a - b;
  from_int = λ n. n;
  is_positive = λ a. ltb 0 a;
  shift_2 = λ a. a / 100;
  truncate = λ a n. a;
  quo = λ a b n. a / b;
  div_round = λ a b n. a / b;
  le = λ a b. a ≤ b;
}

whole-IsExact : IsExact whole
whole-IsExact = record {
  add_assoc = λ a b c. omega arith;
  add_comm = λ a b. omega arith;
  add_zero = λ a. omega arith;
  mul_comm = λ a b. mul_comm a b;
  mul_add = λ a b c. mul-add a b c;
  mul_zero = λ a. mul-zero a;
  from_int_add = λ m n. refl;
  from_int_zero = refl;
  from_int_mono = λ m n h. h;
  refl_le = λ a. omega arith;
  trans_le = λ a b c h k. omega arith;
  add_mono = λ a b c d h k. omega arith;
  mul_mono = λ c a b z h. mul-le-mul_left c h;
  mul_cancel = λ c a b p h. le_of_mul-le-mul_left {m = a} {n = b} {k = c} h (ground arith);
  positive_le = λ a h. omega arith;
  sub_le = λ a b h. omega arith;
  shift_le = λ a h. omega arith;
  truncate_le = λ a n h. omega arith;
  quo_le = λ a b n p h. mul-div-le a b;
}

abbrev items : List (PayoutItem whole)
items =
    record {
      name = "ore";
      unit_value = 3;
      required_qty = 10;
      delivered =
          record { user_id = "bob"; delivered = 8 }
          ∷ record { user_id = "eve"; delivered = 2 }
          ∷ [];
    }
    ∷ record {
      name = "dust";
      unit_value = 0;
      required_qty = 5;
      delivered = record { user_id = "eve"; delivered = 5 } ∷ [];
    }
    ∷ []

compute_payout-within_example :
    (paid whole whole-IsExact (compute_payout whole (λ us. us) 1000 50 items 0).shares
      ≤ (compute_payout whole (λ us. us) 1000 50 items 0).pool)
    × (0 ≤ (compute_payout whole (λ us. us) 1000 50 items 0).remainder)
compute_payout-within_example =
    compute_payout-within whole whole-IsExact (λ us. us) (λ u us. refl) 1000 50 (omega arith)
      (omega arith) items (omega arith, (omega arith, tt)) 0
