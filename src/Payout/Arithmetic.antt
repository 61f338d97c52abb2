-- ===== src/Payout/Arithmetic.antt =====
-- The part of github.com/shopspring/decimal that the payout computation calls, as a parameter, and
-- what it relies on: exact addition and multiplication, and division that rounds towards zero.
use spacecraft_corporation.Prelude.{ℕ, ◌+◌, ◌≤◌, ◌≡◌, Bool, true}

pub record Decimals : Type 1 where
  pub D : Type 0
  pub zero : D
  pub add : D → D → D
  pub mul : D → D → D
  pub sub : D → D → D
  pub from_int : ℕ → D
  pub is_positive : D → Bool
  -- Shift(-2)
  pub shift_2 : D → D
  pub truncate : D → ℕ → D
  -- The quotient of QuoRem at a precision.
  pub quo : D → D → ℕ → D
  pub div_round : D → D → ℕ → D
  -- LessThanOrEqual
  pub le : D → D → Type 0

pub record IsExact (dec : Decimals) : Type 0 where
  pub add_assoc : (a b c : dec.D) → dec.add (dec.add a b) c ≡ dec.add a (dec.add b c)
  pub add_comm : (a b : dec.D) → dec.add a b ≡ dec.add b a
  pub add_zero : (a : dec.D) → dec.add a dec.zero ≡ a
  pub mul_comm : (a b : dec.D) → dec.mul a b ≡ dec.mul b a
  pub mul_add : (a b c : dec.D) → dec.mul a (dec.add b c) ≡ dec.add (dec.mul a b) (dec.mul a c)
  pub mul_zero : (a : dec.D) → dec.mul a dec.zero ≡ dec.zero
  pub from_int_add : (m n : ℕ) → dec.from_int (m + n) ≡ dec.add (dec.from_int m) (dec.from_int n)
  pub from_int_zero : dec.from_int 0 ≡ dec.zero
  pub from_int_mono : (m n : ℕ) → m ≤ n → dec.le (dec.from_int m) (dec.from_int n)
  pub refl_le : (a : dec.D) → dec.le a a
  pub trans_le : (a b c : dec.D) → dec.le a b → dec.le b c → dec.le a c
  pub add_mono : (a b c d : dec.D) → dec.le a b → dec.le c d → dec.le (dec.add a c) (dec.add b d)
  pub mul_mono :
      (c a b : dec.D) → dec.le dec.zero c → dec.le a b → dec.le (dec.mul c a) (dec.mul c b)
  pub mul_cancel :
      (c a b : dec.D) → dec.is_positive c ≡ true → dec.le (dec.mul c a) (dec.mul c b) → dec.le a b
  pub positive_le : (a : dec.D) → dec.is_positive a ≡ true → dec.le dec.zero a
  pub sub_le : (a b : dec.D) → dec.le b a → dec.le dec.zero (dec.sub a b)
  pub shift_le : (a : dec.D) → dec.le dec.zero a → dec.le dec.zero (dec.shift_2 a)
  pub truncate_le : (a : dec.D) (n : ℕ) → dec.le dec.zero a → dec.le dec.zero (dec.truncate a n)
  pub quo_le :
      (a b : dec.D) (n : ℕ)
      → dec.is_positive b ≡ true
      → dec.le dec.zero a
      → dec.le (dec.mul b (dec.quo a b n)) a
