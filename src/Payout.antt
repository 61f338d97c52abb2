-- ===== src/Payout.antt =====
-- computePayout of internal/features/contracts/payout.go: the split of a completed contract's
-- participant pool over its deliverers, in proportion to the value that each delivered.
pub mod Arithmetic
pub mod Sums
mod Entries
pub mod Split
mod Tests
use spacecraft_corporation.Prelude.{
  ℕ, ◌+◌, String, Bool, true, false, not, ◌||◌, List, [], ◌∷◌, ltb, if◌then◌else◌, str_eq,
}
use spacecraft_corporation.Payout.Arithmetic.{Decimals}

pub record Participant : Type 0 where
  pub user_id : String
  pub delivered : ℕ

module _ (dec : Decimals) where
  -- payoutItem
  pub record PayoutItem : Type 0 where
    pub name : String
    pub unit_value : dec.D
    pub required_qty : ℕ
    pub delivered : List Participant

  -- Payout: the name is filled in by the task handler.
  pub record Share : Type 0 where
    pub user_id : String
    pub amount : dec.D
    pub share_percent : dec.D

  -- payoutResult
  pub record PayoutResult : Type 0 where
    pub pool : dec.D
    pub shares : List Share
    pub remainder : dec.D
    pub zero_value : Bool
    pub priceless : List String

  -- The variables of the loop over the items: den, the map nums, the map delivered by its entries,
  -- and res.Priceless.
  pub record Tally : Type 0 where
    pub den : dec.D
    pub nums : String → dec.D
    pub delivered : List (String × ℕ)
    pub priceless : List String

  abbrev pub participant_pool : dec.D → dec.D → dec.D
  participant_pool credits factor = dec.shift_2 (dec.mul credits factor)

  -- delivered[id] += qty
  abbrev pub add_delivered : String → ℕ → List (String × ℕ) → List (String × ℕ)
  add_delivered id qty [] = (id, qty) ∷ []
  add_delivered id qty ((u, n) ∷ rest) =
      let rest' = add_delivered id qty rest in
      if str_eq u id then (u, n + qty) ∷ rest else (u, n) ∷ rest'

  -- nums[id] = nums[id].Add(value)
  abbrev pub add_num : String → dec.D → (String → dec.D) → String → dec.D
  add_num id value nums u = if str_eq u id then dec.add (nums u) value else nums u

  -- The loop over the participants of an item without a value.
  unfoldable pub tally_free : List Participant → Tally → Tally
  tally_free [] t = t
  tally_free (p ∷ ps) t =
      tally_free ps (record t { delivered = add_delivered p.user_id p.delivered t.delivered })

  abbrev pub tally_one : dec.D → Participant → Tally → Tally
  tally_one value p t = record t {
    delivered = add_delivered p.user_id p.delivered t.delivered;
    nums =
        if ltb 0 p.delivered
        then add_num p.user_id (dec.mul value (dec.from_int p.delivered)) t.nums
        else t.nums;
  }

  -- The loop over the participants of an item with a value.
  unfoldable pub tally_valued : dec.D → List Participant → Tally → Tally
  tally_valued value [] t = t
  tally_valued value (p ∷ ps) t = tally_valued value ps (tally_one value p t)

  append_name : List String → String → List String
  append_name [] n = n ∷ []
  append_name (x ∷ xs) n = x ∷ append_name xs n

  -- One round of the loop over the items.
  unfoldable pub tally_item : PayoutItem → Tally → Tally
  unfolding append_name
  tally_item it t =
      if not (dec.is_positive it.unit_value)
      then tally_free it.delivered (record t { priceless = append_name t.priceless it.name })
      else tally_valued it.unit_value it.delivered
          (record t { den = dec.add t.den (dec.mul it.unit_value (dec.from_int it.required_qty)) })

  unfoldable pub tally : List PayoutItem → Tally → Tally
  tally [] t = t
  tally (it ∷ its) t = tally its (tally_item it t)

  abbrev pub no_tally : Tally
  no_tally = record { den = dec.zero; nums = λ u. dec.zero; delivered = []; priceless = [] }

  -- The users who delivered anything.
  abbrev pub deliverers : List (String × ℕ) → List String
  deliverers [] = []
  deliverers ((u, n) ∷ rest) = let us = deliverers rest in if ltb 0 n then u ∷ us else us

  -- The amount of one user, rounded towards zero at the precision, and the percentage.
  abbrev pub share_of : dec.D → Tally → ℕ → String → Share
  share_of pool t decimals u =
      if not (dec.is_positive t.den)
      then record { user_id = u; amount = dec.zero; share_percent = dec.zero }
      else record {
        user_id = u;
        amount = dec.quo (dec.mul pool (t.nums u)) t.den decimals;
        share_percent = dec.div_round (dec.mul (t.nums u) (dec.from_int 100)) t.den 6;
      }

  -- The loop over the users: the shares, and `distributed`.
  unfoldable pub split : dec.D → Tally → ℕ → List String → dec.D → List Share × dec.D
  split pool t decimals [] distributed = ([], distributed)
  split pool t decimals (u ∷ us) distributed =
      let s = share_of pool t decimals u in
      let rest =
        split pool t decimals us
          (if not (dec.is_positive t.den) then distributed else dec.add distributed s.amount) in
      (s ∷ rest.0, rest.1)

  -- `sort_strings` is sort.Strings.
  unfoldable pub compute_payout :
      (sort_strings : List String → List String) (credits factor : dec.D) (items : List PayoutItem)
      (decimals : ℕ)
      → PayoutResult
  compute_payout sort_strings credits factor items decimals =
      let pool = dec.truncate (participant_pool credits factor) decimals in
      let t = tally items no_tally in
      let users = sort_strings (deliverers t.delivered) in
      let (shares, distributed) = split pool t decimals users dec.zero in
      record {
        pool = pool;
        shares = shares;
        remainder = dec.sub pool distributed;
        zero_value = not (dec.is_positive t.den);
        priceless = t.priceless;
      }
