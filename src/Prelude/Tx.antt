-- ===== src/Prelude/Tx.antt =====
-- A repository method runs in one database transaction: it reads and writes the tables and may
-- return early with an error. `commit` is `defer tx.Rollback`: an error undoes every write.
use mathlib.Core.Path.{◌≡◌, refl, subst}
use mathlib.Core.Bool.{Bool, true, false}

pub data Result (E A : Type 0) : Type 0 where
  ok : A → Result E A
  err : E → Result E A

abbrev pub Tx : Type 0 → Type 0 → Type 0 → Type 0
Tx E S A = S → Result E (A × S)

module _ {E S A : Type 0} where
  unfoldable pub pure : A → Tx E S A
  pure a s = ok (a, s)

  abbrev returned : S → Result E A → Result E (A × S)
  returned s (ok a) = ok (a, s)
  returned s (err e) = err e

  -- A query that may fail, and changes nothing.
  unfoldable pub reads : (S → Result E A) → Tx E S A
  reads f s = returned s (f s)

  unfoldable pub gets : (S → A) → Tx E S A
  gets f s = ok (f s, s)

  settle : Result E (A × S) → S → Result E A × S
  settle (ok (a, s')) s = (ok a, s')
  settle (err e) s = (err e, s)

  -- What the method returned, and the tables after it.
  unfoldable pub commit : Tx E S A → S → Result E A × S
  unfolding settle
  commit m s = settle (m s) s

module _ {E S : Type 0} where
  unfoldable pub write : (S → S) → Tx E S Unit
  write f s = ok (tt, f s)

  -- An early return with `e` unless the test passes.
  unfoldable pub guard : Bool → E → Tx E S Unit
  guard true e s = ok (tt, s)
  guard false e s = err e

  -- The same, for a test on the tables.
  unfoldable pub check : (S → Bool) → E → Tx E S Unit
  unfolding guard
  check p e s = guard (p s) e s

module _ {E S A B : Type 0} where
  abbrev continue : Result E (A × S) → (A → Tx E S B) → Result E (B × S)
  continue (ok (a, s)) f = f a s
  continue (err e) f = err e

  infixl 5 ◌>>=◌ ◌>>◌
  unfoldable pub ◌>>=◌ : Tx E S A → (A → Tx E S B) → Tx E S B
  unfolding pure reads gets write guard check
  ◌>>=◌ m f s = continue (m s) f

  abbrev pub ◌>>◌ : Tx E S A → Tx E S B → Tx E S B
  m >> k = m >>= λ _. k

module _ {E S A B : Type 0} where
  -- A query that fails ends the method.
  pub reads-err :
      (f : S → Result E A) (k : A → Tx E S B) (s : S) {e : E}
      → f s ≡ err e
      → (reads f >>= k) s ≡ err e
  unfolding ◌>>=◌
  reads-err f k s h = rw h refl

module _ {E S A : Type 0} where
  -- A method that fails leaves the tables as they were.
  pub commit-err : (m : Tx E S A) (s : S) {e : E} → m s ≡ err e → commit m s ≡ (err e, s)
  unfolding commit
  commit-err m s h = rw h refl

-- What holds of the value and the tables whenever a call has returned with no error.
pub record Ensures {E S A : Type 0} (r : Result E (A × S)) (Q : A → S → Type 0) : Type 0 where
  pub at : (a : A) (s : S) → r ≡ ok (a, s) → Q a s

module _ {E S A : Type 0} where
  ok-injective : {x y : A × S} → ◌≡◌ {A = Result E (A × S)} (ok x) (ok y) → x ≡ y
  ok-injective e = cc

module _ {E S A : Type 0} {Q : A → S → Type 0} where
  pub Ensures-ok : (a : A) (s : S) → Q a s → Ensures {E = E} (ok (a, s)) Q
  Ensures-ok a s h = record {
    at = λ b s' e. subst (λ (p : A × S). Q p.0 p.1) (ok-injective {x = (a, s)} {y = (b, s')} e) h;
  }

  pub Ensures-err : (e : E) → Ensures {E = E} {S = S} {A = A} (err e) Q
  Ensures-err e = record { at = λ b s' q. cc }

  pub Ensures-pure : (a : A) (s : S) → Q a s → Ensures {E = E} (pure a s) Q
  unfolding pure
  Ensures-pure a s h = Ensures-ok a s h

  pub Ensures-weaken :
      (r : Result E (A × S)) (R : A → S → Type 0)
      → Ensures r R
      → ((a : A) (s : S) → R a s → Q a s)
      → Ensures r Q
  Ensures-weaken r R h k = record { at = λ a s e. k a s (h.at a s e) }

module _ {E S A B : Type 0} {Q : B → S → Type 0} where
  Ensures-returned :
      (r : Result E A) (k : A → Tx E S B) (s : S)
      → ((a : A) → r ≡ ok a → Ensures (k a s) Q)
      → Ensures (continue (returned s r) k) Q
  Ensures-returned (ok a) k s h = h a refl
  Ensures-returned (err e) k s h = Ensures-err e

  pub Ensures-reads :
      (f : S → Result E A) (k : A → Tx E S B) (s : S)
      → ((a : A) → f s ≡ ok a → Ensures (k a s) Q)
      → Ensures ((reads f >>= k) s) Q
  unfolding ◌>>=◌
  Ensures-reads f k s h = Ensures-returned (f s) k s h

  pub Ensures-gets :
      (f : S → A) (k : A → Tx E S B) (s : S) → Ensures (k (f s) s) Q → Ensures ((gets f >>= k) s) Q
  unfolding ◌>>=◌
  Ensures-gets f k s h = h

  Ensures-continue :
      (r : Result E (A × S)) (R : A → S → Type 0) (k : A → Tx E S B)
      → Ensures r R
      → ((a : A) (s' : S) → R a s' → Ensures (k a s') Q)
      → Ensures (continue r k) Q
  Ensures-continue (ok (a, s)) R k hm hk = hk a s (hm.at a s refl)
  Ensures-continue (err e) R k hm hk = Ensures-err e

  pub Ensures-bind :
      (m : Tx E S A) (R : A → S → Type 0) (k : A → Tx E S B) (s : S)
      → Ensures (m s) R
      → ((a : A) (s' : S) → R a s' → Ensures (k a s') Q)
      → Ensures ((m >>= k) s) Q
  unfolding ◌>>=◌
  Ensures-bind m R k s hm hk = Ensures-continue (m s) R k hm hk

module _ {E S B : Type 0} {Q : B → S → Type 0} where
  pub Ensures-write :
      (f : S → S) (k : Tx E S B) (s : S) → Ensures (k (f s)) Q → Ensures ((write f >> k) s) Q
  unfolding ◌>>=◌
  Ensures-write f k s h = h

  Ensures-unless :
      (t : Bool) (e : E) (k : Unit {0} → Tx E S B) (s : S)
      → (t ≡ true → Ensures (k tt s) Q)
      → Ensures (continue (guard t e s) k) Q
  unfolding guard
  Ensures-unless true e k s h = h refl
  Ensures-unless false e k s h = Ensures-err e

  pub Ensures-guard :
      (t : Bool) (e : E) (k : Tx E S B) (s : S)
      → (t ≡ true → Ensures (k s) Q)
      → Ensures ((guard t e >> k) s) Q
  unfolding ◌>>=◌
  Ensures-guard t e k s h = Ensures-unless t e (λ _. k) s h

  pub Ensures-check :
      (p : S → Bool) (e : E) (k : Tx E S B) (s : S)
      → (p s ≡ true → Ensures (k s) Q)
      → Ensures ((check p e >> k) s) Q
  unfolding ◌>>=◌
  Ensures-check p e k s h = Ensures-unless (p s) e (λ _. k) s h

module _ {E S A : Type 0} (P : S → Type 0) where
  keeps_helper : (r : Result E (A × S)) (s : S) → Ensures r (λ _ s'. P s') → P s → P (settle r s).1
  unfolding settle
  keeps_helper (ok (a, s')) s h p = h.at a s' refl
  keeps_helper (err e) s h p = p

  -- An invariant that the method keeps when it returns holds after the transaction, also where an
  -- error has rolled it back.
  pub commit-keeps : (m : Tx E S A) (s : S) → Ensures (m s) (λ _ s'. P s') → P s → P (commit m s).1
  unfolding commit
  commit-keeps m s h p = keeps_helper (m s) s h p

module _ {E S : Type 0} {Q : Unit {0} → S → Type 0} where
  pub Ensures-write_last : (f : S → S) (s : S) → Q tt (f s) → Ensures {E = E} (write f s) Q
  unfolding write
  Ensures-write_last f s h = Ensures-ok tt (f s) h

-- For `search`: a `do` block is taken apart statement by statement.
pub ruleset tx_rules = (
  Ensures-pure, Ensures-reads, Ensures-gets, Ensures-write, Ensures-guard, Ensures-check,
  Ensures-write_last,
)
