-- ===== src/Feature/Ordered.antt =====
-- The order that resolve gives: where no feature requires itself through others, each feature
-- stands once, behind all that it requires.
use mathlib.Core.List.{append-nil, append_assoc}
use spacecraft_corporation.Prelude.{
  ℕ, zero, suc, ◌+◌, ◌≤◌, ◌<◌, String, ◌≡◌, ◌⊎◌, refl, sym, subst, true, false, ◌||◌, inl, inr,
  Option, none, some, List, [], ◌∷◌, ◌++◌, arith, length, str_eq, eq_iff, text_in, All, Bool-cases,
}
use spacecraft_corporation.Feature.{
  Feature, Visit, Outcome, is_named, lookup, then_visit, each, enter, leave, expand, visit, resolve,
}

text_in-append :
    (x : String) (xs ys : List String) → text_in x (xs ++ ys) ≡ (text_in x xs || text_in x ys)
text_in-append x [] ys = refl
text_in-append x (y ∷ ys) zs = ground (arith, text_in-append x ys zs)

module _ (features : List Feature) where
  -- The feature is known, and what it requires is among the names.
  abbrev pub Provided : List String → String → Type 0
  Provided names n =
      (x : Feature) × (lookup features n ≡ some x) × All (λ d. text_in d names ≡ true) x.requires

  -- Behind `before`: each name is new, and what it requires comes earlier.
  abbrev pub InOrder : List String → List String → Type 0
  InOrder before [] = Unit
  InOrder before (n ∷ ns) =
      (text_in n before ≡ false) × Provided before n × InOrder (before ++ (n ∷ [])) ns

  InOrder-append :
      (before ns : List String) (n : String)
      → InOrder before ns
      → text_in n (before ++ ns) ≡ false
      → Provided (before ++ ns) n
      → InOrder before (ns ++ (n ∷ []))
  InOrder-append before [] n o fresh p =
      let end = append-nil before in
      (
        subst (λ names. text_in n names ≡ false) end fresh,
        subst (λ names. Provided names n) end p,
        tt,
      )
  InOrder-append before (m ∷ ns) n o fresh p =
      let shift = append_assoc before (m ∷ []) ns in
      (
        o.0,
        o.1,
        InOrder-append (before ++ (m ∷ [])) ns n o.2 (rw shift fresh)
            (subst (λ names. Provided names n) (sym shift) p),
      )

  -- From `v` to `w`: nothing is lost, what is new was not seen before, and what is seen but not
  -- out had been seen before.
  record IsStep (v w : Visit) : Type 0 where
    pub order : InOrder [] w.out
    pub grows : (x : String) → text_in x v.seen ≡ true → text_in x w.seen ≡ true
    pub kept : (x : String) → text_in x v.out ≡ true → text_in x w.out ≡ true
    pub left :
        (x : String)
        → text_in x w.seen ≡ true
        → (text_in x w.out ≡ true) ⊎ (text_in x v.seen ≡ true)
    pub fresh :
        (x : String)
        → text_in x w.out ≡ true
        → (text_in x v.out ≡ true) ⊎ (text_in x v.seen ≡ false)

  IsStep-refl : (v : Visit) → InOrder [] v.out → IsStep v v
  IsStep-refl v o = record {
    order = o;
    grows = λ x e. e;
    kept = λ x e. e;
    left = λ x e. inr e;
    fresh = λ x e. inl e;
  }

  IsStep-trans : (u v w : Visit) → IsStep u v → IsStep v w → IsStep u w
  IsStep-trans u v w a b = record {
    order = b.order;
    grows = λ x e. b.grows x (a.grows x e);
    kept = λ x e. b.kept x (a.kept x e);
    left = λ x e. elim (b.left x e) [
      | inl out ↦ inl out
      | inr seen ↦ elim (a.left x seen) [ inl out ↦ inl (b.kept x out) | inr old ↦ inr old ]
    ];
    fresh = λ x e. elim (b.fresh x e) [
      | inl out ↦ a.fresh x out
      | inr new ↦ inr (elim (Bool-cases (text_in x u.seen)) [
        | inl old ↦ ground (arith, a.grows x old)
        | inr never ↦ never
      ])
    ];
  }

  module _ (rank : String → ℕ) where
    -- Each feature ranks above what it requires.
    pub record IsAcyclic : Type 0 where
      pub below :
          (n : String) (x : Feature)
          → lookup features n ≡ some x
          → All (λ d. rank d < rank n) x.requires

    -- What has been entered and not left ranks at `r` or above.
    record IsReady (r : ℕ) (v : Visit) : Type 0 where
      pub order : InOrder [] v.out
      pub entered : (x : String) → text_in x v.seen ≡ true → (text_in x v.out ≡ true) ⊎ (r ≤ rank x)
      pub out_seen : (x : String) → text_in x v.out ≡ true → text_in x v.seen ≡ true

    IsReady-step :
        (r : ℕ) (v w : Visit)
        → IsReady r v
        → IsStep v w
        → ((x : String) → text_in x w.out ≡ true → text_in x w.seen ≡ true)
        → IsReady r w
    IsReady-step r v w h s out_seen = record {
      order = s.order;
      entered = λ x e. elim (s.left x e) [
        | inl out ↦ inl out
        | inr old ↦ elim (h.entered x old) [ inl out ↦ inl (s.kept x out) | inr le ↦ inr le ]
      ];
      out_seen = out_seen;
    }

    -- What a visit of the names `ns` from `v` leaves.
    abbrev Visits : List String → Visit → Outcome → Type 0
    Visits ns v (Outcome.done w) =
        IsStep v w
        × ((x : String) → text_in x w.out ≡ true → text_in x w.seen ≡ true)
        × All (λ n. text_in n w.out ≡ true) ns
    Visits ns v _ = Unit

    Visits-next :
        (n : String) (ns : List String) (v w : Visit) (o : Outcome)
        → Visits (n ∷ []) v (Outcome.done w)
        → Visits ns w o
        → Visits (n ∷ ns) v o
    Visits-next n ns v w (Outcome.done u) a b =
        (IsStep-trans v w u a.0 b.0, b.1, (b.0.kept n a.2.0, b.2))
    Visits-next n ns v w (Outcome.unknown _) a b = tt
    Visits-next n ns v w Outcome.out_of_fuel a b = tt

    then_visit-Visits :
        (n : String) (ns : List String) (v : Visit) (o : Outcome) (k : Visit → Outcome)
        → Visits (n ∷ []) v o
        → ((w : Visit) → Visits (n ∷ []) v (Outcome.done w) → Visits ns w (k w))
        → Visits (n ∷ ns) v (then_visit o k)
    then_visit-Visits n ns v (Outcome.done w) k a h = Visits-next n ns v w (k w) a (h w a)
    then_visit-Visits n ns v (Outcome.unknown _) k a h = tt
    then_visit-Visits n ns v Outcome.out_of_fuel k a h = tt

    each-Visits :
        (f : Visit → String → Outcome) (r : ℕ)
        → ((v : Visit) (n : String) → IsReady r v → rank n < r → Visits (n ∷ []) v (f v n))
        → (ns : List String) (v : Visit) → All (λ n. rank n < r) ns
        → IsReady r v
        → Visits ns v (each f ns v)
    unfolding each
    each-Visits f r h [] v lt ready = (IsStep-refl v ready.order, ready.out_seen, tt)
    each-Visits f r h (n ∷ ns) v lt ready =
        then_visit-Visits n ns v (f v n) (each f ns) (h v n ready lt.0)
          (λ w a. each-Visits f r h ns w lt.1 (IsReady-step r v w ready a.0 a.1))

    enter-IsReady :
        (r : ℕ) (v : Visit) (n : String) → rank n < r → IsReady r v → IsReady (rank n) (enter n v)
    enter-IsReady r v n lt h = record {
      order = h.order;
      entered = λ x e. elim (Bool-cases (str_eq x n)) [
        | inl is ↦ let same : x ≡ n = ground (arith, eq_iff x n) in inr (rw same (omega arith))
        | inr other ↦ elim (h.entered x (ground arith)) [
          | inl out ↦ inl out
          | inr le ↦ inr (omega arith)
        ]
      ];
      out_seen = λ x e. ground (arith, h.out_seen x e);
    }

    module _ (n : String) (v : Visit) (fresh : text_in n v.seen ≡ false)
        (out_seen : (x : String) → text_in x v.out ≡ true → text_in x v.seen ≡ true) where
      not_out : (w : Visit) → IsStep (enter n v) w → text_in n w.out ≡ false
      not_out w s = elim (Bool-cases (text_in n w.out)) [
        | inl t ↦ elim (s.fresh n t) [
          | inl out ↦ ground (arith, out_seen n out)
          | inr never ↦ ground (arith, eq_iff n n)
        ]
        | inr f ↦ f
      ]

      at_end :
          (x : String) (w : Visit) → text_in x (leave n w).out ≡ (text_in x w.out || str_eq x n)
      at_end x w = ground (arith, text_in-append x w.out (n ∷ []))

      leave-IsStep :
          (w : Visit) (x : Feature)
          → lookup features n ≡ some x
          → IsStep (enter n v) w
          → All (λ d. text_in d w.out ≡ true) x.requires
          → IsStep v (leave n w)
      leave-IsStep w x e s all = record {
        order = InOrder-append [] w.out n s.order (not_out w s) (x, e, all);
        grows = λ y t. s.grows y (ground arith);
        kept = λ y t. ground (arith, at_end y w, s.kept y t);
        left = λ y t. elim (s.left y t) [
          | inl out ↦ inl (ground (arith, at_end y w))
          | inr old ↦ elim (Bool-cases (str_eq y n)) [
            | inl is ↦ inl (ground (arith, at_end y w))
            | inr other ↦ inr (ground arith)
          ]
        ];
        fresh = λ y t. elim (Bool-cases (text_in y w.out)) [
          | inl out ↦ elim (s.fresh y out) [ inl old ↦ inl old | inr never ↦ inr (ground arith) ]
          | inr not_yet ↦
              let same : y ≡ n = ground (arith, eq_iff y n, at_end y w) in inr (rw same fresh)
        ];
      }

      leave-out_seen :
          (w : Visit)
          → IsStep (enter n v) w
          → ((y : String) → text_in y w.out ≡ true → text_in y w.seen ≡ true)
          → (y : String) → text_in y (leave n w).out ≡ true
          → text_in y w.seen ≡ true
      leave-out_seen w s h y t = elim (Bool-cases (text_in y w.out)) [
        | inl out ↦ h y out
        | inr not_yet ↦ s.grows y (ground (arith, at_end y w))
      ]

      leave-Visits :
          (x : Feature) (o : Outcome)
          → lookup features n ≡ some x
          → Visits x.requires (enter n v) o
          → Visits (n ∷ []) v (then_visit o (λ w. Outcome.done (leave n w)))
      leave-Visits x (Outcome.done w) e a = (
        leave-IsStep w x e a.0 a.2,
        leave-out_seen w a.0 a.1,
        (ground (arith, at_end n w, eq_iff n n), tt),
      )
      leave-Visits x (Outcome.unknown _) e a = tt
      leave-Visits x Outcome.out_of_fuel e a = tt

    module _ (acyclic : IsAcyclic) where
      visit-Visits :
          (fuel r : ℕ) (v : Visit) (n : String)
          → IsReady r v
          → rank n < r
          → Visits (n ∷ []) v (visit features fuel v n)
      unfolding visit
      visit-Visits zero r v n ready lt = tt
      visit-Visits (suc fuel) r v n ready lt = elim (Bool-cases (text_in n v.seen)) [
        | inl t ↦
            let out : text_in n v.out ≡ true = elim (ready.entered n t) [
              | inl o ↦ o
              | inr le ↦ absurd (omega arith)
            ] in
            rw t (IsStep-refl v ready.order, ready.out_seen, (out, tt))
        | inr fresh ↦ rw fresh (
            expanded fuel r v n ready lt fresh (lookup features n) refl
              (λ w m h k. visit-Visits fuel (rank n) w m h k))
      ]
        where
          expanded :
              (fuel r : ℕ) (v : Visit) (n : String)
              → IsReady r v
              → rank n < r
              → text_in n v.seen ≡ false
              → (found : Option Feature) → lookup features n ≡ found
              → ((w : Visit) (m : String)
                  → IsReady (rank n) w
                  → rank m < rank n
                  → Visits (m ∷ []) w (visit features fuel w m))
              → Visits (n ∷ []) v (expand (visit features fuel) n v found)
          expanded fuel r v n ready lt fresh none e h = tt
          expanded fuel r v n ready lt fresh (some x) e h =
              leave-Visits n v fresh ready.out_seen x _ e (
                each-Visits (visit features fuel) (rank n) h x.requires (enter n v)
                  (acyclic.below n x e) (enter-IsReady r v n lt ready))

      above_all : List String → ℕ
      above_all [] = 0
      above_all (n ∷ ns) = suc (rank n) + above_all ns

      ranks_below : (r : ℕ) (ns : List String) → above_all ns ≤ r → All (λ n. rank n < r) ns
      unfolding above_all
      ranks_below r [] h = tt
      ranks_below r (n ∷ ns) h = (omega arith, ranks_below r ns (omega arith))

      blank-IsReady : (r : ℕ) → IsReady r (record { seen = []; out = [] })
      blank-IsReady r = record { order = tt; entered = λ x e. cc; out_seen = λ x e. e }

      -- Where no feature requires itself, directly or through others, and resolve gives a list:
      -- each feature of the list is known, stands once, and stands behind all that it requires,
      -- and the selected features are all in the list.
      pub resolve-InOrder :
          (selected : List String) (w : Visit)
          → resolve features selected ≡ Outcome.done w
          → InOrder [] w.out × All (λ n. text_in n w.out ≡ true) selected
      unfolding resolve
      resolve-InOrder selected w e =
          let r : ℕ = above_all selected in
          let visits : Visits selected (record { seen = []; out = [] })
              (resolve features selected) =
            each-Visits (visit features (suc (length features))) r
              (λ v n ready lt. visit-Visits (suc (length features)) r v n ready lt) selected _
              (ranks_below r selected (omega arith)) (blank-IsReady r) in
          let steps : Visits selected (record { seen = []; out = [] }) (Outcome.done w) =
            subst (Visits selected (record { seen = []; out = [] })) e visits in
          (steps.0.order, steps.2)

-- It is enough that every row of the catalog ranks above what it requires.
pub ranked-IsAcyclic :
    (rank : String → ℕ) (features : List Feature)
    → All (λ (f : Feature). All (λ d. rank d < rank f.name) f.requires) features
    → IsAcyclic features rank
unfolding lookup
ranked-IsAcyclic rank features h = record { below = below features h }
  where
    below :
        (fs : List Feature)
        → All (λ (f : Feature). All (λ d. rank d < rank f.name) f.requires) fs
        → (n : String) (x : Feature) → lookup fs n ≡ some x
        → All (λ d. rank d < rank n) x.requires
    below [] h n x e = cc
    below (f ∷ fs) h n x e = elim (Bool-cases (is_named n f)) [
      | inl t ↦
          let name : f.name ≡ n = ground (arith, eq_iff f.name n) in
          let row : f ≡ x = ground arith in
          subst (λ (y : Feature). All (λ d. rank d < rank n) y.requires) row
            (subst (λ m. All (λ d. rank d < rank m) f.requires) name h.0)
      | inr t ↦ below fs h.1 n x (ground arith)
    ]
