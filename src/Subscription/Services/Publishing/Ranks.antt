-- ===== src/Subscription/Services/Publishing/Ranks.antt =====
-- The order in which Service_Publish of src/server/ua_services_subscription.c looks at the
-- subscriptions of a session.
use opcua_tsn_lo_i.Base.{
  ℕ, suc, ◌+◌, ◌≤◌, ◌<◌, ◌≡◌, ◌≢◌, ◌⊎◌, refl, sym, subst, Bool, true, false, not, ◌||◌, none, some,
  List, [], ◌∷◌, ◌++◌, arith, ◌==◌, ltb, if◌then◌else◌, length, inl, inr, Bool-cases, ==_iff,
}
use opcua_tsn_lo_i.Subscription.{Subscription}
use opcua_tsn_lo_i.Subscription.Services.{Session}
use opcua_tsn_lo_i.Subscription.Services.Publishing.{is_late, list_after, first_late, immediate}

-- Where the subscription with that identifier stands.
unfoldable pub rank : {V : Type 0} → ℕ → List (Subscription V) → ℕ
rank i [] = 0
rank i (s ∷ ss) = if s.subscription_id == i then 0 else suc (rank i ss)

unfoldable pub listed : {V : Type 0} → ℕ → List (Subscription V) → Bool
listed i [] = false
listed i (s ∷ ss) = if s.subscription_id == i then true else listed i ss

-- The order in which the subscriptions are looked at.
unfoldable pub turns : {V : Type 0} → ℕ → List (Subscription V) → List (Subscription V)
turns seen ss = if ltb 0 seen then list_after seen ss ++ ss else ss

-- No identifier stands twice, and none is 0.
abbrev pub AreDistinct : {V : Type 0} → List (Subscription V) → Type 0
AreDistinct [] = Unit {0}
AreDistinct (s ∷ ss) =
    (listed s.subscription_id ss ≡ false) × (1 ≤ s.subscription_id) × AreDistinct ss

-- What has that identifier is late.
abbrev pub AllLate : {V : Type 0} → ℕ → List (Subscription V) → Type 0
AllLate i [] = Unit {0}
AllLate i (s ∷ ss) = ((not (s.subscription_id == i) || is_late s) ≡ true) × AllLate i ss

module _ {V : Type 0} where
  pub late_if :
      (x : Subscription V) (i : ℕ)
      → (x.subscription_id == i) ≡ true
      → (not (x.subscription_id == i) || is_late x) ≡ true
      → is_late x ≡ true
  late_if x i e h = rw e at h

  pub first_late-append :
      (xs ys : List (Subscription V))
      → first_late (xs ++ ys) ≡ elim (first_late xs) [ none ↦ first_late ys | some s ↦ some s ]
  unfolding first_late
  first_late-append [] ys = refl
  first_late-append (x ∷ xs) ys = ground (arith, first_late-append xs ys)

  pub twice :
      (xs ys : List (Subscription V))
      → elim xs [
        | [] ↦ first_late ys
        | s ∷ ss ↦ elim (first_late (s ∷ ss)) [ some found ↦ some found | none ↦ first_late ys ]
      ]
        ≡ first_late (xs ++ ys)
  twice [] ys = refl
  twice (x ∷ xs) ys = sym (first_late-append (x ∷ xs) ys)

  -- The search finds the first late subscription in turn.
  pub immediate-in_turn :
      (ses : Session V)
      → immediate ses ≡ first_late (turns ses.last_seen_subscription_id ses.subscriptions)
  unfolding immediate turns
  immediate-in_turn ses = elim (Bool-cases (ltb 0 ses.last_seen_subscription_id)) [
    | inl e ↦
        rw (e, immediate)
          (twice (list_after ses.last_seen_subscription_id ses.subscriptions) ses.subscriptions)
    | inr e ↦ rw (e, immediate) refl
  ]

  pub listed-append :
      (i : ℕ) (xs ys : List (Subscription V)) → listed i ys ≡ true → listed i (xs ++ ys) ≡ true
  unfolding listed
  listed-append i [] ys h = h
  listed-append i (x ∷ xs) ys h = ground (arith, listed-append i xs ys h)

  pub AllLate-append :
      (i : ℕ) (xs ys : List (Subscription V)) → AllLate i xs → AllLate i ys → AllLate i (xs ++ ys)
  AllLate-append i [] ys h k = k
  AllLate-append i (x ∷ xs) ys h k = (h.0, AllLate-append i xs ys h.1 k)

  pub AllLate-after :
      (i j : ℕ) (xs : List (Subscription V)) → AllLate i xs → AllLate i (list_after j xs)
  unfolding list_after
  AllLate-after i j [] h = tt
  AllLate-after i j (x ∷ xs) h = elim (Bool-cases (x.subscription_id == j)) [
    | inl e ↦ rw e h.1
    | inr e ↦ rw e (AllLate-after i j xs h.1)
  ]

  pub listed-after :
      (i j : ℕ) (xs : List (Subscription V))
      → listed i (list_after j xs) ≡ true
      → listed i xs ≡ true
  unfolding listed list_after
  listed-after i j [] h = h
  listed-after i j (x ∷ xs) h = ground (arith, listed-after i j xs)

  pub listed-first_late :
      (xs : List (Subscription V)) (c : Subscription V)
      → first_late xs ≡ some c
      → (listed c.subscription_id xs ≡ true) × (is_late c ≡ true)
  unfolding listed first_late
  listed-first_late [] c h = cc
  listed-first_late (x ∷ xs) c h = elim (Bool-cases (is_late x)) [
    | inl e ↦
        (let q : some x ≡ some c = rw e at h in
          subst (λ y. (listed y.subscription_id (x ∷ xs) ≡ true) × (is_late y ≡ true))
            (let q' : x ≡ c = cc in q') (ground arith, e))
    | inr e ↦ (let ih = listed-first_late xs c (rw e at h) in (ground (arith, ih.0), ih.1))
  ]

  -- The subscription that is found is that one, or stands ahead of it.
  pub first_late-rank :
      (i : ℕ) (xs : List (Subscription V))
      → listed i xs ≡ true
      → AllLate i xs
      → (c : Subscription V) × (first_late xs ≡ some c)
        × ((c.subscription_id ≡ i) ⊎ (rank c.subscription_id xs < rank i xs))
  unfolding first_late rank listed
  first_late-rank i [] h l = cc
  first_late-rank i (x ∷ xs) h l = elim (Bool-cases (x.subscription_id == i)) [
    | inl e ↦ let z = late_if x i e l.0 in (x, rw z, inl ((==_iff x.subscription_id i).0 e))
    | inr e ↦ elim (Bool-cases (is_late x)) [
      | inl z ↦ (x, rw z, inr (ground arith))
      | inr z ↦
          let (c, f, r) = first_late-rank i xs (ground arith) l.1 in
          (c, rw z f, elim r [ inl q ↦ inl q | inr q ↦ inr (ground arith) ])
    ]
  ]

  pub other :
      (a c : ℕ) (xs : List (Subscription V))
      → listed a xs ≡ false
      → listed c xs ≡ true
      → (a == c) ≡ false
  other a c xs h k = elim (Bool-cases (a == c)) [
    | inl e ↦ let q = (==_iff a c).0 e in cc
    | inr e ↦ e
  ]

  pub list_after-after :
      (c k : ℕ) (xs : List (Subscription V))
      → AreDistinct xs
      → listed c (list_after k xs) ≡ true
      → list_after c (list_after k xs) ≡ list_after c xs
  unfolding list_after listed
  list_after-after c k [] d h = refl
  list_after-after c k (x ∷ xs) d h = elim (Bool-cases (x.subscription_id == k)) [
    | inl e ↦ (let g : listed c xs ≡ true = rw e at h in rw (e, other x.subscription_id c xs d.0 g))
    | inr e ↦
        (let g : listed c (list_after k xs) ≡ true = rw e at h in
          rw (e, other x.subscription_id c xs d.0 (listed-after c k xs g))
            (list_after-after c k xs d.2 g))
  ]

  -- What stands behind another one comes up.
  pub rank-after :
      (i c : ℕ) (xs ys : List (Subscription V))
      → listed c xs ≡ true
      → c ≢ i
      → rank c (xs ++ ys) < rank i (xs ++ ys)
      → rank i (list_after c xs ++ ys) < rank i (xs ++ ys)
  unfolding rank list_after listed
  rank-after i c [] ys h d r = cc
  rank-after i c (x ∷ xs) ys h d r = ground (arith, rank-after i c xs ys)

  pub rank-append :
      (i : ℕ) (xs ys : List (Subscription V)) → listed i xs ≡ true → rank i (xs ++ ys) ≡ rank i xs
  unfolding rank listed
  rank-append i [] ys h = cc
  rank-append i (x ∷ xs) ys h = ground (arith, rank-append i xs ys)

  pub rank-skip :
      (i : ℕ) (xs ys : List (Subscription V))
      → listed i xs ≡ false
      → rank i (xs ++ ys) ≡ length xs + rank i ys
  unfolding rank listed
  rank-skip i [] ys h = omega arith
  rank-skip i (x ∷ xs) ys h = ground (arith, rank-skip i xs ys)

  pub positive :
      (i : ℕ) (xs : List (Subscription V)) → AreDistinct xs → listed i xs ≡ true → ltb 0 i ≡ true
  unfolding listed
  positive i [] d h = cc
  positive i (x ∷ xs) d h = ground (arith, positive i xs d.2)

  pub first_late-none :
      (i : ℕ) (xs : List (Subscription V))
      → AllLate i xs
      → first_late xs ≡ none
      → listed i xs ≡ false
  unfolding listed first_late
  first_late-none i [] l h = refl
  first_late-none i (x ∷ xs) l h = elim (Bool-cases (x.subscription_id == i)) [
    | inl e ↦ let z = late_if x i e l.0 in (let g : some x ≡ none = rw z at h in cc)
    | inr e ↦ elim (Bool-cases (is_late x)) [
      | inl z ↦ (let g : some x ≡ none = rw z at h in cc)
      | inr z ↦ rw e (first_late-none i xs l.1 (rw z at h))
    ]
  ]

  -- The two places where the search can find a subscription.
  pub comes_up :
      (i c : ℕ) (front ss : List (Subscription V))
      → c ≢ i
      → listed i ss ≡ true
      → rank c (front ++ ss) < rank i (front ++ ss)
      → ((listed c front ≡ true) × (list_after c front ≡ list_after c ss))
        ⊎ ((listed c front ≡ false) × (listed i front ≡ false) × (listed c ss ≡ true))
      → rank i (list_after c ss ++ ss) < rank i (front ++ ss)
  comes_up i c front ss d h r (inl (l, e)) = rw (← e) (rank-after i c front ss l d r)
  comes_up i c front ss d h r (inr (n, m, l)) =
      let a = rank-skip c front ss n in
      let b = rank-skip i front ss m in
      let p = rank-append c ss ss l in
      let q = rank-append i ss ss h in
      omega (arith, a, b, q, rank-after i c ss ss l d (omega (arith, a, b, p, q)))
