-- ===== src/Subscription/Services/Publishing/Alike.antt =====
-- The subscriptions of a session before and after a publish request of
-- src/server/ua_services_subscription.c: which stay where they are.
use opcua_tsn_lo_i.Base.{
  ℕ, suc, ◌+◌, ◌≡◌, refl, sym, ap, ◌∙◌, true, some, List, [], ◌∷◌, ◌++◌, arith, ◌==◌, ltb, length,
  inl, inr, Bool-cases, Option-cases, ==_iff,
}
use opcua_tsn_lo_i.Subscription.{Subscription}
use opcua_tsn_lo_i.Subscription.Services.{get_subscription_by_id, set_subscription, unlist}
use opcua_tsn_lo_i.Subscription.Services.Publishing.{
  is_late, list_after, remove_retransmission_message, find_message, acknowledge, acknowledge_all,
}
use opcua_tsn_lo_i.Subscription.Services.Publishing.Ranks.{rank, listed, turns, AllLate}

-- The same identifiers, in the same order.
abbrev pub SameIds : {V : Type 0} → List (Subscription V) → List (Subscription V) → Type 0
SameIds [] [] = Unit {0}
SameIds [] (y ∷ ys) = ⊥
SameIds (x ∷ xs) [] = ⊥
SameIds (x ∷ xs) (y ∷ ys) = (x.subscription_id ≡ y.subscription_id) × SameIds xs ys

-- The same ones are late, too.
abbrev pub Alike : {V : Type 0} → List (Subscription V) → List (Subscription V) → Type 0
Alike [] [] = Unit {0}
Alike [] (y ∷ ys) = ⊥
Alike (x ∷ xs) [] = ⊥
Alike (x ∷ xs) (y ∷ ys) =
    (x.subscription_id ≡ y.subscription_id) × (is_late x ≡ is_late y) × Alike xs ys

module _ {V : Type 0} where
  pub Alike-SameIds : (xs ys : List (Subscription V)) → Alike xs ys → SameIds xs ys
  Alike-SameIds [] [] h = tt
  Alike-SameIds [] (y ∷ ys) h = h
  Alike-SameIds (x ∷ xs) [] h = h
  Alike-SameIds (x ∷ xs) (y ∷ ys) h = (h.0, Alike-SameIds xs ys h.2)

  pub Alike-refl : (xs : List (Subscription V)) → Alike xs xs
  Alike-refl [] = tt
  Alike-refl (x ∷ xs) = (refl, refl, Alike-refl xs)

  SameIds-refl : (xs : List (Subscription V)) → SameIds xs xs
  SameIds-refl [] = tt
  SameIds-refl (x ∷ xs) = (refl, SameIds-refl xs)

  Alike-trans : (xs ys zs : List (Subscription V)) → Alike xs ys → Alike ys zs → Alike xs zs
  Alike-trans [] [] zs h k = k
  Alike-trans [] (y ∷ ys) zs h k = absurd h
  Alike-trans (x ∷ xs) [] zs h k = absurd h
  Alike-trans (x ∷ xs) (y ∷ ys) [] h k = k
  Alike-trans (x ∷ xs) (y ∷ ys) (z ∷ zs) h k = (h.0 ∙ k.0, h.1 ∙ k.1, Alike-trans xs ys zs h.2 k.2)

  pub SameIds-length : (xs ys : List (Subscription V)) → SameIds xs ys → length xs ≡ length ys
  SameIds-length [] [] h = refl
  SameIds-length [] (y ∷ ys) h = absurd h
  SameIds-length (x ∷ xs) [] h = absurd h
  SameIds-length (x ∷ xs) (y ∷ ys) h = ap suc (SameIds-length xs ys h.1)

  pub SameIds-rank : (i : ℕ) (xs ys : List (Subscription V)) → SameIds xs ys → rank i xs ≡ rank i ys
  unfolding rank
  SameIds-rank i [] [] h = refl
  SameIds-rank i [] (y ∷ ys) h = absurd h
  SameIds-rank i (x ∷ xs) [] h = absurd h
  SameIds-rank i (x ∷ xs) (y ∷ ys) h = ground (arith, h.0, SameIds-rank i xs ys h.1)

  pub SameIds-listed :
      (i : ℕ) (xs ys : List (Subscription V)) → SameIds xs ys → listed i xs ≡ listed i ys
  unfolding listed
  SameIds-listed i [] [] h = refl
  SameIds-listed i [] (y ∷ ys) h = absurd h
  SameIds-listed i (x ∷ xs) [] h = absurd h
  SameIds-listed i (x ∷ xs) (y ∷ ys) h = ground (arith, h.0, SameIds-listed i xs ys h.1)

  SameIds-after :
      (c : ℕ) (xs ys : List (Subscription V))
      → SameIds xs ys
      → SameIds (list_after c xs) (list_after c ys)
  unfolding list_after
  SameIds-after c [] [] h = tt
  SameIds-after c [] (y ∷ ys) h = absurd h
  SameIds-after c (x ∷ xs) [] h = absurd h
  SameIds-after c (x ∷ xs) (y ∷ ys) h = elim (Bool-cases (y.subscription_id == c)) [
    | inl e ↦ rw (h.0, e) h.1
    | inr e ↦ rw (h.0, e) (SameIds-after c xs ys h.1)
  ]

  SameIds-append :
      (xs ys zs ws : List (Subscription V))
      → SameIds xs ys
      → SameIds zs ws
      → SameIds (xs ++ zs) (ys ++ ws)
  SameIds-append [] [] zs ws h k = k
  SameIds-append [] (y ∷ ys) zs ws h k = absurd h
  SameIds-append (x ∷ xs) [] zs ws h k = absurd h
  SameIds-append (x ∷ xs) (y ∷ ys) zs ws h k = (h.0, SameIds-append xs ys zs ws h.1 k)

  -- Where a subscription stands in the order of the turns is a matter of the identifiers.
  pub SameIds-turns :
      (i c : ℕ) (xs ys : List (Subscription V))
      → SameIds xs ys
      → rank i (turns c xs) ≡ rank i (turns c ys)
  unfolding turns
  SameIds-turns i c xs ys h = elim (Bool-cases (ltb 0 c)) [
    | inl e ↦ rw e (
        SameIds-rank i (list_after c xs ++ xs) (list_after c ys ++ ys)
          (SameIds-append _ _ xs ys (SameIds-after c xs ys h) h))
    | inr e ↦ rw e (SameIds-rank i xs ys h)
  ]

  pub Alike-AllLate :
      (i : ℕ) (xs ys : List (Subscription V)) → Alike xs ys → AllLate i ys → AllLate i xs
  Alike-AllLate i [] [] h d = tt
  Alike-AllLate i [] (y ∷ ys) h d = absurd h
  Alike-AllLate i (x ∷ xs) [] h d = absurd h
  Alike-AllLate i (x ∷ xs) (y ∷ ys) h d = (rw (h.0, h.1) d.0, Alike-AllLate i xs ys h.2 d.1)

  pub set_subscription-SameIds :
      (i : ℕ) (t : Subscription V) (xs : List (Subscription V))
      → t.subscription_id ≡ i
      → SameIds (set_subscription i t xs) xs
  unfolding set_subscription
  set_subscription-SameIds i t [] h = tt
  set_subscription-SameIds i t (x ∷ xs) h = elim (Bool-cases (x.subscription_id == i)) [
    | inl e ↦ rw e (h ∙ sym ((==_iff x.subscription_id i).0 e), SameIds-refl xs)
    | inr e ↦ rw e (refl, set_subscription-SameIds i t xs h)
  ]

  set_subscription-Alike :
      (i : ℕ) (s t : Subscription V) (xs : List (Subscription V))
      → get_subscription_by_id i xs ≡ some s
      → t.subscription_id ≡ s.subscription_id
      → t.state ≡ s.state
      → Alike (set_subscription i t xs) xs
  unfolding set_subscription get_subscription_by_id
  set_subscription-Alike i s t [] g h k = tt
  set_subscription-Alike i s t (x ∷ xs) g h k = elim (Bool-cases (x.subscription_id == i)) [
    | inl e ↦
        let q : some x ≡ some s = rw e at g in
        let q' : x ≡ s = cc in rw e (rw q' (h, rw k refl, Alike-refl xs))
    | inr e ↦ rw e (refl, refl, set_subscription-Alike i s t xs (rw e at g) h k)
  ]

  removed-state :
      (n : ℕ) (s : Subscription V)
      → ((remove_retransmission_message n s).0.subscription_id ≡ s.subscription_id)
        × ((remove_retransmission_message n s).0.state ≡ s.state)
  unfolding remove_retransmission_message
  removed-state n s = elim (Option-cases (find_message n s.retransmission_queue)) [
    | inl e ↦ rw (e, remove_retransmission_message) (refl, refl)
    | inr (m, e) ↦ rw (e, remove_retransmission_message) (refl, refl)
  ]

  acknowledge-Alike : (i n : ℕ) (xs : List (Subscription V)) → Alike (acknowledge i n xs).0 xs
  unfolding acknowledge
  acknowledge-Alike i n xs = elim (Option-cases (get_subscription_by_id i xs)) [
    | inl e ↦ rw (e, acknowledge) (Alike-refl xs)
    | inr (s, e) ↦
        rw (e, acknowledge)
          (set_subscription-Alike i s (remove_retransmission_message n s).0 xs e
            (removed-state n s).0 (removed-state n s).1)
  ]

  -- The acknowledgements change neither the order of the subscriptions nor which of them are late.
  pub acknowledge_all-Alike :
      (acks : List (ℕ × ℕ)) (xs : List (Subscription V)) → Alike (acknowledge_all acks xs).0 xs
  unfolding acknowledge_all
  acknowledge_all-Alike [] xs = Alike-refl xs
  acknowledge_all-Alike ((i, n) ∷ acks) xs =
      Alike-trans _ (acknowledge i n xs).0 xs (acknowledge_all-Alike acks (acknowledge i n xs).0)
        (acknowledge-Alike i n xs)

  pub length-unlist :
      (i : ℕ) (xs : List (Subscription V))
      → listed i xs ≡ true
      → length (unlist i xs) + 1 ≡ length xs
  unfolding unlist listed
  length-unlist i [] h = cc
  length-unlist i (x ∷ xs) h = ground (arith, length-unlist i xs)

  pub listed-get :
      (i : ℕ) (xs : List (Subscription V))
      → listed i xs ≡ true
      → (s : Subscription V) × (get_subscription_by_id i xs ≡ some s) × (s.subscription_id ≡ i)
  unfolding get_subscription_by_id listed
  listed-get i [] h = cc
  listed-get i (x ∷ xs) h = elim (Bool-cases (x.subscription_id == i)) [
    | inl e ↦ (x, rw e refl, (==_iff x.subscription_id i).0 e)
    | inr e ↦ let (s, g, k) = listed-get i xs (ground arith) in (s, rw e g, k)
  ]
