-- ===== src/Subscription/Services/Publishing/Waiting.antt =====
-- A late subscription that waits for a request of Service_Publish of
-- src/server/ua_services_subscription.c goes on waiting while another one is served.
use opcua_tsn_lo_i.Base.{
  ℕ, ◌≡◌, ◌≢◌, refl, sym, ◌∙◌, true, false, not, ◌||◌, List, [], ◌∷◌, arith, ◌==◌, inl, inr,
  Bool-cases, ==_iff,
}
use opcua_tsn_lo_i.Subscription.{Subscription}
use opcua_tsn_lo_i.Subscription.Services.{set_subscription, unlist}
use opcua_tsn_lo_i.Subscription.Services.Publishing.{is_late}
use opcua_tsn_lo_i.Subscription.Services.Publishing.Ranks.{listed, AreDistinct, AllLate}
use opcua_tsn_lo_i.Subscription.Services.Publishing.Alike.{
  SameIds, SameIds-listed, set_subscription-SameIds,
}

-- Subscription `i` is in the list and late, and the identifiers are distinct.
abbrev pub IsWaiting : {V : Type 0} → ℕ → List (Subscription V) → Type 0
IsWaiting i xs = AreDistinct xs × (listed i xs ≡ true) × AllLate i xs

module _ {V : Type 0} where
  pub SameIds-AreDistinct :
      (xs ys : List (Subscription V)) → SameIds xs ys → AreDistinct ys → AreDistinct xs
  SameIds-AreDistinct [] [] h d = tt
  SameIds-AreDistinct [] (y ∷ ys) h d = absurd h
  SameIds-AreDistinct (x ∷ xs) [] h d = absurd h
  SameIds-AreDistinct (x ∷ xs) (y ∷ ys) h d =
      rw h.0
        (SameIds-listed y.subscription_id xs ys h.1 ∙ d.0, d.1, SameIds-AreDistinct xs ys h.1 d.2)

  not_that :
      (i c : ℕ) (t : Subscription V)
      → t.subscription_id ≡ c
      → c ≢ i
      → (not (t.subscription_id == i) || is_late t) ≡ true
  not_that i c t e n = elim (Bool-cases (t.subscription_id == i)) [
    | inl f ↦ absurd (n (sym e ∙ (==_iff t.subscription_id i).0 f))
    | inr f ↦ rw f refl
  ]

  set_subscription-AllLate :
      (i c : ℕ) (t : Subscription V) (xs : List (Subscription V))
      → t.subscription_id ≡ c
      → c ≢ i
      → AllLate i xs
      → AllLate i (set_subscription c t xs)
  unfolding set_subscription
  set_subscription-AllLate i c t [] e n l = tt
  set_subscription-AllLate i c t (x ∷ xs) e n l = elim (Bool-cases (x.subscription_id == c)) [
    | inl f ↦ rw f (not_that i c t e n, l.1)
    | inr f ↦ rw f (l.0, set_subscription-AllLate i c t xs e n l.1)
  ]

  unlist-AllLate : (i c : ℕ) (xs : List (Subscription V)) → AllLate i xs → AllLate i (unlist c xs)
  unfolding unlist
  unlist-AllLate i c [] l = tt
  unlist-AllLate i c (x ∷ xs) l = elim (Bool-cases (x.subscription_id == c)) [
    | inl f ↦ rw f l.1
    | inr f ↦ rw f (l.0, unlist-AllLate i c xs l.1)
  ]

  listed-unlist :
      (i c : ℕ) (xs : List (Subscription V)) → c ≢ i → listed i (unlist c xs) ≡ listed i xs
  unfolding listed unlist
  listed-unlist i c [] n = refl
  listed-unlist i c (x ∷ xs) n = ground (arith, listed-unlist i c xs n)

  not_listed :
      (i c : ℕ) (xs : List (Subscription V)) → listed i xs ≡ false → listed i (unlist c xs) ≡ false
  unfolding listed unlist
  not_listed i c [] h = refl
  not_listed i c (x ∷ xs) h = ground (arith, not_listed i c xs)

  unlist-AreDistinct :
      (c : ℕ) (xs : List (Subscription V)) → AreDistinct xs → AreDistinct (unlist c xs)
  unfolding unlist
  unlist-AreDistinct c [] d = tt
  unlist-AreDistinct c (x ∷ xs) d = elim (Bool-cases (x.subscription_id == c)) [
    | inl f ↦ rw f d.2
    | inr f ↦ rw f (not_listed x.subscription_id c xs d.0, d.1, unlist-AreDistinct c xs d.2)
  ]

  pub set_subscription-IsWaiting :
      (i c : ℕ) (t : Subscription V) (xs : List (Subscription V))
      → t.subscription_id ≡ c
      → c ≢ i
      → IsWaiting i xs
      → IsWaiting i (set_subscription c t xs)
  set_subscription-IsWaiting i c t xs e n w =
      let same = set_subscription-SameIds c t xs e in
      (
        SameIds-AreDistinct _ xs same w.0,
        SameIds-listed i _ xs same ∙ w.1,
        set_subscription-AllLate i c t xs e n w.2,
      )

  pub unlist-IsWaiting :
      (i c : ℕ) (xs : List (Subscription V)) → c ≢ i → IsWaiting i xs → IsWaiting i (unlist c xs)
  unlist-IsWaiting i c xs n w =
      (unlist-AreDistinct c xs w.0, listed-unlist i c xs n ∙ w.1, unlist-AllLate i c xs w.2)
