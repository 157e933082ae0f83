-- ===== src/Subscription/Services/Publishing/Turns.antt =====
-- The search for late subscriptions in Service_Publish of
-- src/server/ua_services_subscription.c: what it finds, and what that does to the order.
use opcua_tsn_lo_i.Base.{
  ℕ, ◌<◌, ◌≡◌, ◌≢◌, ◌⊎◌, ap, ◌∙◌, true, false, some, List, [], ◌++◌, arith, ◌==◌, ltb,
  if◌then◌else◌, inl, inr, Bool-cases, Option-cases, ==_iff,
}
use opcua_tsn_lo_i.Subscription.{Subscription}
use opcua_tsn_lo_i.Subscription.Services.{Session}
use opcua_tsn_lo_i.Subscription.Services.Publishing.{is_late, list_after, first_late, immediate}
use opcua_tsn_lo_i.Subscription.Services.Publishing.Ranks.{
  rank, listed, turns, AreDistinct, AllLate, first_late-append, immediate-in_turn, listed-append,
  AllLate-append, AllLate-after, listed-after, listed-first_late, first_late-rank, list_after-after,
  positive, first_late-none, comes_up,
}

module _ {V : Type 0} where
  -- What stands in front of the list in the order of the turns.
  front : ℕ → List (Subscription V) → List (Subscription V)
  front seen ss = if ltb 0 seen then list_after seen ss else []

  turns_front : (seen : ℕ) (ss : List (Subscription V)) → turns seen ss ≡ front seen ss ++ ss
  unfolding turns front
  turns_front seen ss = ground arith

  first_turns : (c : ℕ) (ss : List (Subscription V)) → ltb 0 c ≡ true → front c ss ≡ list_after c ss
  unfolding front
  first_turns c ss h = rw h

  AllLate-front :
      (i seen : ℕ) (ss : List (Subscription V)) → AllLate i ss → AllLate i (front seen ss)
  unfolding front
  AllLate-front i seen ss l = elim (Bool-cases (ltb 0 seen)) [
    | inl e ↦ rw e (AllLate-after i seen ss l)
    | inr e ↦ rw e tt
  ]

  front-after :
      (c seen : ℕ) (ss : List (Subscription V))
      → AreDistinct ss
      → listed c (front seen ss) ≡ true
      → list_after c (front seen ss) ≡ list_after c ss
  unfolding front listed
  front-after c seen ss d h = elim (Bool-cases (ltb 0 seen)) [
    | inl e ↦ rw e (list_after-after c seen ss d (rw e at h))
    | inr e ↦ (let g : false ≡ true = rw e at h in cc)
  ]

  -- Where the first late subscription in the order of the turns is found.
  found_where :
      (i seen : ℕ) (ss : List (Subscription V)) (c : Subscription V)
      → AreDistinct ss
      → AllLate i ss
      → first_late (front seen ss ++ ss) ≡ some c
      → ((listed c.subscription_id (front seen ss) ≡ true)
          × (list_after c.subscription_id (front seen ss) ≡ list_after c.subscription_id ss))
        ⊎ ((listed c.subscription_id (front seen ss) ≡ false)
            × (listed i (front seen ss) ≡ false)
            × (listed c.subscription_id ss ≡ true))
  found_where i seen ss c d l f = elim (Bool-cases (listed c.subscription_id (front seen ss))) [
    | inl e ↦ inl (e, front-after c.subscription_id seen ss d e)
    | inr e ↦ elim (Option-cases (first_late (front seen ss))) [
      | inl n ↦
          let g : first_late ss ≡ some c = ground (arith, first_late-append (front seen ss) ss) in
          inr (
            e,
            first_late-none i (front seen ss) (AllLate-front i seen ss l) n,
            (listed-first_late ss c g).0,
          )
      | inr (b, n) ↦
          let g : first_late (front seen ss) ≡ some c =
            ground (arith, first_late-append (front seen ss) ss) in
          let t = (listed-first_late (front seen ss) c g).0 in cc
    ]
  ]

  listed-front :
      (c seen : ℕ) (ss : List (Subscription V))
      → listed c (front seen ss) ≡ true
      → listed c ss ≡ true
  unfolding front listed
  listed-front c seen ss h = elim (Bool-cases (ltb 0 seen)) [
    | inl e ↦ listed-after c seen ss (rw e at h)
    | inr e ↦ (let g : false ≡ true = rw e at h in cc)
  ]

  found_listed :
      (c : Subscription V) (seen : ℕ) (ss : List (Subscription V))
      → first_late (front seen ss ++ ss) ≡ some c
      → listed c.subscription_id ss ≡ true
  found_listed c seen ss f = elim (Option-cases (first_late (front seen ss))) [
    | inl n ↦
        let g : first_late ss ≡ some c = ground (arith, first_late-append (front seen ss) ss) in
        (listed-first_late ss c g).0
    | inr (b, n) ↦
        let g : first_late (front seen ss) ≡ some c =
          ground (arith, first_late-append (front seen ss) ss) in
        listed-front c.subscription_id seen ss (listed-first_late (front seen ss) c g).0
  ]

  -- The turn of a subscription that stands behind the one found comes up.
  found_ahead :
      (i seen : ℕ) (ss : List (Subscription V)) (c : Subscription V)
      → AreDistinct ss
      → listed i ss ≡ true
      → AllLate i ss
      → first_late (front seen ss ++ ss) ≡ some c
      → c.subscription_id ≢ i
      → rank c.subscription_id (front seen ss ++ ss) < rank i (front seen ss ++ ss)
      → rank i (turns c.subscription_id ss) < rank i (turns seen ss)
  found_ahead i seen ss c d h l f n q =
      let w = found_where i seen ss c d l f in
      let there : listed c.subscription_id ss ≡ true = elim w [
        | inl v ↦ listed-front c.subscription_id seen ss v.0
        | inr v ↦ v.2
      ] in
      rw
        (
          turns_front,
          turns_front,
          first_turns c.subscription_id ss (positive c.subscription_id ss d there),
        )
        (comes_up i c.subscription_id (front seen ss) ss n h q w)

  -- What the search finds is a given late subscription, or one after whose turn fewer subscriptions
  -- stand ahead of the given one.
  pub immediate-comes_up :
      (ses : Session V) (i : ℕ)
      → AreDistinct ses.subscriptions
      → listed i ses.subscriptions ≡ true
      → AllLate i ses.subscriptions
      → (c : Subscription V) × (immediate ses ≡ some c)
        × (is_late c ≡ true)
        × (listed c.subscription_id ses.subscriptions ≡ true)
        × ((c.subscription_id ≡ i)
            ⊎ (rank i (turns c.subscription_id ses.subscriptions)
                < rank i (turns ses.last_seen_subscription_id ses.subscriptions)))
  immediate-comes_up ses i d h l =
      let ss = ses.subscriptions in
      let seen = ses.last_seen_subscription_id in
      let (c, f, r) =
        first_late-rank i (front seen ss ++ ss) (listed-append i (front seen ss) ss h)
          (AllLate-append i (front seen ss) ss (AllLate-front i seen ss l) l) in
      (
        c,
        immediate-in_turn ses ∙ ap first_late (turns_front seen ss) ∙ f,
        (listed-first_late (front seen ss ++ ss) c f).1,
        found_listed c seen ss f,
        elim r [
          | inl e ↦ inl e
          | inr q ↦ elim (Bool-cases (c.subscription_id == i)) [
            | inl e ↦ inl ((==_iff c.subscription_id i).0 e)
            | inr e ↦ inr (found_ahead i seen ss c d h l f (λ g. ground arith) q)
          ]
        ],
      )
