-- ===== src/Subscription/Services/Publishing/Standing.antt =====
-- Which subscriptions of a session stay where they are when one is published by Service_Publish of
-- src/server/ua_services_subscription.c.
use opcua_tsn_lo_i.Base.{
  ℕ, ◌+◌, ◌≡◌, ◌≢◌, ◌⊎◌, refl, ◌∙◌, Bool, true, false, List, length, inl, inr, Option-cases,
}
use opcua_tsn_lo_i.Subscription.{Subscription}
use opcua_tsn_lo_i.Subscription.Publish.{Server, publish}
use opcua_tsn_lo_i.Subscription.Services.{
  Config, Session, set_subscription, unlist, delete_members, delete_subscription,
}
use opcua_tsn_lo_i.Subscription.Services.Publishing.{publish_on}
use opcua_tsn_lo_i.Subscription.Services.Publishing.Ranks.{listed}
use opcua_tsn_lo_i.Subscription.Services.Publishing.Alike.{
  SameIds, SameIds-length, SameIds-listed, set_subscription-SameIds, length-unlist, listed-get,
}
use opcua_tsn_lo_i.Subscription.Services.Publishing.Waiting.{
  IsWaiting, set_subscription-IsWaiting, unlist-IsWaiting,
}
use opcua_tsn_lo_i.Subscription.Services.Publishing.Kept.{published-id, delete_members-id}

module _ {V : Type 0} where
  -- All stay where they are, or one is deleted, and those other than `c` go on waiting.
  abbrev pub Stands : ℕ → Session V → Session V → Type 0
  Stands c r ses =
      (r.last_seen_subscription_id ≡ ses.last_seen_subscription_id)
      × (SameIds r.subscriptions ses.subscriptions
          ⊎ (length r.subscriptions + 1 ≡ length ses.subscriptions))
      × ((i : ℕ) → c ≢ i → IsWaiting i ses.subscriptions → IsWaiting i r.subscriptions)

  unlist-length :
      (i : ℕ) (t : Subscription V) (xs : List (Subscription V))
      → t.subscription_id ≡ i
      → listed i xs ≡ true
      → length (unlist i (set_subscription i t xs)) + 1 ≡ length xs
  unlist-length i t xs e h =
      let same = set_subscription-SameIds i t xs e in
      length-unlist i (set_subscription i t xs) (SameIds-listed i _ xs same ∙ h)
      ∙ SameIds-length _ xs same

  delete_subscription-Stands :
      (removed memory : Bool) (i : ℕ) (ses : Session V)
      → listed i ses.subscriptions ≡ true
      → Stands i (delete_subscription removed memory i ses).0 ses
  unfolding delete_subscription
  delete_subscription-Stands removed true i ses h =
      let (s, g, e) = listed-get i ses.subscriptions h in
      let k = delete_members-id removed s ∙ e in
      rw (g, delete_subscription)
        (
          refl,
          inr (unlist-length i (delete_members removed s) ses.subscriptions k h),
          λ j n w.
              unlist-IsWaiting j i _ n
                (set_subscription-IsWaiting j i (delete_members removed s) ses.subscriptions k n w),
        )
  delete_subscription-Stands removed false i ses h =
      let (s, g, e) = listed-get i ses.subscriptions h in
      let k = delete_members-id removed s ∙ e in
      rw (g, delete_subscription)
        (
          refl,
          inl (set_subscription-SameIds i (delete_members removed s) ses.subscriptions k),
          λ j n w.
              set_subscription-IsWaiting j i (delete_members removed s) ses.subscriptions k n w,
        )

  pub publish_on-Stands :
      (config : Config) (server : Server) (c : Subscription V) (ses : Session V)
      → listed c.subscription_id ses.subscriptions ≡ true
      → Stands c.subscription_id (publish_on config server c ses).1 ses
  unfolding publish_on
  publish_on-Stands config server c ses h =
      elim (Option-cases (publish server ses.response_queue ses.num_publish_req c).subscription) [
        | inl e ↦
            rw (e, publish_on)
              (delete_subscription-Stands config.callback_removed config.delayed_free
                c.subscription_id _ h)
        | inr (t, e) ↦
            rw (e, publish_on)
              (
                refl,
                inl (
                    set_subscription-SameIds c.subscription_id t ses.subscriptions
                      (published-id server ses.response_queue ses.num_publish_req c t e)),
                λ j n w.
                    set_subscription-IsWaiting j c.subscription_id t ses.subscriptions
                      (published-id server ses.response_queue ses.num_publish_req c t e) n w,
              )
      ]

  pub publish_on-sent :
      (config : Config) (server : Server) (c : Subscription V) (ses : Session V)
      → (publish_on config server c ses).0
        ≡ (publish server ses.response_queue ses.num_publish_req c).sent
  unfolding publish_on
  publish_on-sent config server c ses = refl
