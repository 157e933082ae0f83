-- ===== src/Subscription/Publish/Sending.antt =====
-- UA_Subscription_publish of src/server/ua_subscription.c as a chain of responses, each of which
-- takes the subscription on.
pub mod Delivery
use opcua_tsn_lo_i.Base.{
  ℕ, zero, suc, ◌+◌, ◌-◌, ◌≤◌, ◌<◌, ◌≡◌, refl, ap, sym, subst, ◌∙◌, Bool, true, false, not, Option,
  none, some, List, [], ◌∷◌, ◌++◌, map, arith, ◌==◌, ltb, length, take, drop, if◌then◌else◌,
  Bool-cases, inl, inr, length-take, take-append-drop, map,
}
use mathlib.Core.List.{map-append}
use opcua_tsn_lo_i.Codec.DataValues.{DataValue}
use opcua_tsn_lo_i.Subscription.{
  SubscriptionState, Notification, NotificationMessage, Settings, Subscription, increment,
  decrement,
}
use opcua_tsn_lo_i.Subscription.Queues.{count, count-true}
use opcua_tsn_lo_i.Subscription.Queues.Coherence.{any}
use opcua_tsn_lo_i.Subscription.Publish.{
  PublishEntry, PublishResponse, Server, Outcome, waits, answers, is_late, respond,
  next_sequence_number, add_retransmission_message, prepare_notification_message, publish_one,
  publish_none, batch, available, more_notifications, clip, collect, proceed, publish, Published,
}
use opcua_tsn_lo_i.Subscription.Publish.Outcomes.{
  Each, waited, responded, refreshed, publish_one-Each,
}
use opcua_tsn_lo_i.Subscription.Publish.Collecting.{
  IsSound, framed, framed-IsSound, payload, payloads, Collected, collect-Collected,
}
use opcua_tsn_lo_i.Subscription.Publish.Steps.{
  Stays, Waits, is_empty, Sends, Chain, MayWait, batch_bounds, batch-refreshed, same_queues,
  respond-nothing, nonempty, delivered, respond-some, prepared, refreshed-IsSound, Same-Waits,
  before, gone, stayed,
}

module _ {V : Type 0} where
  publish_one-Sends :
      (server : Server) (left : ℕ) (pre : PublishEntry) (s : Subscription V)
      → IsSound s
      → Each
          (Waits s)
          (λ r t more. Sends server.max_retransmission_queue_size s r t)
          (publish_one server left pre s)
  unfolding refreshed clip
  publish_one-Sends server left pre s k =
      publish_one-Each _ _ server left pre s (λ n. Same-Waits s _ k refl refl refl refl refl refl)
        (λ n. Same-Waits s _ k refl refl refl refl refl refl)
        (λ h n. before {s = s} (respond-nothing server left pre _ _ (same_queues s _ k refl refl)))
        (λ items s' n e.
          let b = batch-refreshed s k in
          before {s = s} (
            respond-some server left pre _ _ (refreshed s) (items, s') n b.0 b.1
              (subst (Collected _ _ _) (sym (prepared _ _ _ _ e))
                (collect-Collected _ _ (refreshed s) refl (refreshed-IsSound s k)))))

  publish_none-MayWait : (s : Subscription V) → IsSound s → MayWait s (publish_none s)
  unfolding publish_none clip
  publish_none-MayWait s k =
      let c = clip (record s { current_lifetime_count = increment s.current_lifetime_count }) in
      elim (Bool-cases (ltb s.life_time_count (increment s.current_lifetime_count))) [
        | inl e ↦ rw e gone
        | inr e ↦ elim (Bool-cases (batch c == 0)) [
          | inl z ↦
              elim (Bool-cases
                (ltb (increment s.current_keep_alive_count) s.max_keep_alive_count)) [
                  | inl h ↦ rw (e, z, h) (stayed (Same-Waits s _ k refl refl refl refl refl refl))
                  | inr h ↦ rw (e, z, h) (stayed (Same-Waits s _ k refl refl refl refl refl refl))
                ]
          | inr z ↦ rw (e, z) (stayed (Same-Waits s _ k refl refl refl refl refl refl))
        ]
      ]

  abbrev ChainIf : ℕ → Subscription V → List (PublishResponse V) → Option (Subscription V) → Type 0
  ChainIf max s rs none = Unit {0}
  ChainIf max s rs (some t) = Chain max s rs t

  chain_nil :
      (max : ℕ) (s : Subscription V) (o : Option (Subscription V))
      → MayWait s o
      → ChainIf max s [] o
  chain_nil max s none gone = tt
  chain_nil max s (some t) (stayed w) = w

  chain_cons :
      (max : ℕ) (s t : Subscription V) (r : PublishResponse V) (rs : List (PublishResponse V))
      (o : Option (Subscription V))
      → Sends max s r t
      → ChainIf max t rs o
      → ChainIf max s (r ∷ rs) o
  chain_cons max s t r rs none h c = tt
  chain_cons max s t r rs (some u) h c = (t, h, c)

  Waits-refl : (t : Subscription V) → IsSound t → Waits t t
  Waits-refl t k = Same-Waits t t k refl refl refl refl refl refl

  proceed-Chain :
      (max : ℕ) (s : Subscription V) (pre : PublishEntry) (rest : List PublishEntry) (num : ℕ)
      (again : Subscription V → Published V) (o : Outcome V)
      → ((t : Subscription V) → IsSound t → ChainIf max t (again t).sent (again t).subscription)
      → Each (Waits s) (λ r t more. Sends max s r t) o
      → (let p = proceed pre rest num again o in ChainIf max s p.sent p.subscription)
  unfolding proceed
  proceed-Chain max s pre rest num again (waits t) h (waited w) = w
  proceed-Chain max s pre rest num again (answers r t true) h (responded w) =
      chain_cons max s t r _ _ w (h t w.stays.sound)
  proceed-Chain max s pre rest num again (answers r t false) h (responded w) =
      (t, w, Waits-refl t w.stays.sound)

  publish-ChainIf :
      (server : Server) (queue : List PublishEntry) (num : ℕ) (s : Subscription V)
      → IsSound s
      → (let p = publish server queue num s in
          ChainIf server.max_retransmission_queue_size s p.sent p.subscription)
  unfolding publish
  publish-ChainIf server [] num s k =
      chain_nil server.max_retransmission_queue_size s _ (publish_none-MayWait s k)
  publish-ChainIf server (pre ∷ rest) num s k =
      proceed-Chain _ s pre rest num _ _ (λ t kt. publish-ChainIf server rest (decrement num) t kt)
        (publish_one-Sends server (length rest) pre s k)

  pub publish-Chain :
      (server : Server) (queue : List PublishEntry) (num : ℕ) (s : Subscription V)
      {t : Subscription V}
      → IsSound s
      → (publish server queue num s).subscription ≡ some t
      → Chain server.max_retransmission_queue_size s (publish server queue num s).sent t
  publish-Chain server queue num s k e =
      subst (ChainIf server.max_retransmission_queue_size s (publish server queue num s).sent) e
        (publish-ChainIf server queue num s k)
