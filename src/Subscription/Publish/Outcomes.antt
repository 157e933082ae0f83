-- ===== src/Subscription/Publish/Outcomes.antt =====
-- The cases of UA_Subscription_publish with a publish request, of src/server/ua_subscription.c.
use opcua_tsn_lo_i.Base.{
  ℕ, ◌≡◌, refl, inl, inr, Bool, true, false, Option, none, some, List, [], ◌==◌, arith,
  if◌then◌else◌, Bool-cases,
}
use opcua_tsn_lo_i.Codec.DataValues.{DataValue}
use opcua_tsn_lo_i.Subscription.{Subscription}
use opcua_tsn_lo_i.Subscription.Publish.{
  PublishEntry, PublishResponse, Server, Outcome, waits, answers, is_late, respond,
  prepare_notification_message, answer_prepared, publish_nothing, publish_some, publish_one, batch,
  more_notifications, clip,
}

-- One property where the request is put back, another where it is answered.
pub data Each {V : Type 0} (W : Subscription V → Type 0)
    (A : PublishResponse V → Subscription V → Bool → Type 0) : Outcome V → Type 0 where
  waited : {s : Subscription V} → W s → Each W A (waits s)
  responded :
      {r : PublishResponse V} {s : Subscription V} {more : Bool}
      → A r s more
      → Each W A (answers r s more)

-- The subscription as a call with a publish request finds it.
unfoldable pub refreshed : {V : Type 0} → Subscription V → Subscription V
refreshed s = clip (record s { current_lifetime_count = 0 })

module _ {V : Type 0} (W : Subscription V → Type 0)
    (A : PublishResponse V → Subscription V → Bool → Type 0) where
  if-Each : (b : Bool) (o p : Outcome V) → Each W A o → Each W A p → Each W A (if b then o else p)
  if-Each true o p h k = h
  if-Each false o p h k = k

  answer_prepared-Each :
      (server : Server) (left : ℕ) (pre : PublishEntry) (more : Bool) (k : ℕ) (s : Subscription V)
      (o : Option (List (ℕ × DataValue V) × Subscription V))
      → W (is_late s)
      → ((items : List (ℕ × DataValue V)) (s' : Subscription V)
          → o ≡ some (items, s')
          → A
              (respond server left pre k more items s').0
              (respond server left pre k more items s').1
              more)
      → Each W A (answer_prepared server left pre more k s o)
  unfolding answer_prepared
  answer_prepared-Each server left pre more k s none w a = waited w
  answer_prepared-Each server left pre more k s (some (items, s')) w a = responded (a items s' refl)

  -- The four ways that a call with a publish request ends: nothing is due, it is late, it sends a
  -- keep-alive message, or it sends a message with notifications.
  pub publish_one-Each :
      (server : Server) (left : ℕ) (pre : PublishEntry) (s0 : Subscription V)
      → ((n : ℕ) → W (record (refreshed s0) { current_keep_alive_count = n }))
      → ((n : ℕ) → W (is_late (record (refreshed s0) { current_keep_alive_count = n })))
      → (batch (refreshed s0) ≡ 0
          → (n : ℕ)
          → (let r =
                respond server left pre 0
                  (more_notifications (refreshed s0))
                  []
                  (record (refreshed s0) { current_keep_alive_count = n }) in
              A r.0 r.1 (more_notifications (refreshed s0))))
      → ((items : List (ℕ × DataValue V)) (s' : Subscription V)
          → (batch (refreshed s0) == 0) ≡ false
          → prepare_notification_message
              (server.message_memory left)
              (batch (refreshed s0))
              (refreshed s0)
            ≡ some (items, s')
          → (let r =
                respond server left pre
                  (batch (refreshed s0))
                  (more_notifications (refreshed s0))
                  items
                  s' in
              A r.0 r.1 (more_notifications (refreshed s0))))
      → Each W A (publish_one server left pre s0)
  unfolding publish_one publish_some publish_nothing refreshed
  publish_one-Each server left pre s0 w l a b =
      let s = clip (record s0 { current_lifetime_count = 0 }) in
      elim (Bool-cases (batch s == 0)) [
        | inl e ↦ rw e (
            if-Each _ _ _ (waited (w _))
              (if-Each _ _ _ (responded (a (ground arith) _)) (waited (l _))))
        | inr e ↦ rw e (
            if-Each _ _ _
              (answer_prepared-Each server left pre _ _ s _ (l s.current_keep_alive_count)
                (λ items s' f. b items s' e f))
              (waited (l s.current_keep_alive_count)))
      ]
