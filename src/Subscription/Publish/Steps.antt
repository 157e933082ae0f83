-- ===== src/Subscription/Publish/Steps.antt =====
-- The steps of UA_Subscription_publish of src/server/ua_subscription.c: what a response takes from
-- the queue, and what it leaves as it was.
use opcua_tsn_lo_i.Base.{
  ℕ, zero, suc, ◌≤◌, ◌≡◌, refl, ap, sym, subst, ◌∙◌, Bool, true, false, Option, none, some, List,
  [], ◌∷◌, ◌++◌, map, arith, ◌==◌, length, take, drop, if◌then◌else◌, take-append-drop, map,
}
use mathlib.Core.List.{map-append}
use opcua_tsn_lo_i.Codec.DataValues.{DataValue}
use opcua_tsn_lo_i.Subscription.{Notification, Subscription}
use opcua_tsn_lo_i.Subscription.Queues.{count-true}
use opcua_tsn_lo_i.Subscription.Publish.{
  PublishEntry, PublishResponse, Server, respond, next_sequence_number, add_retransmission_message,
  prepare_notification_message, batch, available, more_notifications, clip, collect,
}
use opcua_tsn_lo_i.Subscription.Publish.Outcomes.{refreshed}
use opcua_tsn_lo_i.Subscription.Publish.Collecting.{
  IsSound, framed, framed-IsSound, payload, payloads, Collected,
}

-- What a step leaves as it was.
pub record Stays {V : Type 0} (s t : Subscription V) : Type 0 where
  pub sound : IsSound t
  pub settings : t.settings ≡ s.settings
  pub limit : t.notifications_per_publish ≡ s.notifications_per_publish

-- Nothing is sent: the notifications and the numbers stay.
pub record Waits {V : Type 0} (s t : Subscription V) : Type 0 where
  pub stays : Stays s t
  pub queue : t.notification_queue ≡ s.notification_queue
  pub number : t.sequence_number ≡ s.sequence_number
  pub unacknowledged : t.retransmission_queue ≡ s.retransmission_queue
  pub size : t.retransmission_queue_size ≡ s.retransmission_queue_size

abbrev pub is_empty {ℓ} : {A : Type ℓ} → List A → Bool
is_empty [] = true
is_empty (x ∷ xs) = false

-- A response is sent: the oldest notifications have moved into it, and it has a number that is
-- used up only if there are notifications.
pub record Sends {V : Type 0} (max : ℕ) (s : Subscription V) (r : PublishResponse V)
    (t : Subscription V) : Type 0 where
  pub stays : Stays s t
  pub moved : r.message.items ++ payloads t ≡ payloads s
  pub bounded : length r.message.items ≤ s.notifications_per_publish
  pub number : r.message.sequence_number ≡ next_sequence_number s.sequence_number
  pub next :
      t.sequence_number
      ≡ (if is_empty r.message.items then s.sequence_number else r.message.sequence_number)
  pub unacknowledged : t.retransmission_queue ≡ (
      if is_empty r.message.items
      then s.retransmission_queue
      else (add_retransmission_message max r.message s).retransmission_queue)
  pub size : t.retransmission_queue_size ≡ (
      if is_empty r.message.items
      then s.retransmission_queue_size
      else (add_retransmission_message max r.message s).retransmission_queue_size)
  pub listed : r.available_sequence_numbers ≡ map (λ m. m.sequence_number) t.retransmission_queue

-- The responses in turn, and what is left then.
abbrev pub Chain :
    {V : Type 0} → ℕ → Subscription V → List (PublishResponse V) → Subscription V → Type 0
Chain {V} max s [] u = Waits s u
Chain {V} max s (r ∷ rs) u = (t : Subscription V) × Sends max s r t × Chain max t rs u

-- Without a publish request, the subscription is gone or waits.
pub data MayWait {V : Type 0} (s : Subscription V) : Option (Subscription V) → Type 0 where
  gone : MayWait s none
  stayed : {t : Subscription V} → Waits s t → MayWait s (some t)

-- The steps of a call as an outcome has them.
module _ {V : Type 0} where
  pub batch_bounds :
      (s : Subscription V)
      → (batch s ≤ s.notifications_per_publish) × (batch s ≤ s.ready_notifications)
  unfolding batch more_notifications available
  batch_bounds s = ground arith

  pub batch-refreshed :
      (s : Subscription V)
      → IsSound s
      → (batch (refreshed s) ≤ s.notifications_per_publish)
        × (batch (refreshed s) ≤ length s.notification_queue)
  unfolding refreshed clip
  batch-refreshed s k =
      let b = batch_bounds (refreshed s) in
      (b.0, ground (arith, b.1, k.coherent.total, count-true s.notification_queue))

  -- Counters and states do not matter.
  pub same_queues :
      (s t : Subscription V) → IsSound s → t.settings ≡ s.settings → t ≡ framed s t → IsSound t
  same_queues s t k e f = subst IsSound (sym f) (framed-IsSound s t e k)

  pub respond-nothing :
      (server : Server) (left : ℕ) (pre : PublishEntry) (more : Bool) (s : Subscription V)
      → IsSound s
      → (let r = respond server left pre 0 more [] s in
          Sends server.max_retransmission_queue_size s r.0 r.1)
  unfolding respond
  respond-nothing server left pre more s k = record {
    stays = record { sound = same_queues s _ k refl refl; settings = refl; limit = refl };
    moved = refl;
    bounded = omega arith;
    number = refl;
    next = refl;
    unacknowledged = refl;
    size = refl;
    listed = refl;
  }

  pub nonempty :
      (q : List (Notification V)) (k : ℕ) (f : Notification V → ℕ × DataValue V)
      → (k == 0) ≡ false
      → k ≤ length q
      → (is_empty (map f (take k q)) ≡ false) × (length (map f (take k q)) ≡ k)
  nonempty q zero f n h = cc
  nonempty [] (suc k) f n h = absurd (omega arith)
  nonempty (x ∷ q) (suc k) f n h = (refl, ap suc (length_taken q k (omega arith)))
    where
      length_taken :
          (q : List (Notification V)) (k : ℕ) → k ≤ length q → length (map f (take k q)) ≡ k
      length_taken q zero h = refl
      length_taken [] (suc k) h = absurd (omega arith)
      length_taken (x ∷ q) (suc k) h = ap suc (length_taken q k (omega arith))

  pub delivered :
      (s : Subscription V) (k : ℕ) (r : List (ℕ × DataValue V) × Subscription V)
      → Collected s.notification_queue k s r
      → r.0 ++ payloads r.1 ≡ payloads s
  delivered s k r c =
      let g = payload s.settings in
      rw (c.settings, c.queue, c.items)
        (sym (map-append g (take k s.notification_queue) (drop k s.notification_queue))
          ∙ ap (map g) (take-append-drop k s.notification_queue))

  pub respond-some :
      (server : Server) (left : ℕ) (pre : PublishEntry) (more : Bool) (k : ℕ) (s : Subscription V)
      (r : List (ℕ × DataValue V) × Subscription V)
      → (k == 0) ≡ false
      → k ≤ s.notifications_per_publish
      → k ≤ length s.notification_queue
      → Collected s.notification_queue k s r
      → (let a = respond server left pre k more r.0 r.1 in
          Sends server.max_retransmission_queue_size s a.0 a.1)
  unfolding respond add_retransmission_message
  respond-some server left pre more k s r n b l c =
      let (some_items, as_many) = nonempty s.notification_queue k (payload s.settings) n l in
      let filled : is_empty r.0 ≡ false = ap is_empty c.items ∙ some_items in
      let npp = ap (λ (t : Subscription V). t.notifications_per_publish) c.frame in
      let seq = ap (λ (t : Subscription V). t.sequence_number) c.frame in
      rw n (record {
        stays = record {
          sound = same_queues r.1 _ c.sound refl refl;
          settings = c.settings;
          limit = npp;
        };
        moved = delivered s k r c;
        bounded =
            subst (λ m. m ≤ s.notifications_per_publish) (sym (ap length c.items ∙ as_many)) b;
        number = ap next_sequence_number seq;
        next = rw filled;
        unacknowledged = rw filled (
            ap
              (λ (t : Subscription V).
                (add_retransmission_message server.max_retransmission_queue_size
                  (respond server left pre k more r.0 r.1).0.message t).retransmission_queue)
              c.frame);
        size = rw filled (
            ap
              (λ (t : Subscription V).
                (add_retransmission_message server.max_retransmission_queue_size
                  (respond server left pre k more r.0 r.1).0.message t).retransmission_queue_size)
              c.frame);
        listed = refl;
      })

  pub prepared :
      (memory : Bool) (k : ℕ) (s : Subscription V) (r : List (ℕ × DataValue V) × Subscription V)
      → prepare_notification_message memory k s ≡ some r
      → r ≡ collect s.notification_queue k s
  unfolding prepare_notification_message
  prepared true k s r e = cc
  prepared false k s r e = cc

  pub refreshed-IsSound : (s : Subscription V) → IsSound s → IsSound (refreshed s)
  unfolding refreshed clip
  refreshed-IsSound s k = same_queues s _ k refl refl

  pub Same-Waits :
      (s t : Subscription V)
      → IsSound s
      → t ≡ framed s t
      → t.settings ≡ s.settings
      → t.notifications_per_publish ≡ s.notifications_per_publish
      → t.sequence_number ≡ s.sequence_number
      → t.retransmission_queue ≡ s.retransmission_queue
      → t.retransmission_queue_size ≡ s.retransmission_queue_size
      → Waits s t
  Same-Waits s t k f e l n u z = record {
    stays = record { sound = same_queues s t k e f; settings = e; limit = l };
    queue = ap (λ (t : Subscription V). t.notification_queue) f;
    number = n;
    unacknowledged = u;
    size = z;
  }

  -- The counters of the subscription, and the notifications that are ready, do not matter.
  pub before :
      {max lifetime keep_alive ready : ℕ} {s t : Subscription V} {r : PublishResponse V}
      → Sends max
          (record s {
            current_lifetime_count = lifetime;
            current_keep_alive_count = keep_alive;
            ready_notifications = ready;
          })
          r
          t
      → Sends max s r t
  unfolding add_retransmission_message
  before x = record {
    stays = record { sound = x.stays.sound; settings = x.stays.settings; limit = x.stays.limit };
    moved = x.moved;
    bounded = x.bounded;
    number = x.number;
    next = x.next;
    unacknowledged = x.unacknowledged;
    size = x.size;
    listed = x.listed;
  }
