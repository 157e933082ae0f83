-- ===== src/Subscription/Publish/Collecting.antt =====
-- prepareNotificationMessage of src/server/ua_subscription.c: the oldest notifications are moved
-- into the message.
use opcua_tsn_lo_i.Base.{
  ℕ, zero, suc, ◌≡◌, refl, ap, sym, ◌∙◌, true, List, [], ◌∷◌, map, arith, take, drop,
}
use opcua_tsn_lo_i.Codec.DataValues.{DataValue}
use opcua_tsn_lo_i.Subscription.{
  ItemType, change_notify, status_notify, event_notify, is_type, Notification, Settings,
  Subscription, remove, notification_delete,
}
use opcua_tsn_lo_i.Subscription.Queues.{own, count, has}
use opcua_tsn_lo_i.Subscription.Queues.Coherence.{Coherent, counter, notification_delete-Coherent}
use opcua_tsn_lo_i.Subscription.Publish.{collect}

-- What the client gets of a notification.
abbrev pub payload : {V : Type 0} → (ℕ → Settings) → Notification V → ℕ × DataValue V
payload settings n = ((settings n.mon).client_handle, n.value)

abbrev pub payloads : {V : Type 0} → Subscription V → List (ℕ × DataValue V)
payloads s = map (payload s.settings) s.notification_queue

-- All items are there for changes of data.
pub record IsSound {V : Type 0} (s : Subscription V) : Type 0 where
  pub coherent : Coherent s
  pub changes : (m : ℕ) → (s.settings m).item_type ≡ change_notify

-- `s` with the queues and counts of `t`.
abbrev pub framed : {V : Type 0} → Subscription V → Subscription V → Subscription V
framed t s = record s {
  queues = t.queues;
  notification_queue = t.notification_queue;
  notification_queue_size = t.notification_queue_size;
  data_change_notifications = t.data_change_notifications;
  event_notifications = t.event_notifications;
  status_change_notifications = t.status_change_notifications;
}

module _ {V : Type 0} where
  counter-framed : (t s : Subscription V) (u : ItemType) → counter u (framed t s) ≡ counter u t
  counter-framed t s change_notify = refl
  counter-framed t s status_notify = refl
  counter-framed t s event_notify = refl

  -- Coherence is a matter of the queues, counts and settings alone.
  pub framed-IsSound :
      (t s : Subscription V) → s.settings ≡ t.settings → IsSound t → IsSound (framed t s)
  framed-IsSound t s e k = record {
    coherent = record {
      items = k.coherent.items;
      total = k.coherent.total;
      counts = λ u.
          counter-framed t s u
          ∙ k.coherent.counts u
          ∙ ap (λ (f : ℕ → Settings). count (λ m. is_type (f m).item_type u) t.notification_queue)
              (sym e);
      bounded = k.coherent.bounded;
    };
    changes = λ m. ap (λ (f : ℕ → Settings). (f m).item_type) e ∙ k.changes m;
  }

  -- The first notification of the queue goes.
  delete_first :
      (s : Subscription V) (n : Notification V) (q : List (Notification V))
      → s.notification_queue ≡ n ∷ q
      → IsSound s
      → IsSound (notification_delete n.mon n.number s)
        × ((notification_delete n.mon n.number s).notification_queue ≡ q)
        × ((notification_delete n.mon n.number s).settings ≡ s.settings)
        × (notification_delete n.mon n.number s ≡ framed (notification_delete n.mon n.number s) s)
  unfolding notification_delete remove own has
  delete_first s n q e k = (
    record {
      coherent =
          notification_delete-Coherent n.mon s k.coherent n.number
            (rw ((k.coherent.items n.mon).holds, e) (ground arith));
      changes = k.changes;
    },
    rw e (ground arith),
    refl,
    refl,
  )

  -- The message gets the `k` oldest notifications, in their order, and they leave the queues.
  pub record Collected (q : List (Notification V)) (k : ℕ) (s : Subscription V)
      (r : List (ℕ × DataValue V) × Subscription V) : Type 0 where
    pub sound : IsSound r.1
    pub settings : r.1.settings ≡ s.settings
    pub items : r.0 ≡ map (payload s.settings) (take k q)
    pub queue : r.1.notification_queue ≡ drop k q
    pub frame : r.1 ≡ framed r.1 s

  pub collect-Collected :
      (q : List (Notification V)) (k : ℕ) (s : Subscription V)
      → s.notification_queue ≡ q
      → IsSound s
      → Collected q k s (collect q k s)
  unfolding collect
  collect-Collected [] zero s e h = record {
    sound = h;
    settings = refl;
    items = refl;
    queue = e;
    frame = refl;
  }
  collect-Collected [] (suc k) s e h = record {
    sound = h;
    settings = refl;
    items = refl;
    queue = e;
    frame = refl;
  }
  collect-Collected (n ∷ q) zero s e h = record {
    sound = h;
    settings = refl;
    items = refl;
    queue = e;
    frame = refl;
  }
  collect-Collected (n ∷ q) (suc k) s e h =
      let (h', e', t, f) = delete_first s n q e h in
      let ih = collect-Collected q k (notification_delete n.mon n.number s) e' h' in
      let c : is_type (s.settings n.mon).item_type change_notify ≡ true = rw (h.changes n.mon) in
      rw (c, collect)
        (record {
          sound = ih.sound;
          settings = ih.settings ∙ t;
          items =
              ap (◌∷◌ (payload s.settings n))
                (ih.items ∙ ap (λ (g : ℕ → Settings). map (payload g) (take k q)) t);
          queue = ih.queue;
          frame = ih.frame ∙ ap (framed (collect q k (notification_delete n.mon n.number s)).1) f;
        })
