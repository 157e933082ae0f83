-- ===== src/Subscription/Queues/Enqueue.antt =====
-- UA_Notification_enqueue of src/server/ua_subscription.c: it keeps the queues coherent, and says
-- which notifications are kept where an item has too many.
use opcua_tsn_lo_i.Base.{
  ℕ, suc, ◌+◌, ◌-◌, ◌^◌, ◌≤◌, ◌<◌, ◌≡◌, refl, ap, sym, subst, ◌∙◌, inl, inr, true, false, some, [],
  ◌∷◌, ◌++◌, arith, ◌==◌, leb, length, length-append, Bool-cases, ==_iff, if◌then◌else◌,
}
use opcua_tsn_lo_i.Codec.DataValues.{DataValue}
use opcua_tsn_lo_i.Subscription.{
  ItemType, change_notify, status_notify, event_notify, is_type, Notification, Subscription, mark,
  with_infobits, carrier, drop_loop, set_infobits, ensure_queue_space, append_notification, enqueue,
}
use opcua_tsn_lo_i.Subscription.Queues.{
  own, others_of, count, place, others_of-append, others_of-mark, has, own-append, own-mark,
  count-mark, place-mark, place-append,
}
use opcua_tsn_lo_i.Subscription.Queues.Coherence.{
  Coherent, Agrees, any, has_type, counter, append_notification-Coherent,
}
use opcua_tsn_lo_i.Subscription.Queues.Coherence.Victims.{discard, carrier_exists}
use opcua_tsn_lo_i.Subscription.Queues.Trim.{Trimmed, Trimmed-refl, iterate, drop_loop-Trimmed}

module _ {V : Type 0} (m : ℕ) where
  abbrev marked : (DataValue V → DataValue V) → ℕ → Subscription V → Subscription V
  marked f i s = record s { notification_queue = mark f m i s.notification_queue }

  counter-marked :
      (f : DataValue V → DataValue V) (i : ℕ) (s : Subscription V) (t : ItemType)
      → counter t (marked f i s) ≡ counter t s
  counter-marked f i s change_notify = refl
  counter-marked f i s status_notify = refl
  counter-marked f i s event_notify = refl

  marked-Trimmed :
      (f : DataValue V → DataValue V) (i : ℕ) (s : Subscription V)
      → Coherent s
      → Trimmed m 0 s (marked f i s)
  unfolding iterate
  marked-Trimmed f i s k = record {
    coherent = record {
      items = λ j.
          subst (Agrees (s.queues j)) (sym (own-mark f j m i s.notification_queue)) (k.items j);
      total = k.total ∙ sym (count-mark any f m i s.notification_queue);
      counts = λ t.
          counter-marked f i s t
          ∙ k.counts t
          ∙ sym (count-mark (has_type s t) f m i s.notification_queue);
      bounded = rw count-mark k.bounded;
    };
    settings = refl;
    queue = refl;
    size = omega arith;
    others = λ j n. own-mark f j m i s.notification_queue;
    untouched = others_of-mark f m i s.notification_queue;
    place = place-mark f m m i s.notification_queue;
  }

  infobits_carried :
      (s : Subscription V) (i : ℕ)
      → is_type (s.settings m).item_type change_notify ≡ true
      → carrier (s.settings m).discard_oldest (s.queues m).queue ≡ some i
      → set_infobits m s ≡ some (marked (with_infobits (s.settings m).max_queue_size) i s)
  unfolding set_infobits
  infobits_carried s i t e = rw (t, set_infobits, e, set_infobits)

  set_infobits-Trimmed :
      (s : Subscription V)
      → Coherent s
      → 1 ≤ length (s.queues m).queue
      → (s' : Subscription V) × (set_infobits m s ≡ some s') × Trimmed m 0 s s'
  unfolding set_infobits
  set_infobits-Trimmed s k h = elim (Bool-cases (is_type (s.settings m).item_type change_notify)) [
    | inl e ↦
        let (i, c) = carrier_exists (s.settings m).discard_oldest (s.queues m).queue h in
        (
          marked (with_infobits (s.settings m).max_queue_size) i s,
          infobits_carried s i e c,
          marked-Trimmed _ i s k,
        )
    | inr e ↦ (s, rw (e, set_infobits), Trimmed-refl m s k)
  ]

  Trimmed-then :
      (n : ℕ) {s t u : Subscription V} → Trimmed m n s t → Trimmed m 0 t u → Trimmed m n s u
  unfolding iterate
  Trimmed-then n p q = record {
    coherent = q.coherent;
    settings = q.settings ∙ p.settings;
    queue = q.queue ∙ p.queue;
    size = omega (arith, p.size, q.size);
    others = λ j d. q.others j d ∙ p.others j d;
    untouched = q.untouched ∙ p.untouched;
    place = q.place ∙ p.place;
  }

  ensure_space :
      (s t : Subscription V)
      → leb (s.queues m).queue_size (s.settings m).max_queue_size ≡ false
      → drop_loop (suc (s.queues m).queue_size) m s ≡ some t
      → ensure_queue_space m s ≡ set_infobits m t
  unfolding ensure_queue_space
  ensure_space s t full e = rw (full, ensure_queue_space, e, ensure_queue_space)

  pub ensure_queue_space-Trimmed :
      (s : Subscription V)
      → Coherent s
      → 1 ≤ (s.settings m).max_queue_size
      → (s' : Subscription V) × (ensure_queue_space m s ≡ some s')
        × Trimmed m (length (s.queues m).queue - (s.settings m).max_queue_size) s s'
  unfolding ensure_queue_space
  ensure_queue_space-Trimmed s k h =
      elim (Bool-cases (leb (s.queues m).queue_size (s.settings m).max_queue_size)) [
        | inl e ↦ (
          s,
          rw (e, ensure_queue_space),
          subst (λ n. Trimmed m n s s) (ground (arith, (k.items m).size)) (Trimmed-refl m s k),
        )
        | inr e ↦
            let (t, g, p) =
              drop_loop-Trimmed m (suc (s.queues m).queue_size) s k h
                (omega (arith, (k.items m).size)) in
            let (u, g', p') =
              set_infobits-Trimmed t p.coherent (ground (arith, p.size, (k.items m).size)) in
            (u, ensure_space s t e g ∙ g', Trimmed-then _ p p')
      ]

-- What a new notification `n` needs: it is another object than those that are queued, the counters
-- do not overflow, and the queue of its item may hold something.
pub record IsFresh {V : Type 0} (n : Notification V) (s : Subscription V) : Type 0 where
  pub new : has n.number (own n.mon s.notification_queue) ≡ false
  pub countable : count any s.notification_queue + 1 < 2 ^ 32
  pub allowed : 1 ≤ (s.settings n.mon).max_queue_size

module _ {V : Type 0} (n : Notification V) (s : Subscription V) (k : Coherent s)
    (h : IsFresh n s) where
  appended-Trimmed :
      (s' : Subscription V) × (enqueue n s ≡ some s')
      × Trimmed n.mon
          (length ((append_notification n s).queues n.mon).queue
            - (s.settings n.mon).max_queue_size)
          (append_notification n s)
          s'
  unfolding enqueue append_notification
  appended-Trimmed =
      ensure_queue_space-Trimmed n.mon (append_notification n s)
        (append_notification-Coherent n s k h.new h.countable) h.allowed

  appended-queue :
      ((append_notification n s).queues n.mon).queue ≡ (s.queues n.mon).queue ++ n.number ∷ []
  unfolding append_notification
  appended-queue = ground arith

  -- To queue a notification keeps the queues coherent: the queue of each monitored item holds its
  -- notifications, each once and in the order of the subscription's queue, and the sizes and the
  -- counts by type are right. The item has at most as many as it may have.
  pub enqueue-Coherent :
      (s' : Subscription V) × (enqueue n s ≡ some s')
      × Coherent s'
      × ((s'.queues n.mon).queue_size ≤ (s.settings n.mon).max_queue_size)
      × (s'.settings ≡ s.settings)
  unfolding append_notification
  enqueue-Coherent =
      let (s', e, p) = appended-Trimmed in
      (s', e, p.coherent, ground (arith, p.size, (p.coherent.items n.mon).size), p.settings)

  -- Where an item has too many notifications with the new one, the oldest ones or the second newest
  -- ones are dropped, as the item is set, and the newest is kept. The notifications of other items
  -- all stay in the subscription's queue, with their values and in their order, and the item keeps
  -- its place in that queue: as many notifications as before are ahead of its first one.
  pub enqueue-keeps :
      (s' : Subscription V) × (enqueue n s ≡ some s')
      × ((s'.queues n.mon).queue
          ≡ iterate
              (length (s.queues n.mon).queue + 1 - (s.settings n.mon).max_queue_size)
              (discard (s.settings n.mon).discard_oldest)
              ((s.queues n.mon).queue ++ n.number ∷ []))
      × (others_of n.mon s'.notification_queue ≡ others_of n.mon s.notification_queue)
      × ((j : ℕ)
          → own j s'.notification_queue
            ≡ (if j == n.mon then (s'.queues n.mon).queue else own j s.notification_queue))
      × (place n.mon s'.notification_queue ≡ place n.mon s.notification_queue)
  unfolding append_notification
  enqueue-keeps =
      let (s', e, p) = appended-Trimmed in
      let m = n.mon in
      let one_more : length ((append_notification n s).queues m).queue
          ≡ length (s.queues m).queue + 1 =
        ap length appended-queue ∙ length-append (s.queues m).queue (n.number ∷ []) in
      (
        s',
        e,
        p.queue ∙ rw (one_more, appended-queue) refl,
        p.untouched ∙ others_of-append m s.notification_queue n refl,
        λ j. elim (Bool-cases (j == m)) [
          | inl d ↦ rw (d, (==_iff j m).0 d) (sym (p.coherent.items m).holds)
          | inr d ↦
              rw d (
                p.others j (λ f. ground arith)
                ∙ ground (arith, own-append j s.notification_queue n))
        ],
        p.place ∙ place-append m s.notification_queue n refl,
      )
