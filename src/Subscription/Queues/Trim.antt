-- ===== src/Subscription/Queues/Trim.antt =====
-- MonitoredItem_ensureQueueSpace of src/server/ua_subscription_datachange.c: what its loop does.
use opcua_tsn_lo_i.Base.{
  ℕ, zero, suc, ◌+◌, ◌-◌, ◌≤◌, ◌<◌, ◌≡◌, ◌≢◌, refl, ap, sym, ◌∙◌, inl, inr, true, false, some, List,
  [], ◌∷◌, arith, ltb, length, Bool-cases, subst,
}
use opcua_tsn_lo_i.Subscription.{
  Settings, Notification, Subscription, find, remove, victims, notification_delete, move_after,
  drop_one, drop_loop,
}
use opcua_tsn_lo_i.Subscription.Queues.{
  own, others_of, place, find-own, others_of-remove, others_of-insert_after, own-remove_other,
  own-insert_after_other, remove-insert_after, place-replace, place-remove,
}
use opcua_tsn_lo_i.Subscription.Queues.Coherence.{
  Coherent, moved, moved-Coherent, notification_delete-Coherent,
}
use opcua_tsn_lo_i.Subscription.Queues.Coherence.Victims.{
  victims-AreVictims, victims_exist, length-remove_number, discard, remove_number-victims,
}

unfoldable pub iterate {ℓ} : {A : Type ℓ} → ℕ → (A → A) → A → A
iterate zero f x = x
iterate (suc n) f x = iterate n f (f x)

-- `rounds` notifications of item `m` are dropped, and all else is kept.
pub record Trimmed {V : Type 0} (m rounds : ℕ) (s s' : Subscription V) : Type 0 where
  pub coherent : Coherent s'
  pub settings : s'.settings ≡ s.settings
  pub queue :
      (s'.queues m).queue
      ≡ iterate rounds (discard (s.settings m).discard_oldest) (s.queues m).queue
  pub size : length (s'.queues m).queue + rounds ≡ length (s.queues m).queue
  pub others : (j : ℕ) → j ≢ m → own j s'.notification_queue ≡ own j s.notification_queue
  pub untouched : others_of m s'.notification_queue ≡ others_of m s.notification_queue
  pub place : place m s'.notification_queue ≡ place m s.notification_queue

module _ {V : Type 0} (m : ℕ) where
  stays :
      (a : ℕ) (gq : List (Notification V)) (q : List ℕ)
      → own m gq ≡ q
      → 1 ≤ length q
      → ((f : ℕ) (r : List ℕ) → q ≡ f ∷ r → f ≢ a)
      → place m (remove m a gq) ≡ place m gq
  stays a gq [] e h behind = absurd (omega arith)
  stays a gq (f ∷ r) e h behind = place-remove m a f r gq e (behind f r refl)

  drop_one_picks :
      (s : Subscription V) (d a : ℕ) (x : Notification V)
      → victims (s.settings m).discard_oldest (s.queues m).queue ≡ some (d, a)
      → find m a s.notification_queue ≡ some x
      → drop_one m s ≡ some (notification_delete m d (moved m d a x s))
  unfolding drop_one move_after moved
  drop_one_picks s d a x e f = rw (e, drop_one, f, move_after)

  drop_one-Trimmed :
      (s : Subscription V)
      → Coherent s
      → 2 ≤ length (s.queues m).queue
      → (s' : Subscription V) × (drop_one m s ≡ some s') × Trimmed m 1 s s'
  unfolding notification_delete moved iterate
  drop_one-Trimmed s k h =
      let b = (s.settings m).discard_oldest in
      let q = (s.queues m).queue in
      let (d, a, e) = victims_exist b q h in
      let v = victims-AreVictims b q d a (k.items m).distinct e in
      let (x, f, own_x, is_a) =
        find-own m a s.notification_queue (rw (← (k.items m).holds) v.present) in
      (
        notification_delete m d (moved m d a x s),
        drop_one_picks s d a x e f,
        record {
          coherent =
              notification_delete-Coherent m (moved m d a x s)
                (moved-Coherent m s k d a x v own_x is_a) d v.deleted;
          settings = refl;
          queue = ground (arith, remove_number-victims b q d a (k.items m).distinct e);
          size = ground (arith, length-remove_number d q v.deleted);
          others = λ j n.
              own-remove_other j m d _ n
              ∙ own-insert_after_other j m d x _ own_x n
              ∙ own-remove_other j m a s.notification_queue n;
          untouched =
              others_of-remove m d _
              ∙ others_of-insert_after m d x _ own_x
              ∙ others_of-remove m a s.notification_queue;
          place =
              rw (remove-insert_after m d x _ own_x, place-replace m d x _ own_x)
                (stays a s.notification_queue q (sym (k.items m).holds) (omega arith) v.behind);
        },
      )

  Trimmed-trans :
      (n : ℕ) {s t u : Subscription V} → Trimmed m 1 s t → Trimmed m n t u → Trimmed m (suc n) s u
  unfolding iterate
  Trimmed-trans n {s} p q = record {
    coherent = q.coherent;
    settings = q.settings ∙ p.settings;
    queue =
        q.queue
        ∙ ground (arith, p.queue, ap (λ (f : ℕ → Settings). (f m).discard_oldest) p.settings);
    size = omega (arith, p.size, q.size);
    others = λ j n. q.others j n ∙ p.others j n;
    untouched = q.untouched ∙ p.untouched;
    place = q.place ∙ p.place;
  }

  pub Trimmed-refl : (s : Subscription V) → Coherent s → Trimmed m 0 s s
  unfolding iterate
  Trimmed-refl s k = record {
    coherent = k;
    settings = refl;
    queue = refl;
    size = omega arith;
    others = λ j n. refl;
    untouched = refl;
    place = refl;
  }

  drop_loop_more :
      (fuel : ℕ) (s t : Subscription V)
      → ltb (s.settings m).max_queue_size (s.queues m).queue_size ≡ true
      → drop_one m s ≡ some t
      → drop_loop (suc fuel) m s ≡ drop_loop fuel m t
  unfolding drop_loop
  drop_loop_more fuel s t more e = rw (more, drop_loop, e, drop_loop)

  drop_loop_done :
      (fuel : ℕ) (s : Subscription V)
      → ltb (s.settings m).max_queue_size (s.queues m).queue_size ≡ false
      → drop_loop (suc fuel) m s ≡ some s
  unfolding drop_loop
  drop_loop_done fuel s done = rw (done, drop_loop)

  -- The loop ends, since a round takes a notification, and leaves as many as are allowed.
  pub drop_loop-Trimmed :
      (fuel : ℕ) (s : Subscription V)
      → Coherent s
      → 1 ≤ (s.settings m).max_queue_size
      → length (s.queues m).queue < fuel
      → (s' : Subscription V) × (drop_loop fuel m s ≡ some s')
        × Trimmed m (length (s.queues m).queue - (s.settings m).max_queue_size) s s'
  drop_loop-Trimmed zero s k h f = absurd (omega arith)
  drop_loop-Trimmed (suc fuel) s k h f =
      elim (Bool-cases (ltb (s.settings m).max_queue_size (s.queues m).queue_size)) [
        | inl more ↦
            let (t, e, p) = drop_one-Trimmed s k (ground (arith, (k.items m).size)) in
            let max = ap (λ (f : ℕ → Settings). (f m).max_queue_size) p.settings in
            let (u, e', p') =
              drop_loop-Trimmed fuel t p.coherent (rw max h) (omega (arith, p.size)) in
            (
              u,
              drop_loop_more fuel s t more e ∙ e',
              subst (λ n. Trimmed m n s u) (ground (arith, p.size, max, (k.items m).size))
                  (Trimmed-trans _ p p'),
            )
        | inr done ↦ (
          s,
          drop_loop_done fuel s done,
          subst (λ n. Trimmed m n s s) (ground (arith, (k.items m).size)) (Trimmed-refl s k),
        )
      ]
