-- ===== src/Subscription/Queues/Coherence.antt =====
-- src/server/ua_subscription.c and MonitoredItem_ensureQueueSpace: the queues of the items and that
-- of the subscription agree, and the sizes and counts are theirs.
pub mod Victims
use opcua_tsn_lo_i.Base.{
  ℕ, zero, suc, ◌+◌, ◌-◌, ◌%◌, ◌^◌, ◌≤◌, ◌<◌, ◌≡◌, ◌≢◌, refl, ap, sym, ◌∙◌, inl, inr, Bool, true,
  false, Option, none, some, List, [], ◌∷◌, ◌++◌, arith, ◌==◌, ltb, if◌then◌else◌, length,
  length-append, Bool-cases, Option-cases, subst, ==_iff,
}
use opcua_tsn_lo_i.Codec.DataValues.{DataValue}
use opcua_tsn_lo_i.Subscription.{
  ItemType, change_notify, status_notify, event_notify, is_type, increment, decrement, Notification,
  ItemQueue, Subscription, is_at, remove, insert_after, find, remove_number, set_queue, recount,
  mark, victims, notification_delete, move_after, drop_one, drop_loop, carrier, set_infobits,
  ensure_queue_space, append_notification, enqueue, last, overflow_bits, with_infobits,
}
use opcua_tsn_lo_i.Subscription.Queues.{
  own, count, insert_number, has, Distinct, own-append, own-remove, own-remove_other,
  own-insert_after, own-insert_after_other, own-mark, count-append, count-remove,
  count-insert_after, count-mark, find-own,
}
use Victims.{
  AreVictims, victims-AreVictims, victims_exist, length-remove_number, remove_number-Distinct,
  append-Distinct, carrier_exists,
}

-- The count that the subscription keeps of the notifications of a type.
abbrev pub counter : {V : Type 0} → ItemType → Subscription V → ℕ
counter change_notify s = s.data_change_notifications
counter status_notify s = s.status_change_notifications
counter event_notify s = s.event_notifications

abbrev pub has_type : {V : Type 0} → Subscription V → ItemType → ℕ → Bool
has_type s t m = is_type (s.settings m).item_type t

abbrev pub any : ℕ → Bool
any m = true

-- The queue of an item holds `q`, each notification once, and its size is right.
pub record Agrees (x : ItemQueue) (q : List ℕ) : Type 0 where
  pub holds : x.queue ≡ q
  pub size : x.queue_size ≡ length x.queue
  pub distinct : Distinct x.queue

-- The queue of every item holds its notifications in the order of the subscription's queue.
pub record Coherent {V : Type 0} (s : Subscription V) : Type 0 where
  pub items : (m : ℕ) → Agrees (s.queues m) (own m s.notification_queue)
  pub total : s.notification_queue_size ≡ count any s.notification_queue
  pub counts : (t : ItemType) → counter t s ≡ count (has_type s t) s.notification_queue
  pub bounded : count any s.notification_queue < 2 ^ 32

set_queue-Agrees :
    (f : ℕ → ItemQueue) (g : ℕ → List ℕ) (m : ℕ) (x : ItemQueue)
    → Agrees x (g m)
    → ((j : ℕ) → j ≢ m → Agrees (f j) (g j))
    → (j : ℕ) → Agrees (set_queue m x f j) (g j)
set_queue-Agrees f g m x h hs j = elim (Bool-cases (j == m)) [
  | inl e ↦ rw e (subst (λ i. Agrees x (g i)) (sym ((==_iff j m).0 e)) h)
  | inr e ↦ rw e (hs j (λ d. ground arith))
]

length-own : {V : Type 0} (m : ℕ) (q : List (Notification V)) → length (own m q) ≤ count any q
unfolding own count
length-own m [] = omega arith
length-own m (x ∷ q) = ground (arith, length-own m q)

count-le : {V : Type 0} (P : ℕ → Bool) (q : List (Notification V)) → count P q ≤ count any q
unfolding count
count-le P [] = omega arith
count-le P (x ∷ q) = ground (arith, count-le P q)

counter_same :
    {V : Type 0} (t : ItemType) (q : List (Notification V)) (f : ℕ → ItemQueue) (n : ℕ)
    (s : Subscription V)
    → counter t (record s { queues = f; notification_queue = q; notification_queue_size = n })
      ≡ counter t s
counter_same change_notify q f n s = refl
counter_same status_notify q f n s = refl
counter_same event_notify q f n s = refl

-- The place of a notification in the subscription's queue changes.
unfoldable pub moved : {V : Type 0} → ℕ → ℕ → ℕ → Notification V → Subscription V → Subscription V
moved m d a x s = record s {
  notification_queue = insert_after m d x (remove m a s.notification_queue);
}

module _ {V : Type 0} (m : ℕ) (s : Subscription V) (k : Coherent s) where
  own-moved :
      (d a : ℕ) (x : Notification V)
      → AreVictims (s.queues m).queue d a
      → x.mon ≡ m
      → x.number ≡ a
      → (j : ℕ) → own j (moved m d a x s).notification_queue ≡ own j s.notification_queue
  unfolding moved
  own-moved d a x v e f j = elim (Bool-cases (j == m)) [
    | inl g ↦
        subst
          (λ i.
            own i (insert_after m d x (remove m a s.notification_queue))
            ≡ own i s.notification_queue)
          (sym ((==_iff j m).0 g))
          (rw (own-insert_after m d x _ e, own-remove, f, ← (k.items m).holds) v.moved)
    | inr g ↦
        let h : j ≢ m = λ h. ground arith in
        own-insert_after_other j m d x _ e h ∙ own-remove_other j m a s.notification_queue h
  ]

  pub moved-Coherent :
      (d a : ℕ) (x : Notification V)
      → AreVictims (s.queues m).queue d a
      → x.mon ≡ m
      → x.number ≡ a
      → Coherent (moved m d a x s)
  unfolding moved
  moved-Coherent d a x v e f =
      let q = s.notification_queue in
      let there : has a (own m q) ≡ true = rw (← (k.items m).holds) v.present in
      let behind : has d (own m (remove m a q)) ≡ true =
        rw (own-remove, ← (k.items m).holds) v.kept in
      let same : (P : ℕ → Bool) → count P (insert_after m d x (remove m a q)) ≡ count P q = λ P.
        omega
          (arith, count-insert_after P m d x (remove m a q) e behind, count-remove P m a q there) in
      record {
        items = λ j. subst (Agrees (s.queues j)) (sym (own-moved d a x v e f j)) (k.items j);
        total = k.total ∙ sym (same any);
        counts = λ t.
            counter_same t (insert_after m d x (remove m a q)) s.queues s.notification_queue_size s
            ∙ k.counts t
            ∙ sym (same (has_type s t));
        bounded = rw (same any) k.bounded;
      }

  counter-delete :
      (i : ℕ) (t : ItemType)
      → counter t (notification_delete m i s)
        ≡ (if has_type s t m then decrement (counter t s) else counter t s)
  unfolding notification_delete
  counter-delete i change_notify = refl
  counter-delete i status_notify = refl
  counter-delete i event_notify = refl

  pub notification_delete-Coherent :
      (i : ℕ) → has i (s.queues m).queue ≡ true → Coherent (notification_delete m i s)
  unfolding notification_delete
  notification_delete-Coherent i h =
      let q = s.notification_queue in
      let there : has i (own m q) ≡ true = rw (← (k.items m).holds) h in
      record {
        items =
            set_queue-Agrees s.queues (λ j. own j (remove m i q)) m _
              (record {
                holds = ap (remove_number i) (k.items m).holds ∙ sym (own-remove m i q);
                size = ground (
                  arith,
                  length-remove_number i (s.queues m).queue h,
                  (k.items m).size,
                  length-own m q,
                  ap length (k.items m).holds,
                  k.bounded,
                );
                distinct = remove_number-Distinct i (s.queues m).queue (k.items m).distinct;
              })
              (λ j d. subst (Agrees (s.queues j)) (sym (own-remove_other j m i q d)) (k.items j));
        total = ground (arith, count-remove any m i q there, k.total, k.bounded);
        counts = λ t.
            counter-delete i t
            ∙ ground (
              arith,
              count-remove (has_type s t) m i q there,
              k.counts t,
              count-le (has_type s t) q,
              k.bounded,
            );
        bounded = ground (arith, count-remove any m i q there, k.bounded);
      }

module _ {V : Type 0} where
  counter-append :
      (n : Notification V) (s : Subscription V) (t : ItemType)
      → counter t (append_notification n s)
        ≡ (if has_type s t n.mon then increment (counter t s) else counter t s)
  unfolding append_notification
  counter-append n s change_notify = refl
  counter-append n s status_notify = refl
  counter-append n s event_notify = refl

  -- The new notification is another object than those that are queued, and there is room to count
  -- it.
  pub append_notification-Coherent :
      (n : Notification V) (s : Subscription V)
      → Coherent s
      → has n.number (own n.mon s.notification_queue) ≡ false
      → count any s.notification_queue + 1 < 2 ^ 32
      → Coherent (append_notification n s)
  unfolding append_notification
  append_notification-Coherent n s k h b =
      let q = s.notification_queue in
      let m = n.mon in
      record {
        items =
            set_queue-Agrees s.queues (λ j. own j (q ++ n ∷ [])) m _
              (record {
                holds = ground (arith, (k.items m).holds, own-append m q n);
                size = ground (
                  arith,
                  length-append (s.queues m).queue (n.number ∷ []),
                  (k.items m).size,
                  length-own m q,
                  ap length (k.items m).holds,
                );
                distinct =
                    append-Distinct n.number (s.queues m).queue (k.items m).distinct
                      (rw ((k.items m).holds) h);
              })
              (λ j d. subst (Agrees (s.queues j)) (ground (arith, own-append j q n)) (k.items j));
        total = ground (arith, count-append any q n, k.total);
        counts = λ t.
            counter-append n s t
            ∙ ground
                (arith, count-append (has_type s t) q n, k.counts t, count-le (has_type s t) q);
        bounded = ground (arith, count-append any q n);
      }
