-- ===== src/Subscription/Publish/Sending/Delivery.antt =====
-- UA_Subscription_publish of src/server/ua_subscription.c: what the client gets.
use opcua_tsn_lo_i.Base.{
  ℕ, suc, ◌+◌, ◌-◌, ◌%◌, ◌^◌, ◌≤◌, ◌<◌, ◌≡◌, refl, ap, sym, subst, ◌∙◌, some, List, [], ◌∷◌, ◌++◌,
  map, arith, length, if◌then◌else◌, Bool, true, false, Bool-cases, inl, inr, concat, All,
  append_assoc,
}
use opcua_tsn_lo_i.Codec.DataValues.{DataValue}
use opcua_tsn_lo_i.Subscription.{NotificationMessage, Subscription}
use opcua_tsn_lo_i.Subscription.Publish.{
  PublishEntry, PublishResponse, Server, next_sequence_number, add_retransmission_message,
  remove_last, publish,
}
use opcua_tsn_lo_i.Subscription.Publish.Collecting.{IsSound, payloads}
use opcua_tsn_lo_i.Subscription.Publish.Steps.{Sends, Chain, is_empty}
use opcua_tsn_lo_i.Subscription.Publish.Sending.{publish-Chain}

-- The notifications that the responses bring, in turn.
abbrev pub brought : {V : Type 0} → List (PublishResponse V) → List (ℕ × DataValue V)
brought rs = concat (map (λ r. r.message.items) rs)

-- A message with notifications takes the next sequence number: that after 2^32 - 1 is 1. A message
-- without any tells what the next one is, and does not use it up.
abbrev pub Numbered : {V : Type 0} → ℕ → List (PublishResponse V) → ℕ → Type 0
Numbered n [] m = m ≡ n
Numbered n (r ∷ rs) m =
    (r.message.sequence_number ≡ n % (2 ^ 32 - 1) + 1)
    × Numbered (if is_empty r.message.items then n else r.message.sequence_number) rs m

-- The retransmission queue has room for `max` messages, and its size is right.
pub record IsLimited {V : Type 0} (max : ℕ) (s : Subscription V) : Type 0 where
  pub size : s.retransmission_queue_size ≡ length s.retransmission_queue
  pub within : length s.retransmission_queue ≤ max

-- A response has as many notifications as allowed, and lists as many messages as are kept.
abbrev pub Fits : {V : Type 0} → ℕ → ℕ → PublishResponse V → Type 0
Fits max per_publish r =
    (length r.message.items ≤ per_publish) × (length r.available_sequence_numbers ≤ max)

next_sequence_number_lem : (n : ℕ) → n < 2 ^ 32 → next_sequence_number n ≡ n % (2 ^ 32 - 1) + 1
unfolding next_sequence_number
next_sequence_number_lem n h = ground arith

next_small : (n : ℕ) → next_sequence_number n < 2 ^ 32
unfolding next_sequence_number
next_small n = ground arith

one_of_both : (b : Bool) (m n k : ℕ) → m < k → n < k → (if b then m else n) < k
one_of_both true m n k h l = h
one_of_both false m n k h l = l

length-remove_last {ℓ} : {A : Type ℓ} (xs : List A) → length (remove_last xs) ≡ length xs - 1
unfolding remove_last
length-remove_last [] = omega arith
length-remove_last (x ∷ []) = omega arith
length-remove_last (x ∷ (y ∷ xs)) = omega (arith, length-remove_last (y ∷ xs))

length-map {ℓ κ} :
    {A : Type ℓ} {B : Type κ} (f : A → B) (xs : List A) → length (map f xs) ≡ length xs
length-map f [] = refl
length-map f (x ∷ xs) = ap suc (length-map f xs)

module _ {V : Type 0} where
  Chain-brought :
      (max : ℕ) (s : Subscription V) (rs : List (PublishResponse V)) (u : Subscription V)
      → Chain max s rs u
      → brought rs ++ payloads u ≡ payloads s
  Chain-brought max s [] u w = rw (w.stays.settings, w.queue) refl
  Chain-brought max s (r ∷ rs) u (t, h, c) =
      append_assoc r.message.items (brought rs) (payloads u)
      ∙ ap (◌++◌ r.message.items) (Chain-brought max t rs u c)
      ∙ h.moved

  Chain-Numbered :
      (max : ℕ) (s : Subscription V) (rs : List (PublishResponse V)) (u : Subscription V)
      → s.sequence_number < 2 ^ 32
      → Chain max s rs u
      → Numbered s.sequence_number rs u.sequence_number
  Chain-Numbered max s [] u h w = w.number
  Chain-Numbered max s (r ∷ rs) u h (t, x, c) =
      let small : r.message.sequence_number < 2 ^ 32 =
        subst (λ n. n < 2 ^ 32) (sym x.number) (next_small s.sequence_number) in
      let below : t.sequence_number < 2 ^ 32 =
        subst (λ n. n < 2 ^ 32) (sym x.next)
          (one_of_both (is_empty r.message.items) _ _ _ h small) in
      (
        x.number ∙ next_sequence_number_lem s.sequence_number h,
        subst (λ n. Numbered n rs u.sequence_number) x.next (Chain-Numbered max t rs u below c),
      )

  add-IsLimited :
      (max : ℕ) (m : NotificationMessage V) (s : Subscription V)
      → 1 ≤ max
      → max < 2 ^ 32
      → IsLimited max s
      → IsLimited max (add_retransmission_message max m s)
  unfolding add_retransmission_message
  add-IsLimited max m s h b k = record {
    size = ground (arith, k.size, k.within, length-remove_last s.retransmission_queue);
    within = ground (arith, k.size, k.within, length-remove_last s.retransmission_queue);
  }

  Sends-IsLimited :
      (max : ℕ) (s : Subscription V) (r : PublishResponse V) (t : Subscription V)
      → 1 ≤ max
      → max < 2 ^ 32
      → IsLimited max s
      → Sends max s r t
      → IsLimited max t
  Sends-IsLimited max s r t h b k x = elim (Bool-cases (is_empty r.message.items)) [
    | inl e ↦
        let u : t.retransmission_queue ≡ s.retransmission_queue = rw e at x.unacknowledged in
        let z : t.retransmission_queue_size ≡ s.retransmission_queue_size = rw e at x.size in
        record { size = z ∙ k.size ∙ sym (ap length u); within = rw u k.within }
    | inr e ↦
        let l = add-IsLimited max r.message s h b k in
        let s' = add_retransmission_message max r.message s in
        let u : t.retransmission_queue ≡ s'.retransmission_queue = rw e at x.unacknowledged in
        let z : t.retransmission_queue_size ≡ s'.retransmission_queue_size = rw e at x.size in
        record { size = z ∙ l.size ∙ sym (ap length u); within = rw u l.within }
  ]

  Chain-Fits :
      (max per_publish : ℕ) (s : Subscription V) (rs : List (PublishResponse V))
      (u : Subscription V)
      → 1 ≤ max
      → max < 2 ^ 32
      → s.notifications_per_publish ≡ per_publish
      → IsLimited max s
      → Chain max s rs u
      → All (Fits max per_publish) rs × IsLimited max u
  Chain-Fits max per_publish s [] u h b n k w = (
    tt,
    record {
      size = w.size ∙ k.size ∙ sym (ap length w.unacknowledged);
      within = rw w.unacknowledged k.within;
    },
  )
  Chain-Fits max per_publish s (r ∷ rs) u h b n k (t, x, c) =
      let l = Sends-IsLimited max s r t h b k x in
      let ih = Chain-Fits max per_publish t rs u h b (x.stays.limit ∙ n) l c in
      (
        (
          (subst (λ m. length r.message.items ≤ m) n x.bounded, rw (x.listed, length-map) l.within),
          ih.0,
        ),
        ih.1,
      )

module _ {V : Type 0} (server : Server) (queue : List PublishEntry) (num : ℕ) (s : Subscription V)
    {t : Subscription V} (k : IsSound s)
    (e : (publish server queue num s).subscription ≡ some t) where
  -- `UA_Subscription_publish` loses no notification, sends none twice and changes none: the
  -- notifications of the responses that it sends, in turn, and then those that are left in the
  -- queue, are those that were in the queue, in the same order. This holds on every path, also
  -- where memory or requests run out, if the queues are coherent, all items are there for changes
  -- of data, and the subscription is not deleted.
  pub publish-brought : brought (publish server queue num s).sent ++ payloads t ≡ payloads s
  publish-brought = Chain-brought _ s _ t (publish-Chain server queue num s k e)

  -- The responses that `UA_Subscription_publish` sends are numbered in turn: one with notifications
  -- takes the next sequence number, where 1 comes after 2^32 - 1, one without tells the next number
  -- and does not use it up, and the last number used is kept for the next call. If the queues are
  -- coherent, all items are there for changes of data, the subscription is not deleted, and its
  -- sequence number has 32 bits.
  pub publish-Numbered :
      s.sequence_number < 2 ^ 32
      → Numbered s.sequence_number (publish server queue num s).sent t.sequence_number
  publish-Numbered h = Chain-Numbered _ s _ t h (publish-Chain server queue num s k e)

  -- Where the server limits the retransmission queue, it never holds more messages, its size stays
  -- right, and no response of `UA_Subscription_publish` lists more; nor does a response hold more
  -- notifications than the subscription allows. If the queues are coherent, all items are there for
  -- changes of data, and the subscription is not deleted.
  pub publish-Fits :
      1 ≤ server.max_retransmission_queue_size
      → server.max_retransmission_queue_size < 2 ^ 32
      → IsLimited server.max_retransmission_queue_size s
      → All
          (Fits server.max_retransmission_queue_size s.notifications_per_publish)
          (publish server queue num s).sent
        × IsLimited server.max_retransmission_queue_size t
  publish-Fits h b l = Chain-Fits _ _ s _ t h b refl l (publish-Chain server queue num s k e)
