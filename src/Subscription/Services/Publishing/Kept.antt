-- ===== src/Subscription/Services/Publishing/Kept.antt =====
-- A subscription keeps its identifier: UA_Subscription_publish of src/server/ua_subscription.c, and
-- UA_Subscription_deleteMembers.
use opcua_tsn_lo_i.Base.{
  ℕ, zero, suc, ◌≡◌, refl, subst, ◌∙◌, Bool, true, false, not, Option, none, some, List, [], ◌∷◌,
  arith, ◌==◌, ltb, if◌then◌else◌, inl, inr, Bool-cases,
}
use opcua_tsn_lo_i.Codec.DataValues.{DataValue}
use opcua_tsn_lo_i.Subscription.{
  change_notify, is_type, increment, decrement, Notification, Subscription, notification_delete,
}
use opcua_tsn_lo_i.Subscription.Publish.{
  PublishEntry, Server, Outcome, waits, answers, is_late, Published, collect, respond,
  prepare_notification_message, clip, batch, add_retransmission_message, publish_one, publish_none,
  publish, proceed,
}
use opcua_tsn_lo_i.Subscription.Publish.Outcomes.{
  Each, waited, responded, refreshed, publish_one-Each,
}
use opcua_tsn_lo_i.Subscription.Services.{
  delete_queued, monitored_item_delete, delete_items, delete_members,
}

module _ {V : Type 0} where
  notification_delete-id :
      (m i : ℕ) (s : Subscription V)
      → (notification_delete m i s).subscription_id ≡ s.subscription_id
  unfolding notification_delete
  notification_delete-id m i s = refl

  collect-id :
      (q : List (Notification V)) (k : ℕ) (s : Subscription V)
      → (collect q k s).1.subscription_id ≡ s.subscription_id
  unfolding collect
  collect-id [] k s = refl
  collect-id (n ∷ q) zero s = refl
  collect-id (n ∷ q) (suc k) s =
      elim (Bool-cases (is_type (s.settings n.mon).item_type change_notify)) [
        | inl e ↦
            rw (e, collect)
              (collect-id q k (notification_delete n.mon n.number s)
                ∙ notification_delete-id n.mon n.number s)
        | inr e ↦ rw (e, collect) (collect-id q (suc k) s)
      ]

  prepared-id :
      (memory : Bool) (k : ℕ) (s s' : Subscription V) (items : List (ℕ × DataValue V))
      → prepare_notification_message memory k s ≡ some (items, s')
      → s'.subscription_id ≡ s.subscription_id
  unfolding prepare_notification_message
  prepared-id true k s s' items e =
      let q : collect s.notification_queue k s ≡ (items, s') = cc in
      subst
        (λ (r : List (ℕ × DataValue V) × Subscription V). r.1.subscription_id ≡ s.subscription_id) q
        (collect-id s.notification_queue k s)
  prepared-id false k s s' items e = cc

  refreshed-id : (s : Subscription V) → (refreshed s).subscription_id ≡ s.subscription_id
  unfolding refreshed clip
  refreshed-id s = refl

  respond-id :
      (server : Server) (left : ℕ) (pre : PublishEntry) (k : ℕ) (more : Bool)
      (items : List (ℕ × DataValue V)) (s : Subscription V)
      → (respond server left pre k more items s).1.subscription_id ≡ s.subscription_id
  unfolding respond add_retransmission_message
  respond-id server left pre k more items s = elim (Bool-cases (k == 0)) [
    | inl e ↦ rw e refl
    | inr e ↦ rw e (ground arith)
  ]

  -- The subscription with identifier `i`, if it is not deleted.
  data HasId (i : ℕ) : Option (Subscription V) → Type 0 where
    deleted : HasId i none
    has_id : {s : Subscription V} → s.subscription_id ≡ i → HasId i (some s)

  HasId-some : (i : ℕ) (t : Subscription V) → HasId i (some t) → t.subscription_id ≡ i
  HasId-some i t (has_id e) = e

  if-HasId :
      (i : ℕ) (b : Bool) (o p : Option (Subscription V))
      → HasId i o
      → HasId i p
      → HasId i (if b then o else p)
  if-HasId i true o p h k = h
  if-HasId i false o p h k = k

  publish_one-Keeps :
      (server : Server) (left : ℕ) (pre : PublishEntry) (s : Subscription V)
      → Each
          (λ t. t.subscription_id ≡ s.subscription_id)
          (λ r t more. t.subscription_id ≡ s.subscription_id)
          (publish_one server left pre s)
  publish_one-Keeps server left pre s =
      publish_one-Each _ _ server left pre s (λ n. refreshed-id s) (λ n. refreshed-id s)
        (λ h n. respond-id server left pre 0 _ [] _ ∙ refreshed-id s)
        (λ items s' h e.
          respond-id server left pre _ _ items s'
          ∙ prepared-id _ _ (refreshed s) s' items e
          ∙ refreshed-id s)

  publish_none-HasId : (s : Subscription V) → HasId s.subscription_id (publish_none s)
  unfolding publish_none clip
  publish_none-HasId s =
      let v = clip (record s { current_lifetime_count = increment s.current_lifetime_count }) in
      let w = record v { current_keep_alive_count = increment v.current_keep_alive_count } in
      if-HasId _ (ltb s.life_time_count (increment s.current_lifetime_count)) none _ deleted (
        if-HasId _ (not (batch v == 0)) (some (is_late v)) _ (has_id {s = is_late v} refl) (
          if-HasId _ (ltb w.current_keep_alive_count w.max_keep_alive_count) (some w)
            (some (is_late w)) (has_id {s = w} refl) (has_id {s = is_late w} refl)))

  proceed-HasId :
      (i : ℕ) (pre : PublishEntry) (rest : List PublishEntry) (num : ℕ)
      (again : Subscription V → Published V) (o : Outcome V)
      → ((t : Subscription V) → t.subscription_id ≡ i → HasId i (again t).subscription)
      → Each (λ t. t.subscription_id ≡ i) (λ r t more. t.subscription_id ≡ i) o
      → HasId i (proceed pre rest num again o).subscription
  unfolding proceed
  proceed-HasId i pre rest num again (waits s) h (waited a) = has_id a
  proceed-HasId i pre rest num again (answers r s true) h (responded a) = h s a
  proceed-HasId i pre rest num again (answers r s false) h (responded a) = has_id a

  publish-HasId :
      (server : Server) (queue : List PublishEntry) (num : ℕ) (s : Subscription V)
      → HasId s.subscription_id (publish server queue num s).subscription
  unfolding publish
  publish-HasId server [] num s = publish_none-HasId s
  publish-HasId server (pre ∷ rest) num s =
      proceed-HasId s.subscription_id pre rest num _ _
        (λ t e.
          subst (λ i. HasId i (publish server rest (decrement num) t).subscription) e
            (publish-HasId server rest _ t))
        (publish_one-Keeps server _ pre s)

  pub published-id :
      (server : Server) (queue : List PublishEntry) (num : ℕ) (s t : Subscription V)
      → (publish server queue num s).subscription ≡ some t
      → t.subscription_id ≡ s.subscription_id
  published-id server queue num s t e =
      HasId-some s.subscription_id t
        (subst (HasId s.subscription_id) e (publish-HasId server queue num s))

  delete_queued-id :
      (m : ℕ) (q : List ℕ) (s : Subscription V)
      → (delete_queued m q s).subscription_id ≡ s.subscription_id
  unfolding delete_queued
  delete_queued-id m [] s = refl
  delete_queued-id m (i ∷ q) s =
      delete_queued-id m q (notification_delete m i s) ∙ notification_delete-id m i s

  delete_items-id :
      (ms : List ℕ) (s : Subscription V) → (delete_items ms s).subscription_id ≡ s.subscription_id
  unfolding delete_items monitored_item_delete
  delete_items-id [] s = refl
  delete_items-id (m ∷ ms) s =
      delete_items-id ms (monitored_item_delete m s) ∙ delete_queued-id m (s.queues m).queue s

  pub delete_members-id :
      (removed : Bool) (s : Subscription V)
      → (delete_members removed s).subscription_id ≡ s.subscription_id
  unfolding delete_members
  delete_members-id removed s = delete_items-id s.monitored_items _
