-- ===== src/Subscription/Publish.antt =====
-- Publishing, of src/server/ua_subscription.c, and the queue of publish requests of
-- src/server/ua_session.c. `prepareNotificationMessage` is that of a build without events.
pub mod Outcomes
pub mod Collecting
pub mod Steps
pub mod Sending
pub mod Requests
use opcua_tsn_lo_i.Base.{
  ℕ, zero, suc, ◌+◌, ◌-◌, ◌%◌, ◌^◌, Bool, true, false, not, ◌&&◌, Option, none, some, List, [], ◌∷◌,
  ◌++◌, map, ◌==◌, ltb, leb, if◌then◌else◌, length,
}
use opcua_tsn_lo_i.Codec.DataValues.{DataValue}
use opcua_tsn_lo_i.Subscription.{
  change_notify, is_type, increment, decrement, Notification, SubscriptionState, normal, late,
  keep_alive, NotificationMessage, Subscription, notification_delete,
}

pub data ServiceResult : Type 0 where
  good : ServiceResult
  bad_out_of_memory bad_internal_error bad_no_subscription : ServiceResult
  bad_subscription_id_invalid bad_sequence_number_unknown : ServiceResult
  bad_too_many_publish_requests bad_too_many_subscriptions bad_message_not_available : ServiceResult

-- A publish request that waits, with the results of its acknowledgements.
pub record PublishEntry : Type 0 where
  pub request_id : ℕ
  pub request_handle : ℕ
  pub results : List ServiceResult

pub record PublishResponse (V : Type 0) : Type 0 where
  pub request_id : ℕ
  pub request_handle : ℕ
  pub service_result : ServiceResult
  pub results : List ServiceResult
  pub subscription_id : ℕ
  pub available_sequence_numbers : List ℕ
  pub more_notifications : Bool
  pub message : NotificationMessage V

-- The server around a call: its limit, whether the session's channel is open, and what malloc and
-- the clock answer while a number of publish requests are still queued.
pub record Server : Type 0 where
  pub max_retransmission_queue_size : ℕ
  pub channel : Bool
  pub entry_memory : ℕ → Bool
  pub message_memory : ℕ → Bool
  pub now : ℕ → ℕ

-- UA_Subscription_nextSequenceNumber
unfoldable pub next_sequence_number : ℕ → ℕ
next_sequence_number n = let next = increment n in if next == 0 then 1 else next

unfoldable pub remove_last {ℓ} : {A : Type ℓ} → List A → List A
remove_last [] = []
remove_last (x ∷ []) = []
remove_last (x ∷ (y ∷ xs)) = x ∷ remove_last (y ∷ xs)

-- UA_Subscription_addRetransmissionMessage. The newest message is the first.
unfoldable pub add_retransmission_message :
    {V : Type 0} → ℕ → NotificationMessage V → Subscription V → Subscription V
add_retransmission_message max entry s =
    let full = ltb 0 max && leb max s.retransmission_queue_size in
    let rest = if full then remove_last s.retransmission_queue else s.retransmission_queue in
    let size =
      if full then decrement s.retransmission_queue_size else s.retransmission_queue_size in
    record s { retransmission_queue = entry ∷ rest; retransmission_queue_size = increment size }

-- The loop of prepareNotificationMessage over the queue, which takes `budget` notifications at most.
unfoldable pub collect :
    {V : Type 0}
    → List (Notification V)
    → ℕ
    → Subscription V
    → List (ℕ × DataValue V) × Subscription V
collect [] budget s = ([], s)
collect (n ∷ q) zero s = ([], s)
collect (n ∷ q) (suc budget) s = elim (is_type (s.settings n.mon).item_type change_notify) [
  | true ↦
      let (items, s') = collect q budget (notification_delete n.mon n.number s) in
      (((s.settings n.mon).client_handle, n.value) ∷ items, s')
  | false ↦ collect q (suc budget) s
]

-- prepareNotificationMessage
unfoldable pub prepare_notification_message :
    {V : Type 0} → Bool → ℕ → Subscription V → Option (List (ℕ × DataValue V) × Subscription V)
prepare_notification_message memory notifications s =
    if memory then some (collect s.notification_queue notifications s) else none

-- If there are several late publish responses...
unfoldable pub clip : {V : Type 0} → Subscription V → Subscription V
clip s = record s {
  ready_notifications =
      if ltb s.notification_queue_size s.ready_notifications
      then s.notification_queue_size
      else s.ready_notifications;
}

-- The available notifications, and those of one response.
unfoldable pub available : {V : Type 0} → Subscription V → ℕ
available s = if s.publishing_enabled then s.ready_notifications else 0

unfoldable pub more_notifications : {V : Type 0} → Subscription V → Bool
more_notifications s = ltb s.notifications_per_publish (available s)

unfoldable pub batch : {V : Type 0} → Subscription V → ℕ
batch s = if more_notifications s then s.notifications_per_publish else available s

-- The part of UA_Subscription_publish behind the point of no return.
unfoldable pub respond :
    {V : Type 0}
    → Server
    → ℕ
    → PublishEntry
    → ℕ
    → Bool
    → List (ℕ × DataValue V)
    → Subscription V
    → PublishResponse V × Subscription V
respond {V} server left pre notifications more items s0 =
    let s = record s0 {
      ready_notifications = (s0.ready_notifications + 2 ^ 32 - notifications) % 2 ^ 32;
    } in
    let message : NotificationMessage V = record {
      sequence_number = next_sequence_number s.sequence_number;
      publish_time = server.now left;
      items = items;
    } in
    let s' : Subscription V =
      if notifications == 0
      then s
      else add_retransmission_message server.max_retransmission_queue_size message
          (record s { sequence_number = message.sequence_number }) in
    (
      record {
        request_id = pre.request_id;
        request_handle = pre.request_handle;
        service_result = good;
        results = pre.results;
        subscription_id = s.subscription_id;
        available_sequence_numbers = map (λ m. m.sequence_number) s'.retransmission_queue;
        more_notifications = more;
        message = message;
      },
      record s' { state = normal; current_keep_alive_count = 0 },
    )

-- A publish request is put back, or answered, with more to come or not.
pub data Outcome (V : Type 0) : Type 0 where
  waits : Subscription V → Outcome V
  answers : PublishResponse V → Subscription V → Bool → Outcome V

abbrev pub is_late : {V : Type 0} → Subscription V → Subscription V
is_late s = record s { state = late }

abbrev pub answered : {V : Type 0} → Bool → PublishResponse V × Subscription V → Outcome V
answered more r = answers r.0 r.1 more

-- Nothing is sent, but for a keep-alive message.
unfoldable pub publish_nothing :
    {V : Type 0} → Server → ℕ → PublishEntry → Bool → Subscription V → Outcome V
publish_nothing server left pre more s0 =
    let s = record s0 { current_keep_alive_count = increment s0.current_keep_alive_count } in
    if ltb s.current_keep_alive_count s.max_keep_alive_count
    then waits s
    else if server.channel
    then answered more (respond server left pre 0 more [] s)
    else waits (is_late s)

-- The message with notifications is sent if it could be prepared.
unfoldable pub answer_prepared :
    {V : Type 0}
    → Server
    → ℕ
    → PublishEntry
    → Bool
    → ℕ
    → Subscription V
    → Option (List (ℕ × DataValue V) × Subscription V)
    → Outcome V
answer_prepared server left pre more notifications s none = waits (is_late s)
answer_prepared server left pre more notifications s (some (items, s')) =
    answered more (respond server left pre notifications more items s')

unfoldable pub publish_some :
    {V : Type 0} → Server → ℕ → PublishEntry → Bool → ℕ → Subscription V → Outcome V
publish_some server left pre more notifications s =
    if server.channel && server.entry_memory left
    then answer_prepared server left pre more notifications s
        (prepare_notification_message (server.message_memory left) notifications s)
    else waits (is_late s)

-- UA_Subscription_publish with a publish request, up to the repetition. `left` more are queued.
unfoldable pub publish_one : {V : Type 0} → Server → ℕ → PublishEntry → Subscription V → Outcome V
publish_one server left pre s0 =
    let s = clip (record s0 { current_lifetime_count = 0 }) in
    if batch s == 0
    then publish_nothing server left pre (more_notifications s) s
    else publish_some server left pre (more_notifications s) (batch s) s

-- UA_Subscription_publish without a publish request. The subscription is deleted at `none`.
unfoldable pub publish_none : {V : Type 0} → Subscription V → Option (Subscription V)
publish_none s0 =
    let s = record s0 { current_lifetime_count = increment s0.current_lifetime_count } in
    if ltb s.life_time_count s.current_lifetime_count
    then none
    else let s' = clip s in
      if not (batch s' == 0)
      then some (is_late s')
      else let s'' = record s' {
        current_keep_alive_count = increment s'.current_keep_alive_count;
      } in
        if ltb s''.current_keep_alive_count s''.max_keep_alive_count
        then some s''
        else some (is_late s'')

-- The requests that are left, their number as the session keeps it, the responses, and the
-- subscription, which is gone at `none`.
pub record Published (V : Type 0) : Type 0 where
  pub response_queue : List PublishEntry
  pub num_publish_req : ℕ
  pub sent : List (PublishResponse V)
  pub subscription : Option (Subscription V)

-- UA_Subscription_publish behind its first request, with the repetition `again`.
unfoldable pub proceed :
    {V : Type 0}
    → PublishEntry
    → List PublishEntry
    → ℕ
    → (Subscription V → Published V)
    → Outcome V
    → Published V
proceed pre rest num again (waits s) = record {
  response_queue = pre ∷ rest;
  num_publish_req = increment (decrement num);
  sent = [];
  subscription = some s;
}
proceed pre rest num again (answers response s true) =
    let r = again s in record r { sent = response ∷ r.sent }
proceed pre rest num again (answers response s false) = record {
  response_queue = rest;
  num_publish_req = decrement num;
  sent = response ∷ [];
  subscription = some s;
}

-- UA_Subscription_publish
unfoldable pub publish :
    {V : Type 0} → Server → List PublishEntry → ℕ → Subscription V → Published V
publish server [] num s = record {
  response_queue = [];
  num_publish_req = num;
  sent = [];
  subscription = publish_none s;
}
publish server (pre ∷ rest) num s =
    proceed pre rest num (publish server rest (decrement num))
      (publish_one server (length rest) pre s)

-- publishCallback
unfoldable pub publish_callback :
    {V : Type 0} → Server → List PublishEntry → ℕ → Subscription V → Published V
publish_callback server queue num s =
    publish server queue num (record s { ready_notifications = s.notification_queue_size })
