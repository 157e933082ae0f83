-- ===== src/Subscription.antt =====
-- src/server/ua_subscription.h and the queues of src/server/ua_subscription.c: monitored items put
-- notifications into a queue of their own and into the queue of the subscription. The build is
-- one without events.
--
-- An item is known by its identifier. A notification is known by its item and by a number, which
-- stands for its address. The queue of an item holds the numbers, that of the subscription the
-- notifications.
pub mod Queues
pub mod Publish
pub mod Services
use opcua_tsn_lo_i.Base.{
  ℕ, zero, suc, ◌+◌, ◌-◌, ◌%◌, ◌^◌, Bool, true, false, not, ◌&&◌, Option, none, some, List, [], ◌∷◌,
  ◌++◌, ◌==◌, ltb, leb, if◌then◌else◌,
}
use opcua_tsn_lo_i.Base.Bits.{or_flag}
use opcua_tsn_lo_i.Codec.DataValues.{DataValue}
use Prim.Native.Nat.{bit_and, bit_or}

pub data ItemType : Type 0 where
  change_notify status_notify event_notify : ItemType

abbrev pub is_type : ItemType → ItemType → Bool
is_type change_notify change_notify = true
is_type status_notify status_notify = true
is_type event_notify event_notify = true
is_type _ _ = false

-- `++n` and `--n` on a UA_UInt32.
abbrev pub increment : ℕ → ℕ
increment n = (n + 1) % 2 ^ 32

abbrev pub decrement : ℕ → ℕ
decrement n = (n + 2 ^ 32 - 1) % 2 ^ 32

pub record Notification (V : Type 0) : Type 0 where
  pub number : ℕ
  pub mon : ℕ
  pub value : DataValue V

-- The settings of a UA_MonitoredItem that its queue depends on.
pub record Settings : Type 0 where
  pub client_handle : ℕ
  pub item_type : ItemType
  pub max_queue_size : ℕ
  pub discard_oldest : Bool

-- The queue of a UA_MonitoredItem, oldest first, and the size that it keeps of it.
pub record ItemQueue : Type 0 where
  pub queue : List ℕ
  pub queue_size : ℕ

pub data SubscriptionState : Type 0 where
  normal late keep_alive : SubscriptionState

-- What the client has acknowledged or not: the notifications of one publish response.
pub record NotificationMessage (V : Type 0) : Type 0 where
  pub sequence_number : ℕ
  pub publish_time : ℕ
  pub items : List (ℕ × DataValue V)

pub record Subscription (V : Type 0) : Type 0 where
  pub subscription_id : ℕ
  pub life_time_count : ℕ
  pub max_keep_alive_count : ℕ
  pub publishing_interval : ℕ
  pub notifications_per_publish : ℕ
  pub publishing_enabled : Bool
  pub priority : ℕ
  pub state : SubscriptionState
  pub sequence_number : ℕ
  pub current_keep_alive_count : ℕ
  pub current_lifetime_count : ℕ
  pub publish_callback_is_registered : Bool
  pub last_monitored_item_id : ℕ
  pub monitored_items : List ℕ
  pub monitored_items_size : ℕ
  pub settings : ℕ → Settings
  pub queues : ℕ → ItemQueue
  pub notification_queue : List (Notification V)
  pub notification_queue_size : ℕ
  pub data_change_notifications : ℕ
  pub event_notifications : ℕ
  pub status_change_notifications : ℕ
  pub ready_notifications : ℕ
  pub retransmission_queue : List (NotificationMessage V)
  pub retransmission_queue_size : ℕ

abbrev pub is_at : {V : Type 0} → ℕ → ℕ → Notification V → Bool
is_at m i n = n.mon == m && n.number == i

-- TAILQ_REMOVE on the queue of the subscription.
unfoldable pub remove : {V : Type 0} → ℕ → ℕ → List (Notification V) → List (Notification V)
remove m i [] = []
remove m i (n ∷ q) = if is_at m i n then q else n ∷ remove m i q

-- TAILQ_INSERT_AFTER on the queue of the subscription.
unfoldable pub insert_after :
    {V : Type 0} → ℕ → ℕ → Notification V → List (Notification V) → List (Notification V)
insert_after m i x [] = []
insert_after m i x (n ∷ q) = if is_at m i n then n ∷ (x ∷ q) else n ∷ insert_after m i x q

-- The notification that a pointer names.
unfoldable pub find : {V : Type 0} → ℕ → ℕ → List (Notification V) → Option (Notification V)
find m i [] = none
find m i (n ∷ q) = if is_at m i n then some n else find m i q

-- TAILQ_REMOVE on the queue of an item.
unfoldable pub remove_number : ℕ → List ℕ → List ℕ
remove_number i [] = []
remove_number i (j ∷ q) = if j == i then q else j ∷ remove_number i q

abbrev pub set_queue : ℕ → ItemQueue → (ℕ → ItemQueue) → ℕ → ItemQueue
set_queue m x f j = if j == m then x else f j

-- One more, or one less, in the count of the notifications of that type.
abbrev pub recount : {V : Type 0} → (ℕ → ℕ) → ItemType → Subscription V → Subscription V
recount f item_type s = record s {
  data_change_notifications =
      if is_type item_type change_notify
      then f s.data_change_notifications
      else s.data_change_notifications;
  event_notifications =
      if is_type item_type event_notify then f s.event_notifications else s.event_notifications;
  status_change_notifications =
      if is_type item_type status_notify
      then f s.status_change_notifications
      else s.status_change_notifications;
}

-- UA_Notification_delete
unfoldable pub notification_delete : {V : Type 0} → ℕ → ℕ → Subscription V → Subscription V
notification_delete m i s0 =
    let s = recount decrement (s0.settings m).item_type s0 in
    record s {
      queues =
          set_queue m
            (record {
              queue = remove_number i (s0.queues m).queue;
              queue_size = decrement (s0.queues m).queue_size;
            })
            s0.queues;
      notification_queue = remove m i s0.notification_queue;
      notification_queue_size = decrement s0.notification_queue_size;
    }

-- The notification to delete, and the one to keep in its place: the two oldest ones, or the
-- second newest and the newest one. There may be none.
unfoldable pub newest_two : List ℕ → Option (ℕ × ℕ)
newest_two [] = none
newest_two (d ∷ []) = none
newest_two (d ∷ (a ∷ [])) = some (d, a)
newest_two (d ∷ (a ∷ (b ∷ q))) = newest_two (a ∷ (b ∷ q))

unfoldable pub oldest_two : List ℕ → Option (ℕ × ℕ)
oldest_two (d ∷ (a ∷ q)) = some (d, a)
oldest_two q = none

unfoldable pub victims : Bool → List ℕ → Option (ℕ × ℕ)
victims discard_oldest q = if discard_oldest then oldest_two q else newest_two q

-- `after_del` goes right behind `del` in the queue of the subscription.
unfoldable pub move_after : {V : Type 0} → ℕ → ℕ → ℕ → Subscription V → Option (Subscription V)
move_after m del after_del s = elim (find m after_del s.notification_queue) [
  | none ↦ none
  | some x ↦ some (record s {
    notification_queue = insert_after m del x (remove m after_del s.notification_queue);
  })
]

-- A round of the loop of MonitoredItem_ensureQueueSpace. A null pointer is followed at `none`.
unfoldable pub drop_one : {V : Type 0} → ℕ → Subscription V → Option (Subscription V)
drop_one m s = elim (victims (s.settings m).discard_oldest (s.queues m).queue) [
  | none ↦ none
  | some (del, after_del) ↦ elim (move_after m del after_del s) [
    | none ↦ none
    | some s' ↦ some (notification_delete m del s')
  ]
]

unfoldable pub drop_loop : {V : Type 0} → ℕ → ℕ → Subscription V → Option (Subscription V)
drop_loop zero m s = none
drop_loop (suc fuel) m s = elim (ltb (s.settings m).max_queue_size (s.queues m).queue_size) [
  | false ↦ some s
  | true ↦ elim (drop_one m s) [ none ↦ none | some s' ↦ drop_loop fuel m s' ]
]

-- UA_STATUSCODE_INFOTYPE_DATAVALUE | UA_STATUSCODE_INFOBITS_OVERFLOW, and its complement.
abbrev pub overflow_bits : ℕ
overflow_bits = 0x480

abbrev pub no_overflow_bits : ℕ
no_overflow_bits = 0xfffffb7f

abbrev pub with_infobits : {V : Type 0} → ℕ → DataValue V → DataValue V
with_infobits max v =
    if ltb 1 max
    then record v { has_status = true; status = bit_or v.status overflow_bits }
    else record v { status = bit_and v.status no_overflow_bits }

-- A change of the value of one notification.
unfoldable pub mark :
    {V : Type 0}
    → (DataValue V → DataValue V)
    → ℕ
    → ℕ
    → List (Notification V)
    → List (Notification V)
mark f m i [] = []
mark f m i (n ∷ q) = if is_at m i n then record n { value = f n.value } ∷ q else n ∷ mark f m i q

-- TAILQ_FIRST, TAILQ_LAST
unfoldable pub last : List ℕ → Option ℕ
last [] = none
last (i ∷ []) = some i
last (i ∷ (j ∷ q)) = last (j ∷ q)

unfoldable pub carrier : Bool → List ℕ → Option ℕ
carrier true [] = none
carrier true (i ∷ q) = some i
carrier false q = last q

unfoldable pub set_infobits : {V : Type 0} → ℕ → Subscription V → Option (Subscription V)
set_infobits m s =
    if not (is_type (s.settings m).item_type change_notify)
    then some s
    else elim (carrier (s.settings m).discard_oldest (s.queues m).queue) [
      | none ↦ none
      | some i ↦ some (record s {
        notification_queue =
            mark (with_infobits (s.settings m).max_queue_size) m i s.notification_queue;
      })
    ]

-- MonitoredItem_ensureQueueSpace
unfoldable pub ensure_queue_space : {V : Type 0} → ℕ → Subscription V → Option (Subscription V)
ensure_queue_space m s =
    if leb (s.queues m).queue_size (s.settings m).max_queue_size
    then some s
    else elim (drop_loop (suc (s.queues m).queue_size) m s) [
      | none ↦ none
      | some s' ↦ set_infobits m s'
    ]

-- The part of UA_Notification_enqueue that puts the notification into both queues.
unfoldable pub append_notification : {V : Type 0} → Notification V → Subscription V → Subscription V
append_notification n s0 =
    let s = recount increment (s0.settings n.mon).item_type s0 in
    record s {
      queues =
          set_queue n.mon
            (record {
              queue = (s0.queues n.mon).queue ++ n.number ∷ [];
              queue_size = increment (s0.queues n.mon).queue_size;
            })
            s0.queues;
      notification_queue = s0.notification_queue ++ n ∷ [];
      notification_queue_size = increment s0.notification_queue_size;
    }

-- UA_Notification_enqueue
unfoldable pub enqueue : {V : Type 0} → Notification V → Subscription V → Option (Subscription V)
enqueue n s = ensure_queue_space n.mon (append_notification n s)
