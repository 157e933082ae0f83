-- ===== src/Subscription/Services.antt =====
-- Sessions and their subscriptions, of src/server/ua_session.c, and the services on subscriptions
-- of src/server/ua_services_subscription.c.
pub mod Limits
pub mod Publishing
use opcua_tsn_lo_i.Base.{
  ℕ, zero, suc, ◌+◌, ◌*◌, ◌-◌, ◌%◌, ◌^◌, Bool, true, false, not, ◌&&◌, ◌||◌, Option, none, some,
  List, [], ◌∷◌, ◌++◌, map, ◌==◌, ltb, leb, if◌then◌else◌, length,
}
use opcua_tsn_lo_i.Subscription.{
  change_notify, increment, decrement, Settings, ItemQueue, SubscriptionState, normal, late,
  keep_alive, NotificationMessage, Subscription, notification_delete, set_queue,
}
use opcua_tsn_lo_i.Subscription.Publish.{
  ServiceResult, good, bad_out_of_memory, bad_internal_error, bad_no_subscription,
  bad_subscription_id_invalid, bad_sequence_number_unknown, bad_too_many_publish_requests,
  bad_too_many_subscriptions, bad_message_not_available, PublishEntry, PublishResponse, Server,
  publish,
}

-- The parts of a UA_Session that belong to subscriptions. The list has the newest one first.
pub record Session (V : Type 0) : Type 0 where
  pub subscriptions : List (Subscription V)
  pub num_subscriptions : ℕ
  pub last_subscription_id : ℕ
  pub last_seen_subscription_id : ℕ
  pub response_queue : List PublishEntry
  pub num_publish_req : ℕ

-- UA_Session_getSubscriptionById
unfoldable pub get_subscription_by_id :
    {V : Type 0} → ℕ → List (Subscription V) → Option (Subscription V)
get_subscription_by_id i [] = none
get_subscription_by_id i (s ∷ ss) =
    if s.subscription_id == i then some s else get_subscription_by_id i ss

-- A change of the subscription that a pointer names.
unfoldable pub set_subscription :
    {V : Type 0} → ℕ → Subscription V → List (Subscription V) → List (Subscription V)
set_subscription i t [] = []
set_subscription i t (s ∷ ss) =
    if s.subscription_id == i then t ∷ ss else s ∷ set_subscription i t ss

-- LIST_REMOVE
unfoldable pub unlist : {V : Type 0} → ℕ → List (Subscription V) → List (Subscription V)
unlist i [] = []
unlist i (s ∷ ss) = if s.subscription_id == i then ss else s ∷ unlist i ss

-- UA_Session_addSubscription
unfoldable pub add_subscription : {V : Type 0} → Session V → Subscription V → Session V
add_subscription ses sub =
    let i = increment ses.last_subscription_id in
    record ses {
      last_subscription_id = i;
      subscriptions = record sub { subscription_id = i } ∷ ses.subscriptions;
      num_subscriptions = increment ses.num_subscriptions;
    }

-- The loop of UA_MonitoredItem_delete over the queue of an item.
unfoldable pub delete_queued : {V : Type 0} → ℕ → List ℕ → Subscription V → Subscription V
delete_queued m [] s = s
delete_queued m (i ∷ q) s = delete_queued m q (notification_delete m i s)

-- The notifications that UA_MonitoredItem_delete drops.
unfoldable pub monitored_item_delete : {V : Type 0} → ℕ → Subscription V → Subscription V
monitored_item_delete m s = delete_queued m (s.queues m).queue s

unfoldable pub delete_items : {V : Type 0} → List ℕ → Subscription V → Subscription V
delete_items [] s = s
delete_items (m ∷ ms) s = delete_items ms (monitored_item_delete m s)

-- UA_Subscription_deleteMembers. `removed` says whether the publish callback could be removed.
unfoldable pub delete_members : {V : Type 0} → Bool → Subscription V → Subscription V
delete_members removed s0 =
    let s = record s0 {
      publish_callback_is_registered = s0.publish_callback_is_registered && not removed;
    } in
    record (delete_items s.monitored_items s) {
      monitored_items = [];
      monitored_items_size = 0;
      retransmission_queue = [];
      retransmission_queue_size = 0;
    }

-- UA_Session_deleteSubscription. `memory` says whether the memory could be put up for freeing.
unfoldable pub delete_subscription :
    {V : Type 0} → Bool → Bool → ℕ → Session V → Session V × ServiceResult
delete_subscription removed memory i ses = elim (get_subscription_by_id i ses.subscriptions) [
  | none ↦ (ses, bad_subscription_id_invalid)
  | some sub ↦
      let ses' = record ses {
        subscriptions = set_subscription i (delete_members removed sub) ses.subscriptions;
      } in
      if memory
      then (
        record ses' {
          subscriptions = unlist i ses'.subscriptions;
          num_subscriptions = decrement ses'.num_subscriptions;
        },
        good,
      )
      else (ses', bad_out_of_memory)
]

-- UA_Subscription_new
unfoldable pub subscription_new : {V : Type 0} → ℕ → Subscription V
subscription_new i = record {
  subscription_id = i;
  life_time_count = 0;
  max_keep_alive_count = 0;
  publishing_interval = 0;
  notifications_per_publish = 0;
  publishing_enabled = false;
  priority = 0;
  state = normal;
  sequence_number = 0;
  current_keep_alive_count = 0;
  current_lifetime_count = 0;
  publish_callback_is_registered = false;
  last_monitored_item_id = 0;
  monitored_items = [];
  monitored_items_size = 0;
  settings = λ m. record {
    client_handle = 0;
    item_type = change_notify;
    max_queue_size = 0;
    discard_oldest = false;
  };
  queues = λ m. record { queue = []; queue_size = 0 };
  notification_queue = [];
  notification_queue_size = 0;
  data_change_notifications = 0;
  event_notifications = 0;
  status_change_notifications = 0;
  ready_notifications = 0;
  retransmission_queue = [];
  retransmission_queue_size = 0;
}

-- The limits of the server. The order and the equality of Doubles are parameters, as the publishing
-- interval is a Double (a number stands for its bits), and so is whether the timer takes a callback or gives it back, and whether memory can
-- be put up for freeing.
pub record Config : Type 0 where
  pub min_keep_alive_count : ℕ
  pub max_keep_alive_count : ℕ
  pub min_life_time_count : ℕ
  pub max_life_time_count : ℕ
  pub max_notifications_per_publish : ℕ
  pub max_subscriptions_per_session : ℕ
  pub max_publish_req_per_session : ℕ
  pub interval_min : ℕ
  pub interval_max : ℕ
  pub double_less : ℕ → ℕ → Bool
  pub double_equal : ℕ → ℕ → Bool
  pub callback_removed : Bool
  pub delayed_free : Bool
  pub callback_added : Bool

pub record SubscriptionRequest : Type 0 where
  pub requested_publishing_interval : ℕ
  pub requested_lifetime_count : ℕ
  pub requested_max_keep_alive_count : ℕ
  pub max_notifications_per_publish : ℕ
  pub publishing_enabled : Bool
  pub priority : ℕ

-- UA_BOUNDEDVALUE_SETWBOUNDS
unfoldable pub bounded_value : ℕ → ℕ → ℕ → ℕ
bounded_value min max v = if ltb max v then max else if ltb v min then min else v

-- The publishing interval: UA_BOUNDEDVALUE_SETWBOUNDS on Doubles, and the check for NaN.
unfoldable pub interval_within : Config → ℕ → ℕ
interval_within config v =
    let bounded =
      if config.double_less config.interval_max v
      then config.interval_max
      else if config.double_less v config.interval_min
      then config.interval_min
      else v in
    if not (config.double_equal v v) then config.interval_min else bounded

-- setSubscriptionSettings
unfoldable pub set_subscription_settings :
    {V : Type 0} → Config → SubscriptionRequest → Subscription V → Subscription V
set_subscription_settings config request s0 =
    let registered = s0.publish_callback_is_registered && not config.callback_removed in
    let keep =
      bounded_value config.min_keep_alive_count config.max_keep_alive_count
        request.requested_max_keep_alive_count in
    let life =
      bounded_value config.min_life_time_count config.max_life_time_count
        request.requested_lifetime_count in
    let thrice = (3 * keep) % 2 ^ 32 in
    let per_publish = request.max_notifications_per_publish in
    record s0 {
      publishing_interval = interval_within config request.requested_publishing_interval;
      max_keep_alive_count = keep;
      life_time_count = if ltb life thrice then thrice else life;
      notifications_per_publish =
          if per_publish == 0 || ltb config.max_notifications_per_publish per_publish
          then config.max_notifications_per_publish
          else per_publish;
      priority = request.priority;
      publish_callback_is_registered = registered || config.callback_added;
    }

-- Service_CreateSubscription. `memory` says whether malloc succeeds.
unfoldable pub service_create_subscription :
    {V : Type 0} → Config → Bool → SubscriptionRequest → Session V → Session V × ServiceResult
service_create_subscription config memory request ses =
    if not (config.max_subscriptions_per_session == 0)
      && leb config.max_subscriptions_per_session ses.num_publish_req
    then (ses, bad_too_many_subscriptions)
    else if not memory
    then (ses, bad_out_of_memory)
    else let sub =
        set_subscription_settings config request
          (record (subscription_new 0) { publishing_enabled = request.publishing_enabled }) in
      (
        add_subscription ses (record sub { current_keep_alive_count = sub.max_keep_alive_count }),
        good,
      )

-- Service_ModifySubscription
unfoldable pub service_modify_subscription :
    {V : Type 0} → Config → SubscriptionRequest → ℕ → Session V → Session V × ServiceResult
service_modify_subscription config request i ses =
    elim (get_subscription_by_id i ses.subscriptions) [
      | none ↦ (ses, bad_subscription_id_invalid)
      | some sub ↦ (
        record ses {
          subscriptions =
              set_subscription i
                (record (set_subscription_settings config request sub) {
                  current_lifetime_count = 0;
                })
                ses.subscriptions;
        },
        good,
      )
    ]

-- Operation_SetPublishingMode
unfoldable pub set_publishing_mode : {V : Type 0} → Bool → ℕ → Session V → Session V × ServiceResult
set_publishing_mode enabled i ses = elim (get_subscription_by_id i ses.subscriptions) [
  | none ↦ (ses, bad_subscription_id_invalid)
  | some sub ↦ (
    record ses {
      subscriptions =
          set_subscription i
            (record sub { current_lifetime_count = 0; publishing_enabled = enabled })
            ses.subscriptions;
    },
    good,
  )
]
