-- ===== src/Examples/Subscriptions.antt =====
-- Examples for src/server/ua_subscription.c and the services on subscriptions.
use opcua_tsn_lo_i.Base.{
  ℕ, ◌+◌, ◌-◌, ◌≤◌, ◌≡◌, refl, inl, inr, true, false, none, some, List, [], ◌∷◌, ◌++◌, arith, ◌==◌,
  ltb, if◌then◌else◌, length, Bool-cases, All,
}
use opcua_tsn_lo_i.Codec.DataValues.{DataValue}
use opcua_tsn_lo_i.Subscription.{
  change_notify, Notification, SubscriptionState, normal, late, Subscription, enqueue,
  notification_delete, remove, remove_number,
}
use opcua_tsn_lo_i.Subscription.Queues.{own, others_of, count, has, place}
use opcua_tsn_lo_i.Subscription.Queues.Coherence.{Coherent, Agrees}
use opcua_tsn_lo_i.Subscription.Queues.Coherence.Victims.{discard}
use opcua_tsn_lo_i.Subscription.Queues.Trim.{iterate}
use opcua_tsn_lo_i.Subscription.Queues.Enqueue.{IsFresh, enqueue-Coherent, enqueue-keeps}
use opcua_tsn_lo_i.Subscription.Publish.{
  PublishEntry, Server, publish, publish_one, publish_none, publish_some, publish_nothing, respond,
  prepare_notification_message, collect, clip, batch, available, more_notifications,
  answer_prepared, proceed, next_sequence_number, add_retransmission_message, remove_last,
}
use opcua_tsn_lo_i.Subscription.Publish.Requests.{AnswersInOrder, publish-AnswersInOrder}
use opcua_tsn_lo_i.Subscription.Publish.Collecting.{IsSound, payloads}
use opcua_tsn_lo_i.Subscription.Publish.Sending.Delivery.{
  brought, Numbered, IsLimited, Fits, publish-brought, publish-Numbered, publish-Fits,
}
use opcua_tsn_lo_i.Subscription.Services.{
  Session, Config, SubscriptionRequest, set_subscription_settings,
}
use opcua_tsn_lo_i.Subscription.Services.Limits.{
  create_many, IsRevised, create_many_unlimited, settings-IsRevised,
}

abbrev value : ℕ → DataValue ℕ
value n = record {
  has_value = true;
  has_status = false;
  has_source_timestamp = false;
  has_server_timestamp = false;
  has_source_picoseconds = false;
  has_server_picoseconds = false;
  value = n;
  status = 0;
  source_timestamp = 0;
  source_picoseconds = 0;
  server_timestamp = 0;
  server_picoseconds = 0;
}

abbrev notification : ℕ → ℕ → Notification ℕ
notification m i = record { number = i; mon = m; value = value i }

-- Item 1 has two notifications, which is as many as it may have, and item 2 has one.
abbrev sub : ℕ → SubscriptionState → Subscription ℕ
sub i state = record {
  subscription_id = i;
  life_time_count = 10;
  max_keep_alive_count = 3;
  publishing_interval = 100;
  notifications_per_publish = 2;
  publishing_enabled = true;
  priority = 0;
  state = state;
  sequence_number = 4;
  current_keep_alive_count = 0;
  current_lifetime_count = 0;
  publish_callback_is_registered = true;
  last_monitored_item_id = 2;
  monitored_items = 2 ∷ 1 ∷ [];
  monitored_items_size = 2;
  settings = λ m. record {
    client_handle = m + 40;
    item_type = change_notify;
    max_queue_size = 2;
    discard_oldest = true;
  };
  queues = λ m.
      if m == 1
      then record { queue = 1 ∷ 2 ∷ []; queue_size = 2 }
      else if m == 2
      then record { queue = 1 ∷ []; queue_size = 1 }
      else record { queue = []; queue_size = 0 };
  notification_queue = notification 1 1 ∷ notification 2 1 ∷ notification 1 2 ∷ [];
  notification_queue_size = 3;
  data_change_notifications = 3;
  event_notifications = 0;
  status_change_notifications = 0;
  ready_notifications = 3;
  retransmission_queue = [];
  retransmission_queue_size = 0;
}

sub-Agrees :
    (m i : ℕ) (state : SubscriptionState)
    → Agrees ((sub i state).queues m) (own m (sub i state).notification_queue)
unfolding own has
sub-Agrees m i state = elim (Bool-cases (m == 1)) [
  | inl e ↦ rw e (record { holds = ground arith; size = refl; distinct = (refl, (refl, tt)) })
  | inr e ↦ elim (Bool-cases (m == 2)) [
    | inl f ↦ rw (e, f) (record { holds = ground arith; size = refl; distinct = (refl, tt) })
    | inr f ↦ rw (e, f) (record { holds = ground arith; size = refl; distinct = tt })
  ]
]

sub-Coherent : (i : ℕ) (state : SubscriptionState) → Coherent (sub i state)
unfolding count
sub-Coherent i state = record {
  items = λ m. sub-Agrees m i state;
  total = refl;
  counts = λ t. ground arith;
  bounded = omega arith;
}

sub-IsSound : IsSound (sub 7 normal)
sub-IsSound = record { coherent = sub-Coherent 7 normal; changes = λ m. refl }

new-IsFresh : IsFresh (notification 1 3) (sub 7 normal)
unfolding own has count
new-IsFresh = record { new = refl; countable = omega arith; allowed = omega arith }

enqueue-Coherent_example :
    (s' : Subscription ℕ) × (enqueue (notification 1 3) (sub 7 normal) ≡ some s')
    × Coherent s'
    × ((s'.queues 1).queue_size ≤ 2)
    × (s'.settings ≡ (sub 7 normal).settings)
enqueue-Coherent_example =
    enqueue-Coherent (notification 1 3) (sub 7 normal) (sub-Coherent 7 normal) new-IsFresh

enqueue-keeps_example :
    (s' : Subscription ℕ) × (enqueue (notification 1 3) (sub 7 normal) ≡ some s')
    × ((s'.queues 1).queue ≡ iterate 1 (discard true) (1 ∷ 2 ∷ 3 ∷ []))
    × (others_of 1 s'.notification_queue ≡ others_of 1 (sub 7 normal).notification_queue)
    × ((j : ℕ)
        → own j s'.notification_queue
          ≡ (if j == 1 then (s'.queues 1).queue else own j (sub 7 normal).notification_queue))
    × (place 1 s'.notification_queue ≡ place 1 (sub 7 normal).notification_queue)
enqueue-keeps_example =
    enqueue-keeps (notification 1 3) (sub 7 normal) (sub-Coherent 7 normal) new-IsFresh

abbrev request : ℕ → PublishEntry
request i = record { request_id = i; request_handle = i + 100; results = [] }

abbrev requests : List PublishEntry
requests = request 1 ∷ request 2 ∷ request 3 ∷ []

abbrev server : Server
server = record {
  max_retransmission_queue_size = 5;
  channel = true;
  entry_memory = λ n. true;
  message_memory = λ n. true;
  now = λ n. 1000 - n;
}

publish-AnswersInOrder_example :
    (let r = publish server requests 3 (sub 7 normal) in
      AnswersInOrder requests r.sent r.response_queue
      × (r.num_publish_req ≡ length r.response_queue))
publish-AnswersInOrder_example = publish-AnswersInOrder server requests (sub 7 normal) (omega arith)

-- What is left of the subscription when it has been published.
left : Subscription ℕ
unfolding publish
left = elim (publish server requests 3 (sub 7 normal)).subscription [
  | some t ↦ t
  | none ↦ sub 7 normal
]

left_lem : (publish server requests 3 (sub 7 normal)).subscription ≡ some left
unfolding left publish publish_one publish_none publish_some publish_nothing respond
    prepare_notification_message collect notification_delete remove remove_number clip batch
    available more_notifications answer_prepared proceed next_sequence_number
    add_retransmission_message remove_last
left_lem = refl

publish-brought_example :
    brought (publish server requests 3 (sub 7 normal)).sent ++ payloads left
    ≡ payloads (sub 7 normal)
publish-brought_example = publish-brought server requests 3 (sub 7 normal) sub-IsSound left_lem

publish-Numbered_example :
    Numbered 4 (publish server requests 3 (sub 7 normal)).sent left.sequence_number
publish-Numbered_example =
    publish-Numbered server requests 3 (sub 7 normal) sub-IsSound left_lem (omega arith)

publish-Fits_example :
    All (Fits 5 2) (publish server requests 3 (sub 7 normal)).sent × IsLimited 5 left
publish-Fits_example =
    publish-Fits server requests 3 (sub 7 normal) sub-IsSound left_lem (omega arith) (omega arith)
      (record { size = refl; within = omega arith })

abbrev config : Config
config = record {
  min_keep_alive_count = 1;
  max_keep_alive_count = 100;
  min_life_time_count = 3;
  max_life_time_count = 15000;
  max_notifications_per_publish = 1000;
  max_subscriptions_per_session = 2;
  max_publish_req_per_session = 10;
  interval_min = 100;
  interval_max = 3600000;
  double_less = ltb;
  double_equal = λ m n. m == n;
  callback_removed = true;
  delayed_free = true;
  callback_added = true;
}

abbrev wanted : SubscriptionRequest
wanted = record {
  requested_publishing_interval = 500;
  requested_lifetime_count = 0;
  requested_max_keep_alive_count = 200;
  max_notifications_per_publish = 0;
  publishing_enabled = true;
  priority = 1;
}

settings-IsRevised_example :
    IsRevised config (set_subscription_settings config wanted (sub 7 normal))
settings-IsRevised_example =
    settings-IsRevised config wanted (sub 7 normal) (omega arith) (omega arith)
      (record { min = refl; max = refl; ordered = refl; min_number = refl; max_number = refl })
      (omega arith) (omega arith)

-- Subscriptions 9 and 7 are late, and 9 was served last.
abbrev session : Session ℕ
session = record {
  subscriptions = sub 9 late ∷ sub 8 normal ∷ sub 7 late ∷ [];
  num_subscriptions = 3;
  last_subscription_id = 9;
  last_seen_subscription_id = 9;
  response_queue = [];
  num_publish_req = 0;
}

-- The server allows for two subscriptions, and the client gets fifty more.
create_many_unlimited_example : length (create_many config wanted 50 session).subscriptions ≡ 3 + 50
create_many_unlimited_example = create_many_unlimited config wanted 50 session (omega arith)
