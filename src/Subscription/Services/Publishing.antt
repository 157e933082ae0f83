-- ===== src/Subscription/Services/Publishing.antt =====
-- Service_Publish and Service_Republish of src/server/ua_services_subscription.c.
pub mod Ranks
pub mod Turns
pub mod Alike
pub mod Waiting
pub mod Kept
pub mod Standing
pub mod Queued
pub mod Served
use opcua_tsn_lo_i.Base.{
  ℕ, zero, suc, ◌+◌, ◌<◌, Bool, true, false, not, ◌&&◌, Option, none, some, List, [], ◌∷◌, ◌++◌,
  ◌==◌, ltb, leb, if◌then◌else◌, length,
}
use opcua_tsn_lo_i.Subscription.{
  increment, decrement, SubscriptionState, normal, late, keep_alive, NotificationMessage,
  Subscription,
}
use opcua_tsn_lo_i.Subscription.Publish.{
  ServiceResult, good, bad_out_of_memory, bad_internal_error, bad_no_subscription,
  bad_subscription_id_invalid, bad_sequence_number_unknown, bad_too_many_publish_requests,
  bad_message_not_available, PublishEntry, PublishResponse, Server, Published, publish,
}
use opcua_tsn_lo_i.Subscription.Services.{
  Config, Session, get_subscription_by_id, set_subscription, delete_subscription,
}

unfoldable pub remove_message :
    {V : Type 0} → ℕ → List (NotificationMessage V) → List (NotificationMessage V)
remove_message n [] = []
remove_message n (m ∷ q) = if m.sequence_number == n then q else m ∷ remove_message n q

unfoldable pub find_message :
    {V : Type 0} → ℕ → List (NotificationMessage V) → Option (NotificationMessage V)
find_message n [] = none
find_message n (m ∷ q) = if m.sequence_number == n then some m else find_message n q

-- UA_Subscription_removeRetransmissionMessage
unfoldable pub remove_retransmission_message :
    {V : Type 0} → ℕ → Subscription V → Subscription V × ServiceResult
remove_retransmission_message n s = elim (find_message n s.retransmission_queue) [
  | none ↦ (s, bad_sequence_number_unknown)
  | some m ↦ (
    record s {
      retransmission_queue = remove_message n s.retransmission_queue;
      retransmission_queue_size = decrement s.retransmission_queue_size;
    },
    good,
  )
]

pub record PublishRequest : Type 0 where
  pub request_handle : ℕ
  pub acknowledgements : List (ℕ × ℕ)

-- A round of the loop over the acknowledgements, each a subscription and a sequence number.
unfoldable pub acknowledge :
    {V : Type 0} → ℕ → ℕ → List (Subscription V) → List (Subscription V) × ServiceResult
acknowledge i n subs = elim (get_subscription_by_id i subs) [
  | none ↦ (subs, bad_subscription_id_invalid)
  | some sub ↦ let r = remove_retransmission_message n sub in (set_subscription i r.0 subs, r.1)
]

unfoldable pub acknowledge_all :
    {V : Type 0} → List (ℕ × ℕ) → List (Subscription V) → List (Subscription V) × List ServiceResult
acknowledge_all [] subs = (subs, [])
acknowledge_all ((i, n) ∷ acks) subs =
    let r = acknowledge i n subs in let rest = acknowledge_all acks r.0 in (rest.0, r.1 ∷ rest.1)

-- A response without notifications.
abbrev pub plain_response :
    {V : Type 0} → ℕ → ℕ → ℕ → ServiceResult → List ServiceResult → PublishResponse V
plain_response request_id request_handle now result results = record {
  request_id = request_id;
  request_handle = request_handle;
  service_result = result;
  results = results;
  subscription_id = 0;
  available_sequence_numbers = [];
  more_notifications = false;
  message = record { sequence_number = 0; publish_time = now; items = [] };
}

-- subscriptionSendError
unfoldable pub subscription_send_error :
    {V : Type 0} → ℕ → ℕ → ServiceResult → ℕ → PublishResponse V
subscription_send_error request_handle request_id error now =
    plain_response request_id request_handle now error []

-- UA_Subscription_reachedPublishReqLimit: the oldest request is answered, if there is one.
unfoldable pub reached_publish_req_limit :
    {V : Type 0} → ℕ → Session V → Option (PublishResponse V × Session V)
reached_publish_req_limit now ses = elim ses.response_queue [
  | [] ↦ none
  | pre ∷ rest ↦ some (
    plain_response pre.request_id pre.request_handle now bad_too_many_publish_requests pre.results,
    record ses { response_queue = rest; num_publish_req = decrement ses.num_publish_req },
  )
]

abbrev pub is_late : {V : Type 0} → Subscription V → Bool
is_late s = elim s.state [ late ↦ true | _ ↦ false ]

-- What stands behind the subscription with that identifier.
unfoldable pub list_after : {V : Type 0} → ℕ → List (Subscription V) → List (Subscription V)
list_after i [] = []
list_after i (s ∷ ss) = if s.subscription_id == i then ss else list_after i ss

unfoldable pub first_late : {V : Type 0} → List (Subscription V) → Option (Subscription V)
first_late [] = none
first_late (s ∷ ss) = if is_late s then some s else first_late ss

-- The search for a late subscription, behind the last one that was seen and then from the
-- beginning.
unfoldable pub immediate : {V : Type 0} → Session V → Option (Subscription V)
immediate ses =
    let start =
      if ltb 0 ses.last_seen_subscription_id
      then list_after ses.last_seen_subscription_id ses.subscriptions
      else [] in
    elim start [
      | [] ↦ first_late ses.subscriptions
      | s ∷ ss ↦ elim (first_late (s ∷ ss)) [
        | some found ↦ some found
        | none ↦ first_late ses.subscriptions
      ]
    ]

-- The subscription after it has been published; it may be deleted.
unfoldable pub publish_on :
    {V : Type 0}
    → Config
    → Server
    → Subscription V
    → Session V
    → List (PublishResponse V) × Session V
publish_on config server sub ses =
    let p = publish server ses.response_queue ses.num_publish_req sub in
    let ses' = record ses {
      response_queue = p.response_queue;
      num_publish_req = p.num_publish_req;
    } in
    (
      p.sent,
      elim p.subscription [
        | some sub' ↦ record ses' {
          subscriptions = set_subscription sub.subscription_id sub' ses.subscriptions;
        }
        | none ↦
            (delete_subscription config.callback_removed config.delayed_free sub.subscription_id
              ses').0
      ],
    )

-- Service_Publish once the acknowledgements are done.
unfoldable pub queue_and_publish :
    {V : Type 0} → Config → Server → PublishEntry → Session V → List (PublishResponse V) × Session V
queue_and_publish config server entry ses0 =
    let ses = record ses0 {
      response_queue = ses0.response_queue ++ entry ∷ [];
      num_publish_req = increment ses0.num_publish_req;
    } in
    elim (immediate ses) [
      | none ↦ ([], record ses { last_seen_subscription_id = 0 })
      | some sub ↦
          publish_on config server sub
            (record ses { last_seen_subscription_id = sub.subscription_id })
    ]

-- Where the request is taken: the memory for its entry and for its results, and then its
-- acknowledgements.
unfoldable pub take_request :
    {V : Type 0}
    → Config
    → Bool
    → Bool
    → Server
    → ℕ
    → PublishRequest
    → Session V
    → List (PublishResponse V) × Session V
take_request config entry_memory results_memory server request_id request ses =
    let now = server.now (length ses.response_queue) in
    let no_results = ltb 0 (length request.acknowledgements) && not results_memory in
    if not entry_memory
    then (subscription_send_error request_id request.request_handle bad_out_of_memory now ∷ [], ses)
    else if no_results
    then (subscription_send_error request_id request.request_handle bad_out_of_memory now ∷ [], ses)
    else let r = acknowledge_all request.acknowledgements ses.subscriptions in
      queue_and_publish config server
        (record { request_id = request_id; request_handle = request.request_handle; results = r.1 })
        (record ses { subscriptions = r.0 })

-- Service_Publish
unfoldable pub service_publish :
    {V : Type 0}
    → Config
    → Bool
    → Bool
    → Server
    → ℕ
    → PublishRequest
    → Session V
    → List (PublishResponse V) × Session V
service_publish config entry_memory results_memory server request_id request ses =
    let now = server.now (length ses.response_queue) in
    let full =
      not (config.max_publish_req_per_session == 0)
      && leb config.max_publish_req_per_session ses.num_publish_req in
    elim ses.subscriptions [
      | [] ↦ (
        subscription_send_error request.request_handle request_id bad_no_subscription now ∷ [],
        ses,
      )
      | s ∷ ss ↦
          if not full
          then take_request config entry_memory results_memory server request_id request ses
          else elim (reached_publish_req_limit now ses) [
            | none ↦ (
              subscription_send_error request_id request.request_handle bad_internal_error now ∷ [],
              ses,
            )
            | some (response, ses') ↦
                let r =
                  take_request config entry_memory results_memory server request_id request ses' in
                (response ∷ r.0, r.1)
          ]
    ]

-- Service_Republish, where there is memory for the copy of the message.
unfoldable pub service_republish :
    {V : Type 0} → ℕ → ℕ → Session V → Session V × ServiceResult × Option (NotificationMessage V)
service_republish i n ses = elim (get_subscription_by_id i ses.subscriptions) [
  | none ↦ (ses, bad_subscription_id_invalid, none)
  | some sub ↦
      let ses' = record ses {
        subscriptions =
            set_subscription i (record sub { current_lifetime_count = 0 }) ses.subscriptions;
      } in
      elim (find_message n sub.retransmission_queue) [
        | none ↦ (ses', bad_message_not_available, none)
        | some m ↦ (ses', good, some m)
      ]
]
