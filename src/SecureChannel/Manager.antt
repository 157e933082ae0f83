-- ===== src/SecureChannel/Manager.antt =====
-- src/server/ua_securechannel_manager.c: the channels of a server. Times are counted from
-- INT64_MIN, in units of 100 nanoseconds.
pub mod Capacity
pub mod Lifetime
use opcua_tsn_lo_i.Base.{
  ℕ, ◌+◌, ◌-◌, ◌*◌, ◌%◌, ◌^◌, Bool, true, false, not, ◌&&◌, ◌||◌, Option, none, some, List, [], ◌∷◌,
  ◌==◌, ltb, leb, if◌then◌else◌,
}
use opcua_tsn_lo_i.SecureChannel.{
  Result, good, bad_internal_error, bad_out_of_memory, bad_security_mode_rejected, is_good,
  or_result, ChannelState, fresh, opened, closed, is_fresh, SecurityMode, no_security, invalid_mode,
  SecurityToken, no_token, SecureChannel, revolve_tokens,
}

-- A channel_list_entry: the channel, whether it has a connection and a session, and a number that
-- stands for its address.
pub record ChannelEntry : Type 0 where
  pub address : ℕ
  pub channel : SecureChannel
  pub connected : Bool
  pub has_session : Bool

-- UA_SecureChannelManager
pub record Manager : Type 0 where
  pub channels : List ChannelEntry
  pub current_channel_count : ℕ
  pub last_channel_id : ℕ
  pub last_token_id : ℕ

-- UA_SecureChannelManager_init
unfoldable pub init : Manager
init = record { channels = []; current_channel_count = 0; last_channel_id = 1; last_token_id = 1 }

-- `x++` and `--x` on a UA_UInt32.
abbrev pub one_more : ℕ → ℕ
one_more n = (n + 1) % 2 ^ 32

abbrev pub one_less : ℕ → ℕ
one_less n = (n + 2 ^ 32 - 1) % 2 ^ 32

-- LIST_REMOVE
unfoldable pub unlink : ℕ → List ChannelEntry → List ChannelEntry
unlink i [] = []
unlink i (e ∷ es) = if e.address == i then es else e ∷ unlink i es

-- removeSecureChannel. `delayed` is the answer of UA_Server_delayedCallback.
unfoldable pub remove_secure_channel : Result → ChannelEntry → Manager → Manager × Result
remove_secure_channel delayed e cm =
    if is_good delayed
    then (
      record cm {
        channels = unlink e.address cm.channels;
        current_channel_count = one_less cm.current_channel_count;
      },
      good,
    )
    else (cm, delayed)

-- UA_DATETIME_MSEC
abbrev pub datetime_msec : ℕ
datetime_msec = 10000

-- The test of UA_SecureChannelManager_cleanupTimedOut.
unfoldable pub has_timed_out : ℕ → ChannelEntry → Bool
has_timed_out now e =
    let token = e.channel.security_token in
    ltb (token.created_at + token.revised_lifetime * datetime_msec) now || not e.connected

-- What is left of the list and of the count, with the answers for each channel.
unfoldable pub cleanup_loop :
    (ℕ → Result) → (ℕ → Result) → ℕ → List ChannelEntry → ℕ → List ChannelEntry × ℕ
cleanup_loop delayed keys now [] n = ([], n)
cleanup_loop delayed keys now (e ∷ es) n =
    let gone = has_timed_out now e && is_good (delayed e.address) in
    let revolved =
      if not (has_timed_out now e) && ltb 0 e.channel.next_security_token.token_id
      then record e { channel = (revolve_tokens (keys e.address) e.channel).0 }
      else e in
    let rest = cleanup_loop delayed keys now es (if gone then one_less n else n) in
    if gone then rest else (revolved ∷ rest.0, rest.1)

-- UA_SecureChannelManager_cleanupTimedOut
unfoldable pub cleanup_timed_out : (ℕ → Result) → (ℕ → Result) → ℕ → Manager → Manager
cleanup_timed_out delayed keys now cm =
    let r = cleanup_loop delayed keys now cm.channels cm.current_channel_count in
    record cm { channels = r.0; current_channel_count = r.1 }

unfoldable pub first_without_session : List ChannelEntry → Option ChannelEntry
first_without_session [] = none
first_without_session (e ∷ es) = if e.has_session then first_without_session es else some e

-- purgeFirstChannelWithoutSession
unfoldable pub purge_first_channel_without_session : (ℕ → Result) → Manager → Manager × Bool
purge_first_channel_without_session delayed cm = elim (first_without_session cm.channels) [
  | none ↦ (cm, false)
  | some e ↦ ((remove_secure_channel (delayed e.address) e cm).0, true)
]

-- What the calls around a new channel answer: malloc, UA_SecureChannel_init and the wall clock.
pub record Creation : Type 0 where
  pub memory : Bool
  pub address : ℕ
  pub channel_init : Result
  pub now : ℕ

-- The channel that UA_SecureChannelManager_create puts in front.
unfoldable pub add_channel : ℕ → Creation → Manager → Manager × Result
add_channel max_lifetime given cm =
    let e : ChannelEntry = record {
      address = given.address;
      channel = record {
        state = fresh;
        security_mode = invalid_mode;
        security_token = record {
          channel_id = 0;
          token_id = cm.last_token_id;
          created_at = given.now;
          revised_lifetime = max_lifetime;
        };
        next_security_token = no_token;
        receive_sequence_number = 0;
        send_sequence_number = 0;
        chunks = [];
      };
      connected = true;
      has_session = false;
    } in
    if not given.memory
    then (cm, bad_out_of_memory)
    else if is_good given.channel_init
    then (
      record cm {
        channels = e ∷ cm.channels;
        current_channel_count = one_more cm.current_channel_count;
        last_token_id = one_more cm.last_token_id;
      },
      good,
    )
    else (cm, given.channel_init)

-- UA_SecureChannelManager_create, with the limits maxSecureChannels and maxSecurityTokenLifetime.
-- `attached` says whether the connection has a channel already.
unfoldable pub create : ℕ → ℕ → (ℕ → Result) → Creation → Bool → Manager → Manager × Result
create max max_lifetime delayed given attached cm =
    let purged = purge_first_channel_without_session delayed cm in
    if attached
    then (cm, bad_internal_error)
    else if ltb cm.current_channel_count max
    then add_channel max_lifetime given cm
    else if purged.1
    then add_channel max_lifetime given purged.0
    else (purged.0, bad_out_of_memory)

-- A lifetime within the limit, which 0 asks for.
unfoldable pub revise_lifetime : ℕ → ℕ → ℕ
revise_lifetime max requested =
    let revised = if ltb max requested then max else requested in
    if revised == 0 then max else revised

abbrev pub is_no_security : SecurityMode → Bool
is_no_security no_security = true
is_no_security _ = false

abbrev pub is_opened : ChannelState → Bool
is_opened opened = true
is_opened _ = false

-- What a request asks of a token, and what the calls of UA_SecureChannelManager_open answer: the
-- keys with the nonces, the copies into the response, the wall clock.
pub record OpenRequest : Type 0 where
  pub security_mode : SecurityMode
  pub requested_lifetime : ℕ
  pub keys : Result
  pub response : Result
  pub now : ℕ
  pub now_monotonic : ℕ

-- UA_SecureChannelManager_open, on a channel whose policy is that without security or not.
unfoldable pub open_channel :
    ℕ → Bool → OpenRequest → SecureChannel → Manager → SecureChannel × Manager × Result
open_channel max_lifetime without_security request c cm =
    let set = record c {
      security_mode = request.security_mode;
      security_token = record c.security_token {
        channel_id = cm.last_channel_id;
        created_at = request.now;
        revised_lifetime = revise_lifetime max_lifetime request.requested_lifetime;
      };
    } in
    let cm' = record cm { last_channel_id = one_more cm.last_channel_id } in
    if not (is_fresh c.state)
    then (c, cm, bad_internal_error)
    else if not (is_no_security request.security_mode) && without_security
    then (c, cm, bad_security_mode_rejected)
    else if not (is_good request.keys)
    then (set, cm', request.keys)
    else if not (is_good request.response)
    then (set, cm', request.response)
    else (record set { state = opened }, cm', good)

-- UA_SecureChannelManager_renew. `keys` is the answer for the nonces here.
unfoldable pub renew : ℕ → OpenRequest → SecureChannel → Manager → SecureChannel × Manager × Result
renew max_lifetime request c cm =
    let issued = ltb 0 c.next_security_token.token_id in
    let next = if issued then c.next_security_token else record {
      channel_id = c.security_token.channel_id;
      token_id = cm.last_token_id;
      created_at = request.now;
      revised_lifetime = revise_lifetime max_lifetime request.requested_lifetime;
    } in
    let cm' = if issued then cm else record cm { last_token_id = one_more cm.last_token_id } in
    let set = record c { next_security_token = next } in
    if not (is_opened c.state)
    then (c, cm, bad_internal_error)
    else if not (is_good request.keys)
    then (set, cm', request.keys)
    else if not (is_good request.response)
    then (set, cm', request.response)
    else (
      record c { next_security_token = record next { created_at = request.now_monotonic } },
      cm',
      good,
    )

-- UA_SecureChannelManager_get
unfoldable pub get_channel : ℕ → List ChannelEntry → Option ChannelEntry
get_channel i [] = none
get_channel i (e ∷ es) =
    if e.channel.security_token.channel_id == i then some e else get_channel i es

-- UA_SecureChannelManager_close
unfoldable pub close : (ℕ → Result) → ℕ → Manager → Manager × Result
close delayed i cm = elim (get_channel i cm.channels) [
  | none ↦ (cm, bad_internal_error)
  | some e ↦ remove_secure_channel (delayed e.address) e cm
]
