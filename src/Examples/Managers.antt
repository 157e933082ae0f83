-- ===== src/Examples/Managers.antt =====
-- Examples for src/server/ua_securechannel_manager.c.
use opcua_tsn_lo_i.Base.{◌≡◌, refl, true, false, [], ◌∷◌, arith, map}
use opcua_tsn_lo_i.SecureChannel.{
  good, failed, fresh, invalid_mode, no_security, SecureChannel, no_token,
}
use opcua_tsn_lo_i.SecureChannel.Manager.{
  ChannelEntry, Manager, Creation, OpenRequest, create, close, cleanup_timed_out, open_channel,
}
use opcua_tsn_lo_i.SecureChannel.Manager.Capacity.{IsBounded, create-IsBounded}
use opcua_tsn_lo_i.SecureChannel.Manager.Lifetime.{OpenedAfter, cleanup_timed_out-keeps_opened}

abbrev fresh_channel : SecureChannel
fresh_channel = record {
  state = fresh;
  security_mode = invalid_mode;
  security_token = record { channel_id = 0; token_id = 1; created_at = 900; revised_lifetime = 60 };
  next_security_token = no_token;
  receive_sequence_number = 0;
  send_sequence_number = 0;
  chunks = [];
}

-- A server that has one channel and may not have more.
abbrev full : Manager
full = record {
  channels =
      record { address = 1; channel = fresh_channel; connected = true; has_session = false } ∷ [];
  current_channel_count = 1;
  last_channel_id = 1;
  last_token_id = 2;
}

abbrev creation : Creation
creation = record { memory = true; address = 2; channel_init = good; now = 950 }

create-IsBounded_example :
    IsBounded 1 (create 1 600 (λ i. good) creation false full).0
    × IsBounded 1 (close (λ i. failed 1) 0 full).0
    × IsBounded 1 (cleanup_timed_out (λ i. failed 1) (λ i. good) 5000000 full)
create-IsBounded_example =
    create-IsBounded 1 600 (omega arith) full (λ i. good) (λ i. failed 1) (λ i. good) creation false
      5000000 0 (λ i. refl) (record { counted = refl; within = omega arith })

-- A lifetime of a millisecond, from a wall clock far ahead of the monotonic clock.
abbrev request : OpenRequest
request = record {
  security_mode = no_security;
  requested_lifetime = 1;
  keys = good;
  response = good;
  now = 9000000000;
  now_monotonic = 1000;
}

abbrev opened_entry : ChannelEntry
opened_entry = record {
  address = 1;
  channel = (open_channel 600 false request fresh_channel full).0;
  connected = true;
  has_session = false;
}

abbrev serving : Manager
serving = record full { channels = opened_entry ∷ [] }

entry-OpenedAfter : OpenedAfter 600 8000000000 opened_entry
unfolding open_channel
entry-OpenedAfter = record {
  without_security = false;
  request = request;
  channel = fresh_channel;
  manager = full;
  opening = refl;
  result = refl;
  clock = omega arith;
  connection = refl;
}

cleanup_timed_out-keeps_opened_example :
    map
      (λ (e : ChannelEntry). e.address)
      (cleanup_timed_out (λ i. good) (λ i. good) 8000000000 serving).channels
    ≡ map (λ (e : ChannelEntry). e.address) serving.channels
cleanup_timed_out-keeps_opened_example =
    cleanup_timed_out-keeps_opened 600 8000000000 (λ i. good) (λ i. good) serving
      (entry-OpenedAfter, tt)
