-- ===== src/Examples/Parts.antt =====
-- Examples for the parts of a network message, of src/pubsub/ua_pubsub_networkmessage.c.
use opcua_tsn_lo_i.Base.{ℕ, refl, true, false, [], ◌∷◌, arith, ◌%◌, none, some, ◌≡◌, ◌++◌}
use opcua_tsn_lo_i.Codec.Output.{Codes, output}
use opcua_tsn_lo_i.PubSub.DataSetHeader.{data_set_header_calc_size, empty_header, flags2_enabled}
use opcua_tsn_lo_i.PubSub.DataSetHeader.RoundTrip.{IsHeader}
use opcua_tsn_lo_i.PubSub.DataSetMessage.{DataSetMessage, data_set_message_calc_size}
use opcua_tsn_lo_i.PubSub.DataSetMessage.RoundTrip.{data_set_message-Codes, alive}
use opcua_tsn_lo_i.PubSub.GroupHeader.{
  GroupHeader, group_header_encode, group_header_decode, group_header_calc_size, group_header-Codes,
}
use opcua_tsn_lo_i.PubSub.SecurityHeader.{
  SecurityHeader, security_header_encode, security_header_decode, security_header_calc_size,
  security_header-Codes,
}
use opcua_tsn_lo_i.PubSub.Footer.{
  footer_encode, footer_decode, footer_bytes, footer-Codes, footer_size_overflows,
}
use opcua_tsn_lo_i.Codec.{bad_response_too_large, bad_decoding_error, Ctx, is_good}
use opcua_tsn_lo_i.PubSub.PublisherId.{
  PublisherId, uint16_id, publisher_id_type, publisher_id_encode, publisher_id_decode,
  publisher_id_calc_size, publisher_id-Codes,
}
use opcua_tsn_lo_i.PubSub.NetworkMessage.{
  NetworkMessage, flags_encode, flags_calc_size, network_message_encode,
}
use opcua_tsn_lo_i.PubSub.NetworkMessage.Decoding.{empty_message, flags_decode}
use opcua_tsn_lo_i.PubSub.NetworkMessage.Decoding.Flags.{IsFlags, flags_of, flags-Codes}
use opcua_tsn_lo_i.PubSub.NetworkMessage.LostTimestamp.{IsTimestamped, timestamp_lost}
use opcua_tsn_lo_i.Examples.Codings.{bytes}

abbrev group : GroupHeader
group = record {
  writer_group_id_enabled = true;
  group_version_enabled = false;
  message_number_enabled = false;
  sequence_number_enabled = true;
  writer_group_id = 100;
  group_version = 0;
  message_number = 0;
  sequence_number = 65535;
}

group_header-Codes_example :
    Codes (group_header_encode group) group_header_decode group (group_header_calc_size group)
group_header-Codes_example = group_header-Codes group (record {
  writer_group_id_fits = omega arith;
  group_version_fits = omega arith;
  message_number_fits = omega arith;
  sequence_number_fits = omega arith;
  no_writer_group_id = λ h. cc;
  no_group_version = λ h. refl;
  no_message_number = λ h. refl;
  no_sequence_number = λ h. cc;
})

abbrev security : SecurityHeader
security = record {
  message_signed = true;
  message_encrypted = false;
  footer_enabled = true;
  force_key_reset = false;
  security_token_id = 70000;
  nonce_length = 2;
  message_nonce = some (8 ∷ 9 ∷ []);
  footer_size = 12;
}

security_header-Codes_example :
    Codes
      (security_header_encode security)
      security_header_decode
      security
      (security_header_calc_size security)
security_header-Codes_example = security_header-Codes security (record {
  token_fits = omega arith;
  footer_size_fits = omega arith;
  nonce_whole = refl;
  no_nonce = λ h. cc;
  no_footer_size = λ h. cc;
})

abbrev footer : ℕ → ℕ
footer i = i % 256

footer-Codes_example : Codes (footer_encode footer 3) (footer_decode 3) (footer_bytes footer 0 3) 3
footer-Codes_example = footer-Codes footer 3 (omega arith)

abbrev small_buffer : Ctx
small_buffer = record { buffer = []; room = 2; sent = []; callback = none }

footer_size_overflows_example :
    ((footer_encode footer 300 small_buffer).0 ≡ bad_response_too_large)
    × ((footer_decode 300 (1 ∷ 2 ∷ [])).0 ≡ bad_decoding_error)
footer_size_overflows_example =
    footer_size_overflows footer 300 small_buffer (1 ∷ 2 ∷ []) (omega arith)

abbrev publisher : PublisherId
publisher = uint16_id 2234

publisher_id-Codes_example :
    Codes
      (publisher_id_encode publisher)
      (publisher_id_decode (publisher_id_type publisher))
      publisher
      (publisher_id_calc_size publisher)
publisher_id-Codes_example = publisher_id-Codes publisher (omega arith)

abbrev notification : NetworkMessage ℕ
notification = record (empty_message {V = ℕ}) {
  version = 1;
  publisher_id_enabled = true;
  payload_header_enabled = true;
  publisher_id = publisher;
  timestamp_enabled = true;
}

-- The message that keeps a connection alive, in a network message with a timestamp.
abbrev keep_alive_message : DataSetMessage ℕ
keep_alive_message = record {
  header = record empty_header { valid = true; message_type = 3 };
  key_frame = [];
  delta_frame = [];
}

keep_alive-IsHeader : IsHeader keep_alive_message.header
keep_alive-IsHeader = record {
  field_encoding_fits = omega arith;
  message_type_fits = omega arith;
  sequence_nr_fits = omega arith;
  timestamp_fits = omega arith;
  picoseconds_fits = omega arith;
  status_fits = omega arith;
  major_version_fits = omega arith;
  minor_version_fits = omega arith;
  no_sequence_nr = λ h. refl;
  no_timestamp = λ h. refl;
  no_picoseconds = λ h. refl;
  no_status = λ h. refl;
  no_major_version = λ h. refl;
  no_minor_version = λ h. refl;
}

abbrev heartbeat : NetworkMessage ℕ
heartbeat = record (empty_message {V = ℕ}) {
  version = 1;
  timestamp_enabled = true;
  timestamp = 1000000;
  data_set_messages = keep_alive_message ∷ [];
}

heartbeat-IsTimestamped : IsTimestamped heartbeat keep_alive_message
unfolding publisher_id_type
heartbeat-IsTimestamped = record {
  flags_fit = record {
    version_fits = omega arith;
    id_type_fits = omega arith;
    message_type_fits = omega arith;
  };
  timestamped = refl;
  no_publisher_id = refl;
  no_class_id = refl;
  no_group_header = refl;
  no_payload_header = refl;
  no_picoseconds = refl;
  no_promoted_fields = refl;
  no_chunk = refl;
  no_security = refl;
  dataset = refl;
  one_message = refl;
}

abbrev six_bytes : Ctx
six_bytes = record { buffer = []; room = 6; sent = []; callback = none }

timestamp_lost_example :
    let r = network_message_encode bytes heartbeat six_bytes in
    (is_good r.0 ≡ true)
    × (output r.1
        ≡ (output six_bytes ++ (flags-Codes heartbeat heartbeat-IsTimestamped.flags_fit).bytes)
          ++ (data_set_message-Codes bytes keep_alive_message keep_alive-IsHeader
              (alive refl refl refl)).bytes)
unfolding data_set_message_calc_size data_set_header_calc_size flags2_enabled
timestamp_lost_example =
    timestamp_lost bytes heartbeat keep_alive_message six_bytes heartbeat-IsTimestamped
      keep_alive-IsHeader (alive refl refl refl) (omega arith) (omega arith)

notification-IsFlags : IsFlags notification
unfolding publisher_id_type
notification-IsFlags = record {
  version_fits = omega arith;
  id_type_fits = omega arith;
  message_type_fits = omega arith;
}

flags-Codes_example :
    Codes
      (flags_encode notification)
      flags_decode
      (flags_of notification)
      (flags_calc_size notification)
flags-Codes_example = flags-Codes notification notification-IsFlags
