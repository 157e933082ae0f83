-- ===== src/PubSub/NetworkMessage/Decoding.antt =====
-- UA_NetworkMessage_decodeBinary of src/pubsub/ua_pubsub_networkmessage.c. Memory is always there.

pub mod Flags
use Prim.Native.Nat.{bit_and}
use opcua_tsn_lo_i.Base.{
  ℕ, zero, suc, ◌+◌, ◌-◌, ◌*◌, ◌/◌, ◌%◌, Bool, true, false, ◌&&◌, Option, none, some, List, [], ◌∷◌,
  ltb, ◌==◌, if◌then◌else◌, length,
}
use opcua_tsn_lo_i.Base.Bits.{is_set}
use opcua_tsn_lo_i.Codec.{
  good, bad_not_implemented, stuck, is_good, Decoder, byte_decode, uint16_decode, uint64_decode,
}
use opcua_tsn_lo_i.Codec.Arrays.{UaString, string_decode}
use opcua_tsn_lo_i.Codec.NodeIds.{Guid, guid_decode}
use opcua_tsn_lo_i.Codec.DataValues.{VariantCodec}
use opcua_tsn_lo_i.PubSub.{Reader, and_read, read_if, decode_binary, decode_all}
use opcua_tsn_lo_i.PubSub.PublisherId.{
  PublisherId, byte_id, uint16_id, uint32_id, uint64_id, string_id, other_id, publisher_id_type,
  publisher_id_decode,
}
use opcua_tsn_lo_i.PubSub.GroupHeader.{GroupHeader, empty_group_header, group_header_decode}
use opcua_tsn_lo_i.PubSub.SecurityHeader.{
  SecurityHeader, empty_security_header, security_header_decode,
}
use opcua_tsn_lo_i.PubSub.Footer.{footer_decode}
use opcua_tsn_lo_i.PubSub.DataSetMessage.{DataSetMessage, data_set_message_decode}
use opcua_tsn_lo_i.PubSub.NetworkMessage.{NetworkMessage, dataset_message}

abbrev pub empty_guid : Guid
empty_guid = record { data1 = 0; data2 = 0; data3 = 0; data4 = 0 ∷ 0 ∷ 0 ∷ 0 ∷ 0 ∷ 0 ∷ 0 ∷ 0 ∷ [] }

-- The union when only its tag has been set.
unfoldable pub empty_id : ℕ → PublisherId
empty_id t =
    if t == 0
    then byte_id 0
    else if t == 1
    then uint16_id 0
    else if t == 2
    then uint32_id 0
    else if t == 3
    then uint64_id 0
    else if t == 4
    then string_id none
    else other_id t

module _ {V : Type 0} where
  abbrev pub empty_message : NetworkMessage V
  empty_message = record {
    version = 0;
    publisher_id_enabled = false;
    group_header_enabled = false;
    payload_header_enabled = false;
    publisher_id = byte_id 0;
    class_id_enabled = false;
    security_enabled = false;
    timestamp_enabled = false;
    picoseconds_enabled = false;
    chunk_message = false;
    promoted_fields_enabled = false;
    message_type = 0;
    data_set_class_id = empty_guid;
    group_header = empty_group_header;
    count = 0;
    data_set_writer_ids = none;
    timestamp = 0;
    picoseconds = 0;
    promoted_fields = [];
    security_header = empty_security_header;
    sizes = none;
    data_set_messages = [];
    security_footer = [];
    signature = none;
  }

  put_uadp_flags : NetworkMessage V → ℕ → NetworkMessage V
  put_uadp_flags dst v = record dst {
    version = bit_and v 15;
    publisher_id_enabled = is_set v 16;
    group_header_enabled = is_set v 32;
    payload_header_enabled = is_set v 64;
  }

  put_extended_flags1 : NetworkMessage V → ℕ → NetworkMessage V
  put_extended_flags1 dst v = record dst {
    publisher_id = empty_id (bit_and v 7);
    class_id_enabled = is_set v 8;
    security_enabled = is_set v 16;
    timestamp_enabled = is_set v 32;
    picoseconds_enabled = is_set v 64;
  }

  put_extended_flags2 : NetworkMessage V → ℕ → NetworkMessage V
  put_extended_flags2 dst v = record dst {
    chunk_message = is_set v 1;
    promoted_fields_enabled = is_set v 2;
    message_type = bit_and v 28 / 4;
  }

  read_extended_flags2 : Bool → Reader (NetworkMessage V)
  unfolding put_extended_flags2
  read_extended_flags2 false dst bs = (good, dst, bs)
  read_extended_flags2 true dst bs =
      let (rv, v, rest) = byte_decode bs in
      if is_good rv then (rv, put_extended_flags2 dst v, rest) else (rv, dst, rest)

  read_extended_flags1 : Bool → Reader (NetworkMessage V)
  unfolding put_extended_flags1 read_extended_flags2
  read_extended_flags1 false dst bs = (good, dst, bs)
  read_extended_flags1 true dst bs =
      let (rv, v, rest) = byte_decode bs in
      if is_good rv
      then read_extended_flags2 (is_set v 128) (put_extended_flags1 dst v) rest
      else (rv, dst, rest)

  unfoldable pub flags_decode : Decoder (NetworkMessage V)
  unfolding put_uadp_flags read_extended_flags1
  flags_decode bs =
      let (rv, v, rest) = byte_decode bs in
      if is_good rv
      then read_extended_flags1 (is_set v 128) (put_uadp_flags empty_message v) rest
      else (rv, empty_message, rest)

  read_publisher_id : Reader (NetworkMessage V)
  read_publisher_id dst =
      read_if (λ m. m.publisher_id_enabled) dst.publisher_id
        (publisher_id_decode (publisher_id_type dst.publisher_id))
        (λ m p. record m { publisher_id = p }) dst

  read_payload_header : Reader (NetworkMessage V)
  read_payload_header dst bs =
      let (rv, n, rest) = byte_decode bs in
      let (rv', ids, rest') = decode_all uint16_decode n rest in
      if dst.payload_header_enabled
      then if dst.message_type == dataset_message
        then if is_good rv
          then (rv', record dst { count = n; data_set_writer_ids = some ids }, rest')
          else (rv, dst, rest)
        else (bad_not_implemented, dst, bs)
      else (good, dst, bs)

  module _ (x : VariantCodec V) where
    -- The do-while loop; `left` is what is left of the size in bytes. A Variant takes a byte at
    -- least, so that the rounds are as many as the bytes of the size at most.
    promoted_loop : ℕ → ℕ → Decoder (List V)
    promoted_loop zero left bs = (stuck, [], bs)
    promoted_loop (suc fuel) left bs =
        let (rv, v, rest) = decode_binary x.empty (x.decode 1) bs in
        let left' = left - (length bs - length rest) in
        let (rv', vs, rest') = promoted_loop fuel left' rest in
        if is_good rv
        then (if ltb 0 left' then (rv', v ∷ vs, rest') else (good, v ∷ [], rest))
        else (rv, v ∷ [], rest)

    promoted_fields_decode : Decoder (List V)
    unfolding promoted_loop
    promoted_fields_decode bs =
        let (rv, size, rest) = uint16_decode bs in
        if is_good rv
        then (if ltb 0 size then promoted_loop size size rest else (good, [], rest))
        else (rv, [], rest)

    read_payload : Reader (NetworkMessage V)
    read_payload dst bs =
        let n = if dst.payload_header_enabled then dst.count else 1 in
        let (rv, szs, rest) = decode_all uint16_decode n bs in
        let (rv', ms, rest') = decode_all (data_set_message_decode x) n rest in
        let (rv1, ms1, rest1) = decode_all (data_set_message_decode x) n bs in
        if dst.message_type == dataset_message
        then if dst.payload_header_enabled && ltb 1 n
          then if is_good rv
            then (rv', record dst { sizes = some szs; data_set_messages = ms }, rest')
            else (rv, record dst { sizes = some szs }, rest)
          else (rv1, record dst { data_set_messages = ms1 }, rest1)
        else (bad_not_implemented, dst, bs)

    -- All parts behind the flags.
    read_parts : Reader (NetworkMessage V)
    unfolding read_publisher_id read_payload_header promoted_fields_decode read_payload
    read_parts = and_read read_publisher_id (
        and_read
          (read_if (λ m. m.class_id_enabled) empty_guid (decode_binary empty_guid guid_decode)
            (λ m v. record m { data_set_class_id = v }))
          (and_read
            (read_if (λ m. m.group_header_enabled) empty_group_header group_header_decode
              (λ m v. record m { group_header = v }))
            (and_read read_payload_header (
              and_read
                (read_if (λ m. m.timestamp_enabled) 0 uint64_decode
                  (λ m v. record m { timestamp = v }))
                (and_read
                  (read_if (λ m. m.picoseconds_enabled) 0 uint16_decode
                    (λ m v. record m { picoseconds = v }))
                  (and_read
                    (read_if (λ m. m.promoted_fields_enabled) [] promoted_fields_decode
                      (λ m v. record m { promoted_fields = v }))
                    (and_read
                      (read_if (λ m. m.security_enabled) empty_security_header
                        security_header_decode (λ m v. record m { security_header = v }))
                      (and_read read_payload (
                        and_read
                          (λ dst.
                            read_if
                              (λ m.
                                m.security_enabled
                                && m.security_header.footer_enabled
                                && ltb 0 m.security_header.footer_size)
                              [] (footer_decode dst.security_header.footer_size)
                              (λ m v. record m { security_footer = v }) dst)
                          (read_if (λ m. m.security_enabled && m.security_header.message_signed)
                            none (decode_binary none string_decode)
                            (λ m v. record m { signature = v })))))))))))

    -- A message that cannot be decoded is deleted.
    unfoldable pub network_message_decode : Decoder (NetworkMessage V)
    unfolding read_parts
    network_message_decode bs =
        let (rv, dst, rest) = flags_decode bs in
        let (rv', m, rest') = read_parts dst rest in
        if is_good rv
        then (if is_good rv' then (good, m, rest') else (rv', empty_message, rest'))
        else (rv, empty_message, rest)
