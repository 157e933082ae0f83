-- ===== src/PubSub/NetworkMessage.antt =====
-- Network messages of src/pubsub/ua_pubsub_networkmessage.c: their data, their encoding and their
-- size. Variants are coded as `VariantCodec` says.
pub mod Decoding
pub mod LostTimestamp
use opcua_tsn_lo_i.Base.{
  ℕ, zero, suc, ◌+◌, ◌*◌, ◌%◌, ◌^◌, Bool, true, false, not, ◌&&◌, ◌||◌, Option, none, some, List,
  [], ◌∷◌, map, ltb, ◌==◌, if◌then◌else◌, length,
}
use opcua_tsn_lo_i.Base.Bits.{or_flag}
use opcua_tsn_lo_i.Codec.{
  bad_encoding_error, bad_not_implemented, Encoder, and_then, or_also, skip, fail,
}
use opcua_tsn_lo_i.Codec.Arrays.{UaString, string_encode, string_calc_size}
use opcua_tsn_lo_i.Codec.NodeIds.{Guid, guid_encode}
use opcua_tsn_lo_i.Codec.DataValues.{VariantCodec}
use opcua_tsn_lo_i.PubSub.{
  write_byte, write_uint16, write_uint64, encode_binary, encode_all, size_all, sizeof_string,
  sizeof_guid, sizeof_variant,
}
use opcua_tsn_lo_i.PubSub.PublisherId.{
  PublisherId, publisher_id_type, publisher_id_encode, publisher_id_calc_size,
}
use opcua_tsn_lo_i.PubSub.GroupHeader.{GroupHeader, group_header_encode, group_header_calc_size}
use opcua_tsn_lo_i.PubSub.SecurityHeader.{
  SecurityHeader, security_header_encode, security_header_calc_size,
}
use opcua_tsn_lo_i.PubSub.Footer.{footer_encode}
use opcua_tsn_lo_i.PubSub.DataSetMessage.{
  DataSetMessage, data_set_message_encode, data_set_message_calc_size,
}

-- The only type of message that is implemented.
abbrev pub dataset_message : ℕ
dataset_message = 0

-- A list stands for an array that has the number of elements which the message says; `none` is the
-- null pointer.
pub record NetworkMessage (V : Type 0) : Type 0 where
  pub version : ℕ
  pub publisher_id_enabled : Bool
  pub group_header_enabled : Bool
  pub payload_header_enabled : Bool
  pub publisher_id : PublisherId
  pub class_id_enabled : Bool
  pub security_enabled : Bool
  pub timestamp_enabled : Bool
  pub picoseconds_enabled : Bool
  pub chunk_message : Bool
  pub promoted_fields_enabled : Bool
  pub message_type : ℕ
  pub data_set_class_id : Guid
  pub group_header : GroupHeader
  pub count : ℕ
  pub data_set_writer_ids : Option (List ℕ)
  pub timestamp : ℕ
  pub picoseconds : ℕ
  pub promoted_fields : List V
  pub security_header : SecurityHeader
  pub sizes : Option (List ℕ)
  pub data_set_messages : List (DataSetMessage V)
  pub security_footer : List ℕ
  pub signature : UaString

-- A statement whose result is assigned over.
abbrev pub regardless : Encoder → Encoder → Encoder
regardless f g c = g (f c).1

-- `|=` over a loop that goes on after an error.
unfoldable pub encode_each : {A : Type 0} → (A → Encoder) → List A → Encoder
encode_each f [] = skip
encode_each f (x ∷ xs) = or_also (f x) (encode_each f xs)

abbrev pub byte_at : List ℕ → ℕ → ℕ
byte_at [] i = 0
byte_at (b ∷ bs) zero = b
byte_at (b ∷ bs) (suc i) = byte_at bs i

unfoldable pub writer_ids_encode : Option (List ℕ) → Encoder
writer_ids_encode none = fail bad_encoding_error
writer_ids_encode (some ids) = encode_all write_uint16 ids

-- The size of a message is computed where none is given.
unfoldable pub given_sizes : {A : Type 0} → (A → ℕ) → Option (List ℕ) → List A → List ℕ
given_sizes size none ms = map (λ m. size m % 2 ^ 16) ms
given_sizes size (some szs) [] = []
given_sizes size (some []) (m ∷ ms) = size m % 2 ^ 16 ∷ given_sizes size (some []) ms
given_sizes size (some (s ∷ szs)) (m ∷ ms) =
    (if s == 0 then size m % 2 ^ 16 else s) ∷ given_sizes size (some szs) ms

module _ {V : Type 0} where
  unfoldable pub extended_flags2_enabled : NetworkMessage V → Bool
  extended_flags2_enabled m =
      m.chunk_message || m.promoted_fields_enabled || not (m.message_type == dataset_message)

  unfoldable pub extended_flags1_enabled : NetworkMessage V → Bool
  unfolding extended_flags2_enabled
  extended_flags1_enabled m =
      not (publisher_id_type m.publisher_id == 0)
      || m.class_id_enabled
      || m.security_enabled
      || m.timestamp_enabled
      || m.picoseconds_enabled
      || extended_flags2_enabled m

  unfoldable pub uadp_flags : NetworkMessage V → ℕ
  uadp_flags m = or_flag (extended_flags1_enabled m) 128 (
      or_flag m.payload_header_enabled 64
        (or_flag m.group_header_enabled 32 (or_flag m.publisher_id_enabled 16 m.version)))

  unfoldable pub extended_flags1 : NetworkMessage V → ℕ
  extended_flags1 m = or_flag (extended_flags2_enabled m) 128 (
      or_flag m.picoseconds_enabled 64 (
        or_flag m.timestamp_enabled 32 (
          or_flag m.security_enabled 16
            (or_flag m.class_id_enabled 8 (publisher_id_type m.publisher_id % 256)))))

  unfoldable pub extended_flags2 : NetworkMessage V → ℕ
  extended_flags2 m =
      or_flag m.promoted_fields_enabled 2 (or_flag m.chunk_message 1 (m.message_type * 4 % 256))

  unfoldable pub flags_encode : NetworkMessage V → Encoder
  flags_encode m = and_then (write_byte (uadp_flags m)) (
      if extended_flags1_enabled m
      then and_then (write_byte (extended_flags1 m))
          (if extended_flags2_enabled m then write_byte (extended_flags2 m) else skip)
      else skip)

  unfoldable pub flags_calc_size : NetworkMessage V → ℕ
  flags_calc_size m =
      1
      + (if extended_flags1_enabled m then 1 + (if extended_flags2_enabled m then 1 else 0) else 0)

  unfoldable pub payload_header_encode : NetworkMessage V → Encoder
  payload_header_encode m =
      if m.message_type == dataset_message
      then regardless (write_byte m.count) (writer_ids_encode m.data_set_writer_ids)
      else fail bad_not_implemented

  unfoldable pub footer_and_signature_encode : NetworkMessage V → Encoder
  footer_and_signature_encode m =
      and_then
        (if m.security_header.footer_enabled
          then footer_encode (byte_at m.security_footer) m.security_header.footer_size
          else skip)
        (if m.security_header.message_signed
          then encode_binary sizeof_string (string_encode m.signature)
          else skip)

  module _ (x : VariantCodec V) where
    unfoldable pub promoted_fields_encode : NetworkMessage V → Encoder
    promoted_fields_encode m =
        or_also (write_uint16 (size_all x.calc_size m.promoted_fields % 2 ^ 16))
          (encode_each (λ v. encode_binary sizeof_variant (x.encode v)) m.promoted_fields)

    unfoldable pub payload_encode : NetworkMessage V → Encoder
    payload_encode m =
        and_then
          (if m.payload_header_enabled && ltb 1 m.count
            then encode_all write_uint16
                (given_sizes (data_set_message_calc_size x) m.sizes m.data_set_messages)
            else skip)
          (encode_all (data_set_message_encode x) m.data_set_messages)

    unfoldable pub network_message_encode : NetworkMessage V → Encoder
    network_message_encode m = and_then (flags_encode m) (
        and_then (if m.publisher_id_enabled then publisher_id_encode m.publisher_id else skip) (
          and_then
            (if m.class_id_enabled
              then encode_binary sizeof_guid (guid_encode m.data_set_class_id)
              else skip)
            (and_then (if m.group_header_enabled then group_header_encode m.group_header else skip)
              (and_then (if m.payload_header_enabled then payload_header_encode m else skip) (
                regardless (if m.timestamp_enabled then write_uint64 m.timestamp else skip) (
                  regardless (if m.picoseconds_enabled then write_uint16 m.picoseconds else skip) (
                    regardless
                      (if m.promoted_fields_enabled then promoted_fields_encode m else skip)
                      (and_then
                        (if m.security_enabled
                          then security_header_encode m.security_header
                          else skip)
                        (if m.message_type == dataset_message
                          then and_then (payload_encode m)
                              (if m.security_enabled then footer_and_signature_encode m else skip)
                          else fail bad_not_implemented)))))))))

    payload_calc_size : NetworkMessage V → ℕ
    payload_calc_size m =
        if m.message_type == dataset_message
        then (if m.payload_header_enabled && ltb 1 m.count then 2 * m.count else 0)
          + size_all (data_set_message_calc_size x) m.data_set_messages
        else 0

    security_calc_size : NetworkMessage V → ℕ
    security_calc_size m =
        if m.security_enabled
        then security_header_calc_size m.security_header
          + (if m.security_header.footer_enabled then m.security_header.footer_size else 0)
          + (if m.security_header.message_signed then string_calc_size m.signature else 0)
        else 0

    -- A message without the identifiers of the writers has the size 0.
    unfoldable pub network_message_calc_size : NetworkMessage V → ℕ
    unfolding payload_calc_size security_calc_size
    network_message_calc_size m =
        let ids = if m.message_type == dataset_message then 1 + 2 * m.count else 0 in
        let size =
          flags_calc_size m
          + (if m.publisher_id_enabled then publisher_id_calc_size m.publisher_id else 0)
          + (if m.class_id_enabled then 16 else 0)
          + (if m.group_header_enabled then group_header_calc_size m.group_header else 0)
          + (if m.payload_header_enabled then ids else 0)
          + (if m.timestamp_enabled then 8 else 0)
          + (if m.picoseconds_enabled then 2 else 0)
          + (if m.promoted_fields_enabled then 2 + size_all x.calc_size m.promoted_fields else 0)
          + security_calc_size m
          + payload_calc_size m in
        if m.payload_header_enabled && (m.message_type == dataset_message)
        then elim m.data_set_writer_ids [ none ↦ 0 | some i ↦ size ]
        else size
