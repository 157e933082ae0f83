-- ===== src/PubSub/PublisherId.antt =====
-- The identifier of the publisher in a network message, of
-- src/pubsub/ua_pubsub_networkmessage.c, and its coding.
use opcua_tsn_lo_i.Base.{ℕ, ◌^◌, ◌<◌, refl, none, [], ◌∷◌, ◌==◌, if◌then◌else◌}
use opcua_tsn_lo_i.Codec.{
  bad_internal_error, Encoder, Decoder, fail, encode16, encode32, encode64, byte_decode,
  uint16_decode, uint32_decode, uint64_decode,
}
use opcua_tsn_lo_i.Codec.Words.{
  byte_decode-cons, uint16_decode-encode16, uint32_decode-encode32, uint64_decode-encode64,
}
use opcua_tsn_lo_i.Codec.Output.{Codes}
use opcua_tsn_lo_i.Codec.Arrays.{
  UaString, IsShort, string_encode, string_decode, string_calc_size, string-Codes,
}
use opcua_tsn_lo_i.PubSub.{
  write_byte, write_uint16, write_uint32, write_uint64, encode_binary, decode_binary, sizeof_string,
}
use opcua_tsn_lo_i.PubSub.Reading.{
  write_byte-Encodes, write_uint16-Encodes, write_uint32-Encodes, write_uint64-Encodes,
  decode_binary-Codes,
}

-- The union with its tag `publisherIdType`; `other_id` is a tag that is none of the enumeration's.
pub data PublisherId : Type 0 where
  byte_id uint16_id uint32_id uint64_id : ℕ → PublisherId
  string_id : UaString → PublisherId
  other_id : ℕ → PublisherId

unfoldable pub publisher_id_type : PublisherId → ℕ
publisher_id_type (byte_id v) = 0
publisher_id_type (uint16_id v) = 1
publisher_id_type (uint32_id v) = 2
publisher_id_type (uint64_id v) = 3
publisher_id_type (string_id s) = 4
publisher_id_type (other_id t) = t

pub publisher_id_encode : PublisherId → Encoder
publisher_id_encode (byte_id v) = write_byte v
publisher_id_encode (uint16_id v) = write_uint16 v
publisher_id_encode (uint32_id v) = write_uint32 v
publisher_id_encode (uint64_id v) = write_uint64 v
publisher_id_encode (string_id s) = encode_binary sizeof_string (string_encode s)
publisher_id_encode (other_id t) = fail bad_internal_error

abbrev wrapped : {A : Type 0} → (A → PublisherId) → Decoder A → Decoder PublisherId
wrapped wrap d bs = let (rv, v, rest) = d bs in (rv, wrap v, rest)

pub publisher_id_decode : ℕ → Decoder PublisherId
publisher_id_decode t bs =
    if t == 0
    then wrapped byte_id byte_decode bs
    else if t == 1
    then wrapped uint16_id uint16_decode bs
    else if t == 2
    then wrapped uint32_id uint32_decode bs
    else if t == 3
    then wrapped uint64_id uint64_decode bs
    else if t == 4
    then wrapped string_id (decode_binary none string_decode) bs
    else (bad_internal_error, other_id t, bs)

pub publisher_id_calc_size : PublisherId → ℕ
publisher_id_calc_size (byte_id v) = 1
publisher_id_calc_size (uint16_id v) = 2
publisher_id_calc_size (uint32_id v) = 4
publisher_id_calc_size (uint64_id v) = 8
publisher_id_calc_size (string_id s) = string_calc_size s
publisher_id_calc_size (other_id t) = 0

-- The number fits, or the string is short, and the tag is one of the enumeration's.
abbrev pub IsPublisherId : PublisherId → Type 0
IsPublisherId (byte_id v) = v < 2 ^ 8
IsPublisherId (uint16_id v) = v < 2 ^ 16
IsPublisherId (uint32_id v) = v < 2 ^ 32
IsPublisherId (uint64_id v) = v < 2 ^ 64
IsPublisherId (string_id s) = IsShort s
IsPublisherId (other_id t) = ⊥

-- The identifier of a publisher is read back as it was written by a decoder that is told its type,
-- and the size that is computed beforehand is right, for every type of the enumeration and every
-- value that fits.
pub publisher_id-Codes :
    (p : PublisherId)
    → IsPublisherId p
    → Codes
        (publisher_id_encode p)
        (publisher_id_decode (publisher_id_type p))
        p
        (publisher_id_calc_size p)
unfolding publisher_id_encode publisher_id_decode publisher_id_type publisher_id_calc_size
publisher_id-Codes (byte_id v) h = record {
  bytes = v ∷ [];
  encodes = write_byte-Encodes v;
  decodes = λ rest. rw byte_decode-cons refl;
  sized = refl;
}
publisher_id-Codes (uint16_id v) h = record {
  bytes = encode16 v;
  encodes = write_uint16-Encodes v;
  decodes = λ rest. rw (uint16_decode-encode16 v rest h) refl;
  sized = unfold encode16 in refl;
}
publisher_id-Codes (uint32_id v) h = record {
  bytes = encode32 v;
  encodes = write_uint32-Encodes v;
  decodes = λ rest. rw (uint32_decode-encode32 v rest h) refl;
  sized = unfold encode32 in refl;
}
publisher_id-Codes (uint64_id v) h = record {
  bytes = encode64 v;
  encodes = write_uint64-Encodes v;
  decodes = λ rest. rw (uint64_decode-encode64 v rest h) refl;
  sized = unfold encode64 in refl;
}
publisher_id-Codes (string_id s) h =
    let c = decode_binary-Codes sizeof_string none _ _ s _ (string-Codes s h) in
    record {
      bytes = c.bytes;
      encodes = c.encodes;
      decodes = λ rest. rw (c.decodes rest) refl;
      sized = c.sized;
    }
publisher_id-Codes (other_id t) h = absurd h
