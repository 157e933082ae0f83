-- ===== src/Codec/DataValues.antt =====
-- DataValues of src/ua_types_encoding_binary.c. The Variant inside is a parameter: what a client
-- of its coding needs is the interface `VariantCodec`.
pub mod RoundTrip
use opcua_tsn_lo_i.Base.{
  ℕ, ◌+◌, ◌*◌, ◌/◌, ◌%◌, ◌^◌, ◌≤◌, ◌<◌, ◌≡◌, refl, Bool, true, false, List, [], ◌∷◌, ◌++◌, arith,
  ltb, if◌then◌else◌, length, length-append, append_assoc, ap, sym, ◌∙◌,
}
use opcua_tsn_lo_i.Base.Bits.{
  or_flag, is_set, bit, bit-le, or_flag-sum, is_set-sum, IsFlag-1, IsFlag-2, IsFlag-4, IsFlag-8,
  IsFlag-16, IsFlag-32,
}
use opcua_tsn_lo_i.Codec.{
  good, bad_encoding_error, or_status, is_good, Encoder, Decoder, decode_if, and_then, or_also,
  skip, encode16, encode32, encode64, byte_encode, uint16_encode, uint32_encode, uint64_encode,
  byte_decode, uint16_decode, uint32_decode, uint64_decode, encode_with_exchange_buffer,
}
use opcua_tsn_lo_i.Codec.Words.{
  byte_decode-cons, uint16_decode-encode16, uint32_decode-encode32, uint64_decode-encode64,
}
use opcua_tsn_lo_i.Codec.Output.{
  Encodes, Codes, decode_if-decodes, and_then-Encodes, or_also-Encodes, if-Encodes, skip-Encodes,
  byte_encode-Encodes, encode_with_exchange_buffer-Encodes,
}

-- The coding of Variants, below `depth` levels of recursion.
pub record VariantCodec (V : Type 0) : Type 1 where
  pub empty : V
  pub encode : V → Encoder
  pub decode : ℕ → Decoder V
  pub calc_size : V → ℕ
  pub IsCoded : ℕ → V → Type 0
  pub codes :
      (depth : ℕ) (v : V) → IsCoded depth v → Codes (encode v) (decode depth) v (calc_size v)

pub record DataValue (V : Type 0) : Type 0 where
  pub has_value : Bool
  pub has_status : Bool
  pub has_source_timestamp : Bool
  pub has_server_timestamp : Bool
  pub has_source_picoseconds : Bool
  pub has_server_picoseconds : Bool
  pub value : V
  pub status : ℕ
  pub source_timestamp : ℕ
  pub source_picoseconds : ℕ
  pub server_timestamp : ℕ
  pub server_picoseconds : ℕ

abbrev pub max_recursion : ℕ
max_recursion = 20

abbrev pub max_picoseconds : ℕ
max_picoseconds = 9999

abbrev pub clamp_picoseconds : ℕ → ℕ
clamp_picoseconds v = if ltb max_picoseconds v then max_picoseconds else v

unfoldable pub data_value_mask : {V : Type 0} → DataValue V → ℕ
data_value_mask v = or_flag v.has_server_picoseconds 32 (
    or_flag v.has_source_picoseconds 16 (
      or_flag v.has_server_timestamp 8
        (or_flag v.has_source_timestamp 4 (or_flag v.has_status 2 (or_flag v.has_value 1 0)))))

module _ {V : Type 0} (x : VariantCodec V) where
  unfoldable pub data_value_init : DataValue V
  data_value_init = record {
    has_value = false;
    has_status = false;
    has_source_timestamp = false;
    has_server_timestamp = false;
    has_source_picoseconds = false;
    has_server_picoseconds = false;
    value = x.empty;
    status = 0;
    source_timestamp = 0;
    source_picoseconds = 0;
    server_timestamp = 0;
    server_picoseconds = 0;
  }

  unfoldable pub data_value_encode : DataValue V → Encoder
  data_value_encode v = and_then (byte_encode (data_value_mask v)) (
      and_then (if v.has_value then x.encode v.value else skip) (
        or_also
          (or_also
            (or_also
              (or_also
                (if v.has_status
                  then encode_with_exchange_buffer (uint32_encode v.status)
                  else skip)
                (if v.has_source_timestamp
                  then encode_with_exchange_buffer (uint64_encode v.source_timestamp)
                  else skip))
              (if v.has_source_picoseconds
                then encode_with_exchange_buffer (uint16_encode v.source_picoseconds)
                else skip))
            (if v.has_server_timestamp
              then encode_with_exchange_buffer (uint64_encode v.server_timestamp)
              else skip))
          (if v.has_server_picoseconds
            then encode_with_exchange_buffer (uint16_encode v.server_picoseconds)
            else skip)))

  data_value_content : ℕ → ℕ → Decoder (DataValue V)
  data_value_content depth mask b0 =
      let (r1, value, b1) = decode_if (is_set mask 1) x.empty (x.decode (depth + 1)) b0 in
      let (r2, status, b2) = decode_if (is_set mask 2) 0 uint32_decode b1 in
      let (r3, source, b3) = decode_if (is_set mask 4) 0 uint64_decode b2 in
      let (r4, source_pico, b4) = decode_if (is_set mask 16) 0 uint16_decode b3 in
      let (r5, server, b5) = decode_if (is_set mask 8) 0 uint64_decode b4 in
      let (r6, server_pico, b6) = decode_if (is_set mask 32) 0 uint16_decode b5 in
      (
        or_status (or_status (or_status (or_status (or_status r1 r2) r3) r4) r5) r6,
        record {
          has_value = is_set mask 1;
          has_status = is_set mask 2;
          has_source_timestamp = is_set mask 4;
          has_server_timestamp = is_set mask 8;
          has_source_picoseconds = is_set mask 16;
          has_server_picoseconds = is_set mask 32;
          value = value;
          status = status;
          source_timestamp = source;
          source_picoseconds = clamp_picoseconds source_pico;
          server_timestamp = server;
          server_picoseconds = clamp_picoseconds server_pico;
        },
        b6,
      )

  unfoldable pub data_value_decode : ℕ → Decoder (DataValue V)
  unfolding data_value_content data_value_init
  data_value_decode depth bs =
      let (ret, mask, b0) = byte_decode bs in
      if is_good ret
      then if ltb max_recursion depth
        then (bad_encoding_error, data_value_init, b0)
        else data_value_content depth mask b0
      else (ret, data_value_init, b0)

  unfoldable pub data_value_calc_size : DataValue V → ℕ
  data_value_calc_size v =
      1
      + (if v.has_value then x.calc_size v.value else 0)
      + (if v.has_status then 4 else 0)
      + (if v.has_source_timestamp then 8 else 0)
      + (if v.has_source_picoseconds then 2 else 0)
      + (if v.has_server_timestamp then 8 else 0)
      + (if v.has_server_picoseconds then 2 else 0)
