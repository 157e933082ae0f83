-- ===== src/PubSub/DataSetMessage.antt =====
-- The DataSetMessages of src/pubsub/ua_pubsub_networkmessage.c. The Variants in them are coded as
-- `VariantCodec` says.
pub mod Fields
pub mod RoundTrip
use opcua_tsn_lo_i.Base.{ℕ, ◌+◌, true, false, not, List, [], if◌then◌else◌, ◌==◌, length}
use opcua_tsn_lo_i.Codec.{
  good, bad_not_implemented, is_good, Encoder, Decoder, and_then, skip, fail, uint16_decode,
}
use opcua_tsn_lo_i.Codec.DataValues.{
  VariantCodec, DataValue, data_value_init, data_value_encode, data_value_decode,
  data_value_calc_size,
}
use opcua_tsn_lo_i.PubSub.{
  encode_binary, sizeof_variant, sizeof_data_value, write_uint16, decode_binary, encode_all,
  decode_all, size_all,
}
use opcua_tsn_lo_i.PubSub.DataSetHeader.{
  encoding_variant, encoding_rawdata, encoding_datavalue, data_key_frame, data_delta_frame,
  keep_alive, DataSetMessageHeader, data_set_header_encode, data_set_header_decode,
  data_set_header_calc_size,
}

pub record DeltaFrameField (V : Type 0) : Type 0 where
  pub field_index : ℕ
  pub field_value : DataValue V

-- The two members of the union are both there; the type of the message says which one is used,
-- and the other one is empty. A list stands for an array and its `fieldCount`, which is the first
-- word of either member.
pub record DataSetMessage (V : Type 0) : Type 0 where
  pub header : DataSetMessageHeader
  pub key_frame : List (DataValue V)
  pub delta_frame : List (DeltaFrameField V)

-- The loop that the encoding of the fields selects, for fields as Variants and as DataValues.
unfoldable pub fields_encode : {A : Type 0} → ℕ → (A → Encoder) → (A → Encoder) → List A → Encoder
fields_encode encoding variant value fields =
    if encoding == encoding_variant
    then encode_all variant fields
    else if encoding == encoding_rawdata
    then fail bad_not_implemented
    else if encoding == encoding_datavalue
    then encode_all value fields
    else skip

unfoldable pub fields_decode : {A : Type 0} → ℕ → Decoder A → Decoder A → Decoder (List A)
fields_decode encoding variant value bs =
    let (rv, count, rest) = uint16_decode bs in
    if encoding == encoding_rawdata
    then (good, [], bs)
    else if is_good rv
    then if encoding == encoding_variant
      then decode_all variant count rest
      else if encoding == encoding_datavalue
      then decode_all value count rest
      else (good, [], rest)
    else (rv, [], rest)

unfoldable pub fields_calc_size : {A : Type 0} → ℕ → (A → ℕ) → (A → ℕ) → List A → ℕ
fields_calc_size encoding variant value fields =
    (if encoding == encoding_rawdata then 0 else 2)
    + (if encoding == encoding_variant
        then size_all variant fields
        else if encoding == encoding_datavalue
        then size_all value fields
        else 0)

module _ {V : Type 0} (x : VariantCodec V) where
  unfoldable pub indexed_encode : (DataValue V → Encoder) → DeltaFrameField V → Encoder
  indexed_encode f field = and_then (write_uint16 field.field_index) (f field.field_value)

  unfoldable pub variant_encode : DataValue V → Encoder
  variant_encode v = encode_binary sizeof_variant (x.encode v.value)

  unfoldable pub value_encode : DataValue V → Encoder
  value_encode v = encode_binary sizeof_data_value (data_value_encode x v)

  unfoldable pub data_set_message_encode : DataSetMessage V → Encoder
  data_set_message_encode m =
      let h = m.header in
      and_then (data_set_header_encode h) (
        if h.message_type == data_key_frame
        then and_then
            (if h.field_encoding == encoding_rawdata
              then skip
              else write_uint16 (length m.key_frame))
            (fields_encode h.field_encoding variant_encode value_encode m.key_frame)
        else if h.message_type == data_delta_frame
        then and_then (write_uint16 (length m.delta_frame)) (
            fields_encode h.field_encoding (indexed_encode variant_encode)
              (indexed_encode value_encode) m.delta_frame)
        else if h.message_type == keep_alive
        then skip
        else fail bad_not_implemented)

  -- UA_decodeBinary counts as one level of recursion. A field that is sent as a Variant comes back as a DataValue that has only a value.
  variant_decode : Decoder (DataValue V)
  variant_decode bs =
      let (rv, v, rest) = decode_binary x.empty (x.decode 1) bs in
      (rv, record (data_value_init x) { value = v; has_value = is_good rv }, rest)

  value_decode : Decoder (DataValue V)
  value_decode = decode_binary (data_value_init x) (data_value_decode x 1)

  indexed_decode : Decoder (DataValue V) → Decoder (DeltaFrameField V)
  indexed_decode d bs =
      let (rv, index, rest) = uint16_decode bs in
      let (rv', v, rest') = d rest in
      if is_good rv
      then (rv', record { field_index = index; field_value = v }, rest')
      else (rv, record { field_index = index; field_value = data_value_init x }, rest)

  unfoldable pub data_set_message_decode : Decoder (DataSetMessage V)
  unfolding variant_decode value_decode indexed_decode
  data_set_message_decode bs =
      let (rv, h, rest) = data_set_header_decode bs in
      let (rk, key, rest_key) = fields_decode h.field_encoding variant_decode value_decode rest in
      let (rd, delta, rest_delta) =
        fields_decode h.field_encoding (indexed_decode variant_decode) (indexed_decode value_decode)
          rest in
      if is_good rv
      then if h.message_type == data_key_frame
        then (rk, record { header = h; key_frame = key; delta_frame = [] }, rest_key)
        else if h.message_type == data_delta_frame
        then (rd, record { header = h; key_frame = []; delta_frame = delta }, rest_delta)
        else if h.message_type == keep_alive
        then (good, record { header = h; key_frame = []; delta_frame = [] }, rest)
        else (bad_not_implemented, record { header = h; key_frame = []; delta_frame = [] }, rest)
      else (rv, record { header = h; key_frame = []; delta_frame = [] }, rest)

  indexed_calc_size : (DataValue V → ℕ) → DeltaFrameField V → ℕ
  indexed_calc_size size field = 2 + size field.field_value

  unfoldable pub data_set_message_calc_size : DataSetMessage V → ℕ
  unfolding indexed_calc_size
  data_set_message_calc_size m =
      let h = m.header in
      let variant : DataValue V → ℕ = λ v. x.calc_size v.value in
      let value : DataValue V → ℕ = data_value_calc_size x in
      data_set_header_calc_size h
      + (if h.message_type == data_key_frame
          then fields_calc_size h.field_encoding variant value m.key_frame
          else if h.message_type == data_delta_frame
          then fields_calc_size h.field_encoding (indexed_calc_size variant)
              (indexed_calc_size value) m.delta_frame
          else 0)
