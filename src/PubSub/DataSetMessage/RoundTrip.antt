-- ===== src/PubSub/DataSetMessage/RoundTrip.antt =====
-- DataSetMessages are read back as they were written.
use opcua_tsn_lo_i.PubSub.DataSetMessage.Fields.{fields_variant-Codes, fields_value-Codes, All-map}
use opcua_tsn_lo_i.PubSub.{write_uint16, sizeof_variant, sizeof_data_value}
use opcua_tsn_lo_i.Base.{
  ℕ, ◌^◌, ◌<◌, ◌≡◌, refl, sym, ap, ◌∙◌, true, false, [], ◌++◌, All, arith, ◌==◌, length,
  length-append, append_assoc,
}
use opcua_tsn_lo_i.Codec.{good, Encoder, Decoder, and_then, encode16}
use opcua_tsn_lo_i.Codec.Words.{uint16_decode-encode16}
use opcua_tsn_lo_i.Codec.Output.{Codes, and_then-Encodes, skip-Encodes}
use opcua_tsn_lo_i.Codec.DataValues.{VariantCodec, DataValue, data_value_init, data_value_calc_size}
use opcua_tsn_lo_i.Codec.DataValues.RoundTrip.{IsDataValue, data_value-Codes}
use opcua_tsn_lo_i.PubSub.Reading.{write_uint16-Encodes, decode_binary-Codes}
use opcua_tsn_lo_i.PubSub.DataSetHeader.{
  data_set_header_encode, data_set_header_decode, data_set_header_calc_size,
}
use opcua_tsn_lo_i.PubSub.DataSetHeader.RoundTrip.{IsHeader, data_set_header-Codes}
use opcua_tsn_lo_i.PubSub.DataSetMessage.{
  variant_encode, value_encode, DeltaFrameField, DataSetMessage, fields_encode, fields_decode,
  fields_calc_size, indexed_encode, variant_decode, value_decode, indexed_decode, indexed_calc_size,
  data_set_message_encode, data_set_message_decode, data_set_message_calc_size,
}

module _ {V : Type 0} (x : VariantCodec V) where
  -- A field that is sent as a Variant has a value and nothing else.
  abbrev pub IsVariantField : DataValue V → Type 0
  IsVariantField f =
      x.IsCoded 1 f.value × (f ≡ record (data_value_init x) { value = f.value; has_value = true })

  abbrev pub IsIndexed : (DataValue V → Type 0) → DeltaFrameField V → Type 0
  IsIndexed P f = (f.field_index < 2 ^ 16) × P f.field_value

  -- The kinds of messages that can be sent: a key frame or a delta frame with fields as Variants
  -- or as DataValues, and the message without fields that keeps the connection alive.
  pub data Sendable (m : DataSetMessage V) : Type 0 where
    key_variants :
        m.header.message_type ≡ 0
        → m.header.field_encoding ≡ 0
        → m.delta_frame ≡ []
        → length m.key_frame < 2 ^ 16
        → All IsVariantField m.key_frame
        → Sendable m
    key_values :
        m.header.message_type ≡ 0
        → m.header.field_encoding ≡ 2
        → m.delta_frame ≡ []
        → length m.key_frame < 2 ^ 16
        → All (IsDataValue x 1) m.key_frame
        → Sendable m
    delta_variants :
        m.header.message_type ≡ 1
        → m.header.field_encoding ≡ 0
        → m.key_frame ≡ []
        → length m.delta_frame < 2 ^ 16
        → All (IsIndexed IsVariantField) m.delta_frame
        → Sendable m
    delta_values :
        m.header.message_type ≡ 1
        → m.header.field_encoding ≡ 2
        → m.key_frame ≡ []
        → length m.delta_frame < 2 ^ 16
        → All (IsIndexed (IsDataValue x 1)) m.delta_frame
        → Sendable m
    alive : m.header.message_type ≡ 3 → m.key_frame ≡ [] → m.delta_frame ≡ [] → Sendable m

  variant-Codes :
      (f : DataValue V)
      → IsVariantField f
      → Codes (variant_encode x f) (variant_decode x) f (x.calc_size f.value)
  unfolding variant_encode variant_decode
  variant-Codes f (k, e) =
      let c = decode_binary-Codes sizeof_variant x.empty _ _ f.value _ (x.codes 1 f.value k) in
      record {
        bytes = c.bytes;
        encodes = c.encodes;
        decodes = λ rest. rw c.decodes (ap (λ v. (good, v, rest)) (sym e));
        sized = c.sized;
      }

  value-Codes :
      (f : DataValue V)
      → IsDataValue x 1 f
      → Codes (value_encode x f) (value_decode x) f (data_value_calc_size x f)
  unfolding value_encode value_decode
  value-Codes f k = decode_binary-Codes sizeof_data_value _ _ _ f _ (data_value-Codes x 1 f k)

  indexed-Codes :
      (g : DataValue V → Encoder) (d : Decoder (DataValue V)) (s : DataValue V → ℕ)
      (f : DeltaFrameField V)
      → f.field_index < 2 ^ 16
      → Codes (g f.field_value) d f.field_value (s f.field_value)
      → Codes (indexed_encode x g f) (indexed_decode x d) f (indexed_calc_size x s f)
  unfolding indexed_encode indexed_decode indexed_calc_size
  indexed-Codes g d s f h c = record {
    bytes = encode16 f.field_index ++ c.bytes;
    encodes = and_then-Encodes (write_uint16-Encodes f.field_index) c.encodes;
    decodes = λ rest. rw (append_assoc, uint16_decode-encode16 f.field_index _ h, c.decodes) refl;
    sized = unfold encode16 in omega (arith, c.sized);
  }

  module _ (m : DataSetMessage V) (ok : IsHeader m.header) where
    header_code :
        Codes
          (data_set_header_encode m.header)
          data_set_header_decode
          m.header
          (data_set_header_calc_size m.header)
    header_code = data_set_header-Codes m.header ok

    abbrev Whole : Type 0
    Whole =
        Codes (data_set_message_encode x m) (data_set_message_decode x) m
          (data_set_message_calc_size x m)

    key_frame-Codes :
        (encoding : ℕ)
        → m.header.message_type ≡ 0
        → m.header.field_encoding ≡ encoding
        → encoding == 1 ≡ false
        → m.delta_frame ≡ []
        → Codes
            (and_then
              (write_uint16 (length m.key_frame))
              (fields_encode encoding (variant_encode x) (value_encode x) m.key_frame))
            (fields_decode encoding (variant_decode x) (value_decode x))
            m.key_frame
            (fields_calc_size encoding
              (λ v. x.calc_size v.value)
              (data_value_calc_size x)
              m.key_frame)
        → Whole
    unfolding data_set_message_encode data_set_message_decode data_set_message_calc_size
    key_frame-Codes encoding t f r e c = record {
      bytes = header_code.bytes ++ c.bytes;
      encodes = simp (t, f, r) (and_then-Encodes header_code.encodes c.encodes);
      decodes = λ rest.
          simp (append_assoc, header_code.decodes, t, f, c.decodes)
            (ap (λ l. (good, record m { delta_frame = l }, rest)) (sym e));
      sized =
          simp (t, f)
            (omega (arith, length-append header_code.bytes c.bytes, header_code.sized, c.sized));
    }

    delta_frame-Codes :
        (encoding : ℕ)
        → m.header.message_type ≡ 1
        → m.header.field_encoding ≡ encoding
        → m.key_frame ≡ []
        → Codes
            (and_then (write_uint16 (length m.delta_frame)) (
              fields_encode encoding
                (indexed_encode x (variant_encode x))
                (indexed_encode x (value_encode x))
                m.delta_frame))
            (fields_decode encoding
              (indexed_decode x (variant_decode x))
              (indexed_decode x (value_decode x)))
            m.delta_frame
            (fields_calc_size encoding
              (indexed_calc_size x (λ v. x.calc_size v.value))
              (indexed_calc_size x (data_value_calc_size x))
              m.delta_frame)
        → Whole
    unfolding data_set_message_encode data_set_message_decode data_set_message_calc_size
    delta_frame-Codes encoding t f e c = record {
      bytes = header_code.bytes ++ c.bytes;
      encodes = simp (t, f) (and_then-Encodes header_code.encodes c.encodes);
      decodes = λ rest.
          simp (append_assoc, header_code.decodes, t, f, c.decodes)
            (ap (λ l. (good, record m { key_frame = l }, rest)) (sym e));
      sized =
          simp (t, f)
            (omega (arith, length-append header_code.bytes c.bytes, header_code.sized, c.sized));
    }

    keep_alive-Codes : m.header.message_type ≡ 3 → m.key_frame ≡ [] → m.delta_frame ≡ [] → Whole
    unfolding data_set_message_encode data_set_message_decode data_set_message_calc_size
    keep_alive-Codes t k e = record {
      bytes = header_code.bytes ++ [];
      encodes = simp t (and_then-Encodes header_code.encodes skip-Encodes);
      decodes = λ rest.
          simp (append_assoc, header_code.decodes, t)
            (ap (λ l. (good, record m { key_frame = l; delta_frame = [] }, rest)) (sym k)
              ∙ ap (λ l. (good, record m { delta_frame = l }, rest)) (sym e));
      sized = simp t (omega (arith, length-append header_code.bytes [], header_code.sized));
    }

  -- A DataSetMessage of a kind that can be sent is read back as it was written, with its header,
  -- and its fields in order; the size that is computed beforehand is right. Of the coding of
  -- the Variants inside it uses only that this one keeps the same contract.
  pub data_set_message-Codes :
      (m : DataSetMessage V)
      → IsHeader m.header
      → Sendable m
      → Codes
          (data_set_message_encode x m)
          (data_set_message_decode x)
          m
          (data_set_message_calc_size x m)
  data_set_message-Codes m ok (key_variants t f e n h) =
      key_frame-Codes m ok 0 t f refl e
        (fields_variant-Codes _ _ _ _ _ _ m.key_frame n (All-map _ _ variant-Codes m.key_frame h))
  data_set_message-Codes m ok (key_values t f e n h) =
      key_frame-Codes m ok 2 t f refl e
        (fields_value-Codes _ _ _ _ _ _ m.key_frame n (All-map _ _ value-Codes m.key_frame h))
  data_set_message-Codes m ok (delta_variants t f e n h) = delta_frame-Codes m ok 0 t f e (
      fields_variant-Codes _ _ _ _ _ _ m.delta_frame n (
        All-map _ _ (λ g k. indexed-Codes _ _ _ g k.0 (variant-Codes g.field_value k.1))
          m.delta_frame h))
  data_set_message-Codes m ok (delta_values t f e n h) = delta_frame-Codes m ok 2 t f e (
      fields_value-Codes _ _ _ _ _ _ m.delta_frame n (
        All-map _ _ (λ g k. indexed-Codes _ _ _ g k.0 (value-Codes g.field_value k.1)) m.delta_frame
          h))
  data_set_message-Codes m ok (alive t k e) = keep_alive-Codes m ok t k e
