-- ===== src/Codec/DataValues/RoundTrip.antt =====
-- DataValues are read back as they were written.
use opcua_tsn_lo_i.Base.{
  ℕ, ◌+◌, ◌*◌, ◌^◌, ◌≤◌, ◌<◌, ◌≡◌, refl, false, List, [], ◌∷◌, ◌++◌, arith, ltb, if◌then◌else◌,
  length, drop, length-append, append_assoc, ◌∙◌,
}
use opcua_tsn_lo_i.Base.Bits.{
  is_set, bit, bit-le, or_flag-sum, is_set-sum, IsFlag-1, IsFlag-2, IsFlag-4, IsFlag-8, IsFlag-16,
  IsFlag-32,
}
use opcua_tsn_lo_i.Codec.{
  good, encode16, encode32, encode64, uint16_decode, uint32_decode, uint64_decode,
}
use opcua_tsn_lo_i.Codec.Words.{
  byte_decode-cons, uint16_decode-encode16, uint32_decode-encode32, uint64_decode-encode64,
}
use opcua_tsn_lo_i.Codec.Output.{
  length-if, uint32_exchange-Encodes, uint64_exchange-Encodes, uint16_exchange-Encodes, Encodes,
  Codes, decode_if-decodes, and_then-Encodes, or_also-Encodes, if-Encodes, skip-Encodes,
  byte_encode-Encodes,
}
use opcua_tsn_lo_i.Codec.DataValues.{
  VariantCodec, DataValue, max_recursion, max_picoseconds, data_value_mask, data_value_encode,
  data_value_content, data_value_decode, data_value_calc_size,
}

module _ {V : Type 0} (x : VariantCodec V) where
  mask_sum : DataValue V → ℕ
  mask_sum v =
      bit v.has_value
      + 2 * bit v.has_status
      + 4 * bit v.has_source_timestamp
      + 8 * bit v.has_server_timestamp
      + 16 * bit v.has_source_picoseconds
      + 32 * bit v.has_server_picoseconds

  mask-sum : (v : DataValue V) → data_value_mask v ≡ mask_sum v
  unfolding data_value_mask mask_sum
  mask-sum v =
      let a = bit-le v.has_value in
      let b = bit-le v.has_status in
      let c = bit-le v.has_source_timestamp in
      let d = bit-le v.has_server_timestamp in
      let e = bit-le v.has_source_picoseconds in
      let s1 = or_flag-sum 1 0 0 v.has_value IsFlag-1 refl (omega arith) (omega arith) in
      let s2 = or_flag-sum 2 _ _ v.has_status IsFlag-2 s1 (omega arith) (omega arith) in
      let s3 = or_flag-sum 4 _ _ v.has_source_timestamp IsFlag-4 s2 (omega arith) (omega arith) in
      let s4 = or_flag-sum 8 _ _ v.has_server_timestamp IsFlag-8 s3 (omega arith) (omega arith) in
      let s5 =
        or_flag-sum 16 _ _ v.has_source_picoseconds IsFlag-16 s4 (omega arith) (omega arith) in
      or_flag-sum 32 _ _ v.has_server_picoseconds IsFlag-32 s5 (omega arith) (omega arith)
      ∙ omega arith

  pub record IsDataValue (depth : ℕ) (v : DataValue V) : Type 0 where
    pub depth_fits : depth ≤ max_recursion
    pub value_coded : x.IsCoded (depth + 1) v.value
    pub status_fits : v.status < 2 ^ 32
    pub source_fits : v.source_timestamp < 2 ^ 64
    pub source_pico_fits : v.source_picoseconds ≤ max_picoseconds
    pub server_fits : v.server_timestamp < 2 ^ 64
    pub server_pico_fits : v.server_picoseconds ≤ max_picoseconds
    pub no_value : v.has_value ≡ false → v.value ≡ x.empty
    pub no_status : v.has_status ≡ false → v.status ≡ 0
    pub no_source : v.has_source_timestamp ≡ false → v.source_timestamp ≡ 0
    pub no_source_pico : v.has_source_picoseconds ≡ false → v.source_picoseconds ≡ 0
    pub no_server : v.has_server_timestamp ≡ false → v.server_timestamp ≡ 0
    pub no_server_pico : v.has_server_picoseconds ≡ false → v.server_picoseconds ≡ 0

  module _ (depth : ℕ) (v : DataValue V) (ok : IsDataValue depth v) where
    value_code : Codes (x.encode v.value) (x.decode (depth + 1)) v.value (x.calc_size v.value)
    value_code = x.codes (depth + 1) v.value ok.value_coded

    data_value_bytes : List ℕ
    data_value_bytes =
        data_value_mask v
        ∷ ((if v.has_value then value_code.bytes else [])
            ++ (((((if v.has_status then encode32 v.status else [])
                      ++ (if v.has_source_timestamp then encode64 v.source_timestamp else []))
                    ++ (if v.has_source_picoseconds then encode16 v.source_picoseconds else []))
                  ++ (if v.has_server_timestamp then encode64 v.server_timestamp else []))
                ++ (if v.has_server_picoseconds then encode16 v.server_picoseconds else [])))

    data_value-Encodes : Encodes (data_value_encode x v) data_value_bytes
    unfolding data_value_encode data_value_bytes
    data_value-Encodes = and_then-Encodes (byte_encode-Encodes (data_value_mask v)) (
        and_then-Encodes (if-Encodes v.has_value value_code.encodes skip-Encodes) (
          or_also-Encodes
            (or_also-Encodes
              (or_also-Encodes
                (or_also-Encodes
                  (if-Encodes v.has_status (uint32_exchange-Encodes v.status) skip-Encodes)
                  (if-Encodes v.has_source_timestamp (uint64_exchange-Encodes v.source_timestamp)
                    skip-Encodes))
                (if-Encodes v.has_source_picoseconds (uint16_exchange-Encodes v.source_picoseconds)
                  skip-Encodes))
              (if-Encodes v.has_server_timestamp (uint64_exchange-Encodes v.server_timestamp)
                skip-Encodes))
            (if-Encodes v.has_server_picoseconds (uint16_exchange-Encodes v.server_picoseconds)
              skip-Encodes)))

    flags_read :
        let m = data_value_mask v in
        (is_set m 1 ≡ v.has_value)
        × (is_set m 2 ≡ v.has_status)
        × (is_set m 4 ≡ v.has_source_timestamp)
        × (is_set m 8 ≡ v.has_server_timestamp)
        × (is_set m 16 ≡ v.has_source_picoseconds)
        × (is_set m 32 ≡ v.has_server_picoseconds)
    unfolding mask_sum
    flags_read =
        let a = bit-le v.has_value in
        let b = bit-le v.has_status in
        let c = bit-le v.has_source_timestamp in
        let d = bit-le v.has_server_timestamp in
        let e = bit-le v.has_source_picoseconds in
        let f = bit-le v.has_server_picoseconds in
        let s = mask-sum v in
        (
          is_set-sum 1 _ _ v.has_value IsFlag-1 s (omega arith) (omega arith),
          is_set-sum 2 _ _ v.has_status IsFlag-2 s (omega arith) (omega arith),
          is_set-sum 4 _ _ v.has_source_timestamp IsFlag-4 s (omega arith) (omega arith),
          is_set-sum 8 _ _ v.has_server_timestamp IsFlag-8 s (omega arith) (omega arith),
          is_set-sum 16 _ _ v.has_source_picoseconds IsFlag-16 s (omega arith) (omega arith),
          is_set-sum 32 _ _ v.has_server_picoseconds IsFlag-32 s (omega arith) (omega arith),
        )

    content_decodes :
        (rest : List ℕ)
        → data_value_content x depth (data_value_mask v) (drop 1 data_value_bytes ++ rest)
          ≡ (good, v, rest)
    unfolding data_value_content data_value_bytes
    content_decodes rest =
        let (f1, f2, f3, f4, f5, f6) = flags_read in
        simp append_assoc (
          rw
            (
              f1,
              f2,
              f3,
              f4,
              f5,
              f6,
              decode_if-decodes v.has_value x.empty (x.decode (depth + 1)) v.value value_code.bytes
                  _ (λ h. value_code.decodes _) ok.no_value,
              decode_if-decodes v.has_status 0 uint32_decode v.status (encode32 v.status) _
                  (λ h. uint32_decode-encode32 v.status _ ok.status_fits) ok.no_status,
              decode_if-decodes v.has_source_timestamp 0 uint64_decode v.source_timestamp
                  (encode64 v.source_timestamp) _
                  (λ h. uint64_decode-encode64 v.source_timestamp _ ok.source_fits) ok.no_source,
              decode_if-decodes v.has_source_picoseconds 0 uint16_decode v.source_picoseconds
                  (encode16 v.source_picoseconds) _
                  (λ h.
                    uint16_decode-encode16 v.source_picoseconds _
                      (omega (arith, ok.source_pico_fits)))
                  ok.no_source_pico,
              decode_if-decodes v.has_server_timestamp 0 uint64_decode v.server_timestamp
                  (encode64 v.server_timestamp) _
                  (λ h. uint64_decode-encode64 v.server_timestamp _ ok.server_fits) ok.no_server,
              decode_if-decodes v.has_server_picoseconds 0 uint16_decode v.server_picoseconds
                  (encode16 v.server_picoseconds) rest
                  (λ h.
                    uint16_decode-encode16 v.server_picoseconds _
                      (omega (arith, ok.server_pico_fits)))
                  ok.no_server_pico,
            )
            (ground (arith, ok.source_pico_fits, ok.server_pico_fits)))

    data_value_decodes :
        (rest : List ℕ) → data_value_decode x depth (data_value_bytes ++ rest) ≡ (good, v, rest)
    unfolding data_value_decode data_value_bytes
    data_value_decodes rest =
        let shallow : ltb max_recursion depth ≡ false = ground (arith, ok.depth_fits) in
        rw (byte_decode-cons (data_value_mask v) _, shallow) (content_decodes rest)

    length-data_value_bytes : length data_value_bytes ≡ data_value_calc_size x v
    unfolding data_value_bytes data_value_calc_size encode16 encode32 encode64
    length-data_value_bytes = simp (length-append, length-if, value_code.sized) (omega arith)

  -- A DataValue is read back as it was written, if its parts fit, its picoseconds are at most 9999,
  -- the parts that its flags leave out hold their initial values, and it does not lie deeper than
  -- the limit on recursion. The size that is computed beforehand is right. Of the coding of the
  -- Variant inside it uses only that this one keeps the same contract.
  pub data_value-Codes :
      (depth : ℕ) (v : DataValue V)
      → IsDataValue depth v
      → Codes (data_value_encode x v) (data_value_decode x depth) v (data_value_calc_size x v)
  data_value-Codes depth v ok = record {
    bytes = data_value_bytes depth v ok;
    encodes = data_value-Encodes depth v ok;
    decodes = λ rest. data_value_decodes depth v ok rest;
    sized = length-data_value_bytes depth v ok;
  }
