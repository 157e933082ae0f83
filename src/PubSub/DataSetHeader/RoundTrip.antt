-- ===== src/PubSub/DataSetHeader/RoundTrip.antt =====
-- The header of a DataSetMessage is read back as it was written.
use opcua_tsn_lo_i.Base.{
  ℕ, ◌+◌, ◌*◌, ◌/◌, ◌%◌, ◌^◌, ◌<◌, ◌≡◌, refl, Bool, true, false, List, [], ◌∷◌, ◌++◌, if◌then◌else◌,
  arith, length, length-append,
}
use opcua_tsn_lo_i.Base.Bits.{
  is_set, bit, bit-le, or_flag-sum, is_set-sum, bit_and-sum, IsFlag-1, IsFlag-8, IsFlag-16,
  IsFlag-32, IsFlag-64, IsFlag-128, IsMask-6, IsMask-15,
}
use opcua_tsn_lo_i.Codec.{
  good, encode16, encode32, encode64, uint16_decode, uint32_decode, uint64_decode,
}
use opcua_tsn_lo_i.Codec.Words.{
  byte_decode-cons, uint16_decode-encode16, uint32_decode-encode32, uint64_decode-encode64,
}
use opcua_tsn_lo_i.Codec.Output.{
  Encodes, Codes, length-if, and_then-Encodes, if-Encodes, skip-Encodes,
}
use opcua_tsn_lo_i.PubSub.Reading.{
  write_byte-Encodes, write_uint16-Encodes, write_uint32-Encodes, write_uint64-Encodes, Reads,
  and_read-Reads, read_if-Reads,
}
use opcua_tsn_lo_i.PubSub.DataSetHeader.{
  DataSetMessageHeader, flags2_enabled, data_set_flags1, data_set_flags2, data_set_header_encode,
  empty_header, put_flags1, put_flags2, read_flags2, read_members, data_set_header_decode,
  data_set_header_calc_size,
}

-- The enumerations fit into their bits, the numbers into their words, and a member that is not
-- enabled is 0.
pub record IsHeader (h : DataSetMessageHeader) : Type 0 where
  pub field_encoding_fits : h.field_encoding < 4
  pub message_type_fits : h.message_type < 16
  pub sequence_nr_fits : h.sequence_nr < 2 ^ 16
  pub timestamp_fits : h.timestamp < 2 ^ 64
  pub picoseconds_fits : h.picoseconds < 2 ^ 16
  pub status_fits : h.status < 2 ^ 16
  pub major_version_fits : h.major_version < 2 ^ 32
  pub minor_version_fits : h.minor_version < 2 ^ 32
  pub no_sequence_nr : h.sequence_nr_enabled ≡ false → h.sequence_nr ≡ 0
  pub no_timestamp : h.timestamp_enabled ≡ false → h.timestamp ≡ 0
  pub no_picoseconds : h.picoseconds_included ≡ false → h.picoseconds ≡ 0
  pub no_status : h.status_enabled ≡ false → h.status ≡ 0
  pub no_major_version : h.major_version_enabled ≡ false → h.major_version ≡ 0
  pub no_minor_version : h.minor_version_enabled ≡ false → h.minor_version ≡ 0

module _ (h : DataSetMessageHeader) (ok : IsHeader h) where
  flags1_sum : ℕ
  flags1_sum =
      2 * h.field_encoding
      + 1 * bit h.valid
      + 8 * bit h.sequence_nr_enabled
      + 16 * bit h.status_enabled
      + 32 * bit h.major_version_enabled
      + 64 * bit h.minor_version_enabled
      + 128 * bit (flags2_enabled h)

  flags1-sum : data_set_flags1 h ≡ flags1_sum
  unfolding data_set_flags1 flags1_sum
  flags1-sum =
      let f = ok.field_encoding_fits in
      let a = bit-le h.valid in
      let b = bit-le h.sequence_nr_enabled in
      let c = bit-le h.status_enabled in
      let d = bit-le h.major_version_enabled in
      let e = bit-le h.minor_version_enabled in
      let s0 : h.field_encoding * 2 % 256 ≡ 2 * h.field_encoding = omega arith in
      let s1 = or_flag-sum 1 _ _ h.valid IsFlag-1 s0 (omega arith) (omega arith) in
      let s2 = or_flag-sum 8 _ _ h.sequence_nr_enabled IsFlag-8 s1 (omega arith) (omega arith) in
      let s3 = or_flag-sum 16 _ _ h.status_enabled IsFlag-16 s2 (omega arith) (omega arith) in
      let s4 =
        or_flag-sum 32 _ _ h.major_version_enabled IsFlag-32 s3 (omega arith) (omega arith) in
      let s5 =
        or_flag-sum 64 _ _ h.minor_version_enabled IsFlag-64 s4 (omega arith) (omega arith) in
      or_flag-sum 128 _ _ (flags2_enabled h) IsFlag-128 s5 (omega arith) (omega arith)

  flags2-sum :
      data_set_flags2 h
      ≡ h.message_type + 16 * bit h.timestamp_enabled + 32 * bit h.picoseconds_included
  unfolding data_set_flags2
  flags2-sum =
      let f = ok.message_type_fits in
      let a = bit-le h.timestamp_enabled in
      let s0 : h.message_type % 256 ≡ h.message_type = omega arith in
      let s1 = or_flag-sum 16 _ _ h.timestamp_enabled IsFlag-16 s0 (omega arith) (omega arith) in
      or_flag-sum 32 _ _ h.picoseconds_included IsFlag-32 s1 (omega arith) (omega arith)

  -- What the first byte of flags leaves to be read.
  after_flags1 : DataSetMessageHeader
  after_flags1 = record empty_header {
    field_encoding = h.field_encoding;
    valid = h.valid;
    sequence_nr_enabled = h.sequence_nr_enabled;
    status_enabled = h.status_enabled;
    major_version_enabled = h.major_version_enabled;
    minor_version_enabled = h.minor_version_enabled;
  }

  flags1_read :
      (put_flags1 empty_header (data_set_flags1 h) ≡ after_flags1)
      × (is_set (data_set_flags1 h) 128 ≡ flags2_enabled h)
  unfolding put_flags1 after_flags1 flags1_sum
  flags1_read =
      let f = ok.field_encoding_fits in
      let a = bit-le h.valid in
      let b = bit-le h.sequence_nr_enabled in
      let c = bit-le h.status_enabled in
      let d = bit-le h.major_version_enabled in
      let e = bit-le h.minor_version_enabled in
      let g = bit-le (flags2_enabled h) in
      let s = flags1-sum in
      let m = bit_and-sum 6 2 4 _ _ h.field_encoding IsMask-6 s (omega arith) (omega arith) in
      let f1 = is_set-sum 1 _ _ h.valid IsFlag-1 s (omega arith) (omega arith) in
      let f2 = is_set-sum 8 _ _ h.sequence_nr_enabled IsFlag-8 s (omega arith) (omega arith) in
      let f3 = is_set-sum 16 _ _ h.status_enabled IsFlag-16 s (omega arith) (omega arith) in
      let f4 = is_set-sum 32 _ _ h.major_version_enabled IsFlag-32 s (omega arith) (omega arith) in
      let f5 = is_set-sum 64 _ _ h.minor_version_enabled IsFlag-64 s (omega arith) (omega arith) in
      let half : h.field_encoding * 2 / 2 ≡ h.field_encoding = omega arith in
      (
        rw (f1, f2, f3, f4, f5, m, half) refl,
        is_set-sum 128 _ _ (flags2_enabled h) IsFlag-128 s (omega arith) (omega arith),
      )

  after_flags2 : DataSetMessageHeader
  unfolding after_flags1
  after_flags2 = record after_flags1 {
    message_type = h.message_type;
    timestamp_enabled = h.timestamp_enabled;
    picoseconds_included = h.picoseconds_included;
  }

  flags2_read : put_flags2 after_flags1 (data_set_flags2 h) ≡ after_flags2
  unfolding put_flags2 after_flags2
  flags2_read =
      let f = ok.message_type_fits in
      let a = bit-le h.timestamp_enabled in
      let b = bit-le h.picoseconds_included in
      let s = flags2-sum in
      let m = bit_and-sum 15 1 16 _ _ h.message_type IsMask-15 s (omega arith) (omega arith) in
      let f1 = is_set-sum 16 _ _ h.timestamp_enabled IsFlag-16 s (omega arith) (omega arith) in
      let f2 = is_set-sum 32 _ _ h.picoseconds_included IsFlag-32 s (omega arith) (omega arith) in
      let one : h.message_type * 1 ≡ h.message_type = omega arith in rw (f1, f2, m, one) refl

  no_flags2 :
      flags2_enabled h ≡ false
      → (h.message_type ≡ 0) × (h.timestamp_enabled ≡ false) × (h.picoseconds_included ≡ false)
  unfolding flags2_enabled
  no_flags2 e = (ground arith, ground arith, ground arith)

  flags2-Reads :
      (b : Bool)
      → flags2_enabled h ≡ b
      → Reads (read_flags2 b) after_flags1 (if b then data_set_flags2 h ∷ [] else []) after_flags2
  unfolding read_flags2 after_flags1 after_flags2
  flags2-Reads true e = record { reads = λ rest. rw (byte_decode-cons, flags2_read) }
  flags2-Reads false e = record { reads = λ rest. let (t, u, v) = no_flags2 e in rw (t, u, v) refl }

  member_bytes : List ℕ
  member_bytes =
      (if h.sequence_nr_enabled then encode16 h.sequence_nr else [])
      ++ ((if h.timestamp_enabled then encode64 h.timestamp else [])
          ++ ((if h.picoseconds_included then encode16 h.picoseconds else [])
              ++ ((if h.status_enabled then encode16 h.status else [])
                  ++ ((if h.major_version_enabled then encode32 h.major_version else [])
                      ++ (if h.minor_version_enabled then encode32 h.minor_version else [])))))

  members-Reads : Reads read_members after_flags2 member_bytes h
  unfolding read_members after_flags2 after_flags1 member_bytes
  members-Reads =
      and_read-Reads _ _ _ _ _ _ _
        (read_if-Reads _ 0 uint16_decode _ _ h.sequence_nr_enabled h.sequence_nr _ refl
          (λ rest. uint16_decode-encode16 h.sequence_nr rest ok.sequence_nr_fits) ok.no_sequence_nr)
        (and_read-Reads _ _ _ _ _ _ _
          (read_if-Reads _ 0 uint64_decode _ _ h.timestamp_enabled h.timestamp _ refl
            (λ rest. uint64_decode-encode64 h.timestamp rest ok.timestamp_fits) ok.no_timestamp)
          (and_read-Reads _ _ _ _ _ _ _
            (read_if-Reads _ 0 uint16_decode _ _ h.picoseconds_included h.picoseconds _ refl
              (λ rest. uint16_decode-encode16 h.picoseconds rest ok.picoseconds_fits)
              ok.no_picoseconds)
            (and_read-Reads _ _ _ _ _ _ _
              (read_if-Reads _ 0 uint16_decode _ _ h.status_enabled h.status _ refl
                (λ rest. uint16_decode-encode16 h.status rest ok.status_fits) ok.no_status)
              (and_read-Reads _ _ _ _ _ _ _
                (read_if-Reads _ 0 uint32_decode _ _ h.major_version_enabled h.major_version _ refl
                  (λ rest. uint32_decode-encode32 h.major_version rest ok.major_version_fits)
                  ok.no_major_version)
                (read_if-Reads _ 0 uint32_decode _ _ h.minor_version_enabled h.minor_version _ refl
                  (λ rest. uint32_decode-encode32 h.minor_version rest ok.minor_version_fits)
                  ok.no_minor_version)))))

  header_bytes : List ℕ
  header_bytes =
      data_set_flags1 h
      ∷ ((if flags2_enabled h then data_set_flags2 h ∷ [] else []) ++ member_bytes)

  header_decodes : (rest : List ℕ) → data_set_header_decode (header_bytes ++ rest) ≡ (good, h, rest)
  unfolding data_set_header_decode header_bytes
  header_decodes rest =
      let (f1, f2) = flags1_read in
      rw (byte_decode-cons, f1, f2)
        ((and_read-Reads _ _ _ _ _ _ _ (flags2-Reads (flags2_enabled h) refl) members-Reads).reads
          rest)

  header-Encodes : Encodes (data_set_header_encode h) header_bytes
  unfolding data_set_header_encode header_bytes member_bytes
  header-Encodes = and_then-Encodes (write_byte-Encodes (data_set_flags1 h)) (
      and_then-Encodes
        (if-Encodes (flags2_enabled h) (write_byte-Encodes (data_set_flags2 h)) skip-Encodes)
        (and_then-Encodes
          (if-Encodes h.sequence_nr_enabled (write_uint16-Encodes h.sequence_nr) skip-Encodes)
          (and_then-Encodes
            (if-Encodes h.timestamp_enabled (write_uint64-Encodes h.timestamp) skip-Encodes)
            (and_then-Encodes
              (if-Encodes h.picoseconds_included (write_uint16-Encodes h.picoseconds) skip-Encodes)
              (and_then-Encodes
                (if-Encodes h.status_enabled (write_uint16-Encodes h.status) skip-Encodes)
                (and_then-Encodes
                  (if-Encodes h.major_version_enabled (write_uint32-Encodes h.major_version)
                    skip-Encodes)
                  (if-Encodes h.minor_version_enabled (write_uint32-Encodes h.minor_version)
                    skip-Encodes)))))))

  length-header_bytes : length header_bytes ≡ data_set_header_calc_size h
  unfolding header_bytes member_bytes data_set_header_calc_size encode16 encode32 encode64
  length-header_bytes = simp (length-append, length-if) (omega arith)

-- The header of a DataSetMessage is read back as it was written, if its enumerations are in range,
-- its numbers fit their words, and the members whose flags are not set are 0. DataSetFlags2 are
-- there only if they say something. The size that is computed beforehand is right.
pub data_set_header-Codes :
    (h : DataSetMessageHeader)
    → IsHeader h
    → Codes (data_set_header_encode h) data_set_header_decode h (data_set_header_calc_size h)
data_set_header-Codes h ok = record {
  bytes = header_bytes h ok;
  encodes = header-Encodes h ok;
  decodes = λ rest. header_decodes h ok rest;
  sized = length-header_bytes h ok;
}
