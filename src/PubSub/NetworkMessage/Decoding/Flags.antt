-- ===== src/PubSub/NetworkMessage/Decoding/Flags.antt =====
-- The flags of a network message are read back as they were written.
use opcua_tsn_lo_i.Base.{
  ℕ, ◌*◌, ◌/◌, ◌%◌, ◌<◌, ◌≡◌, refl, Bool, true, false, List, [], ◌∷◌, ◌++◌, if◌then◌else◌, arith,
  length,
}
use opcua_tsn_lo_i.Base.Bits.{
  is_set, bit-le, or_flag-sum, is_set-sum, bit_and-sum, IsFlag-1, IsFlag-2, IsFlag-8, IsFlag-16,
  IsFlag-32, IsFlag-64, IsFlag-128, IsMask-7, IsMask-15, IsMask-28,
}
use opcua_tsn_lo_i.Codec.{good}
use opcua_tsn_lo_i.Codec.Words.{byte_decode-cons}
use opcua_tsn_lo_i.Codec.Output.{Encodes, Codes, and_then-Encodes, if-Encodes, skip-Encodes}
use opcua_tsn_lo_i.PubSub.Reading.{Reads, write_byte-Encodes}
use opcua_tsn_lo_i.PubSub.PublisherId.{publisher_id_type}
use opcua_tsn_lo_i.PubSub.NetworkMessage.{
  NetworkMessage, extended_flags1_enabled, extended_flags2_enabled, uadp_flags, extended_flags1,
  extended_flags2, flags_encode, flags_calc_size,
}
use opcua_tsn_lo_i.PubSub.NetworkMessage.Decoding.{
  empty_id, empty_message, put_uadp_flags, put_extended_flags1, put_extended_flags2,
  read_extended_flags1, read_extended_flags2, flags_decode,
}

module _ {V : Type 0} (m : NetworkMessage V) where
  -- A message that has only the flags of `m`.
  pub flags_of : NetworkMessage V
  flags_of = record empty_message {
    version = m.version;
    publisher_id_enabled = m.publisher_id_enabled;
    group_header_enabled = m.group_header_enabled;
    payload_header_enabled = m.payload_header_enabled;
    publisher_id = empty_id (publisher_id_type m.publisher_id);
    class_id_enabled = m.class_id_enabled;
    security_enabled = m.security_enabled;
    timestamp_enabled = m.timestamp_enabled;
    picoseconds_enabled = m.picoseconds_enabled;
    chunk_message = m.chunk_message;
    promoted_fields_enabled = m.promoted_fields_enabled;
    message_type = m.message_type;
  }

  after_uadp : NetworkMessage V
  after_uadp = record empty_message {
    version = m.version;
    publisher_id_enabled = m.publisher_id_enabled;
    group_header_enabled = m.group_header_enabled;
    payload_header_enabled = m.payload_header_enabled;
  }

  after_extended1 : NetworkMessage V
  unfolding after_uadp
  after_extended1 = record after_uadp {
    publisher_id = empty_id (publisher_id_type m.publisher_id);
    class_id_enabled = m.class_id_enabled;
    security_enabled = m.security_enabled;
    timestamp_enabled = m.timestamp_enabled;
    picoseconds_enabled = m.picoseconds_enabled;
  }

  pub record IsFlags : Type 0 where
    pub version_fits : m.version < 16
    pub id_type_fits : publisher_id_type m.publisher_id < 8
    pub message_type_fits : m.message_type < 8

  module _ (ok : IsFlags) where
    uadp_read :
        (put_uadp_flags empty_message (uadp_flags m) ≡ after_uadp)
        × (is_set (uadp_flags m) 128 ≡ extended_flags1_enabled m)
    unfolding uadp_flags put_uadp_flags after_uadp
    uadp_read =
        let v = ok.version_fits in
        let a = bit-le m.publisher_id_enabled in
        let b = bit-le m.group_header_enabled in
        let c = bit-le m.payload_header_enabled in
        let d = bit-le (extended_flags1_enabled m) in
        let s1 =
          or_flag-sum 16 m.version m.version m.publisher_id_enabled IsFlag-16 refl (omega arith)
            (omega arith) in
        let s2 =
          or_flag-sum 32 _ _ m.group_header_enabled IsFlag-32 s1 (omega arith) (omega arith) in
        let s3 =
          or_flag-sum 64 _ _ m.payload_header_enabled IsFlag-64 s2 (omega arith) (omega arith) in
        let s =
          or_flag-sum 128 _ _ (extended_flags1_enabled m) IsFlag-128 s3 (omega arith)
            (omega arith) in
        let k = bit_and-sum 15 1 16 _ _ m.version IsMask-15 s (omega arith) (omega arith) in
        let f1 = is_set-sum 16 _ _ m.publisher_id_enabled IsFlag-16 s (omega arith) (omega arith) in
        let f2 = is_set-sum 32 _ _ m.group_header_enabled IsFlag-32 s (omega arith) (omega arith) in
        let f3 =
          is_set-sum 64 _ _ m.payload_header_enabled IsFlag-64 s (omega arith) (omega arith) in
        let one : m.version * 1 ≡ m.version = omega arith in
        (
          rw (f1, f2, f3, k, one) refl,
          is_set-sum 128 _ _ (extended_flags1_enabled m) IsFlag-128 s (omega arith) (omega arith),
        )

    extended1_read :
        (put_extended_flags1 after_uadp (extended_flags1 m) ≡ after_extended1)
        × (is_set (extended_flags1 m) 128 ≡ extended_flags2_enabled m)
    unfolding extended_flags1 put_extended_flags1 after_extended1
    extended1_read =
        let t = publisher_id_type m.publisher_id in
        let v = ok.id_type_fits in
        let a = bit-le m.class_id_enabled in
        let b = bit-le m.security_enabled in
        let c = bit-le m.timestamp_enabled in
        let d = bit-le m.picoseconds_enabled in
        let e = bit-le (extended_flags2_enabled m) in
        let s0 : t % 256 ≡ t = omega arith in
        let s1 = or_flag-sum 8 _ _ m.class_id_enabled IsFlag-8 s0 (omega arith) (omega arith) in
        let s2 = or_flag-sum 16 _ _ m.security_enabled IsFlag-16 s1 (omega arith) (omega arith) in
        let s3 = or_flag-sum 32 _ _ m.timestamp_enabled IsFlag-32 s2 (omega arith) (omega arith) in
        let s4 =
          or_flag-sum 64 _ _ m.picoseconds_enabled IsFlag-64 s3 (omega arith) (omega arith) in
        let s =
          or_flag-sum 128 _ _ (extended_flags2_enabled m) IsFlag-128 s4 (omega arith)
            (omega arith) in
        let k = bit_and-sum 7 1 8 _ _ t IsMask-7 s (omega arith) (omega arith) in
        let f1 = is_set-sum 8 _ _ m.class_id_enabled IsFlag-8 s (omega arith) (omega arith) in
        let f2 = is_set-sum 16 _ _ m.security_enabled IsFlag-16 s (omega arith) (omega arith) in
        let f3 = is_set-sum 32 _ _ m.timestamp_enabled IsFlag-32 s (omega arith) (omega arith) in
        let f4 = is_set-sum 64 _ _ m.picoseconds_enabled IsFlag-64 s (omega arith) (omega arith) in
        let one : t * 1 ≡ t = omega arith in
        (
          rw (f1, f2, f3, f4, k, one) refl,
          is_set-sum 128 _ _ (extended_flags2_enabled m) IsFlag-128 s (omega arith) (omega arith),
        )

    extended2_read : put_extended_flags2 after_extended1 (extended_flags2 m) ≡ flags_of
    unfolding extended_flags2 put_extended_flags2 after_extended1 flags_of
    extended2_read =
        let v = ok.message_type_fits in
        let a = bit-le m.chunk_message in
        let b = bit-le m.promoted_fields_enabled in
        let s0 : m.message_type * 4 % 256 ≡ 4 * m.message_type = omega arith in
        let s1 = or_flag-sum 1 _ _ m.chunk_message IsFlag-1 s0 (omega arith) (omega arith) in
        let s =
          or_flag-sum 2 _ _ m.promoted_fields_enabled IsFlag-2 s1 (omega arith) (omega arith) in
        let k = bit_and-sum 28 4 8 _ _ m.message_type IsMask-28 s (omega arith) (omega arith) in
        let f1 = is_set-sum 1 _ _ m.chunk_message IsFlag-1 s (omega arith) (omega arith) in
        let f2 =
          is_set-sum 2 _ _ m.promoted_fields_enabled IsFlag-2 s (omega arith) (omega arith) in
        let quarter : m.message_type * 4 / 4 ≡ m.message_type = omega arith in
        rw (f1, f2, k, quarter) refl

    no_extended2 :
        extended_flags2_enabled m ≡ false
        → (m.chunk_message ≡ false) × (m.promoted_fields_enabled ≡ false) × (m.message_type ≡ 0)
    unfolding extended_flags2_enabled
    no_extended2 e = (ground arith, ground arith, ground arith)

    no_extended1 :
        extended_flags1_enabled m ≡ false
        → (publisher_id_type m.publisher_id ≡ 0)
          × (m.class_id_enabled ≡ false)
          × (m.security_enabled ≡ false)
          × (m.timestamp_enabled ≡ false)
          × (m.picoseconds_enabled ≡ false)
          × (extended_flags2_enabled m ≡ false)
    unfolding extended_flags1_enabled
    no_extended1 e =
        (ground arith, ground arith, ground arith, ground arith, ground arith, ground arith)

    extended2-Reads :
        (b : Bool)
        → extended_flags2_enabled m ≡ b
        → Reads
            (read_extended_flags2 b)
            after_extended1
            (if b then extended_flags2 m ∷ [] else [])
            flags_of
    unfolding read_extended_flags2 after_extended1 after_uadp flags_of
    extended2-Reads true e = record { reads = λ rest. rw (byte_decode-cons, extended2_read) }
    extended2-Reads false e = record {
      reads = λ rest. let (t, u, v) = no_extended2 e in rw (t, u, v) refl;
    }

    extended_bytes : List ℕ
    extended_bytes = if extended_flags2_enabled m then extended_flags2 m ∷ [] else []

    extended1-Reads :
        (b : Bool)
        → extended_flags1_enabled m ≡ b
        → Reads
            (read_extended_flags1 b)
            after_uadp
            (if b then extended_flags1 m ∷ extended_bytes else [])
            flags_of
    unfolding read_extended_flags1 extended_bytes after_uadp flags_of empty_id
    extended1-Reads true e = record {
      reads = λ rest.
          let (r, s) = extended1_read in
          rw (byte_decode-cons, s, r)
            ((extended2-Reads (extended_flags2_enabled m) refl).reads rest);
    }
    extended1-Reads false e = record {
      reads = λ rest.
          let (p, q, r, s, t, f) = no_extended1 e in
          let (u, v, w) = no_extended2 f in rw (p, q, r, s, t, u, v, w) refl;
    }

    flags_bytes : List ℕ
    unfolding extended_bytes
    flags_bytes =
        uadp_flags m
        ∷ (if extended_flags1_enabled m then extended_flags1 m ∷ extended_bytes else [])

    flags-Encodes : Encodes (flags_encode m) flags_bytes
    unfolding flags_encode flags_bytes
    flags-Encodes = and_then-Encodes (write_byte-Encodes (uadp_flags m)) (
        if-Encodes (extended_flags1_enabled m)
          (and_then-Encodes (write_byte-Encodes (extended_flags1 m)) (
            if-Encodes (extended_flags2_enabled m) (write_byte-Encodes (extended_flags2 m))
              skip-Encodes))
          skip-Encodes)

    flags_decodes : (rest : List ℕ) → flags_decode (flags_bytes ++ rest) ≡ (good, flags_of, rest)
    unfolding flags_decode flags_bytes
    flags_decodes rest =
        let (r, s) = uadp_read in
        rw (byte_decode-cons, s, r) ((extended1-Reads (extended_flags1_enabled m) refl).reads rest)

    length-flags_bytes : length flags_bytes ≡ flags_calc_size m
    unfolding flags_bytes flags_calc_size
    length-flags_bytes = ground arith

-- The up to three bytes of flags of a network message are read back as they were written, if the
-- version, the type of the publisher's identifier and the type of the message fit their bits: what
-- is read is a message with the same flags and the union of the identifier set to that type, and
-- nothing else. The extended flags are there only if they say something.
pub flags-Codes :
    {V : Type 0} (m : NetworkMessage V)
    → IsFlags m
    → Codes (flags_encode m) flags_decode (flags_of m) (flags_calc_size m)
flags-Codes m ok = record {
  bytes = flags_bytes m ok;
  encodes = flags-Encodes m ok;
  decodes = λ rest. flags_decodes m ok rest;
  sized = length-flags_bytes m ok;
}
