-- ===== src/PubSub/GroupHeader.antt =====
-- The group header of a network message, of src/pubsub/ua_pubsub_networkmessage.c, and its coding.
use opcua_tsn_lo_i.Base.{
  ℕ, ◌+◌, ◌*◌, ◌^◌, ◌<◌, ◌≡◌, refl, Bool, false, List, [], ◌∷◌, ◌++◌, if◌then◌else◌, arith, length,
  length-append,
}
use opcua_tsn_lo_i.Base.Bits.{
  or_flag, is_set, bit, bit-le, or_flag-sum, is_set-sum, IsFlag-1, IsFlag-2, IsFlag-4, IsFlag-8,
}
use opcua_tsn_lo_i.Codec.{
  good, is_good, Encoder, Decoder, and_then, skip, encode16, encode32, byte_decode, uint16_decode,
  uint32_decode,
}
use opcua_tsn_lo_i.Codec.Words.{byte_decode-cons, uint16_decode-encode16, uint32_decode-encode32}
use opcua_tsn_lo_i.Codec.Output.{
  Encodes, Codes, length-if, and_then-Encodes, if-Encodes, skip-Encodes,
}
use opcua_tsn_lo_i.PubSub.{write_byte, write_uint16, write_uint32, Reader, and_read, read_if}
use opcua_tsn_lo_i.PubSub.Reading.{
  write_byte-Encodes, write_uint16-Encodes, write_uint32-Encodes, Reads, and_read-Reads,
  read_if-Reads,
}

pub record GroupHeader : Type 0 where
  pub writer_group_id_enabled : Bool
  pub group_version_enabled : Bool
  pub message_number_enabled : Bool
  pub sequence_number_enabled : Bool
  pub writer_group_id : ℕ
  pub group_version : ℕ
  pub message_number : ℕ
  pub sequence_number : ℕ

unfoldable pub group_flags : GroupHeader → ℕ
group_flags h = or_flag h.sequence_number_enabled 8 (
    or_flag h.message_number_enabled 4
      (or_flag h.group_version_enabled 2 (or_flag h.writer_group_id_enabled 1 0)))

unfoldable pub group_header_encode : GroupHeader → Encoder
group_header_encode h = and_then (write_byte (group_flags h)) (
    and_then (if h.writer_group_id_enabled then write_uint16 h.writer_group_id else skip) (
      and_then (if h.group_version_enabled then write_uint32 h.group_version else skip) (
        and_then (if h.message_number_enabled then write_uint16 h.message_number else skip)
          (if h.sequence_number_enabled then write_uint16 h.sequence_number else skip))))

abbrev pub empty_group_header : GroupHeader
empty_group_header = record {
  writer_group_id_enabled = false;
  group_version_enabled = false;
  message_number_enabled = false;
  sequence_number_enabled = false;
  writer_group_id = 0;
  group_version = 0;
  message_number = 0;
  sequence_number = 0;
}

put_group_flags : GroupHeader → ℕ → GroupHeader
put_group_flags dst v = record dst {
  writer_group_id_enabled = is_set v 1;
  group_version_enabled = is_set v 2;
  message_number_enabled = is_set v 4;
  sequence_number_enabled = is_set v 8;
}

read_group_members : Reader GroupHeader
read_group_members =
    and_read
      (read_if (λ h. h.writer_group_id_enabled) 0 uint16_decode
        (λ h v. record h { writer_group_id = v }))
      (and_read
        (read_if (λ h. h.group_version_enabled) 0 uint32_decode
          (λ h v. record h { group_version = v }))
        (and_read
          (read_if (λ h. h.message_number_enabled) 0 uint16_decode
            (λ h v. record h { message_number = v }))
          (read_if (λ h. h.sequence_number_enabled) 0 uint16_decode
            (λ h v. record h { sequence_number = v }))))

unfoldable pub group_header_decode : Decoder GroupHeader
unfolding put_group_flags read_group_members
group_header_decode bs =
    let (rv, v, rest) = byte_decode bs in
    if is_good rv
    then read_group_members (put_group_flags empty_group_header v) rest
    else (rv, empty_group_header, rest)

unfoldable pub group_header_calc_size : GroupHeader → ℕ
group_header_calc_size h =
    1
    + (if h.writer_group_id_enabled then 2 else 0)
    + (if h.group_version_enabled then 4 else 0)
    + (if h.message_number_enabled then 2 else 0)
    + (if h.sequence_number_enabled then 2 else 0)

pub record IsGroupHeader (h : GroupHeader) : Type 0 where
  pub writer_group_id_fits : h.writer_group_id < 2 ^ 16
  pub group_version_fits : h.group_version < 2 ^ 32
  pub message_number_fits : h.message_number < 2 ^ 16
  pub sequence_number_fits : h.sequence_number < 2 ^ 16
  pub no_writer_group_id : h.writer_group_id_enabled ≡ false → h.writer_group_id ≡ 0
  pub no_group_version : h.group_version_enabled ≡ false → h.group_version ≡ 0
  pub no_message_number : h.message_number_enabled ≡ false → h.message_number ≡ 0
  pub no_sequence_number : h.sequence_number_enabled ≡ false → h.sequence_number ≡ 0

group_flags-sum :
    (h : GroupHeader)
    → group_flags h
      ≡ 0
        + 1 * bit h.writer_group_id_enabled
        + 2 * bit h.group_version_enabled
        + 4 * bit h.message_number_enabled
        + 8 * bit h.sequence_number_enabled
unfolding group_flags
group_flags-sum h =
    let a = bit-le h.writer_group_id_enabled in
    let b = bit-le h.group_version_enabled in
    let c = bit-le h.message_number_enabled in
    let s1 =
      or_flag-sum 1 0 0 h.writer_group_id_enabled IsFlag-1 refl (omega arith) (omega arith) in
    let s2 = or_flag-sum 2 _ _ h.group_version_enabled IsFlag-2 s1 (omega arith) (omega arith) in
    let s3 = or_flag-sum 4 _ _ h.message_number_enabled IsFlag-4 s2 (omega arith) (omega arith) in
    or_flag-sum 8 _ _ h.sequence_number_enabled IsFlag-8 s3 (omega arith) (omega arith)

after_flags : GroupHeader → GroupHeader
after_flags h = record h {
  writer_group_id = 0;
  group_version = 0;
  message_number = 0;
  sequence_number = 0;
}

group_flags_read :
    (h : GroupHeader) → put_group_flags empty_group_header (group_flags h) ≡ after_flags h
unfolding put_group_flags after_flags
group_flags_read h =
    let a = bit-le h.writer_group_id_enabled in
    let b = bit-le h.group_version_enabled in
    let c = bit-le h.message_number_enabled in
    let d = bit-le h.sequence_number_enabled in
    let s = group_flags-sum h in
    let f1 = is_set-sum 1 _ _ h.writer_group_id_enabled IsFlag-1 s (omega arith) (omega arith) in
    let f2 = is_set-sum 2 _ _ h.group_version_enabled IsFlag-2 s (omega arith) (omega arith) in
    let f3 = is_set-sum 4 _ _ h.message_number_enabled IsFlag-4 s (omega arith) (omega arith) in
    let f4 = is_set-sum 8 _ _ h.sequence_number_enabled IsFlag-8 s (omega arith) (omega arith) in
    rw (f1, f2, f3, f4) refl

module _ (h : GroupHeader) (ok : IsGroupHeader h) where
  group_member_bytes : List ℕ
  group_member_bytes =
      (if h.writer_group_id_enabled then encode16 h.writer_group_id else [])
      ++ ((if h.group_version_enabled then encode32 h.group_version else [])
          ++ ((if h.message_number_enabled then encode16 h.message_number else [])
              ++ (if h.sequence_number_enabled then encode16 h.sequence_number else [])))

  group_members-Reads : Reads read_group_members (after_flags h) group_member_bytes h
  unfolding read_group_members after_flags group_member_bytes
  group_members-Reads =
      and_read-Reads _ _ _ _ _ _ _
        (read_if-Reads _ 0 uint16_decode _ _ h.writer_group_id_enabled h.writer_group_id _ refl
          (λ rest. uint16_decode-encode16 h.writer_group_id rest ok.writer_group_id_fits)
          ok.no_writer_group_id)
        (and_read-Reads _ _ _ _ _ _ _
          (read_if-Reads _ 0 uint32_decode _ _ h.group_version_enabled h.group_version _ refl
            (λ rest. uint32_decode-encode32 h.group_version rest ok.group_version_fits)
            ok.no_group_version)
          (and_read-Reads _ _ _ _ _ _ _
            (read_if-Reads _ 0 uint16_decode _ _ h.message_number_enabled h.message_number _ refl
              (λ rest. uint16_decode-encode16 h.message_number rest ok.message_number_fits)
              ok.no_message_number)
            (read_if-Reads _ 0 uint16_decode _ _ h.sequence_number_enabled h.sequence_number _ refl
              (λ rest. uint16_decode-encode16 h.sequence_number rest ok.sequence_number_fits)
              ok.no_sequence_number)))

  group_header-Encodes : Encodes (group_header_encode h) (group_flags h ∷ group_member_bytes)
  unfolding group_header_encode group_member_bytes
  group_header-Encodes = and_then-Encodes (write_byte-Encodes (group_flags h)) (
      and_then-Encodes
        (if-Encodes h.writer_group_id_enabled (write_uint16-Encodes h.writer_group_id) skip-Encodes)
        (and_then-Encodes
          (if-Encodes h.group_version_enabled (write_uint32-Encodes h.group_version) skip-Encodes)
          (and_then-Encodes
            (if-Encodes h.message_number_enabled (write_uint16-Encodes h.message_number)
              skip-Encodes)
            (if-Encodes h.sequence_number_enabled (write_uint16-Encodes h.sequence_number)
              skip-Encodes))))

  length-group_member_bytes : length (group_flags h ∷ group_member_bytes) ≡ group_header_calc_size h
  unfolding group_member_bytes group_header_calc_size encode16 encode32
  length-group_member_bytes = simp (length-append, length-if) (omega arith)

  group_header_decodes :
      (rest : List ℕ)
      → group_header_decode ((group_flags h ∷ group_member_bytes) ++ rest) ≡ (good, h, rest)
  unfolding group_header_decode
  group_header_decodes rest =
      rw (byte_decode-cons, group_flags_read h) (group_members-Reads.reads rest)

-- The group header of a network message is read back as it was written, if its numbers fit and the
-- members whose flags are not set are 0. The size that is computed beforehand is right.
pub group_header-Codes :
    (h : GroupHeader)
    → IsGroupHeader h
    → Codes (group_header_encode h) group_header_decode h (group_header_calc_size h)
group_header-Codes h ok = record {
  bytes = group_flags h ∷ group_member_bytes h ok;
  encodes = group_header-Encodes h ok;
  decodes = λ rest. group_header_decodes h ok rest;
  sized = length-group_member_bytes h ok;
}
