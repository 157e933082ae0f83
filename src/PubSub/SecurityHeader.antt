-- ===== src/PubSub/SecurityHeader.antt =====
-- The security header of a network message, of src/pubsub/ua_pubsub_networkmessage.c, and its
-- coding.
use opcua_tsn_lo_i.Base.{
  ℕ, ◌+◌, ◌*◌, ◌^◌, ◌<◌, ◌≡◌, refl, sym, Bool, true, false, none, some, List, [], ◌∷◌, ◌++◌, ltb,
  if◌then◌else◌, arith, length, length-append,
}
use opcua_tsn_lo_i.Base.Bits.{
  or_flag, is_set, bit, bit-le, or_flag-sum, is_set-sum, IsFlag-1, IsFlag-2, IsFlag-4, IsFlag-8,
}
use opcua_tsn_lo_i.Codec.{
  good, is_good, Encoder, Decoder, and_then, skip, encode16, encode32, byte_decode, uint16_decode,
  uint32_decode,
}
use opcua_tsn_lo_i.Codec.Words.{byte_decode-cons, uint16_decode-encode16, uint32_decode-encode32}
use opcua_tsn_lo_i.Codec.Output.{
  Encodes, Codes, length-if, and_then-Encodes, if-Encodes, skip-Encodes,
}
use opcua_tsn_lo_i.Codec.Arrays.{UaString, content}
use opcua_tsn_lo_i.PubSub.{
  write_byte, write_uint16, write_uint32, Reader, and_read, read_if, encode_all, decode_all,
}
use opcua_tsn_lo_i.PubSub.Reading.{
  write_byte-Encodes, write_uint16-Encodes, write_uint32-Encodes, Reads, and_read-Reads,
  read_if-Reads, byte_block-Encodes, byte_block_decodes,
}

pub record SecurityHeader : Type 0 where
  pub message_signed : Bool
  pub message_encrypted : Bool
  pub footer_enabled : Bool
  pub force_key_reset : Bool
  pub security_token_id : ℕ
  pub nonce_length : ℕ
  pub message_nonce : UaString
  pub footer_size : ℕ

unfoldable pub security_flags : SecurityHeader → ℕ
security_flags h =
    or_flag h.force_key_reset 8
      (or_flag h.footer_enabled 4 (or_flag h.message_encrypted 2 (or_flag h.message_signed 1 0)))

-- The nonce has `nonceLength` bytes.
unfoldable pub security_header_encode : SecurityHeader → Encoder
security_header_encode h = and_then (write_byte (security_flags h)) (
    and_then (write_uint32 h.security_token_id) (
      and_then (write_byte h.nonce_length) (
        and_then (encode_all write_byte (content h.message_nonce))
          (if h.footer_enabled then write_uint16 h.footer_size else skip))))

abbrev pub empty_security_header : SecurityHeader
empty_security_header = record {
  message_signed = false;
  message_encrypted = false;
  footer_enabled = false;
  force_key_reset = false;
  security_token_id = 0;
  nonce_length = 0;
  message_nonce = none;
  footer_size = 0;
}

put_security_flags : SecurityHeader → ℕ → SecurityHeader
put_security_flags dst v = record dst {
  message_signed = is_set v 1;
  message_encrypted = is_set v 2;
  footer_enabled = is_set v 4;
  force_key_reset = is_set v 8;
}

-- Memory for the nonce is always there.
nonce_decode : ℕ → Decoder UaString
nonce_decode n bs = let (rv, nonce, rest) = decode_all byte_decode n bs in (rv, some nonce, rest)

read_nonce : Reader SecurityHeader
unfolding nonce_decode
read_nonce dst =
    read_if (λ h. ltb 0 h.nonce_length) none (nonce_decode dst.nonce_length)
      (λ h v. record h { message_nonce = v }) dst

read_security_members : Reader SecurityHeader
unfolding read_nonce
read_security_members =
    and_read (read_if (λ h. true) 0 uint32_decode (λ h v. record h { security_token_id = v })) (
      and_read (read_if (λ h. true) 0 byte_decode (λ h v. record h { nonce_length = v })) (
        and_read read_nonce
          (read_if (λ h. h.footer_enabled) 0 uint16_decode (λ h v. record h { footer_size = v }))))

unfoldable pub security_header_decode : Decoder SecurityHeader
unfolding put_security_flags read_security_members
security_header_decode bs =
    let (rv, v, rest) = byte_decode bs in
    if is_good rv
    then read_security_members (put_security_flags empty_security_header v) rest
    else (rv, empty_security_header, rest)

unfoldable pub security_header_calc_size : SecurityHeader → ℕ
security_header_calc_size h =
    1
    + 4
    + 1
    + (if ltb 0 h.nonce_length then 1 * h.nonce_length else 0)
    + (if h.footer_enabled then 2 else 0)

-- A nonce of no bytes is the null string.
pub record IsSecurityHeader (h : SecurityHeader) : Type 0 where
  pub token_fits : h.security_token_id < 2 ^ 32
  pub footer_size_fits : h.footer_size < 2 ^ 16
  pub nonce_whole : length (content h.message_nonce) ≡ h.nonce_length
  pub no_nonce : h.nonce_length ≡ 0 → h.message_nonce ≡ none
  pub no_footer_size : h.footer_enabled ≡ false → h.footer_size ≡ 0

security_flags-sum :
    (h : SecurityHeader)
    → security_flags h
      ≡ 0
        + 1 * bit h.message_signed
        + 2 * bit h.message_encrypted
        + 4 * bit h.footer_enabled
        + 8 * bit h.force_key_reset
unfolding security_flags
security_flags-sum h =
    let a = bit-le h.message_signed in
    let b = bit-le h.message_encrypted in
    let c = bit-le h.footer_enabled in
    let s1 = or_flag-sum 1 0 0 h.message_signed IsFlag-1 refl (omega arith) (omega arith) in
    let s2 = or_flag-sum 2 _ _ h.message_encrypted IsFlag-2 s1 (omega arith) (omega arith) in
    let s3 = or_flag-sum 4 _ _ h.footer_enabled IsFlag-4 s2 (omega arith) (omega arith) in
    or_flag-sum 8 _ _ h.force_key_reset IsFlag-8 s3 (omega arith) (omega arith)

after_flags : SecurityHeader → SecurityHeader
after_flags h = record h {
  security_token_id = 0;
  nonce_length = 0;
  message_nonce = none;
  footer_size = 0;
}

security_flags_read :
    (h : SecurityHeader)
    → put_security_flags empty_security_header (security_flags h) ≡ after_flags h
unfolding put_security_flags after_flags
security_flags_read h =
    let a = bit-le h.message_signed in
    let b = bit-le h.message_encrypted in
    let c = bit-le h.footer_enabled in
    let d = bit-le h.force_key_reset in
    let s = security_flags-sum h in
    let f1 = is_set-sum 1 _ _ h.message_signed IsFlag-1 s (omega arith) (omega arith) in
    let f2 = is_set-sum 2 _ _ h.message_encrypted IsFlag-2 s (omega arith) (omega arith) in
    let f3 = is_set-sum 4 _ _ h.footer_enabled IsFlag-4 s (omega arith) (omega arith) in
    let f4 = is_set-sum 8 _ _ h.force_key_reset IsFlag-8 s (omega arith) (omega arith) in
    rw (f1, f2, f3, f4) refl

-- The nonce as a value that comes back: without bytes it is null.
nonce-Reads :
    (s : UaString) (n : ℕ) (dst : SecurityHeader)
    → length (content s) ≡ n
    → (n ≡ 0 → s ≡ none)
    → dst.nonce_length ≡ n
    → Reads read_nonce dst (content s) (record dst { message_nonce = s })
unfolding read_nonce nonce_decode read_if
nonce-Reads none n dst e k f = record { reads = λ rest. rw (f, sym e) refl }
nonce-Reads (some []) n dst e k f = absurd (ground (arith, k))
nonce-Reads (some (b ∷ bs)) n dst e k f = record {
  reads = λ rest.
      let filled : ltb 0 (length (b ∷ bs)) ≡ true = ground arith in
      rw (f, sym e, byte_block_decodes (b ∷ bs) rest, filled) refl;
}

module _ (h : SecurityHeader) (ok : IsSecurityHeader h) where
  security_member_bytes : List ℕ
  security_member_bytes =
      encode32 h.security_token_id
      ++ ((h.nonce_length ∷ [])
          ++ (content h.message_nonce ++ (if h.footer_enabled then encode16 h.footer_size else [])))

  security_members-Reads : Reads read_security_members (after_flags h) security_member_bytes h
  unfolding read_security_members after_flags security_member_bytes
  security_members-Reads =
      and_read-Reads _ _ _ _ _ _ _
        (read_if-Reads _ 0 uint32_decode _ _ true h.security_token_id _ refl
          (λ rest. uint32_decode-encode32 h.security_token_id rest ok.token_fits) (λ e. cc))
        (and_read-Reads _ _ _ _ _ _ _
          (read_if-Reads _ 0 byte_decode _ _ true h.nonce_length (h.nonce_length ∷ []) refl
            (λ rest. byte_decode-cons h.nonce_length rest) (λ e. cc))
          (and_read-Reads _ _ _ _ _ _ _
            (nonce-Reads h.message_nonce h.nonce_length _ ok.nonce_whole ok.no_nonce refl)
            (read_if-Reads _ 0 uint16_decode _ _ h.footer_enabled h.footer_size _ refl
              (λ rest. uint16_decode-encode16 h.footer_size rest ok.footer_size_fits)
              ok.no_footer_size)))

  security_header-Encodes :
      Encodes (security_header_encode h) (security_flags h ∷ security_member_bytes)
  unfolding security_header_encode security_member_bytes
  security_header-Encodes = and_then-Encodes (write_byte-Encodes (security_flags h)) (
      and_then-Encodes (write_uint32-Encodes h.security_token_id) (
        and_then-Encodes (write_byte-Encodes h.nonce_length) (
          and_then-Encodes (byte_block-Encodes (content h.message_nonce))
            (if-Encodes h.footer_enabled (write_uint16-Encodes h.footer_size) skip-Encodes))))

  length-security_member_bytes :
      length (security_flags h ∷ security_member_bytes) ≡ security_header_calc_size h
  unfolding security_member_bytes security_header_calc_size encode16 encode32
  length-security_member_bytes = simp (length-append, length-if, ok.nonce_whole) (ground arith)

  security_header_decodes :
      (rest : List ℕ)
      → security_header_decode ((security_flags h ∷ security_member_bytes) ++ rest)
        ≡ (good, h, rest)
  unfolding security_header_decode
  security_header_decodes rest =
      rw (byte_decode-cons, security_flags_read h) (security_members-Reads.reads rest)

-- The security header of a network message is read back as it was written, if its numbers fit, its
-- nonce has the length that is given and is null if that is 0, and the size of the footer is 0
-- if there is none. The size that is computed beforehand is right.
pub security_header-Codes :
    (h : SecurityHeader)
    → IsSecurityHeader h
    → Codes (security_header_encode h) security_header_decode h (security_header_calc_size h)
security_header-Codes h ok = record {
  bytes = security_flags h ∷ security_member_bytes h ok;
  encodes = security_header-Encodes h ok;
  decodes = λ rest. security_header_decodes h ok rest;
  sized = length-security_member_bytes h ok;
}
