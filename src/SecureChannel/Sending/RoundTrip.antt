-- ===== src/SecureChannel/Sending/RoundTrip.antt =====
-- What sendSymmetricChunk pads, signs and encrypts against what decryptChunk takes, both of
-- src/ua_securechannel.c.
mod Views
pub mod Sealed
use opcua_tsn_lo_i.Base.{
  ℕ, zero, suc, ◌+◌, ◌-◌, ◌*◌, ◌/◌, ◌%◌, ◌^◌, ◌≤◌, ◌<◌, ◌≡◌, ◌⊎◌, inl, inr, refl, ap, sym, ◌∙◌,
  subst, Bool, true, false, not, ◌&&◌, ◌||◌, Option, none, some, List, [], ◌∷◌, ◌++◌, arith, ltb,
  leb, if◌then◌else◌, length, take, drop, Bool-cases, length-append, length-take, append-nil,
  append_assoc, take-append, drop-append, take-append-drop, ◌==◌,
}
use opcua_tsn_lo_i.Codec.{encode32, uint32_decode}
use opcua_tsn_lo_i.Codec.Words.{uint32_decode-encode32}
use opcua_tsn_lo_i.SecureChannel.{
  Result, good, is_good, MessageType, ChunkType, final, SecurityMode, invalid_mode, no_security,
  sign, sign_and_encrypt, is_signed, is_encrypted,
}
use opcua_tsn_lo_i.SecureChannel.Receiving.{
  CryptoModule, Decrypted, Decryption, decrypted, refused, uint32_at, byte_at, byte_before,
  padding_size, payload_of, verify_chunk, is_open_message, unpack_chunk, decrypt_chunk, body_of,
}
use opcua_tsn_lo_i.SecureChannel.Receiving.Checks.{uint32_at-decoded}
use opcua_tsn_lo_i.SecureChannel.Sending.{
  LocalModule, MessageContext, repeat, calculate_padding_sym, padding_bytes, padding_of,
  signature_size_of, chunk_header, sign_chunk, encrypt_chunk, total_length, seal_chunk,
}
use opcua_tsn_lo_i.SecureChannel.Sending.Room.{length-padding_bytes, length-repeat}
use opcua_tsn_lo_i.SecureChannel.Sending.RoundTrip.Views.{
  drop_all, take_all, byte_at-append, repeat_last, padding_bytes-short, payload_of-whole,
  verify_chunk-signed, padding_size-padded, calculate_padding_sym-lt, unlocked,
}
use opcua_tsn_lo_i.SecureChannel.Sending.RoundTrip.Sealed.{
  IsPeer, length-signed, received, length-locked, signed, text, locked, token_of,
}

numbered_at :
    (mc : MessageContext) (total n : ℕ)
    → n < 2 ^ 32
    → (rest : List ℕ) → uint32_at 16 (chunk_header mc total n ++ rest) ≡ some n
unfolding chunk_header encode32
numbered_at mc total n h rest = uint32_at-decoded 16 _ _ _ (uint32_decode-encode32 n _ h)

requested_at :
    (mc : MessageContext) (total n : ℕ)
    → mc.request_id < 2 ^ 32
    → (rest : List ℕ) → uint32_at 20 (chunk_header mc total n ++ rest) ≡ some mc.request_id
unfolding chunk_header encode32
requested_at mc total n h rest =
    uint32_at-decoded 20 _ _ _ (uint32_decode-encode32 mc.request_id _ h)

length-chunk_header : (mc : MessageContext) (total n : ℕ) → length (chunk_header mc total n) ≡ 24
unfolding chunk_header encode32
length-chunk_header mc total n = refl

-- What sendSymmetricChunk makes of a part of a message, decryptChunk takes: the same request, the
-- same sequence number and the same bytes, on a channel of any security mode. The security token
-- can be read before, and the chunk has the length that its header is given. If the cryptography of
-- the peers fits together, the part is not empty, and numbers and length have 32 bit.
pub seal_chunk-opens :
    (l : LocalModule) (r : CryptoModule) (type : MessageType) (mc : MessageContext) (n : ℕ)
    → IsPeer l r
    → is_open_message type ≡ false
    → 1 ≤ length mc.body
    → n < 2 ^ 32
    → mc.request_id < 2 ^ 32
    → mc.channel.security_token.token_id < 2 ^ 32
    → total_length l mc < 2 ^ 32
    → (let chunk = (seal_chunk l mc n).0 in
        (d : Decrypted) × (decrypt_chunk mc.channel.security_mode r type chunk 16 ≡ decrypted d)
        × (d.request_id ≡ mc.request_id)
        × (d.sequence_number ≡ n)
        × (body_of final d ≡ some mc.body)
        × (uint32_at 12 chunk ≡ some mc.channel.security_token.token_id)
        × (length chunk ≡ total_length l mc))
unfolding seal_chunk total_length signed text locked
seal_chunk-opens l r type mc n peer plain some_bytes small_n small_i small_t small =
    let total = total_length l mc in
    let header = chunk_header mc total n in
    let mode = mc.channel.security_mode in
    let numbered = numbered_at mc total n small_n in
    let requested = requested_at mc total n small_i in
    let headed = length-chunk_header mc total n in
    let size =
      length-signed l r peer type plain header mc.body mc.request_id n numbered requested headed
        some_bytes mode in
    let (d, e, i, k, body) =
      received l r peer type plain header mc.body mc.request_id n numbered requested headed
        some_bytes mode (omega (arith, size)) in
    (
      d,
      e,
      i,
      k,
      body,
      token_of l mode mc total n mc.body (padding_of mode l mc.body) small_t,
      length-locked l r peer type plain header mc.body mc.request_id n numbered requested headed
            some_bytes mode
          ∙ size,
    )
