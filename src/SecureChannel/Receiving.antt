-- ===== src/SecureChannel/Receiving.antt =====
-- The headers and the decryption of a received chunk, of src/ua_securechannel.c. The headers are
-- those of tools/schema/Custom.Opc.Ua.Transport.bsd. The security policy is a parameter.
pub mod Checks
pub mod Processing
use opcua_tsn_lo_i.Base.{
  ℕ, zero, suc, ◌+◌, ◌-◌, ◌*◌, ◌/◌, ◌%◌, ◌^◌, Bool, true, false, not, ◌&&◌, ◌||◌, Option, none,
  some, List, [], ◌∷◌, ◌++◌, ◌==◌, ltb, leb, if◌then◌else◌, length, take, drop,
}
use opcua_tsn_lo_i.Codec.{uint32_decode}
use opcua_tsn_lo_i.Codec.Arrays.{UaString, content, string_decode}
use opcua_tsn_lo_i.SecureChannel.{
  Result, good, bad_decoding_error, bad_security_checks_failed, bad_channel_id_invalid,
  bad_message_type_invalid, bad_policy_rejected, is_good, MessageType, msg, opn, clo, err,
  other_type, ChunkType, final, intermediate, abort, other_chunk, SecurityMode, SecurityToken,
  SecureChannel, is_fresh, is_signed, is_encrypted, check_sym_header, process_sequence_number_asym,
  process_sequence_number_sym, ProcessMessageCallback, process_payload,
}
use opcua_tsn_lo_i.Codec

-- UA_SecurityPolicyCryptoModule. `decrypt` gives the plain text, which is not longer, and which
-- stands where the cipher text stood. `verify` takes the data and the signature.
pub record CryptoModule : Type 0 where
  pub decrypt : List ℕ → List ℕ × Result
  pub remote_signature_size : ℕ
  pub remote_key_length : ℕ
  pub verify : List ℕ → List ℕ → Result

-- UA_SecurityPolicy, with the answer of UA_SecureChannel_generateNewKeys. The symmetric module is
-- the one with the keys of a token.
pub record SecurityPolicy : Type 0 where
  pub policy_uri : List ℕ
  pub symmetric_module : SecurityToken → CryptoModule
  pub asymmetric_module : CryptoModule
  pub compare_certificate_thumbprint : UaString → Result
  pub generate_new_keys : Result

-- UA_SecureConversationMessageHeader
pub record MessageHeader : Type 0 where
  pub message_type_and_chunk_type : ℕ
  pub message_size : ℕ
  pub secure_channel_id : ℕ

-- Two numbers at an offset, three, and none where the bytes end.
unfoldable pub uint32_at : ℕ → List ℕ → Option ℕ
uint32_at offset bytes =
    let r = uint32_decode (drop offset bytes) in elim r.0 [ Codec.good ↦ some r.1 | _ ↦ none ]

unfoldable pub message_header_decode : List ℕ → Option MessageHeader
message_header_decode bytes = elim (uint32_at 0 bytes) [
  | none ↦ none
  | some t ↦ elim (uint32_at 4 bytes) [
    | none ↦ none
    | some n ↦ elim (uint32_at 8 bytes) [
      | none ↦ none
      | some c ↦
          some (record { message_type_and_chunk_type = t; message_size = n; secure_channel_id = c })
    ]
  ]
]

-- The part of the word below UA_BITMASK_MESSAGETYPE, and the one below UA_BITMASK_CHUNKTYPE.
unfoldable pub message_type_of : ℕ → MessageType
message_type_of word =
    let t = word % 2 ^ 24 in
    if t == 0x47534d
    then msg
    else if t == 0x4e504f
    then opn
    else if t == 0x4f4c43
    then clo
    else if t == 0x525245
    then err
    else other_type

unfoldable pub chunk_type_of : ℕ → ChunkType
chunk_type_of word =
    let t = word / 2 ^ 24 * 2 ^ 24 in
    if t == 0x46000000
    then final
    else if t == 0x43000000
    then intermediate
    else if t == 0x41000000
    then abort
    else other_chunk

-- A decrypted chunk: the buffer, and where the payload is in it.
pub record Decrypted : Type 0 where
  pub request_id : ℕ
  pub sequence_number : ℕ
  pub buffer : List ℕ
  pub start : ℕ
  pub size : ℕ

-- `out_of_bounds` is a read outside the chunk.
pub data Decryption : Type 0 where
  refused : Result → Decryption
  out_of_bounds : Decryption
  decrypted : Decrypted → Decryption

abbrev pub byte_at : ℕ → List ℕ → Option ℕ
byte_at i [] = none
byte_at zero (b ∷ bs) = some b
byte_at (suc i) (b ∷ bs) = byte_at i bs

-- The byte `k` bytes ahead of position `n`.
unfoldable pub byte_before : ℕ → ℕ → List ℕ → Option ℕ
byte_before n k bytes = if ltb n k then none else byte_at (n - k) bytes

-- The size of the padding, the bytes that tell it included.
unfoldable pub padding_size : CryptoModule → ℕ → List ℕ → Option ℕ
padding_size m after chunk = elim (byte_before after (m.remote_signature_size + 1) chunk) [
  | none ↦ none
  | some p ↦
      if ltb 2048 m.remote_key_length
      then elim (byte_before after (m.remote_signature_size + 2) chunk) [
        | none ↦ none
        | some q ↦ some (p * 2 ^ 8 + q + 1 + 1)
      ]
      else some (p + 1)
]

-- The sequence header at `offset`, and where the payload is. The size is a size_t.
unfoldable pub payload_of : List ℕ → ℕ → ℕ → ℕ → ℕ → Decryption
payload_of chunk after offset signature padding = elim (uint32_at offset chunk) [
  | none ↦ refused bad_decoding_error
  | some n ↦ elim (uint32_at (offset + 4) chunk) [
    | none ↦ refused bad_decoding_error
    | some i ↦
        if leb (length chunk) (offset + 8 + padding + signature)
        then refused bad_security_checks_failed
        else decrypted (record {
          request_id = i;
          sequence_number = n;
          buffer = chunk;
          start = offset + 8;
          size = (after + 2 ^ 64 - (offset + 8) - signature - padding) % 2 ^ 64;
        })
  ]
]

-- The check of the padding and of the signature.
unfoldable pub verify_chunk : CryptoModule → List ℕ → ℕ → ℕ → ℕ → Decryption
verify_chunk m chunk after offset padding =
    let signature = m.remote_signature_size in
    if leb after (offset + padding + signature)
    then refused bad_security_checks_failed
    else let verified =
        m.verify (take (after - signature) chunk)
          (take signature (drop (after - signature) chunk)) in
      if is_good verified then payload_of chunk after offset signature padding else refused verified

abbrev pub is_open_message : MessageType → Bool
is_open_message opn = true
is_open_message _ = false

-- decryptChunk once the chunk is decrypted; `after` is its size then.
unfoldable pub unpack_chunk :
    SecurityMode → CryptoModule → MessageType → List ℕ → ℕ → ℕ → Decryption
unpack_chunk mode m type chunk after offset =
    if is_signed mode || is_open_message type
    then if is_encrypted mode || (is_open_message type && is_signed mode)
      then elim (padding_size m after chunk) [
        | none ↦ out_of_bounds
        | some padding ↦ verify_chunk m chunk after offset padding
      ]
      else verify_chunk m chunk after offset 0
    else payload_of chunk after offset 0 0

-- decryptChunk
unfoldable pub decrypt_chunk : SecurityMode → CryptoModule → MessageType → List ℕ → ℕ → Decryption
decrypt_chunk mode m type chunk offset =
    let r = m.decrypt (drop offset chunk) in
    let after = offset + length r.0 in
    if not (is_encrypted mode || is_open_message type)
    then unpack_chunk mode m type chunk (length chunk) offset
    else if is_good r.1
    then unpack_chunk mode m type (take offset chunk ++ r.0 ++ drop after chunk) after offset
    else refused r.1

-- The bytes of the payload. There are none at a read outside the buffer; a chunk that aborts is
-- not read.
unfoldable pub body_of : ChunkType → Decrypted → Option (List ℕ)
body_of abort d = some []
body_of other_chunk d = some []
body_of _ d =
    if leb (d.start + d.size) (length d.buffer)
    then some (take d.size (drop d.start d.buffer))
    else none
