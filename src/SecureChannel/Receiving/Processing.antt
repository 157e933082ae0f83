-- ===== src/SecureChannel/Receiving/Processing.antt =====
-- UA_SecureChannel_processChunk of src/ua_securechannel.c, with the headers, tokens and sequence
-- numbers of a chunk.
use opcua_tsn_lo_i.Base.{
  ℕ, ◌-◌, Bool, true, false, not, ◌&&◌, Option, none, some, List, [], ◌∷◌, ◌==◌, if◌then◌else◌,
  length, drop,
}
use opcua_tsn_lo_i.Codec.{uint32_decode}
use opcua_tsn_lo_i.Codec.Arrays.{content, string_decode}
use opcua_tsn_lo_i.SecureChannel.{
  Result, bad_decoding_error, bad_channel_id_invalid, bad_message_type_invalid, bad_policy_rejected,
  is_good, MessageType, msg, opn, clo, err, other_type, ChunkType, final, SecureChannel, is_fresh,
  check_sym_header, process_sequence_number_asym, process_sequence_number_sym,
  ProcessMessageCallback, process_payload,
}
use opcua_tsn_lo_i.Codec
use opcua_tsn_lo_i.SecureChannel.Receiving.{
  SecurityPolicy, uint32_at, message_header_decode, message_type_of, chunk_type_of, Decryption,
  refused, out_of_bounds, decrypted, is_open_message, decrypt_chunk, body_of,
}

-- UA_ByteString_equal
unfoldable pub bytes_equal : List ℕ → List ℕ → Bool
bytes_equal [] [] = true
bytes_equal (x ∷ xs) (y ∷ ys) = x == y && bytes_equal xs ys
bytes_equal _ _ = false

-- The security header of an asymmetric message, whose check is checkAsymHeader: the result, and
-- the offset behind it.
unfoldable pub check_asym_header : SecurityPolicy → List ℕ → Result × ℕ
check_asym_header policy chunk =
    let uri = string_decode (drop 12 chunk) in
    let certificate = string_decode uri.2 in
    let thumbprint = string_decode certificate.2 in
    let offset = length chunk - length thumbprint.2 in
    if not (Codec.is_good uri.0 && Codec.is_good certificate.0 && Codec.is_good thumbprint.0)
    then (bad_decoding_error, offset)
    else if bytes_equal policy.policy_uri (content uri.1)
    then (policy.compare_certificate_thumbprint thumbprint.1, offset)
    else (bad_policy_rejected, offset)

-- The memory for a chunk: whether malloc gives an entry, and whether realloc succeeds.
pub record Memory : Type 0 where
  pub entry : Bool
  pub bytes : Bool

-- What is left where a chunk is refused.
abbrev pub stopped : {S : Type 0} → S → Result → Option (S × Result)
stopped s result = some (s, result)

module _ {A : Type 0} (policy : SecurityPolicy) (callback : ProcessMessageCallback A)
    (memory : Memory) where
  -- The decrypted chunk: its sequence number, and then its payload.
  unfoldable pub take_decrypted :
      MessageType
      → ChunkType
      → A × SecureChannel
      → Decryption
      → Option ((A × SecureChannel) × Result)
  take_decrypted type k s (refused result) = stopped s result
  take_decrypted type k s out_of_bounds = none
  take_decrypted type k (a, c) (decrypted d) =
      let r =
        if is_open_message type
        then process_sequence_number_asym d.sequence_number c
        else process_sequence_number_sym d.sequence_number c in
      if is_good r.1
      then elim (body_of k d) [
        | none ↦ none
        | some body ↦
            some
              (process_payload callback memory.entry memory.bytes type k d.request_id body (a, r.0))
      ]
      else stopped (a, r.0) r.1

  unfoldable pub process_symmetric :
      MessageType → ChunkType → List ℕ → A × SecureChannel → Option ((A × SecureChannel) × Result)
  process_symmetric type k chunk (a, c) = elim (uint32_at 12 chunk) [
    | none ↦ stopped (a, c) bad_decoding_error
    | some token ↦
        let r = check_sym_header policy.generate_new_keys token c in
        if is_good r.1
        then take_decrypted type k (a, r.0)
            (decrypt_chunk c.security_mode (policy.symmetric_module r.0.security_token) type chunk
              16)
        else stopped (a, r.0) r.1
  ]

  unfoldable pub process_open :
      ChunkType → List ℕ → A × SecureChannel → Option ((A × SecureChannel) × Result)
  process_open final chunk (a, c) =
      let r = check_asym_header policy chunk in
      if is_good r.0
      then take_decrypted opn final (a, c)
          (decrypt_chunk c.security_mode policy.asymmetric_module opn chunk r.1)
      else stopped (a, c) r.0
  process_open _ chunk s = stopped s bad_message_type_invalid

  -- An error message is not encrypted.
  unfoldable pub process_error :
      ChunkType → List ℕ → A × SecureChannel → Option ((A × SecureChannel) × Result)
  process_error final chunk s = some (callback err 0 (drop 12 chunk) s)
  process_error _ chunk s = stopped s bad_message_type_invalid

  -- UA_SecureChannel_processChunk
  unfoldable pub process_chunk : List ℕ → A × SecureChannel → Option ((A × SecureChannel) × Result)
  process_chunk chunk (a, c) = elim (message_header_decode chunk) [
    | none ↦ stopped (a, c) bad_decoding_error
    | some h ↦
        let k = chunk_type_of h.message_type_and_chunk_type in
        if not (h.secure_channel_id == c.security_token.channel_id) && not (is_fresh c.state)
        then stopped (a, c) bad_channel_id_invalid
        else elim (message_type_of h.message_type_and_chunk_type) [
          | err ↦ process_error k chunk (a, c)
          | msg ↦ process_symmetric msg k chunk (a, c)
          | clo ↦ process_symmetric clo k chunk (a, c)
          | opn ↦ process_open k chunk (a, c)
          | other_type ↦ stopped (a, c) bad_message_type_invalid
        ]
  ]
