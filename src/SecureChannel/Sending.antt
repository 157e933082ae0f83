-- ===== src/SecureChannel/Sending.antt =====
-- The sending of symmetric messages in chunks, of src/ua_securechannel.c. The security policy and
-- the network layer are parameters.
pub mod Room
pub mod Contexts
pub mod RoundTrip
use opcua_tsn_lo_i.Base.{
  ℕ, zero, suc, ◌+◌, ◌-◌, ◌*◌, ◌/◌, ◌%◌, ◌^◌, Bool, true, false, not, ◌&&◌, ◌||◌, Option, none,
  some, List, [], ◌∷◌, ◌++◌, ◌==◌, ltb, leb, if◌then◌else◌, length, take, drop,
}
use opcua_tsn_lo_i.Codec.{encode32}
use opcua_tsn_lo_i.SecureChannel.{
  Result, good, bad_internal_error, bad_response_too_large, or_result, is_good, MessageType, msg,
  opn, clo, err, other_type, SecurityMode, SecureChannel, is_signed, is_encrypted,
}

-- The part of UA_SecurityPolicyCryptoModule that a sender uses.
pub record LocalModule : Type 0 where
  pub encrypt : List ℕ → List ℕ × Result
  pub local_block_size : ℕ
  pub local_signature_size : ℕ
  pub sign_text : List ℕ → List ℕ × Result

-- UA_Connection: its limits, and what the network layer answers for the n-th chunk of a message.
pub record Connection : Type 0 where
  pub max_message_size : ℕ
  pub max_chunk_count : ℕ
  pub send_buffer_size : ℕ
  pub get_send_buffer : ℕ → Result
  pub send : ℕ → Result

-- UA_MessageContext. `body` stands between the header and `buf_pos`; `buf_end` is a position in the
-- buffer, and `buffer_length` its size. `sent` are the chunks that the network layer has taken.
pub record MessageContext : Type 0 where
  pub channel : SecureChannel
  pub request_id : ℕ
  pub message_type : MessageType
  pub chunks_so_far : ℕ
  pub message_size_so_far : ℕ
  pub buffer_length : ℕ
  pub body : List ℕ
  pub buf_end : ℕ
  pub is_final : Bool
  pub sent : List (List ℕ)

abbrev pub code_of : MessageType → ℕ
code_of msg = 0x47534d
code_of opn = 0x4e504f
code_of clo = 0x4f4c43
code_of err = 0x525245
code_of other_type = 0

unfoldable pub repeat : ℕ → ℕ → List ℕ
repeat zero b = []
repeat (suc n) b = b ∷ repeat n b

-- calculatePaddingSym
unfoldable pub calculate_padding_sym : LocalModule → ℕ → ℕ
calculate_padding_sym m bytes_to_write =
    (m.local_block_size - (bytes_to_write + m.local_signature_size + 1) % m.local_block_size)
    % 2 ^ 16

-- The padding size as often as there is padding, and once more; and its high byte, if it has one.
unfoldable pub padding_bytes : ℕ → List ℕ
padding_bytes padding =
    let extra = padding / 2 ^ 8 % 2 ^ 8 in
    repeat (suc padding) (padding % 2 ^ 8) ++ (if ltb 0 extra then extra ∷ [] else [])

unfoldable pub padding_of : SecurityMode → LocalModule → List ℕ → List ℕ
padding_of mode m body =
    if is_encrypted mode then padding_bytes (calculate_padding_sym m (length body + 8)) else []

abbrev pub signature_size_of : SecurityMode → LocalModule → ℕ
signature_size_of mode m = if is_signed mode then m.local_signature_size else 0

-- setBufPos
unfoldable pub set_buf_pos : LocalModule → MessageContext → MessageContext
set_buf_pos m mc =
    let mode = mc.channel.security_mode in
    record mc {
      body = [];
      buf_end = mc.buffer_length - signature_size_of mode m - (if is_encrypted mode then 2 else 0);
    }

-- The headers of a chunk of that length.
unfoldable pub chunk_header : MessageContext → ℕ → ℕ → List ℕ
chunk_header mc total_length sequence_number =
    encode32 (code_of mc.message_type + (if mc.is_final then 0x46000000 else 0x43000000))
    ++ encode32 (total_length % 2 ^ 32)
    ++ encode32 mc.channel.security_token.channel_id
    ++ encode32 mc.channel.security_token.token_id
    ++ encode32 sequence_number
    ++ encode32 mc.request_id

-- The chunk with its signature, and then encrypted.
unfoldable pub sign_chunk : SecurityMode → LocalModule → List ℕ → List ℕ × Result
sign_chunk mode m text =
    if is_signed mode then (text ++ (m.sign_text text).0, (m.sign_text text).1) else (text, good)

unfoldable pub encrypt_chunk : SecurityMode → LocalModule → List ℕ → List ℕ × Result
encrypt_chunk mode m text =
    if is_encrypted mode
    then (take 16 text ++ (m.encrypt (drop 16 text)).0, (m.encrypt (drop 16 text)).1)
    else (text, good)

-- Does the chunk surpass what the peer takes of one message?
unfoldable pub too_large : Connection → MessageContext → Bool
too_large connection mc =
    ltb connection.max_message_size mc.message_size_so_far && not (connection.max_message_size == 0)
    || ltb connection.max_chunk_count mc.chunks_so_far && not (connection.max_chunk_count == 0)

-- The chunk as a whole. `total_length` is its length with the signature.
unfoldable pub total_length : LocalModule → MessageContext → ℕ
total_length m mc =
    let mode = mc.channel.security_mode in
    24 + length mc.body + length (padding_of mode m mc.body) + signature_size_of mode m

unfoldable pub seal_chunk : LocalModule → MessageContext → ℕ → List ℕ × Result
seal_chunk m mc sequence_number =
    let mode = mc.channel.security_mode in
    let text =
      chunk_header mc (total_length m mc) sequence_number ++ mc.body ++ padding_of mode m mc.body in
    let signed = sign_chunk mode m text in
    let sealed = encrypt_chunk mode m signed.0 in (sealed.0, or_result signed.1 sealed.1)

-- sendSymmetricChunk, from the padding on. The three headers take as many bytes as in memory, so that
-- UA_encodeBinary gives BADRESPONSETOOLARGE where one does not fit. At `none` the chunk is written outside the buffer.
unfoldable pub emit_chunk :
    LocalModule → Connection → MessageContext → Option (MessageContext × Result)
emit_chunk m connection mc =
    let sequence_number = (mc.channel.send_sequence_number + 1) % 2 ^ 32 in
    let sealed = seal_chunk m mc sequence_number in
    let result = or_result (if leb 24 mc.buf_end then good else bad_response_too_large) sealed.1 in
    let counted = record mc {
      channel = record mc.channel { send_sequence_number = sequence_number };
    } in
    if ltb mc.buffer_length (total_length m mc)
    then none
    else if is_good result
    then some (record counted { sent = mc.sent ++ sealed.0 ∷ [] }, connection.send mc.chunks_so_far)
    else some (counted, result)

-- sendSymmetricChunk. There is no connection at `none`.
unfoldable pub send_symmetric_chunk :
    LocalModule → Option Connection → MessageContext → Option (MessageContext × Result)
send_symmetric_chunk m none mc = some (mc, bad_internal_error)
send_symmetric_chunk m (some connection) mc =
    let counted = record mc {
      message_size_so_far = mc.message_size_so_far + length mc.body;
      chunks_so_far = (mc.chunks_so_far + 1) % 2 ^ 16;
    } in
    if too_large connection counted
    then some (counted, bad_response_too_large)
    else emit_chunk m connection counted
