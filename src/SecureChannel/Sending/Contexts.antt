-- ===== src/SecureChannel/Sending/Contexts.antt =====
-- UA_MessageContext and the exchange of buffers while a message is encoded, of
-- src/ua_securechannel.c.
use opcua_tsn_lo_i.Base.{ℕ, Bool, true, false, not, Option, none, some, [], leb, if◌then◌else◌}
use opcua_tsn_lo_i.SecureChannel.{
  Result, good, bad_internal_error, bad_response_too_large, is_good, MessageType, msg, clo,
  SecureChannel,
}
use opcua_tsn_lo_i.SecureChannel.Sending.{
  LocalModule, Connection, MessageContext, set_buf_pos, send_symmetric_chunk,
}

abbrev pub is_chunked : MessageType → Bool
is_chunked msg = true
is_chunked clo = true
is_chunked _ = false

-- UA_MessageContext_begin
unfoldable pub message_context_begin :
    LocalModule → Option Connection → SecureChannel → ℕ → MessageType → MessageContext × Result
message_context_begin m connection channel i type =
    let mc : MessageContext = record {
      channel = channel;
      request_id = i;
      message_type = type;
      chunks_so_far = 0;
      message_size_so_far = 0;
      buffer_length = 0;
      body = [];
      buf_end = 0;
      is_final = false;
      sent = [];
    } in
    elim connection [
      | none ↦ (mc, bad_internal_error)
      | some connection ↦
          let granted = connection.get_send_buffer 0 in
          if not (is_chunked type)
          then (mc, bad_internal_error)
          else if leb connection.send_buffer_size 24
          then (mc, bad_response_too_large)
          else if is_good granted
          then (set_buf_pos m (record mc { buffer_length = connection.send_buffer_size }), good)
          else (mc, granted)
    ]

-- The rest of sendSymmetricEncodingCallback: a new buffer for the next chunk.
unfoldable pub next_buffer :
    LocalModule → Connection → MessageContext × Result → MessageContext × Result
next_buffer m connection (mc, result) =
    let granted = connection.get_send_buffer mc.chunks_so_far in
    if not (is_good result)
    then (mc, result)
    else if is_good granted
    then (set_buf_pos m (record mc { buffer_length = connection.send_buffer_size }), good)
    else (mc, granted)

-- sendSymmetricEncodingCallback
unfoldable pub send_symmetric_encoding_callback :
    LocalModule → Option Connection → MessageContext → Option (MessageContext × Result)
send_symmetric_encoding_callback m none mc = send_symmetric_chunk m none mc
send_symmetric_encoding_callback m (some connection) mc =
    elim (send_symmetric_chunk m (some connection) mc) [
      | none ↦ none
      | some r ↦ some (next_buffer m connection r)
    ]

-- UA_MessageContext_finish
unfoldable pub message_context_finish :
    LocalModule → Option Connection → MessageContext → Option (MessageContext × Result)
message_context_finish m connection mc =
    send_symmetric_chunk m connection (record mc { is_final = true })
