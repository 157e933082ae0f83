-- ===== src/SecureChannel.antt =====
-- The secure channel of src/ua_securechannel.h, and the parts of src/ua_securechannel.c that keep
-- its state: tokens, sequence numbers, and the chunks of messages that are not complete.
pub mod Receiving
pub mod Sending
pub mod Replay
pub mod Assembly
pub mod Manager
use opcua_tsn_lo_i.Base.{
  ℕ, ◌+◌, ◌-◌, ◌%◌, ◌^◌, Bool, true, false, ◌&&◌, Option, none, some, List, [], ◌∷◌, ◌++◌, ◌==◌,
  ltb, if◌then◌else◌,
}

-- `failed` is a code of the security policy or of the application, and `ored` the bitwise or of
-- two codes.
pub data Result : Type 0 where
  good : Result
  bad_out_of_memory bad_internal_error bad_decoding_error : Result
  bad_security_checks_failed bad_token_unknown bad_channel_id_invalid : Result
  bad_message_type_invalid bad_policy_rejected bad_response_too_large : Result
  bad_connection_closed : Result
  bad_security_mode_rejected : Result
  failed : ℕ → Result
  ored : Result → Result → Result

pub data MessageType : Type 0 where
  msg opn clo err : MessageType
  other_type : MessageType

pub data ChunkType : Type 0 where
  final intermediate abort : ChunkType
  other_chunk : ChunkType

pub data ChannelState : Type 0 where
  fresh opened closed : ChannelState

pub data SecurityMode : Type 0 where
  invalid_mode no_security sign sign_and_encrypt : SecurityMode

pub record SecurityToken : Type 0 where
  pub channel_id : ℕ
  pub token_id : ℕ
  pub created_at : ℕ
  pub revised_lifetime : ℕ

-- What has come in of a message that is not complete.
pub record ChunkEntry : Type 0 where
  pub request_id : ℕ
  pub bytes : List ℕ

pub record SecureChannel : Type 0 where
  pub state : ChannelState
  pub security_mode : SecurityMode
  pub security_token : SecurityToken
  pub next_security_token : SecurityToken
  pub receive_sequence_number : ℕ
  pub send_sequence_number : ℕ
  pub chunks : List ChunkEntry

abbrev pub is_good : Result → Bool
is_good good = true
is_good _ = false

-- `res |= e`
abbrev pub or_result : Result → Result → Result
or_result good t = t
or_result s good = s
or_result s t = ored s t

abbrev pub is_fresh : ChannelState → Bool
is_fresh fresh = true
is_fresh _ = false

abbrev pub is_signed : SecurityMode → Bool
is_signed sign = true
is_signed sign_and_encrypt = true
is_signed _ = false

abbrev pub is_encrypted : SecurityMode → Bool
is_encrypted sign_and_encrypt = true
is_encrypted _ = false

-- UA_ChannelSecurityToken_init
abbrev pub no_token : SecurityToken
no_token = record { channel_id = 0; token_id = 0; created_at = 0; revised_lifetime = 0 }

-- UA_SecureChannel_revolveTokens. `keys` is the answer of UA_SecureChannel_generateNewKeys.
unfoldable pub revolve_tokens : Result → SecureChannel → SecureChannel × Result
revolve_tokens keys c =
    if c.next_security_token.token_id == 0
    then (c, bad_token_unknown)
    else (record c { security_token = c.next_security_token; next_security_token = no_token }, keys)

-- checkSymHeader
unfoldable pub check_sym_header : Result → ℕ → SecureChannel → SecureChannel × Result
check_sym_header keys token_id c =
    if token_id == c.security_token.token_id
    then (c, good)
    else if token_id == c.next_security_token.token_id
    then revolve_tokens keys c
    else (c, bad_token_unknown)

-- processSequenceNumberAsym
unfoldable pub process_sequence_number_asym : ℕ → SecureChannel → SecureChannel × Result
process_sequence_number_asym n c = (record c { receive_sequence_number = n }, good)

-- processSequenceNumberSym
unfoldable pub process_sequence_number_sym : ℕ → SecureChannel → SecureChannel × Result
process_sequence_number_sym n c =
    let next = (c.receive_sequence_number + 1) % 2 ^ 32 in
    if n == next
    then (record c { receive_sequence_number = next }, good)
    else if ltb 4294966271 next && ltb n 1024
    then (record c { receive_sequence_number = ((n + 2 ^ 32 - 1) % 2 ^ 32 + 1) % 2 ^ 32 }, good)
    else (c, bad_security_checks_failed)

-- UA_SecureChannel_removeChunks
unfoldable pub remove_chunks : ℕ → List ChunkEntry → List ChunkEntry
remove_chunks i [] = []
remove_chunks i (e ∷ es) = if e.request_id == i then es else e ∷ remove_chunks i es

-- The entry that the loops over the chunks stop at.
unfoldable pub find_chunks : ℕ → List ChunkEntry → Option ChunkEntry
find_chunks i [] = none
find_chunks i (e ∷ es) = if e.request_id == i then some e else find_chunks i es

-- A change of the bytes of that entry.
unfoldable pub set_chunks : ℕ → List ℕ → List ChunkEntry → List ChunkEntry
set_chunks i bytes [] = []
set_chunks i bytes (e ∷ es) =
    if e.request_id == i then record e { bytes = bytes } ∷ es else e ∷ set_chunks i bytes es

-- appendChunk. `memory` says whether realloc succeeds; the bytes are deleted if it does not.
unfoldable pub append_chunk : Bool → List ℕ → List ℕ → List ℕ × Result
append_chunk memory bytes body = if memory then (bytes ++ body, good) else ([], bad_out_of_memory)

-- UA_SecureChannel_appendChunk. `entry_memory` says whether malloc gives an entry.
abbrev pub append_to : Bool → ℕ → List ℕ → List ℕ → List ChunkEntry → List ChunkEntry × Result
append_to memory i bytes body es =
    let r = append_chunk memory bytes body in (set_chunks i r.0 es, r.1)

unfoldable pub channel_append_chunk :
    Bool → Bool → ℕ → List ℕ → List ChunkEntry → List ChunkEntry × Result
channel_append_chunk entry_memory memory i body es = elim (find_chunks i es) [
  | some e ↦ append_to memory i e.bytes body es
  | none ↦
      if entry_memory
      then append_to memory i [] body (record { request_id = i; bytes = [] } ∷ es)
      else (es, bad_out_of_memory)
]

-- The application that takes complete messages: its state after a message, what it makes of the
-- channel, and its answer.
abbrev pub ProcessMessageCallback : Type 0 → Type 0
ProcessMessageCallback A =
    MessageType → ℕ → List ℕ → A × SecureChannel → (A × SecureChannel) × Result

-- UA_SecureChannel_finalizeChunk
unfoldable pub finalize_chunk :
    {A : Type 0}
    → ProcessMessageCallback A
    → Bool
    → MessageType
    → ℕ
    → List ℕ
    → A × SecureChannel
    → (A × SecureChannel) × Result
finalize_chunk callback memory type i body (a, c) = elim (find_chunks i c.chunks) [
  | none ↦ callback type i body (a, c)
  | some e ↦
      let r = append_chunk memory e.bytes body in
      if is_good r.1
      then callback type i r.0 (a, record c { chunks = remove_chunks i c.chunks })
      else ((a, record c { chunks = set_chunks i r.0 c.chunks }), r.1)
]

-- The end of UA_SecureChannel_processChunk, where the payload is taken by the type of the chunk.
unfoldable pub process_payload :
    {A : Type 0}
    → ProcessMessageCallback A
    → Bool
    → Bool
    → MessageType
    → ChunkType
    → ℕ
    → List ℕ
    → A × SecureChannel
    → (A × SecureChannel) × Result
process_payload callback entry_memory memory type final i body s =
    finalize_chunk callback memory type i body s
process_payload callback entry_memory memory type intermediate i body (a, c) =
    let r = channel_append_chunk entry_memory memory i body c.chunks in
    ((a, record c { chunks = r.0 }), r.1)
process_payload callback entry_memory memory type abort i body (a, c) =
    ((a, record c { chunks = remove_chunks i c.chunks }), good)
process_payload callback entry_memory memory type other_chunk i body s =
    (s, bad_message_type_invalid)
