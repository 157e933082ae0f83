-- ===== src/Examples/Channels.antt =====
-- Examples for src/ua_securechannel.c.
use opcua_tsn_lo_i.Base.{
  ℕ, suc, ◌+◌, ◌-◌, ◌%◌, ◌^◌, ◌≡◌, ◌≢◌, refl, ap, true, false, none, some, List, [], ◌∷◌, ◌++◌,
  arith, ◌==◌, if◌then◌else◌, length, take, drop, All, map,
}
use opcua_tsn_lo_i.SecureChannel.{
  Result, good, failed, msg, opn, final, intermediate, abort, opened, sign_and_encrypt,
  SecureChannel, no_token, process_sequence_number_asym, process_sequence_number_sym,
}
use opcua_tsn_lo_i.SecureChannel.Receiving.{
  CryptoModule, Decrypted, decrypted, byte_before, padding_size, payload_of, verify_chunk,
  unpack_chunk, decrypt_chunk, uint32_at, body_of,
}
use opcua_tsn_lo_i.Codec.{uint32_decode}
use opcua_tsn_lo_i.SecureChannel.Receiving.Checks.{
  IsInside, decrypt_chunk-IsInside, decrypt_chunk-payload_outside,
}
use opcua_tsn_lo_i.SecureChannel.Replay.{
  Accepts, accepts_none, accepts_one, process_sequence_number_sym-takes_once,
}
use opcua_tsn_lo_i.SecureChannel.Assembly.{Chunk, messages, take_chunks, got, take_chunks-assembles}
use opcua_tsn_lo_i.SecureChannel.Sending.{
  LocalModule, Connection, MessageContext, repeat, calculate_padding_sym, padding_bytes, padding_of,
  set_buf_pos, total_length, seal_chunk, send_symmetric_chunk, too_large,
}
use opcua_tsn_lo_i.SecureChannel.Sending.Room.{
  counted, send_symmetric_chunk-in_room, send_symmetric_chunk-out_of_room,
}
use opcua_tsn_lo_i.SecureChannel.Sending.RoundTrip.{seal_chunk-opens}
use opcua_tsn_lo_i.SecureChannel.Sending.RoundTrip.Sealed.{IsPeer}

abbrev channel : SecureChannel
channel = record {
  state = opened;
  security_mode = sign_and_encrypt;
  security_token = record { channel_id = 3; token_id = 8; created_at = 0; revised_lifetime = 60 };
  next_security_token = no_token;
  receive_sequence_number = 5;
  send_sequence_number = 40;
  chunks = [];
}

-- Chunks of two requests, mixed.
abbrev mixed : List Chunk
mixed =
    record { chunk = intermediate; request_id = 1; body = 10 ∷ [] }
    ∷ record { chunk = intermediate; request_id = 2; body = 20 ∷ [] }
    ∷ record { chunk = final; request_id = 1; body = 11 ∷ [] }
    ∷ record { chunk = abort; request_id = 2; body = [] }
    ∷ record { chunk = final; request_id = 2; body = 21 ∷ [] }
    ∷ []

take_chunks-assembles_example : got 2 (take_chunks msg mixed ([], channel)).0 ≡ messages 2 [] mixed
take_chunks-assembles_example = take_chunks-assembles msg mixed channel 2 refl

abbrev received : ℕ → SecureChannel
received n = record channel { receive_sequence_number = n }

two_accepted : Accepts (6 ∷ (7 ∷ [])) channel (received 7)
unfolding process_sequence_number_sym
two_accepted =
    accepts_one 6 (7 ∷ []) channel (received 7) refl
      (accepts_one 7 [] (received 6) (received 7) refl (accepts_none (received 7)))

process_sequence_number_sym-takes_once_example :
    All (λ (m : ℕ). m ≢ 6) (7 ∷ [])
    × ((process_sequence_number_sym 6
          (process_sequence_number_asym ((6 + 2 ^ 32 - 1) % 2 ^ 32) (received 7)).0).1
        ≡ good)
process_sequence_number_sym-takes_once_example =
    process_sequence_number_sym-takes_once 6 (7 ∷ []) channel (received 7) (omega arith)
      (omega arith, (omega arith, tt)) (omega arith) two_accepted

-- Encryption adds one to each byte, and a signature tells the length.
abbrev checksum : List ℕ → List ℕ
checksum text = length text % 256 ∷ []

abbrev same_checksum : List ℕ → List ℕ → Result
same_checksum text [] = failed 1
same_checksum text (s ∷ ss) = if s == length text % 256 then good else failed 1

abbrev local_side : LocalModule
local_side = record {
  encrypt = λ text. (map suc text, good);
  local_block_size = 16;
  local_signature_size = 1;
  sign_text = λ text. (checksum text, good);
}

abbrev pred : ℕ → ℕ
pred n = n - 1

abbrev remote_side : CryptoModule
remote_side = record {
  decrypt = λ text. (map pred text, good);
  remote_signature_size = 1;
  remote_key_length = 256;
  verify = same_checksum;
}

map_back : (text : List ℕ) → map pred (map suc text) ≡ text
map_back [] = refl
map_back (b ∷ bs) = rw (map_back bs) (ap (λ n. n ∷ bs) (omega arith))

length-map : (f : ℕ → ℕ) (text : List ℕ) → length (map f text) ≡ length text
length-map f [] = refl
length-map f (b ∷ bs) = ap suc (length-map f bs)

sides-ArePeers : IsPeer local_side remote_side
sides-ArePeers = record {
  decrypts = λ text. ap (λ bs. (bs, good)) (map_back text);
  keeps = length-map suc;
  signs = λ text. refl;
  verifies = λ text. ground arith;
  signature_size = refl;
  key = omega arith;
  block = (omega arith, omega arith);
}

-- A context whose buffer has that length, with that many bytes written.
abbrev context : ℕ → ℕ → MessageContext
context size n = record {
  channel = channel;
  request_id = 77;
  message_type = msg;
  chunks_so_far = 0;
  message_size_so_far = 0;
  buffer_length = size;
  body = repeat n 9;
  buf_end = size - 1 - 2;
  is_final = true;
  sent = [];
}

abbrev connection : Connection
connection = record {
  max_message_size = 0;
  max_chunk_count = 0;
  send_buffer_size = 90;
  get_send_buffer = λ n. good;
  send = λ n. good;
}

placed : (size n : ℕ) → (context size n).buf_end ≡ (set_buf_pos local_side (context size n)).buf_end
unfolding set_buf_pos
placed size n = refl

written : (24 + length (context 80 53).body ≡ 77) × (24 + length (context 90 63).body ≡ 87)
unfolding repeat
written = (refl, refl)

send_symmetric_chunk-in_room_example :
    (r : MessageContext × Result) × (send_symmetric_chunk local_side
        (some connection)
        (context 80 53)
      ≡ some r)
send_symmetric_chunk-in_room_example =
    send_symmetric_chunk-in_room local_side (context 80 53) refl (omega arith, omega arith)
      (placed 80 53) (omega (arith, written)) refl (some connection)

within_limits : too_large connection (counted (context 90 63)) ≡ false
unfolding too_large repeat
within_limits = refl

send_symmetric_chunk-out_of_room_example :
    send_symmetric_chunk local_side (some connection) (context 90 63) ≡ none
send_symmetric_chunk-out_of_room_example =
    send_symmetric_chunk-out_of_room local_side (context 90 63) refl (omega arith, omega arith)
      (placed 90 63) (omega (arith, written)) connection (λ e. absurd (omega (arith, e))) written.1
      within_limits

sealed_length : total_length local_side (context 80 3) ≡ 32
unfolding total_length padding_of padding_bytes calculate_padding_sym repeat
sealed_length = refl

seal_chunk-opens_example :
    (let chunk = (seal_chunk local_side (context 80 3) 41).0 in
      (d : Decrypted) × (decrypt_chunk sign_and_encrypt remote_side msg chunk 16 ≡ decrypted d)
      × (d.request_id ≡ 77)
      × (d.sequence_number ≡ 41)
      × (body_of final d ≡ some (repeat 3 9))
      × (uint32_at 12 chunk ≡ some 8)
      × (length chunk ≡ total_length local_side (context 80 3)))
unfolding repeat
seal_chunk-opens_example =
    seal_chunk-opens local_side remote_side msg (context 80 3) 41 sides-ArePeers refl (omega arith)
      (omega arith) (omega arith) (omega arith) (omega (arith, sealed_length))

-- A chunk with the sequence header, five bytes of payload, two bytes of padding and the signature.
abbrev good_chunk : List ℕ
good_chunk =
    repeat 16 9
    ++ 8
      ∷ (1
          ∷ (1
              ∷ (1
                  ∷ (7
                      ∷ (1
                          ∷ (1
                              ∷ (1 ∷ (12 ∷ (13 ∷ (14 ∷ (15 ∷ (16 ∷ (2 ∷ (2 ∷ (32 ∷ [])))))))))))))))

abbrev good_payload : Decrypted
good_payload = record {
  request_id = 6;
  sequence_number = 7;
  buffer = repeat 16 9 ++ map pred (drop 16 good_chunk);
  start = 24;
  size = 5;
}

good_taken : decrypt_chunk sign_and_encrypt remote_side msg good_chunk 16 ≡ decrypted good_payload
unfolding decrypt_chunk unpack_chunk verify_chunk payload_of padding_size byte_before repeat
    uint32_at uint32_decode
good_taken = refl

decrypt_chunk-IsInside_example : IsInside 32 good_payload
unfolding repeat
decrypt_chunk-IsInside_example =
    decrypt_chunk-IsInside sign_and_encrypt remote_side msg good_chunk 16 good_payload
      (length-map pred) (omega arith) (omega arith) good_taken

-- A decryption that leaves four bytes, the third of which tells the padding. The fourth is the
-- signature.
abbrev shrinking : CryptoModule
shrinking = record {
  decrypt = λ text. (take 4 text, good);
  remote_signature_size = 1;
  remote_key_length = 256;
  verify = same_checksum;
}

abbrev crafted : List ℕ
crafted = repeat 18 0 ++ 1 ∷ (19 ∷ repeat 40 0)

padded : padding_size shrinking 20 crafted ≡ some 2
unfolding padding_size byte_before repeat
padded = refl

decrypt_chunk-payload_outside_example :
    (d : Decrypted) × (decrypt_chunk sign_and_encrypt shrinking opn crafted 16 ≡ decrypted d)
    × (d.start ≡ 24)
    × (d.size + 11 ≡ 2 ^ 64 + 4)
    × (body_of final d ≡ none)
unfolding repeat
decrypt_chunk-payload_outside_example =
    decrypt_chunk-payload_outside sign_and_encrypt shrinking crafted (0 ∷ (0 ∷ (1 ∷ (19 ∷ []))))
      crafted 16 2 refl refl refl padded refl (omega arith) (omega arith) (omega arith)
      (omega arith) (omega arith)
