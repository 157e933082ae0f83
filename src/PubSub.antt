-- ===== src/PubSub.antt =====
-- src/pubsub/ua_pubsub_networkmessage.c: the coding of PubSub network messages. Its encoders run
-- those of src/ua_types_encoding_binary.c without an exchange callback, each on what the last one
-- left of the buffer.
pub mod Reading
pub mod DataSetHeader
pub mod DataSetMessage
pub mod GroupHeader
pub mod SecurityHeader
pub mod Footer
pub mod PublisherId
pub mod NetworkMessage
use opcua_tsn_lo_i.Base.{ℕ, zero, suc, ◌+◌, Bool, none, List, [], ◌∷◌, ltb, if◌then◌else◌}
use opcua_tsn_lo_i.Codec.{
  good, bad_encoding_error, bad_response_too_large, is_good, is_limits, Encoder, Decoder, decode_if,
  and_then, skip, byte_encode, uint16_encode, uint32_encode, uint64_encode,
}

-- A part of a decoder that fills in members of `dst`.
abbrev pub Reader : Type 0 → Type 0
Reader H = H → Decoder H

-- `if(rv != UA_STATUSCODE_GOOD) return rv;` between two parts.
unfoldable pub and_read : {H : Type 0} → Reader H → Reader H → Reader H
and_read f g dst bs =
    let (rv, dst', rest) = f dst bs in if is_good rv then g dst' rest else (rv, dst', rest)

-- A member that is decoded if a flag in `dst` says so, and keeps the value `blank` otherwise.
unfoldable pub read_if : {H A : Type 0} → (H → Bool) → A → Decoder A → (H → A → H) → Reader H
read_if on blank d put dst bs =
    let (rv, v, rest) = decode_if (on dst) blank d bs in (rv, put dst v, rest)

-- UA_decodeBinary: a value that cannot be decoded is cleaned up, and the offset stays.
unfoldable pub decode_binary : {A : Type 0} → A → Decoder A → Decoder A
decode_binary blank d bs =
    let (ret, v, rest) = d bs in if is_good ret then (good, v, rest) else (ret, blank, bs)

-- UA_encodeBinary without a callback: where the buffer is full, it goes back to the position that
-- it started at, fails to exchange the buffer, and says whether the type would fit in memory.
unfoldable pub encode_binary : ℕ → Encoder → Encoder
encode_binary mem_size f c =
    let (ret, c') = f (record c { callback = none }) in
    if is_limits ret
    then (if ltb c.room mem_size then bad_response_too_large else bad_encoding_error, c)
    else (ret, record c' { callback = c.callback })

unfoldable pub write_byte : ℕ → Encoder
write_byte v = encode_binary 1 (byte_encode v)

unfoldable pub write_uint16 : ℕ → Encoder
write_uint16 v = encode_binary 2 (uint16_encode v)

unfoldable pub write_uint32 : ℕ → Encoder
write_uint32 v = encode_binary 4 (uint32_encode v)

unfoldable pub write_uint64 : ℕ → Encoder
write_uint64 v = encode_binary 8 (uint64_encode v)

-- On a platform with pointers of 8 bytes.
abbrev pub sizeof_string : ℕ
sizeof_string = 16

abbrev pub sizeof_guid : ℕ
sizeof_guid = 16

abbrev pub sizeof_variant : ℕ
sizeof_variant = 48

abbrev pub sizeof_data_value : ℕ
sizeof_data_value = 96

-- The loops over arrays. Where an element fails, the ones before it are there.
unfoldable pub encode_all : {A : Type 0} → (A → Encoder) → List A → Encoder
encode_all f [] = skip
encode_all f (x ∷ xs) = and_then (f x) (encode_all f xs)

unfoldable pub decode_all : {A : Type 0} → Decoder A → ℕ → Decoder (List A)
decode_all d zero bs = (good, [], bs)
decode_all d (suc n) bs =
    let (rv, x, rest) = d bs in
    let (rv', xs, rest') = decode_all d n rest in
    if is_good rv then (rv', x ∷ xs, rest') else (rv, [], rest)

unfoldable pub size_all : {A : Type 0} → (A → ℕ) → List A → ℕ
size_all size [] = 0
size_all size (x ∷ xs) = size x + size_all size xs
