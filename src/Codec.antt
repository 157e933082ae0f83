-- ===== src/Codec.antt =====
-- src/ua_types_encoding_binary.c: the encoding context, the exchange of full buffers, and the
-- numeric types. A byte is a number below 256. A decoder reads the bytes between `pos` and `end`.
pub mod Words
pub mod Output
pub mod Arrays
pub mod NodeIds
pub mod DataValues
pub mod Texts
pub mod Discipline
use opcua_tsn_lo_i.Base.{
  ℕ, ◌+◌, ◌-◌, ◌*◌, ◌/◌, ◌%◌, ◌^◌, ◌<◌, Bool, true, false, Option, none, some, List, [], ◌∷◌, ◌++◌,
  length, take, drop, ltb, if◌then◌else◌,
}

-- `ored` is the bitwise or of two codes that have none of the names here. `stuck` is no code: it
-- says that a loop has used up its fuel.
pub data Status : Type 0 where
  good : Status
  bad_encoding_limits_exceeded bad_encoding_error bad_decoding_error bad_internal_error : Status
  bad_out_of_memory bad_not_implemented bad_response_too_large stuck : Status
  ored : Status → Status → Status

-- The bits of the second code are among those of the first, by the numbers of the codes.
pub absorbs : Status → Status → Bool
absorbs stuck t = true
absorbs bad_encoding_limits_exceeded bad_encoding_limits_exceeded = true
absorbs bad_encoding_error bad_encoding_error = true
absorbs bad_encoding_error bad_internal_error = true
absorbs bad_decoding_error bad_decoding_error = true
absorbs bad_decoding_error bad_encoding_error = true
absorbs bad_decoding_error bad_internal_error = true
absorbs bad_decoding_error bad_out_of_memory = true
absorbs bad_internal_error bad_internal_error = true
absorbs bad_out_of_memory bad_out_of_memory = true
absorbs bad_out_of_memory bad_internal_error = true
absorbs bad_not_implemented bad_not_implemented = true
absorbs bad_response_too_large bad_response_too_large = true
absorbs bad_response_too_large bad_encoding_limits_exceeded = true
absorbs s t = false

pub joined : Status → Status → Status
joined s t = if absorbs s t then s else if absorbs t s then t else ored s t

-- `ret |= e`
abbrev pub or_status : Status → Status → Status
or_status good t = t
or_status s good = s
or_status s t = joined s t

abbrev pub is_good : Status → Bool
is_good good = true
is_good _ = false

abbrev pub is_limits : Status → Bool
is_limits bad_encoding_limits_exceeded = true
is_limits _ = false

abbrev pub is_stuck : Status → Bool
is_stuck stuck = true
is_stuck _ = false

-- What the exchange callback answers: a fresh buffer of that size, or an error.
pub data Answer : Type 0 where
  granted : ℕ → Answer
  refused : Status → Answer

-- `buffer` is what stands in the current buffer, `room` is `end - pos`, and `sent` holds the
-- buffers that the callback has taken, in order. The callback answers its n-th call by `answer n`.
pub record Ctx : Type 0 where
  pub buffer : List ℕ
  pub room : ℕ
  pub sent : List (List ℕ)
  pub callback : Option (ℕ → Answer)

abbrev pub Encoder : Type 0
Encoder = Ctx → Status × Ctx

abbrev pub Decoder : Type 0 → Type 0
Decoder A = List ℕ → Status × A × List ℕ

-- Write bytes for which there is room.
unfoldable pub advance : List ℕ → Ctx → Ctx
advance bs c = record c { buffer = c.buffer ++ bs; room = c.room - length bs }

answered : Answer → Ctx → Status × Ctx
answered (granted n) c =
    (good, record c { buffer = []; room = n; sent = c.sent ++ (c.buffer ∷ []) })
answered (refused s) c = (s, c)

exchange_by : Option (ℕ → Answer) → Encoder
unfolding answered
exchange_by none c = (bad_encoding_error, c)
exchange_by (some answer) c = answered (answer (length c.sent)) c

unfoldable pub exchange_buffer : Encoder
unfolding exchange_by
exchange_buffer c = exchange_by c.callback c

-- The check and the copy that all types of a fixed width share.
unfoldable pub encode_bytes : List ℕ → Encoder
encode_bytes bs c =
    if ltb c.room (length bs) then (bad_encoding_limits_exceeded, c) else (good, advance bs c)

-- The second result of `encodeFunc` on the fresh buffer is not looked at.
unfoldable pub encode_with_exchange_buffer : Encoder → Encoder
encode_with_exchange_buffer f c =
    let (ret, c') = f c in
    if is_limits ret
    then (let (ret', c'') = exchange_buffer c' in
        if is_good ret' then (good, (f c'').1) else (ret', c''))
    else (good, c')

-- Two statements of an encoder: with a check of the first result between them, and without.
abbrev pub and_then : Encoder → Encoder → Encoder
and_then f g c = let (ret, c') = f c in if is_good ret then g c' else (ret, c')

abbrev pub or_also : Encoder → Encoder → Encoder
or_also f g c = let (ret, c') = f c in let (ret', c'') = g c' in (or_status ret ret', c'')

abbrev pub then_copy : Encoder → List ℕ → Encoder
then_copy f bs c =
    let (ret, c') = f c in
    if ltb c'.room (length bs) then (bad_encoding_limits_exceeded, c') else (ret, advance bs c')

abbrev pub skip : Encoder
skip c = (good, c)

abbrev pub fail : Status → Encoder
fail s c = (s, c)

abbrev pub byte_of : ℕ → ℕ
byte_of v = v % 256

unfoldable pub encode16 : ℕ → List ℕ
encode16 v = byte_of v ∷ byte_of (v / 2 ^ 8) ∷ []

unfoldable pub encode32 : ℕ → List ℕ
encode32 v = byte_of v ∷ byte_of (v / 2 ^ 8) ∷ byte_of (v / 2 ^ 16) ∷ byte_of (v / 2 ^ 24) ∷ []

unfoldable pub encode64 : ℕ → List ℕ
encode64 v =
    byte_of v
    ∷ byte_of (v / 2 ^ 8)
    ∷ byte_of (v / 2 ^ 16)
    ∷ byte_of (v / 2 ^ 24)
    ∷ byte_of (v / 2 ^ 32)
    ∷ byte_of (v / 2 ^ 40)
    ∷ byte_of (v / 2 ^ 48)
    ∷ byte_of (v / 2 ^ 56)
    ∷ []

unfoldable pub byte_encode : ℕ → Encoder
byte_encode v = encode_bytes (v ∷ [])

unfoldable pub uint16_encode : ℕ → Encoder
uint16_encode v = encode_bytes (encode16 v)

unfoldable pub uint32_encode : ℕ → Encoder
uint32_encode v = encode_bytes (encode32 v)

unfoldable pub uint64_encode : ℕ → Encoder
uint64_encode v = encode_bytes (encode64 v)

unfoldable pub boolean_encode : Bool → Encoder
boolean_encode b = byte_encode (if b then 1 else 0)

-- A part that is only there if a flag says so.
abbrev pub decode_if : {A : Type 0} → Bool → A → Decoder A → Decoder A
decode_if b default d bs = if b then d bs else (good, default, bs)

-- Where a decoder fails the destination keeps the zero that it was initialised with.
unfoldable pub byte_decode : Decoder ℕ
byte_decode (a ∷ bs) = (good, a, bs)
byte_decode bs = (bad_decoding_error, 0, bs)

unfoldable pub boolean_decode : Decoder Bool
boolean_decode (a ∷ bs) = (good, ltb 0 a, bs)
boolean_decode bs = (bad_decoding_error, false, bs)

unfoldable pub uint16_decode : Decoder ℕ
uint16_decode (a ∷ b ∷ bs) = (good, (a + b * 2 ^ 8) % 2 ^ 16, bs)
uint16_decode bs = (bad_decoding_error, 0, bs)

unfoldable pub uint32_decode : Decoder ℕ
uint32_decode (a ∷ b ∷ c ∷ d ∷ bs) = (good, (a + b * 2 ^ 8 + c * 2 ^ 16 + d * 2 ^ 24) % 2 ^ 32, bs)
uint32_decode bs = (bad_decoding_error, 0, bs)

unfoldable pub uint64_decode : Decoder ℕ
uint64_decode (a ∷ b ∷ c ∷ d ∷ e ∷ f ∷ g ∷ h ∷ bs) = (
  good,
  (a + b * 2 ^ 8 + c * 2 ^ 16 + d * 2 ^ 24 + e * 2 ^ 32 + f * 2 ^ 40 + g * 2 ^ 48 + h * 2 ^ 56)
      % 2 ^ 64,
  bs,
)
uint64_decode bs = (bad_decoding_error, 0, bs)
