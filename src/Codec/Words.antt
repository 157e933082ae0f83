-- ===== src/Codec/Words.antt =====
-- The numeric types of src/ua_types_encoding_binary.c read back what they write.
use opcua_tsn_lo_i.Base.{
  ℕ, ◌^◌, ◌<◌, ◌≡◌, refl, List, ◌∷◌, ◌++◌, Bool, true, false, if◌then◌else◌, arith,
}
use opcua_tsn_lo_i.Codec.{
  good, encode16, encode32, encode64, byte_decode, boolean_decode, uint16_decode, uint32_decode,
  uint64_decode,
}

pub byte_decode-cons : (v : ℕ) (rest : List ℕ) → byte_decode (v ∷ rest) ≡ (good, v, rest)
unfolding byte_decode
byte_decode-cons v rest = refl

pub boolean_decode-cons :
    (b : Bool) (rest : List ℕ) → boolean_decode ((if b then 1 else 0) ∷ rest) ≡ (good, b, rest)
unfolding boolean_decode
boolean_decode-cons true rest = refl
boolean_decode-cons false rest = refl

pub uint16_decode-encode16 :
    (v : ℕ) (rest : List ℕ) → v < 2 ^ 16 → uint16_decode (encode16 v ++ rest) ≡ (good, v, rest)
unfolding uint16_decode encode16
uint16_decode-encode16 v rest h = ground arith

pub uint32_decode-encode32 :
    (v : ℕ) (rest : List ℕ) → v < 2 ^ 32 → uint32_decode (encode32 v ++ rest) ≡ (good, v, rest)
unfolding uint32_decode encode32
uint32_decode-encode32 v rest h = ground arith

pub uint64_decode-encode64 :
    (v : ℕ) (rest : List ℕ) → v < 2 ^ 64 → uint64_decode (encode64 v ++ rest) ≡ (good, v, rest)
unfolding uint64_decode encode64
uint64_decode-encode64 v rest h = ground arith
