-- ===== src/Codec/Arrays.antt =====
-- Arrays of overlayable elements, and the strings, of src/ua_types_encoding_binary.c.
use opcua_tsn_lo_i.Base.{
  ℕ, zero, suc, ◌+◌, ◌-◌, ◌*◌, ◌/◌, ◌^◌, ◌≤◌, ◌<◌, ◌≡◌, ◌⊎◌, refl, sym, ◌∙◌, inl, inr, true, false,
  Option, none, some, List, [], ◌∷◌, ◌++◌, arith, ltb, ◌==◌, if◌then◌else◌, Bool-cases, length,
  take, drop, take-append, drop-append, length-append, length-drop, take-append-drop, append-nil,
  append_assoc, subst,
}
use opcua_tsn_lo_i.Codec.{
  good, bad_internal_error, bad_decoding_error, stuck, is_good, is_limits, is_stuck, Ctx, Encoder,
  Decoder, advance, exchange_buffer, encode_with_exchange_buffer, and_then, skip, fail, encode32,
  uint32_encode, uint32_decode,
}
use opcua_tsn_lo_i.Codec.Words.{uint32_decode-encode32}
use opcua_tsn_lo_i.Codec.Output.{
  uint32_exchange-Encodes, output, Serves, Outcome, Encodes, Codes, advance-Outcome, output-advance,
  chain-Outcome, exchange-Outcome, exchange-HasRoom, and_then-Encodes, skip-Encodes,
}

abbrev pub int32_max : ℕ
int32_max = 2 ^ 31 - 1

-- The loop and the last copy of `Array_encodeBinaryOverlayable`; `bs` is what is not yet encoded.
unfoldable pub overlayable_loop : ℕ → ℕ → List ℕ → Encoder
overlayable_loop size zero bs c = (stuck, c)
overlayable_loop size (suc fuel) bs c =
    let possible_mem = c.room / size * size in
    let (ret, c') = exchange_buffer (advance (take possible_mem bs) c) in
    let rest = overlayable_loop size fuel (drop possible_mem bs) c' in
    if ltb c.room (length bs)
    then (if is_good ret then rest else (ret, c'))
    else (good, advance bs c)

-- Each buffer that is exchanged takes an element at least, but for the first one.
unfoldable pub array_encode_overlayable : ℕ → List ℕ → Encoder
array_encode_overlayable size bs = overlayable_loop size (suc (suc (length bs))) bs

-- `none` is the null pointer, and `some []` the sentinel of an empty array.
abbrev pub UaString : Type 0
UaString = Option (List ℕ)

abbrev pub content : UaString → List ℕ
content none = []
content (some bs) = bs

-- The `i32` as its bit pattern: a null string has the length -1.
unfoldable pub signed_length : UaString → ℕ
signed_length none = 2 ^ 32 - 1
signed_length (some bs) = length bs

unfoldable pub string_encode : UaString → Encoder
string_encode s =
    if ltb int32_max (length (content s))
    then fail bad_internal_error
    else and_then (encode_with_exchange_buffer (uint32_encode (signed_length s)))
        (if length (content s) == 0 then skip else array_encode_overlayable 1 (content s))

-- Behind the length. Memory for the content is always there.
content_decode : ℕ → Decoder UaString
content_decode n bs =
    if ltb int32_max n
    then (good, none, bs)
    else if n == 0
    then (good, some [], bs)
    else if ltb (length bs) (n / 32)
    then (bad_decoding_error, none, bs)
    else if ltb (length bs) n
    then (bad_decoding_error, none, bs)
    else (good, some (take n bs), drop n bs)

unfoldable pub string_decode : Decoder UaString
unfolding content_decode
string_decode bs =
    let (ret, n, rest) = uint32_decode bs in
    if is_good ret then content_decode n rest else (ret, none, rest)

unfoldable pub string_calc_size : UaString → ℕ
string_calc_size s = 4 + length (content s)

-- The bytes of a string by the standard: its length and its content.
unfoldable pub string_bytes : UaString → List ℕ
string_bytes s = encode32 (signed_length s) ++ content s

abbrev pub IsShort : UaString → Type 0
IsShort s = length (content s) ≤ int32_max

signed_length-lt : (s : UaString) → IsShort s → signed_length s < 2 ^ 32
unfolding signed_length
signed_length-lt none h = omega arith
signed_length-lt (some bs) h = omega arith

content_decode-content :
    (s : UaString) (rest : List ℕ)
    → IsShort s
    → content_decode (signed_length s) (content s ++ rest) ≡ (good, s, rest)
unfolding content_decode signed_length
content_decode-content none rest h = refl
content_decode-content (some []) rest h = refl
content_decode-content (some (b ∷ bs)) rest h =
    ground
      (arith, take-append (b ∷ bs) rest, drop-append (b ∷ bs) rest, length-append (b ∷ bs) rest)

-- A string of at most INT32_MAX bytes is read back from its bytes: null, empty and other strings
-- are told apart, and what follows is left.
pub string_decode-string_bytes :
    (s : UaString) (rest : List ℕ)
    → IsShort s
    → string_decode (string_bytes s ++ rest) ≡ (good, s, rest)
unfolding string_decode string_bytes
string_decode-string_bytes s rest h =
    rw
      (
        append_assoc,
        uint32_decode-encode32 (signed_length s) (content s ++ rest) (signed_length-lt s h),
      )
      (content_decode-content s rest h)

-- The size that is computed beforehand is that of the bytes.
pub length-string_bytes : (s : UaString) → length (string_bytes s) ≡ string_calc_size s
unfolding string_bytes string_calc_size encode32
length-string_bytes s = omega arith

module _ (size : ℕ) where
  loop-Outcome : (fuel : ℕ) (bs : List ℕ) (c : Ctx) → Outcome c bs (overlayable_loop size fuel bs c)
  unfolding overlayable_loop
  loop-Outcome zero bs c = record { written = λ h. cc; kept = refl }
  loop-Outcome (suc fuel) bs c = elim (Bool-cases (ltb c.room (length bs))) [
    | inr space ↦ rw space (advance-Outcome bs c)
    | inl full ↦
        let n = c.room / size * size in
        let a = advance-Outcome (take n bs) c in
        let x = exchange-Outcome (advance (take n bs) c) in
        let r = exchange_buffer (advance (take n bs) c) in
        elim (Bool-cases (is_good r.0)) [
          | inl e ↦
              rw (full, e)
                (subst (λ z. Outcome c z (overlayable_loop size fuel (drop n bs) r.1))
                  (take-append-drop n bs)
                  (chain-Outcome (take n bs) (drop n bs) c r.1 _
                    (x.written e ∙ append-nil _ ∙ output-advance (take n bs) c) (x.kept ∙ a.kept)
                    (loop-Outcome fuel (drop n bs) r.1)))
          | inr e ↦ rw (full, e) (record { written = λ h. cc; kept = x.kept ∙ a.kept })
        ]
  ]

loop_fits :
    (size fuel : ℕ) (bs : List ℕ) (c : Ctx)
    → length bs ≤ c.room
    → overlayable_loop size (suc fuel) bs c ≡ (good, advance bs c)
unfolding overlayable_loop
loop_fits size fuel bs c h = ground arith

pub array_encode_overlayable-Encodes :
    (size : ℕ) (bs : List ℕ) → Encodes (array_encode_overlayable size bs) bs
unfolding array_encode_overlayable
array_encode_overlayable-Encodes size bs = record {
  fits = λ c h. loop_fits size (suc (length bs)) bs c h;
  writes = λ c s. loop-Outcome size (suc (suc (length bs))) bs c;
}

possible_mem_pos : (size room : ℕ) → 1 ≤ size → size ≤ room → 1 ≤ room / size * size
possible_mem_pos size room h k = grind arith

-- Every round but the first takes an element at least.
remaining_lt :
    (size fuel room len : ℕ)
    → 1 ≤ size
    → room < len
    → ((len < suc fuel) × (size ≤ room)) ⊎ (len + 1 < suc fuel)
    → len - room / size * size < fuel
remaining_lt size fuel room len lo h (inl (a, b)) = omega (arith, possible_mem_pos size room lo b)
remaining_lt size fuel room len lo h (inr a) = omega arith

loop_ends :
    (size fuel : ℕ) (bs : List ℕ) (c : Ctx)
    → 1 ≤ size
    → size ≤ 8
    → Serves c.callback
    → ((length bs < fuel) × (size ≤ c.room)) ⊎ (length bs + 1 < fuel)
    → let r = overlayable_loop size fuel bs c in (is_stuck r.0 ≡ false) × (is_limits r.0 ≡ false)
unfolding overlayable_loop
loop_ends size zero bs c lo hi s m = absurd (omega arith)
loop_ends size (suc fuel) bs c lo hi s m = elim (Bool-cases (ltb c.room (length bs))) [
  | inr space ↦ rw space (refl, refl)
  | inl full ↦
      let n = c.room / size * size in
      let c₁ = advance (take n bs) c in
      let r = exchange_buffer c₁ in
      let kept = (exchange-Outcome c₁).kept ∙ (advance-Outcome (take n bs) c).kept in
      let s₁ : Serves c₁.callback = subst Serves (sym (advance-Outcome (take n bs) c).kept) s in
      let (room, quiet, ends) = exchange-HasRoom c₁ s₁ in
      let remaining : length (drop n bs) < fuel =
        rw length-drop (remaining_lt size fuel c.room (length bs) lo (ground arith) m) in
      elim (Bool-cases (is_good r.0)) [
        | inl e ↦
            rw (full, e)
              (loop_ends size fuel (drop n bs) r.1 lo hi (subst Serves (sym kept) s)
                (inl (remaining, omega (arith, room e))))
        | inr e ↦ rw (full, e) (ends, quiet)
      ]
]

-- With elements of 1 to 8 bytes, and a callback whose buffers hold 8 bytes and whose errors are
-- not a full buffer, the encoding of an array of overlayable elements ends, never reports a full
-- buffer, and on success has put the elements into the output, in order and with nothing between
-- them, across all buffers.
pub array_encode_overlayable_complete :
    (size : ℕ) (bs : List ℕ) (c : Ctx)
    → 1 ≤ size
    → size ≤ 8
    → Serves c.callback
    → let r = array_encode_overlayable size bs c in
      (is_stuck r.0 ≡ false)
      × (is_limits r.0 ≡ false)
      × (is_good r.0 ≡ true → output r.1 ≡ output c ++ bs)
unfolding array_encode_overlayable
array_encode_overlayable_complete size bs c lo hi s =
    let (ends, quiet) = loop_ends size (suc (suc (length bs))) bs c lo hi s (inr (omega arith)) in
    (ends, quiet, (loop-Outcome size (suc (suc (length bs))) bs c).written)

pub content_encode-Encodes :
    (bs : List ℕ) → Encodes (if length bs == 0 then skip else array_encode_overlayable 1 bs) bs
content_encode-Encodes [] = skip-Encodes
content_encode-Encodes (b ∷ bs) =
    let filled : (length (b ∷ bs) == 0) ≡ false = ground arith in
    rw filled (array_encode_overlayable-Encodes 1 (b ∷ bs))

-- A string is written as its bytes.
pub string_encode-Encodes : (s : UaString) → IsShort s → Encodes (string_encode s) (string_bytes s)
unfolding string_encode string_bytes
string_encode-Encodes s h =
    let fits : ltb int32_max (length (content s)) ≡ false = ground arith in
    rw fits (
      and_then-Encodes (uint32_exchange-Encodes (signed_length s))
        (content_encode-Encodes (content s)))

-- A string of at most INT32_MAX bytes is read back as it was written: null, empty and other
-- strings are told apart. The size that is computed beforehand is right.
pub string-Codes :
    (s : UaString) → IsShort s → Codes (string_encode s) string_decode s (string_calc_size s)
string-Codes s h = record {
  bytes = string_bytes s;
  encodes = string_encode-Encodes s h;
  decodes = λ rest. string_decode-string_bytes s rest h;
  sized = length-string_bytes s;
}
