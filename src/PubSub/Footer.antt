-- ===== src/PubSub/Footer.antt =====
-- The security footer of a network message, of src/pubsub/ua_pubsub_networkmessage.c: loops that
-- count a UA_Byte up to a UA_UInt16.
use opcua_tsn_lo_i.PubSub.Reading.{write_byte-Encodes}
use opcua_tsn_lo_i.PubSub.{encode_binary, write_byte}
use opcua_tsn_lo_i.Base.{
  ℕ, zero, suc, ◌+◌, ◌%◌, ◌≤◌, ◌<◌, ◌≡◌, refl, inl, inr, true, false, List, [], ◌∷◌, ◌++◌, ltb,
  if◌then◌else◌, arith, length, Bool-cases,
}
use opcua_tsn_lo_i.Codec.{
  byte_encode, good, bad_response_too_large, bad_decoding_error, stuck, is_good, Ctx, Encoder,
  Decoder, advance, byte_decode, encode_bytes, and_then,
}
use opcua_tsn_lo_i.Codec.Output.{Encodes, Codes, and_then-Encodes, skip-Encodes}

-- `footer i` is the byte at place `i`; the counter starts again at 0 behind 255.
unfoldable pub footer_loop : ℕ → (ℕ → ℕ) → ℕ → ℕ → Encoder
footer_loop zero footer i size c = (stuck, c)
footer_loop (suc fuel) footer i size c =
    let (rv, c') = write_byte (footer i) c in
    let rest = footer_loop fuel footer ((i + 1) % 256) size c' in
    if ltb i size then (if is_good rv then rest else (rv, c')) else (good, c)

-- The loop ends at 255 at the latest, or when the buffer is full.
unfoldable pub footer_encode : (ℕ → ℕ) → ℕ → Encoder
footer_encode footer size c = footer_loop (257 + c.room) footer 0 size c

unfoldable pub footer_read_loop : ℕ → ℕ → ℕ → Decoder (List ℕ)
footer_read_loop zero i size bs = (stuck, [], bs)
footer_read_loop (suc fuel) i size bs =
    let (rv, v, rest) = byte_decode bs in
    let (rv', vs, rest') = footer_read_loop fuel ((i + 1) % 256) size rest in
    if ltb i size
    then (if is_good rv then (rv', v ∷ vs, rest') else (rv, [], rest))
    else (good, [], bs)

-- Here the loop ends at 255 at the latest, or where the bytes end.
unfoldable pub footer_decode : ℕ → Decoder (List ℕ)
footer_decode size bs = footer_read_loop (257 + length bs) 0 size bs

-- The bytes of a footer from one place on.
pub footer_bytes : (ℕ → ℕ) → ℕ → ℕ → List ℕ
footer_bytes footer i zero = []
footer_bytes footer i (suc n) = footer i ∷ footer_bytes footer (i + 1) n

-- A size that a UA_Byte does not reach.
long_loop :
    (fuel : ℕ) (footer : ℕ → ℕ) (i size : ℕ) (c : Ctx)
    → 255 < size
    → i < 256
    → c.room < fuel
    → (footer_loop fuel footer i size c).0 ≡ bad_response_too_large
unfolding footer_loop write_byte encode_binary byte_encode encode_bytes advance
long_loop zero footer i size c l b f = absurd (omega arith)
long_loop (suc fuel) footer i size c l b f =
    let more : ltb i size ≡ true = ground arith in
    elim (Bool-cases (ltb c.room 1)) [
      | inl full ↦ rw (more, full) refl
      | inr space ↦
          rw (more, space)
            (long_loop fuel footer ((i + 1) % 256) size (advance (footer i ∷ []) c) l (omega arith)
              (ground arith))
    ]

long_read_loop :
    (fuel i size : ℕ) (bs : List ℕ)
    → 255 < size
    → i < 256
    → length bs < fuel
    → (footer_read_loop fuel i size bs).0 ≡ bad_decoding_error
unfolding footer_read_loop byte_decode
long_read_loop zero i size bs l b f = absurd (omega arith)
long_read_loop (suc fuel) i size [] l b f =
    let more : ltb i size ≡ true = ground arith in rw more refl
long_read_loop (suc fuel) i size (v ∷ bs) l b f =
    let more : ltb i size ≡ true = ground arith in
    rw more (long_read_loop fuel ((i + 1) % 256) size bs l (omega arith) (omega arith))

short_loop-Encodes :
    (n fuel : ℕ) (footer : ℕ → ℕ) (i size : ℕ)
    → size ≤ 255
    → i + n ≡ size
    → n < fuel
    → Encodes (footer_loop fuel footer i size) (footer_bytes footer i n)
unfolding footer_loop footer_bytes
short_loop-Encodes n zero footer i size l e f = absurd (omega arith)
short_loop-Encodes zero (suc fuel) footer i size l e f =
    let done : ltb i size ≡ false = ground arith in
    record {
      fits = λ c h. rw done (skip-Encodes.fits c h);
      writes = λ c s. rw done (skip-Encodes.writes c s);
    }
short_loop-Encodes (suc n) (suc fuel) footer i size l e f =
    let more : ltb i size ≡ true = ground arith in
    let next : (i + 1) % 256 ≡ i + 1 = omega arith in
    let both : Encodes (and_then (write_byte (footer i)) (footer_loop fuel footer (i + 1) size))
        (footer i ∷ footer_bytes footer (i + 1) n) =
      and_then-Encodes (write_byte-Encodes (footer i))
        (short_loop-Encodes n fuel footer (i + 1) size l (omega arith) (omega arith)) in
    record {
      fits = λ c h. rw (more, next) (both.fits c h);
      writes = λ c s. rw (more, next) (both.writes c s);
    }

short_read_loop :
    (n fuel : ℕ) (footer : ℕ → ℕ) (i size : ℕ) (rest : List ℕ)
    → size ≤ 255
    → i + n ≡ size
    → n < fuel
    → footer_read_loop fuel i size (footer_bytes footer i n ++ rest)
      ≡ (good, footer_bytes footer i n, rest)
unfolding footer_read_loop footer_bytes byte_decode
short_read_loop n zero footer i size rest l e f = absurd (omega arith)
short_read_loop zero (suc fuel) footer i size rest l e f =
    let done : ltb i size ≡ false = ground arith in rw done refl
short_read_loop (suc n) (suc fuel) footer i size rest l e f =
    let more : ltb i size ≡ true = ground arith in
    let next : (i + 1) % 256 ≡ i + 1 = omega arith in
    rw (more, next, short_read_loop n fuel footer (i + 1) size rest l (omega arith) (omega arith))
      refl

length-footer_bytes : (footer : ℕ → ℕ) (i n : ℕ) → length (footer_bytes footer i n) ≡ n
unfolding footer_bytes
length-footer_bytes footer i zero = refl
length-footer_bytes footer i (suc n) = omega (arith, length-footer_bytes footer (i + 1) n)

-- A security footer of at most 255 bytes is read back as it was written, and takes as many bytes.
pub footer-Codes :
    (footer : ℕ → ℕ) (size : ℕ)
    → size ≤ 255
    → Codes (footer_encode footer size) (footer_decode size) (footer_bytes footer 0 size) size
unfolding footer_encode footer_decode
footer-Codes footer size l = record {
  bytes = footer_bytes footer 0 size;
  encodes = record {
    fits = λ c h.
        (short_loop-Encodes size (257 + c.room) footer 0 size l (omega arith) (omega arith)).fits c
          h;
    writes = λ c s.
        (short_loop-Encodes size (257 + c.room) footer 0 size l (omega arith) (omega arith)).writes
          c s;
  };
  decodes = λ rest. short_read_loop size _ footer 0 size rest l (omega arith) (omega arith);
  sized = length-footer_bytes footer 0 size;
}

-- A security footer of more than 255 bytes is never written or read, whatever room there is and
-- whatever bytes follow: the encoder reports that there is too much, the decoder that bytes are missing.
pub footer_size_overflows :
    (footer : ℕ → ℕ) (size : ℕ) (c : Ctx) (bs : List ℕ)
    → 255 < size
    → ((footer_encode footer size c).0 ≡ bad_response_too_large)
      × ((footer_decode size bs).0 ≡ bad_decoding_error)
unfolding footer_encode footer_decode
footer_size_overflows footer size c bs l = (
  long_loop (257 + c.room) footer 0 size c l (omega arith) (omega arith),
  long_read_loop (257 + length bs) 0 size bs l (omega arith) (omega arith),
)
