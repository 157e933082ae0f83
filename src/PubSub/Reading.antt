-- ===== src/PubSub/Reading.antt =====
-- How the parts of a decoder of src/pubsub/ua_pubsub_networkmessage.c compose.
use opcua_tsn_lo_i.Base.{
  ℕ, ◌≤◌, ◌≡◌, refl, inl, inr, Bool, false, none, List, [], ◌∷◌, ◌++◌, All, arith, ltb,
  if◌then◌else◌, Bool-cases, length, length-append, append_assoc,
}
use opcua_tsn_lo_i.Codec.{
  good, is_limits, Ctx, Encoder, Decoder, advance, encode16, encode32, encode64, byte_decode,
}
use opcua_tsn_lo_i.Codec.Words.{byte_decode-cons}
use opcua_tsn_lo_i.Codec.Output.{
  Outcome, Encodes, Codes, decode_if-decodes, and_then-Encodes, skip-Encodes, byte_encode-Encodes,
  uint16_encode-Encodes, uint32_encode-Encodes, uint64_encode-Encodes,
}
use opcua_tsn_lo_i.PubSub.{
  Reader, and_read, read_if, decode_binary, encode_binary, write_byte, write_uint16, write_uint32,
  write_uint64, encode_all, decode_all, size_all,
}

-- From `dst` the part goes to `dst'` on these bytes, and leaves what follows them.
pub record Reads {H : Type 0} (f : Reader H) (dst : H) (bs : List ℕ) (dst' : H) : Type 0 where
  pub reads : (rest : List ℕ) → f dst (bs ++ rest) ≡ (good, dst', rest)

pub and_read-Reads :
    {H : Type 0} (f g : Reader H) (a b c : H) (xs ys : List ℕ)
    → Reads f a xs b
    → Reads g b ys c
    → Reads (and_read f g) a (xs ++ ys) c
unfolding and_read
and_read-Reads f g a b c xs ys h k = record {
  reads = λ rest. rw (append_assoc, h.reads) (k.reads rest);
}

pub read_if-Reads :
    {H A : Type 0} (on : H → Bool) (blank : A) (d : Decoder A) (put : H → A → H) (dst : H)
    (b : Bool) (v : A) (bs : List ℕ)
    → on dst ≡ b
    → ((rest : List ℕ) → d (bs ++ rest) ≡ (good, v, rest))
    → (b ≡ false → v ≡ blank)
    → Reads (read_if on blank d put) dst (if b then bs else []) (put dst v)
unfolding read_if
read_if-Reads on blank d put dst b v bs e h k = record {
  reads = λ rest. rw (e, decode_if-decodes b blank d v bs rest (λ _. h rest) k);
}

pub decode_binary-decodes :
    {A : Type 0} (blank : A) (d : Decoder A) (v : A) (bs rest : List ℕ)
    → d (bs ++ rest) ≡ (good, v, rest)
    → decode_binary blank d (bs ++ rest) ≡ (good, v, rest)
unfolding decode_binary
decode_binary-decodes blank d v bs rest h = rw h

-- A sequence is coded if its elements are.
pub encode_all-Codes :
    {A : Type 0} (f : A → Encoder) (d : Decoder A) (size : A → ℕ) (xs : List A)
    → All (λ x. Codes (f x) d x (size x)) xs
    → Codes (encode_all f xs) (decode_all d (length xs)) xs (size_all size xs)
unfolding encode_all decode_all size_all
encode_all-Codes f d size [] h = record {
  bytes = [];
  encodes = skip-Encodes;
  decodes = λ rest. refl;
  sized = refl;
}
encode_all-Codes f d size (x ∷ xs) h =
    let c = h.0 in
    let cs = encode_all-Codes f d size xs h.1 in
    record {
      bytes = c.bytes ++ cs.bytes;
      encodes = and_then-Encodes c.encodes cs.encodes;
      decodes = λ rest. rw (append_assoc, c.decodes, cs.decodes) refl;
      sized = omega (arith, length-append c.bytes cs.bytes, c.sized, cs.sized);
    }

module _ (mem_size : ℕ) {f : Encoder} {bs : List ℕ} (ef : Encodes f bs) where
  encode_binary-fits :
      (c : Ctx) → length bs ≤ c.room → encode_binary mem_size f c ≡ (good, advance bs c)
  unfolding encode_binary advance
  encode_binary-fits c h = rw (ef.fits (record c { callback = none }) h) refl

  encode_binary-writes : (c : Ctx) → Outcome c bs (encode_binary mem_size f c)
  unfolding encode_binary
  encode_binary-writes c =
      let o = ef.writes (record c { callback = none }) tt in
      elim (Bool-cases (is_limits (f (record c { callback = none })).0)) [
        | inl full ↦ rw full (elim (Bool-cases (ltb c.room mem_size)) [
          | inl small ↦ rw small (record { written = λ h. cc; kept = refl })
          | inr large ↦ rw large (record { written = λ h. cc; kept = refl })
        ])
        | inr other ↦ rw other (record { written = o.written; kept = refl })
      ]

  pub encode_binary-Encodes : Encodes (encode_binary mem_size f) bs
  encode_binary-Encodes = record {
    fits = encode_binary-fits;
    writes = λ c s. encode_binary-writes c;
  }

pub write_byte-Encodes : (v : ℕ) → Encodes (write_byte v) (v ∷ [])
unfolding write_byte
write_byte-Encodes v = encode_binary-Encodes 1 (byte_encode-Encodes v)

pub write_uint16-Encodes : (v : ℕ) → Encodes (write_uint16 v) (encode16 v)
unfolding write_uint16
write_uint16-Encodes v = encode_binary-Encodes 2 (uint16_encode-Encodes v)

pub write_uint32-Encodes : (v : ℕ) → Encodes (write_uint32 v) (encode32 v)
unfolding write_uint32
write_uint32-Encodes v = encode_binary-Encodes 4 (uint32_encode-Encodes v)

pub write_uint64-Encodes : (v : ℕ) → Encodes (write_uint64 v) (encode64 v)
unfolding write_uint64
write_uint64-Encodes v = encode_binary-Encodes 8 (uint64_encode-Encodes v)

pub decode_binary-Codes :
    {A : Type 0} (mem_size : ℕ) (blank : A) (f : Encoder) (d : Decoder A) (v : A) (size : ℕ)
    → Codes f d v size
    → Codes (encode_binary mem_size f) (decode_binary blank d) v size
decode_binary-Codes mem_size blank f d v size c = record {
  bytes = c.bytes;
  encodes = encode_binary-Encodes mem_size c.encodes;
  decodes = λ rest. decode_binary-decodes blank d v c.bytes rest (c.decodes rest);
  sized = c.sized;
}

-- A block of bytes, coded one by one.
pub byte_block-Encodes : (bs : List ℕ) → Encodes (encode_all write_byte bs) bs
unfolding encode_all
byte_block-Encodes [] = skip-Encodes
byte_block-Encodes (b ∷ bs) = and_then-Encodes (write_byte-Encodes b) (byte_block-Encodes bs)

pub byte_block_decodes :
    (bs rest : List ℕ) → decode_all byte_decode (length bs) (bs ++ rest) ≡ (good, bs, rest)
unfolding decode_all
byte_block_decodes [] rest = refl
byte_block_decodes (b ∷ bs) rest = rw (byte_decode-cons, byte_block_decodes bs rest) refl
