-- ===== src/Codec/Output/Contract.antt =====
-- What an encoder of src/ua_types_encoding_binary.c writes, across the buffers that it fills.
use opcua_tsn_lo_i.Base.{
  ℕ, ◌≤◌, ◌≡◌, refl, sym, inl, inr, true, false, Option, none, some, List, [], ◌∷◌, ◌++◌, arith,
  ltb, Bool-cases, length, length-append, concat, append-nil, append_assoc,
}
use opcua_tsn_lo_i.Codec.{
  Status, good, is_good, is_limits, is_stuck, Answer, granted, refused, Ctx, Encoder, Decoder,
  advance, encode_bytes, skip, byte_encode, uint16_encode, uint32_encode, uint64_encode, encode16,
  encode32, encode64,
}

-- All bytes that have been written, those in the buffers that are sent included.
abbrev pub output : Ctx → List ℕ
output c = concat c.sent ++ c.buffer

-- A callback that gives buffers with room for every number, and whose errors are told apart from
-- a full buffer.
abbrev pub IsProper : Answer → Type 0
IsProper (granted n) = 8 ≤ n
IsProper (refused s) = (is_good s ≡ false) × (is_limits s ≡ false) × (is_stuck s ≡ false)

abbrev pub Serves : Option (ℕ → Answer) → Type 0
Serves none = Unit {0}
Serves (some answer) = (n : ℕ) → IsProper (answer n)

-- On success exactly the bytes have been added to the output, whatever buffers were exchanged.
pub record Outcome (c : Ctx) (bs : List ℕ) (r : Status × Ctx) : Type 0 where
  pub written : is_good r.0 ≡ true → output r.1 ≡ output c ++ bs
  pub kept : r.1.callback ≡ c.callback

pub record Encodes (f : Encoder) (bs : List ℕ) : Type 0 where
  pub fits : (c : Ctx) → length bs ≤ c.room → f c ≡ (good, advance bs c)
  pub writes : (c : Ctx) → Serves c.callback → Outcome c bs (f c)

-- An encoder and a decoder agree on a value: the bytes that the one writes are read back by the
-- other, which leaves what follows them, and their number is the size that is computed beforehand.
pub record Codes {A : Type 0} (f : Encoder) (d : Decoder A) (v : A) (size : ℕ) : Type 0 where
  pub bytes : List ℕ
  pub encodes : Encodes f bytes
  pub decodes : (rest : List ℕ) → d (bytes ++ rest) ≡ (good, v, rest)
  pub sized : length bytes ≡ size

pub output-advance : (bs : List ℕ) (c : Ctx) → output (advance bs c) ≡ output c ++ bs
unfolding advance
output-advance bs c = sym (append_assoc (concat c.sent) c.buffer bs)

pub advance-append : (xs ys : List ℕ) (c : Ctx) → advance ys (advance xs c) ≡ advance (xs ++ ys) c
unfolding advance
advance-append xs ys c = ground (arith, append_assoc c.buffer xs ys, length-append xs ys)

pub advance-nil : (c : Ctx) → advance [] c ≡ c
unfolding advance
advance-nil c = ground (arith, append-nil c.buffer)

pub advance-Outcome : (bs : List ℕ) (c : Ctx) → Outcome c bs (good, advance bs c)
advance-Outcome bs c = record { written = λ _. output-advance bs c; kept = unfold advance in refl }

pub encode_bytes-Encodes : (bs : List ℕ) → Encodes (encode_bytes bs) bs
unfolding encode_bytes
encode_bytes-Encodes bs = record { fits = λ c h. ground arith; writes = λ c s. go c }
  where
    go : (c : Ctx) → Outcome c bs (encode_bytes bs c)
    go c = elim (Bool-cases (ltb c.room (length bs))) [
      | inl full ↦ rw full (record { written = λ e. cc; kept = refl })
      | inr space ↦ rw space (advance-Outcome bs c)
    ]

pub byte_encode-Encodes : (v : ℕ) → Encodes (byte_encode v) (v ∷ [])
unfolding byte_encode
byte_encode-Encodes v = encode_bytes-Encodes (v ∷ [])

pub uint16_encode-Encodes : (v : ℕ) → Encodes (uint16_encode v) (encode16 v)
unfolding uint16_encode
uint16_encode-Encodes v = encode_bytes-Encodes (encode16 v)

pub uint32_encode-Encodes : (v : ℕ) → Encodes (uint32_encode v) (encode32 v)
unfolding uint32_encode
uint32_encode-Encodes v = encode_bytes-Encodes (encode32 v)

pub uint64_encode-Encodes : (v : ℕ) → Encodes (uint64_encode v) (encode64 v)
unfolding uint64_encode
uint64_encode-Encodes v = encode_bytes-Encodes (encode64 v)

pub skip-Encodes : Encodes skip []
skip-Encodes = record {
  fits = λ c h. rw advance-nil;
  writes = λ c s. record { written = λ _. sym (append-nil (output c)); kept = refl };
}
