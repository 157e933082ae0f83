-- ===== src/Codec/Discipline/Violation.antt =====
-- An encoder of src/ua_types_encoding_binary.c that breaks the rule on chunking.
use opcua_tsn_lo_i.Base.{
  ℕ, ◌+◌, ◌≤◌, ◌<◌, ◌≡◌, refl, true, false, some, [], ◌∷◌, ◌++◌, arith, ltb, length,
}
use opcua_tsn_lo_i.Codec.{
  good, is_limits, granted, Answer, Ctx, advance, exchange_buffer, exchange_by, answered,
  encode_bytes, encode_with_exchange_buffer, encode16, encode32, uint16_encode, uint32_encode,
}
use opcua_tsn_lo_i.Codec.Arrays.{
  UaString, content, int32_max, signed_length, string_encode, content_encode-Encodes,
}
use opcua_tsn_lo_i.Codec.Texts.{QualifiedName, qualified_name_encode}

-- The context behind a successful exchange.
abbrev fresh : ℕ → Ctx → Ctx
fresh room c = record c { buffer = []; room = room; sent = c.sent ++ (c.buffer ∷ []) }

exchange_grants :
    (c : Ctx) (answer : ℕ → Answer) (room : ℕ)
    → c.callback ≡ some answer
    → answer (length c.sent) ≡ granted room
    → exchange_buffer c ≡ (good, fresh room c)
unfolding exchange_buffer exchange_by answered
exchange_grants c answer room k a = rw (k, a) refl

string_fits :
    (s : UaString) (c : Ctx) (room : ℕ)
    → 8 + length (content s) ≤ room
    → length (content s) ≤ (advance (encode32 (signed_length s)) (fresh room c)).room
unfolding advance encode32
string_fits s c room m = omega arith

-- A string that does not fit any more goes into the next buffer.
string_moves :
    (s : UaString) (c : Ctx) (room : ℕ)
    → c.room < 4
    → exchange_buffer c ≡ (good, fresh room c)
    → 8 + length (content s) ≤ room
    → length (content s) ≤ int32_max
    → string_encode s c
      ≡ (good, advance (content s) (advance (encode32 (signed_length s)) (fresh room c)))
unfolding string_encode encode_with_exchange_buffer uint32_encode encode_bytes encode32 advance
string_moves s c room h x m l =
    let short : ltb int32_max (length (content s)) ≡ false = ground arith in
    let full : ltb c.room 4 ≡ true = ground arith in
    let space : ltb room 4 ≡ false = ground arith in
    rw (short, full, x, space)
      ((content_encode-Encodes (content s)).fits _ (string_fits s c room m))

-- The encoder of QualifiedNames breaks the rule on chunking. If the index of the namespace does not fit into
-- what is left of the buffer, and the callback then grants a buffer with room for the name, the
-- encoder reports a full buffer although it has exchanged that buffer.
pub qualified_name_encode_breaks_rule :
    (q : QualifiedName) (c : Ctx) (answer : ℕ → Answer) (room : ℕ)
    → c.room < 2
    → c.callback ≡ some answer
    → answer (length c.sent) ≡ granted room
    → 8 + length (content q.name) ≤ room
    → length (content q.name) ≤ int32_max
    → let r = qualified_name_encode q c in
      (is_limits r.0 ≡ true) × (r.1.sent ≡ c.sent ++ (c.buffer ∷ []))
unfolding qualified_name_encode uint16_encode encode_bytes
qualified_name_encode_breaks_rule q c answer room h k a m l =
    let full : ltb c.room 2 ≡ true = ground arith in
    let len : length (encode16 q.namespace_index) ≡ 2 = unfold encode16 in refl in
    rw (len, full, string_moves q.name c room (omega arith) (exchange_grants c answer room k a) m l)
      (refl, unfold advance in refl)
