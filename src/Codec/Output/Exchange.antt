-- ===== src/Codec/Output/Exchange.antt =====
-- What the exchange of a full buffer in src/ua_types_encoding_binary.c leaves of the output.
use opcua_tsn_lo_i.Base.{
  ℕ, ◌≤◌, ◌≡◌, refl, sym, ap, ◌∙◌, inl, inr, true, false, Option, none, some, List, [], ◌∷◌, ◌++◌,
  arith, ltb, Bool-cases, length, concat, concat-append, append-nil,
}
use opcua_tsn_lo_i.Codec.{
  Status, is_good, is_limits, is_stuck, Answer, granted, refused, Ctx, answered, exchange_by,
  exchange_buffer, encode_bytes, encode_with_exchange_buffer, uint16_encode, uint32_encode,
  uint64_encode, encode16, encode32, encode64,
}
use opcua_tsn_lo_i.Codec.Output.Contract.{
  output, IsProper, Serves, Outcome, Encodes, advance-Outcome, encode_bytes-Encodes,
}
use opcua_tsn_lo_i.Codec.Output.Sequence.{chain-Outcome}

answered-Outcome : (c : Ctx) (a : Answer) → Outcome c [] (answered a c)
unfolding answered
answered-Outcome c (granted n) = record {
  written = λ _.
      ap (λ o. o ++ [])
        (concat-append c.sent (c.buffer ∷ []) ∙ ap (λ b. concat c.sent ++ b) (append-nil c.buffer));
  kept = refl;
}
answered-Outcome c (refused s) = record { written = λ _. sym (append-nil (output c)); kept = refl }

exchange_by-Outcome : (k : Option (ℕ → Answer)) (c : Ctx) → Outcome c [] (exchange_by k c)
unfolding exchange_by
exchange_by-Outcome none c = record { written = λ h. cc; kept = refl }
exchange_by-Outcome (some answer) c = answered-Outcome c (answer (length c.sent))

-- A full buffer is sent before another one is written to, so the bytes stay in order.
pub exchange-Outcome : (c : Ctx) → Outcome c [] (exchange_buffer c)
unfolding exchange_buffer
exchange-Outcome c = exchange_by-Outcome c.callback c

-- An exchange that succeeds leaves room for a number, and none ends with a full buffer.
abbrev pub HasRoom : Status × Ctx → Type 0
HasRoom r = (is_good r.0 ≡ true → 8 ≤ r.1.room) × (is_limits r.0 ≡ false) × (is_stuck r.0 ≡ false)

answered-HasRoom : (c : Ctx) (a : Answer) → IsProper a → HasRoom (answered a c)
unfolding answered
answered-HasRoom c (granted n) p = (λ _. p, refl, refl)
answered-HasRoom c (refused s) p = (λ h. cc, p.1, p.2)

exchange_by-HasRoom : (k : Option (ℕ → Answer)) (c : Ctx) → Serves k → HasRoom (exchange_by k c)
unfolding exchange_by
exchange_by-HasRoom none c s = (λ h. cc, refl, refl)
exchange_by-HasRoom (some answer) c s =
    answered-HasRoom c (answer (length c.sent)) (s (length c.sent))

pub exchange-HasRoom : (c : Ctx) → Serves c.callback → HasRoom (exchange_buffer c)
unfolding exchange_buffer
exchange-HasRoom c s = exchange_by-HasRoom c.callback c s

module _ (bs : List ℕ) (short : length bs ≤ 8) where
  pub retry-Outcome :
      (c : Ctx)
      → Serves c.callback
      → let r = encode_with_exchange_buffer (encode_bytes bs) c in
        Outcome c bs r × (is_limits r.0 ≡ false)
  unfolding encode_with_exchange_buffer encode_bytes
  retry-Outcome c s = elim (Bool-cases (ltb c.room (length bs))) [
    | inr space ↦ rw space (advance-Outcome bs c, refl)
    | inl full ↦
        let o = exchange-Outcome c in
        let (room, quiet, _) = exchange-HasRoom c s in
        elim (Bool-cases (is_good (exchange_buffer c).0)) [
          | inl e ↦
              let c' = (exchange_buffer c).1 in
              let fresh : ltb c'.room (length bs) ≡ false = ground (arith, room e) in
              rw (full, e)
                (rw fresh
                  (chain-Outcome [] bs c c' _ (o.written e) o.kept (advance-Outcome bs c'), refl))
          | inr e ↦ rw (full, e) (record { written = λ h. cc; kept = o.kept }, quiet)
        ]
  ]

  pub encode_with_exchange_buffer-Encodes :
      Encodes (encode_with_exchange_buffer (encode_bytes bs)) bs
  unfolding encode_with_exchange_buffer
  encode_with_exchange_buffer-Encodes = record {
    fits = λ c h. rw ((encode_bytes-Encodes bs).fits c h);
    writes = λ c s. (retry-Outcome c s).0;
  }

pub uint16_exchange-Encodes :
    (v : ℕ) → Encodes (encode_with_exchange_buffer (uint16_encode v)) (encode16 v)
unfolding uint16_encode
uint16_exchange-Encodes v =
    encode_with_exchange_buffer-Encodes (encode16 v) (unfold encode16 in omega arith)

pub uint32_exchange-Encodes :
    (v : ℕ) → Encodes (encode_with_exchange_buffer (uint32_encode v)) (encode32 v)
unfolding uint32_encode
uint32_exchange-Encodes v =
    encode_with_exchange_buffer-Encodes (encode32 v) (unfold encode32 in omega arith)

pub uint64_exchange-Encodes :
    (v : ℕ) → Encodes (encode_with_exchange_buffer (uint64_encode v)) (encode64 v)
unfolding uint64_encode
uint64_exchange-Encodes v =
    encode_with_exchange_buffer-Encodes (encode64 v) (unfold encode64 in omega arith)
