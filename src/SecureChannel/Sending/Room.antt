-- ===== src/SecureChannel/Sending/Room.antt =====
-- Whether a chunk fits into its buffer once it is padded and signed, of setBufPos and
-- sendSymmetricChunk in src/ua_securechannel.c.
use opcua_tsn_lo_i.Base.{
  ℕ, zero, suc, ◌+◌, ◌-◌, ◌/◌, ◌%◌, ◌^◌, ◌≤◌, ◌<◌, ◌≡◌, ◌≢◌, inl, inr, refl, ap, true, false,
  Option, none, some, arith, ltb, length, Bool-cases, Option-cases, length-append,
}
use native.Mathlib.Nat.{div-add-mod, mod-lt}
use opcua_tsn_lo_i.SecureChannel.{Result, bad_response_too_large, sign_and_encrypt}
use opcua_tsn_lo_i.SecureChannel.Sending.{
  LocalModule, Connection, MessageContext, repeat, calculate_padding_sym, padding_bytes, padding_of,
  set_buf_pos, total_length, emit_chunk, send_symmetric_chunk, too_large,
}

rounds_up-le : (n y b : ℕ) → 1 ≤ b → n < y → y % b ≡ 0 → n + (b - n % b) ≤ y
rounds_up-le n y b h l m = grind (arith, div-add-mod n b, div-add-mod y b, mod-lt n h)

rounds_up-gt : (n y b : ℕ) → 1 ≤ b → y ≡ n + 1 → y % b ≢ 0 → y < n + (b - n % b)
rounds_up-gt n y b h l m = grind (arith, div-add-mod n b, div-add-mod y b, mod-lt n h, mod-lt y h)

pub length-repeat : (n b : ℕ) → length (repeat n b) ≡ n
unfolding repeat
length-repeat zero b = refl
length-repeat (suc n) b = ap suc (length-repeat n b)

pub length-padding_bytes :
    (padding : ℕ) → padding < 2 ^ 8 → length (padding_bytes padding) ≡ padding + 1
unfolding padding_bytes
length-padding_bytes padding h =
    let none_extra : ltb 0 (padding / 2 ^ 8 % 2 ^ 8) ≡ false = ground arith in
    rw (padding_bytes, none_extra, length-append, length-repeat) (omega arith)

emit_chunk-in_room :
    (m : LocalModule) (connection : Connection) (mc : MessageContext)
    → ltb mc.buffer_length (total_length m mc) ≡ false
    → (r : MessageContext × Result) × (emit_chunk m connection mc ≡ some r)
unfolding emit_chunk
emit_chunk-in_room m connection mc h = elim (Option-cases (emit_chunk m connection mc)) [
  | inl n ↦ ground (arith, n)
  | inr s ↦ s
]

-- The context once sendSymmetricChunk has counted the chunk.
abbrev pub counted : MessageContext → MessageContext
counted mc = record mc {
  message_size_so_far = mc.message_size_so_far + length mc.body;
  chunks_so_far = (mc.chunks_so_far + 1) % 2 ^ 16;
}

total_length-counted :
    (m : LocalModule) (mc : MessageContext) → total_length m (counted mc) ≡ total_length m mc
unfolding total_length
total_length-counted m mc = refl

module _ (m : LocalModule) (mc : MessageContext)
    (mode : mc.channel.security_mode ≡ sign_and_encrypt)
    (block : (1 ≤ m.local_block_size) × (m.local_block_size < 2 ^ 8))
    (placed : mc.buf_end ≡ (set_buf_pos m mc).buf_end)
    (written : 24 + length mc.body ≤ mc.buf_end) where
  unfoldable filled : ℕ
  filled = length mc.body + 8 + m.local_signature_size + 1

  filled_lem : filled ≡ length mc.body + 8 + m.local_signature_size + 1
  unfolding filled
  filled_lem = refl

  total_length_lem :
      total_length m mc ≡ 16 + (filled + (m.local_block_size - filled % m.local_block_size))
  unfolding total_length padding_of calculate_padding_sym filled
  total_length_lem =
      let p = m.local_block_size - filled % m.local_block_size in
      let small : p < 2 ^ 8 = omega arith in
      let word : p % 2 ^ 16 ≡ p = omega arith in
      rw (total_length, mode, padding_of, calculate_padding_sym, word, length-padding_bytes p small)
        (omega arith)

  buf_end_lem : mc.buf_end ≡ mc.buffer_length - m.local_signature_size - 2
  unfolding set_buf_pos
  buf_end_lem = rw (placed, mode) refl

  -- Where the length of the buffer behind the security header is a multiple of the block size, a
  -- chunk on an encrypted channel is never written outside its buffer, however much of the room
  -- that setBufPos leaves is used. The blocks are smaller than 256 bytes.
  pub send_symmetric_chunk-in_room :
      (mc.buffer_length - 16) % m.local_block_size ≡ 0
      → (connection : Option Connection)
      → (r : MessageContext × Result) × (send_symmetric_chunk m connection mc ≡ some r)
  unfolding send_symmetric_chunk emit_chunk
  send_symmetric_chunk-in_room whole none = (_, refl)
  send_symmetric_chunk-in_room whole (some connection) =
      let fits : total_length m mc ≤ mc.buffer_length = omega (
        arith,
        total_length_lem,
        buf_end_lem,
        rounds_up-le filled (mc.buffer_length - 16) m.local_block_size block.0
            (omega (arith, filled_lem, buf_end_lem)) whole,
      ) in
      let test : ltb mc.buffer_length (total_length m (counted mc)) ≡ false =
        rw (total_length-counted m mc) (ground arith) in
      elim (Bool-cases (too_large connection (counted mc))) [
        | inl t ↦ ((counted mc, bad_response_too_large), rw t refl)
        | inr t ↦ rw t (emit_chunk-in_room m connection (counted mc) test)
      ]

  -- setBufPos leaves two bytes for the padding, which can need as many as a block and one more:
  -- where the length of the buffer behind the security header is not a multiple of the block size,
  -- a chunk that uses all of the room is written outside its buffer, unless it is too large for the
  -- peer. The blocks are smaller than 256 bytes.
  pub send_symmetric_chunk-out_of_room :
      (connection : Connection)
      → (mc.buffer_length - 16) % m.local_block_size ≢ 0
      → 24 + length mc.body ≡ mc.buf_end
      → too_large connection (counted mc) ≡ false
      → send_symmetric_chunk m (some connection) mc ≡ none
  unfolding send_symmetric_chunk emit_chunk
  send_symmetric_chunk-out_of_room connection broken full small =
      let over : mc.buffer_length < total_length m mc = omega (
        arith,
        total_length_lem,
        buf_end_lem,
        rounds_up-gt filled (mc.buffer_length - 16) m.local_block_size block.0
            (omega (arith, filled_lem, buf_end_lem)) broken,
      ) in
      let test : ltb mc.buffer_length (total_length m (counted mc)) ≡ true =
        rw (total_length-counted m mc) (ground arith) in
      rw (small, test) refl
