-- ===== src/SecureChannel/Receiving/Checks.antt =====
-- Where the payload of a chunk lies after decryptChunk of src/ua_securechannel.c.
use opcua_tsn_lo_i.Base.{
  ℕ, ◌+◌, ◌-◌, ◌%◌, ◌^◌, ◌≤◌, ◌<◌, ◌≡◌, inl, inr, refl, ap, sym, ◌∙◌, subst, true, false, ◌&&◌,
  ◌||◌, none, some, List, [], ◌∷◌, ◌++◌, arith, leb, if◌then◌else◌, length, take, drop, Bool-cases,
  Option-cases, length-append, length-take, length-drop,
}
use opcua_tsn_lo_i.SecureChannel.{
  Result, good, is_good, MessageType, opn, final, SecurityMode, is_signed, is_encrypted,
}
use opcua_tsn_lo_i.Codec
use opcua_tsn_lo_i.Codec.{uint32_decode}
use opcua_tsn_lo_i.SecureChannel.Receiving.{
  CryptoModule, Decrypted, Decryption, refused, out_of_bounds, decrypted, uint32_at, padding_size,
  payload_of, verify_chunk, is_open_message, unpack_chunk, decrypt_chunk, body_of,
}

-- The payload is in the chunk, and it is not empty.
pub record IsInside (n : ℕ) (d : Decrypted) : Type 0 where
  pub within : d.start + d.size ≤ n
  pub some_bytes : 1 ≤ d.size

-- A chunk that is taken has its payload inside.
abbrev AllInside : ℕ → Decryption → Type 0
AllInside n (refused r) = Unit {0}
AllInside n out_of_bounds = Unit {0}
AllInside n (decrypted d) = IsInside n d

payload_of-AllInside :
    (chunk : List ℕ) (offset signature padding : ℕ)
    → length chunk < 2 ^ 64
    → AllInside (length chunk) (payload_of chunk (length chunk) offset signature padding)
unfolding payload_of
payload_of-AllInside chunk offset signature padding b =
    elim (Option-cases (uint32_at offset chunk)) [
      | inl e ↦ rw (payload_of, e) tt
      | inr (n, e) ↦ elim (Option-cases (uint32_at (offset + 4) chunk)) [
        | inl f ↦ rw (payload_of, e, f) tt
        | inr (i, f) ↦ elim (Bool-cases (leb (length chunk) (offset + 8 + padding + signature))) [
          | inl t ↦ rw (payload_of, e, f, t) tt
          | inr t ↦
              rw (payload_of, e, f, t) (record { within = ground arith; some_bytes = ground arith })
        ]
      ]
    ]

verify_chunk-AllInside :
    (m : CryptoModule) (chunk : List ℕ) (offset padding : ℕ)
    → length chunk < 2 ^ 64
    → AllInside (length chunk) (verify_chunk m chunk (length chunk) offset padding)
unfolding verify_chunk
verify_chunk-AllInside m chunk offset padding b =
    let n = length chunk in
    let signature = m.remote_signature_size in
    let verified =
      m.verify (take (n - signature) chunk) (take signature (drop (n - signature) chunk)) in
    elim (Bool-cases (leb n (offset + padding + signature))) [
      | inl t ↦ rw t tt
      | inr t ↦ elim (Bool-cases (is_good verified)) [
        | inl g ↦ rw (t, g) (payload_of-AllInside chunk offset signature padding b)
        | inr g ↦ rw (t, g) tt
      ]
    ]

unpack_chunk-AllInside :
    (mode : SecurityMode) (m : CryptoModule) (type : MessageType) (chunk : List ℕ) (offset : ℕ)
    → length chunk < 2 ^ 64
    → AllInside (length chunk) (unpack_chunk mode m type chunk (length chunk) offset)
unfolding unpack_chunk
unpack_chunk-AllInside mode m type chunk offset b =
    elim (Bool-cases (is_signed mode || is_open_message type)) [
      | inr t ↦ rw t (payload_of-AllInside chunk offset 0 0 b)
      | inl t ↦ elim (Bool-cases (is_encrypted mode || (is_open_message type && is_signed mode))) [
        | inr f ↦ rw (t, f) (verify_chunk-AllInside m chunk offset 0 b)
        | inl f ↦ elim (Option-cases (padding_size m (length chunk) chunk)) [
          | inl p ↦ rw (unpack_chunk, t, f, p) tt
          | inr (padding, p) ↦
              rw (unpack_chunk, t, f, p) (verify_chunk-AllInside m chunk offset padding b)
        ]
      ]
    ]

decrypt_chunk-AllInside :
    (mode : SecurityMode) (m : CryptoModule) (type : MessageType) (chunk : List ℕ) (offset : ℕ)
    → ((text : List ℕ) → length (m.decrypt text).0 ≡ length text)
    → offset ≤ length chunk
    → length chunk < 2 ^ 64
    → AllInside (length chunk) (decrypt_chunk mode m type chunk offset)
unfolding decrypt_chunk
decrypt_chunk-AllInside mode m type chunk offset keeps long b =
    let plain = (m.decrypt (drop offset chunk)).0 in
    let after = offset + length plain in
    let whole = take offset chunk ++ plain ++ drop after chunk in
    let after_lem : after ≡ length chunk =
      omega (arith, keeps (drop offset chunk), length-drop offset chunk) in
    let same : length whole ≡ length chunk = omega (
      arith,
      length-append (take offset chunk ++ plain) (drop after chunk),
      length-append (take offset chunk) plain,
      length-take offset chunk,
      length-drop after chunk,
    ) in
    let unpacked : AllInside (length whole) (unpack_chunk mode m type whole (length whole) offset) =
      unpack_chunk-AllInside mode m type whole offset (subst (λ n. n < 2 ^ 64) (sym same) b) in
    elim (Bool-cases (is_encrypted mode || is_open_message type)) [
      | inr t ↦ rw t (unpack_chunk-AllInside mode m type chunk offset b)
      | inl t ↦ elim (Bool-cases (is_good (m.decrypt (drop offset chunk)).1)) [
        | inr g ↦ rw (t, g) tt
        | inl g ↦
            rw (t, g)
              (subst (λ n. AllInside (length chunk) (unpack_chunk mode m type whole n offset))
                (same ∙ sym after_lem)
                (subst (λ n. AllInside n (unpack_chunk mode m type whole (length whole) offset))
                  same unpacked))
      ]
    ]

-- Where decryption keeps the length, as a symmetric cipher does, a chunk that decryptChunk takes
-- has its payload inside, and the payload is not empty, whatever the padding and the headers in
-- the chunk say. The chunk is at least as long as its headers.
pub decrypt_chunk-IsInside :
    (mode : SecurityMode) (m : CryptoModule) (type : MessageType) (chunk : List ℕ) (offset : ℕ)
    (d : Decrypted)
    → ((text : List ℕ) → length (m.decrypt text).0 ≡ length text)
    → offset ≤ length chunk
    → length chunk < 2 ^ 64
    → decrypt_chunk mode m type chunk offset ≡ decrypted d
    → IsInside (length chunk) d
decrypt_chunk-IsInside mode m type chunk offset d keeps long b taken =
    subst (AllInside (length chunk)) taken
      (decrypt_chunk-AllInside mode m type chunk offset keeps long b)

four :
    (bs : List ℕ)
    → 4 ≤ length bs
    → (v : ℕ) × (rest : List ℕ) × (uint32_decode bs ≡ (Codec.good, v, rest))
unfolding uint32_decode
four (a ∷ (b ∷ (c ∷ (d ∷ bs)))) h = (_, _, refl)
four [] h = absurd (omega arith)
four (a ∷ []) h = absurd (omega arith)
four (a ∷ (b ∷ [])) h = absurd (omega arith)
four (a ∷ (b ∷ (c ∷ []))) h = absurd (omega arith)

pub uint32_at-decoded :
    (offset v : ℕ) (bs rest : List ℕ)
    → uint32_decode (drop offset bs) ≡ (Codec.good, v, rest)
    → uint32_at offset bs ≡ some v
unfolding uint32_at
uint32_at-decoded offset v bs rest e =
    ap (λ (r : Codec.Status × ℕ × List ℕ). elim r.0 [ Codec.good ↦ some r.1 | _ ↦ none ]) e

uint32_at-some :
    (offset : ℕ) (bs : List ℕ) → offset + 4 ≤ length bs → (v : ℕ) × (uint32_at offset bs ≡ some v)
uint32_at-some offset bs h =
    let (v, rest, e) = four (drop offset bs) (omega (arith, length-drop offset bs)) in
    (v, uint32_at-decoded offset v bs rest e)

payload_of-outside :
    (chunk : List ℕ) (after offset signature padding : ℕ)
    → offset ≤ after
    → after < offset + 8 + padding + signature
    → offset + 8 + padding + signature < length chunk
    → length chunk < 2 ^ 63
    → (d : Decrypted) × (payload_of chunk after offset signature padding ≡ decrypted d)
      × (d.start ≡ offset + 8)
      × (d.size + (8 + padding + signature) ≡ 2 ^ 64 + (after - offset))
      × (body_of final d ≡ none)
unfolding payload_of body_of
payload_of-outside chunk after offset signature padding grows short long b =
    let (n, e) = uint32_at-some offset chunk (omega arith) in
    let (i, f) = uint32_at-some (offset + 4) chunk (omega arith) in
    let t : leb (length chunk) (offset + 8 + padding + signature) ≡ false = ground arith in
    let size = (after + 2 ^ 64 - (offset + 8) - signature - padding) % 2 ^ 64 in
    let out : leb (offset + 8 + size) (length chunk) ≡ false = ground arith in
    (
      record {
        request_id = i;
        sequence_number = n;
        buffer = chunk;
        start = offset + 8;
        size = size;
      },
      rw (payload_of, e, f, t) refl,
      refl,
      ground arith,
      rw (body_of, out) refl,
    )

-- A signed message that opens a channel is unpacked as far as the sequence header.
opened :
    (mode : SecurityMode) (m : CryptoModule) (chunk : List ℕ) (after offset padding : ℕ)
    → is_signed mode ≡ true
    → padding_size m after chunk ≡ some padding
    → m.verify
        (take (after - m.remote_signature_size) chunk)
        (take m.remote_signature_size (drop (after - m.remote_signature_size) chunk))
      ≡ good
    → offset + padding + m.remote_signature_size < after
    → unpack_chunk mode m opn chunk after offset
      ≡ payload_of chunk after offset m.remote_signature_size padding
unfolding unpack_chunk verify_chunk
opened mode m chunk after offset padding s p v h =
    let enough : leb after (offset + padding + m.remote_signature_size) ≡ false = ground arith in
    let branch : (is_encrypted mode || true) ≡ true = ground arith in
    rw (unpack_chunk, s, branch, p, verify_chunk, enough, v) refl

-- A message that opens a channel, decrypted.
unlocked :
    (mode : SecurityMode) (m : CryptoModule) (chunk plain : List ℕ) (offset : ℕ)
    → m.decrypt (drop offset chunk) ≡ (plain, good)
    → decrypt_chunk mode m opn chunk offset
      ≡ unpack_chunk mode m opn
          (take offset chunk ++ plain ++ drop (offset + length plain) chunk)
          (offset + length plain)
          offset
unfolding decrypt_chunk
unlocked mode m chunk plain offset e =
    let branch : (is_encrypted mode || true) ≡ true = ground arith in
    let given = λ (r : List ℕ × Result).
      if is_good r.1
      then unpack_chunk mode m opn (take offset chunk ++ r.0 ++ drop (offset + length r.0) chunk)
          (offset + length r.0) offset
      else refused r.1 in
    let start : decrypt_chunk mode m opn chunk offset ≡ given (m.decrypt (drop offset chunk)) =
      rw (decrypt_chunk, branch) refl in
    start ∙ ap given e

-- decryptChunk compares the end of the sequence header, the padding and the signature with the
-- length of the chunk as it came in, and not with the length after decryption. Where an asymmetric
-- decryption leaves less than these three take, but more than the padding and the signature, and
-- the chunk as it came in is longer, the chunk is taken. The size of its payload is then, as a
-- size_t, the negative number of bytes that are left for it, and the payload is not inside the
-- buffer. On a channel with security, where the signature of the chunk is right.
pub decrypt_chunk-payload_outside :
    (mode : SecurityMode) (m : CryptoModule) (chunk plain whole : List ℕ) (offset padding : ℕ)
    → (let after = offset + length plain in
        is_signed mode ≡ true
        → m.decrypt (drop offset chunk) ≡ (plain, good)
        → whole ≡ take offset chunk ++ plain ++ drop after chunk
        → padding_size m after whole ≡ some padding
        → m.verify
            (take (after - m.remote_signature_size) whole)
            (take m.remote_signature_size (drop (after - m.remote_signature_size) whole))
          ≡ good
        → padding + m.remote_signature_size < length plain
        → length plain < 8 + padding + m.remote_signature_size
        → offset + 8 + padding + m.remote_signature_size < length chunk
        → after ≤ length chunk
        → length chunk < 2 ^ 63
        → (d : Decrypted) × (decrypt_chunk mode m opn chunk offset ≡ decrypted d)
          × (d.start ≡ offset + 8)
          × (d.size + (8 + padding + m.remote_signature_size) ≡ 2 ^ 64 + length plain)
          × (body_of final d ≡ none))
decrypt_chunk-payload_outside mode m chunk plain whole offset padding s e w p v some_room short long
      fits b =
    let after = offset + length plain in
    let same : length whole ≡ length chunk = omega (
      arith,
      ap length w,
      length-append (take offset chunk ++ plain) (drop after chunk),
      length-append (take offset chunk) plain,
      length-take offset chunk,
      length-drop after chunk,
    ) in
    let (d, f, start, size, o) =
      payload_of-outside whole after offset m.remote_signature_size padding (omega arith)
        (omega arith) (omega (arith, same)) (omega (arith, same)) in
    (
      d,
      unlocked mode m chunk plain offset e
          ∙ ap (λ bs. unpack_chunk mode m opn bs after offset) (sym w)
          ∙ opened mode m whole after offset padding s p v (omega arith)
          ∙ f,
      start,
      omega (arith, size),
      o,
    )
