-- ===== src/SecureChannel/Sending/RoundTrip/Views.antt =====
-- The steps of decryptChunk of src/ua_securechannel.c on a text that has a payload, padding and a
-- signature in the places that sendSymmetricChunk gives them.
use opcua_tsn_lo_i.Base.{
  ℕ, zero, suc, ◌+◌, ◌-◌, ◌/◌, ◌%◌, ◌^◌, ◌≤◌, ◌<◌, ◌≡◌, refl, ap, ◌∙◌, subst, false, some, List, [],
  ◌∷◌, ◌++◌, arith, ltb, leb, if◌then◌else◌, length, take, drop, length-append, append-nil,
  take-append, drop-append,
}
use opcua_tsn_lo_i.SecureChannel.{Result, good, is_good, MessageType, sign_and_encrypt}
use opcua_tsn_lo_i.SecureChannel.Receiving.{
  CryptoModule, decrypted, refused, uint32_at, byte_at, byte_before, padding_size, payload_of,
  verify_chunk, unpack_chunk, decrypt_chunk,
}
use opcua_tsn_lo_i.SecureChannel.Sending.{LocalModule, repeat, calculate_padding_sym, padding_bytes}

pub drop_all : (n : ℕ) (xs : List ℕ) → length xs ≤ n → drop n xs ≡ []
drop_all zero [] h = refl
drop_all zero (x ∷ xs) h = absurd (omega arith)
drop_all (suc n) [] h = refl
drop_all (suc n) (x ∷ xs) h = drop_all n xs (omega arith)

pub take_all : (xs : List ℕ) → take (length xs) xs ≡ xs
take_all [] = refl
take_all (x ∷ xs) = ap (◌∷◌ x) (take_all xs)

pub byte_at-append : (xs ys : List ℕ) (b : ℕ) → byte_at (length xs) (xs ++ b ∷ ys) ≡ some b
byte_at-append [] ys b = refl
byte_at-append (x ∷ xs) ys b = byte_at-append xs ys b

pub repeat_last : (n b : ℕ) → repeat (suc n) b ≡ repeat n b ++ b ∷ []
unfolding repeat
repeat_last zero b = refl
repeat_last (suc n) b = ap (◌∷◌ b) (repeat_last n b)

-- A padding of less than 256 bytes.
pub padding_bytes-short : (p : ℕ) → p < 2 ^ 8 → padding_bytes p ≡ repeat p p ++ p ∷ []
unfolding padding_bytes
padding_bytes-short p h =
    let none_extra : ltb 0 (p / 2 ^ 8 % 2 ^ 8) ≡ false = ground arith in
    let same : p % 2 ^ 8 ≡ p = omega arith in
    rw (padding_bytes, none_extra, same, append-nil) (repeat_last p p)

-- Where a text has a payload of `n` bytes behind its headers, `p` bytes of padding and `s` bytes of
-- signature, decryptChunk gives that payload.
pub payload_of-whole :
    (chunk body : List ℕ) (i n s p : ℕ)
    → uint32_at 16 chunk ≡ some n
    → uint32_at 20 chunk ≡ some i
    → length chunk ≡ 24 + length body + p + s
    → 1 ≤ length body
    → length chunk < 2 ^ 64
    → payload_of chunk (length chunk) 16 s p
      ≡ decrypted (record {
        request_id = i;
        sequence_number = n;
        buffer = chunk;
        start = 24;
        size = length body;
      })
unfolding payload_of
payload_of-whole chunk body i n s p e f l some_bytes b =
    let room : leb (length chunk) (24 + p + s) ≡ false = ground arith in
    let size : (length chunk + 2 ^ 64 - 24 - s - p) % 2 ^ 64 ≡ length body = omega arith in
    rw (payload_of, e, f, room, size) refl

-- The signature at the end of a text is found there.
pub verify_chunk-signed :
    (r : CryptoModule) (text signature : List ℕ) (padding : ℕ)
    → length signature ≡ r.remote_signature_size
    → r.verify text signature ≡ good
    → 16 + padding < length text
    → verify_chunk r (text ++ signature) (length (text ++ signature)) 16 padding
      ≡ payload_of
          (text ++ signature)
          (length (text ++ signature))
          16
          r.remote_signature_size
          padding
unfolding verify_chunk
verify_chunk-signed r text signature padding l v h =
    let n : length (text ++ signature) ≡ length text + length signature =
      length-append text signature in
    let enough : leb (length (text ++ signature)) (16 + padding + r.remote_signature_size) ≡ false =
      ground (arith, n) in
    let at : length (text ++ signature) - r.remote_signature_size ≡ length text =
      omega (arith, n) in
    let last : take r.remote_signature_size signature ≡ signature =
      subst (λ k. take k signature ≡ signature) l (take_all signature) in
    rw (verify_chunk, enough, at, take-append text signature, drop-append text signature, last, v)
      refl

-- The last byte of the padding is found ahead of the signature.
pub padding_size-padded :
    (r : CryptoModule) (front signature : List ℕ) (p : ℕ)
    → length signature ≡ r.remote_signature_size
    → r.remote_key_length ≤ 2048
    → padding_size r (length (front ++ p ∷ signature)) (front ++ p ∷ signature) ≡ some (p + 1)
unfolding padding_size byte_before
padding_size-padded r front signature p l k =
    let n : length (front ++ p ∷ signature) ≡ length front + length (p ∷ signature) =
      length-append front (p ∷ signature) in
    let there : ltb (length (front ++ p ∷ signature)) (r.remote_signature_size + 1) ≡ false =
      ground (arith, n) in
    let at : length (front ++ p ∷ signature) - (r.remote_signature_size + 1) ≡ length front =
      omega (arith, n) in
    let short_key : ltb 2048 r.remote_key_length ≡ false = ground arith in
    rw (padding_size, byte_before, there, at, byte_at-append front signature p, short_key) refl

pub calculate_padding_sym-lt :
    (l : LocalModule) (n : ℕ)
    → (1 ≤ l.local_block_size) × (l.local_block_size < 2 ^ 8)
    → calculate_padding_sym l n < 2 ^ 8
unfolding calculate_padding_sym
calculate_padding_sym-lt l n block = omega arith

-- Decryption of what stands behind the headers, in place.
pub unlocked :
    (r : CryptoModule) (type : MessageType) (front inner outer : List ℕ)
    → length front ≡ 16
    → length outer ≡ length inner
    → r.decrypt outer ≡ (inner, good)
    → decrypt_chunk sign_and_encrypt r type (front ++ outer) 16
      ≡ unpack_chunk sign_and_encrypt r type (front ++ inner) (length (front ++ inner)) 16
unfolding decrypt_chunk
unlocked r type front inner outer k same e =
    let chunk = front ++ outer in
    let given = λ (r' : List ℕ × Result).
      if is_good r'.1
      then unpack_chunk sign_and_encrypt r type
          (take 16 chunk ++ r'.0 ++ drop (16 + length r'.0) chunk) (16 + length r'.0) 16
      else refused r'.1 in
    let behind : drop 16 chunk ≡ outer =
      subst (λ n. drop n chunk ≡ outer) k (drop-append front outer) in
    let ahead : take 16 chunk ≡ front =
      subst (λ n. take n chunk ≡ front) k (take-append front outer) in
    let nothing : drop (16 + length inner) chunk ≡ [] =
      drop_all (16 + length inner) chunk (omega (arith, length-append front outer)) in
    let whole : take 16 chunk ++ inner ++ drop (16 + length inner) chunk ≡ front ++ inner =
      rw (ahead, nothing) (append-nil (front ++ inner)) in
    let size : 16 + length inner ≡ length (front ++ inner) =
      omega (arith, length-append front inner) in
    ap given (ap r.decrypt behind ∙ e)
    ∙ ap (λ xs. unpack_chunk sign_and_encrypt r type xs (16 + length inner) 16) whole
    ∙ ap (λ n. unpack_chunk sign_and_encrypt r type (front ++ inner) n 16) size
