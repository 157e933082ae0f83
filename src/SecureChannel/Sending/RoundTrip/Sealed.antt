-- ===== src/SecureChannel/Sending/RoundTrip/Sealed.antt =====
-- A chunk that sendSymmetricChunk of src/ua_securechannel.c has padded, signed and encrypted, as
-- decryptChunk takes it.
use opcua_tsn_lo_i.Base.{
  ℕ, ◌+◌, ◌^◌, ◌≤◌, ◌<◌, ◌≡◌, refl, ap, sym, ◌∙◌, subst, true, false, some, List, [], ◌∷◌, ◌++◌,
  arith, leb, length, take, drop, length-append, length-take, append-nil, append_assoc, take-append,
  drop-append, take-append-drop,
}
use opcua_tsn_lo_i.Codec.{encode32}
use opcua_tsn_lo_i.Codec.Words.{uint32_decode-encode32}
use opcua_tsn_lo_i.SecureChannel.{
  good, MessageType, final, SecurityMode, invalid_mode, no_security, sign, sign_and_encrypt,
}
use opcua_tsn_lo_i.SecureChannel.Receiving.{
  CryptoModule, Decrypted, Decryption, decrypted, uint32_at, padding_size, payload_of, verify_chunk,
  is_open_message, unpack_chunk, decrypt_chunk, body_of,
}
use opcua_tsn_lo_i.SecureChannel.Receiving.Checks.{uint32_at-decoded}
use opcua_tsn_lo_i.SecureChannel.Sending.{
  LocalModule, MessageContext, repeat, calculate_padding_sym, padding_of, signature_size_of,
  chunk_header, sign_chunk, encrypt_chunk,
}
use opcua_tsn_lo_i.SecureChannel.Sending.Room.{length-repeat}
use opcua_tsn_lo_i.SecureChannel.Sending.RoundTrip.Views.{
  padding_bytes-short, payload_of-whole, verify_chunk-signed, padding_size-padded,
  calculate_padding_sym-lt, unlocked,
}

-- What is asked of the cryptography of the two sides: what one encrypts and signs, the other
-- decrypts and verifies, ciphers keep the length, and keys and blocks are short.
pub record IsPeer (l : LocalModule) (r : CryptoModule) : Type 0 where
  pub decrypts : (text : List ℕ) → r.decrypt (l.encrypt text).0 ≡ (text, good)
  pub keeps : (text : List ℕ) → length (l.encrypt text).0 ≡ length text
  pub signs : (text : List ℕ) → length (l.sign_text text).0 ≡ l.local_signature_size
  pub verifies : (text : List ℕ) → r.verify text (l.sign_text text).0 ≡ good
  pub signature_size : r.remote_signature_size ≡ l.local_signature_size
  pub key : r.remote_key_length ≤ 2048
  pub block : (1 ≤ l.local_block_size) × (l.local_block_size < 2 ^ 8)

-- A chunk as it is signed, and the peer's view of it once it is decrypted.
module _ (l : LocalModule) (r : CryptoModule) (peer : IsPeer l r) (type : MessageType)
    (plain : is_open_message type ≡ false) (header body : List ℕ) (i n : ℕ)
    (numbered : (rest : List ℕ) → uint32_at 16 (header ++ rest) ≡ some n)
    (requested : (rest : List ℕ) → uint32_at 20 (header ++ rest) ≡ some i)
    (headed : length header ≡ 24) (some_bytes : 1 ≤ length body) where
  -- decryptChunk gives the payload, and its place.
  abbrev Opens : List ℕ → Decryption → Type 0
  Opens chunk d =
      d
      ≡ decrypted (record {
        request_id = i;
        sequence_number = n;
        buffer = chunk;
        start = 24;
        size = length body;
      })

  payload-Opens :
      (chunk rest : List ℕ) (s p : ℕ)
      → chunk ≡ header ++ rest
      → length rest ≡ length body + p + s
      → length chunk < 2 ^ 64
      → Opens chunk (payload_of chunk (length chunk) 16 s p)
  payload-Opens chunk rest s p e k b =
      payload_of-whole chunk body i n s p (rw e (numbered rest)) (rw e (requested rest))
        (rw e (omega (arith, length-append header rest))) some_bytes b

  -- Behind the payload stand the padding and the signature.
  padded-Opens :
      (padding signature : List ℕ)
      → length signature ≡ r.remote_signature_size
      → r.verify (header ++ body ++ padding) signature ≡ good
      → (let chunk = header ++ body ++ padding ++ signature in
          length chunk < 2 ^ 64
          → Opens chunk (verify_chunk r chunk (length chunk) 16 (length padding)))
  padded-Opens padding signature k v b =
      let text = header ++ body ++ padding in
      let rest = body ++ padding ++ signature in
      let same : text ++ signature ≡ header ++ rest =
        append_assoc (header ++ body) padding signature
        ∙ append_assoc header body (padding ++ signature)
        ∙ ap (λ xs. header ++ xs) (sym (append_assoc body padding signature)) in
      verify_chunk-signed r text signature (length padding) k v
        (omega (arith, length-append (header ++ body) padding, length-append header body))
      ∙ payload-Opens (text ++ signature) rest r.remote_signature_size (length padding) same
          (omega (arith, length-append (body ++ padding) signature, length-append body padding)) b

  unfoldable pub text : SecurityMode → List ℕ
  text mode = header ++ body ++ padding_of mode l body

  length-text :
      (mode : SecurityMode)
      → length (text mode) ≡ 24 + length body + length (padding_of mode l body)
  unfolding text
  length-text mode =
      omega
        (arith, length-append (header ++ body) (padding_of mode l body), length-append header body)

  unfoldable pub signed : SecurityMode → List ℕ
  signed mode = (sign_chunk mode l (text mode)).0

  unsigned-Opens :
      length (header ++ body ++ []) < 2 ^ 64
      → Opens
          (header ++ body ++ [])
          (payload_of (header ++ body ++ []) (length (header ++ body ++ [])) 16 0 0)
  unsigned-Opens b =
      payload-Opens (header ++ body ++ []) body 0 0 (append-nil (header ++ body)) (omega arith) b

  encrypted-Opens :
      (p : ℕ) (signature : List ℕ)
      → (let padding = repeat p p ++ p ∷ [] in
          let chunk = header ++ body ++ padding ++ signature in
          length signature ≡ r.remote_signature_size
          → r.verify (header ++ body ++ padding) signature ≡ good
          → length chunk < 2 ^ 64
          → Opens chunk (unpack_chunk sign_and_encrypt r type chunk (length chunk) 16))
  unfolding unpack_chunk
  encrypted-Opens p signature k v b =
      let padding = repeat p p ++ p ∷ [] in
      let chunk = header ++ body ++ padding ++ signature in
      let front = header ++ body ++ repeat p p in
      let same : chunk ≡ front ++ p ∷ signature =
        ap (λ xs. xs ++ signature) (sym (append_assoc (header ++ body) (repeat p p) (p ∷ [])))
        ∙ append_assoc front (p ∷ []) signature in
      let found : padding_size r (length chunk) chunk ≡ some (p + 1) =
        subst (λ xs. padding_size r (length xs) xs ≡ some (p + 1)) (sym same)
          (padding_size-padded r front signature p k peer.key) in
      let size : p + 1 ≡ length padding =
        omega (arith, length-append (repeat p p) (p ∷ []), length-repeat p p) in
      rw (unpack_chunk, found, size) (padded-Opens padding signature k v b)

  unpacked-Opens :
      (mode : SecurityMode)
      → length (signed mode) < 2 ^ 64
      → Opens (signed mode) (unpack_chunk mode r type (signed mode) (length (signed mode)) 16)
  unfolding signed text unpack_chunk sign_chunk padding_of
  unpacked-Opens invalid_mode b = rw plain (unsigned-Opens b)
  unpacked-Opens no_security b = rw plain (unsigned-Opens b)
  unpacked-Opens sign b =
      let k = peer.signs (text sign) ∙ sym peer.signature_size in
      rw plain (padded-Opens [] (l.sign_text (text sign)).0 k (peer.verifies (text sign)) b)
  unpacked-Opens sign_and_encrypt b =
      let p = calculate_padding_sym l (length body + 8) in
      let opens = λ (padding : List ℕ).
        let t = header ++ body ++ padding in
        let chunk = t ++ (l.sign_text t).0 in
        length chunk < 2 ^ 64
        → Opens chunk (unpack_chunk sign_and_encrypt r type chunk (length chunk) 16) in
      let t = header ++ body ++ (repeat p p ++ p ∷ []) in
      subst opens
        (sym (padding_bytes-short p (calculate_padding_sym-lt l (length body + 8) peer.block)))
        (encrypted-Opens p (l.sign_text t).0 (peer.signs t ∙ sym peer.signature_size)
          (peer.verifies t))
        b

  -- What has been encrypted is decrypted in its place.
  unfoldable pub locked : SecurityMode → List ℕ
  locked mode = (encrypt_chunk mode l (signed mode)).0

  pub length-locked : (mode : SecurityMode) → length (locked mode) ≡ length (signed mode)
  unfolding locked encrypt_chunk
  length-locked invalid_mode = refl
  length-locked no_security = refl
  length-locked sign = refl
  length-locked sign_and_encrypt =
      let s = signed sign_and_encrypt in
      length-append (take 16 s) (l.encrypt (drop 16 s)).0
      ∙ ap (λ n. length (take 16 s) + n) (peer.keeps (drop 16 s))
      ∙ sym (length-append (take 16 s) (drop 16 s))
      ∙ ap length (take-append-drop 16 s)

  pub length-signed :
      (mode : SecurityMode)
      → length (signed mode)
        ≡ 24 + length body + length (padding_of mode l body) + signature_size_of mode l
  unfolding signed text sign_chunk
  length-signed invalid_mode = ground (arith, length-text invalid_mode)
  length-signed no_security = ground (arith, length-text no_security)
  length-signed sign = omega (
    arith,
    length-text sign,
    length-append (text sign) (l.sign_text (text sign)).0,
    peer.signs (text sign),
  )
  length-signed sign_and_encrypt =
      let t = text sign_and_encrypt in
      omega (arith, length-text sign_and_encrypt, length-append t (l.sign_text t).0, peer.signs t)

  locked-Opens :
      (mode : SecurityMode)
      → length (signed mode) < 2 ^ 64
      → Opens (signed mode) (decrypt_chunk mode r type (locked mode) 16)
  unfolding locked encrypt_chunk decrypt_chunk
  locked-Opens invalid_mode b = rw (decrypt_chunk, plain) (unpacked-Opens invalid_mode b)
  locked-Opens no_security b = rw (decrypt_chunk, plain) (unpacked-Opens no_security b)
  locked-Opens sign b = rw (decrypt_chunk, plain) (unpacked-Opens sign b)
  locked-Opens sign_and_encrypt b =
      let s = signed sign_and_encrypt in
      let inner = drop 16 s in
      let parts : take 16 s ++ inner ≡ s = take-append-drop 16 s in
      let front : length (take 16 s) ≡ 16 =
        omega (arith, length-take 16 s, length-signed sign_and_encrypt) in
      subst (Opens s)
        (sym (
          unlocked r type (take 16 s) inner (l.encrypt inner).0 front (peer.keeps inner)
            (peer.decrypts inner)))
        (subst (λ xs. Opens s (unpack_chunk sign_and_encrypt r type xs (length xs) 16)) (sym parts)
          (unpacked-Opens sign_and_encrypt b))

  shape : (mode : SecurityMode) → (rest : List ℕ) × (signed mode ≡ header ++ (body ++ rest))
  unfolding signed text sign_chunk padding_of
  shape invalid_mode = ([], append_assoc header body [])
  shape no_security = ([], append_assoc header body [])
  shape sign =
      let s = (l.sign_text (text sign)).0 in
      (s, ap (λ xs. xs ++ s) (append-nil (header ++ body)) ∙ append_assoc header body s)
  shape sign_and_encrypt =
      let padding = padding_of sign_and_encrypt l body in
      let s = (l.sign_text (text sign_and_encrypt)).0 in
      (
        padding ++ s,
        append_assoc (header ++ body) padding s ∙ append_assoc header body (padding ++ s),
      )

  payload :
      (mode : SecurityMode)
      → body_of final (record {
        request_id = i;
        sequence_number = n;
        buffer = signed mode;
        start = 24;
        size = length body;
      })
        ≡ some body
  unfolding body_of
  payload mode =
      let (rest, e) = shape mode in
      let room : leb (24 + length body) (length (signed mode)) ≡ true =
        ground (arith, length-signed mode) in
      let behind : drop 24 (signed mode) ≡ body ++ rest = rw e (
        subst (λ k. drop k (header ++ (body ++ rest)) ≡ body ++ rest) headed
          (drop-append header (body ++ rest))) in
      rw (body_of, room, behind, take-append body rest) refl

  pub received :
      (mode : SecurityMode)
      → length (signed mode) < 2 ^ 64
      → (d : Decrypted) × (decrypt_chunk mode r type (locked mode) 16 ≡ decrypted d)
        × (d.request_id ≡ i)
        × (d.sequence_number ≡ n)
        × (body_of final d ≡ some body)
  received mode b = (_, locked-Opens mode b, refl, refl, payload mode)

-- The token of a chunk is not encrypted.
pub token_of :
    (l : LocalModule) (mode : SecurityMode) (mc : MessageContext) (total n : ℕ)
    (body padding : List ℕ)
    → mc.channel.security_token.token_id < 2 ^ 32
    → uint32_at 12
        (encrypt_chunk mode l (sign_chunk mode l (chunk_header mc total n ++ body ++ padding)).0).0
      ≡ some mc.channel.security_token.token_id
unfolding encrypt_chunk sign_chunk chunk_header encode32
token_of l invalid_mode mc total n body padding h =
    uint32_at-decoded 12 _ _ _ (uint32_decode-encode32 mc.channel.security_token.token_id _ h)
token_of l no_security mc total n body padding h =
    uint32_at-decoded 12 _ _ _ (uint32_decode-encode32 mc.channel.security_token.token_id _ h)
token_of l sign mc total n body padding h =
    uint32_at-decoded 12 _ _ _ (uint32_decode-encode32 mc.channel.security_token.token_id _ h)
token_of l sign_and_encrypt mc total n body padding h =
    uint32_at-decoded 12 _ _ _ (uint32_decode-encode32 mc.channel.security_token.token_id _ h)
