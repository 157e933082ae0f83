-- ===== src/Codec/NodeIds/RoundTrip.antt =====
-- Guids, NodeIds and ExpandedNodeIds are read back as they were written.
use Prim.Native.Nat.{bit_and, bit_or}
use opcua_tsn_lo_i.Base.Bits.{is_set}
use opcua_tsn_lo_i.Base.{
  ℕ, suc, ◌^◌, ◌<◌, ◌≡◌, refl, sym, inl, inr, Bool, true, false, ◌||◌, List, [], ◌∷◌, ◌++◌, arith,
  ltb, if◌then◌else◌, Bool-cases, length, take, drop, take-append, drop-append, length-append,
  append_assoc,
}
use opcua_tsn_lo_i.Codec.{good, encode16, encode32}
use opcua_tsn_lo_i.Codec.Words.{byte_decode-cons, uint16_decode-encode16, uint32_decode-encode32}
use opcua_tsn_lo_i.Codec.Output.{
  Encodes, Codes, and_then-Encodes, or_also-Encodes, then_copy-Encodes, byte_encode-Encodes,
  uint16_encode-Encodes, uint32_encode-Encodes,
}
use opcua_tsn_lo_i.Codec.Arrays.{
  IsShort, string_bytes, string_encode-Encodes, string_decode-string_bytes, length-string_bytes,
}
use opcua_tsn_lo_i.Codec.NodeIds.{
  Guid, guid_encode, guid_decode, Identifier, numeric, text, guid, byte_string, unknown, NodeId,
  numeric_encode, identifier_encode, node_id_encode_with_mask, node_id_encode,
  node_id_decode_content, node_id_decode, identifier_size, node_id_calc_size, expanded_mask,
}

pub record IsGuid (g : Guid) : Type 0 where
  pub data1_fits : g.data1 < 2 ^ 32
  pub data2_fits : g.data2 < 2 ^ 16
  pub data3_fits : g.data3 < 2 ^ 16
  pub data4_fits : length g.data4 ≡ 8

pub guid_bytes : Guid → List ℕ
guid_bytes g = encode32 g.data1 ++ (encode16 g.data2 ++ (encode16 g.data3 ++ g.data4))

guid_encode-Encodes : (g : Guid) → Encodes (guid_encode g) (guid_bytes g)
unfolding guid_encode guid_bytes encode32 encode16
guid_encode-Encodes g = then_copy-Encodes _ _ g.data4 (
    or_also-Encodes
      (or_also-Encodes (uint32_encode-Encodes g.data1) (uint16_encode-Encodes g.data2))
      (uint16_encode-Encodes g.data3))

take_eight : (xs ys : List ℕ) → length xs ≡ 8 → (take 8 (xs ++ ys) ≡ xs) × (drop 8 (xs ++ ys) ≡ ys)
take_eight xs ys e = rw (sym e) (take-append xs ys, drop-append xs ys)

guid_decode-guid_bytes :
    (g : Guid) (rest : List ℕ) → IsGuid g → guid_decode (guid_bytes g ++ rest) ≡ (good, g, rest)
unfolding guid_decode guid_bytes
guid_decode-guid_bytes g rest v =
    rw
      (
        append_assoc,
        append_assoc,
        append_assoc,
        uint32_decode-encode32 g.data1 _ v.data1_fits,
        uint16_decode-encode16 g.data2 _ v.data2_fits,
        uint16_decode-encode16 g.data3 _ v.data3_fits,
      )
      (ground (arith, length-append g.data4 rest, take_eight g.data4 rest v.data4_fits))

-- A Guid whose parts fit is read back as it was written, and takes 16 bytes.
pub guid-Codes : (g : Guid) → IsGuid g → Codes (guid_encode g) guid_decode g 16
guid-Codes g v = record {
  bytes = guid_bytes g;
  encodes = guid_encode-Encodes g;
  decodes = λ rest. guid_decode-guid_bytes g rest v;
  sized = unfold guid_bytes encode32 encode16 in omega (arith, v.data4_fits);
}

abbrev pub IsIdentifier : Identifier → Type 0
IsIdentifier (numeric id) = id < 2 ^ 32
IsIdentifier (text s) = IsShort s
IsIdentifier (guid g) = IsGuid g
IsIdentifier (byte_string s) = IsShort s
IsIdentifier unknown = ⊥

pub record IsNodeId (n : NodeId) : Type 0 where
  pub namespace_fits : n.namespace_index < 2 ^ 16
  pub identifier_fits : IsIdentifier n.identifier

-- The form of a NodeId, and the bytes behind the encoding byte.
unfoldable pub kind : ℕ → Identifier → ℕ
kind ns (numeric id) =
    if ltb 65535 id || ltb 255 ns then 2 else if ltb 255 id || ltb 0 ns then 1 else 0
kind ns (text s) = 3
kind ns (guid g) = 4
kind ns (byte_string s) = 5
kind ns unknown = 6

unfoldable pub tail_bytes : ℕ → Identifier → List ℕ
unfolding guid_bytes
tail_bytes ns (numeric id) =
    if ltb 65535 id || ltb 255 ns
    then encode16 ns ++ encode32 id
    else if ltb 255 id || ltb 0 ns
    then ns ∷ encode16 id
    else id ∷ []
tail_bytes ns (text s) = encode16 ns ++ string_bytes s
tail_bytes ns (guid g) = encode16 ns ++ guid_bytes g
tail_bytes ns (byte_string s) = encode16 ns ++ string_bytes s
tail_bytes ns unknown = []

identifier_encode-Encodes :
    (m ns : ℕ) (i : Identifier)
    → IsIdentifier i
    → Encodes (identifier_encode m ns i) (bit_or m (kind ns i) ∷ tail_bytes ns i)
unfolding identifier_encode numeric_encode kind tail_bytes encode16
identifier_encode-Encodes m ns (numeric id) h = elim (Bool-cases (ltb 65535 id || ltb 255 ns)) [
  | inl e ↦ rw e (
      or_also-Encodes
        (or_also-Encodes (byte_encode-Encodes (bit_or m 2)) (uint16_encode-Encodes ns))
        (uint32_encode-Encodes id))
  | inr e ↦ elim (Bool-cases (ltb 255 id || ltb 0 ns)) [
    | inl e' ↦
        rw (e, e')
          (or_also-Encodes
            (or_also-Encodes (byte_encode-Encodes (bit_or m 1)) (byte_encode-Encodes ns))
            (uint16_encode-Encodes id))
    | inr e' ↦
        rw (e, e') (or_also-Encodes (byte_encode-Encodes (bit_or m 0)) (byte_encode-Encodes id))
  ]
]
identifier_encode-Encodes m ns (text s) h =
    and_then-Encodes (or_also-Encodes (byte_encode-Encodes (bit_or m 3)) (uint16_encode-Encodes ns))
      (string_encode-Encodes s h)
identifier_encode-Encodes m ns (guid g) h =
    or_also-Encodes (or_also-Encodes (byte_encode-Encodes (bit_or m 4)) (uint16_encode-Encodes ns))
      (guid_encode-Encodes g)
identifier_encode-Encodes m ns (byte_string s) h =
    and_then-Encodes (or_also-Encodes (byte_encode-Encodes (bit_or m 5)) (uint16_encode-Encodes ns))
      (string_encode-Encodes s h)
identifier_encode-Encodes m ns unknown h = absurd h

-- An encoding byte shows both the form and the two flags.
abbrev pub Shows : Bool → Bool → ℕ → Type 0
Shows uri server k =
    let b = bit_or (expanded_mask uri server) k in
    (bit_and b 0x3f ≡ k) × (is_set b 0x80 ≡ uri) × (is_set b 0x40 ≡ server)

Shows-numeric : (uri server : Bool) → Shows uri server 0 × Shows uri server 1 × Shows uri server 2
unfolding is_set
Shows-numeric true true = ((refl, refl, refl), (refl, refl, refl), (refl, refl, refl))
Shows-numeric true false = ((refl, refl, refl), (refl, refl, refl), (refl, refl, refl))
Shows-numeric false true = ((refl, refl, refl), (refl, refl, refl), (refl, refl, refl))
Shows-numeric false false = ((refl, refl, refl), (refl, refl, refl), (refl, refl, refl))

Shows-other : (uri server : Bool) → Shows uri server 3 × Shows uri server 4 × Shows uri server 5
unfolding is_set
Shows-other true true = ((refl, refl, refl), (refl, refl, refl), (refl, refl, refl))
Shows-other true false = ((refl, refl, refl), (refl, refl, refl), (refl, refl, refl))
Shows-other false true = ((refl, refl, refl), (refl, refl, refl), (refl, refl, refl))
Shows-other false false = ((refl, refl, refl), (refl, refl, refl), (refl, refl, refl))

numeric-Shows : (uri server a b : Bool) → Shows uri server (if a then 2 else if b then 1 else 0)
numeric-Shows uri server true b = (Shows-numeric uri server).2
numeric-Shows uri server false true = (Shows-numeric uri server).1
numeric-Shows uri server false false = (Shows-numeric uri server).0

pub kind-Shows :
    (uri server : Bool) (ns : ℕ) (i : Identifier) → IsIdentifier i → Shows uri server (kind ns i)
unfolding kind
kind-Shows uri server ns (numeric id) h = numeric-Shows uri server _ _
kind-Shows uri server ns (text s) h = (Shows-other uri server).0
kind-Shows uri server ns (guid g) h = (Shows-other uri server).1
kind-Shows uri server ns (byte_string s) h = (Shows-other uri server).2
kind-Shows uri server ns unknown h = absurd h

-- Behind the encoding byte.
content_decodes :
    (ns : ℕ) (i : Identifier) (rest : List ℕ)
    → ns < 2 ^ 16
    → IsIdentifier i
    → node_id_decode_content (kind ns i) (tail_bytes ns i ++ rest)
      ≡ (good, record { namespace_index = ns; identifier = i }, rest)
unfolding node_id_decode_content kind tail_bytes
content_decodes ns (numeric id) rest hn h = elim (Bool-cases (ltb 65535 id || ltb 255 ns)) [
  | inl e ↦
      rw e (rw (append_assoc, uint16_decode-encode16 ns _ hn, uint32_decode-encode32 id rest h))
  | inr e ↦ elim (Bool-cases (ltb 255 id || ltb 0 ns)) [
    | inl e' ↦ rw (
      e,
      e',
      byte_decode-cons ns (encode16 id ++ rest),
      uint16_decode-encode16 id rest (ground arith),
    )
    | inr e' ↦ rw (e, e', byte_decode-cons id rest) (ground arith)
  ]
]
content_decodes ns (text s) rest hn h =
    rw (append_assoc, uint16_decode-encode16 ns _ hn, string_decode-string_bytes s rest h)
content_decodes ns (guid g) rest hn h =
    rw (append_assoc, uint16_decode-encode16 ns _ hn, guid_decode-guid_bytes g rest h)
content_decodes ns (byte_string s) rest hn h =
    rw (append_assoc, uint16_decode-encode16 ns _ hn, string_decode-string_bytes s rest h)
content_decodes ns unknown rest hn h = absurd h

unfoldable pub node_bytes : ℕ → NodeId → List ℕ
node_bytes m n =
    bit_or m (kind n.namespace_index n.identifier) ∷ tail_bytes n.namespace_index n.identifier

pub node_id_decode-node_bytes :
    (uri server : Bool) (n : NodeId) (rest : List ℕ)
    → IsNodeId n
    → node_id_decode (node_bytes (expanded_mask uri server) n ++ rest) ≡ (good, n, rest)
unfolding node_id_decode node_bytes
node_id_decode-node_bytes uri server n rest v =
    rw
      (
        byte_decode-cons _ (tail_bytes n.namespace_index n.identifier ++ rest),
        (kind-Shows uri server n.namespace_index n.identifier v.identifier_fits).0,
      )
      (content_decodes n.namespace_index n.identifier rest v.namespace_fits v.identifier_fits)

length-tail_bytes :
    (ns : ℕ) (i : Identifier)
    → IsIdentifier i
    → suc (length (tail_bytes ns i)) ≡ identifier_size ns i
unfolding tail_bytes identifier_size encode16 encode32
length-tail_bytes ns (numeric id) h = ground arith
length-tail_bytes ns (text s) h = omega (arith, length-string_bytes s)
length-tail_bytes ns (guid g) h = omega (arith, h.data4_fits)
length-tail_bytes ns (byte_string s) h = omega (arith, length-string_bytes s)
length-tail_bytes ns unknown h = absurd h

pub node_id_encode-Encodes :
    (m : ℕ) (n : NodeId) → IsNodeId n → Encodes (node_id_encode_with_mask n m) (node_bytes m n)
unfolding node_id_encode_with_mask node_bytes
node_id_encode-Encodes m n v =
    identifier_encode-Encodes m n.namespace_index n.identifier v.identifier_fits

pub length-node_bytes :
    (m : ℕ) (n : NodeId) → IsNodeId n → length (node_bytes m n) ≡ node_id_calc_size n
unfolding node_bytes node_id_calc_size
length-node_bytes m n v = length-tail_bytes n.namespace_index n.identifier v.identifier_fits

-- Every NodeId whose parts fit their types has one coding: what is written in the two-byte, the
-- four-byte or the complete numeric form, or as a string, Guid or byte string, is read back as the
-- same NodeId, and has the size that is computed beforehand.
pub node_id-Codes :
    (n : NodeId) → IsNodeId n → Codes (node_id_encode n) node_id_decode n (node_id_calc_size n)
unfolding node_id_encode
node_id-Codes n v = record {
  bytes = node_bytes 0 n;
  encodes = node_id_encode-Encodes 0 n v;
  decodes = λ rest. node_id_decode-node_bytes false false n rest v;
  sized = length-node_bytes 0 n v;
}
