-- ===== src/Codec/NodeIds.antt =====
-- Guids, NodeIds and ExpandedNodeIds of src/ua_types_encoding_binary.c.
pub mod RoundTrip
pub mod Expanded
use Prim.Native.Nat.{bit_and, bit_or}
use opcua_tsn_lo_i.Base.Bits.{is_set}
use opcua_tsn_lo_i.Base.{
  ℕ, ◌+◌, Bool, ◌||◌, none, List, [], ◌∷◌, ltb, ◌==◌, if◌then◌else◌, length, take, drop,
}
use opcua_tsn_lo_i.Codec.{
  Status, bad_decoding_error, bad_internal_error, or_status, is_good, Encoder, Decoder, decode_if,
  and_then, or_also, then_copy, skip, fail, byte_encode, uint16_encode, uint32_encode, byte_decode,
  uint16_decode, uint32_decode, encode_with_exchange_buffer,
}
use opcua_tsn_lo_i.Codec.Arrays.{UaString, content, string_encode, string_decode, string_calc_size}

pub record Guid : Type 0 where
  pub data1 : ℕ
  pub data2 : ℕ
  pub data3 : ℕ
  pub data4 : List ℕ

unfoldable pub guid_encode : Guid → Encoder
guid_encode g =
    then_copy
      (or_also (or_also (uint32_encode g.data1) (uint16_encode g.data2)) (uint16_encode g.data3))
      g.data4

unfoldable pub guid_decode : Decoder Guid
guid_decode bs =
    let (ret, data1, b1) = uint32_decode bs in
    let (ret', data2, b2) = uint16_decode b1 in
    let (ret'', data3, b3) = uint16_decode b2 in
    if ltb (length b3) 8
    then (
      bad_decoding_error,
      record { data1 = data1; data2 = data2; data3 = data3; data4 = [] },
      b3,
    )
    else (
      or_status (or_status ret ret') ret'',
      record { data1 = data1; data2 = data2; data3 = data3; data4 = take 8 b3 },
      drop 8 b3,
    )

-- `unknown` is an identifier type that is none of the enumeration's.
pub data Identifier : Type 0 where
  numeric : ℕ → Identifier
  text : UaString → Identifier
  guid : Guid → Identifier
  byte_string : UaString → Identifier
  unknown : Identifier

pub record NodeId : Type 0 where
  pub namespace_index : ℕ
  pub identifier : Identifier

abbrev pub null_node_id : NodeId
null_node_id = record { namespace_index = 0; identifier = numeric 0 }

abbrev pub server_index_flag : ℕ
server_index_flag = 0x40

abbrev pub namespace_uri_flag : ℕ
namespace_uri_flag = 0x80

-- The three forms of a numeric identifier; the first fitting one of the two short forms is taken.
unfoldable pub numeric_encode : ℕ → ℕ → ℕ → Encoder
numeric_encode encoding namespace_index id =
    if ltb 65535 id || ltb 255 namespace_index
    then or_also (or_also (byte_encode (bit_or encoding 2)) (uint16_encode namespace_index))
        (uint32_encode id)
    else if ltb 255 id || ltb 0 namespace_index
    then or_also (or_also (byte_encode (bit_or encoding 1)) (byte_encode namespace_index))
        (uint16_encode id)
    else or_also (byte_encode (bit_or encoding 0)) (byte_encode id)

unfoldable pub identifier_encode : ℕ → ℕ → Identifier → Encoder
identifier_encode encoding namespace_index (numeric id) = numeric_encode encoding namespace_index id
identifier_encode encoding namespace_index (text s) =
    and_then (or_also (byte_encode (bit_or encoding 3)) (uint16_encode namespace_index))
      (string_encode s)
identifier_encode encoding namespace_index (guid g) =
    or_also (or_also (byte_encode (bit_or encoding 4)) (uint16_encode namespace_index))
      (guid_encode g)
identifier_encode encoding namespace_index (byte_string s) =
    and_then (or_also (byte_encode (bit_or encoding 5)) (uint16_encode namespace_index))
      (string_encode s)
identifier_encode encoding namespace_index unknown = fail bad_internal_error

unfoldable pub node_id_encode_with_mask : NodeId → ℕ → Encoder
node_id_encode_with_mask n encoding = identifier_encode encoding n.namespace_index n.identifier

unfoldable pub node_id_encode : NodeId → Encoder
unfolding node_id_encode_with_mask
node_id_encode n = node_id_encode_with_mask n 0

-- `ret |= ` a second part that is decoded whatever the first one gave.
abbrev pub with_namespace : {A : Type 0} → (A → Identifier) → Decoder A → Decoder NodeId
with_namespace wrap d bs =
    let (ret, namespace_index, b1) = uint16_decode bs in
    let (ret', x, b2) = d b1 in
    (or_status ret ret', record { namespace_index = namespace_index; identifier = wrap x }, b2)

node_id_decode_content : ℕ → Decoder NodeId
node_id_decode_content encoding bs =
    if encoding == 0
    then (let (ret, id, b1) = byte_decode bs in
        (ret, record { namespace_index = 0; identifier = numeric id }, b1))
    else if encoding == 1
    then (let (ret, namespace_index, b1) = byte_decode bs in
        let (ret', id, b2) = uint16_decode b1 in
        (
          or_status ret ret',
          record { namespace_index = namespace_index; identifier = numeric id },
          b2,
        ))
    else if encoding == 2
    then with_namespace numeric uint32_decode bs
    else if encoding == 3
    then with_namespace text string_decode bs
    else if encoding == 4
    then with_namespace guid guid_decode bs
    else if encoding == 5
    then with_namespace byte_string string_decode bs
    else (bad_internal_error, null_node_id, bs)

-- The two flags of an ExpandedNodeId are masked out.
unfoldable pub node_id_decode : Decoder NodeId
unfolding node_id_decode_content
node_id_decode bs =
    let (ret, encoding, b1) = byte_decode bs in
    if is_good ret
    then node_id_decode_content (bit_and encoding 0x3f) b1
    else (ret, null_node_id, b1)

numeric_size : ℕ → ℕ → ℕ
numeric_size namespace_index id =
    if ltb 65535 id || ltb 255 namespace_index
    then 6
    else if ltb 255 id || ltb 0 namespace_index
    then 3
    else 1

-- An identifier type that is none makes the size of the whole 0.
identifier_size : ℕ → Identifier → ℕ
unfolding numeric_size string_calc_size
identifier_size namespace_index (numeric id) = 1 + numeric_size namespace_index id
identifier_size namespace_index (text s) = 1 + 2 + string_calc_size s
identifier_size namespace_index (guid g) = 1 + 18
identifier_size namespace_index (byte_string s) = 1 + 2 + string_calc_size s
identifier_size namespace_index unknown = 0

unfoldable pub node_id_calc_size : NodeId → ℕ
unfolding identifier_size
node_id_calc_size n = identifier_size n.namespace_index n.identifier

pub record ExpandedNodeId : Type 0 where
  pub node_id : NodeId
  pub namespace_uri : UaString
  pub server_index : ℕ

-- `namespaceUri.data > UA_EMPTY_ARRAY_SENTINEL`
abbrev pub has_uri : ExpandedNodeId → Bool
has_uri e = ltb 0 (length (content e.namespace_uri))

abbrev pub has_server : ExpandedNodeId → Bool
has_server e = ltb 0 e.server_index

abbrev pub expanded_mask : Bool → Bool → ℕ
expanded_mask uri server =
    bit_or (if uri then namespace_uri_flag else 0) (if server then server_index_flag else 0)

unfoldable pub expanded_encode : ExpandedNodeId → Encoder
unfolding node_id_encode_with_mask
expanded_encode e =
    and_then (node_id_encode_with_mask e.node_id (expanded_mask (has_uri e) (has_server e))) (
      and_then (if has_uri e then string_encode e.namespace_uri else skip)
        (if has_server e then encode_with_exchange_buffer (uint32_encode e.server_index) else skip))

-- Behind the NodeId; `ret` is the result so far.
expanded_rest : ℕ → Status → NodeId → Decoder ExpandedNodeId
expanded_rest encoding ret n b1 =
    let (ret', uri, b2) = decode_if (is_set encoding namespace_uri_flag) none string_decode b1 in
    let (ret'', server, b3) = decode_if (is_set encoding server_index_flag) 0 uint32_decode b2 in
    (
      or_status (or_status ret ret') ret'',
      record {
        node_id =
            (if is_set encoding namespace_uri_flag then record n { namespace_index = 0 } else n);
        namespace_uri = uri;
        server_index = server;
      },
      b3,
    )

unfoldable pub expanded_decode : Decoder ExpandedNodeId
unfolding expanded_rest
expanded_decode [] = (
  bad_decoding_error,
  record { node_id = null_node_id; namespace_uri = none; server_index = 0 },
  [],
)
expanded_decode (encoding ∷ bs) =
    let (ret, n, b1) = node_id_decode (encoding ∷ bs) in expanded_rest encoding ret n b1

unfoldable pub expanded_calc_size : ExpandedNodeId → ℕ
unfolding string_calc_size node_id_calc_size
expanded_calc_size e =
    node_id_calc_size e.node_id
    + (if has_uri e then string_calc_size e.namespace_uri else 0)
    + (if has_server e then 4 else 0)
