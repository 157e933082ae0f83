-- ===== src/Codec/Discipline/Encoders.antt =====
-- Encoders of src/ua_types_encoding_binary.c that keep the rule on chunking.
use Prim.Native.Nat.{bit_or}
use opcua_tsn_lo_i.Base.Bits.{is_set}
use opcua_tsn_lo_i.Base.{ℕ, ◌≤◌, refl, List, arith, ltb, ◌==◌, ◌||◌, length}
use opcua_tsn_lo_i.Codec.{
  bad_internal_error, encode_bytes, encode_with_exchange_buffer, or_also, encode32, byte_encode,
  uint16_encode, uint32_encode,
}
use opcua_tsn_lo_i.Codec.Output.{retry-Outcome}
use opcua_tsn_lo_i.Codec.Arrays.{
  UaString, content, int32_max, signed_length, string_encode, array_encode_overlayable,
  array_encode_overlayable_complete, array_encode_overlayable-Encodes,
}
use opcua_tsn_lo_i.Codec.NodeIds.{
  Guid, guid_encode, Identifier, numeric, text, guid, byte_string, unknown, numeric_encode,
  identifier_encode, node_id_encode_with_mask, ExpandedNodeId, has_uri, has_server, expanded_encode,
}
use opcua_tsn_lo_i.Codec.Texts.{LocalizedText, localized_text_mask, localized_text_encode}
use opcua_tsn_lo_i.Codec.Discipline.{
  Still, Quiet, Obeys, byte_encode-Still, uint16_encode-Still, uint32_encode-Still, then_copy-Still,
  Still-Obeys, Quiet-Obeys, skip-Quiet, fail-Quiet, or_also-Still, Still-Obeys_then,
  Obeys-Quiet_then, if-Still, if-Quiet, or_also-Quiet, and_then-Quiet,
}

exchange-Quiet :
    (bs : List ℕ) → length bs ≤ 8 → Quiet (encode_with_exchange_buffer (encode_bytes bs))
exchange-Quiet bs h = record {
  never = λ c s. (retry-Outcome bs h c s).1;
  callback_kept = λ c s. (retry-Outcome bs h c s).0.kept;
}

uint32_exchange-Quiet : (v : ℕ) → Quiet (encode_with_exchange_buffer (uint32_encode v))
unfolding uint32_encode
uint32_exchange-Quiet v = exchange-Quiet (encode32 v) (unfold encode32 in omega arith)

array-Quiet : (bs : List ℕ) → Quiet (array_encode_overlayable 1 bs)
array-Quiet bs = record {
  never = λ c s. (array_encode_overlayable_complete 1 bs c (omega arith) (omega arith) s).1;
  callback_kept = λ c s. ((array_encode_overlayable-Encodes 1 bs).writes c s).kept;
}

-- A string never reports a full buffer: it moves on to the next one.
pub string_encode-Quiet : (s : UaString) → Quiet (string_encode s)
unfolding string_encode
string_encode-Quiet s =
    if-Quiet (ltb int32_max (length (content s))) (fail-Quiet bad_internal_error refl) (
      and_then-Quiet (uint32_exchange-Quiet (signed_length s))
        (if-Quiet (length (content s) == 0) skip-Quiet (array-Quiet (content s))))

guid_encode-Still : (g : Guid) → Still (guid_encode g)
unfolding guid_encode
guid_encode-Still g = then_copy-Still _ g.data4 (
    or_also-Still (or_also-Still (uint32_encode-Still g.data1) (uint16_encode-Still g.data2))
      (uint16_encode-Still g.data3))

header-Still : (m ns : ℕ) → Still (or_also (byte_encode m) (uint16_encode ns))
header-Still m ns = or_also-Still (byte_encode-Still m) (uint16_encode-Still ns)

numeric_encode-Still : (m ns id : ℕ) → Still (numeric_encode m ns id)
unfolding numeric_encode
numeric_encode-Still m ns id =
    if-Still (ltb 65535 id || ltb 255 ns)
      (or_also-Still (header-Still (bit_or m 2) ns) (uint32_encode-Still id))
      (if-Still (ltb 255 id || ltb 0 ns)
        (or_also-Still (or_also-Still (byte_encode-Still (bit_or m 1)) (byte_encode-Still ns))
          (uint16_encode-Still id))
        (or_also-Still (byte_encode-Still (bit_or m 0)) (byte_encode-Still id)))

identifier_encode-Obeys : (m ns : ℕ) (i : Identifier) → Obeys (identifier_encode m ns i)
unfolding identifier_encode
identifier_encode-Obeys m ns (numeric id) = Still-Obeys (numeric_encode-Still m ns id)
identifier_encode-Obeys m ns (text s) =
    Still-Obeys_then _ _ (header-Still _ ns) (Quiet-Obeys (string_encode-Quiet s))
identifier_encode-Obeys m ns (guid g) =
    Still-Obeys (or_also-Still (header-Still _ ns) (guid_encode-Still g))
identifier_encode-Obeys m ns (byte_string s) =
    Still-Obeys_then _ _ (header-Still _ ns) (Quiet-Obeys (string_encode-Quiet s))
identifier_encode-Obeys m ns unknown = Quiet-Obeys (fail-Quiet _ refl)

-- The encoder of ExpandedNodeIds keeps the rule on chunking, on every value and at every position
-- in the buffer: where it reports a full buffer, it has exchanged none. The callback must give
-- buffers of 8 bytes at least and must not report a full buffer itself.
pub expanded_encode-Obeys : (e : ExpandedNodeId) → Obeys (expanded_encode e)
unfolding expanded_encode node_id_encode_with_mask
expanded_encode-Obeys e =
    Obeys-Quiet_then _ _ (identifier_encode-Obeys _ e.node_id.namespace_index e.node_id.identifier)
      (and_then-Quiet (if-Quiet (has_uri e) (string_encode-Quiet e.namespace_uri) skip-Quiet)
        (if-Quiet (has_server e) (uint32_exchange-Quiet e.server_index) skip-Quiet))

-- The encoder of LocalizedTexts keeps the rule on chunking, if the callback gives buffers of 8 bytes
-- at least and does not report a full buffer itself: where it reports one, it has exchanged none.
pub localized_text_encode-Obeys : (t : LocalizedText) → Obeys (localized_text_encode t)
unfolding localized_text_encode
localized_text_encode-Obeys t = Still-Obeys_then _ _ (byte_encode-Still _) (
    Quiet-Obeys (
      or_also-Quiet
        (if-Quiet (is_set (localized_text_mask t) 1) (string_encode-Quiet t.locale) skip-Quiet)
        (if-Quiet (is_set (localized_text_mask t) 2) (string_encode-Quiet t.text) skip-Quiet)))
