-- ===== src/Codec/NodeIds/Expanded.antt =====
-- ExpandedNodeIds are read back as they were written.
use opcua_tsn_lo_i.Base.Bits.{is_set}
use opcua_tsn_lo_i.Base.{
  ℕ, ◌^◌, ◌<◌, ◌≡◌, refl, ◌≢◌, true, false, none, some, List, [], ◌∷◌, ◌++◌, arith, ltb,
  if◌then◌else◌, length, length-append, append_assoc,
}
use opcua_tsn_lo_i.Codec.{good, encode32, uint32_decode}
use opcua_tsn_lo_i.Codec.Words.{uint32_decode-encode32}
use opcua_tsn_lo_i.Codec.Output.{
  length-if, uint32_exchange-Encodes, Encodes, Codes, decode_if-decodes, and_then-Encodes,
  if-Encodes, skip-Encodes,
}
use opcua_tsn_lo_i.Codec.Arrays.{
  UaString, content, IsShort, string_decode, string_bytes, string_encode-Encodes,
  string_decode-string_bytes, length-string_bytes,
}
use opcua_tsn_lo_i.Codec.NodeIds.{
  ExpandedNodeId, has_uri, has_server, expanded_mask, expanded_encode, expanded_rest,
  expanded_decode, expanded_calc_size,
}
use opcua_tsn_lo_i.Codec.NodeIds.RoundTrip.{
  IsNodeId, kind-Shows, node_bytes, node_id_decode-node_bytes, node_id_encode-Encodes,
  length-node_bytes,
}

-- A namespace URI replaces the index of the namespace, and is not the empty string.
pub record IsExpanded (e : ExpandedNodeId) : Type 0 where
  pub node_id_fits : IsNodeId e.node_id
  pub uri_fits : IsShort e.namespace_uri
  pub server_fits : e.server_index < 2 ^ 32
  pub uri_filled : e.namespace_uri ≢ some []
  pub uri_replaces : has_uri e ≡ true → e.node_id.namespace_index ≡ 0

expanded_bytes : ExpandedNodeId → List ℕ
expanded_bytes e =
    node_bytes (expanded_mask (has_uri e) (has_server e)) e.node_id
    ++ ((if has_uri e then string_bytes e.namespace_uri else [])
        ++ (if has_server e then encode32 e.server_index else []))

expanded_encode-Encodes :
    (e : ExpandedNodeId) → IsExpanded e → Encodes (expanded_encode e) (expanded_bytes e)
unfolding expanded_encode expanded_bytes
expanded_encode-Encodes e v = and_then-Encodes (node_id_encode-Encodes _ e.node_id v.node_id_fits) (
    and_then-Encodes
      (if-Encodes (has_uri e) (string_encode-Encodes e.namespace_uri v.uri_fits) skip-Encodes)
      (if-Encodes (has_server e) (uint32_exchange-Encodes e.server_index) skip-Encodes))

no_uri : (s : UaString) → s ≢ some [] → ltb 0 (length (content s)) ≡ false → s ≡ none
no_uri none h e = refl
no_uri (some []) h e = absurd (h refl)
no_uri (some (b ∷ bs)) h e = absurd (ground arith)

expanded_rest-decodes :
    (e : ExpandedNodeId) (b : ℕ) (rest : List ℕ)
    → IsExpanded e
    → is_set b 0x80 ≡ has_uri e
    → is_set b 0x40 ≡ has_server e
    → expanded_rest b good e.node_id (
        ((if has_uri e then string_bytes e.namespace_uri else [])
          ++ (if has_server e then encode32 e.server_index else []))
        ++ rest)
      ≡ (good, e, rest)
unfolding expanded_rest
expanded_rest-decodes e b rest v p q =
    rw
      (
        p,
        q,
        append_assoc,
        decode_if-decodes (has_uri e) none string_decode e.namespace_uri
            (string_bytes e.namespace_uri) _
            (λ h. string_decode-string_bytes e.namespace_uri _ v.uri_fits)
            (no_uri e.namespace_uri v.uri_filled),
        decode_if-decodes (has_server e) 0 uint32_decode e.server_index (encode32 e.server_index)
            rest (λ h. uint32_decode-encode32 e.server_index rest v.server_fits)
            (λ h. ground arith),
      )
      (ground (arith, v.uri_replaces))

expanded_decode-expanded_bytes :
    (e : ExpandedNodeId) (rest : List ℕ)
    → IsExpanded e
    → expanded_decode (expanded_bytes e ++ rest) ≡ (good, e, rest)
unfolding expanded_decode expanded_bytes node_bytes
expanded_decode-expanded_bytes e rest v =
    let (_, p, q) =
      kind-Shows (has_uri e) (has_server e) e.node_id.namespace_index e.node_id.identifier
        v.node_id_fits.identifier_fits in
    rw
      (
        append_assoc,
        node_id_decode-node_bytes (has_uri e) (has_server e) e.node_id _ v.node_id_fits,
      )
      (expanded_rest-decodes e _ rest v p q)

length-expanded_bytes :
    (e : ExpandedNodeId) → IsExpanded e → length (expanded_bytes e) ≡ expanded_calc_size e
unfolding expanded_bytes expanded_calc_size encode32
length-expanded_bytes e v =
    rw
      (
        length-append,
        length-append,
        length-node_bytes _ e.node_id v.node_id_fits,
        length-if (has_uri e),
        length-if (has_server e),
        length-string_bytes,
      )
      (omega arith)

-- An ExpandedNodeId whose parts fit, whose namespace URI is not the empty string and stands in
-- place of an index of the namespace, is read back as it was written: the two flags say which of
-- the two optional parts follow, and the size that is computed beforehand is right.
pub expanded-Codes :
    (e : ExpandedNodeId)
    → IsExpanded e
    → Codes (expanded_encode e) expanded_decode e (expanded_calc_size e)
expanded-Codes e v = record {
  bytes = expanded_bytes e;
  encodes = expanded_encode-Encodes e v;
  decodes = λ rest. expanded_decode-expanded_bytes e rest v;
  sized = length-expanded_bytes e v;
}
