-- ===== src/Examples/Codings.antt =====
-- Examples for src/ua_types_encoding_binary.c.
use opcua_tsn_lo_i.Base.{ℕ, ◌≡◌, refl, true, false, [], ◌∷◌, ◌++◌, none, some, arith}
use opcua_tsn_lo_i.Codec.{
  is_good, is_limits, is_stuck, Answer, granted, Ctx, byte_encode, byte_decode,
}
use opcua_tsn_lo_i.Codec.Words.{byte_decode-cons}
use opcua_tsn_lo_i.Codec.Output.{output, Serves, Codes, byte_encode-Encodes}
use opcua_tsn_lo_i.Codec.Arrays.{
  UaString, array_encode_overlayable, array_encode_overlayable_complete,
}
use opcua_tsn_lo_i.Codec.NodeIds.{
  Guid, text, NodeId, node_id_encode, node_id_decode, node_id_calc_size, guid, ExpandedNodeId,
  expanded_encode, expanded_decode, expanded_calc_size,
}
use opcua_tsn_lo_i.Codec.NodeIds.RoundTrip.{IsGuid, node_id-Codes}
use opcua_tsn_lo_i.Codec.NodeIds.Expanded.{expanded-Codes}
use opcua_tsn_lo_i.Codec.DataValues.{
  VariantCodec, DataValue, data_value_encode, data_value_decode, data_value_calc_size,
}
use opcua_tsn_lo_i.Codec.DataValues.RoundTrip.{data_value-Codes}
use opcua_tsn_lo_i.Codec.Texts.{
  QualifiedName, qualified_name_encode, qualified_name_decode, qualified_name_calc_size,
  qualified_name-Codes, LocalizedText, localized_text_encode, localized_text_decode,
  localized_text_calc_size, localized_text-Codes,
}
use opcua_tsn_lo_i.Codec.Discipline.{Obeys}
use opcua_tsn_lo_i.Codec.Discipline.Encoders.{expanded_encode-Obeys, localized_text_encode-Obeys}
use opcua_tsn_lo_i.Codec.Discipline.Violation.{qualified_name_encode_breaks_rule}

-- Buffers of 16 bytes, of which the first one has one byte left.
abbrev buffers : ℕ → Answer
buffers n = granted 16

abbrev nearly_full : Ctx
nearly_full = record { buffer = 1 ∷ 2 ∷ []; room = 1; sent = []; callback = some buffers }

buffers_serve : Serves (some buffers)
buffers_serve = λ n. omega arith

abbrev name : UaString
name = some (104 ∷ 105 ∷ [])

array_encode_overlayable_complete_example :
    let r = array_encode_overlayable 2 (1 ∷ 0 ∷ 2 ∷ 0 ∷ []) nearly_full in
    (is_stuck r.0 ≡ false)
    × (is_limits r.0 ≡ false)
    × (is_good r.0 ≡ true → output r.1 ≡ output nearly_full ++ (1 ∷ 0 ∷ 2 ∷ 0 ∷ []))
array_encode_overlayable_complete_example =
    array_encode_overlayable_complete 2 (1 ∷ 0 ∷ 2 ∷ 0 ∷ []) nearly_full (omega arith) (omega arith)
      buffers_serve

abbrev some_guid : Guid
some_guid = record {
  data1 = 70000;
  data2 = 300;
  data3 = 4;
  data4 = 1 ∷ 2 ∷ 3 ∷ 4 ∷ 5 ∷ 6 ∷ 7 ∷ 8 ∷ [];
}

some_guid-IsGuid : IsGuid some_guid
some_guid-IsGuid = record {
  data1_fits = omega arith;
  data2_fits = omega arith;
  data3_fits = omega arith;
  data4_fits = refl;
}

abbrev node : NodeId
node = record { namespace_index = 3; identifier = guid some_guid }

node_id-Codes_example : Codes (node_id_encode node) node_id_decode node (node_id_calc_size node)
node_id-Codes_example =
    node_id-Codes node (record { namespace_fits = omega arith; identifier_fits = some_guid-IsGuid })

abbrev remote : ExpandedNodeId
remote = record {
  node_id = record { namespace_index = 0; identifier = text name };
  namespace_uri = some (117 ∷ []);
  server_index = 5;
}

expanded-Codes_example :
    Codes (expanded_encode remote) expanded_decode remote (expanded_calc_size remote)
expanded-Codes_example = expanded-Codes remote (record {
  node_id_fits = record { namespace_fits = omega arith; identifier_fits = omega arith };
  uri_fits = omega arith;
  server_fits = omega arith;
  uri_filled = λ h. cc;
  uri_replaces = λ _. refl;
})

expanded_encode-Obeys_example : Obeys (expanded_encode remote)
expanded_encode-Obeys_example = expanded_encode-Obeys remote

-- Variants that hold a byte each.
abbrev pub bytes : VariantCodec ℕ
bytes = record {
  empty = 0;
  encode = byte_encode;
  decode = λ depth. byte_decode;
  calc_size = λ v. 1;
  IsCoded = λ depth v. Unit {0};
  codes = λ depth v _. record {
    bytes = v ∷ [];
    encodes = byte_encode-Encodes v;
    decodes = λ rest. byte_decode-cons v rest;
    sized = refl;
  };
}

abbrev value : DataValue ℕ
value = record {
  has_value = true;
  has_status = false;
  has_source_timestamp = true;
  has_server_timestamp = false;
  has_source_picoseconds = true;
  has_server_picoseconds = false;
  value = 42;
  status = 0;
  source_timestamp = 1000000;
  source_picoseconds = 9999;
  server_timestamp = 0;
  server_picoseconds = 0;
}

data_value-Codes_example :
    Codes
      (data_value_encode bytes value)
      (data_value_decode bytes 0)
      value
      (data_value_calc_size bytes value)
data_value-Codes_example = data_value-Codes bytes 0 value (record {
  depth_fits = omega arith;
  value_coded = tt;
  status_fits = omega arith;
  source_fits = omega arith;
  source_pico_fits = omega arith;
  server_fits = omega arith;
  server_pico_fits = omega arith;
  no_value = λ h. cc;
  no_status = λ h. refl;
  no_source = λ h. cc;
  no_source_pico = λ h. cc;
  no_server = λ h. refl;
  no_server_pico = λ h. refl;
})

abbrev qualified : QualifiedName
qualified = record { namespace_index = 300; name = name }

qualified_name-Codes_example :
    Codes
      (qualified_name_encode qualified)
      qualified_name_decode
      qualified
      (qualified_name_calc_size qualified)
qualified_name-Codes_example = qualified_name-Codes qualified (omega arith) (omega arith)

qualified_name_encode_breaks_rule_example :
    let r = qualified_name_encode qualified nearly_full in
    (is_limits r.0 ≡ true) × (r.1.sent ≡ nearly_full.sent ++ (nearly_full.buffer ∷ []))
qualified_name_encode_breaks_rule_example =
    qualified_name_encode_breaks_rule qualified nearly_full buffers 16 (omega arith) refl refl
      (omega arith) (omega arith)

abbrev greeting : LocalizedText
greeting = record { locale = none; text = name }

localized_text-Codes_example :
    Codes
      (localized_text_encode greeting)
      localized_text_decode
      greeting
      (localized_text_calc_size greeting)
localized_text-Codes_example = localized_text-Codes greeting (omega arith) (omega arith)

localized_text_encode-Obeys_example : Obeys (localized_text_encode greeting)
localized_text_encode-Obeys_example = localized_text_encode-Obeys greeting
