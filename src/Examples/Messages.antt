-- ===== src/Examples/Messages.antt =====
-- Examples for the DataSetMessages of src/pubsub/ua_pubsub_networkmessage.c.
use opcua_tsn_lo_i.Base.{ℕ, refl, true, false, [], ◌∷◌, arith}
use opcua_tsn_lo_i.Codec.Output.{Codes}
use opcua_tsn_lo_i.Codec.DataValues.{DataValue, data_value_init}
use opcua_tsn_lo_i.PubSub.DataSetHeader.{
  DataSetMessageHeader, data_set_header_encode, data_set_header_decode, data_set_header_calc_size,
}
use opcua_tsn_lo_i.PubSub.DataSetHeader.RoundTrip.{IsHeader, data_set_header-Codes}
use opcua_tsn_lo_i.PubSub.DataSetMessage.{
  DataSetMessage, data_set_message_encode, data_set_message_decode, data_set_message_calc_size,
}
use opcua_tsn_lo_i.PubSub.DataSetMessage.RoundTrip.{delta_variants, data_set_message-Codes}
use opcua_tsn_lo_i.Examples.Codings.{bytes}

-- A delta frame with a time stamp, whose fields are Variants.
abbrev header : DataSetMessageHeader
header = record {
  valid = true;
  field_encoding = 0;
  sequence_nr_enabled = true;
  timestamp_enabled = true;
  status_enabled = false;
  major_version_enabled = false;
  minor_version_enabled = true;
  message_type = 1;
  picoseconds_included = false;
  sequence_nr = 4711;
  timestamp = 1000000;
  picoseconds = 0;
  status = 0;
  major_version = 0;
  minor_version = 2;
}

header-IsHeader : IsHeader header
header-IsHeader = record {
  field_encoding_fits = omega arith;
  message_type_fits = omega arith;
  sequence_nr_fits = omega arith;
  timestamp_fits = omega arith;
  picoseconds_fits = omega arith;
  status_fits = omega arith;
  major_version_fits = omega arith;
  minor_version_fits = omega arith;
  no_sequence_nr = λ h. cc;
  no_timestamp = λ h. cc;
  no_picoseconds = λ h. refl;
  no_status = λ h. refl;
  no_major_version = λ h. refl;
  no_minor_version = λ h. cc;
}

data_set_header-Codes_example :
    Codes
      (data_set_header_encode header)
      data_set_header_decode
      header
      (data_set_header_calc_size header)
data_set_header-Codes_example = data_set_header-Codes header header-IsHeader

abbrev field : ℕ → DataValue ℕ
unfolding data_value_init
field v = record (data_value_init bytes) { value = v; has_value = true }

abbrev message : DataSetMessage ℕ
message = record {
  header = header;
  key_frame = [];
  delta_frame =
      record { field_index = 2; field_value = field 17 }
      ∷ record { field_index = 9; field_value = field 4 }
      ∷ [];
}

data_set_message-Codes_example :
    Codes
      (data_set_message_encode bytes message)
      (data_set_message_decode bytes)
      message
      (data_set_message_calc_size bytes message)
unfolding data_value_init field
data_set_message-Codes_example = data_set_message-Codes bytes message header-IsHeader (
    delta_variants refl refl refl (omega arith)
      ((omega arith, (tt, refl)), ((omega arith, (tt, refl)), tt)))
