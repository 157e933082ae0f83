-- ===== src/PubSub/DataSetHeader.antt =====
-- The header of a DataSetMessage, of src/pubsub/ua_pubsub_networkmessage.c.
pub mod RoundTrip
use Prim.Native.Nat.{bit_and}
use opcua_tsn_lo_i.Base.{
  ℕ, ◌+◌, ◌*◌, ◌/◌, ◌%◌, Bool, true, false, not, ◌||◌, List, if◌then◌else◌, ◌==◌,
}
use opcua_tsn_lo_i.Base.Bits.{or_flag, is_set}
use opcua_tsn_lo_i.Codec.{
  good, is_good, Encoder, Decoder, and_then, skip, byte_decode, uint16_decode, uint32_decode,
  uint64_decode,
}
use opcua_tsn_lo_i.PubSub.{
  write_byte, write_uint16, write_uint32, write_uint64, Reader, and_read, read_if,
}

-- The two enumerations of the header.
abbrev pub encoding_variant : ℕ
encoding_variant = 0

abbrev pub encoding_rawdata : ℕ
encoding_rawdata = 1

abbrev pub encoding_datavalue : ℕ
encoding_datavalue = 2

abbrev pub data_key_frame : ℕ
data_key_frame = 0

abbrev pub data_delta_frame : ℕ
data_delta_frame = 1

abbrev pub keep_alive : ℕ
keep_alive = 3

pub record DataSetMessageHeader : Type 0 where
  pub valid : Bool
  pub field_encoding : ℕ
  pub sequence_nr_enabled : Bool
  pub timestamp_enabled : Bool
  pub status_enabled : Bool
  pub major_version_enabled : Bool
  pub minor_version_enabled : Bool
  pub message_type : ℕ
  pub picoseconds_included : Bool
  pub sequence_nr : ℕ
  pub timestamp : ℕ
  pub picoseconds : ℕ
  pub status : ℕ
  pub major_version : ℕ
  pub minor_version : ℕ

unfoldable pub flags2_enabled : DataSetMessageHeader → Bool
flags2_enabled h =
    not (h.message_type == data_key_frame) || h.timestamp_enabled || h.picoseconds_included

unfoldable pub data_set_flags1 : DataSetMessageHeader → ℕ
data_set_flags1 h = or_flag (flags2_enabled h) 128 (
    or_flag h.minor_version_enabled 64 (
      or_flag h.major_version_enabled 32 (
        or_flag h.status_enabled 16
          (or_flag h.sequence_nr_enabled 8 (or_flag h.valid 1 (h.field_encoding * 2 % 256))))))

-- The enumeration is stored in a UA_Byte.
unfoldable pub data_set_flags2 : DataSetMessageHeader → ℕ
data_set_flags2 h =
    or_flag h.picoseconds_included 32 (or_flag h.timestamp_enabled 16 (h.message_type % 256))

unfoldable pub data_set_header_encode : DataSetMessageHeader → Encoder
data_set_header_encode h = and_then (write_byte (data_set_flags1 h)) (
    and_then (if flags2_enabled h then write_byte (data_set_flags2 h) else skip) (
      and_then (if h.sequence_nr_enabled then write_uint16 h.sequence_nr else skip) (
        and_then (if h.timestamp_enabled then write_uint64 h.timestamp else skip) (
          and_then (if h.picoseconds_included then write_uint16 h.picoseconds else skip) (
            and_then (if h.status_enabled then write_uint16 h.status else skip) (
              and_then (if h.major_version_enabled then write_uint32 h.major_version else skip)
                (if h.minor_version_enabled then write_uint32 h.minor_version else skip)))))))

-- `memset` of the destination.
abbrev pub empty_header : DataSetMessageHeader
empty_header = record {
  valid = false;
  field_encoding = 0;
  sequence_nr_enabled = false;
  timestamp_enabled = false;
  status_enabled = false;
  major_version_enabled = false;
  minor_version_enabled = false;
  message_type = 0;
  picoseconds_included = false;
  sequence_nr = 0;
  timestamp = 0;
  picoseconds = 0;
  status = 0;
  major_version = 0;
  minor_version = 0;
}

-- DataSetFlags1; the flag that says whether there are DataSetFlags2 is no member of `dst`.
put_flags1 : DataSetMessageHeader → ℕ → DataSetMessageHeader
put_flags1 dst v = record dst {
  field_encoding = bit_and v 6 / 2;
  valid = is_set v 1;
  sequence_nr_enabled = is_set v 8;
  status_enabled = is_set v 16;
  major_version_enabled = is_set v 32;
  minor_version_enabled = is_set v 64;
}

put_flags2 : DataSetMessageHeader → ℕ → DataSetMessageHeader
put_flags2 dst v = record dst {
  message_type = bit_and v 15;
  timestamp_enabled = is_set v 16;
  picoseconds_included = is_set v 32;
}

read_flags2 : Bool → Reader DataSetMessageHeader
unfolding put_flags2
read_flags2 true dst bs =
    let (rv, v, rest) = byte_decode bs in
    if is_good rv then (rv, put_flags2 dst v, rest) else (rv, dst, rest)
read_flags2 false dst bs =
    (good, record dst { message_type = data_key_frame; picoseconds_included = false }, bs)

read_members : Reader DataSetMessageHeader
read_members =
    and_read
      (read_if (λ h. h.sequence_nr_enabled) 0 uint16_decode (λ h v. record h { sequence_nr = v }))
      (and_read
        (read_if (λ h. h.timestamp_enabled) 0 uint64_decode (λ h v. record h { timestamp = v }))
        (and_read
          (read_if (λ h. h.picoseconds_included) 0 uint16_decode
            (λ h v. record h { picoseconds = v }))
          (and_read
            (read_if (λ h. h.status_enabled) 0 uint16_decode (λ h v. record h { status = v }))
            (and_read
              (read_if (λ h. h.major_version_enabled) 0 uint32_decode
                (λ h v. record h { major_version = v }))
              (read_if (λ h. h.minor_version_enabled) 0 uint32_decode
                (λ h v. record h { minor_version = v }))))))

unfoldable pub data_set_header_decode : Decoder DataSetMessageHeader
unfolding put_flags1 read_flags2 read_members
data_set_header_decode bs =
    let (rv, v, rest) = byte_decode bs in
    if is_good rv
    then and_read (read_flags2 (is_set v 128)) read_members (put_flags1 empty_header v) rest
    else (rv, empty_header, rest)

unfoldable pub data_set_header_calc_size : DataSetMessageHeader → ℕ
data_set_header_calc_size h =
    1
    + (if flags2_enabled h then 1 else 0)
    + (if h.sequence_nr_enabled then 2 else 0)
    + (if h.timestamp_enabled then 8 else 0)
    + (if h.picoseconds_included then 2 else 0)
    + (if h.status_enabled then 2 else 0)
    + (if h.major_version_enabled then 4 else 0)
    + (if h.minor_version_enabled then 4 else 0)
