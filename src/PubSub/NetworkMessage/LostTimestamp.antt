-- ===== src/PubSub/NetworkMessage/LostTimestamp.antt =====
-- UA_NetworkMessage_encodeBinary of src/pubsub/ua_pubsub_networkmessage.c does not look at the
-- result of the encoding of the timestamp.
use opcua_tsn_lo_i.Base.{
  ℕ, ◌+◌, ◌-◌, ◌≤◌, ◌<◌, ◌≡◌, refl, ◌∙◌, ap, true, false, List, [], ◌∷◌, ◌++◌, arith,
}
use opcua_tsn_lo_i.Codec.{
  good, bad_response_too_large, is_good, Ctx, advance, encode_bytes, encode64, uint64_encode,
}
use opcua_tsn_lo_i.Codec.Output.{output, output-advance}
use opcua_tsn_lo_i.Codec.DataValues.{VariantCodec}
use opcua_tsn_lo_i.PubSub.{encode_binary, write_uint64, encode_all}
use opcua_tsn_lo_i.PubSub.DataSetHeader.RoundTrip.{IsHeader}
use opcua_tsn_lo_i.PubSub.DataSetMessage.{
  DataSetMessage, data_set_message_encode, data_set_message_calc_size,
}
use opcua_tsn_lo_i.PubSub.DataSetMessage.RoundTrip.{Sendable, data_set_message-Codes}
use opcua_tsn_lo_i.PubSub.NetworkMessage.{
  NetworkMessage, extended_flags1_enabled, extended_flags2_enabled, flags_encode, flags_calc_size,
  payload_encode, network_message_encode,
}
use opcua_tsn_lo_i.PubSub.NetworkMessage.Decoding.Flags.{IsFlags, flags-Codes}

-- The message has a timestamp, one DataSetMessage, and no other part.
pub record IsTimestamped {V : Type 0} (m : NetworkMessage V) (d : DataSetMessage V) : Type 0 where
  pub flags_fit : IsFlags m
  pub timestamped : m.timestamp_enabled ≡ true
  pub no_publisher_id : m.publisher_id_enabled ≡ false
  pub no_class_id : m.class_id_enabled ≡ false
  pub no_group_header : m.group_header_enabled ≡ false
  pub no_payload_header : m.payload_header_enabled ≡ false
  pub no_picoseconds : m.picoseconds_enabled ≡ false
  pub no_promoted_fields : m.promoted_fields_enabled ≡ false
  pub no_chunk : m.chunk_message ≡ false
  pub no_security : m.security_enabled ≡ false
  pub dataset : m.message_type ≡ 0
  pub one_message : m.data_set_messages ≡ d ∷ []

uint64_full : (v : ℕ) (c : Ctx) → c.room < 8 → write_uint64 v c ≡ (bad_response_too_large, c)
unfolding write_uint64 encode_binary uint64_encode encode_bytes encode64
uint64_full v c h = ground arith

two_flags :
    {V : Type 0} (m : NetworkMessage V) (d : DataSetMessage V)
    → IsTimestamped m d
    → flags_calc_size m ≡ 2
unfolding flags_calc_size extended_flags1_enabled extended_flags2_enabled
two_flags m d t = ground arith

module _ {V : Type 0} (x : VariantCodec V) (m : NetworkMessage V) (d : DataSetMessage V) where
  one_payload :
      (c : Ctx) (bs : List ℕ)
      → IsTimestamped m d
      → data_set_message_encode x d c ≡ (good, advance bs c)
      → payload_encode x m c ≡ (good, advance bs c)
  unfolding payload_encode encode_all
  one_payload c bs t e = simp (t.no_payload_header, t.one_message, e) refl

  -- If only the timestamp of a network message that has a timestamp, one DataSetMessage and no
  -- other part does not fit into the buffer, the message is reported as encoded all the same, and
  -- what is written are the flags and the DataSetMessage.
  pub timestamp_lost :
      (c : Ctx)
      → (t : IsTimestamped m d) → (h : IsHeader d.header) → (s : Sendable x d)
      → 2 + data_set_message_calc_size x d ≤ c.room
      → c.room < 10
      → let r = network_message_encode x m c in
        (is_good r.0 ≡ true)
        × (output r.1
            ≡ (output c ++ (flags-Codes m t.flags_fit).bytes)
              ++ (data_set_message-Codes x d h s).bytes)
  unfolding network_message_encode
  timestamp_lost c t h s fits full =
      let f = flags-Codes m t.flags_fit in
      let p = data_set_message-Codes x d h s in
      let two = f.sized ∙ two_flags m d t in
      let c1 = advance f.bytes c in
      let room : c1.room ≡ c.room - 2 = unfold advance in omega (arith, two) in
      let flags : flags_encode m c ≡ (good, c1) = f.encodes.fits c (omega (arith, two)) in
      let lost = uint64_full m.timestamp c1 (omega (arith, room)) in
      let sent = one_payload c1 p.bytes t (p.encodes.fits c1 (omega (arith, room, p.sized))) in
      simp
        (
          flags, t.timestamped, t.no_publisher_id, t.no_class_id, t.no_group_header,
          t.no_payload_header, t.no_picoseconds, t.no_promoted_fields, t.no_security, t.dataset,
          lost, sent,
        )
        (refl, output-advance p.bytes c1 ∙ ap (λ o. o ++ p.bytes) (output-advance f.bytes c))
