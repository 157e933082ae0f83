-- ===== src/PubSub/DataSetMessage/Fields.antt =====
-- The fields of a DataSetMessage, with their number before them, are read back.
use opcua_tsn_lo_i.PubSub.{write_uint16}
use opcua_tsn_lo_i.Base.{ℕ, ◌^◌, ◌<◌, List, [], ◌∷◌, ◌++◌, All, arith, length, append_assoc}
use opcua_tsn_lo_i.Codec.{Encoder, Decoder, and_then, encode16}
use opcua_tsn_lo_i.Codec.Words.{uint16_decode-encode16}
use opcua_tsn_lo_i.Codec.Output.{Codes, and_then-Encodes}
use opcua_tsn_lo_i.PubSub.Reading.{write_uint16-Encodes, encode_all-Codes}
use opcua_tsn_lo_i.PubSub.DataSetMessage.{fields_encode, fields_decode, fields_calc_size}

module _ {A : Type 0} (f g : A → Encoder) (d e : Decoder A) (s t : A → ℕ) (xs : List A)
    (short : length xs < 2 ^ 16) where
  pub fields_variant-Codes :
      All (λ y. Codes (f y) d y (s y)) xs
      → Codes
          (and_then (write_uint16 (length xs)) (fields_encode 0 f g xs))
          (fields_decode 0 d e)
          xs
          (fields_calc_size 0 s t xs)
  unfolding fields_encode fields_decode fields_calc_size
  fields_variant-Codes h =
      let c = encode_all-Codes f d s xs h in
      record {
        bytes = encode16 (length xs) ++ c.bytes;
        encodes = and_then-Encodes (write_uint16-Encodes (length xs)) c.encodes;
        decodes =
            λ rest. rw (append_assoc, uint16_decode-encode16 (length xs) _ short) (c.decodes rest);
        sized = unfold encode16 in omega (arith, c.sized);
      }

  pub fields_value-Codes :
      All (λ y. Codes (g y) e y (t y)) xs
      → Codes
          (and_then (write_uint16 (length xs)) (fields_encode 2 f g xs))
          (fields_decode 2 d e)
          xs
          (fields_calc_size 2 s t xs)
  unfolding fields_encode fields_decode fields_calc_size
  fields_value-Codes h =
      let c = encode_all-Codes g e t xs h in
      record {
        bytes = encode16 (length xs) ++ c.bytes;
        encodes = and_then-Encodes (write_uint16-Encodes (length xs)) c.encodes;
        decodes =
            λ rest. rw (append_assoc, uint16_decode-encode16 (length xs) _ short) (c.decodes rest);
        sized = unfold encode16 in omega (arith, c.sized);
      }

pub All-map :
    {A : Type 0} (P Q : A → Type 0) → ((y : A) → P y → Q y) → (ys : List A) → All P ys → All Q ys
All-map P Q f [] h = tt
All-map P Q f (y ∷ ys) h = (f y h.0, All-map P Q f ys h.1)
