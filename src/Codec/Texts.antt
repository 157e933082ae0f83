-- ===== src/Codec/Texts.antt =====
-- QualifiedNames and LocalizedTexts of src/ua_types_encoding_binary.c.
use opcua_tsn_lo_i.Base.{
  ℕ, ◌+◌, ◌^◌, ◌<◌, ◌≡◌, refl, Bool, true, false, none, some, [], ◌∷◌, ◌++◌, arith, if◌then◌else◌,
  length-append, append_assoc,
}
use opcua_tsn_lo_i.Base.Bits.{or_flag, is_set, bit-le, or_flag-sum, is_set-sum, IsFlag-1, IsFlag-2}
use opcua_tsn_lo_i.Codec.{
  or_status, Encoder, Decoder, decode_if, and_then, or_also, skip, encode16, byte_encode,
  uint16_encode, byte_decode, uint16_decode,
}
use opcua_tsn_lo_i.Codec.Words.{byte_decode-cons, uint16_decode-encode16}
use opcua_tsn_lo_i.Codec.Output.{
  Codes, decode_if-decodes, and_then-Encodes, or_also-Encodes, if-Encodes, skip-Encodes,
  byte_encode-Encodes, uint16_encode-Encodes, length-if,
}
use opcua_tsn_lo_i.Codec.Arrays.{
  UaString, IsShort, string_encode, string_decode, string_calc_size, string_bytes,
  string_encode-Encodes, string_decode-string_bytes, length-string_bytes,
}

pub record QualifiedName : Type 0 where
  pub namespace_index : ℕ
  pub name : UaString

unfoldable pub qualified_name_encode : QualifiedName → Encoder
qualified_name_encode q = or_also (uint16_encode q.namespace_index) (string_encode q.name)

unfoldable pub qualified_name_decode : Decoder QualifiedName
qualified_name_decode bs =
    let (ret, namespace_index, b1) = uint16_decode bs in
    let (ret', name, b2) = string_decode b1 in
    (or_status ret ret', record { namespace_index = namespace_index; name = name }, b2)

unfoldable pub qualified_name_calc_size : QualifiedName → ℕ
qualified_name_calc_size q = 2 + string_calc_size q.name

-- A QualifiedName is read back as it was written, and the computed size is right.
pub qualified_name-Codes :
    (q : QualifiedName)
    → q.namespace_index < 2 ^ 16
    → IsShort q.name
    → Codes (qualified_name_encode q) qualified_name_decode q (qualified_name_calc_size q)
unfolding qualified_name_encode qualified_name_decode qualified_name_calc_size
qualified_name-Codes q h k = record {
  bytes = encode16 q.namespace_index ++ string_bytes q.name;
  encodes =
      or_also-Encodes (uint16_encode-Encodes q.namespace_index) (string_encode-Encodes q.name k);
  decodes = λ rest. rw (
    append_assoc,
    uint16_decode-encode16 q.namespace_index _ h,
    string_decode-string_bytes q.name rest k,
  );
  sized = unfold encode16 in omega (arith, length-string_bytes q.name);
}

pub record LocalizedText : Type 0 where
  pub locale : UaString
  pub text : UaString

-- Whether the pointer of a string is not NULL.
abbrev pub is_some : UaString → Bool
is_some none = false
is_some (some bs) = true

pub localized_text_mask : LocalizedText → ℕ
localized_text_mask t = or_flag (is_some t.text) 2 (or_flag (is_some t.locale) 1 0)

-- The encoder tests the bits of the mask again.
unfoldable pub localized_text_encode : LocalizedText → Encoder
unfolding localized_text_mask
localized_text_encode t =
    let encoding = localized_text_mask t in
    and_then (byte_encode encoding) (
      or_also (if is_set encoding 1 then string_encode t.locale else skip)
        (if is_set encoding 2 then string_encode t.text else skip))

unfoldable pub localized_text_decode : Decoder LocalizedText
localized_text_decode bs =
    let (ret, encoding, b1) = byte_decode bs in
    let (ret', locale, b2) = decode_if (is_set encoding 1) none string_decode b1 in
    let (ret'', text, b3) = decode_if (is_set encoding 2) none string_decode b2 in
    (or_status (or_status ret ret') ret'', record { locale = locale; text = text }, b3)

unfoldable pub localized_text_calc_size : LocalizedText → ℕ
localized_text_calc_size t =
    1
    + (if is_some t.locale then string_calc_size t.locale else 0)
    + (if is_some t.text then string_calc_size t.text else 0)

localized_flags :
    (t : LocalizedText)
    → (is_set (localized_text_mask t) 1 ≡ is_some t.locale)
      × (is_set (localized_text_mask t) 2 ≡ is_some t.text)
unfolding localized_text_mask
localized_flags t =
    let a = bit-le (is_some t.locale) in
    let b = bit-le (is_some t.text) in
    let s =
      or_flag-sum 2 _ _ (is_some t.text) IsFlag-2
        (or_flag-sum 1 0 0 (is_some t.locale) IsFlag-1 refl (omega arith) (omega arith))
        (omega arith) (omega arith) in
    (
      is_set-sum 1 _ _ (is_some t.locale) IsFlag-1 s (omega arith) (omega arith),
      is_set-sum 2 _ _ (is_some t.text) IsFlag-2 s (omega arith) (omega arith),
    )

not_some : (s : UaString) → is_some s ≡ false → s ≡ none
not_some none h = refl
not_some (some bs) h = cc

-- A LocalizedText is read back as it was written: a null locale or text stays null, an empty one
-- stays empty. The computed size is right.
pub localized_text-Codes :
    (t : LocalizedText)
    → IsShort t.locale
    → IsShort t.text
    → Codes (localized_text_encode t) localized_text_decode t (localized_text_calc_size t)
unfolding localized_text_encode localized_text_decode localized_text_calc_size
localized_text-Codes t h k =
    let (f1, f2) = localized_flags t in
    record {
      bytes =
          localized_text_mask t
          ∷ ((if is_some t.locale then string_bytes t.locale else [])
              ++ (if is_some t.text then string_bytes t.text else []));
      encodes =
          rw (f1, f2)
            (and_then-Encodes (byte_encode-Encodes (localized_text_mask t)) (
              or_also-Encodes
                (if-Encodes (is_some t.locale) (string_encode-Encodes t.locale h) skip-Encodes)
                (if-Encodes (is_some t.text) (string_encode-Encodes t.text k) skip-Encodes)));
      decodes = λ rest. rw (
        byte_decode-cons,
        f1,
        f2,
        append_assoc,
        decode_if-decodes (is_some t.locale) none string_decode t.locale (string_bytes t.locale) _
            (λ _. string_decode-string_bytes t.locale _ h) (not_some t.locale),
        decode_if-decodes (is_some t.text) none string_decode t.text (string_bytes t.text) rest
            (λ _. string_decode-string_bytes t.text rest k) (not_some t.text),
      );
      sized = simp (length-append, length-if, length-string_bytes) (omega arith);
    }
