-- ===== src/Codec/Discipline.antt =====
-- The rule that the comment on chunking in src/ua_types_encoding_binary.c states: an encoder that
-- has exchanged the buffer must not report that the buffer is full, since its caller would then
-- go back to a position in a buffer that is gone.
pub mod Encoders
pub mod Violation
use Prim.Native.Nat.{bit_or}
use opcua_tsn_lo_i.Base.Bits.{is_set}
use opcua_tsn_lo_i.Base.{
  ℕ, ◌+◌, ◌≤◌, ◌<◌, ◌≡◌, refl, sym, ◌∙◌, inl, inr, subst, Bool, true, false, some, List, [], ◌∷◌,
  ◌++◌, arith, ltb, ◌==◌, ◌||◌, if◌then◌else◌, Bool-cases, length,
}
use opcua_tsn_lo_i.Codec.{
  Status, good, bad_internal_error, is_good, is_limits, granted, Answer, Ctx, Encoder, advance,
  exchange_buffer, exchange_by, answered, encode_bytes, encode_with_exchange_buffer, and_then,
  or_also, or_status, then_copy, skip, fail, encode16, encode32, byte_encode, uint16_encode,
  uint32_encode,
}
use opcua_tsn_lo_i.Codec.Output.{joined_keeps, Serves, retry-Outcome}
use opcua_tsn_lo_i.Codec.Arrays.{
  UaString, content, int32_max, signed_length, string_encode, array_encode_overlayable,
  array_encode_overlayable_complete, array_encode_overlayable-Encodes, content_encode-Encodes,
}
use opcua_tsn_lo_i.Codec.NodeIds.{
  Guid, guid_encode, Identifier, numeric, text, guid, byte_string, unknown, numeric_encode,
  identifier_encode, node_id_encode_with_mask, ExpandedNodeId, has_uri, has_server, expanded_encode,
}
use opcua_tsn_lo_i.Codec.Texts.{
  QualifiedName, qualified_name_encode, LocalizedText, localized_text_mask, localized_text_encode,
}

-- The encoder never exchanges the buffer.
pub record Still (f : Encoder) : Type 0 where
  pub sent_same : (c : Ctx) → (f c).1.sent ≡ c.sent
  pub callback_same : (c : Ctx) → (f c).1.callback ≡ c.callback

-- The encoder never reports a full buffer.
pub record Quiet (f : Encoder) : Type 0 where
  pub never : (c : Ctx) → Serves c.callback → is_limits (f c).0 ≡ false
  pub callback_kept : (c : Ctx) → Serves c.callback → (f c).1.callback ≡ c.callback

-- The rule, with what its rules need to know besides.
pub record Obeys (f : Encoder) : Type 0 where
  pub rule : (c : Ctx) → Serves c.callback → is_limits (f c).0 ≡ true → (f c).1.sent ≡ c.sent
  pub callback_kept : (c : Ctx) → Serves c.callback → (f c).1.callback ≡ c.callback

encode_bytes-Still : (bs : List ℕ) → Still (encode_bytes bs)
unfolding encode_bytes advance
encode_bytes-Still bs = record { sent_same = λ c. ground arith; callback_same = λ c. ground arith }

byte_encode-Still : (v : ℕ) → Still (byte_encode v)
unfolding byte_encode
byte_encode-Still v = encode_bytes-Still _

uint16_encode-Still : (v : ℕ) → Still (uint16_encode v)
unfolding uint16_encode
uint16_encode-Still v = encode_bytes-Still _

uint32_encode-Still : (v : ℕ) → Still (uint32_encode v)
unfolding uint32_encode
uint32_encode-Still v = encode_bytes-Still _

then_copy-Still : (f : Encoder) (bs : List ℕ) → Still f → Still (then_copy f bs)
unfolding advance
then_copy-Still f bs s = record {
  sent_same = λ c. ground (arith, s.sent_same c);
  callback_same = λ c. ground (arith, s.callback_same c);
}

Still-Obeys : {f : Encoder} → Still f → Obeys f
Still-Obeys s = record { rule = λ c _ _. s.sent_same c; callback_kept = λ c _. s.callback_same c }

Quiet-Obeys : {f : Encoder} → Quiet f → Obeys f
Quiet-Obeys q = record { rule = λ c s e. cc (q.never c s); callback_kept = q.callback_kept }

skip-Quiet : Quiet skip
skip-Quiet = record { never = λ c s. refl; callback_kept = λ c s. refl }

fail-Quiet : (s : Status) → is_limits s ≡ false → Quiet (fail s)
fail-Quiet s h = record { never = λ c _. h; callback_kept = λ c _. refl }

or_also-Still : {f g : Encoder} → Still f → Still g → Still (or_also f g)
or_also-Still {f} s t = record {
  sent_same = λ c. t.sent_same (f c).1 ∙ s.sent_same c;
  callback_same = λ c. t.callback_same (f c).1 ∙ s.callback_same c;
}

-- What does not exchange may come before an encoder that obeys the rule.
Still-Obeys_then : (f g : Encoder) → Still f → Obeys g → Obeys (and_then f g)
Still-Obeys_then f g s o = record { rule = rule; callback_kept = kept }
  where
    next : (c : Ctx) → Serves c.callback → Serves (f c).1.callback
    next c h = subst Serves (sym (s.callback_same c)) h

    rule :
        (c : Ctx)
        → Serves c.callback
        → is_limits (and_then f g c).0 ≡ true
        → (and_then f g c).1.sent ≡ c.sent
    rule c h = elim (Bool-cases (is_good (f c).0)) [
      | inl e ↦ rw e (λ l. o.rule (f c).1 (next c h) l ∙ s.sent_same c)
      | inr e ↦ rw e (λ l. s.sent_same c)
    ]

    kept : (c : Ctx) → Serves c.callback → (and_then f g c).1.callback ≡ c.callback
    kept c h = elim (Bool-cases (is_good (f c).0)) [
      | inl e ↦ rw e (o.callback_kept (f c).1 (next c h) ∙ s.callback_same c)
      | inr e ↦ rw e (s.callback_same c)
    ]

-- Behind an encoder that may have exchanged the buffer must come a quiet one.
Obeys-Quiet_then : (f g : Encoder) → Obeys f → Quiet g → Obeys (and_then f g)
Obeys-Quiet_then f g o q = record { rule = rule; callback_kept = kept }
  where
    next : (c : Ctx) → Serves c.callback → Serves (f c).1.callback
    next c h = subst Serves (sym (o.callback_kept c h)) h

    rule :
        (c : Ctx)
        → Serves c.callback
        → is_limits (and_then f g c).0 ≡ true
        → (and_then f g c).1.sent ≡ c.sent
    rule c h = elim (Bool-cases (is_good (f c).0)) [
      | inl e ↦ rw e (λ l. cc (q.never (f c).1 (next c h)))
      | inr e ↦ rw e (λ l. o.rule c h l)
    ]

    kept : (c : Ctx) → Serves c.callback → (and_then f g c).1.callback ≡ c.callback
    kept c h = elim (Bool-cases (is_good (f c).0)) [
      | inl e ↦ rw e (q.callback_kept (f c).1 (next c h) ∙ o.callback_kept c h)
      | inr e ↦ rw e (o.callback_kept c h)
    ]

if-Still : (b : Bool) {f g : Encoder} → Still f → Still g → Still (if b then f else g)
if-Still true q r = q
if-Still false q r = r

if-Quiet : (b : Bool) {f g : Encoder} → Quiet f → Quiet g → Quiet (if b then f else g)
if-Quiet true q r = q
if-Quiet false q r = r

or_status-limits :
    (s t : Status) → is_limits s ≡ false → is_limits t ≡ false → is_limits (or_status s t) ≡ false
or_status-limits s t h k = ground (arith, joined_keeps is_limits s t)

or_also-Quiet : {f g : Encoder} → Quiet f → Quiet g → Quiet (or_also f g)
or_also-Quiet {f} {g} q r = record {
  never = λ c s. or_status-limits (f c).0 (g (f c).1).0 (q.never c s) (r.never (f c).1 (next c s));
  callback_kept = λ c s. r.callback_kept (f c).1 (next c s) ∙ q.callback_kept c s;
}
  where
    next : (c : Ctx) → Serves c.callback → Serves (f c).1.callback
    next c s = subst Serves (sym (q.callback_kept c s)) s

and_then-Quiet : {f g : Encoder} → Quiet f → Quiet g → Quiet (and_then f g)
and_then-Quiet {f} {g} q r = record { never = never; callback_kept = kept }
  where
    next : (c : Ctx) → Serves c.callback → Serves (f c).1.callback
    next c s = subst Serves (sym (q.callback_kept c s)) s

    never : (c : Ctx) → Serves c.callback → is_limits (and_then f g c).0 ≡ false
    never c s = elim (Bool-cases (is_good (f c).0)) [
      | inl e ↦ rw e (r.never (f c).1 (next c s))
      | inr e ↦ rw e (q.never c s)
    ]

    kept : (c : Ctx) → Serves c.callback → (and_then f g c).1.callback ≡ c.callback
    kept c s = elim (Bool-cases (is_good (f c).0)) [
      | inl e ↦ rw e (r.callback_kept (f c).1 (next c s) ∙ q.callback_kept c s)
      | inr e ↦ rw e (q.callback_kept c s)
    ]
