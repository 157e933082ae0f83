-- ===== src/Codec/Output/Sequence.antt =====
-- What a sequence of statements of an encoder of src/ua_types_encoding_binary.c writes.
use opcua_tsn_lo_i.Base.{
  ℕ, ◌-◌, ◌≤◌, ◌≡◌, refl, sym, ap, ◌∙◌, inl, inr, Bool, true, false, List, [], ◌++◌, arith, ltb,
  if◌then◌else◌, Bool-cases, length, length-append, append_assoc, subst,
}
use opcua_tsn_lo_i.Codec.{
  Status, good, is_good, Ctx, Encoder, Decoder, decode_if, advance, and_then, or_also, or_status,
  ored, joined, absorbs, then_copy,
}
use opcua_tsn_lo_i.Codec.Output.Contract.{
  output, Serves, Outcome, Encodes, advance-append, advance-Outcome,
}

-- Running one encoder after another, for any way `k` to go on after the first.
pub chain-Outcome :
    (xs ys : List ℕ) (c c' : Ctx) (r : Status × Ctx)
    → output c' ≡ output c ++ xs
    → c'.callback ≡ c.callback
    → Outcome c' ys r
    → Outcome c (xs ++ ys) r
chain-Outcome xs ys c c' r e k o = record {
  written = λ g. o.written g ∙ rw e (append_assoc (output c) xs ys);
  kept = o.kept ∙ k;
}

-- What holds of two codes and of every other code holds of their bitwise or.
pub joined_keeps :
    (p : Status → Bool) (s t : Status)
    → p s ≡ false
    → p t ≡ false
    → p (ored s t) ≡ false
    → p (joined s t) ≡ false
unfolding joined
joined_keeps p s t h k o = elim (Bool-cases (absorbs s t)) [
  | inl e ↦ rw e h
  | inr n ↦ elim (Bool-cases (absorbs t s)) [ inl e ↦ rw (n, e) k | inr m ↦ rw (n, m) o ]
]

or_status-good :
    (s t : Status) → is_good (or_status s t) ≡ true → (is_good s ≡ true) × (is_good t ≡ true)
or_status-good s t h = ground (arith, joined_keeps is_good s t)

room-advance : (xs : List ℕ) (c : Ctx) → (advance xs c).room ≡ c.room - length xs
unfolding advance
room-advance xs c = refl

module _ {f g : Encoder} {xs ys : List ℕ} (ef : Encodes f xs) (eg : Encodes g ys) where
  fits_both :
      (c : Ctx)
      → length (xs ++ ys) ≤ c.room
      → (f c ≡ (good, advance xs c)) × (g (advance xs c) ≡ (good, advance (xs ++ ys) c))
  fits_both c h = (
    ef.fits c (omega (arith, length-append xs ys)),
    eg.fits (advance xs c) (omega (arith, length-append xs ys, room-advance xs c))
        ∙ ap (λ d. (good, d)) (advance-append xs ys c),
  )

  second : (c : Ctx) → Serves c.callback → Outcome (f c).1 ys (g (f c).1)
  second c s = eg.writes (f c).1 (subst Serves (sym (ef.writes c s).kept) s)

  pub and_then-Encodes : Encodes (and_then f g) (xs ++ ys)
  and_then-Encodes = record {
    fits = λ c h. rw ((fits_both c h).0) (fits_both c h).1;
    writes = write;
  }
    where
      write : (c : Ctx) → Serves c.callback → Outcome c (xs ++ ys) (and_then f g c)
      write c s = elim (Bool-cases (is_good (f c).0)) [
        | inl e ↦ rw e (
            chain-Outcome xs ys c (f c).1 _ ((ef.writes c s).written e) (ef.writes c s).kept
              (second c s))
        | inr e ↦ rw e (record { written = λ h. cc; kept = (ef.writes c s).kept })
      ]

  pub or_also-Encodes : Encodes (or_also f g) (xs ++ ys)
  or_also-Encodes = record {
    fits = λ c h. rw ((fits_both c h).0) (rw ((fits_both c h).1));
    writes = λ c s. record {
      written = λ e.
          let (e₁, e₂) = or_status-good (f c).0 (g (f c).1).0 e in
          (second c s).written e₂
          ∙ ap (λ o. o ++ ys) ((ef.writes c s).written e₁)
          ∙ append_assoc (output c) xs ys;
      kept = (second c s).kept ∙ (ef.writes c s).kept;
    };
  }

pub if-Encodes :
    (b : Bool) {f g : Encoder} {xs ys : List ℕ}
    → Encodes f xs
    → Encodes g ys
    → Encodes (if b then f else g) (if b then xs else ys)
if-Encodes true ef eg = ef
if-Encodes false ef eg = eg

-- The last copy of `Guid_encodeBinary`, whose check of the room comes before the result so far.
pub then_copy-Encodes :
    (f : Encoder) (xs bs : List ℕ) → Encodes f xs → Encodes (then_copy f bs) (xs ++ bs)
then_copy-Encodes f xs bs ef = record {
  fits = λ c h.
      rw (ef.fits c (omega (arith, length-append xs bs)))
        (ground (arith, room-advance xs c, length-append xs bs, advance-append xs bs c));
  writes = λ c s. write c (ef.writes c s);
}
  where
    write : (c : Ctx) → Outcome c xs (f c) → Outcome c (xs ++ bs) (then_copy f bs c)
    write c o = elim (Bool-cases (ltb (f c).1.room (length bs))) [
      | inl full ↦ rw full (record { written = λ h. cc; kept = o.kept })
      | inr space ↦
          let a = advance-Outcome bs (f c).1 in
          rw space (record {
            written = λ h.
                a.written refl ∙ ap (λ z. z ++ bs) (o.written h) ∙ append_assoc (output c) xs bs;
            kept = a.kept ∙ o.kept;
          })
    ]

pub decode_if-decodes :
    {A : Type 0} (b : Bool) (default : A) (d : Decoder A) (v : A) (bs rest : List ℕ)
    → (b ≡ true → d (bs ++ rest) ≡ (good, v, rest))
    → (b ≡ false → v ≡ default)
    → decode_if b default d ((if b then bs else []) ++ rest) ≡ (good, v, rest)
decode_if-decodes true default d v bs rest h k = h refl
decode_if-decodes false default d v bs rest h k = ap (λ x. (good, x, rest)) (sym (k refl))

pub length-if :
    (b : Bool) (bs : List ℕ) → length (if b then bs else []) ≡ (if b then length bs else 0)
length-if true bs = refl
length-if false bs = refl
