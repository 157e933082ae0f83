-- ===== src/SecureChannel/Assembly.antt =====
-- How chunks become messages, of src/ua_securechannel.c: the entries of a channel against the
-- messages of each request.
pub mod Entries
use opcua_tsn_lo_i.Base.{
  ℕ, ◌≡◌, inl, inr, refl, ap, sym, ◌∙◌, true, false, Option, none, some, List, [], ◌∷◌, ◌++◌, arith,
  ◌==◌, if◌then◌else◌, Bool-cases, Option-cases, ==_iff, append-nil, subst, append_assoc,
}
use opcua_tsn_lo_i.SecureChannel.{
  good, MessageType, ChunkType, final, intermediate, abort, other_chunk, ChunkEntry, SecureChannel,
  remove_chunks, find_chunks, set_chunks, append_chunk, channel_append_chunk,
  ProcessMessageCallback, finalize_chunk, process_payload,
}
use opcua_tsn_lo_i.SecureChannel.Assembly.Entries.{
  bytes_of, Distinct, find-remove_same, find-remove_other, find-set_same, find-set_other,
  find-remove_none, find-set_none, remove-Distinct, set-Distinct, remove_none,
}

-- A chunk of a message, decrypted and checked.
pub record Chunk : Type 0 where
  pub chunk : ChunkType
  pub request_id : ℕ
  pub body : List ℕ

-- The messages of request `i` by the chunks of that request alone: what has come in since the last
-- message, and what then comes.
unfoldable pub messages : ℕ → List ℕ → List Chunk → List (List ℕ)
messages i come [] = []
messages i come (x ∷ xs) =
    if x.request_id == i
    then elim x.chunk [
      | final ↦ (come ++ x.body) ∷ messages i [] xs
      | intermediate ↦ messages i (come ++ x.body) xs
      | abort ↦ messages i [] xs
      | other_chunk ↦ messages i come xs
    ]
    else messages i come xs

-- An application that keeps the messages that it gets, and leaves the channel alone.
abbrev pub keep : ProcessMessageCallback (List (ℕ × List ℕ))
keep type i message (log, c) = ((log ++ (i, message) ∷ [], c), good)

-- A channel takes chunks of type `type`, one after the other, where memory lasts.
unfoldable pub take_chunks :
    MessageType → List Chunk → List (ℕ × List ℕ) × SecureChannel → List (ℕ × List ℕ) × SecureChannel
take_chunks type [] s = s
take_chunks type (x ∷ xs) s =
    take_chunks type xs (process_payload keep true true type x.chunk x.request_id x.body s).0

-- The messages that an application has got for a request.
unfoldable pub got : ℕ → List (ℕ × List ℕ) → List (List ℕ)
got i [] = []
got i ((j, message) ∷ log) = if j == i then message ∷ got i log else got i log

got-append : (i : ℕ) (log more : List (ℕ × List ℕ)) → got i (log ++ more) ≡ got i log ++ got i more
unfolding got
got-append i [] more = refl
got-append i ((j, m) ∷ log) more = ground (arith, got-append i log more)

-- What one chunk does.
record Taken (x : Chunk) (log log' : List (ℕ × List ℕ)) (c c' : SecureChannel) : Type 0 where
  distinct : Distinct c'.chunks
  took :
      (i : ℕ) (xs : List Chunk)
      → got i log' ++ messages i (bytes_of (find_chunks i c'.chunks)) xs
        ≡ got i log ++ messages i (bytes_of (find_chunks i c.chunks)) (x ∷ xs)

finalized :
    (type : MessageType) (i : ℕ) (body : List ℕ) (log : List (ℕ × List ℕ)) (c : SecureChannel)
    → (finalize_chunk keep true type i body (log, c)).0 ≡ (
      log ++ (i, bytes_of (find_chunks i c.chunks) ++ body) ∷ [],
      record c { chunks = remove_chunks i c.chunks },
    )
unfolding finalize_chunk append_chunk
finalized type i body log c = elim (Option-cases (find_chunks i c.chunks)) [
  | inl n ↦ rw (finalize_chunk, n, remove_none i c.chunks n) refl
  | inr (e, f) ↦ rw (finalize_chunk, f) refl
]

first : (e : ChunkEntry) (es : List ChunkEntry) → find_chunks e.request_id (e ∷ es) ≡ some e
unfolding find_chunks
first e es = ground arith

skipped :
    (j : ℕ) (e : ChunkEntry) (es : List ChunkEntry)
    → (e.request_id == j) ≡ false
    → find_chunks j (e ∷ es) ≡ find_chunks j es
unfolding find_chunks
skipped j e es f = ground arith

record Appended (i : ℕ) (body : List ℕ) (es es' : List ChunkEntry) : Type 0 where
  distinct : Distinct es'
  same : bytes_of (find_chunks i es') ≡ bytes_of (find_chunks i es) ++ body
  others : (j : ℕ) → (i == j) ≡ false → find_chunks j es' ≡ find_chunks j es

channel_append_chunk-Appended :
    (i : ℕ) (body : List ℕ) (es : List ChunkEntry)
    → Distinct es
    → Appended i body es (channel_append_chunk true true i body es).0
unfolding channel_append_chunk append_chunk
channel_append_chunk-Appended i body es d = elim (Option-cases (find_chunks i es)) [
  | inl n ↦
      let e : ChunkEntry = record { request_id = i; bytes = [] } in
      let found : find_chunks i (e ∷ es) ≡ some e = first e es in
      rw (channel_append_chunk, n)
        (record {
          distinct = set-Distinct i body (e ∷ es) (n, d);
          same = rw (find-set_same i body e (e ∷ es) found, n) refl;
          others = λ j f. find-set_other i j body (e ∷ es) f ∙ skipped j e es f;
        })
  | inr (e, f) ↦
      rw (channel_append_chunk, f)
        (record {
          distinct = set-Distinct i (e.bytes ++ body) es d;
          same = rw f (find-set_same i (e.bytes ++ body) e es f);
          others = λ j n. find-set_other i j (e.bytes ++ body) es n;
        })
]

taken :
    (type : MessageType) (k : ChunkType) (j : ℕ) (body : List ℕ) (log : List (ℕ × List ℕ))
    (c : SecureChannel)
    → Distinct c.chunks
    → (let r = (process_payload keep true true type k j body (log, c)).0 in
        Taken (record { chunk = k; request_id = j; body = body }) log r.0 c r.1)
unfolding process_payload messages got
taken type final j body log c d = rw (finalized type j body log c) (record {
  distinct = remove-Distinct j c.chunks d;
  took = λ i xs. elim (Bool-cases (j == i)) [
    | inl t ↦
        let e = (==_iff j i).0 t in
        rw (got-append, t, e, find-remove_same i c.chunks d, append_assoc) refl
    | inr f ↦ rw (got-append, f, find-remove_other j i c.chunks f, append-nil) refl
  ];
})
taken type intermediate j body log c d =
    let a = channel_append_chunk-Appended j body c.chunks d in
    record {
      distinct = a.distinct;
      took = λ i xs. elim (Bool-cases (j == i)) [
        | inl t ↦
            let e = (==_iff j i).0 t in
            rw (t, e, (channel_append_chunk-Appended i body c.chunks d).same) refl
        | inr f ↦ rw (f, a.others i f) refl
      ];
    }
taken type abort j body log c d = record {
  distinct = remove-Distinct j c.chunks d;
  took = λ i xs. elim (Bool-cases (j == i)) [
    | inl t ↦ let e = (==_iff j i).0 t in rw (t, e, find-remove_same i c.chunks d) refl
    | inr f ↦ rw (f, find-remove_other j i c.chunks f) refl
  ];
}
taken type other_chunk j body log c d = record {
  distinct = d;
  took = λ i xs. elim (Bool-cases (j == i)) [ inl t ↦ rw t refl | inr f ↦ rw f refl ];
}

taken_all :
    (type : MessageType) (xs : List Chunk) (log : List (ℕ × List ℕ)) (c : SecureChannel) (i : ℕ)
    → Distinct c.chunks
    → got i (take_chunks type xs (log, c)).0
      ≡ got i log ++ messages i (bytes_of (find_chunks i c.chunks)) xs
unfolding take_chunks messages
taken_all type [] log c i d = sym (append-nil (got i log))
taken_all type (x ∷ xs) log c i d =
    let t = taken type x.chunk x.request_id x.body log c d in
    let r = (process_payload keep true true type x.chunk x.request_id x.body (log, c)).0 in
    taken_all type xs r.0 r.1 i t.distinct ∙ t.took i xs

-- Where memory lasts, each message comes out whole, whatever chunks of other requests come in
-- between: for every request, the application gets the messages that the chunks of that request
-- alone make up, each the intermediate chunks since the last message or abort and then the final
-- one, in order and without loss. On a channel that has no chunks yet.
pub take_chunks-assembles :
    (type : MessageType) (xs : List Chunk) (c : SecureChannel) (i : ℕ)
    → c.chunks ≡ []
    → got i (take_chunks type xs ([], c)).0 ≡ messages i [] xs
unfolding got find_chunks
take_chunks-assembles type xs c i none_yet =
    taken_all type xs [] c i (subst Distinct (sym none_yet) tt)
    ∙ ap (λ es. messages i (bytes_of (find_chunks i es)) xs) none_yet
