-- ===== src/SecureChannel/Assembly/Entries.antt =====
-- The list of incomplete messages of src/ua_securechannel.c: what its operations do to the entry of
-- a request, and to those of others.
use opcua_tsn_lo_i.Base.{
  ℕ, ◌≡◌, inl, inr, refl, false, Option, none, some, List, [], ◌∷◌, arith, ◌==◌, Bool-cases,
}
use opcua_tsn_lo_i.SecureChannel.{ChunkEntry, remove_chunks, find_chunks, set_chunks}

-- The bytes that have come in for a request.
abbrev pub bytes_of : Option ChunkEntry → List ℕ
bytes_of none = []
bytes_of (some e) = e.bytes

-- No request has two entries.
abbrev pub Distinct : List ChunkEntry → Type 0
Distinct [] = Unit {0}
Distinct (e ∷ es) = (find_chunks e.request_id es ≡ none) × Distinct es

pub find-remove_same :
    (i : ℕ) (es : List ChunkEntry) → Distinct es → find_chunks i (remove_chunks i es) ≡ none
unfolding find_chunks remove_chunks
find-remove_same i [] d = refl
find-remove_same i (e ∷ es) d = ground (arith, find-remove_same i es d.1, d.0)

pub find-remove_other :
    (i j : ℕ) (es : List ChunkEntry)
    → (i == j) ≡ false
    → find_chunks j (remove_chunks i es) ≡ find_chunks j es
unfolding find_chunks remove_chunks
find-remove_other i j [] n = refl
find-remove_other i j (e ∷ es) n = ground (arith, find-remove_other i j es n)

pub find-set_same :
    (i : ℕ) (bs : List ℕ) (e : ChunkEntry) (es : List ChunkEntry)
    → find_chunks i es ≡ some e
    → bytes_of (find_chunks i (set_chunks i bs es)) ≡ bs
unfolding find_chunks set_chunks
find-set_same i bs e [] f = cc
find-set_same i bs e (x ∷ es) f = ground (arith, find-set_same i bs e es)

pub find-set_other :
    (i j : ℕ) (bs : List ℕ) (es : List ChunkEntry)
    → (i == j) ≡ false
    → find_chunks j (set_chunks i bs es) ≡ find_chunks j es
unfolding find_chunks set_chunks
find-set_other i j bs [] n = refl
find-set_other i j bs (e ∷ es) n = ground (arith, find-set_other i j bs es n)

pub find-remove_none :
    (i j : ℕ) (es : List ChunkEntry)
    → find_chunks j es ≡ none
    → find_chunks j (remove_chunks i es) ≡ none
unfolding find_chunks remove_chunks
find-remove_none i j [] n = refl
find-remove_none i j (e ∷ es) n = ground (arith, find-remove_none i j es)

pub find-set_none :
    (i j : ℕ) (bs : List ℕ) (es : List ChunkEntry)
    → find_chunks j es ≡ none
    → find_chunks j (set_chunks i bs es) ≡ none
unfolding find_chunks set_chunks
find-set_none i j bs [] n = refl
find-set_none i j bs (e ∷ es) n = ground (arith, find-set_none i j bs es)

pub remove-Distinct : (i : ℕ) (es : List ChunkEntry) → Distinct es → Distinct (remove_chunks i es)
unfolding remove_chunks
remove-Distinct i [] d = tt
remove-Distinct i (e ∷ es) d = elim (Bool-cases (e.request_id == i)) [
  | inl t ↦ rw t d.1
  | inr f ↦ rw f (find-remove_none i e.request_id es d.0, remove-Distinct i es d.1)
]

pub set-Distinct :
    (i : ℕ) (bs : List ℕ) (es : List ChunkEntry) → Distinct es → Distinct (set_chunks i bs es)
unfolding set_chunks
set-Distinct i bs [] d = tt
set-Distinct i bs (e ∷ es) d = elim (Bool-cases (e.request_id == i)) [
  | inl t ↦ rw t d
  | inr f ↦ rw f (find-set_none i e.request_id bs es d.0, set-Distinct i bs es d.1)
]

pub remove_none : (i : ℕ) (es : List ChunkEntry) → find_chunks i es ≡ none → remove_chunks i es ≡ es
unfolding find_chunks remove_chunks
remove_none i [] n = refl
remove_none i (e ∷ es) n = ground (arith, remove_none i es)
