-- ===== src/Timer/Registry.antt =====
-- The changes of src/ua_timer.c against a map from identifiers to registrations, which forgets
-- the times and the order of the list.
use opcua_tsn_lo_i.Base.{
  ℕ, ◌⊎◌, ◌≡◌, refl, inl, inr, false, Option, none, some, List, [], ◌∷◌, arith, ◌==◌, if◌then◌else◌,
  Bool-cases,
}
use opcua_tsn_lo_i.Timer.{
  Entry, remove_sentinel, change_sentinel, group, add_entry, relink, unlink, change_entry_interval,
  remove_entry, apply_change,
}

pub record Registration : Type 0 where
  pub interval : ℕ
  pub callback : ℕ
  pub payload : ℕ

abbrev registration : Entry → Registration
registration tc = record { interval = tc.interval; callback = tc.callback; payload = tc.payload }

unfoldable pub registered : List Entry → ℕ → Option Registration
registered [] i = none
registered (tc ∷ rest) i = if i == tc.id then some (registration tc) else registered rest i

-- No two entries have one identifier.
abbrev pub Unique : List Entry → Type 0
Unique [] = Unit {0}
Unique (tc ∷ rest) = (registered rest tc.id ≡ none) × Unique rest

abbrev set_interval : ℕ → Option Registration → Option Registration
set_interval interval none = none
set_interval interval (some r) = some (record r { interval = interval })

-- What a change means for the map.
pub changed : (ℕ → Option Registration) → Entry → ℕ → Option Registration
changed m change i =
    if i == change.id
    then (if change.callback == remove_sentinel
        then none
        else if change.callback == change_sentinel
        then set_interval change.interval (m i)
        else some (registration change))
    else m i

-- A new entry has an identifier of its own.
abbrev pub IsFresh : List Entry → Entry → Type 0
IsFresh xs change =
    (change.callback ≡ remove_sentinel)
    ⊎ (change.callback ≡ change_sentinel)
    ⊎ (registered xs change.id ≡ none)

group_keeps :
    (tmp tc : Entry) → (registration (group tmp tc) ≡ registration tc) × ((group tmp tc).id ≡ tc.id)
unfolding group
group_keeps tmp tc = ground arith

registered-add_entry :
    (tc : Entry) (xs : List Entry) (i : ℕ)
    → registered xs tc.id ≡ none
    → registered (add_entry tc xs) i
      ≡ (if i == tc.id then some (registration tc) else registered xs i)
unfolding registered add_entry
registered-add_entry tc [] i h = refl
registered-add_entry tc (x ∷ xs) i h =
    ground (arith, group_keeps x tc, registered-add_entry (group x tc) xs i)

add_entry-Unique :
    (tc : Entry) (xs : List Entry)
    → registered xs tc.id ≡ none
    → Unique xs
    → Unique (add_entry tc xs)
unfolding add_entry registered
add_entry-Unique tc [] h u = (refl, tt)
add_entry-Unique tc (x ∷ xs) h u = ground (
  arith,
  group_keeps x tc,
  add_entry-Unique (group x tc) xs,
  registered-add_entry (group x tc) xs x.id,
)

abbrev Unlinked : ℕ → ℕ → List Entry → Option (Entry × List Entry) → Type 0
Unlinked i j xs none = registered xs i ≡ none
Unlinked i j xs (some (tc, rest)) =
    (tc.id ≡ i)
    × (registered xs i ≡ some (registration tc))
    × (registered rest j ≡ (if j == i then none else registered xs j))

relink-Unlinked :
    (i j : ℕ) (x : Entry) (xs : List Entry) (r : Option (Entry × List Entry))
    → i == x.id ≡ false
    → Unlinked i j xs r
    → Unlinked i j (x ∷ xs) (relink x r)
unfolding relink registered
relink-Unlinked i j x xs none e h = ground arith
relink-Unlinked i j x xs (some (tc, rest)) e h = ground arith

unlink-Unlinked : (i j : ℕ) (xs : List Entry) → Unique xs → Unlinked i j xs (unlink i xs)
unfolding unlink registered
unlink-Unlinked i j [] u = refl
unlink-Unlinked i j (x ∷ xs) u = elim (Bool-cases (i == x.id)) [
  | inl hit ↦ rw hit (ground arith, ground arith, ground arith)
  | inr miss ↦ rw miss (relink-Unlinked i j x xs _ miss (unlink-Unlinked i j xs u.1))
]

abbrev RestUnique : Option (Entry × List Entry) → Type 0
RestUnique none = Unit {0}
RestUnique (some (tc, rest)) = Unique rest

relink-RestUnique :
    (i : ℕ) (x : Entry) (xs : List Entry) (r : Option (Entry × List Entry))
    → registered xs x.id ≡ none
    → Unlinked i x.id xs r
    → RestUnique r
    → RestUnique (relink x r)
unfolding relink registered
relink-RestUnique i x xs none h l u = tt
relink-RestUnique i x xs (some (tc, rest)) h l u = (ground arith, u)

unlink-RestUnique : (i : ℕ) (xs : List Entry) → Unique xs → RestUnique (unlink i xs)
unfolding unlink
unlink-RestUnique i [] u = tt
unlink-RestUnique i (x ∷ xs) u = elim (Bool-cases (i == x.id)) [
  | inl hit ↦ rw hit u.1
  | inr miss ↦
      rw miss (
        relink-RestUnique i x xs _ u.0 (unlink-Unlinked i x.id xs u.1) (unlink-RestUnique i xs u.1))
]

remove_entry-changed :
    (xs : List Entry) (i j : ℕ)
    → Unique xs
    → (registered (remove_entry xs i) j ≡ (if j == i then none else registered xs j))
      × Unique (remove_entry xs i)
unfolding remove_entry
remove_entry-changed xs i j u = ground (arith, unlink-Unlinked i j xs u, unlink-RestUnique i xs u)

reset : ℕ → ℕ → Entry → Entry
reset interval time tc = record tc { interval = interval; next_time = time }

reinserted :
    (xs : List Entry) (i j interval time : ℕ) (o : Option (Entry × List Entry))
    → Unlinked i i xs o
    → Unlinked i j xs o
    → RestUnique o
    → Unique xs
    → let r : List Entry = elim o [
      | none ↦ xs
      | some (tc, rest) ↦ add_entry (record tc { interval = interval; next_time = time }) rest
    ] in
      (registered r j
        ≡ (if j == i then set_interval interval (registered xs j) else registered xs j))
      × Unique r
reinserted xs i j interval time none l m n u = (ground arith, u)
reinserted xs i j interval time (some (tc, rest)) l m n u =
    let absent : registered rest tc.id ≡ none = ground arith in
    (
      ground (
        arith,
        registered-add_entry (record tc { interval = interval; next_time = time }) rest j absent,
      ),
      add_entry-Unique (record tc { interval = interval; next_time = time }) rest absent n,
    )

change_entry_interval-changed :
    (xs : List Entry) (i j interval time : ℕ)
    → Unique xs
    → (registered (change_entry_interval xs i interval time) j
        ≡ (if j == i then set_interval interval (registered xs j) else registered xs j))
      × Unique (change_entry_interval xs i interval time)
unfolding change_entry_interval
change_entry_interval-changed xs i j interval time u =
    reinserted xs i j interval time (unlink i xs) (unlink-Unlinked i i xs u)
      (unlink-Unlinked i j xs u) (unlink-RestUnique i xs u) u

-- In a list whose identifiers are distinct, a change that comes out of the queue has on every
-- identifier the effect that the change means: a removal drops the entry with its identifier, a
-- new interval goes to that entry alone, and an entry with a new identifier is added; changes for
-- an identifier that is not there have no effect. The identifiers stay distinct.
pub apply_change-changed :
    (xs : List Entry) (change : Entry) (i : ℕ)
    → Unique xs
    → IsFresh xs change
    → (registered (apply_change xs change) i ≡ changed (registered xs) change i)
      × Unique (apply_change xs change)
unfolding apply_change changed
apply_change-changed xs change i u f = ground (
  arith,
  remove_entry-changed xs change.id i u,
  change_entry_interval-changed xs change.id i change.interval change.next_time u,
  registered-add_entry change xs i,
  add_entry-Unique change xs,
)
