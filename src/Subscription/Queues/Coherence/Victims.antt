-- ===== src/Subscription/Queues/Coherence/Victims.antt =====
-- The two notifications that a round of MonitoredItem_ensureQueueSpace picks from the queue of an
-- item.
use opcua_tsn_lo_i.Base.{
  ℕ, ◌+◌, ◌≤◌, ◌≡◌, ◌≢◌, refl, Bool, true, false, some, List, [], ◌∷◌, ◌++◌, arith, ◌==◌,
  if◌then◌else◌, length, inl, inr, ap, Bool-cases, ==_iff,
}
use mathlib.Core.Path.{subst₂}
use opcua_tsn_lo_i.Subscription.{remove_number, newest_two, oldest_two, victims, last, carrier}
use opcua_tsn_lo_i.Subscription.Queues.{insert_number, has, Distinct}

-- `d` is deleted, and `a` takes its place.
pub record AreVictims (q : List ℕ) (d a : ℕ) : Type 0 where
  pub moved : insert_number d a (remove_number a q) ≡ q
  pub kept : has d (remove_number a q) ≡ true
  pub deleted : has d q ≡ true
  pub present : has a q ≡ true
  pub behind : (f : ℕ) (r : List ℕ) → q ≡ f ∷ r → f ≢ a

oldest_two-AreVictims :
    (q : List ℕ) (d a : ℕ) → Distinct q → oldest_two q ≡ some (d, a) → AreVictims q d a
unfolding oldest_two insert_number remove_number has
oldest_two-AreVictims [] d a u h = cc
oldest_two-AreVictims (x ∷ []) d a u h = cc
oldest_two-AreVictims (x ∷ (y ∷ q)) d a u h = record {
  moved = ground arith;
  kept = ground arith;
  deleted = ground arith;
  present = ground arith;
  behind = λ f r e. ground arith;
}

cons-AreVictims :
    (x : ℕ) (q : List ℕ) (d a : ℕ) → has x q ≡ false → AreVictims q d a → AreVictims (x ∷ q) d a
unfolding insert_number remove_number has
cons-AreVictims x q d a u v = record {
  moved = ground (arith, v.moved, v.deleted, v.present);
  kept = ground (arith, v.kept, v.deleted, v.present);
  deleted = ground (arith, v.deleted);
  present = ground (arith, v.present);
  behind = λ f r e. ground (arith, v.present);
}

pair-AreVictims : (x y : ℕ) → has x (y ∷ []) ≡ false → AreVictims (x ∷ (y ∷ [])) x y
unfolding insert_number remove_number has
pair-AreVictims x y u = record {
  moved = ground arith;
  kept = ground arith;
  deleted = ground arith;
  present = ground arith;
  behind = λ f r e. ground arith;
}

has-newest :
    (q : List ℕ) (d a : ℕ) → newest_two q ≡ some (d, a) → (has d q ≡ true) × (has a q ≡ true)
unfolding newest_two has
has-newest [] d a h = cc
has-newest (x ∷ []) d a h = cc
has-newest (x ∷ (y ∷ [])) d a h = ground arith
has-newest (x ∷ (y ∷ (z ∷ q))) d a h =
    let ih = has-newest (y ∷ (z ∷ q)) d a h in ground (arith, ih.0, ih.1)

newest_two-AreVictims :
    (q : List ℕ) (d a : ℕ) → Distinct q → newest_two q ≡ some (d, a) → AreVictims q d a
unfolding newest_two
newest_two-AreVictims [] d a u h = cc
newest_two-AreVictims (x ∷ []) d a u h = cc
newest_two-AreVictims (x ∷ (y ∷ [])) d a u h =
    subst₂ (AreVictims (x ∷ (y ∷ []))) (ground arith) (ground arith) (pair-AreVictims x y u.0)
newest_two-AreVictims (x ∷ (y ∷ (z ∷ q))) d a u h =
    cons-AreVictims x (y ∷ (z ∷ q)) d a u.0 (newest_two-AreVictims (y ∷ (z ∷ q)) d a u.1 h)

pub victims-AreVictims :
    (b : Bool) (q : List ℕ) (d a : ℕ) → Distinct q → victims b q ≡ some (d, a) → AreVictims q d a
unfolding victims
victims-AreVictims true q d a u h = oldest_two-AreVictims q d a u h
victims-AreVictims false q d a u h = newest_two-AreVictims q d a u h

newest_two_exist :
    (x y : ℕ) (q : List ℕ) → (d : ℕ) × (a : ℕ) × (newest_two (x ∷ (y ∷ q)) ≡ some (d, a))
unfolding newest_two
newest_two_exist x y [] = (x, y, refl)
newest_two_exist x y (z ∷ q) = newest_two_exist y z q

pub victims_exist :
    (b : Bool) (q : List ℕ) → 2 ≤ length q → (d : ℕ) × (a : ℕ) × (victims b q ≡ some (d, a))
unfolding victims oldest_two
victims_exist b [] h = absurd (omega arith)
victims_exist b (x ∷ []) h = absurd (omega arith)
victims_exist true (x ∷ (y ∷ q)) h = (x, y, refl)
victims_exist false (x ∷ (y ∷ q)) h = newest_two_exist x y q

pub length-remove_number :
    (i : ℕ) (q : List ℕ) → has i q ≡ true → length (remove_number i q) + 1 ≡ length q
unfolding remove_number has
length-remove_number i [] h = cc
length-remove_number i (j ∷ q) h = ground (arith, length-remove_number i q)

has-remove_number : (i k : ℕ) (q : List ℕ) → has k q ≡ false → has k (remove_number i q) ≡ false
unfolding remove_number has
has-remove_number i k [] h = refl
has-remove_number i k (j ∷ q) h = ground (arith, has-remove_number i k q)

pub remove_number-Distinct : (i : ℕ) (q : List ℕ) → Distinct q → Distinct (remove_number i q)
unfolding remove_number
remove_number-Distinct i [] u = tt
remove_number-Distinct i (j ∷ q) u = elim (Bool-cases (j == i)) [
  | inl e ↦ rw e u.1
  | inr e ↦ rw e (has-remove_number i j q u.0, remove_number-Distinct i q u.1)
]

has-append : (k i : ℕ) (q : List ℕ) → has k (q ++ i ∷ []) ≡ (if i == k then true else has k q)
unfolding has
has-append k i [] = refl
has-append k i (j ∷ q) = ground (arith, has-append k i q)

pub append-Distinct : (i : ℕ) (q : List ℕ) → Distinct q → has i q ≡ false → Distinct (q ++ i ∷ [])
unfolding has
append-Distinct i [] u h = (refl, tt)
append-Distinct i (j ∷ q) u h =
    (ground (arith, has-append j i q), append-Distinct i q u.1 (ground arith))

pub carrier_exists : (b : Bool) (q : List ℕ) → 1 ≤ length q → (i : ℕ) × (carrier b q ≡ some i)
unfolding carrier last
carrier_exists b [] h = absurd (omega arith)
carrier_exists true (x ∷ q) h = (x, refl)
carrier_exists false (x ∷ []) h = (x, refl)
carrier_exists false (x ∷ (y ∷ q)) h = carrier_exists false (y ∷ q) (omega arith)

-- The queue without its oldest, or without its second newest element.
unfoldable pub discard : Bool → List ℕ → List ℕ
discard b [] = []
discard b (d ∷ []) = d ∷ []
discard true (d ∷ (a ∷ q)) = a ∷ q
discard false (d ∷ (a ∷ [])) = a ∷ []
discard false (d ∷ (a ∷ (b ∷ q))) = d ∷ discard false (a ∷ (b ∷ q))

remove_number-newest :
    (q : List ℕ) (d a : ℕ)
    → Distinct q
    → newest_two q ≡ some (d, a)
    → remove_number d q ≡ discard false q
unfolding newest_two discard remove_number has
remove_number-newest [] d a u h = cc
remove_number-newest (x ∷ []) d a u h = cc
remove_number-newest (x ∷ (y ∷ [])) d a u h = ground arith
remove_number-newest (x ∷ (y ∷ (z ∷ q))) d a u h =
    let ih = remove_number-newest (y ∷ (z ∷ q)) d a u.1 h in
    let there = (has-newest (y ∷ (z ∷ q)) d a h).0 in
    let other : (x == d) ≡ false = elim (Bool-cases (x == d)) [
      | inl e ↦ absurd (clash x d (y ∷ (z ∷ q)) u.0 there ((==_iff x d).0 e))
      | inr e ↦ e
    ] in
    rw other (ap (◌∷◌ x) ih)
  where
    clash : (x d : ℕ) (q : List ℕ) → has x q ≡ false → has d q ≡ true → x ≢ d
    clash x d q h t e = cc

pub remove_number-victims :
    (b : Bool) (q : List ℕ) (d a : ℕ)
    → Distinct q
    → victims b q ≡ some (d, a)
    → remove_number d q ≡ discard b q
unfolding victims oldest_two discard remove_number
remove_number-victims true [] d a u h = cc
remove_number-victims true (x ∷ []) d a u h = cc
remove_number-victims true (x ∷ (y ∷ q)) d a u h = ground arith
remove_number-victims false q d a u h = remove_number-newest q d a u h
