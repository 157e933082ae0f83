-- ===== src/Subscription/Queues.antt =====
-- The queues of src/server/ua_subscription.c: what the list operations do to the part of the
-- subscription's queue that belongs to one item, and to the number of notifications.
pub mod Coherence
pub mod Trim
pub mod Enqueue
use opcua_tsn_lo_i.Base.{
  ℕ, zero, suc, ◌+◌, ◌-◌, ◌≤◌, ◌<◌, ◌≡◌, ◌≢◌, ◌⊎◌, refl, ap, sym, ◌∙◌, inl, inr, Bool, true, false,
  ◌&&◌, Option, none, some, List, [], ◌∷◌, ◌++◌, arith, ◌==◌, if◌then◌else◌, length, Bool-cases,
  ==_iff,
}
use opcua_tsn_lo_i.Codec.DataValues.{DataValue}
use opcua_tsn_lo_i.Subscription.{
  Notification, is_at, remove, insert_after, find, remove_number, mark, newest_two, oldest_two,
  victims,
}

-- The numbers of the notifications of item `m`, oldest first.
unfoldable pub own : {V : Type 0} → ℕ → List (Notification V) → List ℕ
own m [] = []
own m (n ∷ q) = if n.mon == m then n.number ∷ own m q else own m q

-- The notifications of the items other than `m`, as they are and in their order.
unfoldable pub others_of : {V : Type 0} → ℕ → List (Notification V) → List (Notification V)
others_of m [] = []
others_of m (n ∷ q) = if n.mon == m then others_of m q else n ∷ others_of m q

-- How many notifications belong to an item with a property.
unfoldable pub count : {V : Type 0} → (ℕ → Bool) → List (Notification V) → ℕ
count P [] = 0
count P (n ∷ q) = (if P n.mon then 1 else 0) + count P q

-- How many notifications are ahead of the first one of item `m`.
unfoldable pub place : {V : Type 0} → ℕ → List (Notification V) → ℕ
place m [] = 0
place m (n ∷ q) = if n.mon == m then 0 else suc (place m q)

-- `x` in the place of a notification of item `m`.
unfoldable pub replace :
    {V : Type 0} → ℕ → ℕ → Notification V → List (Notification V) → List (Notification V)
replace m i x [] = []
replace m i x (n ∷ q) = if is_at m i n then x ∷ q else n ∷ replace m i x q

unfoldable pub insert_number : ℕ → ℕ → List ℕ → List ℕ
insert_number i a [] = []
insert_number i a (j ∷ q) = if j == i then j ∷ (a ∷ q) else j ∷ insert_number i a q

unfoldable pub has : ℕ → List ℕ → Bool
has i [] = false
has i (j ∷ q) = if j == i then true else has i q

-- No number stands twice.
abbrev pub Distinct : List ℕ → Type 0
Distinct [] = Unit {0}
Distinct (i ∷ q) = (has i q ≡ false) × Distinct q

module _ {V : Type 0} where
  pub own-append :
      (m : ℕ) (q : List (Notification V)) (n : Notification V)
      → own m (q ++ n ∷ []) ≡ (if n.mon == m then own m q ++ n.number ∷ [] else own m q)
  unfolding own
  own-append m [] n = ground arith
  own-append m (x ∷ q) n = ground (arith, own-append m q n)

  pub own-remove :
      (m i : ℕ) (q : List (Notification V)) → own m (remove m i q) ≡ remove_number i (own m q)
  unfolding own remove remove_number
  own-remove m i [] = refl
  own-remove m i (x ∷ q) = ground (arith, own-remove m i q)

  pub own-remove_other :
      (k m i : ℕ) (q : List (Notification V)) → k ≢ m → own k (remove m i q) ≡ own k q
  unfolding own remove
  own-remove_other k m i [] h = refl
  own-remove_other k m i (x ∷ q) h = ground (arith, own-remove_other k m i q h)

  pub own-insert_after :
      (m i : ℕ) (x : Notification V) (q : List (Notification V))
      → x.mon ≡ m
      → own m (insert_after m i x q) ≡ insert_number i x.number (own m q)
  unfolding own insert_after insert_number
  own-insert_after m i x [] h = refl
  own-insert_after m i x (y ∷ q) h = ground (arith, own-insert_after m i x q h)

  pub own-insert_after_other :
      (k m i : ℕ) (x : Notification V) (q : List (Notification V))
      → x.mon ≡ m
      → k ≢ m
      → own k (insert_after m i x q) ≡ own k q
  unfolding own insert_after
  own-insert_after_other k m i x [] h d = refl
  own-insert_after_other k m i x (y ∷ q) h d = ground (arith, own-insert_after_other k m i x q h d)

  pub own-mark :
      (f : DataValue V → DataValue V) (k m i : ℕ) (q : List (Notification V))
      → own k (mark f m i q) ≡ own k q
  unfolding own mark
  own-mark f k m i [] = refl
  own-mark f k m i (x ∷ q) = ground (arith, own-mark f k m i q)

  pub others_of-append :
      (m : ℕ) (q : List (Notification V)) (n : Notification V)
      → n.mon ≡ m
      → others_of m (q ++ n ∷ []) ≡ others_of m q
  unfolding others_of
  others_of-append m [] n h = ground arith
  others_of-append m (x ∷ q) n h = ground (arith, others_of-append m q n h)

  pub others_of-remove :
      (m i : ℕ) (q : List (Notification V)) → others_of m (remove m i q) ≡ others_of m q
  unfolding others_of remove
  others_of-remove m i [] = refl
  others_of-remove m i (x ∷ q) = ground (arith, others_of-remove m i q)

  pub others_of-insert_after :
      (m i : ℕ) (x : Notification V) (q : List (Notification V))
      → x.mon ≡ m
      → others_of m (insert_after m i x q) ≡ others_of m q
  unfolding others_of insert_after
  others_of-insert_after m i x [] h = refl
  others_of-insert_after m i x (y ∷ q) h = ground (arith, others_of-insert_after m i x q h)

  pub others_of-mark :
      (f : DataValue V → DataValue V) (m i : ℕ) (q : List (Notification V))
      → others_of m (mark f m i q) ≡ others_of m q
  unfolding others_of mark
  others_of-mark f m i [] = refl
  others_of-mark f m i (x ∷ q) = ground (arith, others_of-mark f m i q)

  pub count-append :
      (P : ℕ → Bool) (q : List (Notification V)) (n : Notification V)
      → count P (q ++ n ∷ []) ≡ count P q + (if P n.mon then 1 else 0)
  unfolding count
  count-append P [] n = omega arith
  count-append P (x ∷ q) n = omega (arith, count-append P q n)

  pub count-remove :
      (P : ℕ → Bool) (m i : ℕ) (q : List (Notification V))
      → has i (own m q) ≡ true
      → count P (remove m i q) + (if P m then 1 else 0) ≡ count P q
  unfolding count remove own has
  count-remove P m i [] h = cc
  count-remove P m i (x ∷ q) h = ground (arith, count-remove P m i q)

  pub count-insert_after :
      (P : ℕ → Bool) (m i : ℕ) (x : Notification V) (q : List (Notification V))
      → x.mon ≡ m
      → has i (own m q) ≡ true
      → count P (insert_after m i x q) ≡ count P q + (if P m then 1 else 0)
  unfolding count insert_after own has
  count-insert_after P m i x [] h e = cc
  count-insert_after P m i x (y ∷ q) h e = ground (arith, count-insert_after P m i x q h)

  pub count-mark :
      (P : ℕ → Bool) (f : DataValue V → DataValue V) (m i : ℕ) (q : List (Notification V))
      → count P (mark f m i q) ≡ count P q
  unfolding count mark
  count-mark P f m i [] = refl
  count-mark P f m i (x ∷ q) = ground (arith, count-mark P f m i q)

  pub count-true : (q : List (Notification V)) → count (λ _. true) q ≡ length q
  unfolding count
  count-true [] = refl
  count-true (x ∷ q) = omega (arith, count-true q)

  -- A notification of the item is found.
  pub find-own :
      (m i : ℕ) (q : List (Notification V))
      → has i (own m q) ≡ true
      → (x : Notification V) × (find m i q ≡ some x) × (x.mon ≡ m) × (x.number ≡ i)
  unfolding own has find
  find-own m i [] h = cc
  find-own m i (y ∷ q) h = elim (Bool-cases (y.mon == m)) [
    | inl e ↦ elim (Bool-cases (y.number == i)) [
      | inl f ↦ (y, ground arith, ground arith, ground arith)
      | inr f ↦ let r = find-own m i q (ground arith) in (r.0, ground (arith, r.1), r.2, r.3)
    ]
    | inr e ↦ let r = find-own m i q (ground arith) in (r.0, ground (arith, r.1), r.2, r.3)
  ]

  -- What is put behind a notification that is then removed takes its place.
  pub remove-insert_after :
      (m i : ℕ) (x : Notification V) (q : List (Notification V))
      → x.mon ≡ m
      → remove m i (insert_after m i x q) ≡ replace m i x q
  unfolding remove insert_after replace
  remove-insert_after m i x [] h = refl
  remove-insert_after m i x (y ∷ q) h = ground (arith, remove-insert_after m i x q h)

  pub place-replace :
      (m i : ℕ) (x : Notification V) (q : List (Notification V))
      → x.mon ≡ m
      → place m (replace m i x q) ≡ place m q
  unfolding place replace
  place-replace m i x [] h = refl
  place-replace m i x (y ∷ q) h = ground (arith, place-replace m i x q h)

  pub place-mark :
      (f : DataValue V → DataValue V) (k m i : ℕ) (q : List (Notification V))
      → place k (mark f m i q) ≡ place k q
  unfolding place mark
  place-mark f k m i [] = refl
  place-mark f k m i (x ∷ q) = ground (arith, place-mark f k m i q)

  pub place-append :
      (m : ℕ) (q : List (Notification V)) (n : Notification V)
      → n.mon ≡ m
      → place m (q ++ n ∷ []) ≡ place m q
  unfolding place
  place-append m [] n h = ground arith
  place-append m (x ∷ q) n h = ground (arith, place-append m q n h)

  -- The place is that of the oldest notification.
  pub place-remove :
      (m i f : ℕ) (r : List ℕ) (q : List (Notification V))
      → own m q ≡ f ∷ r
      → f ≢ i
      → place m (remove m i q) ≡ place m q
  unfolding place remove own
  place-remove m i f r [] h d = refl
  place-remove m i f r (x ∷ q) h d = ground (arith, place-remove m i f r q)
