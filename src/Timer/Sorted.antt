-- ===== src/Timer/Sorted.antt =====
-- The list of repeated callbacks stays sorted by time.
use opcua_tsn_lo_i.Base.{
  ℕ, All, ◌+◌, ◌-◌, ◌≤◌, ◌<◌, ◌≡◌, refl, inl, inr, Option, none, some, List, [], ◌∷◌, ◌++◌, arith,
  ltb, ◌==◌, Bool-cases, List-cases, append_assoc,
}
use opcua_tsn_lo_i.Timer.{
  Entry, Timer, int64_max, group, add_entry, relink, unlink, change_entry_interval, remove_entry,
  apply_change, apply_changes, process_changes,
}
use opcua_tsn_lo_i.Timer.Run.{
  due, not_due, reschedule, Cut, last_time, passed, stopped, reinsert, first_time, execute,
  execute_due, finish, process, Call,
}

-- Times rise along the list, from `lo` on.
abbrev pub Rises : ℕ → List Entry → Type 0
Rises lo [] = Unit {0}
Rises lo (tc ∷ rest) = (lo ≤ tc.next_time) × Rises tc.next_time rest

abbrev pub IsSorted : List Entry → Type 0
IsSorted = Rises 0

Rises-mono : (m n : ℕ) (xs : List Entry) → m ≤ n → Rises n xs → Rises m xs
Rises-mono m n [] h r = tt
Rises-mono m n (x ∷ xs) h r = (omega arith, r.1)

group_time :
    (tmp tc : Entry)
    → tmp.next_time < tc.next_time
    → (tmp.next_time ≤ (group tmp tc).next_time) × ((group tmp tc).next_time ≤ tc.next_time)
unfolding group
group_time tmp tc h = ground arith

pub add_entry-Rises :
    (lo : ℕ) (tc : Entry) (xs : List Entry)
    → lo ≤ tc.next_time
    → Rises lo xs
    → Rises lo (add_entry tc xs)
unfolding add_entry
add_entry-Rises lo tc [] h r = (h, tt)
add_entry-Rises lo tc (x ∷ xs) h r =
    ground (arith, group_time x tc, add_entry-Rises x.next_time (group x tc) xs)

abbrev RestRises : ℕ → Option (Entry × List Entry) → Type 0
RestRises lo none = Unit {0}
RestRises lo (some (tc, rest)) = Rises lo rest

relink-RestRises :
    (lo : ℕ) (x : Entry) (r : Option (Entry × List Entry))
    → lo ≤ x.next_time
    → RestRises x.next_time r
    → RestRises lo (relink x r)
unfolding relink
relink-RestRises lo x none h r = tt
relink-RestRises lo x (some (tc, rest)) h r = (h, r)

unlink-RestRises : (i lo : ℕ) (xs : List Entry) → Rises lo xs → RestRises lo (unlink i xs)
unfolding unlink
unlink-RestRises i lo [] r = tt
unlink-RestRises i lo (x ∷ xs) r = elim (Bool-cases (i == x.id)) [
  | inl hit ↦ rw hit (Rises-mono lo x.next_time xs r.0 r.1)
  | inr miss ↦ rw miss (relink-RestRises lo x _ r.0 (unlink-RestRises i x.next_time xs r.1))
]

change_entry_interval-IsSorted :
    (xs : List Entry) (i interval time : ℕ)
    → IsSorted xs
    → IsSorted (change_entry_interval xs i interval time)
unfolding change_entry_interval
change_entry_interval-IsSorted xs i interval time r = go (unlink i xs) (unlink-RestRises i 0 xs r)
  where
    go :
        (o : Option (Entry × List Entry))
        → RestRises 0 o
        → IsSorted (elim o [
          | none ↦ xs
          | some (tc, rest) ↦ add_entry (record tc { interval = interval; next_time = time }) rest
        ])
    go none h = r
    go (some (tc, rest)) h = add_entry-Rises 0 _ rest (omega arith) h

remove_entry-IsSorted : (xs : List Entry) (i : ℕ) → IsSorted xs → IsSorted (remove_entry xs i)
unfolding remove_entry
remove_entry-IsSorted xs i r = ground (arith, unlink-RestRises i 0 xs r)

apply_change-IsSorted :
    (xs : List Entry) (change : Entry) → IsSorted xs → IsSorted (apply_change xs change)
unfolding apply_change
apply_change-IsSorted xs change r = ground (
  arith,
  remove_entry-IsSorted xs change.id r,
  change_entry_interval-IsSorted xs change.id change.interval change.next_time r,
  add_entry-Rises 0 change xs,
)

pub apply_changes-IsSorted :
    (xs changes : List Entry) → IsSorted xs → IsSorted (apply_changes xs changes)
unfolding apply_changes
apply_changes-IsSorted xs [] r = r
apply_changes-IsSorted xs (c ∷ cs) r =
    apply_changes-IsSorted (apply_change xs c) cs (apply_change-IsSorted xs c r)

insert_sorted :
    (lo : ℕ) (tc : Entry) (xs : List Entry)
    → lo ≤ tc.next_time
    → Rises lo xs
    → Rises lo (passed tc.next_time xs ++ (tc ∷ stopped tc.next_time xs))
unfolding passed stopped
insert_sorted lo tc [] h r = (h, tt)
insert_sorted lo tc (x ∷ xs) h r = ground (arith, insert_sorted x.next_time tc xs)

le-last_time : (lo : ℕ) (xs ys : List Entry) → Rises lo (xs ++ ys) → lo ≤ last_time lo xs
unfolding last_time
le-last_time lo [] ys r = omega arith
le-last_time lo (x ∷ xs) ys r = omega (arith, le-last_time x.next_time xs ys r.1)

insert_at_last :
    (lo d : ℕ) (tc : Entry) (xs ys : List Entry)
    → d ≤ lo
    → lo ≤ tc.next_time
    → Rises lo (xs ++ ys)
    → last_time d xs ≡ tc.next_time
    → Rises lo (xs ++ (tc ∷ ys))
unfolding last_time
insert_at_last lo d tc [] ys hd h r e =
    let same : tc.next_time ≤ lo = omega arith in (h, Rises-mono tc.next_time lo ys same r)
insert_at_last lo d tc (x ∷ xs) ys hd h r e = (
  r.0,
  insert_at_last x.next_time x.next_time tc xs ys (omega arith)
      (omega (arith, le-last_time x.next_time xs ys r.1)) r.1 e,
)

insert_behind :
    (lo d : ℕ) (tc : Entry) (xs ys : List Entry)
    → lo ≤ tc.next_time
    → Rises lo (xs ++ ys)
    → last_time d xs < tc.next_time
    → Rises lo (xs ++ (passed tc.next_time ys ++ (tc ∷ stopped tc.next_time ys)))
unfolding last_time
insert_behind lo d tc [] ys h r e = insert_sorted lo tc ys h r
insert_behind lo d tc (x ∷ xs) ys h r e = (
  r.0,
  insert_behind x.next_time x.next_time tc xs ys (omega (arith, le-last_time x.next_time xs ys r.1))
      r.1 e,
)

abbrev all_of : Cut → List Entry
all_of c = c.front ++ c.back

reinsert-Rises :
    (now : ℕ) (tc : Entry) (c : Cut)
    → now ≤ tc.next_time
    → Rises now (all_of c)
    → Rises now (all_of (reinsert now tc c))
unfolding reinsert
reinsert-Rises now tc c h r = elim (Bool-cases (last_time (now - 1) c.front == tc.next_time)) [
  | inl same ↦
      rw same (insert_at_last now (now - 1) tc c.front c.back (omega arith) h r (ground arith))
  | inr other ↦ elim (Bool-cases (ltb (last_time (now - 1) c.front) tc.next_time)) [
    | inl later ↦
        rw (other, later)
          (rw (append_assoc, append_assoc)
            (insert_behind now (now - 1) tc c.front c.back h r (ground arith)))
    | inr earlier ↦ rw (other, earlier) (rw append_assoc (insert_sorted now tc (all_of c) h r))
  ]
]

reschedule_time : (now : ℕ) (tc : Entry) → now ≤ (reschedule now tc).next_time
unfolding reschedule
reschedule_time now tc = ground arith

not_due-Rises : (now lo : ℕ) (xs : List Entry) → Rises lo xs → Rises (now + 1) (not_due now xs)
unfolding not_due
not_due-Rises now lo [] r = tt
not_due-Rises now lo (x ∷ xs) r = ground (arith, not_due-Rises now x.next_time xs)

pub process_changes-IsSorted :
    (t : Timer) → IsSorted t.repeated_callbacks → IsSorted (process_changes t).repeated_callbacks
unfolding process_changes
process_changes-IsSorted t r = apply_changes-IsSorted t.repeated_callbacks t.changes r

abbrev pub Earliest : ℕ → List Entry → Type 0
Earliest time [] = time ≡ int64_max
Earliest time (tc ∷ rest) = (time ≡ tc.next_time) × All (λ e. time ≤ e.next_time) rest

Rises-All : (lo m : ℕ) (xs : List Entry) → m ≤ lo → Rises lo xs → All (λ e. m ≤ e.next_time) xs
Rises-All lo m [] h r = tt
Rises-All lo m (x ∷ xs) h r =
    let le : m ≤ x.next_time = omega arith in (le, Rises-All x.next_time m xs le r.1)

first_time-Earliest : (xs : List Entry) → IsSorted xs → Earliest (first_time xs) xs
unfolding first_time
first_time-Earliest [] r = refl
first_time-Earliest (x ∷ xs) r = (refl, Rises-All x.next_time x.next_time xs (omega arith) r.1)

pub not_due_none : (now : ℕ) (xs : List Entry) → due now xs ≡ [] → not_due now xs ≡ xs
unfolding due not_due
not_due_none now [] e = refl
not_due_none now (x ∷ xs) e = ground arith

module _ {S : Type 0} (dispatch : S → ℕ → ℕ → S × List Call) where
  execute-Rises :
      (now : ℕ) (xs : List Entry) (c : Cut) (t : Timer) (s : S)
      → Rises now (all_of c)
      → Rises now (all_of (execute dispatch now xs c t s).0)
  unfolding execute
  execute-Rises now [] c t s r = r
  execute-Rises now (x ∷ xs) c t s r =
      execute-Rises now xs (reinsert now (reschedule now x) c) _ _
        (reinsert-Rises now (reschedule now x) c (reschedule_time now x) r)

  execute_due-IsSorted :
      (now : ℕ) (t : Timer) (s : S)
      → IsSorted t.repeated_callbacks
      → IsSorted (all_of (execute_due dispatch now t s).0)
  unfolding execute_due
  execute_due-IsSorted now t s r = Rises-mono 0 now _ (omega arith) (
      execute-Rises now (due now t.repeated_callbacks)
        (record { front = []; back = not_due now t.repeated_callbacks }) t s
        (Rises-mono now (now + 1) _ (omega arith) (not_due-Rises now 0 _ r)))

  finish-Earliest :
      (e : Cut × Timer × S)
      → IsSorted (all_of e.0)
      → let r = finish dispatch e in
        IsSorted r.1.repeated_callbacks × Earliest r.0 r.1.repeated_callbacks
  unfolding finish
  finish-Earliest (c, t, s) r =
      let s' = process_changes-IsSorted (record t { repeated_callbacks = all_of c }) r in
      (s', first_time-Earliest _ s')

  -- If the list of repeated callbacks is sorted by time, it is sorted after `UA_Timer_process`,
  -- and the returned time is that of its first entry, which no entry precedes, or UA_INT64_MAX
  -- when the list is empty. The callbacks may have made any calls of the timer meanwhile.
  pub process-Earliest :
      (now : ℕ) (t : Timer) (s : S)
      → IsSorted t.repeated_callbacks
      → let r = process dispatch now t s in
        IsSorted r.1.repeated_callbacks × Earliest r.0 r.1.repeated_callbacks
  unfolding process
  process-Earliest now t s r =
      let r' = process_changes-IsSorted t r in
      elim (List-cases (due now (process_changes t).repeated_callbacks)) [
        | inl none_due ↦
            rw (none_due, process) (r', rw (not_due_none now _ none_due) (first_time-Earliest _ r'))
        | inr (x, xs, some_due) ↦
            rw (some_due, process) (finish-Earliest _ (execute_due-IsSorted now _ s r'))
      ]
