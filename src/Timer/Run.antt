-- ===== src/Timer/Run.antt =====
-- UA_Timer_process of src/ua_timer.c. The application's callback is a parameter: it turns the
-- application's state into the next one, and makes calls of the timer.
use opcua_tsn_lo_i.Base.{ℕ, ◌+◌, ◌-◌, Bool, List, [], ◌∷◌, ◌++◌, ltb, leb, ◌==◌, if◌then◌else◌}
use opcua_tsn_lo_i.Timer.{
  Entry, Timer, int64_max, add_repeated_callback, change_repeated_callback_interval,
  remove_repeated_callback, process_changes,
}

-- A call of the timer's interface, with what malloc and the clock answer it.
pub data Call : Type 0 where
  adds : Bool → ℕ → ℕ → ℕ → ℕ → Call
  changes : Bool → ℕ → ℕ → ℕ → Call
  removes : Bool → ℕ → Call

unfoldable pub run_call : Timer → Call → Timer
run_call t (adds alloc now callback payload interval) =
    (add_repeated_callback alloc now t callback payload interval).0
run_call t (changes alloc now callback_id interval) =
    (change_repeated_callback_interval alloc now t callback_id interval).0
run_call t (removes alloc callback_id) = (remove_repeated_callback alloc t callback_id).0

unfoldable pub run_calls : Timer → List Call → Timer
run_calls t [] = t
run_calls t (c ∷ cs) = run_calls (run_call t c) cs

-- The list at the first entry that is due after `now`.
unfoldable pub due : ℕ → List Entry → List Entry
due now [] = []
due now (tc ∷ rest) = if ltb now tc.next_time then [] else tc ∷ due now rest

unfoldable pub not_due : ℕ → List Entry → List Entry
not_due now [] = []
not_due now (tc ∷ rest) = if ltb now tc.next_time then tc ∷ rest else not_due now rest

unfoldable pub reschedule : ℕ → Entry → Entry
reschedule now tc =
    if ltb (tc.next_time + tc.interval) now
    then record tc { next_time = now + 1 }
    else record tc { next_time = tc.next_time + tc.interval }

-- The new list, cut behind `last_dispatched`: `front` ends with that entry, and is empty while
-- `last_dispatched` is `tmp_first`.
pub record Cut : Type 0 where
  pub front : List Entry
  pub back : List Entry

unfoldable pub last_time : ℕ → List Entry → ℕ
last_time d [] = d
last_time d (tc ∷ rest) = last_time tc.next_time rest

-- The linear search behind `prev_tc`: the entries it passes, and those it stops at.
unfoldable pub passed : ℕ → List Entry → List Entry
passed next_time [] = []
passed next_time (n ∷ rest) = if leb next_time n.next_time then [] else n ∷ passed next_time rest

unfoldable pub stopped : ℕ → List Entry → List Entry
stopped next_time [] = []
stopped next_time (n ∷ rest) =
    if leb next_time n.next_time then n ∷ rest else stopped next_time rest

unfoldable pub reinsert : ℕ → Entry → Cut → Cut
reinsert now tc c =
    let last = last_time (now - 1) c.front in
    if last == tc.next_time
    then record { front = c.front; back = tc ∷ c.back }
    else if ltb last tc.next_time
    then record {
      front = c.front ++ (passed tc.next_time c.back ++ (tc ∷ []));
      back = stopped tc.next_time c.back;
    }
    else record {
      front = passed tc.next_time (c.front ++ c.back) ++ (tc ∷ []);
      back = stopped tc.next_time (c.front ++ c.back);
    }

unfoldable pub first_time : List Entry → ℕ
first_time [] = int64_max
first_time (tc ∷ rest) = tc.next_time

module _ {S : Type 0} (dispatch : S → ℕ → ℕ → S × List Call) where
  -- The loop over `executedNowList`, with the application's state and the change queue.
  unfoldable pub execute : ℕ → List Entry → Cut → Timer → S → Cut × Timer × S
  execute now [] c t s = (c, t, s)
  execute now (tc ∷ rest) c t s =
      let (s', calls) = dispatch s tc.callback tc.payload in
      execute now rest (reinsert now (reschedule now tc) c) (run_calls t calls) s'

  -- Everything up to `executedNowList`, and the loop over that list.
  unfoldable pub execute_due : ℕ → Timer → S → Cut × Timer × S
  execute_due now t s =
      execute now (due now t.repeated_callbacks)
        (record { front = []; back = not_due now t.repeated_callbacks }) t s

  -- The rest of `UA_Timer_process`, behind that loop.
  unfoldable pub finish : Cut × Timer × S → ℕ × Timer × S
  finish (c, t, s) =
      let t' = process_changes (record t { repeated_callbacks = c.front ++ c.back }) in
      (first_time t'.repeated_callbacks, t', s)

  unfoldable pub process : ℕ → Timer → S → ℕ × Timer × S
  process now t s =
      let t' = process_changes t in
      elim (due now t'.repeated_callbacks) [
        | [] ↦ (first_time (not_due now t'.repeated_callbacks), t', s)
        | lastNow ∷ rest ↦ finish (execute_due now t' s)
      ]
