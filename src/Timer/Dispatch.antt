-- ===== src/Timer/Dispatch.antt =====
-- Which callbacks UA_Timer_process runs, and what becomes of their entries.
use mathlib.Core.List.{Perm}
use mathlib.Core.List.Perm
use opcua_tsn_lo_i.Base.{
  ℕ, ◌+◌, ◌≤◌, ◌<◌, ◌≡◌, refl, sym, ap, ◌∙◌, inl, inr, true, false, List, [], ◌∷◌, ◌++◌, arith, leb,
  List-cases,
}
use opcua_tsn_lo_i.Timer.{Entry, Timer, apply_changes, process_changes}
use opcua_tsn_lo_i.Timer.Run.{due, Cut, execute, execute_due, finish, process, Call, run_calls}
use opcua_tsn_lo_i.Timer.Sorted.{Rises, IsSorted, process_changes-IsSorted}

-- All entries whose time has come, wherever they stand, and the others.
pub ready : ℕ → List Entry → List Entry
ready now [] = []
ready now (tc ∷ rest) = elim (leb tc.next_time now) [
  | true ↦ tc ∷ ready now rest
  | false ↦ ready now rest
]

pub waiting : ℕ → List Entry → List Entry
waiting now [] = []
waiting now (tc ∷ rest) = elim (leb tc.next_time now) [
  | true ↦ waiting now rest
  | false ↦ tc ∷ waiting now rest
]

ready_none : (now lo : ℕ) (xs : List Entry) → now < lo → Rises lo xs → ready now xs ≡ []
unfolding ready
ready_none now lo [] h r = refl
ready_none now lo (x ∷ xs) h r = ground (arith, ready_none now x.next_time xs)

due-ready : (now lo : ℕ) (xs : List Entry) → Rises lo xs → due now xs ≡ ready now xs
unfolding due ready
due-ready now lo [] r = refl
due-ready now lo (x ∷ xs) r =
    ground (arith, due-ready now x.next_time xs, ready_none now x.next_time xs)

abbrev all_of : Cut → List Entry
all_of c = c.front ++ c.back

-- The entry with the next time: its interval later, or right after now where that is past.
pub record IsRescheduled (now : ℕ) (x y : Entry) : Type 0 where
  pub id : y.id ≡ x.id
  pub callback : y.callback ≡ x.callback
  pub payload : y.payload ≡ x.payload
  pub interval : y.interval ≡ x.interval
  pub on_time : now ≤ x.next_time + x.interval → y.next_time ≡ x.next_time + x.interval
  pub delayed : x.next_time + x.interval < now → y.next_time ≡ now + 1

-- The two lists are of the same length, and the entries with the same position are related.
abbrev pub Paired : (Entry → Entry → Type 0) → List Entry → List Entry → Type 0
Paired R [] [] = Unit {0}
Paired R [] (y ∷ ys) = ⊥
Paired R (x ∷ xs) [] = ⊥
Paired R (x ∷ xs) (y ∷ ys) = R x y × Paired R xs ys

module _ {S : Type 0} (dispatch : S → ℕ → ℕ → S × List Call) where
  -- The application's state after the callbacks of the entries, in order.
  pub dispatch_all : S → List Entry → S
  dispatch_all s [] = s
  dispatch_all s (tc ∷ rest) = dispatch_all (dispatch s tc.callback tc.payload).0 rest

  execute-state :
      (now : ℕ) (xs : List Entry) (c : Cut) (t : Timer) (s : S)
      → (execute dispatch now xs c t s).2 ≡ dispatch_all s xs
  unfolding execute dispatch_all
  execute-state now [] c t s = refl
  execute-state now (x ∷ xs) c t s = execute-state now xs _ _ _

  finish-state : (e : Cut × Timer × S) → (finish dispatch e).2 ≡ e.2
  unfolding finish
  finish-state (c, t, s) = refl

  -- On a sorted list `UA_Timer_process` runs the callback of each entry whose time has come, once
  -- and in the order of the list, and no other callback.
  pub process-dispatch_all :
      (now : ℕ) (t : Timer) (s : S)
      → IsSorted t.repeated_callbacks
      → (process dispatch now t s).2
        ≡ dispatch_all s (ready now (process_changes t).repeated_callbacks)
  unfolding process
  process-dispatch_all now t s r =
      let same = due-ready now 0 _ (process_changes-IsSorted t r) in
      elim (List-cases (due now (process_changes t).repeated_callbacks)) [
        | inl none_due ↦
            rw (none_due, process) (rw (sym same) (rw none_due (unfold dispatch_all in refl)))
        | inr (x, xs, some_due) ↦
            rw (some_due, process)
              (finish-state _
                ∙ unfold execute_due in execute-state now _ _ _ s ∙ ap (dispatch_all s) same)
      ]

  -- All calls of the timer that the callbacks of the entries make, in order.
  pub all_calls : S → List Entry → List Call
  all_calls s [] = []
  all_calls s (tc ∷ rest) =
      let (s', calls) = dispatch s tc.callback tc.payload in calls ++ all_calls s' rest

  -- The entries of `t` with the ready ones rescheduled, and then the changes that the callbacks
  -- of the ready entries have queued.
  abbrev pub Rescheduled : ℕ → S → Timer → Timer → Type 0
  Rescheduled now s t u =
      (again : List Entry) × (merged : List Entry) × Paired (IsRescheduled now)
        (ready now t.repeated_callbacks) again
      × Perm merged (again ++ waiting now t.repeated_callbacks)
      × (u.repeated_callbacks
          ≡ apply_changes merged
              (run_calls t (all_calls s (ready now t.repeated_callbacks))).changes)
