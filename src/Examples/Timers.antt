-- ===== src/Examples/Timers.antt =====
-- Examples for src/ua_timer.c.
use opcua_tsn_lo_i.Base.{ℕ, ◌+◌, ◌≡◌, refl, inl, inr, List, [], ◌∷◌, arith, true}
use opcua_tsn_lo_i.Timer.{Entry, Timer, apply_change, process_changes}
use opcua_tsn_lo_i.Timer.Run.{Call, adds, process}
use opcua_tsn_lo_i.Timer.Sorted.{IsSorted, Earliest, process-Earliest}
use opcua_tsn_lo_i.Timer.Dispatch.{ready, dispatch_all, process-dispatch_all}
use opcua_tsn_lo_i.Timer.Registry.{registered, changed, Unique, apply_change-changed}

abbrev entry : ℕ → ℕ → Entry
entry id time = record { next_time = time; interval = 70000; id = id; callback = 7; payload = id }

-- Two entries that are due at 100 and one that is not; a fourth one waits in the queue.
abbrev timer : Timer
timer = record {
  repeated_callbacks = entry 1 20 ∷ entry 2 90 ∷ entry 3 400 ∷ [];
  changes = entry 4 50 ∷ [];
  id_counter = 4;
}

-- The application counts its callbacks, and the first one adds another.
abbrev count : ℕ → ℕ → ℕ → ℕ × List Call
count s callback payload = (s + 1, adds true 100 9 payload 6 ∷ [])

timer-IsSorted : IsSorted timer.repeated_callbacks
timer-IsSorted = (omega arith, (omega arith, (omega arith, tt)))

process-dispatch_all_example :
    (process count 100 timer 0).2
    ≡ dispatch_all count 0 (ready 100 (process_changes timer).repeated_callbacks)
process-dispatch_all_example = process-dispatch_all count 100 timer 0 timer-IsSorted

process-Earliest_example :
    let r = process count 100 timer 0 in
    IsSorted r.1.repeated_callbacks × Earliest r.0 r.1.repeated_callbacks
process-Earliest_example = process-Earliest count 100 timer 0 timer-IsSorted

-- A change of the interval of entry 2, and what entry 2 is afterwards.
abbrev change : Entry
change = record { next_time = 300; interval = 80000; id = 2; callback = 1; payload = 0 }

timer-Unique : Unique timer.repeated_callbacks
unfolding registered
timer-Unique = (refl, (refl, (refl, tt)))

apply_change-changed_example :
    (registered (apply_change timer.repeated_callbacks change) 2
      ≡ changed (registered timer.repeated_callbacks) change 2)
    × Unique (apply_change timer.repeated_callbacks change)
apply_change-changed_example =
    apply_change-changed timer.repeated_callbacks change 2 timer-Unique (inr (inl refl))
