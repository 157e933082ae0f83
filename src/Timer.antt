-- ===== src/Timer.antt =====
-- src/ua_timer.c: the repeated callbacks of the server's event loop.
-- A UA_DateTime is kept as its offset from UA_INT64_MIN, so that every order and distance is that
-- of the source's signed numbers; the sums of times are not wrapped (an overflow is undefined in C).
-- A list is the SLIST in its order. The change queue is the list of its entries, oldest first.
pub mod Run
pub mod Sorted
pub mod Dispatch
pub mod Registry
use opcua_tsn_lo_i.Base.{
  ℕ, ◌+◌, ◌-◌, ◌*◌, ◌%◌, ◌^◌, Bool, true, false, ◌&&◌, Option, none, some, List, [], ◌∷◌, ◌++◌, ltb,
  leb, ◌==◌, if◌then◌else◌,
}

abbrev pub datetime_msec : ℕ
datetime_msec = 10000

abbrev pub datetime_sec : ℕ
datetime_sec = 10000000

abbrev pub int64_max : ℕ
int64_max = 2 ^ 64 - 1

-- The callback pointer doubles as the tag of a change.
abbrev pub remove_sentinel : ℕ
remove_sentinel = 0

abbrev pub change_sentinel : ℕ
change_sentinel = 1

pub record Entry : Type 0 where
  pub next_time : ℕ
  pub interval : ℕ
  pub id : ℕ
  pub callback : ℕ
  pub payload : ℕ

pub record Timer : Type 0 where
  pub repeated_callbacks : List Entry
  pub changes : List Entry
  pub id_counter : ℕ

pub data Status : Type 0 where
  good bad_internal_error bad_out_of_memory : Status

pub init : Timer
init = record { repeated_callbacks = []; changes = []; id_counter = 0 }

pub enqueue_change : Timer → Entry → Timer
enqueue_change t tc = record t { changes = t.changes ++ (tc ∷ []) }

-- `alloc` says whether UA_malloc gives memory, `now` is the monotonic clock. The last part of the
-- result is what is written to `callbackId`.
pub add_repeated_callback : Bool → ℕ → Timer → ℕ → ℕ → ℕ → Timer × Status × Option ℕ
unfolding enqueue_change
add_repeated_callback alloc now t callback payload interval =
    if callback == 0
    then (t, bad_internal_error, none)
    else if ltb interval 5
    then (t, bad_internal_error, none)
    else if alloc
    then (let id = (t.id_counter + 1) % 2 ^ 64 in
        (
          enqueue_change (record t { id_counter = id })
              (record {
                next_time = now + interval * datetime_msec;
                interval = interval * datetime_msec;
                id = id;
                callback = callback;
                payload = payload;
              }),
          good,
          some id,
        ))
    else (t, bad_out_of_memory, none)

pub change_repeated_callback_interval : Bool → ℕ → Timer → ℕ → ℕ → Timer × Status
unfolding enqueue_change
change_repeated_callback_interval alloc now t callback_id interval =
    if ltb interval 5
    then (t, bad_internal_error)
    else if alloc
    then (
      enqueue_change t (record {
        next_time = now + interval * datetime_msec;
        interval = interval * datetime_msec;
        id = callback_id;
        callback = change_sentinel;
        payload = 0;
      }),
      good,
    )
    else (t, bad_out_of_memory)

-- The fields that the source leaves unset in a removal are 0 here; nothing reads them.
pub remove_repeated_callback : Bool → Timer → ℕ → Timer × Status
unfolding enqueue_change
remove_repeated_callback alloc t callback_id =
    if alloc
    then (
      enqueue_change t (record {
        next_time = 0;
        interval = 0;
        id = callback_id;
        callback = remove_sentinel;
        payload = 0;
      }),
      good,
    )
    else (t, bad_out_of_memory)

-- The new entry joins the block of an entry with its interval that is less than a second earlier.
-- The source's `a > b - SEC` is `b < a + SEC`.
pub group : Entry → Entry → Entry
group tmp tc =
    if (tmp.interval == tc.interval) && ltb tc.next_time (tmp.next_time + datetime_sec)
    then record tc { next_time = tmp.next_time }
    else tc

pub add_entry : Entry → List Entry → List Entry
add_entry tc [] = tc ∷ []
add_entry tc (tmp ∷ rest) = elim (leb tc.next_time tmp.next_time) [
  | true ↦ tc ∷ tmp ∷ rest
  | false ↦ tmp ∷ add_entry (group tmp tc) rest
]

-- What SLIST_REMOVE_AFTER leaves of a list whose later part has lost an entry.
relink : Entry → Option (Entry × List Entry) → Option (Entry × List Entry)
relink prev none = none
relink prev (some (tc, rest)) = some (tc, prev ∷ rest)

-- The first entry with the identifier, and the list without it: the search that both
-- `changeTimerCallbackEntryInterval` and `removeRepeatedCallback` make.
pub unlink : ℕ → List Entry → Option (Entry × List Entry)
unfolding relink
unlink callback_id [] = none
unlink callback_id (tc ∷ rest) =
    if callback_id == tc.id then some (tc, rest) else relink tc (unlink callback_id rest)

pub change_entry_interval : List Entry → ℕ → ℕ → ℕ → List Entry
change_entry_interval entries callback_id interval next_time = elim (unlink callback_id entries) [
  | none ↦ entries
  | some (tc, rest) ↦ add_entry (record tc { interval = interval; next_time = next_time }) rest
]

pub remove_entry : List Entry → ℕ → List Entry
remove_entry entries callback_id = elim (unlink callback_id entries) [
  | none ↦ entries
  | some (tc, rest) ↦ rest
]

-- One round of `processChanges`: the switch on the callback pointer.
pub apply_change : List Entry → Entry → List Entry
apply_change entries change =
    if change.callback == remove_sentinel
    then remove_entry entries change.id
    else if change.callback == change_sentinel
    then change_entry_interval entries change.id change.interval change.next_time
    else add_entry change entries

pub apply_changes : List Entry → List Entry → List Entry
apply_changes entries [] = entries
apply_changes entries (change ∷ rest) = apply_changes (apply_change entries change) rest

pub process_changes : Timer → Timer
unfolding apply_changes
process_changes t = record t {
  repeated_callbacks = apply_changes t.repeated_callbacks t.changes;
  changes = [];
}

pub delete_members : Timer → Timer
delete_members t = record (process_changes t) { repeated_callbacks = [] }
