-- ===== src/Queue/Examples.antt =====
-- Runs of the queue on concrete callers, and the theorems about it at concrete inputs.
use assist.Queue.Defs.{Handle, Waiter, Queue, holds}
use assist.Queue.Acquire.{
  new_handle, Request, entered, parked, callback_raised, acquire_start, acquire_wake, acquire_exit,
  park, wait_turn, wait_timeout, take_slot, reentrant_holder, busy,
}
use assist.Queue.Control.{promote, peek_holder, of_thread}
use assist.Queue.WellFormed.{WellFormed, acquire_start-WellFormed, acquire_exit-WellFormed}
use assist.Queue.Invariant.{Reach-WellFormed}
use assist.Queue.System.{System, Reach, here, next, start, after, advance, tick}
use assist.Queue.SingleFlight.{single_flight}
use assist.Queue.Tick.{on_tick}
use assist.Queue.Revocation.{late_exit_harmless}
use assist.Queue.Order.{order, first_waiter_enters}
use assist.Queue.Promotion.{promote_stable, ids}
use assist.Queue.Budget.{cap_is_enforced, EndsAtCap, run_ticks}
use assist.Base.{
  ℕ, String, Bool, true, false, not, ◌≡◌, refl, none, some, List, [], ◌∷◌, ◌++◌, keep, arith,
  String-discrete, ◌≢◌,
}

abbrev nobody : Handle
nobody = record {
  thread_id = "";
  expired = false;
  acquired_at = 0;
  pause_requested = false;
  accumulated_active_ms = 0;
  quantum_ms = 0;
  hold_timeout_ms = 0;
  timer = none;
}

-- ThreadAffinityQueue(hold_timeout_s=7200, wait_timeout_s=14400, quantum_s=600)
abbrev fresh : Queue
fresh = record {
  holder = none;
  handles = λ _. nobody;
  next_handle = 0;
  user_waiters = [];
  background_waiters = [];
  next_id = 0;
  default_hold_timeout = 7200000;
  default_wait_timeout = 14400000;
  default_quantum = 600000;
  active_hold_ms = [];
}

fresh-WellFormed : WellFormed fresh
fresh-WellFormed = record {
  holder_made = λ h e. absurd (cc e);
  user_tier = tt;
  background_tier = tt;
  user_made = tt;
  background_made = tt;
  once = λ i. omega arith;
}

abbrev asks : String → Bool → Request
asks tid user = record {
  thread_id = tid;
  queued_raises = false;
  running_raises = false;
  wait_timeout = none;
  hold_timeout = none;
  quantum = none;
  accumulated = 0;
  user_priority = user;
}

-- "a" holds the slot; then it also has the waiters "b" and "c", in the background and the user tier.
abbrev one_holder : Queue
one_holder = (acquire_start (asks "a" false) none 1000 fresh).1

abbrev two_waiters : Queue
two_waiters =
    (acquire_start (asks "c" true) none 1002
      (acquire_start (asks "b" false) none 1001 one_holder).1).1

abbrev freed : Queue
freed = acquire_exit "a" 0 5000 two_waiters

user_before_background :
    (peek_holder two_waiters ≡ some "a") × (ids (order two_waiters) ≡ 1 ∷ 0 ∷ [])
unfolding acquire_start peek_holder take_slot park wait_turn reentrant_holder busy new_handle
    String-discrete
user_before_background = (refl, refl)

one_holder-WellFormed : WellFormed one_holder
one_holder-WellFormed = acquire_start-WellFormed (asks "a" false) none 1000 fresh-WellFormed

freed-WellFormed : WellFormed freed
freed-WellFormed = acquire_exit-WellFormed "a" 0 5000 (
    acquire_start-WellFormed (asks "c" true) none 1002
      (acquire_start-WellFormed (asks "b" false) none 1001 one_holder-WellFormed))

abbrev idle : System
idle = record { queue = fresh; running = λ _. false; now = 1000 }

abbrev busy_system : System
busy_system = after (acquire_start (asks "a" false) none 1000 fresh) idle

entry : Reach idle busy_system
entry = next here (start (asks "a" false) none)

single_flight_example : ◌≡◌ {A = ℕ} 0 0 × (busy_system.queue.holder ≡ some 0)
unfolding acquire_start take_slot reentrant_holder busy new_handle
single_flight_example = single_flight (refl, λ h. refl) entry 0 0 refl refl refl refl

Reach-WellFormed_example : WellFormed busy_system.queue
Reach-WellFormed_example = Reach-WellFormed fresh-WellFormed entry

abbrev waiter_c : Waiter
waiter_c = record { id = 1; thread_id = "c"; user_priority = true }

abbrev waiter_b : Waiter
waiter_b = record { id = 0; thread_id = "b"; user_priority = false }

first_waiter_enters_example :
    let o = acquire_wake (asks "c" true) 1 14401002 5001 freed in
    (o.0 ≡ entered 1) × (o.1.holder ≡ some 1) × (order o.1 ≡ waiter_b ∷ [])
unfolding acquire_start take_slot park wait_turn reentrant_holder busy new_handle acquire_exit
    String-discrete assist.Queue.Defs.release_if_holder
first_waiter_enters_example =
    first_waiter_enters (asks "c" true) 1 14401002 5001 freed waiter_c (waiter_b ∷ [])
      freed-WellFormed refl refl refl refl

promote_stable_example :
    let q' = promote "b" two_waiters in
    (q'.holder ≡ two_waiters.holder)
    × (keep (λ w. not (of_thread "b" w)) (order q')
        ≡ keep (λ w. not (of_thread "b" w)) (order two_waiters))
    × (ids (keep (of_thread "b") (order q')) ≡ ids (keep (of_thread "b") (order two_waiters)))
    × (keep (of_thread "b") q'.background_waiters ≡ [])
    × ((ws : List Waiter) × (q'.user_waiters ≡ two_waiters.user_waiters ++ ws))
promote_stable_example = promote_stable "b" two_waiters

-- The only thread runs on: after twelve ticks of ten minutes its cap ends the hold.
cap_is_enforced_example : EndsAtCap 0 1000 one_holder (run_ticks 7200001 0 1000 one_holder)
unfolding acquire_start take_slot reentrant_holder busy new_handle
cap_is_enforced_example = cap_is_enforced 7200001 0 1000 one_holder refl (omega arith) (omega arith)

abbrev failing : Request
failing = record (asks "a" false) { running_raises = true }

abbrev leaked : Queue
leaked = (acquire_start failing none 1000 fresh).1

-- The callback raised on "running": the slot is held with no tick armed, and the next caller waits.
leaked_slot :
    ((acquire_start failing none 1000 fresh).0 ≡ callback_raised)
    × (leaked.holder ≡ some 0)
    × ((leaked.handles 0).timer ≡ none)
    × ((acquire_start (asks "b" false) none 2000 leaked).0 ≡ parked 0 14402000)
unfolding acquire_start take_slot park wait_turn reentrant_holder busy new_handle String-discrete
leaked_slot = (refl, refl, refl, refl)

-- A caller that will not wait is told so at once, and leaves no trace.
abbrev hasty : Request
hasty = record (asks "b" true) { wait_timeout = some 0 }

hasty_refused : acquire_start hasty none 1001 one_holder ≡ (wait_timeout, one_holder)
unfolding acquire_start take_slot wait_turn reentrant_holder busy new_handle String-discrete
hasty_refused = refl

-- The tick ends the hold at the cap; the body of "a" still runs, and ends late.
abbrev capped : System
capped = record {
  queue = on_tick 0 7201000 one_holder;
  running = busy_system.running;
  now = 7201000;
}

capped-Reach : Reach idle capped
capped-Reach = next (next entry (advance 7200000)) (tick 0)

late_exit_harmless_example :
    let q' = acquire_exit "a" 0 7201000 capped.queue in
    (capped.queue.holder ≢ some 0)
    × ((q'.handles 0).timer ≡ none)
    × (q'.holder ≡ none)
    × (q'.user_waiters ≡ [])
    × (q'.background_waiters ≡ [])
    × (q'.active_hold_ms ≡ [])
    × (q'.handles 1 ≡ nobody)
unfolding acquire_start take_slot reentrant_holder busy new_handle on_tick
    assist.Queue.Defs.release_if_holder
late_exit_harmless_example =
    late_exit_harmless {s = idle} {t = capped} "a" 0 1 (refl, λ h. refl) capped-Reach refl
      (omega arith)
