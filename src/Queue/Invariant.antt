-- ===== src/Queue/Invariant.antt =====
-- The queue stays well-formed whatever its callers do.
use assist.Queue.WellFormed.{
  WellFormed, acquire_start-WellFormed, acquire_wake-WellFormed, acquire_abort-WellFormed,
  acquire_exit-WellFormed, on_tick-WellFormed, pop_hold-WellFormed, request_pause-WellFormed,
  promote-WellFormed,
}
use assist.Queue.System.{
  System, Step, Reach, start, wake, abort, exit, tick, drain, prefer, ask_pause, advance, here,
  next,
}

Step-WellFormed : {s t : System} → Step s t → WellFormed s.queue → WellFormed t.queue
Step-WellFormed (start r ctx) v = acquire_start-WellFormed r ctx _ v
Step-WellFormed (wake r i deadline) v = acquire_wake-WellFormed r i deadline _ v
Step-WellFormed (abort i) v = acquire_abort-WellFormed i v
Step-WellFormed (exit tid h p) v = acquire_exit-WellFormed tid h _ v
Step-WellFormed (tick h) v = on_tick-WellFormed h _ v
Step-WellFormed (drain tid) v = pop_hold-WellFormed tid v
Step-WellFormed (prefer tid) v = promote-WellFormed tid v
Step-WellFormed (ask_pause tid) v = request_pause-WellFormed tid v
Step-WellFormed (advance d) v = v

-- Through any sequence of entries, wakes, failures, exits, ticks, pauses and promotions: handles and
-- waiters keep identities that were given out, each waiter stands once, and in the tier of its flag.
pub Reach-WellFormed : {s t : System} → WellFormed s.queue → Reach s t → WellFormed t.queue
Reach-WellFormed v here = v
Reach-WellFormed v (next r st) = Step-WellFormed st (Reach-WellFormed v r)
