-- ===== src/Queue/System.antt =====
-- The queue with the threads that use it, interleaved in any order at the points where the lock is
-- let go. `running` marks the handles whose `with` body has begun and not ended; the context of a
-- caller holds no handle or one that is running.
use assist.Queue.Defs.{Queue}
use assist.Queue.Acquire.{
  Request, Outcome, entered, acquire_start, acquire_wake, acquire_abort, acquire_exit,
}
use assist.Queue.Tick.{on_tick}
use assist.Queue.Control.{pop_hold, promote, request_pause}
use assist.Base.{ℕ, ◌+◌, String, Bool, true, false, ◌≡◌, Option, none, update}

pub record System : Type 0 where
  pub queue : Queue
  pub running : ℕ → Bool
  pub now : ℕ

-- The callers that run after an operation with this outcome.
abbrev pub begin : Outcome → (ℕ → Bool) → ℕ → Bool
begin (entered h) running = update running h true
begin _ running = running

abbrev pub after : Outcome × Queue → System → System
after o s = record s { queue = o.1; running = begin o.0 s.running }

pub data Step (s : System) : System → Type 0 where
  start : (r : Request) (ctx : Option ℕ) → Step s (after (acquire_start r ctx s.now s.queue) s)
  wake : (r : Request) (i deadline : ℕ) → Step s (after (acquire_wake r i deadline s.now s.queue) s)
  abort : (i : ℕ) → Step s (record s { queue = acquire_abort i s.queue })
  exit :
      (tid : String) (h : ℕ)
      → s.running h ≡ true
      → Step s (record s {
        queue = acquire_exit tid h s.now s.queue;
        running = update s.running h false;
      })
  tick : (h : ℕ) → Step s (record s { queue = on_tick h s.now s.queue })
  drain : (tid : String) → Step s (record s { queue = (pop_hold tid s.queue).1 })
  prefer : (tid : String) → Step s (record s { queue = promote tid s.queue })
  ask_pause : (tid : String) → Step s (record s { queue = (request_pause tid s.queue).1 })
  advance : (d : ℕ) → Step s (record s { now = s.now + d })

abbrev pub IsIdle : System → Type 0
IsIdle s = (s.queue.holder ≡ none) × ((h : ℕ) → s.running h ≡ false)

pub data Reach (s : System) : System → Type 0 where
  here : Reach s s
  next : {t u : System} → Reach s t → Step t u → Reach s u
