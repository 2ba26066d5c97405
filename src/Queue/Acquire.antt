-- ===== src/Queue/Acquire.antt =====
-- `acquire`, cut where it lets the lock go: the entry, a waiter's wake, its failure, and the exit.
use assist.Base.Dict
use assist.Queue.Defs.{
  Handle, Waiter, Queue, next_waiter, holds, release_if_holder, next_tick_delay,
}
use assist.Base.{
  ℕ, ◌+◌, ◌-◌, String, Bool, false, ◌||◌, ◌&&◌, not, Option, none, some, List, [], ◌∷◌, ◌++◌, ◌==◌,
  leb, if◌then◌else◌, keep, same, update, is_some, default_to,
}

-- The arguments of `acquire`. The two Booleans say whether `on_state_change` raises on "queued"
-- and on "running".
pub record Request : Type 0 where
  pub thread_id : String
  pub queued_raises : Bool
  pub running_raises : Bool
  pub wait_timeout : Option ℕ
  pub hold_timeout : Option ℕ
  pub quantum : Option ℕ
  pub accumulated : ℕ
  pub user_priority : Bool

-- What a caller sees when the lock is let go.
pub data Outcome : Type 0 where
  -- the slot is taken: the body runs with this new handle
  entered : ℕ → Outcome
  -- the body runs with the holder's handle, which stays the holder's
  reentrant : ℕ → Outcome
  -- waits under this identity, until this instant at the latest
  parked : ℕ → ℕ → Outcome
  wait_timeout : Outcome
  callback_raised : Outcome

-- `_active_handle.get() is self._holder`, and the holder's thread is the caller's
unfoldable pub reentrant_holder : String → Option ℕ → Queue → Option ℕ
reentrant_holder tid ctx q = elim q.holder [
  | none ↦ none
  | some h ↦ elim ctx [
    | none ↦ none
    | some c ↦ if same (q.handles h).thread_id tid && c == h then some h else none
  ]
]

unfoldable pub busy : Queue → Bool
unfolding next_waiter
busy q = is_some q.holder || is_some (next_waiter q)

-- _Handle.__init__
unfoldable pub new_handle : Request → ℕ → Queue → Handle
new_handle r now q = record {
  thread_id = r.thread_id;
  expired = false;
  acquired_at = now;
  pause_requested = false;
  accumulated_active_ms = r.accumulated;
  quantum_ms = default_to q.default_quantum r.quantum;
  hold_timeout_ms = default_to q.default_hold_timeout r.hold_timeout;
  timer = none;
}

-- From `handle = _Handle(...)` to `tick.start()`. A raise of `cb("running")` leaves the new handle
-- in the slot, with no tick.
unfoldable pub take_slot : Request → ℕ → Queue → Outcome × Queue
take_slot r now q =
    let a = new_handle r now q in
    let h = q.next_handle in
    let ticking = record a { timer = some (now + next_tick_delay a now) } in
    if r.running_raises
    then (
      callback_raised,
      record q { holder = some h; handles = update q.handles h a; next_handle = h + 1 },
    )
    else (
      entered h,
      record q { holder = some h; handles = update q.handles h ticking; next_handle = h + 1 },
    )

-- The waiter joins the back of its tier.
unfoldable pub park : Request → ℕ → Queue → Outcome × Queue
park r now q =
    let w : Waiter = record {
      id = q.next_id;
      thread_id = r.thread_id;
      user_priority = r.user_priority;
    } in
    let answer = parked q.next_id (now + default_to q.default_wait_timeout r.wait_timeout) in
    if r.user_priority
    then (answer, record q { user_waiters = q.user_waiters ++ w ∷ []; next_id = q.next_id + 1 })
    else (
      answer,
      record q { background_waiters = q.background_waiters ++ w ∷ []; next_id = q.next_id + 1 },
    )

-- A waiter whose timeout is over at once leaves again before the lock is let go.
unfoldable pub wait_turn : Request → ℕ → Queue → Outcome × Queue
unfolding park
wait_turn r now q =
    if default_to q.default_wait_timeout r.wait_timeout == 0
    then (wait_timeout, q)
    else park r now q

-- The entry of `acquire`, for a caller whose context has the active handle `ctx`.
unfoldable pub acquire_start : Request → Option ℕ → ℕ → Queue → Outcome × Queue
acquire_start r ctx now q = elim (reentrant_holder r.thread_id ctx q) [
  | some h ↦ (reentrant h, q)
  | none ↦
      if busy q
      then if r.queued_raises then (callback_raised, q) else wait_turn r now q
      else take_slot r now q
]

abbrev pub tail : List Waiter → List Waiter
tail [] = []
tail (w ∷ ws) = ws

-- `queue_for_waiter.popleft()`
abbrev pub pop_left : Waiter → Queue → Queue
pop_left w q =
    if w.user_priority
    then record q { user_waiters = tail q.user_waiters }
    else record q { background_waiters = tail q.background_waiters }

-- `waiters.remove(waiter)`, for an object that stands in the list at most once
unfoldable pub without : ℕ → List Waiter → List Waiter
without i ws = keep (λ w. not (w.id == i)) ws

-- The handler of `except BaseException`: the waiter leaves both tiers.
unfoldable pub acquire_abort : ℕ → Queue → Queue
acquire_abort i q = record q {
  user_waiters = without i q.user_waiters;
  background_waiters = without i q.background_waiters;
}

-- The waiter whose turn it is: the slot is free, and it is the next one.
unfoldable pub turn_of : ℕ → Queue → Option Waiter
unfolding next_waiter
turn_of i q = elim q.holder [
  | some _ ↦ none
  | none ↦ elim (next_waiter q) [ none ↦ none | some w ↦ if w.id == i then some w else none ]
]

-- One round of the `while` of a parked waiter: it takes the slot, gives up, or waits on.
unfoldable pub acquire_wake : Request → ℕ → ℕ → ℕ → Queue → Outcome × Queue
acquire_wake r i deadline now q = elim (turn_of i q) [
  | some w ↦ take_slot r now (pop_left w q)
  | none ↦ if leb deadline now then (wait_timeout, acquire_abort i q) else (parked i deadline, q)
]

-- The `finally` of `acquire`, by the thread that entered with the handle `h`.
unfoldable pub acquire_exit : String → ℕ → ℕ → Queue → Queue
acquire_exit tid h now q =
    let a = record (q.handles h) { timer = none } in
    let stopped = record q { handles = update q.handles h a } in
    let spent = a.accumulated_active_ms + (now - a.acquired_at) in
    if holds q h
    then (release_if_holder h
        (record stopped { active_hold_ms = Dict.put tid spent q.active_hold_ms })).0
    else (release_if_holder h stopped).0
