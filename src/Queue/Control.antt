-- ===== src/Queue/Control.antt =====
-- The other methods of the queue, and the checkpoint of assist/middleware/thread_queue_middleware.py.
use assist.Base.Dict
use assist.Queue.Defs.{Handle, Waiter, Queue}
use assist.Base.{
  ℕ, ◌+◌, String, Bool, true, false, not, Option, none, some, List, [], ◌∷◌, ◌++◌, map,
  if◌then◌else◌, keep, same, update, length, default_to,
}

-- pop_hold
unfoldable pub pop_hold : String → Queue → ℕ × Queue
pop_hold tid q = (
  default_to 0 (Dict.get tid q.active_hold_ms),
  record q { active_hold_ms = Dict.remove tid q.active_hold_ms },
)

abbrev pub of_thread : String → Waiter → Bool
of_thread tid w = same w.thread_id tid

abbrev pub prefer : Waiter → Waiter
prefer w = record w { user_priority = true }

abbrev pub is_empty : List Waiter → Bool
is_empty [] = true
is_empty (w ∷ ws) = false

-- promote
unfoldable pub promote : String → Queue → Queue
promote tid q =
    let promoted = keep (of_thread tid) q.background_waiters in
    if is_empty promoted then q else record q {
      background_waiters = keep (λ w. not (of_thread tid w)) q.background_waiters;
      user_waiters = q.user_waiters ++ map prefer promoted;
    }

-- request_pause
unfoldable pub request_pause : String → Queue → Bool × Queue
request_pause tid q = elim q.holder [
  | none ↦ (false, q)
  | some h ↦
      if same (q.handles h).thread_id tid
      then (
        true,
        record q { handles = update q.handles h (record (q.handles h) { pause_requested = true }) },
      )
      else (false, q)
]

-- current_handle; peek_holder reads the same reference without the lock
unfoldable pub current_handle : Queue → Option ℕ
current_handle q = q.holder

unfoldable pub peek_holder : Queue → Option String
peek_holder q = elim q.holder [ none ↦ none | some h ↦ some (q.handles h).thread_id ]

unfoldable pub waiter_count : Queue → ℕ
waiter_count q = length q.user_waiters + length q.background_waiters

-- What `ThreadQueueMiddleware.after_model` does with the active handle of its context.
pub data Signal : Type 0 where
  go_on hold_expired pause : Signal

unfoldable pub after_model : Option Handle → Signal
after_model none = go_on
after_model (some a) =
    if a.expired then hold_expired else if a.pause_requested then pause else go_on
