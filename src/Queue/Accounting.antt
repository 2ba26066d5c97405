-- ===== src/Queue/Accounting.antt =====
-- The active hold that a paused turn carries to its resume.
use assist.Base.Dict
use assist.Base.Dict.{same_self}
use assist.Queue.Defs.{Queue, release_if_holder}
use assist.Queue.Acquire.{Request, take_slot, acquire_exit, new_handle}
use assist.Queue.Tick.{cap_reached}
use assist.Queue.Control.{pop_hold}
use assist.Base.{ℕ, ◌+◌, ◌-◌, ◌≤◌, String, false, ◌≡◌, none, some, leb, default_to, arith}

-- The holder's exit frees the slot and stops its tick, and `pop_hold` then returns the active time
-- of all its slices, once: a second call returns 0.
pub exit_then_pop :
    (tid : String) (h now : ℕ) (q : Queue)
    → q.holder ≡ some h
    → let q' = acquire_exit tid h now q in
      let (held, drained) = pop_hold tid q' in
      (q'.holder ≡ none)
      × ((q'.handles h).timer ≡ none)
      × (held ≡ (q.handles h).accumulated_active_ms + (now - (q.handles h).acquired_at))
      × ((pop_hold tid drained).0 ≡ 0)
unfolding acquire_exit release_if_holder pop_hold
exit_then_pop tid h now q e = (
  ground arith,
  ground arith,
  ground (
    arith,
    Dict.get-put tid tid ((q.handles h).accumulated_active_ms + (now - (q.handles h).acquired_at))
        q.active_hold_ms,
    same_self tid,
  ),
  ground (arith, Dict.get-remove tid tid (acquire_exit tid h now q).active_hold_ms, same_self tid),
)

acquire_exit-defaults :
    (tid : String) (h now : ℕ) (q : Queue)
    → ((acquire_exit tid h now q).next_handle ≡ q.next_handle)
      × ((acquire_exit tid h now q).default_hold_timeout ≡ q.default_hold_timeout)
unfolding acquire_exit release_if_holder
acquire_exit-defaults tid h now q = (ground arith, ground arith)

-- A pause cannot dodge the cap. A turn leaves the slot at `now` and is resumed with what `pop_hold`
-- returned: its new handle reaches the cap once its active time before the pause and after the
-- resume adds up to it, however long it was queued in between.
pub resume_keeps_budget :
    (r : Request) (h now later t : ℕ) (q : Queue)
    → q.holder ≡ some h
    → r.running_raises ≡ false
    → r.accumulated ≡ (pop_hold r.thread_id (acquire_exit r.thread_id h now q)).0
    → later ≤ t
    → cap_reached ((take_slot r later (acquire_exit r.thread_id h now q)).1.handles q.next_handle) t
      ≡ leb
          (default_to q.default_hold_timeout r.hold_timeout)
          ((q.handles h).accumulated_active_ms + (now - (q.handles h).acquired_at) + (t - later))
unfolding take_slot new_handle
resume_keeps_budget r h now later t q e told carried after =
    let carries = exit_then_pop r.thread_id h now q e in
    let (fresh, cap) = acquire_exit-defaults r.thread_id h now q in
    ground (arith, told, carried, carries.2, fresh, cap)
