-- ===== src/Queue/Tick.antt =====
-- `_on_tick`, the timer's callback.
use assist.Queue.Defs.{Handle, Queue, next_waiter, holds, release_if_holder, next_tick_delay}
use assist.Base.{ℕ, ◌+◌, Bool, true, ◌&&◌, some, leb, if◌then◌else◌, update, is_some}

-- cumulative_s >= handle.hold_timeout_s
abbrev pub cap_reached : Handle → ℕ → Bool
cap_reached a now = leb (a.hold_timeout_ms + a.acquired_at) (a.accumulated_active_ms + now)

-- slice_s >= handle.quantum_s
abbrev pub quantum_over : Handle → ℕ → Bool
quantum_over a now = leb (a.quantum_ms + a.acquired_at) now

unfoldable pub on_tick : ℕ → ℕ → Queue → Queue
on_tick h now q =
    let a = q.handles h in
    let due = some (now + next_tick_delay a now) in
    let expired = record q { handles = update q.handles h (record a { expired = true }) } in
    if holds q h
    then if cap_reached a now
      then (release_if_holder h expired).0
      else if quantum_over a now && is_some (next_waiter q)
      then record q {
        handles = update q.handles h (record a { pause_requested = true; timer = due });
      }
      else record q { handles = update q.handles h (record a { timer = due }) }
    else q
