-- ===== src/Queue/Budget.antt =====
-- The cap on cumulative active hold and the fair-scheduling quantum.
use assist.Queue.Defs.{Handle, Queue, holds, release_if_holder, next_waiter, next_tick_delay}
use assist.Queue.Tick.{cap_reached, quantum_over, on_tick}
use assist.Base.{
  ℕ, zero, suc, ◌+◌, ◌-◌, ◌≤◌, ◌<◌, max, true, false, ◌&&◌, ◌≡◌, none, some, inl, inr,
  if◌then◌else◌, is_some, default_to, Bool-cases, arith, if_true, if_false, ap, ◌∙◌, sym, subst,
}

-- A tick leaves the queue alone unless its handle holds the slot. Past the cap it expires the
-- handle and frees the slot; otherwise the holder stays, and is asked to pause exactly when it was
-- asked before, or its quantum is over and somebody waits.
pub on_tick_lem :
    (h now : ℕ) (q : Queue)
    → q.holder ≡ some h
    → let a = q.handles h in
      let b = (on_tick h now q).handles h in
      ((on_tick h now q).holder ≡ (if cap_reached a now then none else some h))
      × (b.expired ≡ (if cap_reached a now then true else a.expired))
      × (b.pause_requested ≡ (
          if cap_reached a now
          then a.pause_requested
          else if quantum_over a now && is_some (next_waiter q)
          then true
          else a.pause_requested))
      × ((on_tick h now q).user_waiters ≡ q.user_waiters)
      × ((on_tick h now q).background_waiters ≡ q.background_waiters)
unfolding on_tick release_if_holder
on_tick_lem h now q e = (ground arith, ground arith, ground arith, ground arith, ground arith)

-- The callbacks of the timer in turn, each at the instant that the one before it armed, for as long
-- as the handle holds the slot: the instant and the queue at the end.
pub run_ticks : ℕ → ℕ → ℕ → Queue → ℕ × Queue
run_ticks zero h now q = (now, q)
run_ticks (suc fuel) h now q =
    let q' = on_tick h now q in
    let rest = run_ticks fuel h (default_to now (q'.handles h).timer) q' in
    if holds q' h then rest else (now, q')

-- The instant at which the cumulative active hold of a handle reaches its cap.
abbrev pub deadline : Handle → ℕ
deadline a = (a.hold_timeout_ms + a.acquired_at) - a.accumulated_active_ms

-- What a tick below the cap keeps, and when it comes back.
record Kept (h now : ℕ) (q r : Queue) : Type 0 where
  held : r.holder ≡ some h
  cap : deadline (r.handles h) ≡ deadline (q.handles h)
  quantum : (r.handles h).quantum_ms ≡ (q.handles h).quantum_ms
  later : (r.handles h).timer ≡ some (now + next_tick_delay (q.handles h) now)

on_tick-Kept :
    (h now : ℕ) (q : Queue)
    → q.holder ≡ some h
    → cap_reached (q.handles h) now ≡ false
    → Kept h now q (on_tick h now q)
unfolding on_tick release_if_holder
on_tick-Kept h now q e c = record {
  held = ground arith;
  cap = ground arith;
  quantum = ground arith;
  later = ground arith;
}

on_tick-expires :
    (h now : ℕ) (q : Queue)
    → q.holder ≡ some h
    → cap_reached (q.handles h) now ≡ true
    → ((on_tick h now q).holder ≡ none) × (((on_tick h now q).handles h).expired ≡ true)
unfolding on_tick release_if_holder
on_tick-expires h now q e c = (ground arith, ground arith)

holds-none : (q : Queue) (h : ℕ) → q.holder ≡ none → holds q h ≡ false
holds-none q h e = ground arith

holds-some : (q : Queue) (h : ℕ) → q.holder ≡ some h → holds q h ≡ true
holds-some q h e = ground arith

run_ticks_stop :
    (fuel h now : ℕ) (q : Queue)
    → (on_tick h now q).holder ≡ none
    → run_ticks (suc fuel) h now q ≡ (now, on_tick h now q)
unfolding run_ticks
run_ticks_stop fuel h now q e = if_false _ _ (holds-none (on_tick h now q) h e)

run_ticks_next :
    (fuel h now due : ℕ) (q : Queue)
    → (on_tick h now q).holder ≡ some h
    → ((on_tick h now q).handles h).timer ≡ some due
    → run_ticks (suc fuel) h now q ≡ run_ticks fuel h due (on_tick h now q)
unfolding run_ticks
run_ticks_next fuel h now due q e armed =
    if_true _ _ (holds-some (on_tick h now q) h e)
    ∙ ap (λ t. run_ticks fuel h (default_to now t) (on_tick h now q)) armed

-- How the ticks end for the handle `h` of `q`, from the instant `now` on.
abbrev pub EndsAtCap : ℕ → ℕ → Queue → ℕ × Queue → Type 0
EndsAtCap h now q end =
    (end.0 ≡ max now (deadline (q.handles h)))
    × (end.1.holder ≡ none)
    × ((end.1.handles h).expired ≡ true)

closer :
    (h now : ℕ) (q : Queue)
    → 0 < (q.handles h).quantum_ms
    → cap_reached (q.handles h) now ≡ false
    → let due = now + next_tick_delay (q.handles h) now in
      (now < due) × (due ≤ deadline (q.handles h))
unfolding next_tick_delay
closer h now q pos below = ground arith

-- A holder that never yields loses the slot, expired, at the very instant at which its cumulative
-- active hold reaches the cap (at once, if that has passed), for every positive quantum, and fuel
-- above the time that is left.
pub cap_is_enforced :
    (fuel h now : ℕ) (q : Queue)
    → q.holder ≡ some h
    → 0 < (q.handles h).quantum_ms
    → deadline (q.handles h) - now < fuel
    → EndsAtCap h now q (run_ticks fuel h now q)
cap_is_enforced zero h now q e pos enough = absurd (omega arith)
cap_is_enforced (suc fuel) h now q e pos enough =
    elim (Bool-cases (cap_reached (q.handles h) now)) [
      | inl over ↦
          let (freed, flagged) = on_tick-expires h now q e over in
          subst (EndsAtCap h now q) (sym (run_ticks_stop fuel h now q freed))
            (ground arith, freed, flagged)
      | inr below ↦
          let k = on_tick-Kept h now q e below in
          let due = now + next_tick_delay (q.handles h) now in
          let (ahead, within) = closer h now q pos below in
          let (end, freed, flagged) =
            cap_is_enforced fuel h due (on_tick h now q) k.held (omega (arith, k.quantum))
              (omega (arith, k.cap)) in
          subst (EndsAtCap h now q) (sym (run_ticks_next fuel h now due q k.held k.later))
            (end ∙ omega (arith, k.cap), freed, flagged)
    ]
