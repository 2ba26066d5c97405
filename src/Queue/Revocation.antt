-- ===== src/Queue/Revocation.antt =====
-- A handle whose slot the tick took away.
use assist.Queue.Defs.{Queue, release_if_holder}
use assist.Queue.Acquire.{
  Request, acquire_start, acquire_wake, acquire_abort, acquire_exit, take_slot, park, wait_turn,
  reentrant_holder, busy, turn_of, pop_left, new_handle,
}
use assist.Queue.Tick.{on_tick}
use assist.Queue.Control.{pop_hold, promote, request_pause, is_empty, of_thread}
use assist.Queue.System.{
  System, Step, Reach, IsIdle, start, wake, abort, exit, tick, drain, prefer, ask_pause, advance,
  here, next,
}
use assist.Base.{
  ℕ, String, true, false, ◌≡◌, ◌≢◌, Option, none, some, inl, inr, leb, Bool-cases, Option-cases,
  arith, keep, default_to, ◌==◌,
}

-- The slot's holder hasn't expired.
abbrev Unexpired : Queue → Type 0
Unexpired q = (h : ℕ) → q.holder ≡ some h → (q.handles h).expired ≡ false

take_slot-Unexpired : (r : Request) (now : ℕ) (q : Queue) → Unexpired (take_slot r now q).1
unfolding take_slot new_handle
take_slot-Unexpired r now q = elim (Bool-cases r.running_raises) [
  | inl e ↦ rw e (λ h p. ground arith)
  | inr e ↦ rw e (λ h p. ground arith)
]

wait_turn-Unexpired :
    (r : Request) (now : ℕ) (q : Queue) → Unexpired q → Unexpired (wait_turn r now q).1
unfolding wait_turn park
wait_turn-Unexpired r now q v =
    elim (Bool-cases (default_to q.default_wait_timeout r.wait_timeout == 0)) [
      | inl over ↦ rw over v
      | inr waits ↦
          rw waits
            (elim (Bool-cases r.user_priority) [ inl user ↦ rw user v | inr other ↦ rw other v ])
    ]

acquire_start-Unexpired :
    (r : Request) (ctx : Option ℕ) (now : ℕ) (q : Queue)
    → Unexpired q
    → Unexpired (acquire_start r ctx now q).1
unfolding acquire_start
acquire_start-Unexpired r ctx now q v = elim (Option-cases (reentrant_holder r.thread_id ctx q)) [
  | inr (h, e) ↦ rw (e, acquire_start) v
  | inl e ↦
      rw (e, acquire_start)
        (elim (Bool-cases (busy q)) [
          | inr free ↦ rw free (take_slot-Unexpired r now q)
          | inl taken ↦ rw taken (elim (Bool-cases r.queued_raises) [
            | inl raised ↦ simp raised v
            | inr told ↦ simp told (wait_turn-Unexpired r now q v)
          ])
        ])
]

acquire_wake-Unexpired :
    (r : Request) (i deadline now : ℕ) (q : Queue)
    → Unexpired q
    → Unexpired (acquire_wake r i deadline now q).1
unfolding acquire_wake acquire_abort
acquire_wake-Unexpired r i deadline now q v = elim (Option-cases (turn_of i q)) [
  | inr (w, e) ↦ rw (e, acquire_wake) (take_slot-Unexpired r now (pop_left w q))
  | inl e ↦
      rw (e, acquire_wake)
        (elim (Bool-cases (leb deadline now)) [ inl late ↦ rw late v | inr early ↦ rw early v ])
]

on_tick-Unexpired : (h now : ℕ) (q : Queue) → Unexpired q → Unexpired (on_tick h now q)
unfolding on_tick release_if_holder
on_tick-Unexpired h now q v = λ k p. ground (arith, v k)

acquire_exit-Unexpired :
    (tid : String) (h now : ℕ) (q : Queue) → Unexpired q → Unexpired (acquire_exit tid h now q)
unfolding acquire_exit release_if_holder
acquire_exit-Unexpired tid h now q v = λ k p. ground (arith, v k)

request_pause-Unexpired :
    (tid : String) (q : Queue) → Unexpired q → Unexpired (request_pause tid q).1
unfolding request_pause
request_pause-Unexpired tid q v = λ k p. ground (arith, v k)

promote-Unexpired : (tid : String) (q : Queue) → Unexpired q → Unexpired (promote tid q)
unfolding promote
promote-Unexpired tid q v =
    elim (Bool-cases (is_empty (keep (of_thread tid) q.background_waiters))) [
      | inl e ↦ rw e v
      | inr e ↦ rw e v
    ]

Step-Unexpired : {s t : System} → Step s t → Unexpired s.queue → Unexpired t.queue
unfolding pop_hold acquire_abort
Step-Unexpired (start r ctx) v = acquire_start-Unexpired r ctx _ _ v
Step-Unexpired (wake r i deadline) v = acquire_wake-Unexpired r i deadline _ _ v
Step-Unexpired (abort i) v = v
Step-Unexpired (exit tid h p) v = acquire_exit-Unexpired tid h _ _ v
Step-Unexpired (tick h) v = on_tick-Unexpired h _ _ v
Step-Unexpired (drain tid) v = v
Step-Unexpired (prefer tid) v = promote-Unexpired tid _ v
Step-Unexpired (ask_pause tid) v = request_pause-Unexpired tid _ v
Step-Unexpired (advance d) v = v

Reach-Unexpired : {s t : System} → IsIdle s → Reach s t → Unexpired t.queue
Reach-Unexpired v here = λ h p. ground (arith, v.0, p)
Reach-Unexpired v (next r st) = Step-Unexpired st (Reach-Unexpired v r)

-- A turn that the tick expired has lost the slot for good. From an idle system, whatever callers,
-- waiters, ticks and pauses do and in whatever order, an expired handle doesn't hold the slot; and
-- the exit of its thread then stops the handle's own tick and leaves the holder, both tiers, the
-- holds on record and every other handle as they are.
pub late_exit_harmless :
    {s t : System} (tid : String) (h k : ℕ)
    → IsIdle s
    → Reach s t
    → (t.queue.handles h).expired ≡ true
    → k ≢ h
    → let q = t.queue in
      let q' = acquire_exit tid h t.now q in
      (q.holder ≢ some h)
      × ((q'.handles h).timer ≡ none)
      × (q'.holder ≡ q.holder)
      × (q'.user_waiters ≡ q.user_waiters)
      × (q'.background_waiters ≡ q.background_waiters)
      × (q'.active_hold_ms ≡ q.active_hold_ms)
      × (q'.handles k ≡ q.handles k)
unfolding acquire_exit release_if_holder
late_exit_harmless {t} tid h k idle r expired other =
    let lost : t.queue.holder ≢ some h = λ held. ground (arith, Reach-Unexpired idle r h held) in
    (lost, ground arith, ground arith, ground arith, ground arith, ground arith, ground arith)
