-- ===== src/Queue/SingleFlight.antt =====
-- Single flight: of the bodies that run, only the slot's holder has not been told to stop.
use assist.Queue.Defs.{Queue, Waiter, release_if_holder}
use assist.Queue.Acquire.{
  Request, Outcome, acquire_start, acquire_wake, acquire_abort, acquire_exit, take_slot, park,
  wait_turn, reentrant_holder, busy, turn_of, pop_left,
}
use assist.Queue.Tick.{on_tick}
use assist.Queue.Control.{pop_hold, promote, request_pause, is_empty, of_thread}
use assist.Queue.System.{
  System, Step, Reach, IsIdle, begin, start, wake, abort, exit, tick, drain, prefer, ask_pause,
  advance, here, next,
}
use assist.Base.{
  ℕ, ◌<◌, String, Bool, true, false, ◌≡◌, Option, none, some, inl, inr, leb, update, Bool-cases,
  Option-cases, arith, ◌∙◌, keep, default_to, ◌==◌,
}

-- A running handle that has not expired is the holder's; identities in use were given out; nothing
-- was acquired in the future.
pub record Safe (q : Queue) (running : ℕ → Bool) (now : ℕ) : Type 0 where
  pub only : (h : ℕ) → running h ≡ true → (q.handles h).expired ≡ false → q.holder ≡ some h
  pub made : (h : ℕ) → q.holder ≡ some h → h < q.next_handle
  pub ran : (h : ℕ) → running h ≡ true → h < q.next_handle

abbrev SafeAfter : Outcome × Queue → (ℕ → Bool) → ℕ → Type 0
SafeAfter o running now = Safe o.1 (begin o.0 running) now

take_slot-Safe :
    (r : Request) {q : Queue} {running : ℕ → Bool} (now : ℕ)
    → q.holder ≡ none
    → Safe q running now
    → SafeAfter (take_slot r now q) running now
unfolding take_slot
take_slot-Safe r {q} {running} now free v = elim (Bool-cases r.running_raises) [
  | inl e ↦ rw e (record {
    only = λ h p x. ground (arith, v.only h, v.ran h);
    made = λ h p. ground arith;
    ran = λ h p. ground (arith, v.ran h);
  })
  | inr e ↦ rw e (record {
    only = λ h p x. ground (arith, v.only h, v.ran h);
    made = λ h p. ground arith;
    ran = λ h p. ground (arith, v.ran h);
  })
]

park-Safe :
    (r : Request) {q : Queue} {running : ℕ → Bool} (now : ℕ)
    → Safe q running now
    → SafeAfter (park r now q) running now
unfolding park
park-Safe r now v = elim (Bool-cases r.user_priority) [
  | inl e ↦ simp e (record { only = v.only; made = v.made; ran = v.ran })
  | inr e ↦ simp e (record { only = v.only; made = v.made; ran = v.ran })
]

wait_turn-Safe :
    (r : Request) {q : Queue} {running : ℕ → Bool} (now : ℕ)
    → Safe q running now
    → SafeAfter (wait_turn r now q) running now
unfolding wait_turn
wait_turn-Safe r {q} now v =
    elim (Bool-cases (default_to q.default_wait_timeout r.wait_timeout == 0)) [
      | inl over ↦ rw over v
      | inr waits ↦ rw waits (park-Safe r now v)
    ]

free_of_not-busy : (q : Queue) → busy q ≡ false → q.holder ≡ none
unfolding busy
free_of_not-busy q h = ground arith

acquire_start-Safe :
    (r : Request) (ctx : Option ℕ) {q : Queue} {running : ℕ → Bool} (now : ℕ)
    → Safe q running now
    → SafeAfter (acquire_start r ctx now q) running now
unfolding acquire_start
acquire_start-Safe r ctx {q} now v = elim (Option-cases (reentrant_holder r.thread_id ctx q)) [
  | inr (h, e) ↦ rw (e, acquire_start) v
  | inl e ↦
      rw (e, acquire_start)
        (elim (Bool-cases (busy q)) [
          | inr free ↦ rw free (take_slot-Safe r now (free_of_not-busy q free) v)
          | inl taken ↦ rw taken (elim (Bool-cases r.queued_raises) [
            | inl raised ↦ simp raised v
            | inr told ↦ simp told (wait_turn-Safe r now v)
          ])
        ])
]

free_of_turn : (q : Queue) (i : ℕ) {w : Waiter} → turn_of i q ≡ some w → q.holder ≡ none
unfolding turn_of
free_of_turn q i h = ground arith

pop_left-Safe :
    (w : Waiter) {q : Queue} {running : ℕ → Bool} (now : ℕ)
    → Safe q running now
    → Safe (pop_left w q) running now
pop_left-Safe w now v = elim (Bool-cases w.user_priority) [
  | inl e ↦ rw e (record { only = v.only; made = v.made; ran = v.ran })
  | inr e ↦ rw e (record { only = v.only; made = v.made; ran = v.ran })
]

pop_left-holder : (w : Waiter) (q : Queue) → (pop_left w q).holder ≡ q.holder
pop_left-holder w q = ground arith

acquire_abort-Safe :
    (i : ℕ) {q : Queue} {running : ℕ → Bool} (now : ℕ)
    → Safe q running now
    → Safe (acquire_abort i q) running now
unfolding acquire_abort
acquire_abort-Safe i now v = record { only = v.only; made = v.made; ran = v.ran }

acquire_wake-Safe :
    (r : Request) (i deadline : ℕ) {q : Queue} {running : ℕ → Bool} (now : ℕ)
    → Safe q running now
    → SafeAfter (acquire_wake r i deadline now q) running now
unfolding acquire_wake
acquire_wake-Safe r i deadline {q} now v = elim (Option-cases (turn_of i q)) [
  | inr (w, e) ↦
      rw (e, acquire_wake)
        (take_slot-Safe r now (pop_left-holder w q ∙ free_of_turn q i e) (pop_left-Safe w now v))
  | inl e ↦
      rw (e, acquire_wake)
        (elim (Bool-cases (leb deadline now)) [
          | inl late ↦ rw late (acquire_abort-Safe i now v)
          | inr early ↦ rw early v
        ])
]

acquire_exit-Safe :
    (tid : String) (h : ℕ) {q : Queue} {running : ℕ → Bool} (now : ℕ)
    → Safe q running now
    → Safe (acquire_exit tid h now q) (update running h false) now
unfolding acquire_exit release_if_holder
acquire_exit-Safe tid h now v = record {
  only = λ k p x. ground (arith, v.only k);
  made = λ k p. ground (arith, v.made k);
  ran = λ k p. ground (arith, v.ran k);
}

on_tick-Safe :
    (h : ℕ) {q : Queue} {running : ℕ → Bool} (now : ℕ)
    → Safe q running now
    → Safe (on_tick h now q) running now
unfolding on_tick release_if_holder
on_tick-Safe h now v = record {
  only = λ k p x. ground (arith, v.only k);
  made = λ k p. ground (arith, v.made k);
  ran = λ k p. ground (arith, v.ran k);
}

request_pause-Safe :
    (tid : String) {q : Queue} {running : ℕ → Bool} (now : ℕ)
    → Safe q running now
    → Safe (request_pause tid q).1 running now
unfolding request_pause
request_pause-Safe tid now v = record {
  only = λ k p x. ground (arith, v.only k);
  made = λ k p. ground (arith, v.made k);
  ran = λ k p. ground (arith, v.ran k);
}

promote-Safe :
    (tid : String) {q : Queue} {running : ℕ → Bool} (now : ℕ)
    → Safe q running now
    → Safe (promote tid q) running now
unfolding promote
promote-Safe tid {q} now v =
    elim (Bool-cases (is_empty (keep (of_thread tid) q.background_waiters))) [
      | inl e ↦ rw e v
      | inr e ↦ rw e (record { only = v.only; made = v.made; ran = v.ran })
    ]

Step-Safe : {s t : System} → Step s t → Safe s.queue s.running s.now → Safe t.queue t.running t.now
unfolding pop_hold
Step-Safe (start r ctx) v = acquire_start-Safe r ctx _ v
Step-Safe (wake r i deadline) v = acquire_wake-Safe r i deadline _ v
Step-Safe (abort i) v = acquire_abort-Safe i _ v
Step-Safe (exit tid h p) v = acquire_exit-Safe tid h _ v
Step-Safe (tick h) v = on_tick-Safe h _ v
Step-Safe (drain tid) v = record { only = v.only; made = v.made; ran = v.ran }
Step-Safe (prefer tid) v = promote-Safe tid _ v
Step-Safe (ask_pause tid) v = request_pause-Safe tid _ v
Step-Safe (advance d) v = record { only = v.only; made = v.made; ran = v.ran }

Reach-Safe : {s t : System} → IsIdle s → Reach s t → Safe t.queue t.running t.now
Reach-Safe v here = record {
  only = λ h p x. ground (arith, v.1 h);
  made = λ h p. ground arith;
  ran = λ h p. ground (arith, v.1 h);
}
Reach-Safe v (next r st) = Step-Safe st (Reach-Safe v r)

-- From an idle system, whatever callers, waiters, ticks and pauses do and in whatever order: two
-- handles whose bodies run and that the tick has not expired are the same handle, and it holds the
-- slot.
pub single_flight :
    {s t : System}
    → IsIdle s
    → Reach s t
    → (h k : ℕ) → t.running h ≡ true
    → t.running k ≡ true
    → (t.queue.handles h).expired ≡ false
    → (t.queue.handles k).expired ≡ false
    → (h ≡ k) × (t.queue.holder ≡ some h)
single_flight {t} idle r h k rh rk eh ek =
    let v = Reach-Safe idle r in
    let p : t.queue.holder ≡ some h = v.only h rh eh in
    let p' : t.queue.holder ≡ some k = v.only k rk ek in (cc, p)
