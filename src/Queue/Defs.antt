-- ===== src/Queue/Defs.antt =====
-- The state of `ThreadAffinityQueue`, and the methods that the others call under the lock.
-- A handle and a waiter are objects that the code compares by `is`: a handle's identity is its
-- index in `handles`, a waiter's is its `id`. Times and durations are whole milliseconds; an
-- instant is a reading of the wall clock, which is taken not to go back.
use assist.Base.Dict.{Dict}
use assist.Base.{
  ℕ, ◌+◌, ◌-◌, String, Bool, true, false, Option, none, some, List, [], ◌∷◌, min, ◌==◌,
  if◌then◌else◌,
}

-- _Handle; `timer` is the instant at which the armed tick is due.
pub record Handle : Type 0 where
  pub thread_id : String
  pub expired : Bool
  pub acquired_at : ℕ
  pub pause_requested : Bool
  pub accumulated_active_ms : ℕ
  pub quantum_ms : ℕ
  pub hold_timeout_ms : ℕ
  pub timer : Option ℕ

-- _Waiter
pub record Waiter : Type 0 where
  pub id : ℕ
  pub thread_id : String
  pub user_priority : Bool

-- ThreadAffinityQueue; the two counters give the next identities.
pub record Queue : Type 0 where
  pub holder : Option ℕ
  pub handles : ℕ → Handle
  pub next_handle : ℕ
  pub user_waiters : List Waiter
  pub background_waiters : List Waiter
  pub next_id : ℕ
  pub default_hold_timeout : ℕ
  pub default_wait_timeout : ℕ
  pub default_quantum : ℕ
  pub active_hold_ms : Dict ℕ

abbrev pub first_of_tiers : List Waiter → List Waiter → Option Waiter
first_of_tiers (w ∷ ws) bs = some w
first_of_tiers [] (w ∷ bs) = some w
first_of_tiers [] [] = none

-- _next_waiter
unfoldable pub next_waiter : Queue → Option Waiter
next_waiter q = first_of_tiers q.user_waiters q.background_waiters

-- The test `self._holder is handle`.
abbrev pub holds : Queue → ℕ → Bool
holds q h = elim q.holder [ none ↦ false | some k ↦ k == h ]

-- _release_if_holder: the state after it, and whether this call released the slot.
unfoldable pub release_if_holder : ℕ → Queue → Queue × Bool
release_if_holder h q = if holds q h then (record q { holder = none }, true) else (q, false)

-- _next_tick_delay: `max(0.0, min(quantum_s, remaining_to_cap))`
unfoldable pub next_tick_delay : Handle → ℕ → ℕ
next_tick_delay a now =
    min a.quantum_ms ((a.hold_timeout_ms + a.acquired_at) - (a.accumulated_active_ms + now))
