-- ===== src/Queue/WellFormed.antt =====
-- The well-formedness of the queue, and that every operation keeps it.
use assist.Queue.Defs.{Waiter, Queue, release_if_holder}
use assist.Queue.Acquire.{
  Request, take_slot, park, wait_turn, acquire_start, acquire_wake, acquire_abort, acquire_exit,
  without, tail, pop_left, turn_of, reentrant_holder, busy,
}
use assist.Queue.Tick.{on_tick}
use assist.Queue.Control.{pop_hold, promote, request_pause, of_thread, prefer, is_empty}
use assist.Queue.Tiers.{
  occurrences, occurrences_fresh, occurrences-keep-le, occurrences-prefer, occurrences-split,
  occurrences-tail-le, All-tail, prefer-preferred, prefer-below, below_mono,
}
use assist.Base.{
  ℕ, ◌+◌, ◌≤◌, ◌<◌, String, true, false, not, ◌≡◌, refl, Option, some, List, [], ◌∷◌, ◌++◌, map,
  inl, inr, ◌==◌, keep, count_if-append, All, All-append, All-keep, Bool-cases, Option-cases, leb,
  arith, default_to,
}

-- Identities in use were given out, a waiter stands in the tier that its flag says, and no waiter
-- stands twice.
pub record WellFormed (q : Queue) : Type 0 where
  pub holder_made : (h : ℕ) → q.holder ≡ some h → h < q.next_handle
  pub user_tier : All (λ w. w.user_priority ≡ true) q.user_waiters
  pub background_tier : All (λ w. w.user_priority ≡ false) q.background_waiters
  pub user_made : All (λ w. w.id < q.next_id) q.user_waiters
  pub background_made : All (λ w. w.id < q.next_id) q.background_waiters
  pub once : (i : ℕ) → occurrences i q.user_waiters + occurrences i q.background_waiters ≤ 1

-- What an operation that leaves the tiers alone has to show.
same_tiers :
    {q r : Queue}
    → WellFormed q
    → r.user_waiters ≡ q.user_waiters
    → r.background_waiters ≡ q.background_waiters
    → r.next_id ≡ q.next_id
    → ((h : ℕ) → r.holder ≡ some h → h < r.next_handle)
    → WellFormed r
same_tiers {q} {r} v u b n made = record {
  holder_made = made;
  user_tier = rw u v.user_tier;
  background_tier = rw b v.background_tier;
  user_made = rw (u, n) v.user_made;
  background_made = rw (b, n) v.background_made;
  once = λ i. rw (u, b) (v.once i);
}

take_slot-WellFormed :
    (r : Request) (now : ℕ) {q : Queue} → WellFormed q → WellFormed (take_slot r now q).1
unfolding take_slot
take_slot-WellFormed r now {q} v = elim (Bool-cases r.running_raises) [
  | inl e ↦ rw e (same_tiers v refl refl refl (λ h p. ground arith))
  | inr e ↦ rw e (same_tiers v refl refl refl (λ h p. ground arith))
]

-- A new identity at the back of one tier occurs once over both.
arrival_once :
    (w : Waiter) (ws vs : List Waiter)
    → All (λ v. v.id < w.id) ws
    → All (λ v. v.id < w.id) vs
    → (i : ℕ) → occurrences i ws + occurrences i vs ≤ 1
    → occurrences i (ws ++ w ∷ []) + occurrences i vs ≤ 1
arrival_once w ws vs hw hv i h = ground (
  arith,
  count_if-append (λ v. v.id == i) ws (w ∷ []),
  occurrences_fresh w.id i ws hw,
  occurrences_fresh w.id i vs hv,
)

park-WellFormed : (r : Request) (now : ℕ) {q : Queue} → WellFormed q → WellFormed (park r now q).1
unfolding park
park-WellFormed r now {q} v = elim (Bool-cases r.user_priority) [
  | inl e ↦ rw e (record {
    holder_made = v.holder_made;
    user_tier = All-append _ q.user_waiters _ v.user_tier (refl, tt);
    background_tier = v.background_tier;
    user_made = All-append _ q.user_waiters _ (below_mono _ _ v.user_made) (omega arith, tt);
    background_made = below_mono _ _ v.background_made;
    once = λ i.
        arrival_once (record { id = q.next_id; thread_id = r.thread_id; user_priority = true })
          q.user_waiters q.background_waiters v.user_made v.background_made i (v.once i);
  })
  | inr e ↦ rw e (record {
    holder_made = v.holder_made;
    user_tier = v.user_tier;
    background_tier = All-append _ q.background_waiters _ v.background_tier (refl, tt);
    user_made = below_mono _ _ v.user_made;
    background_made =
        All-append _ q.background_waiters _ (below_mono _ _ v.background_made) (omega arith, tt);
    once = λ i. omega (
      arith,
      v.once i,
      arrival_once (record { id = q.next_id; thread_id = r.thread_id; user_priority = false })
          q.background_waiters q.user_waiters v.background_made v.user_made i
          (omega (arith, v.once i)),
    );
  })
]

tail_user :
    {q : Queue} → WellFormed q → WellFormed (record q { user_waiters = tail q.user_waiters })
tail_user {q} v = record {
  holder_made = v.holder_made;
  user_tier = All-tail _ q.user_waiters v.user_tier;
  background_tier = v.background_tier;
  user_made = All-tail _ q.user_waiters v.user_made;
  background_made = v.background_made;
  once = λ i. omega (arith, v.once i, occurrences-tail-le i q.user_waiters);
}

tail_background :
    {q : Queue}
    → WellFormed q
    → WellFormed (record q { background_waiters = tail q.background_waiters })
tail_background {q} v = record {
  holder_made = v.holder_made;
  user_tier = v.user_tier;
  background_tier = All-tail _ q.background_waiters v.background_tier;
  user_made = v.user_made;
  background_made = All-tail _ q.background_waiters v.background_made;
  once = λ i. omega (arith, v.once i, occurrences-tail-le i q.background_waiters);
}

pop_left-WellFormed : (w : Waiter) {q : Queue} → WellFormed q → WellFormed (pop_left w q)
pop_left-WellFormed w v = elim (Bool-cases w.user_priority) [
  | inl e ↦ rw e (tail_user v)
  | inr e ↦ rw e (tail_background v)
]

pub acquire_abort-WellFormed : (i : ℕ) {q : Queue} → WellFormed q → WellFormed (acquire_abort i q)
unfolding acquire_abort without
acquire_abort-WellFormed i {q} v = record {
  holder_made = v.holder_made;
  user_tier = All-keep _ _ q.user_waiters v.user_tier;
  background_tier = All-keep _ _ q.background_waiters v.background_tier;
  user_made = All-keep _ _ q.user_waiters v.user_made;
  background_made = All-keep _ _ q.background_waiters v.background_made;
  once = λ j. omega (
    arith,
    v.once j,
    occurrences-keep-le (λ w. not (w.id == i)) j q.user_waiters,
    occurrences-keep-le (λ w. not (w.id == i)) j q.background_waiters,
  );
}

wait_turn-WellFormed :
    (r : Request) (now : ℕ) {q : Queue} → WellFormed q → WellFormed (wait_turn r now q).1
unfolding wait_turn
wait_turn-WellFormed r now {q} v =
    elim (Bool-cases (default_to q.default_wait_timeout r.wait_timeout == 0)) [
      | inl over ↦ rw over v
      | inr waits ↦ rw waits (park-WellFormed r now v)
    ]

-- A new caller keeps the queue well-formed, whether it enters, re-enters, parks or fails.
pub acquire_start-WellFormed :
    (r : Request) (ctx : Option ℕ) (now : ℕ) {q : Queue}
    → WellFormed q
    → WellFormed (acquire_start r ctx now q).1
unfolding acquire_start
acquire_start-WellFormed r ctx now {q} v =
    elim (Option-cases (reentrant_holder r.thread_id ctx q)) [
      | inr (h, e) ↦ rw (e, acquire_start) v
      | inl e ↦
          rw (e, acquire_start)
            (elim (Bool-cases (busy q)) [
              | inr free ↦ rw free (take_slot-WellFormed r now v)
              | inl taken ↦ rw taken (elim (Bool-cases r.queued_raises) [
                | inl raised ↦ simp raised v
                | inr told ↦ simp told (wait_turn-WellFormed r now v)
              ])
            ])
    ]

-- So does a parked waiter's round, whether it takes the slot, times out or waits on.
pub acquire_wake-WellFormed :
    (r : Request) (i deadline now : ℕ) {q : Queue}
    → WellFormed q
    → WellFormed (acquire_wake r i deadline now q).1
unfolding acquire_wake
acquire_wake-WellFormed r i deadline now {q} v = elim (Option-cases (turn_of i q)) [
  | inr (w, e) ↦ rw (e, acquire_wake) (take_slot-WellFormed r now (pop_left-WellFormed w v))
  | inl e ↦
      rw (e, acquire_wake)
        (elim (Bool-cases (leb deadline now)) [
          | inl late ↦ rw late (acquire_abort-WellFormed i v)
          | inr early ↦ rw early v
        ])
]

pub acquire_exit-WellFormed :
    (tid : String) (h now : ℕ) {q : Queue} → WellFormed q → WellFormed (acquire_exit tid h now q)
unfolding acquire_exit release_if_holder
acquire_exit-WellFormed tid h now {q} v =
    same_tiers v (ground arith) (ground arith) (ground arith)
      (λ k p. ground (arith, v.holder_made k))

pub on_tick-WellFormed : (h now : ℕ) {q : Queue} → WellFormed q → WellFormed (on_tick h now q)
unfolding on_tick release_if_holder
on_tick-WellFormed h now {q} v =
    same_tiers v (ground arith) (ground arith) (ground arith)
      (λ k p. ground (arith, v.holder_made k))

pub pop_hold-WellFormed : (tid : String) {q : Queue} → WellFormed q → WellFormed (pop_hold tid q).1
unfolding pop_hold
pop_hold-WellFormed tid v = same_tiers v refl refl refl v.holder_made

pub request_pause-WellFormed :
    (tid : String) {q : Queue} → WellFormed q → WellFormed (request_pause tid q).1
unfolding request_pause
request_pause-WellFormed tid {q} v =
    same_tiers v (ground arith) (ground arith) (ground arith)
      (λ k p. ground (arith, v.holder_made k))

-- Promotion moves waiters between the tiers, and loses or doubles none.
pub promote-WellFormed : (tid : String) {q : Queue} → WellFormed q → WellFormed (promote tid q)
unfolding promote
promote-WellFormed tid {q} v =
    elim (Bool-cases (is_empty (keep (of_thread tid) q.background_waiters))) [
      | inl e ↦ rw e v
      | inr e ↦ rw e (record {
        holder_made = v.holder_made;
        user_tier = All-append _ q.user_waiters _ v.user_tier (prefer-preferred _);
        background_tier = All-keep _ _ q.background_waiters v.background_tier;
        user_made =
            All-append _ q.user_waiters _ v.user_made
              (prefer-below _ _ (All-keep _ _ q.background_waiters v.background_made));
        background_made = All-keep _ _ q.background_waiters v.background_made;
        once = λ i. omega (
          arith,
          v.once i,
          count_if-append (λ w. w.id == i) q.user_waiters
              (map prefer (keep (of_thread tid) q.background_waiters)),
          occurrences-prefer i (keep (of_thread tid) q.background_waiters),
          occurrences-split (of_thread tid) i q.background_waiters,
        );
      })
    ]
