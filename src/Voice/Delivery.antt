-- ===== src/Voice/Delivery.antt =====
-- What the phone is sent, after any calls: a bounded backlog, and nothing stale after a barge-in.
use assist.Voice.Outbound.{
  queued, Item, audio, control, Outbound, Answer, drop_last, make_room, start_generation, put_audio,
  put_control, outlives_flush, interrupt_audio, take_first, get, abort, close_with_final, finish,
}
use assist.Base.{
  if◌then◌else◌, ℕ, ◌+◌, ◌≤◌, ◌<◌, String, Bool, true, false, ◌≡◌, refl, List, [], ◌∷◌, All,
  All-append, length, length-append, keep, inl, inr, Bool-cases, arith, not, ◌&&◌, ◌||◌, leb, ◌==◌,
}

pub data Call : Type 0 where
  start : Call
  speak : ℕ → String → Call
  tell : String → Call
  interrupt : Call
  fetch : Call
  cut : Call
  end_with : String → Call
  drain : Call

unfoldable pub perform : Call → Outbound → Outbound
perform start b = (start_generation b).1
perform (speak g frame) b = (put_audio g frame b).1
perform (tell c) b = (put_control c b).1
perform interrupt b = interrupt_audio b
perform fetch b = (get b).1
perform cut b = abort b
perform (end_with c) b = close_with_final c b
perform drain b = finish b

unfoldable pub replay : List Call → Outbound → Outbound
replay [] b = b
replay (c ∷ cs) b = replay cs (perform c b)

length-drop_last : (x : Item) (xs : List Item) → length (drop_last (x ∷ xs)) ≡ length xs
length-drop_last x [] = refl
length-drop_last x (y ∷ ys) = omega (arith, length-drop_last y ys)

length-make_room :
    (capacity : ℕ) (xs : List Item)
    → 0 < capacity
    → length xs ≤ capacity
    → length (make_room capacity xs) < capacity
length-make_room capacity [] p h = ground arith
length-make_room capacity (x ∷ xs) p h = ground (arith, length-drop_last x xs)

length-keep : (xs : List Item) → length (keep outlives_flush xs) ≤ length xs
length-keep [] = omega arith
length-keep (x ∷ xs) = ground (arith, length-keep xs)

-- No more items than the capacity.
pub record WithinCapacity (b : Outbound) : Type 0 where
  pub room : 0 < b.capacity
  pub within : length b.items ≤ b.capacity

perform-WithinCapacity : (c : Call) (b : Outbound) → WithinCapacity b → WithinCapacity (perform c b)
unfolding perform start_generation put_audio put_control interrupt_audio get abort close_with_final
    finish
perform-WithinCapacity start b v = record {
  room = ground (arith, v.room);
  within = ground (arith, v.within);
}
perform-WithinCapacity (speak g frame) b v = record {
  room = ground (arith, v.room);
  within = ground (arith, v.within, length-append b.items (audio g frame ∷ []));
}
perform-WithinCapacity (tell c) b v = record {
  room = ground (arith, v.room);
  within = ground (arith, v.within, length-make_room b.capacity b.items v.room v.within);
}
perform-WithinCapacity interrupt b v = record {
  room = ground (arith, v.room);
  within = ground (
    arith,
    v.within,
    length-keep b.items,
    length-make_room b.capacity (keep outlives_flush b.items) v.room,
  );
}
perform-WithinCapacity fetch b v = fetched b.items v.within
  where
    fetched : (xs : List Item) → length xs ≤ b.capacity → WithinCapacity (take_first xs b).1
    fetched [] h = v
    fetched (x ∷ xs) h = record { room = v.room; within = omega (arith, h) }
perform-WithinCapacity cut b v = record { room = v.room; within = omega arith }
perform-WithinCapacity (end_with c) b v = record {
  room = ground (arith, v.room);
  within = ground (arith, v.within, v.room);
}
perform-WithinCapacity drain b v = record {
  room = ground (arith, v.room);
  within = ground (arith, v.within);
}

-- From a buffer within its capacity, through any calls, controls and flushes included, the buffer
-- never holds more items than its capacity.
pub backlog_is_bounded :
    (cs : List Call) (b : Outbound) → WithinCapacity b → WithinCapacity (replay cs b)
unfolding replay
backlog_is_bounded [] b v = v
backlog_is_bounded (c ∷ cs) b v = backlog_is_bounded cs (perform c b) (perform-WithinCapacity c b v)

-- Whether an item is a control, or a frame of a generation after `g`.
abbrev pub is_after : ℕ → Item → Bool
is_after g (audio k frame) = leb (g + 1) k
is_after g (control c) = true

-- Only later generations are queued, and the current one is later.
record Past (g : ℕ) (b : Outbound) : Type 0 where
  ahead : g < b.generation
  each : All (λ x. is_after g x ≡ true) b.items

All-drop_last :
    (g : ℕ) (xs : List Item)
    → All (λ x. is_after g x ≡ true) xs
    → All (λ x. is_after g x ≡ true) (drop_last xs)
All-drop_last g [] h = tt
All-drop_last g (x ∷ []) h = tt
All-drop_last g (x ∷ y ∷ ys) h = (h.0, All-drop_last g (y ∷ ys) h.1)

All-make_room :
    (g n : ℕ) (xs : List Item)
    → All (λ x. is_after g x ≡ true) xs
    → All (λ x. is_after g x ≡ true) (make_room n xs)
All-make_room g n xs h = elim (Bool-cases (leb n (length xs))) [
  | inl e ↦ rw e (All-drop_last g xs h)
  | inr e ↦ rw e h
]

purged : (g : ℕ) (xs : List Item) → All (λ x. is_after g x ≡ true) (keep outlives_flush xs)
purged g [] = tt
purged g (audio k frame ∷ xs) = purged g xs
purged g (control c ∷ xs) = ground (arith, purged g xs)

-- Both branches of a test, each with what the test says there.
answered :
    (P : Outbound → Type 0) (c : Bool) (x y : Answer × Outbound)
    → (c ≡ true → P x.1)
    → (c ≡ false → P y.1)
    → P (if c then x else y).1
answered P true x y f g = f refl
answered P false x y f g = g refl

unless : (P : Outbound → Type 0) (c : Bool) (x y : Outbound) → P x → P y → P (if c then x else y)
unless P true x y f g = f
unless P false x y f g = g

perform-Past : (n : ℕ) (c : Call) (b : Outbound) → Past n b → Past n (perform c b)
unfolding perform start_generation put_audio put_control interrupt_audio get abort close_with_final
    finish
perform-Past n start b v =
    answered (Past n) b.closed _ _ (λ e. v)
      (λ e. record { ahead = omega (arith, v.ahead); each = v.each })
perform-Past n (speak g frame) b v =
    answered (Past n) (leb b.capacity (length b.items) && not b.closed && g == b.generation) _ _
      (λ e. v)
      (λ e.
        answered (Past n) (b.closed || not (g == b.generation)) _ _ (λ f. v)
          (λ f. record {
            ahead = v.ahead;
            each =
                All-append (λ x. is_after n x ≡ true) b.items _ v.each
                  (ground (arith, f, v.ahead), tt);
          }))
perform-Past n (tell c) b v =
    answered (Past n) b.closed _ _ (λ e. v)
      (λ e. record { ahead = v.ahead; each = (refl, All-make_room n b.capacity b.items v.each) })
perform-Past n interrupt b v = unless (Past n) b.closed _ _ v (record {
  ahead = omega (arith, v.ahead);
  each = (refl, All-make_room n b.capacity _ (purged n b.items));
})
perform-Past n fetch b v = fetched b.items v.each
  where
    fetched : (xs : List Item) → All (λ x. is_after n x ≡ true) xs → Past n (take_first xs b).1
    fetched [] h = v
    fetched (x ∷ xs) h = record { ahead = v.ahead; each = h.1 }
perform-Past n cut b v = record { ahead = v.ahead; each = tt }
perform-Past n (end_with c) b v =
    unless (Past n) b.closed _ _ v (record { ahead = v.ahead; each = (refl, tt) })
perform-Past n drain b v =
    unless (Past n) b.closed _ _ v (record { ahead = v.ahead; each = v.each })

replay-Past : (n : ℕ) (cs : List Call) (b : Outbound) → Past n b → Past n (replay cs b)
unfolding replay
replay-Past n [] b v = v
replay-Past n (c ∷ cs) b v = replay-Past n cs (perform c b) (perform-Past n c b v)

interrupt-Past : (b : Outbound) → b.closed ≡ false → Past b.generation (interrupt_audio b)
unfolding interrupt_audio
interrupt-Past b e = rw e (record {
  ahead = omega arith;
  each = (refl, All-make_room b.generation b.capacity _ (purged b.generation b.items));
})

first_flush :
    (b : Outbound)
    → b.closed ≡ false
    → (rest : List Item) × ((interrupt_audio b).items ≡ control "flush_uplink" ∷ rest)
unfolding interrupt_audio
first_flush b e = rw e (_, refl)

stale-refused :
    (n g : ℕ) (frame : String) (b : Outbound)
    → Past n b
    → g ≤ n
    → (put_audio g frame b).0 ≡ queued false
unfolding put_audio
stale-refused n g frame b v le = ground (arith, v.ahead, le)

-- A barge-in is final. Directly after an open buffer is interrupted, the flush heads the queue. And
-- then, through any calls, no frame of the interrupted generation or of one before it is in the queue,
-- and such a frame that is put is answered as not queued.
pub barge_in_is_final :
    (cs : List Call) (b : Outbound) (g : ℕ) (frame : String)
    → b.closed ≡ false
    → g ≤ b.generation
    → let after = replay cs (interrupt_audio b) in
      ((rest : List Item) × ((interrupt_audio b).items ≡ control "flush_uplink" ∷ rest))
      × All (λ x. is_after b.generation x ≡ true) after.items
      × ((put_audio g frame after).0 ≡ queued false)
barge_in_is_final cs b g frame e le =
    let v = replay-Past b.generation cs (interrupt_audio b) (interrupt-Past b e) in
    (first_flush b e, v.each, stale-refused b.generation g frame _ v le)
