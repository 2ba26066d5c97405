-- ===== src/Queue/Order.antt =====
-- Who is served next: no barging, user waiters first, each tier in order of arrival, and promotion.
use assist.Queue.Defs.{Waiter, Queue, next_waiter, first_of_tiers}
use assist.Queue.Acquire.{
  Request, Outcome, entered, acquire_wake, take_slot, turn_of, pop_left, tail,
}
use assist.Queue.WellFormed.{WellFormed}
use assist.Base.{
  ℕ, true, false, ◌≡◌, refl, none, some, List, [], ◌∷◌, ◌++◌, inl, inr, if◌then◌else◌, false,
  Bool-cases, Option-cases, arith, All, ap, sym, ◌∙◌,
}

-- The order in which the waiters are to be served.
abbrev pub order : Queue → List Waiter
order q = q.user_waiters ++ q.background_waiters

-- The front of the two tiers, taken off the tier that its flag names.
front :
    (w : Waiter) (us bs : List Waiter)
    → All (λ u. u.user_priority ≡ true) us
    → All (λ b. b.user_priority ≡ false) bs
    → first_of_tiers us bs ≡ some w
    → us ++ bs
      ≡ w ∷ ((if w.user_priority then tail us else us) ++ (if w.user_priority then bs else tail bs))
front w (u ∷ us) bs hu hb e = ground (arith, hu.0)
front w [] (b ∷ bs) hu hb e = ground (arith, hb.0)
front w [] [] hu hb e = cc

order-pop_left :
    (w : Waiter) (q : Queue)
    → order (pop_left w q)
      ≡ (if w.user_priority then tail q.user_waiters else q.user_waiters)
        ++ (if w.user_priority then q.background_waiters else tail q.background_waiters)
order-pop_left w q = elim (Bool-cases w.user_priority) [ inl e ↦ rw e | inr e ↦ rw e ]

turn-order :
    (i : ℕ) (w : Waiter) (q : Queue)
    → WellFormed q
    → turn_of i q ≡ some w
    → (q.holder ≡ none) × (w.id ≡ i) × (order q ≡ w ∷ order (pop_left w q))
unfolding turn_of next_waiter
turn-order i w q v e =
    let f : first_of_tiers q.user_waiters q.background_waiters ≡ some w = ground arith in
    (
      ground arith,
      ground arith,
      front w q.user_waiters q.background_waiters v.user_tier v.background_tier f
          ∙ ap (◌∷◌ w) (sym (order-pop_left w q)),
    )

order-take_slot : (r : Request) (now : ℕ) (q : Queue) → order (take_slot r now q).1 ≡ order q
unfolding take_slot
order-take_slot r now q = elim (Bool-cases r.running_raises) [ inl e ↦ rw e | inr e ↦ rw e ]

take_slot-entered :
    (r : Request) (now : ℕ) (q : Queue)
    → r.running_raises ≡ false
    → ((take_slot r now q).0 ≡ entered q.next_handle)
      × ((take_slot r now q).1.holder ≡ some q.next_handle)
unfolding take_slot
take_slot-entered r now q e = rw e (refl, refl)

wake_of_turn :
    (r : Request) (i deadline now : ℕ) (q : Queue) (w : Waiter)
    → turn_of i q ≡ some w
    → acquire_wake r i deadline now q ≡ take_slot r now (pop_left w q)
unfolding acquire_wake
wake_of_turn r i deadline now q w e = rw (e, acquire_wake)

not-entered :
    (r : Request) (i deadline now h : ℕ) (q : Queue)
    → turn_of i q ≡ none
    → ¬ ((acquire_wake r i deadline now q).0 ≡ entered h)
unfolding acquire_wake
not-entered r i deadline now h q e = ground arith

-- In a well-formed queue, a parked waiter that takes the slot found it free, and was the first in
-- the order (user waiters before background ones, each tier by arrival); it alone leaves the
-- order.
pub wake_serves_first :
    (r : Request) (i deadline now h : ℕ) (q : Queue)
    → WellFormed q
    → (acquire_wake r i deadline now q).0 ≡ entered h
    → (q.holder ≡ none)
      × ((w : Waiter) × (w.id ≡ i) × (order q ≡ w ∷ order (acquire_wake r i deadline now q).1))
wake_serves_first r i deadline now h q v took = elim (Option-cases (turn_of i q)) [
  | inl e ↦ absurd (not-entered r i deadline now h q e took)
  | inr (w, e) ↦
      let (free, same_id, first) = turn-order i w q v e in
      let kept : order (acquire_wake r i deadline now q).1 ≡ order (pop_left w q) =
        ap (λ (o : Outcome × Queue). order o.1) (wake_of_turn r i deadline now q w e)
        ∙ order-take_slot r now (pop_left w q) in
      (free, (w, same_id, first ∙ ap (◌∷◌ w) (sym kept)))
]

first_of_order :
    (us bs : List Waiter) (w : Waiter) (ws : List Waiter)
    → us ++ bs ≡ w ∷ ws
    → first_of_tiers us bs ≡ some w
first_of_order (u ∷ us) bs w ws e = cc
first_of_order [] (b ∷ bs) w ws e = cc
first_of_order [] [] w ws e = cc

turn_of_first :
    (i : ℕ) (q : Queue) (w : Waiter) (ws : List Waiter)
    → q.holder ≡ none
    → order q ≡ w ∷ ws
    → w.id ≡ i
    → turn_of i q ≡ some w
unfolding turn_of next_waiter
turn_of_first i q w ws free e k =
    ground (arith, first_of_order q.user_waiters q.background_waiters w ws e)

pop_left-next_handle : (w : Waiter) (q : Queue) → (pop_left w q).next_handle ≡ q.next_handle
pop_left-next_handle w q = ground arith

-- The first waiter in the order is never passed over: in a well-formed queue, on a free slot, its
-- next round enters with a new handle that holds the slot, whatever its deadline, and the others
-- keep their order, if its callback does not raise.
pub first_waiter_enters :
    (r : Request) (i deadline now : ℕ) (q : Queue) (w : Waiter) (ws : List Waiter)
    → WellFormed q
    → r.running_raises ≡ false
    → q.holder ≡ none
    → order q ≡ w ∷ ws
    → w.id ≡ i
    → let o = acquire_wake r i deadline now q in
      (o.0 ≡ entered q.next_handle) × (o.1.holder ≡ some q.next_handle) × (order o.1 ≡ ws)
first_waiter_enters r i deadline now q w ws v told free e k =
    let t = turn_of_first i q w ws free e k in
    let (entry, held) = take_slot-entered r now (pop_left w q) told in
    let woken = wake_of_turn r i deadline now q w t in
    let named = pop_left-next_handle w q in
    (
      ap (λ (o : Outcome × Queue). o.0) woken ∙ entry ∙ ap entered named,
      ap (λ (o : Outcome × Queue). o.1.holder) woken ∙ held ∙ ap some named,
      ap (λ (o : Outcome × Queue). order o.1) woken
          ∙ order-take_slot r now (pop_left w q)
          ∙ ground (arith, (turn-order i w q v t).2),
    )
