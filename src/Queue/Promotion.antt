-- ===== src/Queue/Promotion.antt =====
-- `promote` moves a thread's background waiters to the end of the user tier, and is stable.
use assist.Queue.Defs.{Waiter, Queue}
use assist.Queue.Control.{promote, of_thread, is_empty}
use assist.Queue.Control
use assist.Queue.Order.{order}
use assist.Base.{
  ℕ, String, Bool, true, not, ◌≡◌, refl, List, [], ◌∷◌, ◌++◌, map, inl, inr, keep, keep-append,
  Bool-cases, append-nil, map-append, arith, sym,
}

-- The identities of the waiters, in order.
abbrev pub ids : List Waiter → List ℕ
ids = map (λ w. w.id)

keep-map-prefer :
    (tid : String) (ws : List Waiter)
    → keep (λ w. not (of_thread tid w)) (map Control.prefer (keep (of_thread tid) ws)) ≡ []
keep-map-prefer tid [] = refl
keep-map-prefer tid (w ∷ ws) = ground (arith, keep-map-prefer tid ws)

keep_twice : (p : Waiter → Bool) (ws : List Waiter) → keep p (keep p ws) ≡ keep p ws
keep_twice p [] = refl
keep_twice p (w ∷ ws) = ground (arith, keep_twice p ws)

keep_none : (p : Waiter → Bool) (ws : List Waiter) → keep p (keep (λ w. not (p w)) ws) ≡ []
keep_none p [] = refl
keep_none p (w ∷ ws) = ground (arith, keep_none p ws)

keep_all_prefer :
    (tid : String) (ws : List Waiter)
    → ids (keep (of_thread tid) (map Control.prefer (keep (of_thread tid) ws)))
      ≡ ids (keep (of_thread tid) ws)
keep_all_prefer tid [] = refl
keep_all_prefer tid (w ∷ ws) = ground (arith, keep_all_prefer tid ws)

empty_of_test : (ws : List Waiter) → is_empty ws ≡ true → ws ≡ []
empty_of_test [] e = refl
empty_of_test (w ∷ ws) e = cc

keep_rest : (p : Waiter → Bool) (ws : List Waiter) → keep p ws ≡ [] → keep (λ w. not (p w)) ws ≡ ws
keep_rest p [] e = refl
keep_rest p (w ∷ ws) e = ground (arith, keep_rest p ws)

-- After the two tiers of `promote`, whether or not there was anything to promote.
record Moved (tid : String) (q r : Queue) : Type 0 where
  user :
      r.user_waiters
      ≡ q.user_waiters ++ map Control.prefer (keep (of_thread tid) q.background_waiters)
  background : r.background_waiters ≡ keep (λ w. not (of_thread tid w)) q.background_waiters
  same_holder : r.holder ≡ q.holder

promote-Moved : (tid : String) (q : Queue) → Moved tid q (promote tid q)
unfolding promote
promote-Moved tid q = elim (Bool-cases (is_empty (keep (of_thread tid) q.background_waiters))) [
  | inr e ↦ rw e (record { user = refl; background = refl; same_holder = refl })
  | inl e ↦
      let none_there = empty_of_test _ e in
      rw e (record {
        user = rw (none_there, append-nil);
        background = sym (keep_rest (of_thread tid) q.background_waiters none_there);
        same_holder = refl;
      })
]

-- Promotion leaves the holder and the order of the other threads' waiters alone, keeps the promoted
-- thread's waiters in their own order, puts every one of them in the user tier, and puts none
-- before a user waiter that was there.
pub promote_stable :
    (tid : String) (q : Queue)
    → let q' = promote tid q in
      (q'.holder ≡ q.holder)
      × (keep (λ w. not (of_thread tid w)) (order q') ≡ keep (λ w. not (of_thread tid w)) (order q))
      × (ids (keep (of_thread tid) (order q')) ≡ ids (keep (of_thread tid) (order q)))
      × (keep (of_thread tid) q'.background_waiters ≡ [])
      × ((ws : List Waiter) × (q'.user_waiters ≡ q.user_waiters ++ ws))
promote_stable tid q =
    let m = promote-Moved tid q in
    (
      m.same_holder,
      simp (m.user, m.background, keep-append, keep-map-prefer, append-nil, keep_twice),
      simp (m.user, m.background, keep-append, keep_none, append-nil, map-append, keep_all_prefer),
      rw m.background (keep_none (of_thread tid) q.background_waiters),
      (_, m.user),
    )
