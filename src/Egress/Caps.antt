-- ===== src/Egress/Caps.antt =====
-- The caps on pending requests.
use assist.Base.Dict
use assist.Base.Dict.{Dict, same→≡}
use assist.Egress.Defs.{EgressRequest, key, is_pending}
use assist.Egress.Store.{
  Store, Env, is_kept, load, mutate, decide, pending_of, tell, untold, per_thread_pending_cap,
  global_pending_cap,
}
use assist.Egress.Values.{number, number-put, number-remove, number-retain, number-load}
use assist.Egress.Calls.{
  Call, Change, unchanged, asked, decided, revoked, told, forgotten, perform, replay,
  mutate-requests, perform-Change,
}
use assist.Base.{
  ℕ, ◌≤◌, ◌<◌, String, Bool, true, false, not, ◌≡◌, some, List, [], ◌∷◌, arith, inl, inr,
  Bool-cases, subst, All, keep, count_if, same,
}

-- A bound on the records that pass a test that no decision and no dispatch adds to.
pub record Steady (p : EgressRequest → Bool) : Type 0 where
  pub only_pending : (r : EgressRequest) → is_pending r ≡ false → p r ≡ false

module _ (p : EgressRequest → Bool) (n : ℕ) (v : Steady p) where
  abbrev Within : Dict EgressRequest → Type 0
  Within d = number p d ≤ n

  mutate-Within :
      (env : Env) (recs : Dict EgressRequest) (s : Store)
      → Within recs
      → Within s.requests
      → Within (mutate env recs s).1.requests
  mutate-Within env recs s new old =
      mutate-requests Within env recs s (omega (arith, number-retain p (is_kept env.now) recs)) old

  put-Within :
      (k : String) (r : EgressRequest) (d : Dict EgressRequest)
      → is_pending r ≡ false
      → Within d
      → Within (Dict.put k r d)
  put-Within k r d f h = ground (arith, v.only_pending r f, number-put p k r d)

  decide-settled :
      (now : ℕ) (decision : String) (r r' : EgressRequest)
      → decide now decision r ≡ some r'
      → is_pending r' ≡ false
  unfolding decide
  decide-settled now decision r r' e = ground arith

  tell-Within :
      (rs : List EgressRequest) (d : Dict EgressRequest)
      → All (λ r. is_pending r ≡ false) rs
      → Within d
      → Within (tell rs d)
  tell-Within [] d h w = w
  tell-Within (r ∷ rs) d h w =
      tell-Within rs _ h.1 (put-Within (key r) (record r { dispatched = true }) d h.0 w)

  settled :
      (at : ℕ) (tid : String) (rs : List EgressRequest)
      → All (λ r. is_pending r ≡ false) (keep (untold at tid) rs)
  settled at tid [] = tt
  settled at tid (r ∷ rs) = ground (arith, settled at tid rs)

  -- A change adds to the number only where `add_pending` finds room below the bound.
  Change-Within :
      {c : Call} {s t : Store}
      → ((rec : EgressRequest)
          → count_if (pending_of rec.origin_tid) (Dict.values (load s)) < per_thread_pending_cap
          → count_if is_pending (Dict.values (load s)) < global_pending_cap
          → Within (Dict.put (key rec) rec (load s)))
      → Change c s t
      → Within s.requests
      → Within t.requests
  Change-Within {s = s} room unchanged h = h
  Change-Within {s = s} room (asked {env = env} {rec = rec} e f) h =
      mutate-Within env _ s (room rec (ground (arith, e)) (ground (arith, f))) h
  Change-Within {s = s} room
        (decided {env = env} {k = k} {decision = decision} {r = r} {r' = r'} e f d) h =
      mutate-Within env _ s
        (put-Within k r' (load s) (decide-settled env.now decision r r' d)
          (omega (arith, number-load p s, h)))
        h
  Change-Within {s = s} room (revoked {env = env} {k = k}) h =
      mutate-Within env _ s (omega (arith, number-remove p k (load s), number-load p s, h)) h
  Change-Within {s = s} room (told {at = at} {env = env} {tid = tid}) h =
      mutate-Within env _ s
        (tell-Within _ (load s) (settled at tid (Dict.values (load s)))
          (omega (arith, number-load p s, h)))
        h
  Change-Within {s = s} room (forgotten {env = env} {tid = tid}) h =
      mutate-Within env _ s
        (omega
          (arith, number-retain p (λ r. not (same r.origin_tid tid)) (load s), number-load p s, h))
        h

-- At most three pending requests of each thread, and ten in all.
pub record Capped (s : Store) : Type 0 where
  pub each : (tid : String) → number (pending_of tid) s.requests ≤ per_thread_pending_cap
  pub all : number is_pending s.requests ≤ global_pending_cap

pending_of-Steady : (tid : String) → Steady (pending_of tid)
pending_of-Steady tid = record { only_pending = λ r f. ground (arith, f) }

room_for_thread :
    (tid : String) (s : Store)
    → number (pending_of tid) s.requests ≤ per_thread_pending_cap
    → (rec : EgressRequest) → number (pending_of rec.origin_tid) (load s) < per_thread_pending_cap
    → number (pending_of tid) (Dict.put (key rec) rec (load s)) ≤ per_thread_pending_cap
room_for_thread tid s h rec e = elim (Bool-cases (same rec.origin_tid tid)) [
  | inl m ↦
      let one : rec.origin_tid ≡ tid = same→≡ rec.origin_tid tid m in
      let room = subst (λ t. number (pending_of t) (load s) < per_thread_pending_cap) one e in
      ground (arith, room, number-put (pending_of tid) (key rec) rec (load s))
  | inr m ↦
      ground (
        arith,
        m,
        number-put (pending_of tid) (key rec) rec (load s),
        number-load (pending_of tid) s,
      )
]

-- From a store within the caps, whatever is asked, decided, revoked, announced or forgotten, and
-- whichever writes fail: no thread ever has more than three requests that wait for the user, and
-- there are never more than ten.
pub caps_hold : (cs : List Call) (s : Store) → Capped s → Capped (replay cs s)
unfolding replay
caps_hold [] s v = v
caps_hold (c ∷ cs) s v = caps_hold cs (perform c s) (record {
  each = λ tid.
      Change-Within (pending_of tid) per_thread_pending_cap (pending_of-Steady tid)
        (λ rec e f. room_for_thread tid s (v.each tid) rec e) (perform-Change c s) (v.each tid);
  all =
      Change-Within is_pending global_pending_cap (record { only_pending = λ r f. f })
        (λ rec e f. ground (arith, f, number-put is_pending (key rec) rec (load s)))
        (perform-Change c s) v.all;
})
