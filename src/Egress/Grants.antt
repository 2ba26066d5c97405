-- ===== src/Egress/Grants.antt =====
-- What the proxy is granted: the projection and the records.
use assist.Base.Dict
use assist.Base.Dict.{Dict, same_self}
use assist.Egress.Defs.{EgressRequest, key, is_approved}
use assist.Egress.Store.{
  Store, Env, Entry, entry, is_kept, load, mutate, decide, tell, untold, project,
}
use assist.Egress.Values.{Each, Each-put, Each-remove, Each-retain, Each-load}
use assist.Egress.Calls.{
  Call, ask, answer, Change, unchanged, asked, decided, revoked, told, forgotten, perform, replay,
  mutate-requests, perform-Change, env_of, entries,
}
use assist.Base.{
  ℕ, String, Bool, true, false, not, ◌||◌, ◌≡◌, refl, sym, none, some, List, [], ◌∷◌, arith, inl,
  inr, Bool-cases, All, All-keep, same, subst, ◌⊎◌, if◌then◌else◌,
}

-- The projection is that of the records, or is not there.
abbrev pub InSync : Store → Type 0
InSync s = (s.projection ≡ some (project s.requests)) ⊎ (s.projection ≡ none)

mutate-InSync :
    (env : Env) (recs : Dict EgressRequest) (s : Store)
    → env.removes ≡ true
    → InSync s
    → InSync (mutate env recs s).1
unfolding mutate
mutate-InSync env recs s g h = elim (Bool-cases env.writes) [
  | inr w ↦ rw w h
  | inl w ↦ elim (Bool-cases env.projects) [
    | inl p ↦ rw (w, p) (inl refl)
    | inr p ↦ rw (w, p, g) (inr refl)
  ]
]

Change-InSync :
    {c : Call} {s t : Store} → (env_of c).removes ≡ true → Change c s t → InSync s → InSync t
Change-InSync g unchanged h = h
Change-InSync {s = s} g (asked {env = env} e f) h = mutate-InSync env _ s g h
Change-InSync {s = s} g (decided {env = env} e f d) h = mutate-InSync env _ s g h
Change-InSync {s = s} g (revoked {env = env}) h = mutate-InSync env _ s g h
Change-InSync {s = s} g (told {env = env}) h = mutate-InSync env _ s g h
Change-InSync {s = s} g (forgotten {env = env}) h = mutate-InSync env _ s g h

-- The projection never drifts from the records: from a store in which it is theirs or is not
-- there, after any calls, whichever writes fail, it is the projection of the records as they stand
-- or it is gone, so long as it can be removed when it cannot be rewritten.
pub projection-InSync :
    (cs : List Call) (s : Store)
    → All (λ c. (env_of c).removes ≡ true) cs
    → InSync s
    → InSync (replay cs s)
unfolding replay
projection-InSync [] s g h = h
projection-InSync (c ∷ cs) s g h =
    projection-InSync cs (perform c s) g.1 (Change-InSync g.0 (perform-Change c s) h)

-- Whether a call brings in a grant: an approval, or a request that is no longer pending.
abbrev pub approves : Call → Bool
approves (ask env rec) = is_approved rec
approves (answer env k decision) = same decision "hour" || same decision "always"
approves _ = false

module _ (P : Entry → Type 0) where
  abbrev Granted : EgressRequest → Type 0
  Granted r = All P (if is_approved r then entry r ∷ [] else [])

  Each-project : (d : Dict EgressRequest) → All P (Dict.values (project d)) → Each Granted d
  unfolding project Dict.values
  Each-project [] h = tt
  Each-project ((k, r) ∷ d) h = elim (Bool-cases (is_approved r)) [
    | inl e ↦ ground (arith, e, Each-project d)
    | inr e ↦ ground (arith, e, Each-project d)
  ]

  project-Each : (d : Dict EgressRequest) → Each Granted d → All P (Dict.values (project d))
  unfolding project Dict.values
  project-Each [] h = tt
  project-Each ((k, r) ∷ d) h = elim (Bool-cases (is_approved r)) [
    | inl e ↦ ground (arith, e, project-Each d)
    | inr e ↦ ground (arith, e, project-Each d)
  ]

  mutate-Granted :
      (env : Env) (recs : Dict EgressRequest) (s : Store)
      → Each Granted recs
      → Each Granted s.requests
      → Each Granted (mutate env recs s).1.requests
  mutate-Granted env recs s new old =
      mutate-requests (Each Granted) env recs s (Each-retain Granted (is_kept env.now) recs new) old

  tell-Granted :
      (rs : List EgressRequest) (d : Dict EgressRequest)
      → All Granted rs
      → Each Granted d
      → Each Granted (tell rs d)
  tell-Granted [] d h e = e
  tell-Granted (r ∷ rs) d h e =
      tell-Granted rs _ h.1 (Each-put Granted (key r) (record r { dispatched = true }) d h.0 e)

  decline-Granted :
      (now : ℕ) (decision : String) (r r' : EgressRequest)
      → (same decision "hour" || same decision "always") ≡ false
      → decide now decision r ≡ some r'
      → is_approved r' ≡ false
  unfolding decide
  decline-Granted now decision r r' n e = ground arith

  Change-Granted :
      {c : Call} {s t : Store}
      → approves c ≡ false
      → Change c s t
      → Each Granted s.requests
      → Each Granted t.requests
  Change-Granted n unchanged h = h
  Change-Granted {s = s} n (asked {env = env} {rec = rec} e f) h =
      mutate-Granted env _ s
        (Each-put Granted (key rec) rec (load s) (rw n tt) (Each-load Granted s h)) h
  Change-Granted {s = s} n
        (decided {env = env} {k = k} {decision = decision} {r = r} {r' = r'} e f d) h =
      mutate-Granted env _ s
        (Each-put Granted k r' (load s) (rw (decline-Granted env.now decision r r' n d) tt)
          (Each-load Granted s h))
        h
  Change-Granted {s = s} n (revoked {env = env} {k = k}) h =
      mutate-Granted env _ s (Each-remove Granted k (load s) (Each-load Granted s h)) h
  Change-Granted {s = s} n (told {at = at} {env = env} {tid = tid}) h =
      mutate-Granted env _ s
        (tell-Granted _ (load s) (All-keep Granted (untold at tid) _ (Each-load Granted s h))
          (Each-load Granted s h))
        h
  Change-Granted {s = s} n (forgotten {env = env} {tid = tid}) h =
      mutate-Granted env _ s
        (Each-retain Granted (λ r. not (same r.origin_tid tid)) (load s) (Each-load Granted s h)) h

  replay-Granted :
      (cs : List Call) (s : Store)
      → All (λ c. approves c ≡ false) cs
      → Each Granted s.requests
      → Each Granted (replay cs s).requests
  unfolding replay
  replay-Granted [] s n h = h
  replay-Granted (c ∷ cs) s n h =
      replay-Granted cs (perform c s) n.1 (Change-Granted n.0 (perform-Change c s) h)

-- Only the user's approval grants anything: from a store in sync, through any calls among which
-- none approves, and so long as the projection can be removed when it cannot be rewritten, each
-- grant that the proxy sees, its thread, host, port and duration, is one that stood in the records
-- before.
pub only_approval_grants :
    (P : Entry → Type 0) (cs : List Call) (s : Store)
    → All (λ c. (env_of c).removes ≡ true) cs
    → All (λ c. approves c ≡ false) cs
    → InSync s
    → All P (Dict.values (project s.requests))
    → All P (entries (replay cs s).projection)
only_approval_grants P cs s g n sync h = seen (projection-InSync cs s g sync)
  where
    seen : InSync (replay cs s) → All P (entries (replay cs s).projection)
    seen (inl e) =
        subst (λ o. All P (entries o)) (sym e)
          (project-Each P _ (replay-Granted P cs s n (Each-project P _ h)))
    seen (inr e) = subst (λ o. All P (entries o)) (sym e) tt
