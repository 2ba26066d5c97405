-- ===== src/Egress/Expiry.antt =====
-- What ends a grant: its expiry, and the user's revocation.
use assist.Base.Dict
use assist.Base.Dict.{Dict, get-remove, same_self}
use assist.Egress.Defs.{EgressRequest, is_approved, is_ahead, grant_live}
use assist.Egress.Store.{
  Store, Env, Entry, is_kept, load, mutate, project, revoke, Answer, returned, remove_thread,
  for_thread,
}
use assist.Egress.Values.{Each}
use assist.Egress.Calls.{
  Call, Change, unchanged, asked, decided, revoked, told, forgotten, perform, perform-Change,
  env_of, entries, written,
}
use assist.Base.{
  ℕ, String, Bool, true, not, ◌≡◌, ◌≢◌, refl, sym, ap, ◌∙◌, Option, none, some, List, [], ◌∷◌,
  arith, inl, inr, Bool-cases, All, keep, length, ltb, ◌≤◌, ◌-◌, ◌&&◌, ◌||◌, same, if_true,
}

abbrev Live : ℕ → Entry → Type 0
Live now e = is_ahead e.expires_at now ≡ true

project-Live :
    (now : ℕ) (d : Dict EgressRequest)
    → All (Live now) (Dict.values (project (Dict.retain (is_kept now) d)))
unfolding project Dict.retain Dict.values grant_live
project-Live now [] = tt
project-Live now ((k, r) ∷ d) = ground (arith, project-Live now d)

mutate-Live :
    (env : Env) (recs : Dict EgressRequest) (s : Store)
    → (mutate env recs s).1.projection ≢ s.projection
    → All (Live env.now) (entries (mutate env recs s).1.projection)
unfolding mutate
mutate-Live env recs s ne = elim (Bool-cases env.writes) [
  | inr w ↦ absurd (ne (rw w refl))
  | inl w ↦ elim (Bool-cases env.projects) [
    | inl p ↦ rw (w, p) (project-Live env.now recs)
    | inr p ↦ elim (Bool-cases env.removes) [
      | inl g ↦ rw (w, p, g) tt
      | inr g ↦ absurd (ne (rw (w, p, g) refl))
    ]
  ]
]

Change-Live :
    {c : Call} {s t : Store}
    → Change c s t
    → t.projection ≢ s.projection
    → All (Live (env_of c).now) (entries t.projection)
Change-Live unchanged ne = absurd (ne refl)
Change-Live {s = s} (asked {env = env} e f) ne = mutate-Live env _ s ne
Change-Live {s = s} (decided {env = env} e f d) ne = mutate-Live env _ s ne
Change-Live {s = s} (revoked {env = env}) ne = mutate-Live env _ s ne
Change-Live {s = s} (told {env = env}) ne = mutate-Live env _ s ne
Change-Live {s = s} (forgotten {env = env}) ne = mutate-Live env _ s ne

-- A call that rewrites the projection leaves no expired or unreadable grant in it.
pub rewrite_prunes :
    (c : Call) (s : Store)
    → (perform c s).projection ≢ s.projection
    → All (λ e. is_ahead e.expires_at (env_of c).now ≡ true) (entries (perform c s).projection)
rewrite_prunes c s ne = Change-Live (perform-Change c s) ne

get-retain :
    (k : String) (q : EgressRequest → Bool) (d : Dict EgressRequest)
    → Dict.get k d ≡ none
    → Dict.get k (Dict.retain q d) ≡ none
unfolding Dict.get Dict.retain
get-retain k q [] e = refl
get-retain k q ((j, r) ∷ d) e = ground (arith, e, get-retain k q d)

get-project :
    (k : String) (d : Dict EgressRequest) → Dict.get k d ≡ none → Dict.get k (project d) ≡ none
unfolding Dict.get project
get-project k [] e = refl
get-project k ((j, r) ∷ d) e = ground (arith, e, get-project k d)

-- What the proxy finds under a key.
abbrev pub grant_at : String → Option (Dict Entry) → Option Entry
grant_at k none = none
grant_at k (some d) = Dict.get k d

mutate-gone :
    (env : Env) (k : String) (recs : Dict EgressRequest) (s : Store)
    → Dict.get k recs ≡ none
    → env.writes ≡ true
    → env.removes ≡ true
    → (Dict.get k (mutate env recs s).1.requests ≡ none)
      × (grant_at k (mutate env recs s).1.projection ≡ none)
unfolding mutate
mutate-gone env k recs s e w g =
    let kept = get-retain k (is_kept env.now) recs e in
    elim (Bool-cases env.projects) [
      | inl p ↦ rw (w, p) (kept, get-project k _ kept)
      | inr p ↦ rw (w, p, g) (kept, refl)
    ]

-- A revoked grant is gone from the records and from what the proxy sees, even if the projection
-- cannot be rewritten, so long as the request file can be and the projection can be removed.
pub revoke_takes_away :
    (env : Env) (k : String) (s : Store) (r : EgressRequest)
    → Dict.get k (load s) ≡ some r
    → is_approved r ≡ true
    → env.writes ≡ true
    → env.removes ≡ true
    → let s' = (revoke env k s).1 in
      (Dict.get k s'.requests ≡ none) × (grant_at k s'.projection ≡ none)
unfolding revoke
revoke_takes_away env k s r e f w g =
    let missing : Dict.get k (Dict.remove k (load s)) ≡ none =
      get-remove k k (load s) ∙ if_true _ _ (same_self k) in
    rw (e, f) (mutate-gone env k (Dict.remove k (load s)) s missing w g)

module _ (q : EgressRequest → Bool) where
  abbrev Passing : EgressRequest → Type 0
  Passing r = q r ≡ true

  length-retain : (d : Dict EgressRequest) → length (Dict.retain q d) ≤ length d
  unfolding Dict.retain
  length-retain [] = ground arith
  length-retain ((k, r) ∷ d) = ground (arith, length-retain d)

  retain-Passing : (d : Dict EgressRequest) → Each Passing (Dict.retain q d)
  unfolding Dict.retain Dict.values
  retain-Passing [] = tt
  retain-Passing ((k, r) ∷ d) = ground (arith, retain-Passing d)

  nothing_dropped : (d : Dict EgressRequest) → length d ≤ length (Dict.retain q d) → Each Passing d
  unfolding Dict.retain Dict.values
  nothing_dropped [] h = tt
  nothing_dropped ((k, r) ∷ d) h = elim (Bool-cases (q r)) [
    | inl e ↦ (e, nothing_dropped d (ground (arith, e, h)))
    | inr e ↦ absurd (ground (arith, e, h, length-retain d))
  ]

abbrev elsewhere : String → EgressRequest → Bool
elsewhere tid r = not (same r.origin_tid tid)

none_listed :
    (now : ℕ) (tid : String) (rs : List EgressRequest)
    → All (Passing (elsewhere tid)) rs
    → keep (λ r. same r.origin_tid tid && (not (is_approved r) || grant_live r now)) rs ≡ []
none_listed now tid [] h = refl
none_listed now tid (r ∷ rs) h = ground (arith, h.0, none_listed now tid rs h.1)

-- A grant does not outlive its thread: once the removal of a thread has returned, nothing of the
-- thread is listed at any time.
pub removed_thread_is_gone :
    (env : Env) (tid : String) (s : Store) (n now : ℕ)
    → (remove_thread env tid s).0 ≡ returned n
    → for_thread now tid (remove_thread env tid s).1 ≡ []
unfolding remove_thread for_thread
removed_thread_is_gone env tid s n now done = none_listed now tid _ left
  where
    recs : Dict EgressRequest
    recs = load s

    dropped : ℕ
    dropped = length recs - length (Dict.retain (elsewhere tid) recs)

    left : Each (Passing (elsewhere tid)) (load (remove_thread env tid s).1)
    left = elim (Bool-cases (ltb 0 dropped)) [
      | inl e ↦ rw e (
          written (Passing (elsewhere tid)) env _ s dropped n (retain-Passing (elsewhere tid) recs)
            (ap (λ (a : Answer ℕ × Store). a.0) (sym (if_true _ _ e)) ∙ done))
      | inr e ↦ rw e (nothing_dropped (elsewhere tid) recs (ground (arith, e)))
    ]
