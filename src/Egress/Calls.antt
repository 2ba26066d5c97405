-- ===== src/Egress/Calls.antt =====
-- The calls that change the store, in any order, and what a mutation leaves.
use assist.Base.Dict
use assist.Base.Dict.{Dict}
use assist.Egress.Defs.{EgressRequest, key, is_pending, is_approved}
use assist.Egress.Store.{
  Store, Env, Entry, is_kept, load, mutate, finish, returned, add_pending, resolve, revoke, decide,
  tell, untold, hand_out, take_undispatched, remove_thread, pending_of, per_thread_pending_cap,
  global_pending_cap,
}
use assist.Egress.Values.{Each, Each-retain, Each-load}
use assist.Base.{
  ℕ, ◌-◌, String, true, false, not, ◌≡◌, Option, none, some, List, [], ◌∷◌, keep, count_if, length,
  leb, ltb, same, inl, inr, Bool-cases, Option-cases, arith,
}

pub data Call : Type 0 where
  ask : Env → EgressRequest → Call
  answer : Env → String → String → Call
  withdraw : Env → String → Call
  announce : ℕ → Env → String → Call
  forget : Env → String → Call

unfoldable pub perform : Call → Store → Store
perform (ask env rec) s = (add_pending env rec s).1
perform (answer env k decision) s = (resolve env k decision s).1
perform (withdraw env k) s = (revoke env k s).1
perform (announce asked env tid) s = (take_undispatched asked env tid s).1
perform (forget env tid) s = (remove_thread env tid s).1

unfoldable pub replay : List Call → Store → Store
replay [] s = s
replay (c ∷ cs) s = replay cs (perform c s)

abbrev pub env_of : Call → Env
env_of (ask env rec) = env
env_of (answer env k decision) = env
env_of (withdraw env k) = env
env_of (announce asked env tid) = env
env_of (forget env tid) = env

-- What the proxy is granted: nothing, when the projection is not there.
abbrev pub entries : Option (Dict Entry) → List Entry
entries none = []
entries (some d) = Dict.values d

-- The requests after a mutation are the pruned ones, or those of before.
pub mutate-requests :
    (P : Dict EgressRequest → Type 0) (env : Env) (recs : Dict EgressRequest) (s : Store)
    → P (Dict.retain (is_kept env.now) recs)
    → P s.requests
    → P (mutate env recs s).1.requests
unfolding mutate
mutate-requests P env recs s new old = elim (Bool-cases env.writes) [
  | inl w ↦ elim (Bool-cases env.projects) [ inl p ↦ rw (w, p) new | inr p ↦ rw (w, p) new ]
  | inr w ↦ rw w old
]

-- How a call changes the files: not at all, or by one mutation.
pub data Change : Call → Store → Store → Type 0 where
  unchanged : {c : Call} {s : Store} → Change c s s
  asked :
      {env : Env} {rec : EgressRequest} {s : Store}
      → leb per_thread_pending_cap (count_if (pending_of rec.origin_tid) (Dict.values (load s)))
        ≡ false
      → leb global_pending_cap (count_if is_pending (Dict.values (load s))) ≡ false
      → Change (ask env rec) s (mutate env (Dict.put (key rec) rec (load s)) s).1
  decided :
      {env : Env} {k decision : String} {r r' : EgressRequest} {s : Store}
      → Dict.get k (load s) ≡ some r
      → is_pending r ≡ true
      → decide env.now decision r ≡ some r'
      → Change (answer env k decision) s (mutate env (Dict.put k r' (load s)) s).1
  revoked :
      {env : Env} {k : String} {s : Store}
      → Change (withdraw env k) s (mutate env (Dict.remove k (load s)) s).1
  told :
      {at : ℕ} {env : Env} {tid : String} {s : Store}
      → Change
          (announce at env tid)
          s
          (mutate env (tell (keep (untold at tid) (Dict.values (load s))) (load s)) s).1
  forgotten :
      {env : Env} {tid : String} {s : Store}
      → Change
          (forget env tid)
          s
          (mutate env (Dict.retain (λ r. not (same r.origin_tid tid)) (load s)) s).1

add_pending-Change :
    (env : Env) (rec : EgressRequest) (s : Store) → Change (ask env rec) s (add_pending env rec s).1
unfolding add_pending
add_pending-Change env rec s =
    elim (Bool-cases
      (leb per_thread_pending_cap (count_if (pending_of rec.origin_tid) (Dict.values (load s))))) [
        | inl e ↦ rw e unchanged
        | inr e ↦
            elim (Bool-cases
              (leb global_pending_cap (count_if is_pending (Dict.values (load s))))) [
                | inl f ↦ rw (e, f) unchanged
                | inr f ↦ rw (e, f) (asked e f)
              ]
      ]

resolve-Change :
    (env : Env) (k decision : String) (s : Store)
    → Change (answer env k decision) s (resolve env k decision s).1
unfolding resolve
resolve-Change env k decision s = elim (Option-cases (Dict.get k (load s))) [
  | inl e ↦ rw e unchanged
  | inr (r, e) ↦ elim (Bool-cases (is_pending r)) [
    | inr f ↦ rw (e, f) unchanged
    | inl f ↦ elim (Option-cases (decide env.now decision r)) [
      | inl d ↦ rw (e, f, d) unchanged
      | inr (r', d) ↦ rw (e, f, d) (decided e f d)
    ]
  ]
]

revoke-Change : (env : Env) (k : String) (s : Store) → Change (withdraw env k) s (revoke env k s).1
unfolding revoke
revoke-Change env k s = elim (Option-cases (Dict.get k (load s))) [
  | inl e ↦ rw e unchanged
  | inr (r, e) ↦ elim (Bool-cases (is_approved r)) [
    | inr f ↦ rw (e, f) unchanged
    | inl f ↦ rw (e, f) revoked
  ]
]

take_undispatched-Change :
    (at : ℕ) (env : Env) (tid : String) (s : Store)
    → Change (announce at env tid) s (take_undispatched at env tid s).1
unfolding take_undispatched
take_undispatched-Change at env tid s = given (keep (untold at tid) (Dict.values (load s))) told
  where
    given :
        (batch : List EgressRequest)
        → Change (announce at env tid) s (mutate env (tell batch (load s)) s).1
        → Change (announce at env tid) s (hand_out env batch s).1
    given [] h = unchanged
    given (r ∷ rs) h = h

remove_thread-Change :
    (env : Env) (tid : String) (s : Store) → Change (forget env tid) s (remove_thread env tid s).1
unfolding remove_thread
remove_thread-Change env tid s =
    elim (Bool-cases (
      ltb 0 (length (load s) - length (Dict.retain (λ r. not (same r.origin_tid tid)) (load s))))) [
        | inl e ↦ rw e forgotten
        | inr e ↦ rw e unchanged
      ]

pub perform-Change : (c : Call) (s : Store) → Change c s (perform c s)
unfolding perform
perform-Change (ask env rec) s = add_pending-Change env rec s
perform-Change (answer env k decision) s = resolve-Change env k decision s
perform-Change (withdraw env k) s = revoke-Change env k s
perform-Change (announce at env tid) s = take_undispatched-Change at env tid s
perform-Change (forget env tid) s = remove_thread-Change env tid s

-- What a mutation that returned keeps of the records, and so does their next reading.
pub written {ℓ} :
    {A : Type ℓ} (P : EgressRequest → Type 0) (env : Env) (recs : Dict EgressRequest) (s : Store)
    (b batch : A)
    → Each P recs
    → (finish b (mutate env recs s)).0 ≡ returned batch
    → Each P (load (finish b (mutate env recs s)).1)
unfolding mutate
written P env recs s b batch h e = elim (Bool-cases env.writes) [
  | inr w ↦ absurd (ground (arith, e, w))
  | inl w ↦ elim (Bool-cases env.projects) [
    | inr p ↦ absurd (ground (arith, e, w, p))
    | inl p ↦ rw (w, p) (Each-load P _ (Each-retain P (is_kept env.now) recs h))
  ]
]
