-- ===== src/Egress/Announcement.antt =====
-- Each resolution is announced at most once.
use assist.Base.Dict
use assist.Base.Dict.{Dict, get-put, same_self, same→≡}
use assist.Egress.Defs.{EgressRequest, key, is_readable, grant_live}
use assist.Egress.Store.{
  Store, Env, returned, load, load_into, hand_out, tell, untold, take_undispatched,
}
use assist.Egress.Values.{Each}
use assist.Egress.Calls.{written}
use assist.Base.{
  ℕ, ◌≤◌, String, Bool, true, false, ◌≡◌, refl, ap, none, some, List, [], ◌∷◌, arith, inl, inr,
  Bool-cases, All, any, keep, same, ◌⊎◌,
}

-- Each record stands once, under its own key.
abbrev Tidy : Dict EgressRequest → Type 0
Tidy [] = Unit
Tidy ((k, r) ∷ d) = (k ≡ key r) × (Dict.get k d ≡ none) × Tidy d

put-Tidy : (r : EgressRequest) (d : Dict EgressRequest) → Tidy d → Tidy (Dict.put (key r) r d)
unfolding Dict.put Dict.get
put-Tidy r [] h = (refl, refl, tt)
put-Tidy r ((j, x) ∷ d) h = elim (Bool-cases (same j (key r))) [
  | inl e ↦ rw e (same→≡ j (key r) e, h.1, h.2)
  | inr e ↦ rw e (h.0, ground (arith, get-put (key r) j r d, h.1, e), put-Tidy r d h.2)
]

load_into-Tidy : (d out : Dict EgressRequest) → Tidy out → Tidy (load_into out d)
load_into-Tidy [] out h = h
load_into-Tidy ((k, r) ∷ d) out h = elim (Bool-cases (is_readable r)) [
  | inl e ↦ rw e (load_into-Tidy d _ (put-Tidy r out h))
  | inr e ↦ rw e (load_into-Tidy d out h)
]

load-Tidy : (s : Store) → Tidy (load s)
unfolding load
load-Tidy s = load_into-Tidy s.requests [] tt

tell-Tidy : (rs : List EgressRequest) (d : Dict EgressRequest) → Tidy d → Tidy (tell rs d)
unfolding key
tell-Tidy [] d h = h
tell-Tidy (r ∷ rs) d h = tell-Tidy rs _ (put-Tidy (record r { dispatched = true }) d h)

abbrev under : String → EgressRequest → Bool
under k r = same (key r) k

-- A record after `tell` is marked, or it was there and none of the batch stands under its key.
tell-get :
    (rs : List EgressRequest) (d : Dict EgressRequest) (k : String) (v : EgressRequest)
    → Dict.get k (tell rs d) ≡ some v
    → (v.dispatched ≡ true) ⊎ ((Dict.get k d ≡ some v) × (any (under k) rs ≡ false))
tell-get [] d k v e = inr (e, refl)
tell-get (r ∷ rs) d k v e = elim (tell-get rs _ k v e) [
  | inl h ↦ inl h
  | inr (f, n) ↦ ground (arith, get-put (key r) k (record r { dispatched = true }) d, f, n)
]

-- Each record of a dictionary is found under its key.
Each-of_get :
    (P : EgressRequest → Type 0) (d : Dict EgressRequest)
    → Tidy d
    → ((k : String) (v : EgressRequest) → Dict.get k d ≡ some v → P v)
    → Each P d
unfolding Dict.get Dict.values
Each-of_get P [] t h = tt
Each-of_get P ((j, x) ∷ d) t h = (
  h j x (rw (same_self j) refl),
  Each-of_get P d t.2 (λ k v e. elim (Bool-cases (same j k)) [
    | inl f ↦ absurd (ground (arith, ap (λ y. Dict.get y d) (same→≡ j k f), t.1, e))
    | inr f ↦ h k v (rw f e)
  ]),
)

found_in_batch :
    (q : EgressRequest → Bool) (d : Dict EgressRequest) (k : String) (v : EgressRequest)
    → Tidy d
    → Dict.get k d ≡ some v
    → q v ≡ true
    → any (under k) (keep q (Dict.values d)) ≡ true
unfolding Dict.get Dict.values
found_in_batch q [] k v t e f = absurd (cc e)
found_in_batch q ((j, x) ∷ d) k v t e f = elim (Bool-cases (same j k)) [
  | inl m ↦ ground (arith, t.0, e, f, m)
  | inr m ↦ ground (arith, found_in_batch q d k v t.2, e, f, m)
]

Told : ℕ → String → EgressRequest → Type 0
Told at tid r = untold at tid r ≡ false

tell-Told :
    (at : ℕ) (tid : String) (d : Dict EgressRequest)
    → Tidy d
    → Each (Told at tid) (tell (keep (untold at tid) (Dict.values d)) d)
unfolding Told
tell-Told at tid d t =
    let batch = keep (untold at tid) (Dict.values d) in
    Each-of_get (Told at tid) (tell batch d) (tell-Tidy batch d t) (λ k v e.
      elim (tell-get batch d k v e) [
        | inl marked ↦ ground (arith, marked)
        | inr (there, absent) ↦ elim (Bool-cases (untold at tid v)) [
          | inr f ↦ f
          | inl f ↦ absurd (ground (arith, found_in_batch (untold at tid) d k v t there f, absent))
        ]
      ])

none_untold :
    (at : ℕ) (tid : String) (rs : List EgressRequest)
    → All (Told at tid) rs
    → keep (untold at tid) rs ≡ []
unfolding Told
none_untold at tid [] h = refl
none_untold at tid (r ∷ rs) h = ground (arith, h.0, none_untold at tid rs h.1)

empty-Told :
    (at : ℕ) (tid : String) (rs : List EgressRequest)
    → keep (untold at tid) rs ≡ []
    → All (Told at tid) rs
unfolding Told
empty-Told at tid [] e = tt
empty-Told at tid (r ∷ rs) e = elim (Bool-cases (untold at tid r)) [
  | inl f ↦ absurd (ground (arith, e, f))
  | inr f ↦ (f, empty-Told at tid rs (ground (arith, e, f)))
]

-- What was no news stays none: a grant that has expired does not come back.
Told-later :
    (at later : ℕ) (tid : String) (r : EgressRequest)
    → at ≤ later
    → Told at tid r
    → Told later tid r
unfolding Told grant_live
Told-later at later tid r le h = ground (arith, le, h)

All-later :
    (at later : ℕ) (tid : String) (rs : List EgressRequest)
    → at ≤ later
    → All (Told at tid) rs
    → All (Told later tid) rs
All-later at later tid [] le h = tt
All-later at later tid (r ∷ rs) le h =
    (Told-later at later tid r le h.0, All-later at later tid rs le h.1)

-- A batch is announced at most once: directly after a `take_undispatched` that returned, another
-- one for the thread, at no earlier time, returns nothing and writes nothing.
pub announced_once :
    (at later : ℕ) (env env' : Env) (tid : String) (s : Store) (batch : List EgressRequest)
    → (take_undispatched at env tid s).0 ≡ returned batch
    → at ≤ later
    → let s' = (take_undispatched at env tid s).1 in
      take_undispatched later env' tid s' ≡ (returned [], s')
unfolding take_undispatched
announced_once at later env env' tid s batch done le =
    ap (λ b. hand_out env' b (take_undispatched at env tid s).1)
      (none_untold later tid _ (
        All-later at later tid _ le (
          given (keep (untold at tid) (Dict.values (load s))) (empty-Told at tid _)
            (tell-Told at tid (load s) (load-Tidy s)) done)))
  where
    given :
        (b : List EgressRequest)
        → (b ≡ [] → Each (Told at tid) (load s))
        → Each (Told at tid) (tell b (load s))
        → (hand_out env b s).0 ≡ returned batch
        → Each (Told at tid) (load (hand_out env b s).1)
    given [] h k e = h refl
    given (r ∷ rs) h k e = written (Told at tid) env (tell (r ∷ rs) (load s)) s (r ∷ rs) batch k e
