-- ===== src/Egress/Values.antt =====
-- What the operations on dictionaries do to the records in them.
use assist.Base.Dict
use assist.Base.Dict.{Dict}
use assist.Egress.Defs.{EgressRequest, is_readable, key}
use assist.Egress.Store.{Store, load, load_into}
use assist.Base.{
  ℕ, ◌+◌, ◌≤◌, String, Bool, ◌≡◌, some, [], ◌∷◌, All, count_if, if◌then◌else◌, Bool-cases, inl, inr,
  arith,
}

module _ (p : EgressRequest → Bool) where
  abbrev pub number : Dict EgressRequest → ℕ
  number d = count_if p (Dict.values d)

  pub number-put :
      (k : String) (r : EgressRequest) (d : Dict EgressRequest)
      → number (Dict.put k r d) ≤ (if p r then 1 else 0) + number d
  unfolding Dict.put Dict.values
  number-put k r [] = ground arith
  number-put k r ((j, x) ∷ d) = ground (arith, number-put k r d)

  pub number-remove : (k : String) (d : Dict EgressRequest) → number (Dict.remove k d) ≤ number d
  unfolding Dict.remove Dict.values
  number-remove k [] = ground arith
  number-remove k ((j, x) ∷ d) = ground (arith, number-remove k d)

  pub number-retain :
      (q : EgressRequest → Bool) (d : Dict EgressRequest) → number (Dict.retain q d) ≤ number d
  unfolding Dict.retain Dict.values
  number-retain q [] = ground arith
  number-retain q ((j, x) ∷ d) = ground (arith, number-retain q d)

  number-load_into : (out d : Dict EgressRequest) → number (load_into out d) ≤ number out + number d
  unfolding Dict.values
  number-load_into out [] = ground arith
  number-load_into out ((j, x) ∷ d) = ground (
    arith,
    number-load_into (if is_readable x then Dict.put (key x) x out else out) d,
    number-put (key x) x out,
  )

  pub number-load : (s : Store) → number (load s) ≤ number s.requests
  unfolding load Dict.values
  number-load s = omega (arith, number-load_into [] s.requests)

module _ (P : EgressRequest → Type 0) where
  abbrev pub Each : Dict EgressRequest → Type 0
  Each d = All P (Dict.values d)

  pub Each-put :
      (k : String) (r : EgressRequest) (d : Dict EgressRequest)
      → P r
      → Each d
      → Each (Dict.put k r d)
  unfolding Dict.put Dict.values
  Each-put k r [] h e = (h, tt)
  Each-put k r ((j, x) ∷ d) h e = ground (arith, Each-put k r d h e.1)

  pub Each-remove : (k : String) (d : Dict EgressRequest) → Each d → Each (Dict.remove k d)
  unfolding Dict.remove Dict.values
  Each-remove k [] e = e
  Each-remove k ((j, x) ∷ d) e = ground (arith, Each-remove k d e.1)

  pub Each-retain :
      (q : EgressRequest → Bool) (d : Dict EgressRequest) → Each d → Each (Dict.retain q d)
  unfolding Dict.retain Dict.values
  Each-retain q [] e = e
  Each-retain q ((j, x) ∷ d) e = ground (arith, Each-retain q d e.1)

  Each-load_into : (out d : Dict EgressRequest) → Each out → Each d → Each (load_into out d)
  unfolding Dict.values
  Each-load_into out [] o e = o
  Each-load_into out ((j, x) ∷ d) o e = elim (Bool-cases (is_readable x)) [
    | inl f ↦ rw f (Each-load_into (Dict.put (key x) x out) d (Each-put (key x) x out e.0 o) e.1)
    | inr f ↦ rw f (Each-load_into out d o e.1)
  ]

  pub Each-load : (s : Store) → Each s.requests → Each (load s)
  unfolding load Dict.values
  Each-load s e = Each-load_into [] s.requests tt e

  pub Each-get :
      (k : String) (r : EgressRequest) (d : Dict EgressRequest)
      → Dict.get k d ≡ some r
      → Each d
      → P r
  unfolding Dict.get Dict.values
  Each-get k r [] f e = absurd (cc f)
  Each-get k r ((j, x) ∷ d) f e = ground (arith, Each-get k r d)
