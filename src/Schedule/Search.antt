-- ===== src/Schedule/Search.antt =====
-- The minute search of `next_after`: its result is the first match, and it fails just where no minute
-- of its range matches.
use assist.Base.Integer.{ℤ, pos_part}
use assist.Schedule.Defs.{Cadence, Schedule, Zone}
use assist.Schedule.Cadence.{matches, search_from, max_steps, next_after, next_in, next_monthly}
use native.Mathlib.Decide.{ℕ_discrete}
use assist.Base.{
  ℕ, zero, suc, ◌+◌, ◌*◌, ◌/◌, ◌≤◌, ◌<◌, String, Bool, true, false, ◌≡◌, refl, sym, ap, ◌∙◌, Option,
  none, some, inl, inr, Bool-cases, arith, subst, ◌↔◌,
}

module _ (c : Cadence) (z : Zone) where
  abbrev hit : ℕ → Bool
  hit u = matches c (z.clock u)

  search_hit : (n cand : ℕ) → hit cand ≡ true → search_from c z (suc n) cand ≡ some cand
  unfolding search_from
  search_hit n cand e = ground (arith, e)

  search_miss :
      (n cand : ℕ) → hit cand ≡ false → search_from c z (suc n) cand ≡ search_from c z n (cand + 1)
  unfolding search_from
  search_miss n cand e = ground (arith, e)

  -- The result lies in the range, and matches.
  pub search_from-hit :
      (n cand t : ℕ) → search_from c z n cand ≡ some t → (cand ≤ t) × (hit t ≡ true)
  unfolding search_from
  search_from-hit zero cand t e = absurd (cc e)
  search_from-hit (suc n) cand t e = elim (Bool-cases (hit cand)) [
    | inl h ↦ let one : some cand ≡ some t = sym (search_hit n cand h) ∙ e in ground (arith, one, h)
    | inr h ↦
        let (le, g) = search_from-hit n (cand + 1) t (sym (search_miss n cand h) ∙ e) in
        (omega (arith, le), g)
  ]

  -- No minute before the result matches.
  pub search_from-first :
      (n cand t u : ℕ) → search_from c z n cand ≡ some t → cand ≤ u → u < t → hit u ≡ false
  unfolding search_from
  search_from-first zero cand t u e le lt = absurd (cc e)
  search_from-first (suc n) cand t u e le lt = elim (Bool-cases (hit cand)) [
    | inl h ↦
        let one : some cand ≡ some t = sym (search_hit n cand h) ∙ e in
        absurd (ground (arith, one, le, lt))
    | inr h ↦
        let further : search_from c z n (cand + 1) ≡ some t = sym (search_miss n cand h) ∙ e in
        elim (ℕ_discrete cand u) [
          | yes p ↦ subst (λ x. hit x ≡ false) p h
          | no p ↦ search_from-first n (cand + 1) t u further (omega arith) lt
        ]
  ]

  -- A match in the range is enough for a result, no later than it.
  pub search_from-finds :
      (n cand u : ℕ)
      → cand ≤ u
      → u < cand + n
      → hit u ≡ true
      → (t : ℕ) × (search_from c z n cand ≡ some t) × (t ≤ u)
  search_from-finds zero cand u le lt e = absurd (omega arith)
  search_from-finds (suc n) cand u le lt e = elim (Bool-cases (hit cand)) [
    | inl h ↦ (cand, search_hit n cand h, le)
    | inr h ↦ elim (ℕ_discrete cand u) [
      | yes p ↦ absurd (ground (arith, h, e, ap hit p))
      | no p ↦
          let (t, f, g) = search_from-finds n (cand + 1) u (omega arith) (omega arith) e in
          (t, search_miss n cand h ∙ f, g)
    ]
  ]

-- Where the search fails, no minute in its range matches.
search_from-misses :
    (c : Cadence) (z : Zone) (n cand u : ℕ)
    → cand ≤ u
    → u < cand + n
    → search_from c z n cand ≡ none
    → matches c (z.clock u) ≡ false
search_from-misses c z n cand u le lt gone = elim (Bool-cases (matches c (z.clock u))) [
  | inr miss ↦ miss
  | inl hits ↦
      let (t, found, _) = search_from-finds c z n cand u le lt hits in absurd (cc (found, gone))
]

in_minutes :
    (c : Cadence) (z : Zone) (d : Option ℤ) (now : ℕ)
    → d ≡ none
    → (elim d [
      | none ↦ search_from c z max_steps (now + 1)
      | some d ↦ next_monthly c z (pos_part d) now
    ])
      ≡ search_from c z max_steps (now + 1)
in_minutes c z d now e = rw e refl

-- Without a day of the month, `next_after` is the minute search.
pub next_after-search_from :
    (zones : String → Option Zone) (s : Schedule) (z : Zone) (now : ℕ)
    → zones s.tz ≡ some z
    → s.cadence.day_of_month ≡ none
    → next_after zones s now ≡ search_from s.cadence z max_steps (now / 60 + 1)
unfolding next_after
next_after-search_from zones s z now known daily =
    ap (λ o. next_in s.cadence o (now / 60)) known
    ∙ in_minutes s.cadence z s.cadence.day_of_month (now / 60) daily

-- `next_after` answers a cadence that is not monthly with the first minute strictly after `now` that
-- matches it on the zone's wall clock: no earlier minute matches.
pub next_after_is_first :
    (zones : String → Option Zone) (s : Schedule) (z : Zone) (now t u : ℕ)
    → zones s.tz ≡ some z
    → s.cadence.day_of_month ≡ none
    → next_after zones s now ≡ some t
    → now / 60 < u
    → u < t
    → (now < t * 60)
      × (matches s.cadence (z.clock t) ≡ true)
      × (matches s.cadence (z.clock u) ≡ false)
next_after_is_first zones s z now t u known daily e after before =
    let found : search_from s.cadence z max_steps (now / 60 + 1) ≡ some t =
      sym (next_after-search_from zones s z now known daily) ∙ e in
    let (le, hits) = search_from-hit s.cadence z max_steps (now / 60 + 1) t found in
    (
      omega (arith, le),
      hits,
      search_from-first s.cadence z max_steps (now / 60 + 1) t u found (omega (arith, after))
          before,
    )

search_from-none :
    (c : Cadence) (z : Zone) (n cand : ℕ)
    → ((u : ℕ) → cand ≤ u → u < cand + n → matches c (z.clock u) ≡ false)
    → search_from c z n cand ≡ none
unfolding search_from
search_from-none c z zero cand miss = refl
search_from-none c z (suc n) cand miss =
    search_miss c z n cand (miss cand (omega arith) (omega arith))
    ∙ search_from-none c z n (cand + 1) (λ u le lt. miss u (omega (arith, le)) (omega (arith, lt)))

-- For a cadence that is not monthly, in a known zone, `next_after` raises just where none of the
-- 11,580 minutes (eight days and an hour) after the present one matches on the zone's wall clock.
pub search_gives_up :
    (zones : String → Option Zone) (s : Schedule) (z : Zone) (now : ℕ)
    → zones s.tz ≡ some z
    → s.cadence.day_of_month ≡ none
    → (next_after zones s now ≡ none)
      ↔ ((u : ℕ) → now / 60 < u → u ≤ now / 60 + 11580 → matches s.cadence (z.clock u) ≡ false)
search_gives_up zones s z now known daily =
    let searched = next_after-search_from zones s z now known daily in
    (
      λ gone u after before.
          search_from-misses s.cadence z max_steps (now / 60 + 1) u (omega (arith, after))
            (omega (arith, before)) (sym searched ∙ gone),
      λ miss.
          searched
          ∙ search_from-none s.cadence z max_steps (now / 60 + 1)
              (λ u le lt. miss u (omega (arith, le)) (omega (arith, lt))),
    )
