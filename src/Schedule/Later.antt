-- ===== src/Schedule/Later.antt =====
-- The next fire of a schedule is after the present instant.
use assist.Base.Integer.{ℤ, pos_part}
use assist.Schedule.Defs.{Cadence, Schedule, Zone}
use assist.Schedule.Cadence.{
  search_from, max_steps, next_after, next_in, next_monthly, from_phase, first_fire, fire_of,
}
use assist.Schedule.Search.{search_from-hit}
use assist.Base.{
  ℕ, zero, suc, ◌+◌, ◌*◌, ◌/◌, ◌<◌, String, ◌≡◌, Option, none, some, ltb, inl, inr, Bool-cases,
  Option-cases, arith,
}

first_fire-after :
    (c : Cadence) (z : Zone) (day left idx now t : ℕ)
    → first_fire c z day left idx now ≡ some t
    → now < t
unfolding first_fire
first_fire-after c z day zero idx now t e = absurd (cc e)
first_fire-after c z day (suc left) idx now t e = elim (Option-cases (fire_of c z day idx)) [
  | inl raised ↦ absurd (ground (arith, e, raised))
  | inr (u, fires) ↦ elim (Bool-cases (ltb now u)) [
    | inl h ↦ ground (arith, e, fires, h)
    | inr h ↦
        first_fire-after c z day left (idx + pos_part c.month_interval) now t
          (ground (arith, e, fires, h))
  ]
]

from_phase-after :
    (c : Cadence) (z : Zone) (day now m t : ℕ) (o : Option ℕ)
    → from_phase c z day now m o ≡ some t
    → now < t
unfolding from_phase
from_phase-after c z day now m t none e = absurd (cc e)
from_phase-after c z day now m t (some a) e = first_fire-after c z day 3 _ now t e

next_in-after : (c : Cadence) (o : Option Zone) (now t : ℕ) → next_in c o now ≡ some t → now < t
unfolding next_monthly
next_in-after c none now t e = absurd (cc e)
next_in-after c (some z) now t e = by_mode c.day_of_month e
  where
    by_mode :
        (d : Option ℤ)
        → (elim d [
          | none ↦ search_from c z max_steps (now + 1)
          | some d ↦ next_monthly c z (pos_part d) now
        ])
          ≡ some t
        → now < t
    by_mode none e = omega (arith, (search_from-hit c z max_steps (now + 1) t e).0)
    by_mode (some d) e = from_phase-after c z (pos_part d) now _ t _ e

pub next_after-after :
    (zones : String → Option Zone) (s : Schedule) (now t : ℕ)
    → next_after zones s now ≡ some t
    → now < t * 60
unfolding next_after
next_after-after zones s now t e =
    omega (arith, next_in-after s.cadence (zones s.tz) (now / 60) t e)
