-- ===== src/Schedule/Monthly.antt =====
-- Monthly cadences: the phase of the months, and the fire that is found.
use assist.Base.Integer.{ℤ, pos, negsuc, pos_part}
use assist.Schedule.Defs.{
  Cadence, Schedule, Zone, Anchor, month_of, unreadable, between, anchor_index, is_positive,
  month_index,
}
use assist.Schedule.Cadence.{
  next_after, next_in, next_monthly, from_phase, first_fire, fire_of, align, phase, search_from,
  max_steps, check_monthly, check_anchor, check_hour, check_weekdays, check_interval, validate,
  Corrective,
}
use native.Mathlib.Nat.{div-add-mod', mod-lt, mul-mod_left}
use assist.Base.{
  ℕ, zero, suc, ◌+◌, ◌-◌, ◌*◌, ◌/◌, ◌%◌, ◌≤◌, ◌<◌, max, String, true, ◌≡◌, refl, sym, ap, ◌∙◌,
  Option, none, some, List, [], ◌∷◌, inl, inr, Bool-cases, arith, ◌==◌, ltb, leb, ◌&&◌, if_true,
}

-- Some step from `x` on, below `n`, is a multiple of `n`.
next_multiple : (x n : ℕ) → 0 < n → (j : ℕ) × (j < n) × ((x + j) % n ≡ 0)
next_multiple x n p = elim (Bool-cases (x % n == 0)) [
  | inl e ↦ let still : x + 0 ≡ x = omega arith in (0, p, ap (λ y. y % n) still ∙ ground (arith, e))
  | inr e ↦
      let up : x + (n - x % n) ≡ (x / n + 1) * n = omega (arith, div-add-mod' x n, mod-lt x p) in
      (n - x % n, ground (arith, e, p), ap (λ y. y % n) up ∙ mul-mod_left (x / n + 1) n)
]

align_reaches :
    (fuel start a n j : ℕ)
    → j < fuel
    → a ≤ start
    → (start - a + j) % n ≡ 0
    → (start ≤ align fuel start a n)
      × (align fuel start a n ≤ start + j)
      × ((align fuel start a n - a) % n ≡ 0)
unfolding align
align_reaches zero start a n j lt le e = absurd (omega arith)
align_reaches (suc fuel) start a n zero lt le e =
    let now : (start - a) % n ≡ 0 = ap (λ y. y % n) (omega arith) ∙ e in ground (arith, now)
align_reaches (suc fuel) start a n (suc j) lt le e =
    let shifted : (start + 1 - a + j) % n ≡ 0 = ap (λ y. y % n) (omega (arith, le)) ∙ e in
    ground (arith, align_reaches fuel (start + 1) a n j (omega arith) (omega arith) shifted, le)

-- The month that `align` finds: in phase, and the first such from `start` on.
pub align_phase :
    (start a n : ℕ)
    → 0 < n
    → a ≤ start
    → (q : ℕ) × (align n start a n ≡ a + q * n)
      × (start ≤ align n start a n)
      × (align n start a n < start + n)
align_phase start a n p le =
    let (j, lt, e) = next_multiple (start - a) n p in
    let (above, below, multiple) = align_reaches n start a n j lt le e in
    let r = align n start a n in
    (
      (r - a) / n,
      omega (arith, div-add-mod' (r - a) n, multiple, above, le),
      above,
      omega (arith, below, lt),
    )

-- In the years that it is asked about, a zone has an instant for each wall clock, and one in a later
-- month is at a later instant.
abbrev pub MonthsInOrder : Zone → Type 0
MonthsInOrder z =
    (year month day hour minute : ℕ)
    → 1971 ≤ year
    → year ≤ 9998
    → (t : ℕ) × (z.fire year month day hour minute ≡ some t)
      × ((u : ℕ) → month_index (z.clock u).year (z.clock u).month < month_index year month → u < t)

-- A month of those years fires, and after every instant of an earlier month.
fire_of-later :
    (c : Cadence) (z : Zone) (day idx : ℕ)
    → MonthsInOrder z
    → 1971 * 12 ≤ idx
    → idx < 9999 * 12
    → (t : ℕ) × (fire_of c z day idx ≡ some t)
      × ((u : ℕ) → month_index (z.clock u).year (z.clock u).month < idx → u < t)
unfolding fire_of
fire_of-later c z day idx order from below =
    let year : (leb 1 (idx / 12) && leb (idx / 12) 9999) ≡ true = ground (arith, from, below) in
    let (t, fires, later) =
      order (idx / 12) (idx % 12 + 1) _ _ _ (omega (arith, from)) (omega (arith, below)) in
    (t, if_true _ _ year ∙ fires, λ u lt. later u (omega (arith, lt)))

-- Of two months to try, which fire, the second of them after `now`, one is found.
first_fire-finds :
    (c : Cadence) (z : Zone) (day left idx now t u : ℕ)
    → fire_of c z day idx ≡ some t
    → fire_of c z day (idx + pos_part c.month_interval) ≡ some u
    → now < u
    → (k : ℕ) × (v : ℕ) × (first_fire c z day (suc (suc left)) idx now ≡ some v)
      × (fire_of c z day (idx + k * pos_part c.month_interval) ≡ some v)
      × (now < v)
unfolding first_fire
first_fire-finds c z day left idx now t u e f later = elim (Bool-cases (ltb now t)) [
  | inl h ↦
      let here : idx + 0 * pos_part c.month_interval ≡ idx = omega arith in
      (0, t, ground (arith, e, h), rw here e, ground (arith, h))
  | inr h ↦
      let next : idx + 1 * pos_part c.month_interval ≡ idx + pos_part c.month_interval =
        omega arith in
      (1, u, ground (arith, e, f, h, later), rw next f, later)
]

from_phase-fires :
    (c : Cadence) (z : Zone) (day now a : ℕ)
    → MonthsInOrder z
    → is_positive c.month_interval ≡ true
    → let n = pos_part c.month_interval in
      let m = month_index (z.clock now).year (z.clock now).month in
      1971 * 12 ≤ m
      → max m a + 2 * n ≤ 9999 * 12
      → (q : ℕ) × (t : ℕ) × (from_phase c z day now m (some a) ≡ some t)
        × (fire_of c z day (a + q * n) ≡ some t)
        × (m ≤ a + q * n)
        × (now < t)
unfolding from_phase
from_phase-fires c z day now a order p from ends =
    let n = pos_part c.month_interval in
    let m = month_index (z.clock now).year (z.clock now).month in
    let positive : 0 < n = is_positive-lt c.month_interval p in
    let start = max m a in
    let (q, in_phase, above, below) = align_phase start a n positive (omega arith) in
    let r = align n start a n in
    let (t, e, _) =
      fire_of-later c z day r order (omega (arith, from, above)) (omega (arith, below, ends)) in
    let (u, f, later) =
      fire_of-later c z day (r + n) order (omega (arith, from, above))
        (omega (arith, below, ends)) in
    let (k, v, found, fires, after) =
      first_fire-finds c z day 1 r now t u e f (later now (omega (arith, above, positive))) in
    let month : r + k * n ≡ a + (q + k) * n = omega (arith, in_phase) in
    (
      q + k,
      v,
      found,
      ap (λ i. fire_of c z day i) (sym month) ∙ fires,
      omega (arith, above, month),
      after,
    )
  where
    is_positive-lt : (i : ℤ) → is_positive i ≡ true → 0 < pos_part i
    is_positive-lt (pos i) e = ground (arith, e)
    is_positive-lt (negsuc i) e = absurd (cc e)

valid-positive :
    (c : Cadence) (d : ℤ) → check_monthly c (some d) ≡ none → is_positive c.month_interval ≡ true
unfolding between
valid-positive c d e = ground (arith, e)

valid-anchor :
    (c : Cadence) (d : ℤ) → check_monthly c (some d) ≡ none → check_anchor c.anchor_month ≡ none
unfolding between
valid-anchor c d e = ground (arith, e)

checked_phase : (o : Option Anchor) (m : ℕ) → check_anchor o ≡ none → (a : ℕ) × (phase o m ≡ some a)
unfolding anchor_index
checked_phase none m e = (m, refl)
checked_phase (some (unreadable s)) m e = absurd (cc e)
checked_phase (some (month_of y k)) m e = elim (Bool-cases (leb 1 k && leb k 12)) [
  | inl f ↦ (month_index y k, rw f refl)
  | inr f ↦ absurd (ground (arith, e, f))
]

monthly-checked : (c : Cadence) → validate c ≡ none → check_monthly c c.day_of_month ≡ none
unfolding validate
monthly-checked c e =
    let k : check_hour c.hour (
          check_weekdays c.weekdays
            (check_interval c.every_n_minutes c.hour (check_monthly c c.day_of_month)))
        ≡ none =
      ground (arith, e) in
    ended c.every_n_minutes c.hour _ (past_weekdays c.weekdays _ (past_hour c.hour _ k))
  where
    past_hour : (o : Option ℤ) (k : Option Corrective) → check_hour o k ≡ none → k ≡ none
    past_hour none k e = e
    past_hour (some h) k e = ground (arith, e)

    past_weekdays :
        (o : Option (List ℤ)) (k : Option Corrective) → check_weekdays o k ≡ none → k ≡ none
    past_weekdays none k e = e
    past_weekdays (some []) k e = absurd (cc e)
    past_weekdays (some (d ∷ ds)) k e = ground (arith, e)

    ended : (o h : Option ℤ) (k : Option Corrective) → check_interval o h k ≡ none → k ≡ none
    ended none h k e = e
    ended (some n) h k e = ground (arith, e)

in_months :
    (c : Cadence) (z : Zone) (o : Option ℤ) (d : ℤ) (now : ℕ)
    → o ≡ some d
    → (elim o [
      | none ↦ search_from c z max_steps (now + 1)
      | some e ↦ next_monthly c z (pos_part e) now
    ])
      ≡ next_monthly c z (pos_part d) now
in_months c z o d now e = rw e refl

-- A validated monthly cadence has a next fire, in a zone that has an instant for each wall clock of
-- the years 1971 to 9998, a later one for a later month, if the present local year is 1971 or later,
-- and the later of the present month and the anchor's, with two intervals added, is not past the end
-- of the year 9998. The fire is strictly after `now`, in a month that is not before the present local
-- one and is a whole number of intervals after the anchor's month (the present one where there is no
-- anchor), on the day of the month or the month's last.
pub monthly_fires :
    (zones : String → Option Zone) (s : Schedule) (z : Zone) (d : ℤ) (now : ℕ)
    → zones s.tz ≡ some z
    → MonthsInOrder z
    → s.cadence.day_of_month ≡ some d
    → validate s.cadence ≡ none
    → let c = s.cadence in
      let m = month_index (z.clock (now / 60)).year (z.clock (now / 60)).month in
      let n = pos_part c.month_interval in
      1971 * 12 ≤ m
      → ((a : ℕ) → phase c.anchor_month m ≡ some a → max m a + 2 * n ≤ 9999 * 12)
      → (a : ℕ) × (q : ℕ) × (t : ℕ) × (next_after zones s now ≡ some t)
        × (phase c.anchor_month m ≡ some a)
        × (fire_of c z (pos_part d) (a + q * n) ≡ some t)
        × (m ≤ a + q * n)
        × (now < t * 60)
unfolding next_after next_monthly
monthly_fires zones s z d now known order monthly valid from ends =
    let c = s.cadence in
    let ok : check_monthly c (some d) ≡ none =
      ap (check_monthly c) (sym monthly) ∙ monthly-checked c valid in
    let m = month_index (z.clock (now / 60)).year (z.clock (now / 60)).month in
    let (a, starts) = checked_phase c.anchor_month m (valid-anchor c d ok) in
    let (q, t, found, fires, no_earlier, after) =
      from_phase-fires c z (pos_part d) (now / 60) a order (valid-positive c d ok) from
        (ends a starts) in
    (
      a,
      q,
      t,
      ap (λ o. next_in c o (now / 60)) known
          ∙ in_months c z c.day_of_month d (now / 60) monthly
          ∙ ap (from_phase c z (pos_part d) (now / 60) m) starts
          ∙ found,
      starts,
      fires,
      no_earlier,
      omega (arith, after),
    )
