-- ===== src/Schedule/Bound.antt =====
-- The search of eight days is long enough where the zone's clock is not changed.
use assist.Base.Integer.{ℤ, pos, negsuc}
use assist.Schedule.Defs.{Cadence, Schedule, Local, Zone, is_number, between}
use assist.Schedule.Cadence.{
  matches, max_steps, validate, on_weekday, at_hour, at_time, next_after, check_hour,
  check_weekdays, check_interval, check_monthly, Corrective,
}
use assist.Schedule.Search.{search_from-finds, next_after-search_from}
use native.Mathlib.Nat.{zero-mod}
use assist.Base.{
  ℕ, suc, ◌+◌, ◌-◌, ◌*◌, ◌/◌, ◌%◌, ◌≤◌, ◌<◌, String, true, ◌≡◌, refl, ap, ◌∙◌, Option, none, some,
  List, [], ◌∷◌, arith,
}

-- The zone's clock is at a fixed offset (taken modulo a week) from UTC.
pub record Fixed (z : Zone) (offset : ℕ) : Type 0 where
  pub weekday : (u : ℕ) → (z.clock u).weekday ≡ ((u + offset) / 1440 + 3) % 7
  pub hour : (u : ℕ) → (z.clock u).hour ≡ ((u + offset) / 60) % 24
  pub minute : (u : ℕ) → (z.clock u).minute ≡ (u + offset) % 60

-- A time of the week, as `matches` wants it.
record Target (c : Cadence) : Type 0 where
  weekday : ℕ
  hour : ℕ
  minute : ℕ
  weekday_lt : weekday < 7
  hour_lt : hour < 24
  minute_lt : minute < 60
  day : on_weekday c.weekdays weekday ≡ true
  time : (l : Local) → l.hour ≡ hour → l.minute ≡ minute → at_time c c.every_n_minutes l ≡ true

-- The week's minute `m` comes within a week.
recurs :
    (n offset m : ℕ) → m < 10080 → (u : ℕ) × (n < u) × (u ≤ n + 10080) × ((u + offset) % 10080 ≡ m)
recurs n offset m lt =
    let start = n + offset + 1 in
    let wait = (m + 10080 - start % 10080) % 10080 in
    (n + 1 + wait, omega arith, omega arith, omega arith)

-- The wall clock at the minute of the week that belongs to a weekday, an hour and a minute.
decompose :
    (v d h m : ℕ)
    → d < 7
    → h < 24
    → m < 60
    → v % 10080 ≡ ((d + 4) % 7) * 1440 + h * 60 + m
    → ((v / 1440 + 3) % 7 ≡ d) × ((v / 60) % 24 ≡ h) × (v % 60 ≡ m)
decompose v d h m dl hl ml e = (omega arith, omega arith, omega arith)

some_weekday :
    (ds : Option (List ℤ)) (k : Option Corrective)
    → check_weekdays ds k ≡ none
    → (d : ℕ) × (d < 7) × (on_weekday ds d ≡ true) × (k ≡ none)
unfolding between
some_weekday none k e = (0, omega arith, refl, e)
some_weekday (some []) k e = absurd (cc e)
some_weekday (some (pos n ∷ ds)) k e = (n, ground (arith, e), ground arith, ground (arith, e))
some_weekday (some (negsuc n ∷ ds)) k e = absurd (ground (arith, e))

some_hour :
    (o : Option ℤ) (k : Option Corrective)
    → check_hour o k ≡ none
    → (h : ℕ) × (h < 24) × (at_hour o h ≡ true) × (k ≡ none)
unfolding between
some_hour none k e = (0, omega arith, refl, e)
some_hour (some (pos n)) k e = (n, ground (arith, e), ground arith, ground (arith, e))
some_hour (some (negsuc n)) k e = absurd (ground (arith, e))

some_minute : (z : ℤ) → between 0 59 z ≡ true → (m : ℕ) × (m < 60) × (is_number m z ≡ true)
unfolding between
some_minute (pos n) e = (n, ground (arith, e), ground arith)
some_minute (negsuc n) e = absurd (cc e)

OnTime : (c : Cadence) (o : Option ℤ) (h m : ℕ) → Type 0
OnTime c o h m = (l : Local) → l.hour ≡ h → l.minute ≡ m → at_time c o l ≡ true

some_time :
    (c : Cadence) (o : Option ℤ) (h m : ℕ)
    → h < 24
    → m < 60
    → at_hour c.hour h ≡ true
    → is_number m c.minute ≡ true
    → (h' : ℕ) × (m' : ℕ) × (h' < 24) × (m' < 60) × OnTime c o h' m'
unfolding OnTime
some_time c none h m hl ml e f = (h, m, hl, ml, λ l p q. rw (p, q) (ground (arith, e, f)))
some_time c (some (pos n)) h m hl ml e f =
    (0, 0, omega arith, omega arith, λ l p q. rw (p, q) (ground (arith, zero-mod n)))
some_time c (some (negsuc n)) h m hl ml e f =
    (0, 0, omega arith, omega arith, λ l p q. rw (p, q) (ground (arith, zero-mod (suc n))))

valid-Target : (c : Cadence) → validate c ≡ none → Target c
unfolding validate OnTime
valid-Target c e =
    let (k, minute_ok) : (check_hour c.hour (
            check_weekdays c.weekdays
              (check_interval c.every_n_minutes c.hour (check_monthly c c.day_of_month)))
          ≡ none)
        × (between 0 59 c.minute ≡ true) =
      (ground (arith, e), ground (arith, e)) in
    let (h, hl, at_h, k2) = some_hour c.hour _ k in
    let (d, dl, on_d, k3) = some_weekday c.weekdays _ k2 in
    let (m, ml, at_m) = some_minute c.minute minute_ok in
    let (h', m', hl', ml', fits) = some_time c c.every_n_minutes h m hl ml at_h at_m in
    record {
      weekday = d;
      hour = h';
      minute = m';
      weekday_lt = dl;
      hour_lt = hl';
      minute_lt = ml';
      day = on_d;
      time = fits;
    }

-- The eight days of the search are enough: a validated cadence that is not monthly, in a zone whose
-- clock is never changed, has a next fire, at most a week on.
pub search_is_enough :
    (zones : String → Option Zone) (s : Schedule) (z : Zone) (now offset : ℕ)
    → zones s.tz ≡ some z
    → Fixed z offset
    → s.cadence.day_of_month ≡ none
    → validate s.cadence ≡ none
    → (t : ℕ) × (next_after zones s now ≡ some t) × (t ≤ now / 60 + 10080)
unfolding matches
search_is_enough zones s z now offset known fixed daily valid =
    let g = valid-Target s.cadence valid in
    let minute = (g.weekday + 4) % 7 * 1440 + g.hour * 60 + g.minute in
    let (u, after, within, hit) =
      recurs (now / 60) offset minute (omega (arith, g.weekday_lt, g.hour_lt, g.minute_lt)) in
    let (d, h, m) =
      decompose (u + offset) g.weekday g.hour g.minute g.weekday_lt g.hour_lt g.minute_lt hit in
    let day : on_weekday s.cadence.weekdays (z.clock u).weekday ≡ true =
      ap (on_weekday s.cadence.weekdays) (fixed.weekday u ∙ d) ∙ g.day in
    let time : at_time s.cadence s.cadence.every_n_minutes (z.clock u) ≡ true =
      g.time (z.clock u) (fixed.hour u ∙ h) (fixed.minute u ∙ m) in
    let (t, found, le) =
      search_from-finds s.cadence z max_steps (now / 60 + 1) u (omega (arith, after))
        (omega (arith, within)) (rw (day, time) refl) in
    (t, next_after-search_from zones s z now known daily ∙ found, omega (arith, le, within))
