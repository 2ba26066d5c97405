-- ===== src/Schedule/Examples.antt =====
-- Schedules in concrete zones, and the theorems about them at concrete inputs.
use assist.Base.Integer.{pos}
use assist.Schedule.Defs
use assist.Schedule.Defs.{Cadence, Schedule, Local, Zone, Anchor, month_of, month_index}
use assist.Schedule.Cadence.{matches, validate, next_after, fire_of, phase, search_from}
use assist.Schedule.Search.{next_after_is_first, search_gives_up}
use assist.Schedule.Bound.{Fixed, search_is_enough}
use assist.Schedule.Monthly.{MonthsInOrder, monthly_fires}
use assist.Schedule.Scheduler.{Scheduler, poll, finish_wakeup}
use assist.Schedule.Polling.{Ahead, poll-Ahead}
use assist.Schedule.Overlap.{OneEach, Reach, here, next, finishing, editing, poll-Reach, no_overlap}
use assist.Base.{
  ℕ, ◌+◌, ◌-◌, ◌*◌, ◌/◌, ◌%◌, ◌≤◌, ◌<◌, String, Bool, true, false, ◌≡◌, refl, Option, none, some,
  [], ◌∷◌, arith, ltb, if◌then◌else◌, max, ◌↔◌,
}

-- The wall clock that shows the local minute `v`, in a calendar with months of thirty days.
abbrev show : ℕ → Local
show v = record {
  year = v / 43200 / 12 + 1970;
  month = (v / 43200) % 12 + 1;
  weekday = (v / 1440 + 3) % 7;
  hour = (v / 60) % 24;
  minute = v % 60;
}

abbrev wall : ℕ → ℕ → ℕ → ℕ → ℕ → Option ℕ
wall year month day hour minute =
    some ((month_index year month - 1970 * 12) * 43200 + (day - 1) * 1440 + hour * 60 + minute)

-- A zone on UTC.
abbrev greenwich : Zone
greenwich = record { clock = show; fire = wall }

-- Five hours behind UTC, and four from a Sunday's 02:00 on, which the clock shows as 03:00.
abbrev new_york : Zone
new_york = record {
  clock = λ u. if ltb u 24900 then show (u - 300) else show (u - 240);
  fire = wall;
}

abbrev zones : String → Option Zone
zones name = some greenwich

abbrev american : String → Option Zone
american name = some new_york

abbrev schedule : Cadence → Schedule
schedule c = record {
  id = "s1";
  thread_id = "t1";
  prompt = "water the plants";
  cadence = c;
  tz = "UTC";
  enabled = true;
  next_fire_at = none;
  created_at = none;
}

abbrev quarterly_hour : Cadence
quarterly_hour = record {
  minute = pos 0;
  hour = none;
  weekdays = none;
  every_n_minutes = some (pos 15);
  day_of_month = none;
  month_interval = pos 1;
  anchor_month = none;
}

abbrev sundays : Cadence
sundays = record quarterly_hour {
  minute = pos 30;
  hour = some (pos 2);
  weekdays = some (pos 6 ∷ []);
  every_n_minutes = none;
}

abbrev quarterly : Cadence
quarterly = record quarterly_hour {
  every_n_minutes = none;
  hour = some (pos 7);
  day_of_month = some (pos 31);
  month_interval = pos 3;
  anchor_month = some (month_of 1970 2);
}

quarter_run : next_after zones (schedule quarterly_hour) 0 ≡ some 15
unfolding next_after search_from matches
quarter_run = refl

next_after_is_first_example :
    (0 < 15 * 60)
    × (matches quarterly_hour (show 15) ≡ true)
    × (matches quarterly_hour (show 3) ≡ false)
next_after_is_first_example =
    next_after_is_first zones (schedule quarterly_hour) greenwich 0 15 3 refl refl quarter_run
      (ground arith) (ground arith)

-- Sunday at 02:30: the next one is skipped by the clock, and the search ends before the one after.
skipped :
    (u : ℕ) → 891000 / 60 < u → u ≤ 891000 / 60 + 11580 → matches sundays (new_york.clock u) ≡ false
unfolding matches
skipped u after before = ground (arith, after, before)

search_gives_up_example : (next_after american (schedule sundays) 891000 ≡ none) ↔ (
    (u : ℕ)
    → 891000 / 60 < u
    → u ≤ 891000 / 60 + 11580
    → matches sundays (new_york.clock u) ≡ false)
search_gives_up_example = search_gives_up american (schedule sundays) new_york 891000 refl refl

skipped_week : next_after american (schedule sundays) 891000 ≡ none
skipped_week = (search_gives_up american (schedule sundays) new_york 891000 refl refl).1 skipped

greenwich-Fixed : Fixed greenwich 0
greenwich-Fixed = record {
  weekday = λ u. omega arith;
  hour = λ u. omega arith;
  minute = λ u. omega arith;
}

sundays_valid : validate sundays ≡ none
unfolding validate Defs.between
sundays_valid = refl

search_is_enough_example :
    (t : ℕ) × (next_after zones (schedule sundays) 891000 ≡ some t) × (t ≤ 891000 / 60 + 10080)
search_is_enough_example =
    search_is_enough zones (schedule sundays) greenwich 891000 0 refl greenwich-Fixed refl
      sundays_valid

greenwich-MonthsInOrder : MonthsInOrder greenwich
greenwich-MonthsInOrder year month day hour minute from until =
    (_, refl, λ u lt. omega (arith, from, lt))

quarterly_valid : validate quarterly ≡ none
unfolding validate Defs.between Defs.anchor_index
quarterly_valid = refl

-- The anchor is February 1970, and the present month is January 1971.
quarterly_ends :
    (a : ℕ) → phase quarterly.anchor_month 23652 ≡ some a → max 23652 a + 2 * 3 ≤ 9999 * 12
unfolding Defs.anchor_index
quarterly_ends a e = ground (arith, e)

monthly_fires_example :
    (a : ℕ) × (q : ℕ) × (t : ℕ) × (next_after zones (schedule quarterly) 31104000 ≡ some t)
    × (phase quarterly.anchor_month 23652 ≡ some a)
    × (fire_of quarterly greenwich 31 (a + q * 3) ≡ some t)
    × (23652 ≤ a + q * 3)
    × (31104000 < t * 60)
monthly_fires_example =
    monthly_fires zones (schedule quarterly) greenwich (pos 31) 31104000 refl
      greenwich-MonthsInOrder refl quarterly_valid (omega arith) quarterly_ends

abbrev hourly : Schedule
hourly = record (schedule quarterly_hour) { next_fire_at = some 0 }

abbrev awake : Scheduler
awake = record {
  root = ("t1", some (hourly ∷ record hourly { id = "s2" } ∷ [])) ∷ [];
  inflight = [];
  submitted = [];
}

abbrev writes : String → Bool
writes tid = true

poll-Ahead_example : Ahead zones writes 0 true awake.submitted (poll zones writes 0 true awake)
poll-Ahead_example = poll-Ahead zones writes 0 true awake

-- Two polls, with the worker at the first wakeup between them, and the files written anew.
abbrev later : Scheduler
later =
    poll zones writes 90000 true
      (record (finish_wakeup (poll zones writes 0 true awake)) { root = awake.root })

later-Reach : Reach zones writes awake later
later-Reach =
    poll-Reach zones writes 90000 true awake _
      (next (next (poll-Reach zones writes 0 true awake awake here) finishing) (editing awake.root))

no_overlap_example : OneEach later
no_overlap_example =
    no_overlap zones writes awake later record { claimed = refl; distinct = tt } later-Reach
