-- ===== src/Schedule/Cadence.antt =====
-- The cadence engine.
use assist.Base.Integer.{ℤ, pos, negsuc, pos_part}
use assist.Schedule.Defs.{
  Anchor, month_of, unreadable, Cadence, Schedule, Local, Zone, between, is_number, is_positive,
  month_index, anchor_index,
}
use assist.Base.{
  ℕ, zero, suc, ◌+◌, ◌-◌, ◌*◌, ◌/◌, ◌%◌, min, max, String, Bool, true, false, not, ◌&&◌, ◌||◌,
  Option, none, some, List, [], ◌∷◌, ltb, ◌==◌, any, same, is_some, leb, if◌then◌else◌,
}

-- The messages of InvalidCadence in `validate`.
pub data Corrective : Type 0 where
  minute_range hour_range no_weekdays weekday_range interval_with_hour interval_range : Corrective
  day_range mixed_monthly month_interval_range bad_anchor stray_month_interval : Corrective

abbrev pub every : (ℤ → Bool) → List ℤ → Bool
every p [] = true
every p (z ∷ zs) = p z && every p zs

abbrev pub check_hour : Option ℤ → Option Corrective → Option Corrective
check_hour none k = k
check_hour (some h) k = if between 0 23 h then k else some hour_range

abbrev pub check_weekdays : Option (List ℤ) → Option Corrective → Option Corrective
check_weekdays none k = k
check_weekdays (some []) k = some no_weekdays
check_weekdays (some (d ∷ ds)) k = if every (between 0 6) (d ∷ ds) then k else some weekday_range

abbrev pub check_interval : Option ℤ → Option ℤ → Option Corrective → Option Corrective
check_interval none hour k = k
check_interval (some n) hour k =
    if is_some hour
    then some interval_with_hour
    else if between 1 1440 n
    then k
    else some interval_range

abbrev pub check_anchor : Option Anchor → Option Corrective
check_anchor none = none
check_anchor (some a) = if is_some (anchor_index a) then none else some bad_anchor

abbrev pub check_monthly : Cadence → Option ℤ → Option Corrective
check_monthly c none = if is_number 1 c.month_interval then none else some stray_month_interval
check_monthly c (some d) =
    if not (between 1 31 d)
    then some day_range
    else if is_some c.weekdays || is_some c.every_n_minutes
    then some mixed_monthly
    else if not (is_positive c.month_interval)
    then some month_interval_range
    else check_anchor c.anchor_month

-- validate: none where it returns
unfoldable pub validate : Cadence → Option Corrective
validate c =
    if not (between 0 59 c.minute)
    then some minute_range
    else check_hour c.hour (
        check_weekdays c.weekdays
          (check_interval c.every_n_minutes c.hour (check_monthly c c.day_of_month)))

abbrev pub on_weekday : Option (List ℤ) → ℕ → Bool
on_weekday none d = true
on_weekday (some ds) d = any (is_number d) ds

abbrev pub at_hour : Option ℤ → ℕ → Bool
at_hour none h = true
at_hour (some z) h = is_number h z

-- `m % n == 0`; `validate` refuses n = 0, on which Python raises
abbrev pub divides : ℤ → ℕ → Bool
divides (pos n) m = m % n == 0
divides (negsuc n) m = m % suc n == 0

abbrev pub at_time : Cadence → Option ℤ → Local → Bool
at_time c (some n) l = divides n (l.hour * 60 + l.minute)
at_time c none l = is_number l.minute c.minute && at_hour c.hour l.hour

-- _matches
unfoldable pub matches : Cadence → Local → Bool
matches c l = on_weekday c.weekdays l.weekday && at_time c c.every_n_minutes l

-- _MAX_STEPS
abbrev pub max_steps : ℕ
max_steps = 11580

-- The minute search of `next_after`; none where it raises.
unfoldable pub search_from : Cadence → Zone → ℕ → ℕ → Option ℕ
search_from c z zero cand = none
search_from c z (suc steps) cand = elim (matches c (z.clock cand)) [
  | true ↦ some cand
  | false ↦ search_from c z steps (cand + 1)
]

abbrev pub is_leap : ℕ → Bool
is_leap y = y % 4 == 0 && (not (y % 100 == 0) || y % 400 == 0)

-- calendar.monthrange(year, month)[1]
abbrev pub month_length : ℕ → ℕ → ℕ
month_length y m =
    if m == 2
    then if is_leap y then 29 else 28
    else if m == 4 || m == 6 || m == 9 || m == 11
    then 30
    else 31

-- `while (start - anchor_idx) % interval != 0: start += 1`, on fuel
unfoldable pub align : ℕ → ℕ → ℕ → ℕ → ℕ
align zero start anchor interval = start
align (suc fuel) start anchor interval =
    let rest = align fuel (start + 1) anchor interval in
    if (start - anchor) % interval == 0 then start else rest

-- `cad.hour or 0`
abbrev pub hour_of : Option ℤ → ℕ
hour_of none = 0
hour_of (some h) = pos_part h

-- datetime.MAXYEAR
abbrev pub max_year : ℕ
max_year = 9999

-- The instant at which the cadence fires in a month, for its day of the month; none where
-- `datetime` raises.
unfoldable pub fire_of : Cadence → Zone → ℕ → ℕ → Option ℕ
fire_of c z day idx =
    let year = idx / 12 in
    let month = idx % 12 + 1 in
    if leb 1 year && leb year max_year
    then z.fire year month (min day (month_length year month)) (hour_of c.hour) (pos_part c.minute)
    else none

-- `for k in range(3)`; none where a month raises, and where none of them is in the future
unfoldable pub first_fire : Cadence → Zone → ℕ → ℕ → ℕ → ℕ → Option ℕ
first_fire c z day zero idx now = none
first_fire c z day (suc left) idx now =
    let rest = first_fire c z day left (idx + pos_part c.month_interval) now in
    elim (fire_of c z day idx) [ none ↦ none | some t ↦ if ltb now t then some t else rest ]

-- `_anchor_index(cad.anchor_month) if cad.anchor_month else now_idx`
abbrev pub phase : Option Anchor → ℕ → Option ℕ
phase none now_idx = some now_idx
phase (some (unreadable s)) now_idx = if same s "" then some now_idx else none
phase (some (month_of y m)) now_idx = anchor_index (month_of y m)

unfoldable pub from_phase : Cadence → Zone → ℕ → ℕ → ℕ → Option ℕ → Option ℕ
from_phase c z day now now_idx none = none
from_phase c z day now now_idx (some anchor) =
    let interval = pos_part c.month_interval in
    first_fire c z day 3 (align interval (max now_idx anchor) anchor interval) now

-- _next_monthly
unfoldable pub next_monthly : Cadence → Zone → ℕ → ℕ → Option ℕ
next_monthly c z day now =
    let now_idx = month_index (z.clock now).year (z.clock now).month in
    from_phase c z day now now_idx (phase c.anchor_month now_idx)

abbrev pub next_in : Cadence → Option Zone → ℕ → Option ℕ
next_in c none now = none
next_in c (some z) now = elim c.day_of_month [
  | none ↦ search_from c z max_steps (now + 1)
  | some d ↦ next_monthly c z (pos_part d) now
]

-- `next_after`, with the zones by their names and `now` in seconds
unfoldable pub next_after : (String → Option Zone) → Schedule → ℕ → Option ℕ
next_after zones s seconds = next_in s.cadence (zones s.tz) (seconds / 60)
