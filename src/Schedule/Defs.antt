-- ===== src/Schedule/Defs.antt =====
-- `Cadence` and `Schedule`, and what the time zones are asked for. An instant is in whole minutes of
-- UTC from a fixed Thursday's midnight (1970), where the code has cut the seconds off.
use assist.Base.Integer.{ℤ, pos, negsuc}
use assist.Base.{
  ℕ, ◌+◌, ◌*◌, ◌-◌, String, Bool, false, ◌&&◌, Option, none, some, List, leb, ◌==◌, if◌then◌else◌,
}

-- `anchor_month`, by what `split` and `int` make of it.
pub data Anchor : Type 0 where
  month_of : ℕ → ℕ → Anchor
  -- not two numbers, joined by a dash
  unreadable : String → Anchor

pub record Cadence : Type 0 where
  pub minute : ℤ
  pub hour : Option ℤ
  pub weekdays : Option (List ℤ)
  pub every_n_minutes : Option ℤ
  pub day_of_month : Option ℤ
  pub month_interval : ℤ
  pub anchor_month : Option Anchor

pub record Schedule : Type 0 where
  pub id : String
  pub thread_id : String
  pub prompt : String
  pub cadence : Cadence
  pub tz : String
  pub enabled : Bool
  pub next_fire_at : Option ℕ
  pub created_at : Option ℕ

-- The wall clock of a zone.
pub record Local : Type 0 where
  pub year : ℕ
  pub month : ℕ
  pub weekday : ℕ
  pub hour : ℕ
  pub minute : ℕ

-- A zone: its wall clock at an instant, and the instant of a wall clock's year, month, day, hour
-- and minute, which is none where the conversion to UTC raises.
pub record Zone : Type 0 where
  pub clock : ℕ → Local
  pub fire : ℕ → ℕ → ℕ → ℕ → ℕ → Option ℕ

-- lo <= z <= hi
unfoldable pub between : ℕ → ℕ → ℤ → Bool
between lo hi (pos n) = leb lo n && leb n hi
between lo hi (negsuc n) = false

abbrev pub is_number : ℕ → ℤ → Bool
is_number k (pos n) = n == k
is_number k (negsuc n) = false

-- z >= 1
abbrev pub is_positive : ℤ → Bool
is_positive (pos n) = leb 1 n
is_positive (negsuc n) = false

-- _month_index
abbrev pub month_index : ℕ → ℕ → ℕ
month_index year month = (year * 12 + month) - 1

-- _anchor_index; none where it raises
unfoldable pub anchor_index : Anchor → Option ℕ
anchor_index (month_of y m) = if leb 1 m && leb m 12 then some (month_index y m) else none
anchor_index (unreadable s) = none
