-- ===== src/Runs/Defs.antt =====
-- `Run`, its states and the transitions between them. A float of milliseconds is a whole number of
-- them; a JSON object is the list of its keys, in a fixed order, with the texts of their values, so
-- that equal dicts are equal lists.
use assist.Base.{
  ℕ, String, Bool, true, false, Option, none, some, List, ◌∷◌, same, if◌then◌else◌, String-discrete,
}
use native.Mathlib.Decide.{ℕ_discrete}

-- RunStatus
pub data Status : Type 0 where
  pending running success error timeout interrupted cancelled : Status

-- RunMode
pub data Mode : Type 0 where
  turn child : Mode

unfoldable pub Status-discrete : Discrete Status
Status-discrete = hlevel

unfoldable pub Mode-discrete : Discrete Mode
Mode-discrete = hlevel

abbrev pub is_status : Status → Status → Bool
is_status s t = elim (Status-discrete s t) [ yes _ ↦ true | no _ ↦ false ]

abbrev pub is_mode : Mode → Mode → Bool
is_mode s t = elim (Mode-discrete s t) [ yes _ ↦ true | no _ ↦ false ]

-- a `dict` of JSON values
abbrev pub JsonObject : Type 0
JsonObject = List (String × String)

pub record Run : Type 0 where
  pub thread_id : String
  pub assistant_id : String
  pub text : Option String
  pub id : String
  pub work_id : String
  pub status : Status
  pub mode : Mode
  pub parent_thread_id : Option String
  pub parent_run_id : Option String
  pub dispatch_key : Option String
  pub sender : Option String
  pub rider : Option JsonObject
  pub origin : Option String
  pub resume : Bool
  pub resume_decision : Option JsonObject
  pub pending_text : Option String
  pub active_ms : ℕ
  pub consumed_by : Option String
  pub error : Option String
  pub result : Option String
  pub multitask_strategy : String
  pub created_at : String
  pub updated_at : String
  pub delegate_user_urls : List String

unfoldable pub Run-discrete : Discrete Run
unfolding String-discrete ℕ_discrete
Run-discrete = hlevel (String-discrete, ℕ_discrete)

unfoldable pub Text-discrete : Discrete (Option String)
unfolding String-discrete
Text-discrete = hlevel String-discrete

unfoldable pub Object-discrete : Discrete (Option JsonObject)
unfolding String-discrete
Object-discrete = hlevel String-discrete

abbrev pub same_text : Option String → Option String → Bool
same_text s t = elim (Text-discrete s t) [ yes _ ↦ true | no _ ↦ false ]

-- `value or None`
abbrev pub or_none : Option String → Option String
or_none none = none
or_none (some s) = if same s "" then none else some s

abbrev pub object_or_none : Option JsonObject → Option JsonObject
object_or_none (some (x ∷ xs)) = some (x ∷ xs)
object_or_none _ = none

-- What `Run.from_dict` makes of the object that `to_dict` wrote.
unfoldable pub reload : Run → Run
reload r = record r {
  work_id = if same r.work_id "" then r.id else r.work_id;
  parent_thread_id = or_none r.parent_thread_id;
  parent_run_id = or_none r.parent_run_id;
  dispatch_key = or_none r.dispatch_key;
  sender = or_none r.sender;
  rider = object_or_none r.rider;
  origin = or_none r.origin;
  resume_decision = object_or_none r.resume_decision;
  consumed_by = or_none r.consumed_by;
  error = or_none r.error;
  result = or_none r.result;
}

-- _TRANSITIONS
unfoldable pub may_become : Status → Status → Bool
may_become pending running = true
may_become pending success = true
may_become pending timeout = true
may_become pending cancelled = true
may_become running pending = true
may_become running success = true
may_become running error = true
may_become running timeout = true
may_become running interrupted = true
may_become running cancelled = true
may_become interrupted cancelled = true
may_become _ _ = false

-- TERMINAL_STATUSES
unfoldable pub is_terminal : Status → Bool
is_terminal pending = false
is_terminal running = false
is_terminal _ = true
