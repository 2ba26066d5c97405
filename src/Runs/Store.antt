-- ===== src/Runs/Store.antt =====
-- The files of the store: a directory for each thread, with `runs.json` and the `.subagent` marker.
use assist.Base.Dict
use assist.Base.Dict.{Dict}
use assist.Runs.Defs.{Run, reload}
use assist.Base.{
  String, Bool, false, not, ◌||◌, ◌==◌, Option, none, some, List, [], map, same, if◌then◌else◌,
}
use Prim.Native.Char.{code}

pub data RunError : Type 0 where
  -- RunNotFound
  not_found : RunError
  -- InvalidRunTransition
  bad_transition not_pending running_work history_limit pending_limit : RunError
  -- ValueError
  assistant_required negative_active child_fields child_thread_name turn_parents : RunError
  visible_thread dispatch_conflict run_exists legacy_thread legacy_conflict : RunError
  -- OSError of the write
  io_error : RunError

pub data Result {ℓ} (A : Type ℓ) : Type ℓ where
  ok : A → Result A
  err : RunError → Result A

-- A thread's directory: whether it has the marker, whether it has other files, and its runs.
pub record Directory : Type 0 where
  pub marker : Bool
  pub others : Bool
  pub runs : Option (List Run)

abbrev pub Disk : Type 0
Disk = Dict Directory

-- What a call reads from outside: the time, `uuid4().hex`, and whether its write goes through.
pub record Env : Type 0 where
  pub now : String
  pub fresh_id : String
  pub writes : Bool

abbrev pub has_separator : String → Bool
has_separator String.[] = false
has_separator (String.◌∷◌ c s) = code c == b'/' || has_separator s

-- `_path`: a thread id is one path segment
unfoldable pub is_segment : String → Bool
is_segment tid = not (same tid "" || same tid "." || same tid ".." || has_separator tid)

abbrev pub stored : Option Directory → List Run
stored none = []
stored (some d) = elim d.runs [ none ↦ [] | some rs ↦ map reload rs ]

-- _read
unfoldable pub read : String → Disk → Result (List Run)
read tid disk = if is_segment tid then ok (stored (Dict.get tid disk)) else err not_found

abbrev pub with_runs : List Run → Directory → Directory
with_runs rs d = record d { runs = some rs }

-- _write: the directory has to be there
unfoldable pub write : Env → String → List Run → Disk → Option Disk
write env tid rs disk = elim (Dict.get tid disk) [
  | none ↦ none
  | some d ↦ if env.writes then some (Dict.put tid (with_runs rs d) disk) else none
]
