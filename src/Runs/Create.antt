-- ===== src/Runs/Create.antt =====
-- `RunService.create`.
use text.Mathlib.Text.{starts_with}
use assist.Base.Dict
use assist.Base.Integer.{ℤ, is_negative, pos_part}
use assist.Runs.Defs.{
  pending, running, interrupted, cancelled, Mode, turn, child, is_status, is_mode, JsonObject, Run,
  same_text, object_or_none,
}
use assist.Runs.Store.{
  RunError, assistant_required, negative_active, child_fields, child_thread_name, turn_parents,
  visible_thread, dispatch_conflict, run_exists, running_work, history_limit, pending_limit,
  io_error, Result, ok, err, Directory, Disk, Env, is_segment, read, write,
}
use assist.Base.{
  ℕ, String, Bool, true, false, not, ◌||◌, ◌&&◌, Option, none, some, List, [], ◌∷◌, ◌++◌, map, same,
  if◌then◌else◌, is_some, leb, length, any, find, count_if,
}

-- The arguments of `create`.
pub record NewRun : Type 0 where
  pub thread_id : String
  pub assistant_id : String
  pub text : Option String
  pub work_id : Option String
  pub mode : Mode
  pub parent_thread_id : Option String
  pub parent_run_id : Option String
  pub dispatch_key : Option String
  pub sender : Option String
  pub rider : Option JsonObject
  pub origin : Option String
  pub resume : Bool
  pub resume_decision : Option JsonObject
  pub pending_text : Option String
  pub active_ms : ℤ
  pub run_id : Option String
  pub cancel_pending : Bool
  pub max_runs : Option ℕ
  pub max_pending : Option ℕ
  pub multitask_strategy : String
  pub delegate_user_urls : List String

-- whether an optional text is true in a test
abbrev pub truthy : Option String → Bool
truthy none = false
truthy (some s) = not (same s "")

-- `value or fallback`
abbrev pub or_else : Option String → String → String
or_else none d = d
or_else (some s) d = if same s "" then d else s

-- The checks above the construction of the run.
unfoldable pub check : NewRun → Option RunError
check a =
    if same a.assistant_id ""
    then some assistant_required
    else if is_negative a.active_ms
    then some negative_active
    else if is_mode a.mode child
        && (not (truthy a.parent_thread_id)
            || not (truthy a.parent_run_id)
            || not (truthy a.dispatch_key))
    then some child_fields
    else if is_mode a.mode child && not (starts_with a.thread_id "sub-")
    then some child_thread_name
    else if is_mode a.mode turn && (truthy a.parent_thread_id || truthy a.parent_run_id)
    then some turn_parents
    else none

-- The run that is to be accepted.
unfoldable pub new_run : Env → NewRun → Run
new_run env a =
    let rid = or_else a.run_id env.fresh_id in
    record {
      thread_id = a.thread_id;
      assistant_id = a.assistant_id;
      text = a.text;
      id = rid;
      work_id = or_else a.work_id rid;
      status = pending;
      mode = a.mode;
      parent_thread_id = a.parent_thread_id;
      parent_run_id = a.parent_run_id;
      dispatch_key = a.dispatch_key;
      sender = a.sender;
      rider = object_or_none a.rider;
      origin = a.origin;
      resume = a.resume;
      resume_decision = object_or_none a.resume_decision;
      pending_text = a.pending_text;
      active_ms = pos_part a.active_ms;
      consumed_by = none;
      error = none;
      result = none;
      multitask_strategy = a.multitask_strategy;
      created_at = env.now;
      updated_at = env.now;
      delegate_user_urls = a.delegate_user_urls;
    }

-- The run that was already accepted under the caller's dispatch key.
unfoldable pub dispatched : NewRun → List Run → Option Run
dispatched a runs =
    if truthy a.dispatch_key then find (λ r. same_text r.dispatch_key a.dispatch_key) runs else none

unfoldable pub conflicts : NewRun → Run → Bool
conflicts a r =
    not (same r.assistant_id a.assistant_id)
    || not (same_text r.text a.text)
    || not (is_mode r.mode a.mode)
    || not (same_text r.parent_thread_id a.parent_thread_id)
    || not (same_text r.parent_run_id a.parent_run_id)

abbrev pub is_pending : Run → Bool
is_pending r = is_status r.status pending

abbrev pub in_flight : Run → Bool
in_flight r = is_status r.status running || is_status r.status interrupted

abbrev pub cancel_if_pending : String → Run → Run
cancel_if_pending now r =
    if is_pending r then record r { status = cancelled; updated_at = now } else r

-- `limit is not None and n >= limit`
abbrev pub reached : Option ℕ → ℕ → Bool
reached none n = false
reached (some limit) n = leb limit n

pub data Admission : Type 0 where
  existing : Run → Admission
  appended : List Run → Admission

unfoldable pub replaced : Env → NewRun → List Run → List Run
replaced env a runs = if a.cancel_pending then map (cancel_if_pending env.now) runs else runs

-- What the lock guards, from the runs that were read to those that are written.
unfoldable pub admit : Env → NewRun → List Run → Result Admission
admit env a runs =
    let run = new_run env a in
    let kept = replaced env a runs in
    elim (dispatched a runs) [
      | some r ↦ if conflicts a r then err dispatch_conflict else ok (existing r)
      | none ↦
          if a.cancel_pending && any in_flight runs
          then err running_work
          else if reached a.max_runs (length kept)
          then err history_limit
          else if reached a.max_pending (count_if is_pending kept)
          then err pending_limit
          else if any (λ r. same r.id run.id) kept
          then err run_exists
          else ok (appended (kept ++ run ∷ []))
    ]

-- A directory without the marker that holds anything is a visible thread's.
abbrev pub is_visible : Option Directory → Bool
is_visible none = false
is_visible (some d) = not d.marker && (d.others || is_some d.runs)

-- `os.makedirs` and the touch of the marker
abbrev pub mark : Option Directory → Directory
mark none = record { marker = true; others = false; runs = none }
mark (some d) = record d { marker = true }

-- The disk with the child's directory and marker.
unfoldable pub marked : NewRun → Disk → Disk
marked a disk =
    if is_mode a.mode child
    then Dict.put a.thread_id (mark (Dict.get a.thread_id disk)) disk
    else disk

-- A failed write takes a child's new directory away again.
unfoldable pub undone : NewRun → Disk → Disk
unfolding marked
undone a disk =
    if is_mode a.mode child && not (is_some (Dict.get a.thread_id disk))
    then Dict.remove a.thread_id (marked a disk)
    else marked a disk

unfoldable pub accepted : Env → NewRun → Disk → Option Disk → Result Run × Disk
accepted env a disk none = (err io_error, undone a disk)
accepted env a disk (some disk') = (ok (new_run env a), disk')

unfoldable pub settle : Env → NewRun → Disk → Result Admission → Result Run × Disk
unfolding accepted
settle env a disk (err e) = (err e, disk)
settle env a disk (ok (existing r)) = (ok r, disk)
settle env a disk (ok (appended rs)) =
    accepted env a disk (write env a.thread_id rs (marked a disk))

unfoldable pub create_loaded : Env → NewRun → Disk → Result (List Run) → Result Run × Disk
unfolding settle
create_loaded env a disk (err e) = (err e, disk)
create_loaded env a disk (ok runs) = settle env a disk (admit env a runs)

-- A child may not use a visible thread's directory.
abbrev pub trespasses : NewRun → Disk → Bool
trespasses a disk =
    is_mode a.mode child && is_segment a.thread_id && is_visible (Dict.get a.thread_id disk)

unfoldable pub create_checked : Env → NewRun → Disk → Option RunError → Result Run × Disk
unfolding create_loaded
create_checked env a disk (some e) = (err e, disk)
create_checked env a disk none =
    if trespasses a disk
    then (err visible_thread, disk)
    else create_loaded env a disk (read a.thread_id disk)

unfoldable pub create : Env → NewRun → Disk → Result Run × Disk
unfolding create_checked
create env a disk = create_checked env a disk (check a)
