-- ===== src/Runs/Legacy.antt =====
-- `import_legacy`: the pending messages of assist/backlog.py become runs.
use assist.Runs.Defs.{pending, turn, JsonObject, Run, same_text, object_or_none, Object-discrete}
use assist.Runs.Store.{
  legacy_thread, legacy_conflict, io_error, Result, ok, err, Disk, Env, read, write,
}
use assist.Base.{
  String, Bool, true, false, not, ◌||◌, Option, none, some, List, [], ◌∷◌, ◌++◌, same,
  if◌then◌else◌,
}

-- PendingMessage of assist/backlog.py
pub record PendingMessage : Type 0 where
  pub thread_id : String
  pub text : String
  pub sender : Option String
  pub rider : Option JsonObject
  pub enqueued_at : String
  pub origin : Option String
  pub id : String

unfoldable pub imported_run : Env → String → PendingMessage → String → Run
imported_run env assistant m tid = record {
  thread_id = tid;
  assistant_id = assistant;
  text = some m.text;
  id = m.id;
  work_id = m.id;
  status = pending;
  mode = turn;
  parent_thread_id = none;
  parent_run_id = none;
  dispatch_key = none;
  sender = m.sender;
  rider = object_or_none m.rider;
  origin = m.origin;
  resume = false;
  resume_decision = none;
  pending_text = none;
  active_ms = 0;
  consumed_by = none;
  error = none;
  result = none;
  multitask_strategy = "enqueue";
  created_at = if same m.enqueued_at "" then env.now else m.enqueued_at;
  updated_at = env.now;
  delegate_user_urls = [];
}

abbrev pub same_object : Option JsonObject → Option JsonObject → Bool
same_object a b = elim (Object-discrete a b) [ yes _ ↦ true | no _ ↦ false ]

unfoldable pub differs : PendingMessage → Run → Bool
differs m r =
    not (same_text r.text (some m.text))
    || not (same_text r.sender m.sender)
    || not (same_object r.rider m.rider)
    || not (same_text r.origin m.origin)

-- `by_id.get(rid)`: where an id stands twice, the later run
unfoldable pub by_id : String → List Run → Option Run
by_id rid [] = none
by_id rid (r ∷ rs) = elim (by_id rid rs) [
  | some later ↦ some later
  | none ↦ if same r.id rid then some r else none
]

-- The loop over the messages: the runs with those that were added, the imported runs, and whether
-- anything was added.
pub record Import : Type 0 where
  pub runs : List Run
  pub imported : List Run
  pub changed : Bool

unfoldable pub add_imported : Run → Import → Import
add_imported r s = record {
  runs = s.runs ++ r ∷ [];
  imported = s.imported ++ r ∷ [];
  changed = true;
}

-- One round of the loop, with the run that `by_id` finds.
unfoldable pub import_found :
    Env → String → String → PendingMessage → Import → Option Run → Result Import
unfolding add_imported
import_found env assistant tid m s none = ok (add_imported (imported_run env assistant m tid) s)
import_found env assistant tid m s (some r) =
    if differs m r then err legacy_conflict else ok (record s { imported = s.imported ++ r ∷ [] })

unfoldable pub import_one : Env → String → String → PendingMessage → Import → Result Import
unfolding import_found
import_one env assistant tid m s =
    if same m.thread_id tid
    then import_found env assistant tid m s (by_id m.id s.runs)
    else err legacy_thread

abbrev pub and_then : Result Import → (Import → Result Import) → Result Import
and_then (ok s) f = f s
and_then (err e) f = err e

unfoldable pub import_all : Env → String → String → List PendingMessage → Import → Result Import
unfolding import_one
import_all env assistant tid [] s = ok s
import_all env assistant tid (m ∷ ms) s =
    and_then (import_one env assistant tid m s) (import_all env assistant tid ms)

abbrev pub start_import : List Run → Import
start_import runs = record { runs = runs; imported = []; changed = false }

unfoldable pub import_written : Import → Disk → Option Disk → Result (List Run) × Disk
import_written s disk none = (err io_error, disk)
import_written s disk (some disk') = (ok s.imported, disk')

unfoldable pub import_done : Env → String → Disk → Result Import → Result (List Run) × Disk
unfolding import_written
import_done env tid disk (err e) = (err e, disk)
import_done env tid disk (ok s) =
    if s.changed then import_written s disk (write env tid s.runs disk) else (ok s.imported, disk)

unfoldable pub import_loaded :
    Env
    → String
    → String
    → List PendingMessage
    → Disk
    → Result (List Run)
    → Result (List Run) × Disk
unfolding import_done
import_loaded env assistant tid ms disk (err e) = (err e, disk)
import_loaded env assistant tid ms disk (ok runs) =
    import_done env tid disk (import_all env assistant tid ms (start_import runs))

unfoldable pub import_legacy :
    Env → String → String → List PendingMessage → Disk → Result (List Run) × Disk
unfolding import_loaded
import_legacy env assistant tid ms disk = import_loaded env assistant tid ms disk (read tid disk)
