-- ===== src/Dispatch/Examples.antt =====
-- Restarts on concrete worlds, and the theorems about them at concrete inputs.
use assist.Base.Dict
use assist.Dispatch.Startup
use assist.Dispatch.Recovery
use assist.Dispatch.Pending
use assist.Dispatch.World
use assist.Dispatch.Start
use assist.Dispatch.Queue
use assist.Records.{for_thread}
use assist.Web.{
  WebState, set_status, mark_unseen_response, Status as Projection, no_fields, Folder, get_status,
}
use assist.Runs.{
  Status, create, check, admit, dispatched, replaced, write, marked, conflicts, Run, new_run,
  pending, interrupted, success, child, Env, ok, Directory, is_segment, read, reload,
  Status-discrete, Mode-discrete,
}
use assist.Runs.Evolution.{runs_of}
use assist.Dispatch.Queue.{Ticket, RunQueue}
use assist.Dispatch.World.{submit_run, World, web_run, stage_of}
use assist.Dispatch.Recovery.{Snapshot, abandoned_of}
use assist.Dispatch.Startup.{queue_settled}
use assist.Dispatch.Alone.{Settleable}
use assist.Dispatch.Start.{recover_interrupted_threads}
use assist.Dispatch.Progress.{has_any}
use assist.Dispatch.Settling.{Settled}
use assist.Dispatch.Liveness.{Unpaused, recover_interrupted_threads-Settled}
use assist.Dispatch.Duplication.{asks, waiting_message_twice}
use assist.Dispatch.Stranding.{stranded_by_start}
use assist.Dispatch.Handoff
use assist.Dispatch.Handoff.{wake_of, complete_child_handoff}
use assist.Dispatch.Wakes.{handoff_wakes_once}
use assist.Dispatch.Line.{Call, putting, getting, testing, promoting, Holds, replay, replay_in_line}
use assist.Dispatch.Tiers.{replay-Line}
use assist.Base.{
  count_if, suc, map, ◌≢◌, ap, same, default_to, String, String-discrete, true, false, ◌≡◌, refl,
  Option, none, some, List, [], ◌∷◌, All, inr, arith, ◌≤◌,
}

abbrev for_bob : Ticket
for_bob = record { run_id = "r1"; tid = "bob"; user_priority = false }

abbrev for_ann : Ticket
for_ann = record { run_id = "r2"; tid = "ann"; user_priority = false }

abbrev requests : List Call
requests =
    putting for_bob ∷ putting for_ann ∷ promoting "ann" ∷ getting ∷ getting ∷ testing ∷ getting ∷ []

abbrev nothing : RunQueue
nothing = record { user = []; background = [] }

nothing-Holds : Holds nothing []
nothing-Holds = record { users = refl; others = refl }

replay-Line_example : replay requests nothing ≡ replay_in_line requests []
replay-Line_example = replay-Line requests nothing [] nothing-Holds

-- What the evaluations below compute with.
unfoldable evaluation : Unit {0}
unfolding recover_interrupted_threads Start.pause_status Startup.queue_recovery_runs
    Startup.import_thread Startup.queue_read Startup.recover_child Startup.queue_thread
    queue_settled Startup.recover_status Recovery.recovery_decision abandoned_of Pending.is_busy
    Pending.dispatch_pending_after World.create_run create check admit dispatched replaced write
    marked conflicts complete_child_handoff Handoff.hand_over Handoff.behind World.put_status
    Queue.submit Queue.put set_status get_status mark_unseen_response for_thread read is_segment
    new_run reload Status-discrete Mode-discrete String-discrete Dict.get Dict.put Dict.remove
evaluation = tt

abbrev noon : Env
noon = record { now = "12:00"; fresh_id = "r1"; writes = true }

abbrev hello : Run
hello = new_run noon (record (web_run "t1") { text = some "hello" })

-- The status of a message that was accepted.
abbrev accepted : Projection
accepted = record {
  stage = "processing";
  fields = record no_fields { pending_message = some "hello"; pending_run_id = some "r1" };
}

abbrev folder : Folder
folder = record {
  hidden = false;
  status = some accepted;
  unseen_marker = false;
  urgent_marker = false;
}

-- A process that ended with the runs of one thread.
abbrev left_with : List Run → World
left_with runs = record {
  disk = ("t1", record { marker = false; others = true; runs = some runs }) ∷ [];
  web = record { folders = ("t1", folder) ∷ []; unseen = []; urgent = [] };
  journal = [];
  queue = nothing;
  calls = 0;
}

abbrev unread : String → Option Snapshot
unread tid = none

abbrev restarted : World
restarted = (recover_interrupted_threads (λ n. noon) unread ("t1" ∷ []) (left_with (hello ∷ []))).1

restarted_queues :
    restarted.queue
    ≡ record nothing { user = record { run_id = "r1"; tid = "t1"; user_priority = true } ∷ [] }
unfolding evaluation
restarted_queues = refl

none_slept : (tid : String) → Unpaused tid (left_with (hello ∷ []))
unfolding evaluation
none_slept tid b = inr (ground arith)

recover_interrupted_threads-Settled_example : All (λ tid. Settled tid restarted) ("t1" ∷ [])
unfolding evaluation
recover_interrupted_threads-Settled_example =
    recover_interrupted_threads-Settled (λ n. noon) unread ("t1" ∷ []) (left_with (hello ∷ []))
      restarted none_slept refl

-- An earlier turn that was paused, and the slice that ended it.
abbrev slept : Run
slept = record hello { id = "a1"; work_id = "a1"; status = interrupted }

abbrev woke : Run
woke = record hello { id = "a2"; work_id = "a1"; status = success; resume = true }

abbrev stranded : World
stranded = left_with (slept ∷ woke ∷ hello ∷ [])

-- The message waits, and no ticket is in the queue.
stranded_restart :
    ((recover_interrupted_threads (λ n. noon) unread ("t1" ∷ []) stranded).0 ≡ ok tt)
    × ((recover_interrupted_threads (λ n. noon) unread ("t1" ∷ []) stranded).1.queue ≡ nothing)
    × (has_any pending "t1" (recover_interrupted_threads (λ n. noon) unread ("t1" ∷ []) stranded).1
        ≡ true)
unfolding evaluation
stranded_restart = (refl, refl, refl)

abbrev busy_badges : WebState
busy_badges = record { folders = ("t1", folder) ∷ []; unseen = []; urgent = [] }

abbrev stranded_runs : Directory
stranded_runs = record { marker = false; others = true; runs = some (slept ∷ woke ∷ hello ∷ []) }

stranded-Settleable : Settleable "t1" stranded_runs
unfolding evaluation
stranded-Settleable = record {
  segment = refl;
  named = refl;
  published = refl;
  childless = refl;
  resumed = refl;
}

stranded_by_start_example :
    let o = recover_interrupted_threads (λ n. noon) unread ("t1" ∷ []) stranded in
    (o.0 ≡ ok tt) × (o.1.disk ≡ stranded.disk) × (o.1.queue ≡ nothing)
unfolding evaluation
stranded_by_start_example =
    stranded_by_start (λ n. noon) unread "t1" stranded_runs busy_badges nothing 0
      stranded-Settleable refl refl refl refl

-- A child's task of the thread, which has ended.
abbrev task : Run
task = record hello {
  thread_id = "c1";
  id = "k1";
  work_id = "k1";
  mode = child;
  status = success;
  parent_thread_id = some "t1";
}

abbrev with_child : World
with_child = record (left_with []) {
  disk =
      ("t1", record { marker = false; others = true; runs = none })
      ∷ ("c1", record { marker = true; others = true; runs = some (task ∷ []) })
      ∷ [];
}

abbrev wake : Run
wake = new_run noon (wake_of task)

abbrev woken_once : World
woken_once = (complete_child_handoff (λ n. noon) task with_child).1

apart : default_to "" task.parent_thread_id ≢ task.thread_id
unfolding String-discrete
apart e = let split : true ≡ false = ap (λ x. same x "t1") e in absurd (cc split)

handoff_wakes_once_example : complete_child_handoff (λ n. noon) task woken_once ≡ (
  ok (some (reload wake)),
  submit_run (reload wake) wake.thread_id false (record woken_once { calls = 2 }),
)
unfolding evaluation wake_of
handoff_wakes_once_example =
    handoff_wakes_once (λ n. noon) (λ n. noon) task wake with_child woken_once apart refl

-- The message waited for the slot: the status says so, and no longer names the run.
abbrev waiting : Projection
waiting = record { stage = "queued"; fields = record no_fields { pending_message = some "hello" } }

abbrev held_up : World
held_up = record (left_with (hello ∷ [])) {
  web = record {
    folders = ("t1", record folder { status = some waiting }) ∷ [];
    unseen = [];
    urgent = [];
  };
}

-- The graph of a thread without a message.
abbrev untouched : String → Option Snapshot
untouched tid = some (record { mid_flight = false; latest_human = "" })

abbrev second : Env
second = record { now = "12:05"; fresh_id = "r2"; writes = true }

abbrev again : World
again = (recover_interrupted_threads (λ n. second) untouched ("t1" ∷ []) held_up).1

-- The message has two runs, of which the new one has the ticket.
held_up_restart :
    (map {B = String × Status} (λ r. (r.id, r.status)) (runs_of "t1" again.disk)
      ≡ ("r1", pending) ∷ ("r2", pending) ∷ [])
    × (again.queue ≡ record nothing {
      background = record { run_id = "r2"; tid = "t1"; user_priority = false } ∷ [];
    })
unfolding evaluation
held_up_restart = (refl, refl)

abbrev waiting_badges : WebState
waiting_badges = record {
  folders = ("t1", record folder { status = some waiting }) ∷ [];
  unseen = [];
  urgent = [];
}

abbrev waiting_runs : Directory
waiting_runs = record { marker = false; others = true; runs = some (hello ∷ []) }

waiting-Settleable : Settleable "t1" waiting_runs
unfolding evaluation
waiting-Settleable = record {
  segment = refl;
  named = refl;
  published = refl;
  childless = refl;
  resumed = refl;
}

waiting_message_twice_example :
    (count_if (asks "hello") (runs_of "t1" again.disk) ≡ suc (count_if (asks "hello") (hello ∷ [])))
    × (2 ≤ count_if (asks "hello") (runs_of "t1" again.disk))
unfolding evaluation
waiting_message_twice_example =
    waiting_message_twice (λ n. second) untouched "t1" waiting_runs waiting_badges nothing 0 again
      waiting-Settleable refl refl refl refl refl refl
