-- ===== src/Runs/Examples.antt =====
-- The run store on concrete calls, and the theorems about it at concrete inputs.
use assist.Base.Integer.{ℤ}
use assist.Base.Integer
use assist.Base.Dict
use assist.Runs.Defs
use assist.Runs.Store
use assist.Runs.Create
use assist.Runs.Update
use native.Mathlib.Decide.{ℕ_discrete}
use assist.Runs.Defs.{
  Status, pending, running, success, error, interrupted, Mode, turn, child, Run, reload,
  is_terminal,
}
use assist.Runs.Store.{Disk, Directory, Env, Result, ok, err, bad_transition, not_pending, RunError}
use assist.Runs.Create.{NewRun, create, new_run, is_pending, dispatched}
use assist.Runs.Update.{Change, no_change, transition, claim, cancel_pending, find_run}
use assist.Runs.Evolution.{runs_of, Evolves}
use assist.Runs.History.{accept, withdraw, replay, perform, perform-Evolves, terminal_forever}
use assist.Runs.Idempotence.{retry_returns_run}
use assist.Runs.Admission.{create_within_limits}
use assist.Base.{
  ◌≤◌, true, false, ◌≡◌, refl, none, some, [], ◌∷◌, get_elem?, length, count_if, String-discrete,
  arith, ◌⊎◌,
}

-- What the evaluations below compute with.
unfoldable evaluation : Unit {0}
unfolding create perform String-discrete Create.check Defs.Mode-discrete Store.read Store.is_segment
    Create.admit Create.dispatched Dict.get Dict.put Create.replaced Store.write Create.marked
    Create.new_run Defs.reload claim transition Update.update_run Update.judge Update.find_run
    Update.replace_run Update.moved Update.touched Defs.Status-discrete Defs.may_become
    Defs.Run-discrete Defs.is_terminal cancel_pending Update.judge_pending Create.conflicts
    Defs.Text-discrete ℕ_discrete
evaluation = tt

abbrev noon : Env
noon = record { now = "12:00"; fresh_id = "r1"; writes = true }

abbrev later : Env
later = record { now = "12:01"; fresh_id = "r2"; writes = true }

-- One visible thread, with no run yet.
abbrev one_thread : Disk
one_thread = ("t1", record { marker = false; others = true; runs = none }) ∷ []

abbrev message : NewRun
message = record {
  thread_id = "t1";
  assistant_id = "general-agent";
  text = some "hello";
  work_id = none;
  mode = turn;
  parent_thread_id = none;
  parent_run_id = none;
  dispatch_key = some "k1";
  sender = none;
  rider = none;
  origin = none;
  resume = false;
  resume_decision = none;
  pending_text = none;
  active_ms = Integer.pos 0;
  run_id = none;
  cancel_pending = true;
  max_runs = some 5;
  max_pending = some 2;
  multitask_strategy = "enqueue";
  delegate_user_urls = [];
}

abbrev accepted : Disk
accepted = (create noon message one_thread).1

abbrev claimed : Disk
claimed = (claim later "t1" "r1" accepted).1

abbrev finished : Disk
finished = (transition later "t1" "r1" success no_change claimed).1

abbrev hello : Run
hello = new_run noon message

perform-Evolves_example : Evolves (runs_of "t1" one_thread) (runs_of "t1" accepted)
unfolding evaluation
perform-Evolves_example = perform-Evolves (accept noon message) "t1" one_thread

retry_returns_run_example : create later message accepted ≡ (ok (reload hello), accepted)
unfolding evaluation
retry_returns_run_example =
    retry_returns_run noon later message one_thread hello refl (λ e. absurd (ground arith))
      (λ e. absurd (ground arith)) refl

create_within_limits_example :
    (length (runs_of "t1" accepted) ≤ 5) × (count_if is_pending (runs_of "t1" accepted) ≤ 2)
unfolding evaluation
create_within_limits_example =
    create_within_limits noon message one_thread 5 2 hello refl refl refl refl

abbrev started : Run
started = record (reload hello) { status = running; updated_at = "12:01" }

abbrev done : Run
done = record started { status = success }

terminal_forever_example :
    (n : Run) × (get_elem? (runs_of "t1" (replay (withdraw noon "t1" "r1" ∷ []) finished)) 0
      ≡ some n)
    × (n.id ≡ "r1")
    × (is_terminal n.status ≡ true)
    × ((success ≡ n.status) ⊎ (success ≡ interrupted))
unfolding evaluation
terminal_forever_example =
    terminal_forever (withdraw noon "t1" "r1" ∷ []) "t1" finished 0 done refl refl
