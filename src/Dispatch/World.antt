-- ===== src/Dispatch/World.antt =====
-- What the dispatchers of manage/web/threads.py share: the stores, the status files and the queue. A
-- method that raises answers an error, beside the world as it left it.
use assist.Base.Integer.{pos}
use assist.Runs.{
  Run, turn, NewRun, create, Status, Change, transition, PendingMessage, io_error, Result, ok, err,
  Disk, Env,
}
use assist.Records.{Keyed, Root}
use assist.Web.{WebState, Status as Projection, get_status, set_status}
use assist.Dispatch.Queue.{RunQueue, submit}
use assist.Base.{ℕ, suc, String, Bool, false, Option, none, some, []}

-- Run directories, the other files of the threads, the legacy journal, the worker's queue, and how
-- many calls that write have been made.
pub record World : Type 0 where
  pub disk : Disk
  pub web : WebState
  pub journal : Root PendingMessage
  pub queue : RunQueue
  pub calls : ℕ

abbrev pub messages : Keyed PendingMessage
messages = record { id_of = λ m. m.id; thread_of = λ m. m.thread_id }

-- One call after another, the first of which may raise.
abbrev pub next {ℓ} :
    {A : Type ℓ} {B : Type ℓ} → Result A × World → (A → World → Result B × World) → Result B × World
next (err e, w) f = (err e, w)
next (ok a, w) f = f a w

-- The arguments of `_create_run` that its callers leave out.
abbrev pub web_run : String → NewRun
web_run tid = record {
  thread_id = tid;
  assistant_id = "general-agent";
  text = none;
  work_id = none;
  mode = turn;
  parent_thread_id = none;
  parent_run_id = none;
  dispatch_key = none;
  sender = none;
  rider = none;
  origin = none;
  resume = false;
  resume_decision = none;
  pending_text = none;
  active_ms = pos 0;
  run_id = none;
  cancel_pending = false;
  max_runs = none;
  max_pending = none;
  multitask_strategy = "enqueue";
  delegate_user_urls = [];
}

abbrev pub stage_of : String → World → String
stage_of tid w = (get_status tid w.web).stage

-- _RESUME_SCHEDULER.submit
abbrev pub submit_run : Run → String → Bool → World → World
submit_run r tid priority w = record w { queue = submit r.id tid priority w.queue }

abbrev pub stored_status : World → Option WebState → Result {0} Unit × World
stored_status w none = (err io_error, w)
stored_status w (some s) = (ok tt, record w { web = s })

-- `env` gives the clock, the fresh id and the fate of the write of each call.
module _ (env : ℕ → Env) where
  -- _create_run
  unfoldable pub create_run : NewRun → World → Result Run × World
  unfolding create
  create_run a w =
      let o = create (env w.calls) a w.disk in (o.0, record w { disk = o.1; calls = suc w.calls })

  -- _runs().transition
  unfoldable pub move_run : String → String → Status → Change → World → Result Run × World
  unfolding transition
  move_run tid rid s c w =
      let o = transition (env w.calls) tid rid s c w.disk in
      (o.0, record w { disk = o.1; calls = suc w.calls })

  -- _set_status
  unfoldable pub put_status : String → Projection → World → Result {0} Unit × World
  unfolding set_status
  put_status tid st w =
      let writes = (env w.calls).writes in
      stored_status (record w { calls = suc w.calls }) (set_status writes writes tid st w.web)
