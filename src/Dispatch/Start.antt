-- ===== src/Dispatch/Start.antt =====
-- `_recover_interrupted_threads` of manage/web/state.py, before the application serves: every busy
-- status becomes that of a paused turn, and the work is queued. `visible` is what `MANAGER.list()`
-- answers.
use assist.Web.{get_status}
use assist.Runs.{Result, ok, Env}
use assist.Dispatch.World.{World, next, put_status}
use assist.Dispatch.Pending.{is_busy}
use assist.Dispatch.Recovery.{Snapshot}
use assist.Dispatch.Startup.{each, queue_recovery_runs}
use assist.Base.{ℕ, String, Option, List, if◌then◌else◌}

module _ (env : ℕ → Env) (snapshot : String → Option Snapshot) where
  -- The loop's body: the status keeps its fields.
  unfoldable pub pause_status : String → World → Result {0} Unit × World
  unfolding is_busy put_status
  pause_status tid w =
      let st = get_status tid w.web in
      if is_busy st.stage then put_status env tid (record st { stage = "paused" }) w else (ok tt, w)

  -- _recover_interrupted_threads
  unfoldable pub recover_interrupted_threads : List String → World → Result {0} Unit × World
  unfolding pause_status queue_recovery_runs
  recover_interrupted_threads visible w =
      next (each pause_status visible w) (λ u w'. queue_recovery_runs env snapshot visible w')
