-- ===== src/Dispatch/Creation.antt =====
-- What `_create_run` did, where it cancels nothing.
use assist.Runs.{
  RunError, Run, reload, NewRun, new_run, create, pending, Result, ok, err, Env, Disk, replaced,
}
use assist.Runs.Evolution.{runs_of}
use assist.Runs.Acceptance.{Ending, refused, found, new, create-Ending}
use assist.Dispatch.World.{World, create_run}
use assist.Base.{
  ℕ, suc, String, false, ◌≡◌, sym, ap, ◌∙◌, List, [], ◌∷◌, ◌++◌, map, same, if◌then◌else◌, if_false,
}

-- A run that is asked for under no dispatch key that is taken: what `create` did.
pub data Made (a : NewRun) (w : World) : Result Run × World → Type 0 where
  raised :
      {e : RunError} {d : Disk} {n : ℕ}
      → ((j : String) → runs_of j d ≡ runs_of j w.disk)
      → Made a w (err e, record w { disk = d; calls = n })
  known : {r : Run} {n : ℕ} → Made a w (ok r, record w { calls = n })
  made :
      {r : Run} {d : Disk} {n : ℕ}
      → r.thread_id ≡ a.thread_id
      → r.status ≡ pending
      → ((j : String)
          → runs_of j d ≡ (
              if same a.thread_id j
              then map reload (runs_of a.thread_id w.disk ++ r ∷ [])
              else runs_of j w.disk))
      → Made a w (ok r, record w { disk = d; calls = n })

pub create_run-Made :
    (env : ℕ → Env) (a : NewRun) (w : World)
    → a.cancel_pending ≡ false
    → Made a w (create_run env a w)
unfolding create_run create new_run replaced
create_run-Made env a w c =
    by_ending (create (env w.calls) a w.disk) (create-Ending (env w.calls) a w.disk)
  where
    of_thread_id : {r : Run} → r ≡ new_run (env w.calls) a → r.thread_id ≡ a.thread_id
    of_thread_id e = ap (λ x. x.thread_id) e

    is_new : {r : Run} → r ≡ new_run (env w.calls) a → r.status ≡ pending
    is_new e = ap (λ x. x.status) e

    kept : (rs : List Run) → replaced (env w.calls) a rs ≡ rs
    kept rs = if_false _ _ c

    by_ending :
        (o : Result Run × Disk)
        → Ending (env w.calls) a w.disk o
        → Made a w (o.0, record w { disk = o.1; calls = suc w.calls })
    by_ending o (refused same_runs) = raised same_runs
    by_ending o (found open_before there) = known
    by_ending o (new {ns = ns} {r = r} open_after v e after) =
        made (of_thread_id e) (is_new e) (λ j.
          after j
          ∙ ap (λ ks. if same a.thread_id j then map reload ks else runs_of j w.disk)
              (v.appended_last
                ∙ ap (λ ks. ks ++ new_run (env w.calls) a ∷ []) (kept (runs_of a.thread_id w.disk))
                ∙ ap (λ n. runs_of a.thread_id w.disk ++ n ∷ []) (sym e)))
