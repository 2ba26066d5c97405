-- ===== src/Dispatch/Liveness.antt =====
-- A new process leaves a ticket for every visible thread with accepted work.
use assist.Web.{WebState, Status as Projection, get_status, set_status}
use assist.Runs.{interrupted, Result, ok, Env}
use assist.Dispatch.World.{World, stage_of, put_status, stored_status}
use assist.Dispatch.Pending.{is_busy}
use assist.Dispatch.Recovery.{Snapshot}
use assist.Dispatch.Startup.{each, queue_recovery_runs}
use assist.Dispatch.Progress.{has_any, Clean}
use assist.Dispatch.Coverage.{next-ok}
use assist.Base.Dict.{same→≡}
use assist.Dispatch.Loops.{each-kept}
use assist.Dispatch.Start.{pause_status, recover_interrupted_threads}
use assist.Web.Written.{get_status-set_status}
use assist.Dispatch.Settling.{Settled, queue_recovery_runs-Settled}
use assist.Base.{
  ℕ, suc, String, true, false, ◌≡◌, refl, sym, ap, ◌∙◌, subst, Option, none, some, List, same, All,
  if_true, if_false, inl, inr, ◌⊎◌, Bool-cases, arith,
}

-- Where a busy status names the run of a web message, no run of the thread is interrupted.
abbrev pub Unpaused : String → World → Type 0
Unpaused tid w =
    is_busy (stage_of tid w) ≡ true
    → ((get_status tid w.web).fields.pending_run_id ≡ none) ⊎ (has_any interrupted tid w ≡ false)

paused-Unpaused :
    (env : ℕ → Env) (tid t : String) (w : World)
    → is_busy (stage_of tid w) ≡ true
    → Unpaused t w
    → Unpaused t (put_status env tid (record (get_status tid w.web) { stage = "paused" }) w).1
unfolding put_status
paused-Unpaused env tid t w b h = by_write _ refl
  where
    st : Projection
    st = record (get_status tid w.web) { stage = "paused" }

    by_write :
        (o : Option WebState)
        → set_status (env w.calls).writes (env w.calls).writes tid st w.web ≡ o
        → Unpaused t (stored_status (record w { calls = suc w.calls }) o).1
    by_write none e = h
    by_write (some u) e = elim (Bool-cases (same tid t)) [
      | inl i ↦
          let same_status = get_status-set_status _ _ tid t st w.web u e ∙ if_true _ _ i in
          let one = same→≡ tid t i in
          λ p. elim (h (subst (λ x. is_busy (stage_of x w) ≡ true) one b)) [
            | inl n ↦ inl (
                ap (λ x. x.fields.pending_run_id) same_status
                ∙ ap (λ x. (get_status x w.web).fields.pending_run_id) one
                ∙ n)
            | inr n ↦ inr n
          ]
      | inr i ↦
          let same_status = get_status-set_status _ _ tid t st w.web u e ∙ if_false _ _ i in
          λ p. elim (h (ap (λ x. is_busy x.stage) (sym same_status) ∙ p)) [
            | inl n ↦ inl (ap (λ x. x.fields.pending_run_id) same_status ∙ n)
            | inr n ↦ inr n
          ]
    ]

pause_status-Unpaused :
    (env : ℕ → Env) (snapshot : String → Option Snapshot) (tid t : String) (w : World)
    → Unpaused t w
    → Unpaused t (pause_status env snapshot tid w).1
unfolding pause_status
pause_status-Unpaused env snapshot tid t w h = elim (Bool-cases (is_busy (stage_of tid w))) [
  | inl b ↦
      subst (λ (o : Result {0} Unit × World). Unpaused t o.1) (sym (if_true _ _ b))
        (paused-Unpaused env tid t w b h)
  | inr b ↦ subst (λ (o : Result {0} Unit × World). Unpaused t o.1) (sym (if_false _ _ b)) h
]

Unpaused-Clean : (t : String) (w : World) → Unpaused t w → Clean t w
unfolding is_busy
Unpaused-Clean t w h p = h (ground (arith, p))

-- After a start that nothing stops, every visible thread with a run that is running or pending has
-- a ticket in the queue. Before the start, no thread whose busy status names the run of a web
-- message has an interrupted run.
pub recover_interrupted_threads-Settled :
    (env : ℕ → Env) (snapshot : String → Option Snapshot) (visible : List String) (w w' : World)
    → ((tid : String) → Unpaused tid w)
    → recover_interrupted_threads env snapshot visible w ≡ (ok tt, w')
    → All (λ tid. Settled tid w') visible
unfolding recover_interrupted_threads
recover_interrupted_threads-Settled env snapshot visible w w' h e =
    let (u, w1, first, rest) =
      next-ok (each (pause_status env snapshot) visible w)
        (λ u v. queue_recovery_runs env snapshot visible v) e in
    let kept : ((tid : String) → Unpaused tid w1) = λ tid.
      subst (λ (o : Result {0} Unit × World). Unpaused tid o.1) first
        (each-kept (λ v v'. Unpaused tid v → Unpaused tid v') (pause_status env snapshot) (λ v k. k)
          (λ v v' v'' f g k. g (f k)) (λ t v k. pause_status-Unpaused env snapshot t tid v k)
          visible w (h tid)) in
    queue_recovery_runs-Settled env snapshot visible w1 w' (λ tid. Unpaused-Clean tid w1 (kept tid))
      rest
