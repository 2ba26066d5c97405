-- ===== src/Dispatch/Stranding.antt =====
-- Work that `queue_recovery_runs` passes over.
use assist.Web.{WebState, Status as Projection, get_status}
use assist.Runs.{
  Run, pending, interrupted, Result, ok, err, Env, read, is_segment, Directory, stored,
}
use assist.Runs.Evolution.{runs_of}
use assist.Dispatch.World.{World, stage_of}
use assist.Dispatch.Pending.{
  has_status, is_busy, is_owned, followers, chosen, submit_chosen, dispatch_pending_after,
}
use assist.Dispatch.Recovery.{Snapshot, abandoned_of}
use assist.Dispatch.Startup.{is_named, queue_settled, queue_thread}
use assist.Dispatch.Queue.{RunQueue}
use assist.Dispatch.Start.{recover_interrupted_threads}
use assist.Dispatch.Alone.{Settleable, alone, found_alone, start-alone}
use assist.Dispatch.Progress.{has_any}
use assist.Base.{
  ℕ, suc, sym, [], ◌∷◌, String-discrete, String, Bool, true, ◌&&◌, ◌≡◌, ap, ◌∙◌, Option, none, some,
  List, same, any, if◌then◌else◌, if_true, arith,
}

owned_waits :
    (tid : String) (rid : Option String) (w : World)
    → is_segment tid ≡ true
    → is_owned (stage_of tid w) (runs_of tid w.disk) ≡ true
    → dispatch_pending_after tid rid w ≡ (ok tt, w)
unfolding dispatch_pending_after read
owned_waits tid rid w s o = ap go (if_true _ _ s) ∙ if_true _ _ o
  where
    go : Result (List Run) → Result {0} Unit × World
    go r = elim r [
      | err e ↦ (err e, w)
      | ok runs ↦
          if is_owned (stage_of tid w) runs
          then (ok tt, w)
          else (ok tt, submit_chosen tid (chosen (followers rid runs)) w)
    ]

-- The last loop passes over a thread of which a paused turn's status names a pending run, if a run of
-- the thread is interrupted.
queue_thread-stranded :
    (env : ℕ → Env) (snapshot : String → Option Snapshot) (tid : String) (w : World)
    → is_segment tid ≡ true
    → same (stage_of tid w) "paused" ≡ true
    → any
        (λ r.
          has_status pending r
          && is_named env snapshot (get_status tid w.web).fields.pending_run_id r)
        (runs_of tid w.disk)
      ≡ true
    → has_any interrupted tid w ≡ true
    → abandoned_of (runs_of tid w.disk) ≡ none
    → queue_thread env snapshot (tid, runs_of tid w.disk) w ≡ (ok tt, w)
unfolding queue_thread queue_settled
queue_thread-stranded env snapshot tid w s paused named slept left =
    ap go left ∙ if_true _ _ named ∙ owned_waits tid none w s (ground (arith, paused, slept))
  where
    go : Option Run → Result {0} Unit × World
    go o = elim o [
      | some r ↦ (ok tt, w)
      | none ↦ queue_settled env snapshot tid (runs_of tid w.disk) w
    ]

-- A start strands the pending run that the busy status of a thread names, if a run of the thread is
-- interrupted: the start ends without an error, the runs are as before, and the queue has got no
-- ticket. The thread is the only one, published, without children's runs or a legacy journal; none of
-- its runs is left to resume; and the status can be written.
pub stranded_by_start :
    (env : ℕ → Env) (snapshot : String → Option Snapshot) (tid : String) (d : Directory)
    (s : WebState) (q : RunQueue) (n : ℕ)
    → Settleable tid d
    → (env n).writes ≡ true
    → is_busy (get_status tid s).stage ≡ true
    → any
        (λ r.
          has_status pending r && is_named env snapshot (get_status tid s).fields.pending_run_id r)
        (stored (some d))
      ≡ true
    → any (has_status interrupted) (stored (some d)) ≡ true
    → let o = recover_interrupted_threads env snapshot (tid ∷ []) (alone tid d s q n) in
      (o.0 ≡ ok tt) × (o.1.disk ≡ (tid, d) ∷ []) × (o.1.queue ≡ q)
unfolding String-discrete
stranded_by_start env snapshot tid d s q n v writes busy named slept =
    let (s', started, status) = start-alone env snapshot tid d s q n v writes busy in
    let w = alone tid d s' q (suc n) in
    let there : runs_of tid w.disk ≡ stored (some d) = ap stored (found_alone tid d) in
    let passed : queue_thread env snapshot (tid, runs_of tid w.disk) w ≡ (ok tt, w) =
      queue_thread-stranded env snapshot tid w v.segment (ap (λ st. same st.stage "paused") status)
        (ap (any (names s')) there ∙ ap (λ st. any (names_in st) (stored (some d))) status ∙ named)
        (ap (any (has_status interrupted)) there ∙ slept) (ap abandoned_of there ∙ v.resumed) in
    let whole = started ∙ ap (λ rs. queue_thread env snapshot (tid, rs) w) (sym there) ∙ passed in
    (
      ap (λ (o : Result {0} Unit × World). o.0) whole,
      ap (λ (o : Result {0} Unit × World). o.1.disk) whole,
      ap (λ (o : Result {0} Unit × World). o.1.queue) whole,
    )
  where
    names_in : Projection → Run → Bool
    names_in st r = has_status pending r && is_named env snapshot st.fields.pending_run_id r

    names : WebState → Run → Bool
    names u r = names_in (get_status tid u) r
