-- ===== src/Dispatch/Alone.antt =====
-- A start of a process that has a single thread.
use text.Mathlib.Text.{starts_with}
use assist.Base.Dict
use assist.Base.Dict.{same_self}
use assist.Web.{WebState, Status as Projection, get_status, set_status, write_status}
use assist.Web.Written.{get_status-set_status}
use assist.Records.{for_thread}
use assist.Runs.{Run, Result, ok, err, Env, Directory, is_segment, read, stored}
use assist.Dispatch.Queue.{RunQueue}
use assist.Dispatch.World.{World, next, put_status, stored_status}
use assist.Dispatch.Pending.{is_busy}
use assist.Dispatch.Recovery.{Snapshot, abandoned_of}
use assist.Dispatch.Startup.{
  import_journal, import_thread, read_all, submit_head, submit_heads, clear_vacant, all_runs,
  is_child, queue_thread, queue_read, queue_recovery_runs,
}
use assist.Dispatch.Start.{pause_status, recover_interrupted_threads}
use assist.Base.{
  ℕ, suc, String, true, false, ◌≡◌, refl, ap, ◌∙◌, Option, none, some, List, [], ◌∷◌, ◌++◌, keep,
  if◌then◌else◌, if_true, String-discrete,
}

-- Beside the thread's directory and the status files, only what is queued.
abbrev pub alone : String → Directory → WebState → RunQueue → ℕ → World
alone tid d s q n = record { disk = (tid, d) ∷ []; web = s; journal = []; queue = q; calls = n }

-- A published thread without children's runs, with no run left to resume.
pub record Settleable (tid : String) (d : Directory) : Type 0 where
  pub segment : is_segment tid ≡ true
  pub named : starts_with tid ".subagent-" ≡ false
  pub published : d.marker ≡ false
  pub childless : keep is_child (stored (some d)) ≡ []
  pub resumed : abandoned_of (stored (some d)) ≡ none

-- The status of a turn that was busy.
abbrev pub paused_status : String → WebState → Projection
paused_status tid s = record (get_status tid s) { stage = "paused" }

pub found_alone : (tid : String) (d : Directory) → Dict.get tid ((tid, d) ∷ []) ≡ some d
unfolding Dict.get
found_alone tid d = if_true _ _ (same_self tid)

read-alone :
    (tid : String) (d : Directory)
    → is_segment tid ≡ true
    → read tid ((tid, d) ∷ []) ≡ ok (stored (some d))
unfolding read
read-alone tid d e = if_true _ _ e ∙ ap (λ o. ok (stored o)) (found_alone tid d)

keep_all : (rs : List Run) → keep is_child (rs ++ []) ≡ keep is_child rs
keep_all [] = refl
keep_all (r ∷ rs) = ap (λ ks. if is_child r then r ∷ ks else ks) (keep_all rs)

next_returned : (o : Result {0} Unit × World) → next o (λ u w. (ok tt, w)) ≡ o
next_returned (err e, w) = refl
next_returned (ok u, w) = refl

module _ (env : ℕ → Env) (snapshot : String → Option Snapshot) where
  import_thread-alone :
      (tid : String) (d : Directory) (s : WebState) (q : RunQueue) (n : ℕ)
      → is_segment tid ≡ true
      → import_thread env snapshot tid (alone tid d s q n) ≡ (ok tt, alone tid d s q n)
  unfolding import_thread for_thread Dict.get
  import_thread-alone tid d s q n e =
      ap (λ o. import_journal env snapshot tid o (alone tid d s q n)) (if_true _ _ e)

  cleared-alone :
      (tid : String) (d : Directory) (s : WebState) (q : RunQueue) (n : ℕ)
      → Settleable tid d
      → clear_vacant tid (alone tid d s q n) ≡ alone tid d s q n
  cleared-alone tid d s q n v = rw (clear_vacant, found_alone tid d, v.named, v.published) refl

  -- Nothing precedes the last loop's body.
  recovery-alone :
      (tid : String) (d : Directory) (s : WebState) (q : RunQueue) (n : ℕ)
      → Settleable tid d
      → queue_recovery_runs env snapshot (tid ∷ []) (alone tid d s q n)
        ≡ queue_thread env snapshot (tid, stored (some d)) (alone tid d s q n)
  unfolding queue_recovery_runs queue_read
  recovery-alone tid d s q n v =
      let w = alone tid d s q n in
      let runs = stored (some d) in
      let read_one : read_all (tid ∷ []) w.disk ≡ ok ((tid, runs) ∷ []) =
        rw (read_all, read-alone tid d v.segment) refl in
      let no_head : submit_heads ((tid, runs) ∷ []) w ≡ w =
        rw (submit_heads, submit_head, v.resumed) refl in
      let no_child : keep is_child (all_runs w.disk) ≡ [] = keep_all runs ∙ v.childless in
      rw
        (
          import_thread-alone tid d s q n v.segment,
          read_one,
          no_head,
          cleared-alone tid d s q n v,
          no_child,
        )
        (next_returned _)

  -- The status is that of a paused turn, and nothing else is written.
  pause_status-alone :
      (tid : String) (d : Directory) (s : WebState) (q : RunQueue) (n : ℕ)
      → (env n).writes ≡ true
      → is_busy (get_status tid s).stage ≡ true
      → (s' : WebState) × (pause_status env snapshot tid (alone tid d s q n)
          ≡ (ok tt, alone tid d s' q (suc n)))
        × (get_status tid s' ≡ paused_status tid s)
  unfolding pause_status put_status set_status String-discrete
  pause_status-alone tid d s q n writes busy =
      let st = paused_status tid s in
      let w = record (alone tid d s q n) { calls = suc n } in
      let s' = record s { folders = write_status tid st s.folders } in
      let done : set_status (env n).writes (env n).writes tid st s ≡ some s' = rw writes refl in
      (
        s',
        if_true _ _ busy ∙ ap (λ o. stored_status w o) done,
        get_status-set_status (env n).writes (env n).writes tid tid st s s' done
            ∙ if_true _ _ (same_self tid),
      )

  -- A start is the last loop's body, on the status of a paused turn.
  pub start-alone :
      (tid : String) (d : Directory) (s : WebState) (q : RunQueue) (n : ℕ)
      → Settleable tid d
      → (env n).writes ≡ true
      → is_busy (get_status tid s).stage ≡ true
      → (s' : WebState) × (recover_interrupted_threads env snapshot (tid ∷ []) (alone tid d s q n)
          ≡ queue_thread env snapshot (tid, stored (some d)) (alone tid d s' q (suc n)))
        × (get_status tid s' ≡ paused_status tid s)
  unfolding recover_interrupted_threads
  start-alone tid d s q n v writes busy =
      let (s', written, status) = pause_status-alone tid d s q n writes busy in
      (s', rw written (recovery-alone tid d s' q (suc n) v), status)
