-- ===== src/Dispatch/Restart.antt =====
-- What the last loop of a new process does to one thread.
use assist.Web.{get_status}
use assist.Runs.{Run, pending, running, Result, ok, Env}
use assist.Runs.Evolution.{runs_of}
use assist.Dispatch.World.{World, stage_of}
use assist.Dispatch.Pending.{has_status, is_owned, dispatch_pending_after, is_busy}
use assist.Dispatch.Recovery.{Snapshot, abandoned_of, recovery_decision}
use assist.Dispatch.Startup.{recover_status, queue_settled, queue_thread, is_named}
use assist.Dispatch.Progress.{is_queued, has_any, Covered, Clean, Later, Later-refl}
use assist.Dispatch.Steps.{if-Later, dispatch_pending_after-Later}
use assist.Dispatch.Coverage.{dispatch_pending_after-Covered}
use assist.Dispatch.Statuses.{not_owned, recover_status-Later, recover_status-Covered}
use assist.Base.{
  ℕ, String, true, false, ◌&&◌, ◌≡◌, refl, sym, ap, ◌∙◌, subst, Option, none, some, List, [], ◌∷◌,
  same, any, if◌then◌else◌, if_true, if_false, inl, inr, ◌⊎◌, Bool-cases, default_to, arith,
}

-- A thread whose abandoned work is queued, or that has no running turn and none to resume.
abbrev pub Ready : String × List Run → World → Type 0
Ready (tid, runs) w =
    (is_queued tid w.queue ≡ true) ⊎ ((abandoned_of runs ≡ none) × (has_any running tid w ≡ false))

pub Ready-Later : (p : String × List Run) (w w' : World) → Later w w' → Ready p w → Ready p w'
Ready-Later (tid, runs) w w' v (inl h) = inl (v.tickets_stay tid h)
Ready-Later (tid, runs) w w' v (inr (a, h)) = inr (a, v.only_pending running tid (ground arith) h)

module _ (env : ℕ → Env) (snapshot : String → Option Snapshot) where
  named_nobody :
      (rs : List Run) → any (λ r. has_status pending r && is_named env snapshot none r) rs ≡ false
  named_nobody [] = refl
  named_nobody (r ∷ rs) = ground (arith, named_nobody rs)

  -- A thread whose status names a pending run isn't owned.
  named_free :
      (tid : String) (rs : List Run) (w : World)
      → Clean tid w
      → has_any running tid w ≡ false
      → any
          (λ r.
            has_status pending r
            && is_named env snapshot (get_status tid w.web).fields.pending_run_id r)
          rs
        ≡ true
      → is_owned (stage_of tid w) (runs_of tid w.disk) ≡ false
  named_free tid rs w c h named = elim (Bool-cases (same (stage_of tid w) "paused")) [
    | inr e ↦ not_owned (stage_of tid w) (runs_of tid w.disk) h e
    | inl e ↦ elim (c e) [
      | inl n ↦
          let none_named =
            ap (λ o. any (λ r. has_status pending r && is_named env snapshot o r) rs) n
            ∙ named_nobody rs in
          absurd (cc (sym named ∙ none_named))
      | inr n ↦ ground (arith, h, n)
    ]
  ]

  queue_settled-Later :
      (tid : String) (runs : List Run) (w : World)
      → Later w (queue_settled env snapshot tid runs w).1
  unfolding queue_settled
  queue_settled-Later tid runs w =
      let st = get_status tid w.web in
      let go_on = dispatch_pending_after tid none w in
      let recover =
        recover_status env snapshot
          (recovery_decision (snapshot tid) (default_to "" st.fields.pending_message)) tid w in
      if-Later
        (any (λ r. has_status pending r && is_named env snapshot st.fields.pending_run_id r) runs)
        go_on (if is_busy st.stage then recover else go_on)
        (dispatch_pending_after-Later tid none w)
        (if-Later (is_busy st.stage) recover go_on (recover_status-Later env snapshot _ tid w)
          (dispatch_pending_after-Later tid none w))

  pub queue_thread-Later :
      (p : String × List Run) (w : World) → Later w (queue_thread env snapshot p w).1
  unfolding queue_thread
  queue_thread-Later (tid, runs) w = by_abandoned (abandoned_of runs)
    where
      by_abandoned :
          (o : Option Run)
          → Later w
              (elim o as (λ _. Result {0} Unit × World) [
                | some r ↦ (ok tt, w)
                | none ↦ queue_settled env snapshot tid runs w
              ]).1
      by_abandoned (some r) = Later-refl w
      by_abandoned none = queue_settled-Later tid runs w

  busy_paused : (stage : String) → is_busy stage ≡ false → same stage "paused" ≡ false
  unfolding is_busy
  busy_paused stage e = ground (arith, e)

  queue_settled-Covered :
      (tid : String) (runs : List Run) (w w' : World)
      → Clean tid w
      → has_any running tid w ≡ false
      → queue_settled env snapshot tid runs w ≡ (ok tt, w')
      → Covered tid w'
  unfolding queue_settled
  queue_settled-Covered tid runs w w' c h e =
      let st = get_status tid w.web in
      elim (Bool-cases (
        any (λ r. has_status pending r && is_named env snapshot st.fields.pending_run_id r) runs)) [
          | inl n ↦
              dispatch_pending_after-Covered tid w w' (sym (if_true _ _ n) ∙ e)
                (named_free tid runs w c h n)
          | inr n ↦
              let rest = sym (if_false _ _ n) ∙ e in
              elim (Bool-cases (is_busy st.stage)) [
                | inl b ↦
                    recover_status-Covered env snapshot _ tid w w' h (sym (if_true _ _ b) ∙ rest)
                | inr b ↦
                    dispatch_pending_after-Covered tid w w' (sym (if_false _ _ b) ∙ rest)
                      (not_owned st.stage (runs_of tid w.disk) h (busy_paused st.stage b))
              ]
        ]

  pub queue_thread-Covered :
      (p : String × List Run) (w w' : World)
      → Clean p.0 w
      → Ready p w
      → queue_thread env snapshot p w ≡ (ok tt, w')
      → Covered p.0 w'
  unfolding queue_thread
  queue_thread-Covered (tid, runs) w w' c (inl h) e = inl (
      subst (λ o. is_queued tid o.1.queue ≡ true) e
        ((queue_thread-Later (tid, runs) w).tickets_stay tid h))
  queue_thread-Covered (tid, runs) w w' c (inr (a, h)) e =
      queue_settled-Covered tid runs w w' c h (sym (ap by_abandoned a) ∙ e)
    where
      by_abandoned : Option Run → Result {0} Unit × World
      by_abandoned o = elim o [ some r ↦ (ok tt, w) | none ↦ queue_settled env snapshot tid runs w ]
