-- ===== src/Dispatch/Settling.antt =====
-- `queue_recovery_runs` leaves a ticket for every visible thread with accepted work.
use assist.Runs.{Run, pending, running, Result, ok, err, Env}
use assist.Runs.Evolution.{runs_of}
use assist.Dispatch.World.{World, submit_run}
use assist.Dispatch.Recovery.{Snapshot, abandoned_of}
use assist.Dispatch.Startup.{
  each, names, all_runs, is_child, clear_all, submit_head, submit_heads, read_all, import_thread,
  recover_child, queue_thread, queue_read, queue_recovery_runs,
}
use assist.Dispatch.Progress.{
  is_queued, has_any, Covered, Clean, unmoved-Clean, Later, Later-refl, Later-trans,
  submit_run-queued, submit_run-Later,
}
use assist.Dispatch.Steps.{recover_child-Later}
use assist.Dispatch.Coverage.{next-ok}
use assist.Dispatch.Restart.{Ready, Ready-Later, queue_thread-Later, queue_thread-Covered}
use assist.Dispatch.Loops.{each-Later, abandoned_of-none, read_all-read, clear_all-Later}
use assist.Dispatch.Import.{Imported, each-Imported, import_thread-Imported}
use assist.Base.{
  ℕ, String, true, false, ◌≡◌, refl, sym, subst, Option, none, some, List, [], ◌∷◌, map, keep, All,
  inl, inr, ◌⊎◌, arith,
}

-- A thread with accepted work has a ticket.
abbrev pub Settled : String → World → Type 0
Settled tid w =
    (is_queued tid w.queue ≡ true)
    ⊎ ((has_any running tid w ≡ false) × (has_any pending tid w ≡ false))

-- The snapshot of a thread's runs is that of the loop's start.
abbrev Known : World → String × List Run → Type 0
Known w (tid, runs) = abandoned_of runs ≡ none → has_any running tid w ≡ false

submit_head-Later : (p : String × List Run) (w : World) → Later w (submit_head p w)
submit_head-Later (tid, runs) w = by_head (abandoned_of runs)
  where
    by_head :
        (o : Option Run)
        → Later w (elim o as (λ _. World) [ none ↦ w | some r ↦ submit_run r tid false w ])
    by_head none = Later-refl w
    by_head (some r) = submit_run-Later r tid false w

submit_head-Ready : (p : String × List Run) (w : World) → Known w p → Ready p (submit_head p w)
submit_head-Ready (tid, runs) w k = by_head (abandoned_of runs) refl
  where
    by_head :
        (o : Option Run)
        → abandoned_of runs ≡ o
        → Ready
            (tid, runs)
            (elim o as (λ _. World) [ none ↦ w | some r ↦ submit_run r tid false w ])
    by_head none e = inr (e, k e)
    by_head (some r) e = inl (submit_run-queued r tid false w)

submit_heads-Later : (ps : List (String × List Run)) (w : World) → Later w (submit_heads ps w)
submit_heads-Later [] w = Later-refl w
submit_heads-Later (p ∷ ps) w =
    Later-trans (submit_head-Later p w) (submit_heads-Later ps (submit_head p w))

All-Known :
    (ps : List (String × List Run)) (w w' : World)
    → Later w w'
    → All (Known w) ps
    → All (Known w') ps
All-Known [] w w' v k = k
All-Known (p ∷ ps) w w' v (k, ks) =
    ((λ e. v.only_pending running p.0 (ground arith) (k e)), All-Known ps w w' v ks)

submit_heads-Ready :
    (ps : List (String × List Run)) (w : World)
    → All (Known w) ps
    → All (λ p. Ready p (submit_heads ps w)) ps
submit_heads-Ready [] w k = tt
submit_heads-Ready (p ∷ ps) w (k, ks) = (
  Ready-Later p (submit_head p w) _ (submit_heads-Later ps (submit_head p w))
      (submit_head-Ready p w k),
  submit_heads-Ready ps (submit_head p w) (All-Known ps w _ (submit_head-Later p w) ks),
)

All-Ready :
    (ps : List (String × List Run)) (w w' : World)
    → Later w w'
    → All (λ p. Ready p w) ps
    → All (λ p. Ready p w') ps
All-Ready [] w w' v k = k
All-Ready (p ∷ ps) w w' v (k, ks) = (Ready-Later p w w' v k, All-Ready ps w w' v ks)

-- The runs that are read now.
read_now-Known :
    (visible : List String) (w : World)
    → All (Known w) (map (λ tid. (tid, runs_of tid w.disk)) visible)
read_now-Known [] w = tt
read_now-Known (tid ∷ tids) w = (abandoned_of-none (runs_of tid w.disk), read_now-Known tids w)

settle : (p : String × List Run) (w : World) → Ready p w → Covered p.0 w → Settled p.0 w
settle (tid, runs) w (inl h) c = inl h
settle (tid, runs) w (inr (a, h)) (inl q) = inl q
settle (tid, runs) w (inr (a, h)) (inr q) = inr (h, q)

module _ (env : ℕ → Env) (snapshot : String → Option Snapshot) where
  each-Settled :
      (ps : List (String × List Run)) (w w' : World)
      → ((tid : String) → Clean tid w)
      → All (λ p. Ready p w) ps
      → each (queue_thread env snapshot) ps w ≡ (ok tt, w')
      → All (λ p. Settled p.0 w') ps
  each-Settled [] w w' c h e = tt
  each-Settled (p ∷ ps) w w' c (h, hs) e =
      let (u, w1, first, rest) = next-ok (queue_thread env snapshot p w) _ e in
      let begun : Later w w1 =
        subst (λ o. Later w o.1) first (queue_thread-Later env snapshot p w) in
      let ended : Later w1 w' =
        subst (λ o. Later w1 o.1) rest
          (each-Later (queue_thread env snapshot) (λ q v. queue_thread-Later env snapshot q v) ps
            w1) in
      (
        settle p w' (Ready-Later p w w' (Later-trans begun ended) h)
            (ended.covered_stay p.0 (queue_thread-Covered env snapshot p w w1 (c p.0) h first)),
        each-Settled ps w1 w' (λ tid. begun.clean_stays tid (c tid)) (All-Ready ps w w1 begun hs)
            rest,
      )

  queue_read-Settled :
      (ps : List (String × List Run)) (w w' : World)
      → ((tid : String) → Clean tid w)
      → All (Known w) ps
      → queue_read env snapshot (ok ps) w ≡ (ok tt, w')
      → All (λ p. Settled p.0 w') ps
  unfolding queue_read
  queue_read-Settled ps w w' c k e =
      let cleared = clear_all (names w.disk) (submit_heads ps w) in
      let children = keep is_child (all_runs cleared.disk) in
      let (u, w1, first, rest) =
        next-ok (each (recover_child env snapshot) children cleared)
          (λ u v. each (queue_thread env snapshot) ps v) e in
      let swept : Later (submit_heads ps w) cleared =
        clear_all-Later (names w.disk) (submit_heads ps w) in
      let recovered : Later cleared w1 =
        subst (λ o. Later cleared o.1) first
          (each-Later (recover_child env snapshot) (λ r v. recover_child-Later env snapshot r v)
            children cleared) in
      let on : Later (submit_heads ps w) w1 = Later-trans swept recovered in
      each-Settled ps w1 w'
        (λ tid. on.clean_stays tid ((submit_heads-Later ps w).clean_stays tid (c tid)))
        (All-Ready ps _ w1 on (submit_heads-Ready ps w k)) rest

  settled_threads :
      (visible : List String) (w w' : World)
      → All {A = String × List Run}
          (λ p. Settled p.0 w')
          (map (λ tid. (tid, runs_of tid w.disk)) visible)
      → All (λ tid. Settled tid w') visible
  settled_threads [] w w' h = tt
  settled_threads (tid ∷ tids) w w' (h, hs) = (h, settled_threads tids w w' hs)

pub queue_recovery_runs-Settled :
    (env : ℕ → Env) (snapshot : String → Option Snapshot) (visible : List String) (w w' : World)
    → ((tid : String) → Clean tid w)
    → queue_recovery_runs env snapshot visible w ≡ (ok tt, w')
    → All (λ tid. Settled tid w') visible
unfolding queue_recovery_runs queue_read
queue_recovery_runs-Settled env snapshot visible w w' c e =
    let (u, w1, first, rest) =
      next-ok (each (import_thread env snapshot) visible w)
        (λ u v. queue_read env snapshot (read_all visible v.disk) v) e in
    let import : Imported w w1 =
      subst (λ o. Imported w o.1) first
        (each-Imported (import_thread env snapshot)
          (λ tid v. import_thread-Imported env snapshot tid v) visible w) in
    by_read w1 (λ tid. unmoved-Clean w w1 import.same_web import.only_pending tid (c tid))
      (read_all visible w1.disk) refl rest
  where
    by_read :
        (w1 : World)
        → ((tid : String) → Clean tid w1)
        → (o : Result (List (String × List Run))) → read_all visible w1.disk ≡ o
        → queue_read env snapshot o w1 ≡ (ok tt, w')
        → All (λ tid. Settled tid w') visible
    by_read w1 c1 (err x) f g = absurd (cc g)
    by_read w1 c1 (ok ps) f g =
        let here = read_all-read visible w1.disk ps f in
        settled_threads env snapshot visible w1 w' (
          subst (All {A = String × List Run} (λ p. Settled p.0 w')) here (
            queue_read-Settled env snapshot ps w1 w' c1
              (subst (All (Known w1)) (sym here) (read_now-Known visible w1)) g))
