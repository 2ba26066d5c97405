-- ===== src/Dispatch/Steps.antt =====
-- What each step of a new process does to tickets, runs and statuses.
use assist.Base.Dict
use assist.Base.Dict.{get-put, same→≡}
use assist.Runs.{
  Run, NewRun, pending, running, interrupted, cancelled, Result, ok, err, Env, Disk, read,
}
use assist.Runs.Evolution.{runs_of}
use assist.Dispatch.World.{World, next, submit_run, create_run, stage_of}
use assist.Dispatch.Pending.{
  has_status, chosen, followers, submit_chosen, is_owned, dispatch_pending_after,
}
use assist.Dispatch.Handoff.{
  ends_task, hand_over, complete_child_handoff, resume_child, recover_interrupted_child,
  is_superseded, parent_of, behind, is_live, woken, resubmitted, wake_of, resume_of,
}
use assist.Dispatch.Recovery.{handed, Snapshot}
use assist.Dispatch.Startup.{recover_child}
use assist.Dispatch.Progress.{
  Later, Later-refl, Later-trans, submit_run-Later, fewer-Later, discard-Later, new-Later,
}
use assist.Dispatch.Creation.{Made, raised, known, made, create_run-Made}
use assist.Base.{
  ℕ, String, Bool, true, false, not, ◌||◌, ◌≡◌, refl, sym, ap, ◌∙◌, subst, Option, none, some, List,
  same, any, keep, if◌then◌else◌, if_true, if_false, inl, inr, Bool-cases, is_some, arith,
}

-- The number of calls doesn't matter.
pub recounted : {w w' : World} {n : ℕ} → Later w w' → Later w (record w' { calls = n })
recounted v = record {
  tickets_stay = v.tickets_stay;
  only_pending = v.only_pending;
  covered_stay = v.covered_stay;
  clean_stays = v.clean_stays;
}

raised-Later :
    (w : World) (d : Disk) (n : ℕ)
    → ((j : String) → runs_of j d ≡ runs_of j w.disk)
    → Later w (record w { disk = d; calls = n })
raised-Later w d n same_runs =
    fewer-Later w d n (λ s t h. ap (any (has_status s)) (same_runs t) ∙ h)

-- The run that a call of `create` answers is queued.
module _ (env : ℕ → Env) where
  pub handed-Later :
      (snapshot : String → Option Snapshot) (priority : Bool) (a : NewRun) (w : World)
      (o : Result Run × World)
      → Made a w o
      → Later w (handed env snapshot a.thread_id priority o).1
  handed-Later snapshot priority a w _ (raised {d = d} {n = n} same_runs) =
      raised-Later w d n same_runs
  handed-Later snapshot priority a w _ (known {r = r}) =
      recounted (submit_run-Later r a.thread_id priority w)
  handed-Later snapshot priority a w _ (made {r = r} {d = d} {n = n} at p after) =
      new-Later w d n a.thread_id r r priority p after

  pub woken-Later :
      (a : NewRun) (w : World) (o : Result Run × World) → Made a w o → Later w (woken env o).1
  woken-Later a w _ (raised {d = d} {n = n} same_runs) = raised-Later w d n same_runs
  woken-Later a w _ (known {r = r}) = recounted (submit_run-Later r r.thread_id false w)
  woken-Later a w _ (made {r = r} {d = d} {n = n} at p after) =
      subst (λ t. Later w (submit_run r t false (record w { disk = d; calls = n }))) (sym at)
        (new-Later w d n a.thread_id r r false p after)

  of_live :
      {w : World} (r : Run) (w' : World)
      → Later w w'
      → Later w (submit_run r r.thread_id false w')
      → Later w (if is_live env r then submit_run r r.thread_id false w' else w')
  of_live r w' same_tickets more = elim (Bool-cases (is_live env r)) [
    | inl e ↦ subst (Later _) (sym (if_true _ _ e)) more
    | inr e ↦ subst (Later _) (sym (if_false _ _ e)) same_tickets
  ]

  live : (r : Run) → r.status ≡ pending → is_live env r ≡ true
  live r p = ground (arith, p)

  pub resubmitted-Later :
      (a : NewRun) (w : World) (o : Result Run × World) → Made a w o → Later w (resubmitted env o).1
  resubmitted-Later a w _ (raised {d = d} {n = n} same_runs) = raised-Later w d n same_runs
  resubmitted-Later a w _ (known {r = r} {n = n}) =
      of_live r (record w { calls = n }) (recounted (Later-refl w))
        (recounted (submit_run-Later r r.thread_id false w))
  resubmitted-Later a w _ (made {r = r} {d = d} {n = n} at p after) =
      let there : World = record w { disk = d; calls = n } in
      subst (Later w) (sym (if_true (submit_run r r.thread_id false there) there (live r p))) (
        subst (λ t. Later w (submit_run r t false there)) (sym at)
          (new-Later w d n a.thread_id r r false p after))

  pub resume_known-Later : (r : Run) (w : World) → Later w (resubmitted env (ok r, w)).1
  resume_known-Later r w = of_live r w (Later-refl w) (submit_run-Later r r.thread_id false w)

-- Branches.
pub if-Later {ℓ} :
    {A : Type ℓ} {w : World} (b : Bool) (x y : Result A × World)
    → Later w x.1
    → Later w y.1
    → Later w (if b then x else y).1
if-Later true x y h k = h
if-Later false x y h k = k

pub read-Later {ℓ} :
    {A : Type ℓ} (w : World) (f : List Run → World → Result A × World)
    → ((runs : List Run) → Later w (f runs w).1)
    → (o : Result (List Run))
    → Later w (elim o as (λ _. Result A × World) [ err e ↦ (err e, w) | ok runs ↦ f runs w ]).1
read-Later w f h (err e) = Later-refl w
read-Later w f h (ok runs) = h runs

pub next-Later {ℓ} :
    {A B : Type ℓ} {w : World} (o : Result A × World) (f : A → World → Result B × World)
    → Later w o.1
    → ((a : A) (w' : World) → Later w' (f a w').1)
    → Later w (next o f).1
next-Later (err e, w') f h k = h
next-Later (ok a, w') f h k = Later-trans h (k a w')

-- Children.
module _ (env : ℕ → Env) where
  hand_over-Later : (r : Run) (runs : List Run) (w : World) → Later w (hand_over env r runs w).1
  unfolding hand_over wake_of
  hand_over-Later r runs w = if-Later (is_superseded r runs) _ _ (Later-refl w) (
      if-Later (not (is_some (Dict.get (parent_of r) w.disk))) _ _ (discard-Later r.thread_id w)
        (woken-Later env (wake_of r) w _ (create_run-Made env (wake_of r) w refl)))

  pub complete_child_handoff-Later :
      (r : Run) (w : World) → Later w (complete_child_handoff env r w).1
  unfolding complete_child_handoff
  complete_child_handoff-Later r w =
      if-Later (not (ends_task r.status)) _ _ (Later-refl w) (
        read-Later w (hand_over env r) (λ runs. hand_over-Later r runs w) (read r.thread_id w.disk))

  found_or_new-Later :
      (r : Run) (w : World) (o : Option Run)
      → Later w
          (elim o as (λ _. Result {0} Unit × World) [
            | some s ↦ resubmitted env (ok s, w)
            | none ↦ resubmitted env (create_run env (resume_of r) w)
          ]).1
  unfolding resume_of
  found_or_new-Later r w none =
      resubmitted-Later env (resume_of r) w _ (create_run-Made env (resume_of r) w refl)
  found_or_new-Later r w (some s) = resume_known-Later env s w

  resume_child-Later :
      (r : Run) (later : List Run) (w : World) → Later w (resume_child env r later w).1
  unfolding resume_child
  resume_child-Later r later w =
      if-Later (any (has_status cancelled) later) _ _ (Later-refl w) (found_or_new-Later r w _)

  pub recover_interrupted_child-Later :
      (r : Run) (w : World) → Later w (recover_interrupted_child env r w).1
  unfolding recover_interrupted_child
  recover_interrupted_child-Later r w =
      read-Later w
        (λ runs. resume_child env r (keep (λ c. same c.work_id r.work_id) (behind r.id runs)))
        (λ runs. resume_child-Later r _ w) (read r.thread_id w.disk)

  pub recover_child-Later :
      (snapshot : String → Option Snapshot) (r : Run) (w : World)
      → Later w (recover_child env snapshot r w).1
  unfolding recover_child
  recover_child-Later snapshot r w =
      if-Later (has_status pending r || has_status running r) _ _
        (submit_run-Later r r.thread_id false w)
        (if-Later (has_status interrupted r) _ _ (recover_interrupted_child-Later r w) (
          if-Later (ends_task r.status) _ _
            (next-Later (complete_child_handoff env r w) (λ s w'. (ok tt, w'))
              (complete_child_handoff-Later r w) (λ s w'. Later-refl w'))
            (Later-refl w)))

-- dispatch_pending_after
submit_chosen-Later :
    (tid : String) (c : Option (Run × Bool)) (w : World) → Later w (submit_chosen tid c w)
submit_chosen-Later tid none w = Later-refl w
submit_chosen-Later tid (some (r, is_user)) w = submit_run-Later r tid is_user w

pub dispatch_pending_after-Later :
    (tid : String) (rid : Option String) (w : World) → Later w (dispatch_pending_after tid rid w).1
unfolding dispatch_pending_after
dispatch_pending_after-Later tid rid w =
    read-Later w
      (λ runs w'.
        if is_owned (stage_of tid w') runs
        then (ok tt, w')
        else (ok tt, submit_chosen tid (chosen (followers rid runs)) w'))
      (λ runs.
        if-Later (is_owned (stage_of tid w) runs) _ _ (Later-refl w)
          (submit_chosen-Later tid (chosen (followers rid runs)) w))
      (read tid w.disk)
