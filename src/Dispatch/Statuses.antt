-- ===== src/Dispatch/Statuses.antt =====
-- What writing a status leaves, and the recovery of a busy status.
use assist.Web.{WebState, Status as Projection, get_status, set_status}
use assist.Web.Written.{get_status-set_status}
use assist.Base.Dict.{same_self}
use assist.Runs.{Run, running, ok, Env}
use assist.Runs.Evolution.{runs_of}
use assist.Dispatch.World.{World, next, stored_status, put_status}
use assist.Dispatch.Pending.{has_status, is_owned, dispatch_pending_after}
use assist.Dispatch.Recovery.{
  Snapshot, ready, gave_up, Decision, resume, finalize, redispatch, give_up,
}
use assist.Dispatch.Startup.{recover_status}
use assist.Dispatch.Progress.{has_any, Covered, Later, Later-refl}
use assist.Dispatch.Creation.{create_run-Made}
use assist.Dispatch.Steps.{recounted, handed-Later, next-Later, dispatch_pending_after-Later}
use assist.Dispatch.Coverage.{next-ok, handed-queued, dispatch_pending_after-Covered}
use assist.Base.{
  String-discrete, ℕ, suc, String, true, false, ◌≡◌, refl, sym, ap, ◌∙◌, subst, Option, none, some,
  List, same, any, if_true, if_false, inl, inr, Bool-cases, arith,
}

-- The status is written, or nothing is; where it isn't that of a paused turn, or names no run.
pub put_status-Later :
    (env : ℕ → Env) (tid : String) (st : Projection) (w : World)
    → (same st.stage "paused" ≡ true → st.fields.pending_run_id ≡ none)
    → Later w (put_status env tid st w).1
unfolding put_status
put_status-Later env tid st w c = by_write _ refl
  where
    by_write :
        (o : Option WebState)
        → set_status (env w.calls).writes (env w.calls).writes tid st w.web ≡ o
        → Later w (stored_status (record w { calls = suc w.calls }) o).1
    by_write none e = recounted (Later-refl w)
    by_write (some u) e = record {
      tickets_stay = λ t h. h;
      only_pending = λ s t o h. h;
      covered_stay = λ t h. h;
      clean_stays = λ t h. elim (Bool-cases (same tid t)) [
        | inl i ↦
            let same_status = get_status-set_status _ _ tid t st w.web u e ∙ if_true _ _ i in
            λ p. inl (
              ap (λ x. x.fields.pending_run_id) same_status
              ∙ c (ap (λ x. same x.stage "paused") (sym same_status) ∙ p))
        | inr i ↦
            let same_status = get_status-set_status _ _ tid t st w.web u e ∙ if_false _ _ i in
            λ p. elim (h (ap (λ x. same x.stage "paused") (sym same_status) ∙ p)) [
              | inl n ↦ inl (ap (λ x. x.fields.pending_run_id) same_status ∙ n)
              | inr n ↦ inr n
            ]
      ];
    }

pub put_status-stage :
    (env : ℕ → Env) (tid : String) (st : Projection) (w w' : World)
    → put_status env tid st w ≡ (ok tt, w')
    → get_status tid w'.web ≡ st
unfolding put_status
put_status-stage env tid st w w' e = by_write _ refl e
  where
    by_write :
        (o : Option WebState)
        → set_status (env w.calls).writes (env w.calls).writes tid st w.web ≡ o
        → stored_status (record w { calls = suc w.calls }) o ≡ (ok tt, w')
        → get_status tid w'.web ≡ st
    by_write none f g = absurd (cc g)
    by_write (some u) f g =
        ap (λ o. get_status tid o.1.web) (sym g)
        ∙ get_status-set_status _ _ tid tid st w.web u f
        ∙ if_true _ _ (same_self tid)

pub not_owned :
    (stage : String) (rs : List Run)
    → any (has_status running) rs ≡ false
    → same stage "paused" ≡ false
    → is_owned stage rs ≡ false
not_owned stage rs h p = ground (arith, h, p)

pub recover_status-Later :
    (env : ℕ → Env) (snapshot : String → Option Snapshot) (d : Decision) (tid : String) (w : World)
    → Later w (recover_status env snapshot d tid w).1
unfolding recover_status
recover_status-Later env snapshot finalize tid w =
    next-Later (put_status env tid ready w) (λ u w'. dispatch_pending_after tid none w')
      (put_status-Later env tid ready w (λ p. refl))
      (λ u w'. dispatch_pending_after-Later tid none w')
recover_status-Later env snapshot give_up tid w =
    next-Later (put_status env tid (gave_up _) w) (λ u w'. dispatch_pending_after tid none w')
      (put_status-Later env tid (gave_up _) w (λ p. refl))
      (λ u w'. dispatch_pending_after-Later tid none w')
recover_status-Later env snapshot resume tid w =
    handed-Later env snapshot false _ w _ (create_run-Made env _ w refl)
recover_status-Later env snapshot redispatch tid w =
    handed-Later env snapshot false _ w _ (create_run-Made env _ w refl)

-- A status that isn't that of a paused turn is written, and the pending work is queued.
idle-Covered :
    (env : ℕ → Env) (tid : String) (st : Projection) (w w' : World)
    → same st.stage "paused" ≡ false
    → (same st.stage "paused" ≡ true → st.fields.pending_run_id ≡ none)
    → has_any running tid w ≡ false
    → next (put_status env tid st w) (λ u w1. dispatch_pending_after tid none w1) ≡ (ok tt, w')
    → Covered tid w'
idle-Covered env tid st w w' idle c h e =
    let (u, w1, put, rest) = next-ok (put_status env tid st w) _ e in
    let before : Later w w1 = subst (λ o. Later w o.1) put (put_status-Later env tid st w c) in
    dispatch_pending_after-Covered tid w1 w' rest (
      not_owned _ (runs_of tid w1.disk) (before.only_pending running tid (ground arith) h)
        (ap (λ x. same x.stage "paused") (put_status-stage env tid st w w1 put) ∙ idle))

pub recover_status-Covered :
    (env : ℕ → Env) (snapshot : String → Option Snapshot) (d : Decision) (tid : String)
    (w w' : World)
    → has_any running tid w ≡ false
    → recover_status env snapshot d tid w ≡ (ok tt, w')
    → Covered tid w'
unfolding recover_status String-discrete
recover_status-Covered env snapshot finalize tid w w' h e =
    idle-Covered env tid ready w w' refl (λ p. refl) h e
recover_status-Covered env snapshot give_up tid w w' h e =
    idle-Covered env tid (gave_up _) w w' refl (λ p. refl) h e
recover_status-Covered env snapshot resume tid w w' h e =
    inl (handed-queued env snapshot tid false _ e)
recover_status-Covered env snapshot redispatch tid w w' h e =
    inl (handed-queued env snapshot tid false _ e)
