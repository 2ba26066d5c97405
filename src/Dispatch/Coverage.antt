-- ===== src/Dispatch/Coverage.antt =====
-- When `_dispatch_pending_after` leaves a ticket for a thread's pending work.
use assist.Runs.{Run, pending, Result, ok, err, Env, Disk, read, is_segment}
use assist.Runs.Evolution.{runs_of}
use assist.Dispatch.World.{World, next, stage_of}
use assist.Dispatch.Pending.{
  has_status, is_user_turn, chosen, followers, submit_chosen, is_owned, dispatch_pending_after,
}
use assist.Dispatch.Recovery.{handed, Snapshot}
use assist.Dispatch.Progress.{is_queued, has_any, Covered, submit_run-queued}
use assist.Base.{
  ℕ, String, Bool, true, false, ◌≡◌, refl, sym, ap, ◌∙◌, subst, Option, none, some, List, [], ◌∷◌,
  any, find, if◌then◌else◌, if_true, if_false, inl, inr, Bool-cases, arith,
}

-- What a call that returns has done.
pub next-ok {ℓ} :
    {A B : Type ℓ} (o : Result A × World) (f : A → World → Result B × World) {b : B} {w' : World}
    → next o f ≡ (ok b, w')
    → (a : A) × (w1 : World) × (o ≡ (ok a, w1)) × (f a w1 ≡ (ok b, w'))
next-ok (err e, w1) f h = absurd (cc h)
next-ok (ok a, w1) f h = (a, w1, refl, h)

pub handed-queued :
    (env : ℕ → Env) (snapshot : String → Option Snapshot) (tid : String) (priority : Bool)
    (o : Result Run × World) {w' : World}
    → handed env snapshot tid priority o ≡ (ok tt, w')
    → is_queued tid w'.queue ≡ true
handed-queued env snapshot tid priority (err e, w1) h = absurd (cc h)
handed-queued env snapshot tid priority (ok s, w1) h =
    ap (λ o. is_queued tid o.1.queue) (sym h) ∙ submit_run-queued s tid priority w1

pub read-runs :
    (tid : String) (disk : Disk) (runs : List Run)
    → read tid disk ≡ ok runs
    → runs ≡ runs_of tid disk
unfolding read
read-runs tid disk runs e = elim (Bool-cases (is_segment tid)) [
  | inl s ↦ ok_is (sym (if_true _ _ s) ∙ e)
  | inr s ↦ absurd (cc (sym (if_false _ _ s) ∙ e))
]
  where
    ok_is : ok (runs_of tid disk) ≡ ok runs → runs ≡ runs_of tid disk
    ok_is h = cc

-- Nothing is chosen where nothing is pending.
chosen-none : (rs : List Run) → chosen rs ≡ none → rs ≡ []
chosen-none [] e = refl
chosen-none (r ∷ rs) e = by_find (find is_user_turn (r ∷ rs)) e
  where
    by_find :
        (o : Option Run)
        → (elim o as (λ _. Option (Run × Bool)) [
          | some s ↦ some (s, true)
          | none ↦ some (r, false)
        ])
          ≡ none
        → r ∷ rs ≡ []
    by_find none e = absurd (cc e)
    by_find (some s) e = absurd (cc e)

followers-none : (rs : List Run) → followers none rs ≡ [] → any (has_status pending) rs ≡ false
followers-none [] e = refl
followers-none (r ∷ rs) e = elim (Bool-cases (has_status pending r)) [
  | inl p ↦ absurd (ground (arith, e, p))
  | inr p ↦
      let rest : followers none rs ≡ [] = ground (arith, e, p) in
      ground (arith, p, followers-none rs rest)
]

submit_chosen-Covered :
    (tid : String) (c : Option (Run × Bool)) (w : World)
    → (c ≡ none → has_any pending tid w ≡ false)
    → Covered tid (submit_chosen tid c w)
submit_chosen-Covered tid none w h = inr (h refl)
submit_chosen-Covered tid (some (r, is_user)) w h = inl (submit_run-queued r tid is_user w)

pub dispatch_pending_after-Covered :
    (tid : String) (w w' : World)
    → dispatch_pending_after tid none w ≡ (ok tt, w')
    → is_owned (stage_of tid w) (runs_of tid w.disk) ≡ false
    → Covered tid w'
unfolding dispatch_pending_after
dispatch_pending_after-Covered tid w w' e own = by_read (read tid w.disk) refl e
  where
    by_read :
        (o : Result (List Run))
        → read tid w.disk ≡ o
        → (elim o as (λ _. Result {0} Unit × World) [
          | err e ↦ (err e, w)
          | ok runs ↦
              if is_owned (stage_of tid w) runs
              then (ok tt, w)
              else (ok tt, submit_chosen tid (chosen (followers none runs)) w)
        ])
          ≡ (ok tt, w')
        → Covered tid w'
    by_read (err x) f g = absurd (cc g)
    by_read (ok runs) f g =
        let here = read-runs tid w.disk runs f in
        let o = ap (is_owned (stage_of tid w)) here ∙ own in
        subst (Covered tid) (ap (λ x. x.1) (sym (if_false _ _ o) ∙ g)) (
          submit_chosen-Covered tid (chosen (followers none runs)) w
            (λ c. ap (any (has_status pending)) (sym here) ∙ followers-none runs (chosen-none _ c)))
