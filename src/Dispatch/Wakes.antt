-- ===== src/Dispatch/Wakes.antt =====
-- The end of a child's task wakes its parent with one run, however often the handoff is repeated.
use Prim.Native.String.{◌++◌ as ◌<>◌}
use Prim.Native.String as Str
use text.Mathlib.TextLemmas as Text
use assist.Base.Dict
use assist.Base.Dict.{same_self, same→≡}
use assist.Runs.{
  Run, reload, NewRun, create, ok, err, Result, Env, read, stored, is_segment, not_found, truthy,
  Directory,
}
use assist.Runs.Evolution.{runs_of}
use assist.Runs.Idempotence.{retry_returns_run}
use assist.Dispatch.World.{World, submit_run, create_run}
use assist.Dispatch.Handoff.{
  parent_of, wake_of, is_superseded, ends_task, woken, hand_over, complete_child_handoff,
}
use assist.Dispatch.Creation.{Made, raised, known, made, create_run-Made}
use assist.Base.{
  ℕ, suc, String, Bool, true, false, not, ◌≡◌, ◌≢◌, refl, sym, ap, ◌∙◌, subst, Option, none, some,
  List, [], ◌∷◌, ◌++◌, map, same, is_some, if◌then◌else◌, if_true, if_false, inl, inr, Bool-cases,
  arith,
}

-- When the handoff wakes the parent: the task has ended, its run is the last of its work, and the
-- parent is there.
record Woke (env : ℕ → Env) (r : Run) (w : World) (s : Run) (w' : World) : Type 0 where
  ended : ends_task r.status ≡ true
  runs : List Run
  readable : read r.thread_id w.disk ≡ ok runs
  current : is_superseded r runs ≡ false
  parent_there : is_some (Dict.get (parent_of r) w.disk) ≡ true
  after : World
  created : create_run env (wake_of r) w ≡ (ok s, after)
  queued : submit_run s s.thread_id false after ≡ w'

woken-Woke :
    (env : ℕ → Env) (o : Result Run × World) (s : Run) (w' : World)
    → woken env o ≡ (ok (some s), w')
    → (v : World) × (o ≡ (ok s, v)) × (submit_run s s.thread_id false v ≡ w')
woken-Woke env (err e, v) s w' h = absurd (cc h)
woken-Woke env (ok x, v) s w' h =
    let one : x ≡ s = cc h in
    (
      v,
      ap (λ y. (ok y, v)) one,
      ap (λ y. submit_run y y.thread_id false v) (sym one) ∙ ap (λ p. p.1) h,
    )

handoff-Woke :
    (env : ℕ → Env) (r s : Run) (w w' : World)
    → complete_child_handoff env r w ≡ (ok (some s), w')
    → Woke env r w s w'
unfolding complete_child_handoff hand_over
handoff-Woke env r s w w' e = elim (Bool-cases (not (ends_task r.status))) [
  | inl n ↦ absurd (cc (sym (if_true _ _ n) ∙ e))
  | inr n ↦ by_read (ground (arith, n)) (read r.thread_id w.disk) refl (sym (if_false _ _ n) ∙ e)
]
  where
    by_read :
        ends_task r.status ≡ true
        → (o : Result (List Run)) → read r.thread_id w.disk ≡ o
        → (elim o as (λ _. Result (Option Run) × World) [
          | err x ↦ (err x, w)
          | ok runs ↦ hand_over env r runs w
        ])
          ≡ (ok (some s), w')
        → Woke env r w s w'
    by_read t (err x) f g = absurd (cc g)
    by_read t (ok runs) f g = elim (Bool-cases (is_superseded r runs)) [
      | inl b ↦ absurd (cc (sym (if_true _ _ b) ∙ g))
      | inr b ↦ elim (Bool-cases (not (is_some (Dict.get (parent_of r) w.disk)))) [
        | inl p ↦ absurd (cc (sym (if_true _ _ p) ∙ sym (if_false _ _ b) ∙ g))
        | inr p ↦
            let (v, made_it, queued_it) =
              woken-Woke env (create_run env (wake_of r) w) s w'
                (sym (if_false _ _ p) ∙ sym (if_false _ _ b) ∙ g) in
            record {
              ended = t;
              runs = runs;
              readable = f;
              current = b;
              parent_there = ground (arith, p);
              after = v;
              created = made_it;
              queued = queued_it;
            }
      ]
    ]

Woke-handoff :
    (env : ℕ → Env) (r s : Run) (w w' : World)
    → Woke env r w s w'
    → complete_child_handoff env r w ≡ (ok (some s), w')
unfolding complete_child_handoff hand_over
Woke-handoff env r s w w' v =
    if_false _ _ (ap not v.ended)
    ∙ ap by_read v.readable
    ∙ if_false _ _ v.current
    ∙ if_false _ _ (ap not v.parent_there)
    ∙ ap (woken env) v.created
    ∙ ap (λ x. (ok (some s), x)) v.queued
  where
    by_read : Result (List Run) → Result (Option Run) × World
    by_read o = elim o [ err x ↦ (err x, w) | ok runs ↦ hand_over env r runs w ]

-- A directory with a run is there.
there_with_run :
    (o : Option Directory) (rs : List Run) (r : Run)
    → stored o ≡ map reload (rs ++ r ∷ [])
    → is_some o ≡ true
there_with_run (some d) rs r e = refl
there_with_run none [] r e = absurd (cc e)
there_with_run none (x ∷ rs) r e = absurd (cc e)

-- The parent stays, and so do the runs of another thread.
Made-kept :
    (a : NewRun) (w v : World) (s : Run) (t : String) (o : Result Run × World)
    → Made a w o
    → o ≡ (ok s, v)
    → same a.thread_id t ≡ false
    → is_some (Dict.get a.thread_id w.disk) ≡ true
    → (runs_of t v.disk ≡ runs_of t w.disk) × (is_some (Dict.get a.thread_id v.disk) ≡ true)
Made-kept a w v s t _ (raised same_runs) e other there = absurd (cc (ap (λ o. o.0) e))
Made-kept a w v s t _ (known {r = r} {n = n}) e other there =
    let one : w.disk ≡ v.disk = ap (λ o. o.1.disk) e in
    (ap (runs_of t) (sym one), subst (λ d. is_some (Dict.get a.thread_id d) ≡ true) one there)
Made-kept a w v s t _ (made {r = r} {d = d} at p after) e other there =
    let one : d ≡ v.disk = ap (λ o. o.1.disk) e in
    (
      ap (runs_of t) (sym one) ∙ after t ∙ if_false _ _ other,
      subst (λ d'. is_some (Dict.get a.thread_id d') ≡ true) one
          (there_with_run (Dict.get a.thread_id d) (runs_of a.thread_id w.disk) r
            (after a.thread_id ∙ if_true _ _ (same_self a.thread_id))),
    )

abbrev has_no_char : String → Bool
has_no_char Str.[] = true
has_no_char (Str.◌∷◌ c cs) = false

has_no_char-same : (t : String) → has_no_char t ≡ false → same t "" ≡ false
has_no_char-same t h = elim (Bool-cases (same t "")) [
  | inr e ↦ e
  | inl e ↦ let split : false ≡ true = sym h ∙ ap has_no_char (same→≡ t "" e) in absurd (cc split)
]

keyed : (r : Run) → truthy (wake_of r).dispatch_key ≡ true
unfolding wake_of
keyed r = ap not (
    has_no_char-same ("task-completion:" <> r.id)
      (ap has_no_char (Text.cons-append "t" "ask-completion:" r.id)))

-- A handoff that is repeated, by the same process or by a later one, answers the wake of the first,
-- as it is read back, and gives it another ticket; no run is written. The child isn't its own parent.
pub handoff_wakes_once :
    (env env' : ℕ → Env) (r s : Run) (w w' : World)
    → parent_of r ≢ r.thread_id
    → complete_child_handoff env r w ≡ (ok (some s), w')
    → complete_child_handoff env' r w' ≡ (
      ok (some (reload s)),
      submit_run (reload s) s.thread_id false (record w' { calls = suc w'.calls }),
    )
unfolding create_run wake_of reload read
handoff_wakes_once env env' r s w w' other e =
    let v : Woke env r w s w' = handoff-Woke env r s w w' e in
    let (runs_kept, parent_kept) =
      Made-kept (wake_of r) w v.after s r.thread_id _ (create_run-Made env (wake_of r) w refl)
        v.created (ground (arith, other)) v.parent_there in
    let X : World = submit_run s s.thread_id false v.after in
    let disk_there : (create (env w.calls) (wake_of r) w.disk).1 ≡ v.after.disk =
      ap (λ o. o.1.disk) v.created in
    let retried : create (env' X.calls) (wake_of r) v.after.disk ≡ (ok (reload s), v.after.disk) =
      subst (λ d. create (env' X.calls) (wake_of r) d ≡ (ok (reload s), d)) disk_there
        (retry_returns_run (env w.calls) (env' X.calls) (wake_of r) w.disk s (keyed r)
          (λ f. absurd (cc f)) (λ f. absurd (cc f)) (ap (λ o. o.0) v.created)) in
    subst
      (λ x. complete_child_handoff env' r x ≡ (
        ok (some (reload s)),
        submit_run (reload s) s.thread_id false (record x { calls = suc x.calls }),
      ))
      v.queued
      (Woke-handoff env' r (reload s) X _ (record {
        ended = v.ended;
        runs = v.runs;
        readable =
            ap (λ rs. if is_segment r.thread_id then ok rs else err not_found) runs_kept
            ∙ v.readable;
        current = v.current;
        parent_there = parent_kept;
        after = record X { calls = suc X.calls };
        created = ap (λ o. (o.0, record X { disk = o.1; calls = suc X.calls })) retried;
        queued = refl;
      }))
