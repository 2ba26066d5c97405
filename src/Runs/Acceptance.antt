-- ===== src/Runs/Acceptance.antt =====
-- What `create` and `import_legacy` do to the runs that are there.
use assist.Base.Dict
use assist.Base.Dict.{same_self}
use assist.Runs.Defs.{pending, Run, reload, may_become}
use assist.Runs.Store.{
  Disk, Env, write, read, Result, ok, err, not_found, visible_thread, is_segment, stored, with_runs,
  Directory, RunError,
}
use assist.Runs.Create.{
  NewRun, Admission, existing, appended, new_run, admit, dispatched, replaced, in_flight,
  is_pending, reached, cancel_if_pending, marked, mark, undone, accepted, settle, create_loaded,
  trespasses, create_checked, create, check,
}
use assist.Runs.Evolution.{
  Becomes, Evolves, Evolves-refl, Evolves-append, runs_of, write-runs, rewritten-Evolves,
}
use assist.Base.{
  String, Bool, true, false, ◌&&◌, ◌≡◌, refl, inl, inr, Option, none, some, List, [], ◌∷◌, ◌++◌,
  map, same, if◌then◌else◌, Option-cases, Bool-cases, arith, sym, subst, if_true, if_false, All,
  any, length, count_if,
}

cancel_if_pending-Becomes :
    (now : String) (r : Run)
    → ((cancel_if_pending now r).id ≡ r.id) × Becomes r.status (cancel_if_pending now r).status
unfolding may_become
cancel_if_pending-Becomes now r = elim (Bool-cases (is_pending r)) [
  | inl p ↦ (ground arith, inr (ground arith))
  | inr o ↦ (ground arith, inl (ground arith))
]

cancelling-Evolves :
    (now : String) (runs ns : List Run)
    → All (λ n. n.status ≡ pending) ns
    → Evolves runs (map (cancel_if_pending now) runs ++ ns)
cancelling-Evolves now [] ns h = h
cancelling-Evolves now (r ∷ rs) ns h =
    let (same_id, next) = cancel_if_pending-Becomes now r in
    (same_id, next, cancelling-Evolves now rs ns h)

-- When `admit` accepts a new run: nothing stands under its dispatch key, nothing in flight is
-- replaced, both limits leave room, its id is free, and it goes to the end.
pub record Accepted (env : Env) (a : NewRun) (runs ns : List Run) : Type 0 where
  pub no_dispatch : dispatched a runs ≡ none
  pub none_running : a.cancel_pending && any in_flight runs ≡ false
  pub room : reached a.max_runs (length (replaced env a runs)) ≡ false
  pub pending_room : reached a.max_pending (count_if is_pending (replaced env a runs)) ≡ false
  pub free_id : any (λ r. same r.id (new_run env a).id) (replaced env a runs) ≡ false
  pub appended_last : ns ≡ replaced env a runs ++ new_run env a ∷ []

pub admit-Accepted :
    (env : Env) (a : NewRun) (runs ns : List Run)
    → admit env a runs ≡ ok (appended ns)
    → Accepted env a runs ns
unfolding admit
admit-Accepted env a runs ns e = record {
  no_dispatch = ground arith;
  none_running = ground arith;
  room = ground arith;
  pending_room = ground arith;
  free_id = ground arith;
  appended_last = ground arith;
}

admit-Evolves :
    (env : Env) (a : NewRun) (runs ns : List Run) → Accepted env a runs ns → Evolves runs ns
unfolding replaced new_run
admit-Evolves env a runs ns v =
    subst (Evolves runs) (sym v.appended_last) (elim (Bool-cases a.cancel_pending) [
      | inl e ↦
          subst (λ k. Evolves runs (k ++ new_run env a ∷ [])) (sym (if_true _ _ e))
            (cancelling-Evolves env.now runs _ (refl, tt))
      | inr e ↦
          subst (λ k. Evolves runs (k ++ new_run env a ∷ [])) (sym (if_false _ _ e))
            (Evolves-append runs _ (refl, tt))
    ])

stored-mark : (o : Option Directory) → stored (some (mark o)) ≡ stored o
stored-mark none = refl
stored-mark (some d) = refl

pub runs_of-marked :
    (a : NewRun) (j : String) (disk : Disk) → runs_of j (marked a disk) ≡ runs_of j disk
unfolding marked
runs_of-marked a j disk = ground (
  arith,
  Dict.get-put a.thread_id j (mark (Dict.get a.thread_id disk)) disk,
  stored-mark (Dict.get a.thread_id disk),
)

pub runs_of-undone :
    (a : NewRun) (j : String) (disk : Disk) → runs_of j (undone a disk) ≡ runs_of j disk
unfolding undone
runs_of-undone a j disk =
    ground (arith, Dict.get-remove a.thread_id j (marked a disk), runs_of-marked a j disk)

-- What lets a call of `create` reach the runs of its thread.
pub record IsOpen (a : NewRun) (disk : Disk) : Type 0 where
  pub valid : check a ≡ none
  pub segment : is_segment a.thread_id ≡ true
  pub clear : trespasses a disk ≡ false

write-clear :
    (env : Env) (a : NewRun) (ns : List Run) (disk disk' : Disk)
    → write env a.thread_id ns (marked a disk) ≡ some disk'
    → trespasses a disk' ≡ false
unfolding write marked
write-clear env a ns disk disk' w = elim (Option-cases (Dict.get a.thread_id (marked a disk))) [
  | inl gone ↦ ground (arith, gone)
  | inr (d, there) ↦ ground (
    arith,
    there,
    Dict.get-put a.thread_id a.thread_id (with_runs ns d) (marked a disk),
    Dict.get-put a.thread_id a.thread_id (mark (Dict.get a.thread_id disk)) disk,
    same_self a.thread_id,
  )
]

-- How a call of `create` can end. Also a refused call leaves the runs of every thread as they were.
pub data Ending (env : Env) (a : NewRun) (disk : Disk) : Result Run × Disk → Type 0 where
  refused :
      {e : RunError} {disk' : Disk}
      → ((j : String) → runs_of j disk' ≡ runs_of j disk)
      → Ending env a disk (err e, disk')
  found :
      {r : Run}
      → IsOpen a disk
      → admit env a (runs_of a.thread_id disk) ≡ ok (existing r)
      → Ending env a disk (ok r, disk)
  new :
      {ns : List Run} {r : Run} {disk' : Disk}
      → IsOpen a disk'
      → Accepted env a (runs_of a.thread_id disk) ns
      → r ≡ new_run env a
      → ((j : String)
          → runs_of j disk' ≡ (if same a.thread_id j then map reload ns else runs_of j disk))
      → Ending env a disk (ok r, disk')

settle-Ending :
    (env : Env) (a : NewRun) (disk : Disk) (m : Result Admission)
    → IsOpen a disk
    → admit env a (runs_of a.thread_id disk) ≡ m
    → Ending env a disk (settle env a disk m)
unfolding settle
settle-Ending env a disk (err e) safe q = refused (λ j. refl)
settle-Ending env a disk (ok (existing r)) safe q = found safe q
settle-Ending env a disk (ok (appended ns)) safe q =
    end (write env a.thread_id ns (marked a disk)) refl
  where
    end :
        (o : Option Disk)
        → write env a.thread_id ns (marked a disk) ≡ o
        → Ending env a disk (accepted env a disk o)
    end none w = refused (λ j. runs_of-undone a j disk)
    end (some disk') w =
        new
          (record {
            valid = safe.valid;
            segment = safe.segment;
            clear = write-clear env a ns disk disk' w;
          })
          (admit-Accepted env a _ ns q) refl
          (λ j. ground (
            arith,
            write-runs env a.thread_id j ns (marked a disk) disk' w,
            runs_of-marked a j disk,
          ))

pub create-Ending : (env : Env) (a : NewRun) (disk : Disk) → Ending env a disk (create env a disk)
unfolding create read
create-Ending env a disk = checked (check a) refl
  where
    loaded :
        (b : Bool)
        → check a ≡ none
        → trespasses a disk ≡ false
        → is_segment a.thread_id ≡ b
        → Ending env a disk
            (create_loaded env a disk (if b then ok (runs_of a.thread_id disk) else err not_found))
    loaded true v t s =
        settle-Ending env a disk (admit env a (runs_of a.thread_id disk))
          (record { valid = v; segment = s; clear = t }) refl
    loaded false v t s = refused (λ j. refl)

    gate :
        (b : Bool)
        → check a ≡ none
        → trespasses a disk ≡ b
        → Ending env a disk (
            if b
            then (err visible_thread, disk)
            else create_loaded env a disk
                (if is_segment a.thread_id then ok (runs_of a.thread_id disk) else err not_found))
    gate true v t = refused (λ j. refl)
    gate false v t = loaded (is_segment a.thread_id) v t refl

    checked : (c : Option RunError) → check a ≡ c → Ending env a disk (create_checked env a disk c)
    checked (some e) v = refused (λ j. refl)
    checked none v = gate (trespasses a disk) v refl

Ending-Evolves :
    {env : Env} {a : NewRun} {disk : Disk} {o : Result Run × Disk} (j : String)
    → Ending env a disk o
    → Evolves (runs_of j disk) (runs_of j o.1)
Ending-Evolves {disk} j (refused same_runs) =
    subst (Evolves (runs_of j disk)) (sym (same_runs j)) (Evolves-refl (runs_of j disk))
Ending-Evolves {disk} j (found safe q) = Evolves-refl (runs_of j disk)
Ending-Evolves {env} {a} {disk} j (new {ns = ns} safe v r after) =
    subst (Evolves (runs_of j disk)) (sym (after j))
      (rewritten-Evolves a.thread_id j ns disk (admit-Evolves env a _ ns v))

-- `create` keeps every run that is there in its place, but for pending ones that it cancels, and
-- adds at most one, which is pending. It does so also where it fails.
pub create-Evolves :
    (env : Env) (a : NewRun) (j : String) (disk : Disk)
    → Evolves (runs_of j disk) (runs_of j (create env a disk).1)
create-Evolves env a j disk = Ending-Evolves j (create-Ending env a disk)
