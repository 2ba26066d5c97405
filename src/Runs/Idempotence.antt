-- ===== src/Runs/Idempotence.antt =====
-- Repeated calls: a retried `create` and a repeated `claim` return the same run and write nothing.
use assist.Base.Dict
use assist.Base.Dict.{same_self}
use assist.Runs.Defs.{Run, reload, same_text}
use assist.Runs.Store.{Disk, Env, Result, ok, read, stored, Directory}
use assist.Runs.Create.{
  NewRun, existing, new_run, admit, dispatched, conflicts, replaced, truthy, cancel_if_pending,
  create, create_checked, create_loaded, settle,
}
use assist.Runs.Evolution.{runs_of, find-stored}
use assist.Runs.Acceptance.{Accepted, Ending, refused, found, new, IsOpen, create-Ending}
use mathlib.Core.List.{map-append}
use assist.Base.{
  String, Bool, true, false, ◌≡◌, ◌≢◌, refl, Option, none, some, List, [], ◌∷◌, ◌++◌, map, inl, inr,
  find, Bool-cases, arith, ap, ◌∙◌, sym, if_true, if_false,
}

abbrev under : Option String → Run → Bool
under key r = same_text r.dispatch_key key

under-reload :
    (key : Option String) (r : Run)
    → truthy key ≡ true
    → under key (reload r) ≡ true
    → under key r ≡ true
unfolding reload
under-reload key r t e = ground arith

find_rewritten :
    (key : Option String) (rs : List Run)
    → truthy key ≡ true
    → find (under key) rs ≡ none
    → find (under key) (map reload rs) ≡ none
find_rewritten key [] t e = refl
find_rewritten key (x ∷ xs) t e = ground (arith, under-reload key x t, find_rewritten key xs t)

under-cancel :
    (key : Option String) (now : String) (r : Run)
    → under key (cancel_if_pending now r) ≡ under key r
under-cancel key now r = ground arith

find_cancelled :
    (key : Option String) (now : String) (rs : List Run)
    → find (under key) rs ≡ none
    → find (under key) (map (cancel_if_pending now) rs) ≡ none
find_cancelled key now [] e = refl
find_cancelled key now (x ∷ xs) e =
    ground (arith, under-cancel key now x, find_cancelled key now xs)

find-append {ℓ} :
    {A : Type ℓ} (p : A → Bool) (xs : List A) (y : A)
    → find p xs ≡ none
    → p y ≡ true
    → find p (xs ++ y ∷ []) ≡ some y
find-append p [] y e h = if_true _ _ h
find-append p (x ∷ xs) y e h = ground (arith, find-append p xs y)

find-replaced :
    (env : Env) (a : NewRun) (runs : List Run)
    → find (under a.dispatch_key) runs ≡ none
    → find (under a.dispatch_key) (replaced env a runs) ≡ none
unfolding replaced
find-replaced env a runs e = elim (Bool-cases a.cancel_pending) [
  | inl c ↦ rw c (find_cancelled a.dispatch_key env.now runs e)
  | inr c ↦ rw c e
]

own_key :
    (env : Env) (a : NewRun)
    → truthy a.dispatch_key ≡ true
    → under a.dispatch_key (reload (new_run env a)) ≡ true
unfolding reload new_run
own_key env a t = ground arith

-- The new run, read back, is the one under its dispatch key.
dispatched_new :
    (env : Env) (a : NewRun) (runs ns : List Run)
    → truthy a.dispatch_key ≡ true
    → Accepted env a runs ns
    → dispatched a (map reload ns) ≡ some (reload (new_run env a))
unfolding dispatched
dispatched_new env a runs ns t v =
    let key = a.dispatch_key in
    let nothing : find (under key) runs ≡ none = ground (arith, t, v.no_dispatch) in
    if_true _ _ t
    ∙ ap (find (under key)) (
        ap (map reload) v.appended_last
        ∙ map-append reload (replaced env a runs) (new_run env a ∷ []))
    ∙ find-append (under key) (map reload (replaced env a runs)) (reload (new_run env a))
        (find_rewritten key (replaced env a runs) t (find-replaced env a runs nothing))
        (own_key env a t)

no-conflicts :
    (env : Env) (a : NewRun)
    → a.parent_thread_id ≢ some ""
    → a.parent_run_id ≢ some ""
    → conflicts a (reload (new_run env a)) ≡ false
unfolding conflicts reload new_run
no-conflicts env a p q = ground arith

admit-existing :
    (env : Env) (a : NewRun) (runs : List Run) (r : Run)
    → dispatched a runs ≡ some r
    → conflicts a r ≡ false
    → admit env a runs ≡ ok (existing r)
unfolding admit
admit-existing env a runs r e n = ground arith

pub existing-inverse :
    (env : Env) (a : NewRun) (runs : List Run) (r : Run)
    → admit env a runs ≡ ok (existing r)
    → (dispatched a runs ≡ some r) × (conflicts a r ≡ false)
unfolding admit
existing-inverse env a runs r e = (ground arith, ground arith)

create_open :
    (env : Env) (a : NewRun) (disk : Disk) (r : Run)
    → IsOpen a disk
    → admit env a (runs_of a.thread_id disk) ≡ ok (existing r)
    → create env a disk ≡ (ok r, disk)
unfolding create read
create_open env a disk r o e =
    (λ i. create_checked env a disk (o.valid i))
    ∙ if_false _ _ o.clear
    ∙ ap (create_loaded env a disk) (if_true _ _ o.segment)
    ∙ ap (settle env a disk) e

dispatched-reload :
    (a : NewRun) (o : Option Directory) (s : Run) → dispatched a (stored o) ≡ some s → reload s ≡ s
unfolding dispatched
dispatched-reload a o s h = find-stored (under a.dispatch_key) o s (ground arith)

-- A caller that retries `create` with its dispatch key gets the run that it was promised, as it is
-- read back, and nothing is written; so a retry cannot start the work twice. (An empty text for a
-- parent is read back as none, and so would conflict.)
pub retry_returns_run :
    (env env' : Env) (a : NewRun) (disk : Disk) (r : Run)
    → truthy a.dispatch_key ≡ true
    → a.parent_thread_id ≢ some ""
    → a.parent_run_id ≢ some ""
    → (create env a disk).0 ≡ ok r
    → create env' a (create env a disk).1 ≡ (ok (reload r), (create env a disk).1)
retry_returns_run env env' a disk r t p q e = ended (create env a disk) (create-Ending env a disk) e
  where
    reread : (s : Run) → dispatched a (runs_of a.thread_id disk) ≡ some s → reload s ≡ s
    reread s h = dispatched-reload a (Dict.get a.thread_id disk) s h

    ended :
        (o : Result Run × Disk)
        → Ending env a disk o
        → o.0 ≡ ok r
        → create env' a o.1 ≡ (ok (reload r), o.1)
    ended o (refused same_runs) f = absurd (cc f)
    ended o (found {r = s} open_before there) f =
        let one : s ≡ r = cc in
        let (under_key, agrees) = existing-inverse env a (runs_of a.thread_id disk) s there in
        let as_read : reload s ≡ s = reread s under_key in
        create_open env' a disk s open_before
          (admit-existing env' a (runs_of a.thread_id disk) s under_key agrees)
        ∙ ap (λ x. (ok x, disk)) (sym as_read ∙ ap reload one)
    ended o (new {ns = ns} {r = s} {disk' = disk'} open_after v made after) f =
        let one : r ≡ new_run env a = cc in
        let back : runs_of a.thread_id disk' ≡ map reload ns =
          after a.thread_id ∙ if_true _ _ (same_self a.thread_id) in
        create_open env' a disk' (reload (new_run env a)) open_after (
          admit-existing env' a (runs_of a.thread_id disk') _
            (ap (dispatched a) back ∙ dispatched_new env a _ ns t v) (no-conflicts env a p q))
        ∙ ap (λ x. (ok (reload x), disk')) (sym one)
