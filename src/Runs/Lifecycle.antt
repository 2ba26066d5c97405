-- ===== src/Runs/Lifecycle.antt =====
-- Every update of a run follows the transitions, and touches no other run.
use assist.Runs.Defs.{Status, is_status, Run, may_become}
use assist.Runs.Store.{Disk, Env, write, read, ok, err, not_found, is_segment}
use assist.Runs.Update.{
  Change, Verdict, leave, change, refuse, find_run, same_run, replace_run, touched, moved, judge,
  written, put_back, update_found, update_loaded, update_run, transition, cancel_pending,
  judge_pending, rejects,
}
use assist.Runs.Evolution.{Becomes, Evolves, Evolves-refl, runs_of, write-Evolves}
use assist.Base.{
  String, Bool, true, false, ◌≡◌, refl, ◌⊎◌, inl, inr, Option, none, some, List, [], ◌∷◌,
  if◌then◌else◌, Bool-cases, arith, ap, ◌∙◌, sym, subst, if_true, if_false,
}

-- A decision about a run that keeps its id and follows the transitions.
abbrev pub Lawful : (Run → Verdict) → Type 0
Lawful decide = (r c : Run) → decide r ≡ change c → (c.id ≡ r.id) × Becomes r.status c.status

pub judge-Lawful : (env : Env) (s : Status) (c : Change) → Lawful (judge env s c)
unfolding judge touched moved
judge-Lawful env s c r c' e = elim (Bool-cases (is_status s r.status)) [
  | inl same_state ↦ (ground arith, inl (ground arith))
  | inr other ↦ (ground arith, inr (ground arith))
]

pub judge_pending-Lawful : (env : Env) → Lawful (judge_pending env)
unfolding judge_pending may_become
judge_pending-Lawful env r c e = (ground arith, inr (ground arith))

pub same_run_sound : (x r : Run) → same_run x r ≡ true → x ≡ r
same_run_sound x r e = ground arith

replace_run-Evolves :
    (r c : Run) (runs : List Run)
    → c.id ≡ r.id
    → Becomes r.status c.status
    → Evolves runs (replace_run r c runs)
unfolding replace_run
replace_run-Evolves r c [] k b = tt
replace_run-Evolves r c (x ∷ xs) k b = elim (Bool-cases (same_run x r)) [
  | inl e ↦
      let one : x ≡ r = same_run_sound x r e in
      subst (Evolves (x ∷ xs)) (sym (if_true _ _ e)) (
        k ∙ ap (λ y. y.id) (sym one),
        subst (λ y. Becomes y.status c.status) (sym one) b,
        Evolves-refl xs,
      )
  | inr e ↦
      subst (Evolves (x ∷ xs)) (sym (if_false _ _ e))
        (refl, inl refl, replace_run-Evolves r c xs k b)
]

-- What an update leaves behind: the disk as it was, or one lawful change written back.
pub record Written (env : Env) (tid : String) (decide : Run → Verdict) (disk disk' : Disk)
    : Type 0 where
  pub old : Run
  pub new : Run
  pub decided : decide old ≡ change new
  pub wrote : write env tid (replace_run old new (runs_of tid disk)) disk ≡ some disk'

-- The outcome of an update, on the disk.
abbrev pub Outcome : Env → String → (Run → Verdict) → Disk → Disk → Type 0
Outcome env tid decide disk disk' = (disk' ≡ disk) ⊎ Written env tid decide disk disk'

put_back-cases :
    (env : Env) (tid : String) (decide : Run → Verdict) (r : Run) (v : Verdict) (disk : Disk)
    → decide r ≡ v
    → Outcome env tid decide disk (put_back env tid r v (runs_of tid disk) disk).1
unfolding put_back
put_back-cases env tid decide r leave disk e = inl refl
put_back-cases env tid decide r (refuse x) disk e = inl refl
put_back-cases env tid decide r (change c) disk e =
    end (write env tid (replace_run r c (runs_of tid disk)) disk) refl
  where
    end :
        (o : Option Disk)
        → write env tid (replace_run r c (runs_of tid disk)) disk ≡ o
        → Outcome env tid decide disk (written c disk o).1
    end none w = inl refl
    end (some disk') w = inr (record { old = r; new = c; decided = e; wrote = w })

pub update_run-cases :
    (env : Env) (tid rid : String) (decide : Run → Verdict) (disk : Disk)
    → Outcome env tid decide disk (update_run env tid rid decide disk).1
unfolding update_run read put_back
update_run-cases env tid rid decide disk = loaded (is_segment tid)
  where
    found :
        (o : Option Run)
        → Outcome env tid decide disk (update_found env tid decide (runs_of tid disk) disk o).1
    found none = inl refl
    found (some r) = put_back-cases env tid decide r (decide r) disk refl

    loaded :
        (b : Bool)
        → Outcome env tid decide disk
            (update_loaded env tid rid decide disk
              (if b then ok (runs_of tid disk) else err not_found)).1
    loaded true = found (find_run rid (runs_of tid disk))
    loaded false = inl refl

Written-Evolves :
    (env : Env) (tid j : String) (decide : Run → Verdict) (disk disk' : Disk)
    → Lawful decide
    → Written env tid decide disk disk'
    → Evolves (runs_of j disk) (runs_of j disk')
Written-Evolves env tid j decide disk disk' lawful w =
    let (same_id, next) = lawful w.old w.new w.decided in
    let step = replace_run-Evolves w.old w.new (runs_of tid disk) same_id next in
    write-Evolves env tid j _ disk disk' w.wrote step

-- What an update does on the disk is lawful for every thread.
pub update_run-Evolves :
    (env : Env) (tid rid j : String) (decide : Run → Verdict) (disk : Disk)
    → Lawful decide
    → Evolves (runs_of j disk) (runs_of j (update_run env tid rid decide disk).1)
update_run-Evolves env tid rid j decide disk lawful =
    elim (update_run-cases env tid rid decide disk) [
      | inl e ↦
          subst (λ d. Evolves (runs_of j disk) (runs_of j d)) (sym e)
            (Evolves-refl (runs_of j disk))
      | inr w ↦ Written-Evolves env tid j decide disk _ lawful w
    ]

pub transition-Evolves :
    (env : Env) (tid rid j : String) (s : Status) (c : Change) (disk : Disk)
    → Evolves (runs_of j disk) (runs_of j (transition env tid rid s c disk).1)
unfolding transition
transition-Evolves env tid rid j s c disk = elim (Bool-cases (rejects c.active_ms)) [
  | inl bad ↦ rw bad (Evolves-refl (runs_of j disk))
  | inr good ↦
      rw good (update_run-Evolves env tid rid j (judge env s c) disk (judge-Lawful env s c))
]

pub cancel_pending-Evolves :
    (env : Env) (tid rid j : String) (disk : Disk)
    → Evolves (runs_of j disk) (runs_of j (cancel_pending env tid rid disk).1)
unfolding cancel_pending
cancel_pending-Evolves env tid rid j disk =
    update_run-Evolves env tid rid j (judge_pending env) disk (judge_pending-Lawful env)
