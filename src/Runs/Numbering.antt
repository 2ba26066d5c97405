-- ===== src/Runs/Numbering.antt =====
-- A transition keeps the ids of a thread's runs, in their order.
use assist.Runs.Defs.{Status, Run, reload}
use assist.Runs.Store.{Disk, Env}
use assist.Runs.Update.{Change, rejects, judge, replace_run, same_run, transition, Verdict}
use assist.Runs.Evolution.{runs_of, write-runs}
use assist.Runs.Lifecycle.{Lawful, judge-Lawful, same_run_sound, Written, update_run-cases}
use assist.Base.Dict.{same→≡}
use assist.Base.{
  String, ◌≡◌, refl, sym, ap, ◌∙◌, List, [], ◌∷◌, map, same, if_true, if_false, inl, inr,
  Bool-cases,
}

abbrev pub ids_of : List Run → List String
ids_of rs = map (λ r. r.id) rs

reload-ids : (rs : List Run) → ids_of (map reload rs) ≡ ids_of rs
unfolding reload
reload-ids [] = refl
reload-ids (r ∷ rs) = ap (λ l. r.id ∷ l) (reload-ids rs)

replace_run-ids :
    (r c : Run) (runs : List Run) → c.id ≡ r.id → ids_of (replace_run r c runs) ≡ ids_of runs
unfolding replace_run
replace_run-ids r c [] k = refl
replace_run-ids r c (x ∷ xs) k = elim (Bool-cases (same_run x r)) [
  | inl e ↦
      ap ids_of (if_true _ _ e)
      ∙ ap (λ i. i ∷ ids_of xs) (k ∙ ap (λ y. y.id) (sym (same_run_sound x r e)))
  | inr e ↦ ap ids_of (if_false _ _ e) ∙ ap (λ l. x.id ∷ l) (replace_run-ids r c xs k)
]

Written-ids :
    (env : Env) (tid j : String) (decide : Run → Verdict) (disk disk' : Disk)
    → Lawful decide
    → Written env tid decide disk disk'
    → ids_of (runs_of j disk') ≡ ids_of (runs_of j disk)
Written-ids env tid j decide disk disk' lawful w =
    let (same_id, next) = lawful w.old w.new w.decided in
    ap ids_of (write-runs env tid j _ disk disk' w.wrote) ∙ elim (Bool-cases (same tid j)) [
      | inr e ↦ ap ids_of (if_false _ _ e)
      | inl e ↦
          ap ids_of (if_true _ _ e)
          ∙ reload-ids (replace_run w.old w.new (runs_of tid disk))
          ∙ replace_run-ids w.old w.new (runs_of tid disk) same_id
          ∙ ap (λ t. ids_of (runs_of t disk)) (same→≡ tid j e)
    ]

pub transition-ids :
    (env : Env) (tid rid j : String) (s : Status) (c : Change) (disk : Disk)
    → ids_of (runs_of j (transition env tid rid s c disk).1) ≡ ids_of (runs_of j disk)
unfolding transition
transition-ids env tid rid j s c disk = elim (Bool-cases (rejects c.active_ms)) [
  | inl bad ↦ rw bad refl
  | inr good ↦ rw good (elim (update_run-cases env tid rid (judge env s c) disk) [
    | inl e ↦ ap (λ d. ids_of (runs_of j d)) e
    | inr w ↦ Written-ids env tid j (judge env s c) disk _ (judge-Lawful env s c) w
  ])
]
