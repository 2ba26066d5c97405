-- ===== src/Runs/Update.antt =====
-- `transition`, `claim`, `cancel`, `cancel_pending`, and the reads of `RunService`.
use assist.Base.Integer.{ℤ, is_negative, pos_part}
use assist.Runs.Defs.{
  Status, pending, running, cancelled, is_status, JsonObject, Run, Run-discrete, may_become,
}
use assist.Runs.Store.{
  RunError, not_found, bad_transition, not_pending, negative_active, io_error, Result, ok, err,
  Disk, Env, read, write,
}
use assist.Base.{
  ℕ, String, Bool, true, false, Option, none, some, List, [], ◌∷◌, same, if◌then◌else◌, find,
}

-- The keyword arguments of `transition`.
pub record Change : Type 0 where
  pub active_ms : Option ℤ
  pub consumed_by : Option String
  pub error : Option String
  pub rider : Option JsonObject
  pub result : Option String

abbrev pub no_change : Change
no_change = record {
  active_ms = none;
  consumed_by = none;
  error = none;
  rider = none;
  result = none;
}

-- `new if new is not None else old`
abbrev pub given {ℓ} : {A : Type ℓ} → Option A → Option A → Option A
given none old = old
given (some a) old = some a

abbrev pub given_ms : Option ℤ → ℕ → ℕ
given_ms none old = old
given_ms (some a) old = pos_part a

-- _find
unfoldable pub find_run : String → List Run → Option Run
find_run rid runs = find (λ r. same r.id rid) runs

abbrev pub same_run : Run → Run → Bool
same_run r s = elim (Run-discrete r s) [ yes _ ↦ true | no _ ↦ false ]

-- runs[runs.index(current)] = changed
unfoldable pub replace_run : Run → Run → List Run → List Run
replace_run current changed [] = []
replace_run current changed (r ∷ rs) =
    if same_run r current then changed ∷ rs else r ∷ replace_run current changed rs

-- The record for a status that the run already has; its `updated_at` is still the old one.
unfoldable pub touched : Change → Run → Run
touched c r = record r {
  active_ms = given_ms c.active_ms r.active_ms;
  consumed_by = given c.consumed_by r.consumed_by;
  error = given c.error r.error;
  rider = given c.rider r.rider;
  result = given c.result r.result;
}

-- The record for a new status.
unfoldable pub moved : Env → Status → Change → Run → Run
moved env s c r = record r {
  status = s;
  active_ms = given_ms c.active_ms r.active_ms;
  consumed_by = given c.consumed_by r.consumed_by;
  error = c.error;
  rider = given c.rider r.rider;
  result = given c.result r.result;
  updated_at = env.now;
}

-- What becomes of the run: left as it is, replaced, or refused.
pub data Verdict : Type 0 where
  leave : Verdict
  change : Run → Verdict
  refuse : RunError → Verdict

unfoldable pub judge : Env → Status → Change → Run → Verdict
judge env s c r =
    if is_status s r.status
    then if same_run (touched c r) r
      then leave
      else change (record (touched c r) { updated_at = env.now })
    else if may_become r.status s
    then change (moved env s c r)
    else refuse bad_transition

-- The end of an update, with what the write left.
unfoldable pub written : Run → Disk → Option Disk → Result Run × Disk
written r disk none = (err io_error, disk)
written r disk (some disk') = (ok r, disk')

-- Writes one changed run back.
unfoldable pub put_back : Env → String → Run → Verdict → List Run → Disk → Result Run × Disk
unfolding written
put_back env tid current leave runs disk = (ok current, disk)
put_back env tid current (refuse e) runs disk = (err e, disk)
put_back env tid current (change r) runs disk =
    written r disk (write env tid (replace_run current r runs) disk)

unfoldable pub update_found :
    Env → String → (Run → Verdict) → List Run → Disk → Option Run → Result Run × Disk
unfolding put_back
update_found env tid decide runs disk none = (err not_found, disk)
update_found env tid decide runs disk (some r) = put_back env tid r (decide r) runs disk

unfoldable pub update_loaded :
    Env → String → String → (Run → Verdict) → Disk → Result (List Run) → Result Run × Disk
unfolding update_found
update_loaded env tid rid decide disk (err e) = (err e, disk)
update_loaded env tid rid decide disk (ok runs) =
    update_found env tid decide runs disk (find_run rid runs)

-- The locked read-modify-write of one run.
unfoldable pub update_run : Env → String → String → (Run → Verdict) → Disk → Result Run × Disk
unfolding update_loaded
update_run env tid rid decide disk = update_loaded env tid rid decide disk (read tid disk)

abbrev pub rejects : Option ℤ → Bool
rejects none = false
rejects (some a) = is_negative a

unfoldable pub transition : Env → String → String → Status → Change → Disk → Result Run × Disk
transition env tid rid s c disk =
    if rejects c.active_ms
    then (err negative_active, disk)
    else update_run env tid rid (judge env s c) disk

unfoldable pub claim : Env → String → String → Disk → Result Run × Disk
claim env tid rid = transition env tid rid running no_change

unfoldable pub cancel : Env → String → String → Disk → Result Run × Disk
cancel env tid rid = transition env tid rid cancelled no_change

unfoldable pub judge_pending : Env → Run → Verdict
judge_pending env r =
    if is_status r.status pending
    then change (record r { status = cancelled; updated_at = env.now })
    else refuse not_pending

unfoldable pub cancel_pending : Env → String → String → Disk → Result Run × Disk
cancel_pending env tid rid = update_run env tid rid (judge_pending env)

unfoldable pub get_run : String → String → Disk → Result Run
get_run tid rid disk = elim (read tid disk) [
  | err e ↦ err e
  | ok runs ↦ elim (find_run rid runs) [ none ↦ err not_found | some r ↦ ok r ]
]
