-- ===== src/Runs/Evolution.antt =====
-- How the runs of a thread may change: they keep their places and ids, their states follow the
-- transitions, and new ones are pending.
use assist.Base.Dict
use assist.Base.Dict.{same→≡}
use assist.Runs.Defs.{Status, pending, Run, reload, may_become, or_none, object_or_none, JsonObject}
use assist.Runs.Store.{Directory, Disk, Env, stored, write, with_runs}
use assist.Base.{
  String, Bool, true, ◌≡◌, refl, ◌⊎◌, inl, inr, Option, none, some, List, [], ◌∷◌, ◌++◌, map, subst,
  if_true, if_false, same, if◌then◌else◌, find, All, Option-cases, Bool-cases, arith, sym,
}

abbrev pub Becomes : Status → Status → Type 0
Becomes s t = (s ≡ t) ⊎ (may_become s t ≡ true)

abbrev pub Evolves : List Run → List Run → Type 0
Evolves [] ns = All (λ n. n.status ≡ pending) ns
Evolves (r ∷ rs) [] = ⊥
Evolves (r ∷ rs) (n ∷ ns) = (n.id ≡ r.id) × Becomes r.status n.status × Evolves rs ns

pub Evolves-refl : (rs : List Run) → Evolves rs rs
Evolves-refl [] = tt
Evolves-refl (r ∷ rs) = (refl, inl refl, Evolves-refl rs)

pub Evolves-append : (rs ns : List Run) → All (λ n. n.status ≡ pending) ns → Evolves rs (rs ++ ns)
Evolves-append [] ns h = h
Evolves-append (r ∷ rs) ns h = (refl, inl refl, Evolves-append rs ns h)

-- What is read back of the runs that were written.
pub Evolves-reload : (rs ns : List Run) → Evolves rs ns → Evolves rs (map reload ns)
unfolding reload
Evolves-reload [] [] h = tt
Evolves-reload [] (n ∷ ns) h = (h.0, Evolves-reload [] ns h.1)
Evolves-reload (r ∷ rs) [] h = h
Evolves-reload (r ∷ rs) (n ∷ ns) h = (h.0, h.1, Evolves-reload rs ns h.2)

or_none_twice : (o : Option String) → or_none (or_none o) ≡ or_none o
or_none_twice none = refl
or_none_twice (some s) = ground arith

object_twice : (o : Option JsonObject) → object_or_none (object_or_none o) ≡ object_or_none o
object_twice none = refl
object_twice (some []) = refl
object_twice (some (x ∷ xs)) = refl

-- `work_id or id`
abbrev work : String → String → String
work w rid = if same w "" then rid else w

work_twice : (w rid : String) → work (work w rid) rid ≡ work w rid
work_twice w rid = ground arith

-- A run that was read once is read back as it is.
pub reload_twice : (r : Run) → reload (reload r) ≡ reload r
unfolding reload
reload_twice r = λ i. record r {
  work_id = work_twice r.work_id r.id i;
  parent_thread_id = or_none_twice r.parent_thread_id i;
  parent_run_id = or_none_twice r.parent_run_id i;
  dispatch_key = or_none_twice r.dispatch_key i;
  sender = or_none_twice r.sender i;
  rider = object_twice r.rider i;
  origin = or_none_twice r.origin i;
  resume_decision = object_twice r.resume_decision i;
  consumed_by = or_none_twice r.consumed_by i;
  error = or_none_twice r.error i;
  result = or_none_twice r.result i;
}

find_reloaded :
    (p : Run → Bool) (rs : List Run) (r : Run) → find p (map reload rs) ≡ some r → reload r ≡ r
find_reloaded p [] r e = absurd (cc e)
find_reloaded p (x ∷ xs) r e = elim (Bool-cases (p (reload x))) [
  | inl h ↦ let one : reload x ≡ r = ground arith in subst (λ y. reload y ≡ y) one (reload_twice x)
  | inr h ↦ find_reloaded p xs r (ground arith)
]

-- A run that was read is read again as it is.
pub find-stored :
    (p : Run → Bool) (o : Option Directory) (r : Run) → find p (stored o) ≡ some r → reload r ≡ r
find-stored p none r h = absurd (cc h)
find-stored p (some d) r h = elim (Option-cases d.runs) [
  | inl e ↦ absurd (ground arith)
  | inr (rs, e) ↦ find_reloaded p rs r (ground arith)
]

abbrev pub runs_of : String → Disk → List Run
runs_of tid disk = stored (Dict.get tid disk)

-- What reads return after a write of the runs `ns`.
pub write-runs :
    (env : Env) (tid j : String) (ns : List Run) (disk disk' : Disk)
    → write env tid ns disk ≡ some disk'
    → runs_of j disk' ≡ (if same tid j then map reload ns else runs_of j disk)
unfolding write
write-runs env tid j ns disk disk' e = elim (Option-cases (Dict.get tid disk)) [
  | inl gone ↦ ground (arith, gone)
  | inr (d, there) ↦
      let put_there : disk' ≡ Dict.put tid (with_runs ns d) disk = ground (arith, there) in
      ground (arith, put_there, Dict.get-put tid j (with_runs ns d) disk)
]

-- A lawful list of runs that is written is lawful for every thread that is read.
pub rewritten-Evolves :
    (tid j : String) (ns : List Run) (disk : Disk)
    → Evolves (runs_of tid disk) ns
    → Evolves (runs_of j disk) (if same tid j then map reload ns else runs_of j disk)
rewritten-Evolves tid j ns disk h = elim (Bool-cases (same tid j)) [
  | inl one ↦ subst (Evolves (runs_of j disk)) (sym (if_true _ _ one)) (
      subst (λ k. Evolves (runs_of k disk) (map reload ns)) (same→≡ tid j one)
        (Evolves-reload _ ns h))
  | inr other ↦
      subst (Evolves (runs_of j disk)) (sym (if_false _ _ other)) (Evolves-refl (runs_of j disk))
]

pub write-Evolves :
    (env : Env) (tid j : String) (ns : List Run) (disk disk' : Disk)
    → write env tid ns disk ≡ some disk'
    → Evolves (runs_of tid disk) ns
    → Evolves (runs_of j disk) (runs_of j disk')
write-Evolves env tid j ns disk disk' e h =
    subst (Evolves (runs_of j disk)) (sym (write-runs env tid j ns disk disk' e))
      (rewritten-Evolves tid j ns disk h)
