-- ===== src/Runs/Claims.antt =====
-- `claim` and `cancel_pending`: what they accept, and that a repeated transition changes nothing.
use assist.Base.Dict
use assist.Base.Dict.{same_self}
use assist.Runs.Defs.{Status, pending, running, is_status, Run, reload, may_become}
use assist.Runs.Store.{
  Disk, Env, ok, err, bad_transition, not_pending, not_found, write, read, is_segment,
}
use assist.Runs.Update.{
  Change, no_change, Verdict, leave, change, refuse, find_run, same_run, replace_run, touched,
  moved, judge, judge_pending, written, put_back, update_found, update_loaded, update_run,
  transition, claim, cancel_pending,
}
use assist.Runs.Evolution.{runs_of, write-runs, find-stored}
use assist.Base.{
  String, Bool, true, false, ◌≡◌, ◌≢◌, refl, Option, none, some, List, [], ◌∷◌, map, inl, inr, same,
  if◌then◌else◌, Bool-cases, arith, ap, ◌∙◌, sym, subst, if_true, if_false,
}

same_run_self : (r : Run) → same_run r r ≡ true
same_run_self r = ground arith

differs_from_itself : (x r : Run) → same_run x r ≡ false → x ≡ r → ⊥
differs_from_itself x r d e =
    let agree : same_run x r ≡ true = subst (λ y. same_run x y ≡ true) e (same_run_self x) in
    cc (sym d ∙ agree)

-- The update of a run that is there is the decision about it.
pub update_run-found :
    (env : Env) (tid rid : String) (decide : Run → Verdict) (disk : Disk) (r : Run)
    → is_segment tid ≡ true
    → find_run rid (runs_of tid disk) ≡ some r
    → update_run env tid rid decide disk ≡ put_back env tid r (decide r) (runs_of tid disk) disk
unfolding update_run read update_loaded
update_run-found env tid rid decide disk r safe there =
    ap (update_loaded env tid rid decide disk) (if_true _ _ safe)
    ∙ ap (update_found env tid decide (runs_of tid disk) disk) there

find_run-id : (rid : String) (r : Run) (runs : List Run) → find_run rid runs ≡ some r → r.id ≡ rid
unfolding find_run
find_run-id rid r [] e = absurd (cc e)
find_run-id rid r (x ∷ xs) e = ground (arith, find_run-id rid r xs)

find_run_head :
    (rid : String) (x : Run) (xs : List Run) → x.id ≡ rid → find_run rid (x ∷ xs) ≡ some x
unfolding find_run
find_run_head rid x xs e = ground arith

find_run_tail :
    (rid : String) (x : Run) (xs : List Run)
    → same x.id rid ≡ false
    → find_run rid (x ∷ xs) ≡ find_run rid xs
unfolding find_run
find_run_tail rid x xs e = if_false _ _ e

find_run-replace :
    (rid : String) (r c : Run) (runs : List Run)
    → find_run rid runs ≡ some r
    → c.id ≡ r.id
    → find_run rid (map reload (replace_run r c runs)) ≡ some (reload c)
unfolding find_run replace_run reload
find_run-replace rid r c [] e k = absurd (cc e)
find_run-replace rid r c (x ∷ xs) e k = elim (Bool-cases (same_run x r)) [
  | inl one ↦
      ap (λ l. find_run rid (map reload l)) (if_true _ _ one)
      ∙ find_run_head rid (reload c) (map reload xs) (k ∙ find_run-id rid r (x ∷ xs) e)
  | inr other ↦
      ap (λ l. find_run rid (map reload l)) (if_false _ _ other)
      ∙ elim (Bool-cases (same x.id rid)) [
        | inl here ↦
            let same_option : some x ≡ some r = sym (if_true _ _ here) ∙ e in
            absurd (differs_from_itself x r other (cc same_option))
        | inr there ↦
            find_run_tail rid (reload x) (map reload (replace_run r c xs)) there
            ∙ find_run-replace rid r c xs (sym (if_false _ _ there) ∙ e) k
      ]
]

is_status_of : (s t : Status) → s ≡ t → is_status s t ≡ true
is_status_of s t e = ground arith

is_status_sound : (s t : Status) → is_status s t ≡ true → s ≡ t
is_status_sound s t e = ground arith

-- With nothing to add, a transition to the state that the run has leaves it.
judge-leave : (env : Env) (s : Status) (r : Run) → s ≡ r.status → judge env s no_change r ≡ leave
unfolding judge touched
judge-leave env s r e = if_true _ _ (is_status_of s r.status e) ∙ if_true _ _ (same_run_self r)

-- The run that a transition to the state `s` returned, as it stands on the disk.
pub record Landed (tid rid : String) (s : Status) (r : Run) (disk : Disk) : Type 0 where
  pub safe : is_segment tid ≡ true
  pub there : find_run rid (runs_of tid disk) ≡ some (reload r)
  pub reached : r.status ≡ s

judge-leaves :
    (env : Env) (s : Status) (ch : Change) (r : Run) → judge env s ch r ≡ leave → r.status ≡ s
unfolding judge
judge-leaves env s ch r e = ground arith

judge-changes :
    (env : Env) (s : Status) (ch : Change) (r c : Run)
    → judge env s ch r ≡ change c
    → (c.id ≡ r.id) × (c.status ≡ s)
unfolding judge touched moved
judge-changes env s ch r c e = (ground arith, ground arith)

-- A change that records who consumed the run, or none.
abbrev pub consumed : Option String → Change
consumed by = record no_change { consumed_by = by }

pub transition-Landed :
    (env : Env) (by : Option String) (tid rid : String) (s : Status) (r : Run) (disk : Disk)
    → (transition env tid rid s (consumed by) disk).0 ≡ ok r
    → Landed tid rid s r (transition env tid rid s (consumed by) disk).1
unfolding transition update_run read find_run
transition-Landed env by tid rid s r disk e = loaded (is_segment tid) refl e
  where
    wrote :
        (o c : Run) (w : Option Disk)
        → is_segment tid ≡ true
        → find_run rid (runs_of tid disk) ≡ some o
        → judge env s (consumed by) o ≡ change c
        → write env tid (replace_run o c (runs_of tid disk)) disk ≡ w
        → (written c disk w).0 ≡ ok r
        → Landed tid rid s r (written c disk w).1
    wrote o c none safe f v w q = absurd (cc q)
    wrote o c (some disk') safe f v w q =
        let one : c ≡ r = cc in
        let (same_id, state) = judge-changes env s (consumed by) o c v in
        let back : runs_of tid disk' ≡ map reload (replace_run o c (runs_of tid disk)) =
          write-runs env tid tid _ disk disk' w ∙ if_true _ _ (same_self tid) in
        record {
          safe = safe;
          there =
              ap (find_run rid) back
              ∙ find_run-replace rid o c (runs_of tid disk) f same_id
              ∙ ap (λ x. some (reload x)) one;
          reached = ap (λ x. x.status) (sym one) ∙ state;
        }

    judged :
        (o : Run) (v : Verdict)
        → is_segment tid ≡ true
        → find_run rid (runs_of tid disk) ≡ some o
        → judge env s (consumed by) o ≡ v
        → (put_back env tid o v (runs_of tid disk) disk).0 ≡ ok r
        → Landed tid rid s r (put_back env tid o v (runs_of tid disk) disk).1
    judged o leave safe f v q =
        let one : o ≡ r = cc in
        record {
          safe = safe;
          there = f ∙ ap some (sym (find-stored _ (Dict.get tid disk) o f) ∙ ap reload one);
          reached = ap (λ x. x.status) (sym one) ∙ judge-leaves env s (consumed by) o v;
        }
    judged o (refuse x) safe f v q = absurd (cc q)
    judged o (change c) safe f v q =
        wrote o c (write env tid (replace_run o c (runs_of tid disk)) disk) safe f v refl q

    found :
        (o : Option Run)
        → is_segment tid ≡ true
        → find_run rid (runs_of tid disk) ≡ o
        → (update_found env tid (judge env s (consumed by)) (runs_of tid disk) disk o).0 ≡ ok r
        → Landed tid rid s r
            (update_found env tid (judge env s (consumed by)) (runs_of tid disk) disk o).1
    found none safe f q = absurd (cc q)
    found (some o) safe f q = judged o (judge env s (consumed by) o) safe f refl q

    loaded :
        (b : Bool)
        → is_segment tid ≡ b
        → (update_loaded env tid rid
            (judge env s (consumed by))
            disk
            (if b then ok (runs_of tid disk) else err not_found)).0
          ≡ ok r
        → Landed tid rid s r
            (update_loaded env tid rid
              (judge env s (consumed by))
              disk
              (if b then ok (runs_of tid disk) else err not_found)).1
    loaded true safe q = found (find_run rid (runs_of tid disk)) safe refl q
    loaded false safe q = absurd (cc q)

transition-leave :
    (env : Env) (tid rid : String) (s : Status) (r : Run) (disk : Disk)
    → is_segment tid ≡ true
    → find_run rid (runs_of tid disk) ≡ some r
    → s ≡ (reload r).status
    → transition env tid rid s no_change disk ≡ (ok r, disk)
unfolding transition put_back reload
transition-leave env tid rid s r disk safe there e =
    update_run-found env tid rid (judge env s no_change) disk r safe there
    ∙ ap (λ v. put_back env tid r v (runs_of tid disk) disk) (judge-leave env s r e)

-- A transition that was made can be repeated by anybody, at any time before another: it returns the
-- run in that state, and writes nothing.
pub transition_twice :
    (env env' : Env) (tid rid : String) (s : Status) (r : Run) (disk : Disk)
    → (transition env tid rid s no_change disk).0 ≡ ok r
    → let disk' = (transition env tid rid s no_change disk).1 in
      (transition env' tid rid s no_change disk' ≡ (ok (reload r), disk')) × (r.status ≡ s)
unfolding reload
transition_twice env env' tid rid s r disk e = again (transition-Landed env none tid rid s r disk e)
  where
    disk' : Disk
    disk' = (transition env tid rid s no_change disk).1

    again :
        Landed tid rid s r disk'
        → (transition env' tid rid s no_change disk' ≡ (ok (reload r), disk')) × (r.status ≡ s)
    again l =
        (transition-leave env' tid rid s (reload r) disk' l.safe l.there (sym l.reached), l.reached)

judge-refuses :
    (env : Env) (r : Run)
    → r.status ≢ pending
    → r.status ≢ running
    → judge env running no_change r ≡ refuse bad_transition
unfolding judge may_become
judge-refuses env r p q = ground arith

-- Only pending work can be claimed, and a run that is claimed already stays so: a claim of any
-- other run of a thread whose id is a path segment is refused, and writes nothing.
pub claim_refused :
    (env : Env) (tid rid : String) (r : Run) (disk : Disk)
    → is_segment tid ≡ true
    → find_run rid (runs_of tid disk) ≡ some r
    → r.status ≢ pending
    → r.status ≢ running
    → claim env tid rid disk ≡ (err bad_transition, disk)
unfolding claim transition put_back
claim_refused env tid rid r disk safe there p q =
    update_run-found env tid rid (judge env running no_change) disk r safe there
    ∙ ap (λ v. put_back env tid r v (runs_of tid disk) disk) (judge-refuses env r p q)

judge_pending-refuses :
    (env : Env) (r : Run) → r.status ≢ pending → judge_pending env r ≡ refuse not_pending
unfolding judge_pending
judge_pending-refuses env r p = ground arith

-- `cancel_pending` stops no work that has begun: it is refused, and writes nothing, unless the run
-- is pending.
pub cancel_pending_refused :
    (env : Env) (tid rid : String) (r : Run) (disk : Disk)
    → is_segment tid ≡ true
    → find_run rid (runs_of tid disk) ≡ some r
    → r.status ≢ pending
    → cancel_pending env tid rid disk ≡ (err not_pending, disk)
unfolding cancel_pending put_back
cancel_pending_refused env tid rid r disk safe there p =
    update_run-found env tid rid (judge_pending env) disk r safe there
    ∙ ap (λ v. put_back env tid r v (runs_of tid disk) disk) (judge_pending-refuses env r p)
