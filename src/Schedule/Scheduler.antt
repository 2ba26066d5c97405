-- ===== src/Schedule/Scheduler.antt =====
-- `ScheduleStore.due`, and `Scheduler`: the poll loop, and the worker that runs the wakeups.
use assist.Records.{Keyed, Root, Outcome, ok, failed, all, update}
use assist.Schedule.Defs.{Schedule, Zone}
use assist.Schedule.Cadence.{next_after}
use assist.Base.{
  ℕ, ◌*◌, String, Bool, true, false, not, ◌&&◌, Option, none, some, List, [], ◌∷◌, ◌++◌, same, any,
  keep, leb, if◌then◌else◌,
}

abbrev pub schedules : Keyed Schedule
schedules = record { id_of = λ s. s.id; thread_of = λ s. s.thread_id }

-- ScheduleStore.CAP
abbrev pub cap_per_thread : ℕ
cap_per_thread = 5

abbrev pub is_past : Option ℕ → ℕ → Bool
is_past none now = false
is_past (some t) now = leb (t * 60) now

abbrev pub is_due : ℕ → Schedule → Bool
is_due now s = s.enabled && is_past s.next_fire_at now

-- due
unfoldable pub due : ℕ → Root Schedule → List Schedule
unfolding all
due now root = keep (is_due now) (all schedules root)

-- The arguments of `_run_wakeup`.
pub record Wakeup : Type 0 where
  pub schedule_id : String
  pub thread_id : String
  pub prompt : String
  pub tz : String

-- The store's files, the ids in flight, and the executor's queue, whose head is being run.
pub record Scheduler : Type 0 where
  pub root : Root Schedule
  pub inflight : List String
  pub submitted : List Wakeup

abbrev pub wakeup_of : Schedule → Wakeup
wakeup_of s = record { schedule_id = s.id; thread_id = s.thread_id; prompt = s.prompt; tz = s.tz }

-- _claim: the ids in flight with the new one, or none if it is there
abbrev pub claim_id : String → List String → Option (List String)
claim_id sid ids = if any (same sid) ids then none else some (ids ++ sid ∷ [])

-- _release
abbrev pub release_id : String → List String → List String
release_id sid ids = keep (λ i. not (same i sid)) ids

abbrev pub fire_from : Option ℕ → Schedule → Option Schedule
fire_from none x = none
fire_from (some t) x = some (record x { next_fire_at = some t })

-- `lambda x: x.with_next_fire(cadence.next_after(x, now).isoformat())`
abbrev pub next_fire : (String → Option Zone) → ℕ → Schedule → Option Schedule
next_fire zones now x = fire_from (next_after zones x now) x

module _ (zones : String → Option Zone) (writes : String → Bool) where
  -- _advance
  unfoldable pub advance : ℕ → Schedule → Root Schedule → Outcome Schedule × Root Schedule
  unfolding update
  advance now s root =
      update schedules (writes s.thread_id) s.thread_id s.id (next_fire zones now) root

  abbrev pub submit : Bool → Schedule → Scheduler → Option (List String) → Scheduler
  submit healthy s st none = st
  submit healthy s st (some ids) =
      if healthy
      then record st { inflight = ids; submitted = st.submitted ++ wakeup_of s ∷ [] }
      else record st { inflight = release_id s.id ids }

  abbrev pub fired : Bool → Schedule → Scheduler → Outcome Schedule × Root Schedule → Scheduler
  fired healthy s st (failed e, root) = record st { root = root }
  fired healthy s st (ok r, root) =
      submit healthy s (record st { root = root }) (claim_id s.id st.inflight)

  -- _fire
  unfoldable pub fire : ℕ → Bool → Schedule → Scheduler → Scheduler
  unfolding advance
  fire now healthy s st = fired healthy s st (advance now s st.root)

  unfoldable pub fire_all : ℕ → Bool → List Schedule → Scheduler → Scheduler
  unfolding fire
  fire_all now healthy [] st = st
  fire_all now healthy (s ∷ ss) st = fire_all now healthy ss (fire now healthy s st)

  -- poll, where `healthy` is what the health check says if anything is due
  unfoldable pub poll : ℕ → Bool → Scheduler → Scheduler
  unfolding fire_all due
  poll now healthy st = fire_all now healthy (due now st.root) st

  abbrev pub is_missed : ℕ → Option ℕ → Bool
  is_missed now none = true
  is_missed now (some t) = leb (t * 60) now

  abbrev pub caught_up :
      (Root Schedule → Root Schedule) → Outcome Schedule × Root Schedule → Root Schedule
  caught_up further (failed e, root) = root
  caught_up further (ok r, root) = further root

  -- The loop of `reconcile`, which an advance that raises ends.
  unfoldable pub reconcile_all : ℕ → List Schedule → Root Schedule → Root Schedule
  unfolding advance
  reconcile_all now [] root = root
  reconcile_all now (s ∷ ss) root =
      if s.enabled && is_missed now s.next_fire_at
      then caught_up (reconcile_all now ss) (advance now s root)
      else reconcile_all now ss root

  -- reconcile
  unfoldable pub reconcile : ℕ → Scheduler → Scheduler
  unfolding reconcile_all
  reconcile now st = record st { root = reconcile_all now (all schedules st.root) st.root }

-- The worker ends the wakeup at the head: `_run_wakeup`, whose dispatch may have raised.
unfoldable pub finish_wakeup : Scheduler → Scheduler
finish_wakeup st = elim st.submitted [
  | [] ↦ st
  | w ∷ ws ↦ record st { inflight = release_id w.schedule_id st.inflight; submitted = ws }
]
