-- ===== src/Retention/Prune.antt =====
-- `prune_to_n_threads`, with `ThreadManager.hard_delete`. A
-- directory's time is a whole number, or none where `getmtime` fails; a root that is missing has no
-- directories.
use assist.Base.Dict
use assist.Base.Dict.{Dict}
use assist.Base.Order.{before}
use assist.Base.Integer.{ℤ, pos, negsuc}
use assist.Retention.Defs.{Row, Database}
use assist.Base.{
  ℕ, String, Bool, true, false, not, Option, none, some, List, [], ◌∷◌, same, keep, length, drop,
  leb, ltb, ◌==◌, if◌then◌else◌,
}

-- How the removal of a directory ends: `rmtree`, and docker's removal of what it may not remove.
pub data Removal : Type 0 where
  removed : Removal
  denied_then_removed : Removal
  denied : Removal
  -- an OSError of another kind, or of docker's
  refused : Removal

-- What goes wrong in one `hard_delete`.
pub record Faults : Type 0 where
  pub cleanup : Bool
  pub rows : Bool
  pub removal : Removal

-- The threads' containers, rows and directories.
pub record Fleet : Type 0 where
  pub containers : List String
  pub rows : Database
  pub dirs : Dict (Option ℕ)

abbrev pub without : String → List Row → List Row
without tid rows = keep (λ r. not (same r.thread_id tid)) rows

abbrev pub stopped : Bool → String → Fleet → Fleet
stopped true tid fleet = fleet
stopped false tid fleet = record fleet {
  containers = keep (λ c. not (same c tid)) fleet.containers;
}

abbrev pub unrecorded : Bool → String → Fleet → Fleet
unrecorded true tid fleet = fleet
unrecorded false tid fleet = record fleet {
  rows = record {
    writes = without tid fleet.rows.writes;
    checkpoints = without tid fleet.rows.checkpoints;
  };
}

abbrev pub wiped : Removal → String → Fleet → Bool × Fleet
wiped removed tid fleet = (true, record fleet { dirs = Dict.remove tid fleet.dirs })
wiped denied_then_removed tid fleet = (true, record fleet { dirs = Dict.remove tid fleet.dirs })
wiped denied tid fleet = (true, fleet)
wiped refused tid fleet = (false, fleet)

-- hard_delete, without callbacks; the Boolean says that it doesn't raise
unfoldable pub hard_delete : Faults → String → Fleet → Bool × Fleet
hard_delete faults tid fleet =
    wiped faults.removal tid (unrecorded faults.rows tid (stopped faults.cleanup tid fleet))

-- (mtime, name) in order
abbrev pub older : String × ℕ → String × ℕ → Bool
older a b = if ltb a.1 b.1 then true else if a.1 == b.1 then before a.0 b.0 else false

abbrev pub insert : String × ℕ → List (String × ℕ) → List (String × ℕ)
insert c [] = c ∷ []
insert c (d ∷ ds) = let rest = insert c ds in if older c d then d ∷ rest else c ∷ d ∷ ds

-- candidates.sort(..., reverse=True)
unfoldable pub newest_first : List (String × ℕ) → List (String × ℕ)
unfolding before
newest_first [] = []
newest_first (c ∷ cs) = insert c (newest_first cs)

-- The directories with a time; `__pycache__` is no thread's.
unfoldable pub candidates : Dict (Option ℕ) → List (String × ℕ)
candidates [] = []
candidates ((name, none) ∷ dirs) = candidates dirs
candidates ((name, some t) ∷ dirs) =
    let rest = candidates dirs in if same name "__pycache__" then rest else (name, t) ∷ rest

abbrev pub counted : Bool → String → List String → List String
counted true tid tids = tid ∷ tids
counted false tid tids = tids

-- The loop over `to_delete`.
unfoldable pub delete_all : (String → Faults) → List (String × ℕ) → Fleet → List String × Fleet
unfolding hard_delete
delete_all faults [] fleet = ([], fleet)
delete_all faults ((tid, t) ∷ doomed) fleet =
    let o = hard_delete (faults tid) tid fleet in
    let rest = delete_all faults doomed o.1 in (counted o.0 tid rest.0, rest.1)

-- prune_to_n_threads, which raises for a negative number
unfoldable pub prune_to_n_threads : (String → Faults) → ℤ → Fleet → Option (List String) × Fleet
unfolding delete_all newest_first candidates
prune_to_n_threads faults (negsuc n) fleet = (none, fleet)
prune_to_n_threads faults (pos n) fleet =
    let ranked = newest_first (candidates fleet.dirs) in
    if leb (length ranked) n
    then (some [], fleet)
    else let o = delete_all faults (drop n ranked) fleet in (some o.0, o.1)
