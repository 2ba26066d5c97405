-- ===== src/Retention/Examples.antt =====
-- A thread whose rows take two batches in one table and three in the other.
use assist.Retention.Defs.{Row, Database, delete_thread_in_batches}
use assist.Retention.Batches.{Purged, delete_thread_in_batches-Purged}
use assist.Base.Integer.{pos}
use assist.Retention.Prune.{Fleet, Faults, denied_then_removed, refused, prune_to_n_threads}
use assist.Retention.Recent.{Recent, prune_to_n_threads-Recent}
use assist.Base.{String, String-discrete, none, some, false, same, if◌then◌else◌, [], ◌∷◌, arith}

abbrev row : String → String → Row
row tid content = record { thread_id = tid; content = content }

abbrev orphaned : Database
orphaned = record {
  writes = row "t1" "w1" ∷ row "t2" "w2" ∷ row "t1" "w3" ∷ row "t1" "w4" ∷ [];
  checkpoints = row "t1" "c1" ∷ row "t1" "c2" ∷ row "t2" "c3" ∷ row "t1" "c4" ∷ row "t1" "c5" ∷ [];
}

delete_thread_in_batches-Purged_example :
    Purged "t1" orphaned (delete_thread_in_batches 5 2 "t1" orphaned)
unfolding String-discrete
delete_thread_in_batches-Purged_example =
    delete_thread_in_batches-Purged 5 2 "t1" orphaned (omega arith) (omega arith) (omega arith)

-- Four directories, one without a time, one that can't be removed.
abbrev fleet : Fleet
fleet = record {
  containers = "t1" ∷ [];
  rows = orphaned;
  dirs = ("t1", some 5) ∷ ("t2", none) ∷ ("t3", some 9) ∷ ("t4", some 5) ∷ ("t5", some 2) ∷ [];
}

abbrev faults : String → Faults
faults tid = record {
  cleanup = false;
  rows = false;
  removal = if same tid "t5" then refused else denied_then_removed;
}

prune_to_n_threads-Recent_example : Recent faults 2 fleet (prune_to_n_threads faults (pos 2) fleet)
prune_to_n_threads-Recent_example = prune_to_n_threads-Recent faults 2 fleet
