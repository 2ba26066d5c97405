-- ===== src/Records/Examples.antt =====
-- A store of notes, and its refinement theorem at a call.
use assist.Records.Store.{Keyed, Root}
use assist.Records.Refinement.{change, Refines, view, perform, Call, perform-Refines}
use assist.Base.{String, true, none, some, [], ◌∷◌}

record Note : Type 0 where
  id : String
  thread : String
  text : String

abbrev notes : Keyed Note
notes = record { id_of = λ n. n.id; thread_of = λ n. n.thread }

abbrev note : String → String → Note
note id text = record { id = id; thread = "t1"; text = text }

abbrev disk : Root Note
disk = ("t0", none) ∷ ("t1", some (note "a" "buy seeds" ∷ note "b" "dig" ∷ [])) ∷ []

abbrev rewording : Call notes
rewording = change "t1" "b" (λ n. some (record n { text = "dig deep" }))

perform-Refines_example :
    Refines notes
      (view notes disk)
      (view notes (perform notes 5 true rewording disk).1)
      rewording
      (perform notes 5 true rewording disk).0
perform-Refines_example = perform-Refines notes 5 true rewording disk
