-- ===== src/Dispatch/Interjections.antt =====
-- A turn that is sent a message while it runs.
use assist.Base.Dict
use assist.Runs.{
  Run, new_run, Env, read, is_segment, reload, Status-discrete, Mode-discrete, PendingMessage,
  find_run, transition, update_run, update_loaded, update_found, judge, replace_run, put_back,
  moved, write, Run-discrete, may_become,
}
use assist.Dispatch.World
use assist.Dispatch.World.{World, web_run}
use assist.Dispatch.Boundary
use assist.Dispatch.Boundary.{
  ShownMessage, Slice, before_model, consume_interjections, holds, record_of,
}
use assist.Dispatch.Injection.{times}
use assist.Dispatch.Once.{shown, Numbered, shown_once}
use assist.Dispatch.Finished.{Ended, consume_interjections-Ended}
use assist.Runs.Evolution.{runs_of}
use assist.Base.{
  ◌≤◌, String, String-discrete, Bool, true, false, ◌≡◌, refl, none, some, List, [], ◌∷◌, arith, All,
}

-- What the evaluations below compute with.
unfoldable evaluation : Unit {0}
unfolding shown before_model Boundary.collect_interjection_ids Boundary.consume_interjections
    Boundary.consume_all Boundary.pending_run_records World.move_run transition update_run
    update_loaded update_found judge find_run replace_run put_back moved write may_become read
    is_segment new_run reload Status-discrete Mode-discrete Run-discrete String-discrete Dict.get
    Dict.put
evaluation = tt

abbrev noon : Env
noon = record { now = "12:00"; fresh_id = "r1"; writes = true }

abbrev aside : Run
aside = new_run noon (record (web_run "t1") { text = some "and the weather?" })

abbrev running_turn : Slice
running_turn = record {
  world = record {
    disk = ("t1", record { marker = false; others = true; runs = some (aside ∷ []) }) ∷ [];
    web = record { folders = []; unseen = []; urgent = [] };
    journal = [];
    queue = record { user = []; background = [] };
    calls = 0;
  };
  run_id = some "r0";
  claimed = [];
}

abbrev frame : PendingMessage → String
frame m = m.text

-- A superstep that is lost, one that is committed, and a boundary that sees the message.
abbrev boundaries : List (Slice × Bool)
boundaries = (running_turn, false) ∷ (running_turn, true) ∷ (running_turn, true) ∷ []

shown_to_the_turn :
    shown (λ n. noon) frame none "t1" boundaries []
    ≡ record { content = "and the weather?"; interjection_ids = "r1" ∷ [] } ∷ []
unfolding evaluation
shown_to_the_turn = refl

one_run : Numbered "t1" running_turn.world
unfolding evaluation
one_run rid = ground arith

shown_once_example : times "r1" (shown (λ n. noon) frame none "t1" boundaries []) ≤ 1
unfolding evaluation
shown_once_example =
    shown_once (λ n. noon) frame none "t1" "r1" boundaries [] (one_run, (one_run, (one_run, tt)))
      (omega arith)

abbrev seen_once : Slice
seen_once = (consume_interjections (λ n. noon) "t1" ("r1" ∷ []) running_turn).1

consume_interjections-Ended_example :
    All (λ m. Ended m.id (runs_of "t1" seen_once.world.disk)) (record_of aside ∷ [])
unfolding evaluation
consume_interjections-Ended_example =
    consume_interjections-Ended (λ n. noon) "t1" ("r1" ∷ []) running_turn (record_of aside ∷ [])
      refl refl
