-- ===== src/Dispatch/Once.antt =====
-- No message of a user is shown to a turn twice.
use assist.Runs.{Env, PendingMessage}
use assist.Runs.Evolution.{runs_of}
use assist.Runs.Numbering.{ids_of}
use assist.Dispatch.World.{World}
use assist.Dispatch.Boundary.{ShownMessage, collect_interjection_ids, holds, Slice, before_model}
use assist.Dispatch.Injection.{times, times-append, never_held, before_model-IsNew}
use assist.Base.{
  All, ℕ, ◌≤◌, String, Bool, true, false, Option, List, [], ◌∷◌, ◌++◌, same, count_if,
  if◌then◌else◌, inl, inr, Bool-cases, arith,
}

module _ (env : ℕ → Env) (frame : PendingMessage → String) (sender : Option String) where
  -- The state of the graph after boundaries, each with the slice it runs in and whether its superstep
  -- is committed: what isn't committed is gone.
  unfoldable pub shown : String → List (Slice × Bool) → List ShownMessage → List ShownMessage
  unfolding before_model
  shown tid [] messages = messages
  shown tid ((s, committed) ∷ later) messages =
      shown tid later (
        if committed
        then messages ++ (before_model env frame sender tid messages s).0
        else messages)

  boundary_once :
      (tid rid : String) (messages : List ShownMessage) (s : Slice) (committed : Bool)
      → count_if (same rid) (ids_of (runs_of tid s.world.disk)) ≤ 1
      → times rid messages ≤ 1
      → times rid (
          if committed
          then messages ++ (before_model env frame sender tid messages s).0
          else messages)
        ≤ 1
  boundary_once tid rid messages s false d h = h
  boundary_once tid rid messages s true d h =
      let new = (before_model env frame sender tid messages s).0 in
      let (bound, fresh) = before_model-IsNew env frame sender tid rid messages s in
      elim (Bool-cases (holds rid (collect_interjection_ids messages))) [
        | inl e ↦ omega (arith, times-append rid messages new, fresh e, h)
        | inr e ↦ omega (
          arith,
          times-append rid messages new,
          never_held rid (collect_interjection_ids messages) e,
          bound,
          d,
        )
      ]

-- The runs of a thread have different ids.
abbrev pub Numbered : String → World → Type 0
Numbered tid w = (rid : String) → count_if (same rid) (ids_of (runs_of tid w.disk)) ≤ 1

-- However the boundaries of a turn and of its later slices fall, and whichever of their supersteps are
-- lost, no user's message stands twice in the state of the graph, if it doesn't before, and the runs of
-- the thread have different ids at each boundary.
pub shown_once :
    (env : ℕ → Env) (frame : PendingMessage → String) (sender : Option String) (tid rid : String)
    (boundaries : List (Slice × Bool)) (messages : List ShownMessage)
    → All (λ b. Numbered tid b.0.world) boundaries
    → times rid messages ≤ 1
    → times rid (shown env frame sender tid boundaries messages) ≤ 1
unfolding shown
shown_once env frame sender tid rid [] messages d h = h
shown_once env frame sender tid rid ((s, committed) ∷ later) messages (d, ds) h =
    shown_once env frame sender tid rid later _ ds
      (boundary_once env frame sender tid rid messages s committed (d rid) h)
