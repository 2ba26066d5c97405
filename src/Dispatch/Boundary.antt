-- ===== src/Dispatch/Boundary.antt =====
-- assist/middleware/interjection.py: `before_model`, with the web application's callbacks. What frames a record is
-- a parameter.
use assist.Runs.{
  Run, turn, pending, success, is_mode, no_change, PendingMessage, truthy, Result, ok, err, Env,
  read,
}
use assist.Dispatch.World.{World, move_run}
use assist.Dispatch.Pending.{has_status}
use assist.Base.{
  is_some, ℕ, String, Bool, true, false, not, ◌&&◌, Option, none, some, List, [], ◌∷◌, ◌++◌, map,
  same, any, keep, default_to, if◌then◌else◌,
}

-- A message in the graph's state, with `additional_kwargs["interjection_ids"]`.
pub record ShownMessage : Type 0 where
  pub content : String
  pub interjection_ids : List String

-- collect_interjection_ids, with repetitions
unfoldable pub collect_interjection_ids : List ShownMessage → List String
collect_interjection_ids [] = []
collect_interjection_ids (m ∷ ms) = m.interjection_ids ++ collect_interjection_ids ms

abbrev pub holds : String → List String → Bool
holds rid ids = any (same rid) ids

abbrev pub is_shown : Run → Bool
is_shown r =
    has_status pending r
    && is_mode r.mode turn
    && truthy r.text
    && same r.assistant_id "general-agent"

abbrev pub record_of : Run → PendingMessage
record_of r = record {
  thread_id = r.thread_id;
  text = default_to "" r.text;
  sender = r.sender;
  rider = r.rider;
  enqueued_at = r.created_at;
  origin = r.origin;
  id = r.id;
}

abbrev pub as_records : Result (List Run) → Result (List PendingMessage)
as_records (err e) = err e
as_records (ok runs) = ok (map record_of (keep is_shown runs))

-- _pending_run_records
unfoldable pub pending_run_records : String → World → Result (List PendingMessage)
pending_run_records tid w = as_records (read tid w.disk)

-- The world and the turn's entry of _TURN_INTERJECTION: the id of the turn's run, and the records that
-- the turn consumed.
pub record Slice : Type 0 where
  pub world : World
  pub run_id : Option String
  pub claimed : List PendingMessage

abbrev pub same_text : Option String → Option String → Bool
same_text none none = true
same_text (some s) (some t) = same s t
same_text a b = false

-- Whether a record is for the turn: from the user whom the turn answers, and not in the state.
abbrev pub is_fresh : Option String → List String → PendingMessage → Bool
is_fresh sender in_state m =
    not (is_some m.origin) && same_text m.sender sender && not (holds m.id in_state)

module _ (env : ℕ → Env) where
  abbrev pub and_go_on :
      Result {0} Unit × Slice → (Slice → Result {0} Unit × Slice) → Result {0} Unit × Slice
  and_go_on (err e, t) f = (err e, t)
  and_go_on (ok u, t) f = f t

  abbrev pub claimed_one : PendingMessage → Result Run × World → Slice → Result {0} Unit × Slice
  claimed_one m (err e, w) s = (err e, record s { world = w })
  claimed_one m (ok r, w) s = (ok tt, record s { world = w; claimed = s.claimed ++ m ∷ [] })

  -- The loop of _consume_interjections.
  unfoldable pub consume_all :
      String → List String → List PendingMessage → Slice → Result {0} Unit × Slice
  unfolding move_run
  consume_all tid ids [] s = (ok tt, s)
  consume_all tid ids (m ∷ ms) s =
      let later = consume_all tid ids ms in
      if holds m.id ids
      then and_go_on
          (claimed_one m
            (move_run env tid m.id success (record no_change { consumed_by = s.run_id }) s.world) s)
          later
      else later s

  -- _consume_interjections
  unfoldable pub consume_interjections : String → List String → Slice → Result {0} Unit × Slice
  unfolding consume_all pending_run_records
  consume_interjections tid ids s = elim (pending_run_records tid s.world) [
    | err e ↦ (err e, s)
    | ok ms ↦ consume_all tid ids ms s
  ]

  abbrev pub framed : (PendingMessage → String) → PendingMessage → ShownMessage
  framed frame m = record { content = frame m; interjection_ids = m.id ∷ [] }

  -- What is appended to the state, none where the hook raised inside.
  abbrev pub injected :
      (PendingMessage → String)
      → Option String
      → String
      → List String
      → Result {0} Unit × Slice
      → List ShownMessage × Slice
  injected frame sender tid in_state (err e, s) = ([], s)
  injected frame sender tid in_state (ok u, s) = elim (pending_run_records tid s.world) [
    | err e ↦ ([], s)
    | ok ms ↦ (map (framed frame) (keep (is_fresh sender in_state) ms), s)
  ]

  -- before_model, of a turn that holds the slot: the messages that it appends
  unfoldable pub before_model :
      (PendingMessage → String)
      → Option String
      → String
      → List ShownMessage
      → Slice
      → List ShownMessage × Slice
  unfolding collect_interjection_ids consume_interjections pending_run_records
  before_model frame sender tid messages s =
      let in_state = collect_interjection_ids messages in
      injected frame sender tid in_state
        (elim in_state [ [] ↦ (ok tt, s) | rid ∷ rids ↦ consume_interjections tid (rid ∷ rids) s ])
