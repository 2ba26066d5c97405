-- ===== src/Guards/Events.antt =====
-- The tool calls of the current turn with their results.
use assist.Base.Dict
use assist.Base.Dict.{Dict}
use assist.Guards.Messages.{
  Value, ToolCall, ToolResult, Message, human, ai, tool, system, is_human, looks_like_error,
}
use assist.Base.{
  ℕ, ◌-◌, String, Bool, true, false, ◌||◌, List, [], ◌∷◌, ◌++◌, map, Option, none, some, ◌==◌, same,
  length, drop, if◌then◌else◌, default_to,
}

-- What the guards take from the standard library's tables, hashes and regular expressions: the
-- signature of a call's arguments, that of an error's text, and the canonical form of a query and of
-- a URL.
pub record Signatures : Type 0 where
  pub args_signature : Dict Value → String
  pub error_signature : String → String
  pub lower : String → String
  pub normalize_url : Value → String

pub record Event : Type 0 where
  pub tool_name : String
  pub args : Dict Value
  pub args_sig : String
  pub result_content : String
  pub is_error : Bool
  pub completed : Bool

abbrev pub latest : Message → List Message → Option (List Message) → Option (List Message)
latest m ms (some later) = some later
latest m ms none = if is_human m then some (m ∷ ms) else none

-- The messages from the last human one on, if there is one.
unfoldable pub since_human : List Message → Option (List Message)
since_human [] = none
since_human (m ∷ ms) = latest m ms (since_human ms)

-- _current_turn_slice
unfoldable pub turn_slice : List Message → List Message
turn_slice ms = default_to ms (since_human ms)

-- The loop that fills `tool_msgs`.
unfoldable pub collect : List Message → Dict ToolResult → Dict ToolResult
collect [] d = d
collect (tool r ∷ ms) d =
    collect ms (if same r.tool_call_id "" then d else Dict.put r.tool_call_id r d)
collect (human s ids ∷ ms) d = collect ms d
collect (ai m ∷ ms) d = collect ms d
collect (system s ∷ ms) d = collect ms d

-- `tool_msgs.get(tc_id)`
abbrev pub result_of : Option String → Dict ToolResult → Option ToolResult
result_of none d = none
result_of (some id) d = Dict.get id d

module _ (g : Signatures) where
  abbrev pub paired : ToolCall → Option ToolResult → Event
  paired tc (some r) = record {
    tool_name = tc.name;
    args = tc.args;
    args_sig = g.args_signature tc.args;
    result_content = r.content;
    is_error = r.is_status_error || looks_like_error r.content;
    completed = true;
  }
  paired tc none = record {
    tool_name = tc.name;
    args = tc.args;
    args_sig = g.args_signature tc.args;
    result_content = "";
    is_error = false;
    completed = false;
  }

  -- The loop that fills `events`.
  unfoldable pub events_of : Dict ToolResult → List Message → List Event
  events_of d [] = []
  events_of d (ai m ∷ ms) = map (λ tc. paired tc (result_of tc.id d)) m.tool_calls ++ events_of d ms
  events_of d (human s ids ∷ ms) = events_of d ms
  events_of d (tool r ∷ ms) = events_of d ms
  events_of d (system s ∷ ms) = events_of d ms

  -- `events[-window:]`, which for 0 is all of them
  abbrev pub recent : Option ℕ → List Event → List Event
  recent none es = es
  recent (some n) es = if n == 0 then es else drop (length es - n) es

  -- _extract_events
  unfoldable pub extract_events : List Message → Option ℕ → List Event
  unfolding events_of collect turn_slice
  extract_events ms window = recent window (events_of (collect (turn_slice ms) []) (turn_slice ms))
