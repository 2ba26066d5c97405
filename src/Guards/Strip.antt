-- ===== src/Guards/Strip.antt =====
-- `LoopDetectionMiddleware.after_model`, and the text that it leaves in place of the calls.
use Prim.Native.String.{◌++◌ as ◌<>◌, count}
use assist.Base.Dict
use assist.Base.Dict.{Dict}
use assist.Guards.Messages.{
  Value, ToolCall, AiMessage, ToolResult, Message, human, ai, tool, system, is_true, shown,
  looks_like_error, strip_left, strip_right, first_line, take_chars,
}
use assist.Guards.Events.{Signatures, extract_events, turn_slice, collect, result_of}
use assist.Guards.Repeats.{Pattern, same_error, same_args, Detection, detect_loop}
use assist.Base.{
  ℕ, String, false, not, ◌||◌, List, [], ◌∷◌, Option, none, some, same, any, keep, ltb,
  if◌then◌else◌,
}

-- The first answer among a message's calls.
abbrev pub first_some : (ToolCall → Option String) → List ToolCall → Option String
first_some f [] = none
first_some f (tc ∷ tcs) =
    let rest = first_some f tcs in elim (f tc) [ some p ↦ some p | none ↦ rest ]

-- The answer of the last message that has one.
unfoldable pub from_last : (ToolCall → Option String) → List Message → Option String
from_last f [] = none
from_last f (ai m ∷ ms) =
    let here = first_some f m.tool_calls in elim (from_last f ms) [ some p ↦ some p | none ↦ here ]
from_last f (human s ids ∷ ms) = from_last f ms
from_last f (tool r ∷ ms) = from_last f ms
from_last f (system s ∷ ms) = from_last f ms

-- `tc.get("args").get("file_path")`, where it is true
abbrev pub path_of : Option Value → Option String
path_of none = none
path_of (some v) = if is_true v then some (shown v) else none

abbrev pub saved_by : Dict ToolResult → ToolCall → Option String
saved_by d tc = elim (result_of tc.id d) [
  | none ↦ none
  | some r ↦
      if not (same tc.name "write_file" || same tc.name "edit_file") || looks_like_error r.content
      then none
      else path_of (Dict.get "file_path" tc.args)
]

-- _last_successful_artifact
unfoldable pub last_successful_artifact : List Message → Option String
unfolding from_last turn_slice collect
last_successful_artifact ms = from_last (saved_by (collect (turn_slice ms) [])) (turn_slice ms)

-- The first line of an error, cut to 160 characters.
abbrev pub excerpt_of : String → String
excerpt_of content =
    let line = first_line (strip_right (strip_left content)) in
    if ltb 160 (count line) then strip_right (take_chars 159 line) <> "…" else line

abbrev pub failed_in : String → Dict ToolResult → ToolCall → Option String
failed_in looping d tc = elim (result_of tc.id d) [
  | none ↦ none
  | some r ↦
      if not (same tc.name looping) || not (looks_like_error r.content)
      then none
      else some (excerpt_of r.content)
]

-- _last_error_excerpt
unfoldable pub last_error_excerpt : List Message → String → Option String
unfolding from_last turn_slice collect
last_error_excerpt ms looping =
    from_last (failed_in looping (collect (turn_slice ms) [])) (turn_slice ms)

abbrev pub excerpt_clause : Option String → String
excerpt_clause none = ""
excerpt_clause (some s) = if same s "" then "" else " (the error was: \"" <> s <> "\")"

abbrev pub repeated_text : Pattern → String → Option String → String
repeated_text same_error name excerpt =
    "I wasn't able to make progress — I kept hitting the same error from `"
    <> name
    <> "`"
    <> excerpt_clause excerpt
    <> ". I won't retry that approach. Could you give me more direction on how to proceed?"
repeated_text same_args name excerpt =
    "I kept making the same `" <> name
    <> "` call and wasn't getting new information. I won't repeat it. Could you tell me how you'd like to proceed?"

-- _compose_terminal_message
unfoldable pub compose_terminal_message : Detection → List Message → String
compose_terminal_message d ms = elim (last_successful_artifact ms) [
  | some path ↦
      "I've saved the output to `" <> path <> "`. Let me know if you'd like changes or follow-up."
  | none ↦ repeated_text d.pattern d.looping_tool (last_error_excerpt ms d.looping_tool)
]

-- strip_tool_calls_to_end_turn
unfoldable pub strip_tool_calls : AiMessage → String → AiMessage
strip_tool_calls m content = record m { tool_calls = []; content = content; raw_calls = false }

abbrev pub last_message : List Message → Option AiMessage
last_message [] = none
last_message (ai m ∷ []) = some m
last_message (human s ids ∷ []) = none
last_message (tool r ∷ []) = none
last_message (system s ∷ []) = none
last_message (m ∷ n ∷ ms) = last_message (n ∷ ms)

module _ (g : Signatures) (window error_repeats args_repeats : ℕ) where
  abbrev pub extended_by : AiMessage → List Message → Option Detection → Option AiMessage
  extended_by last ms none = none
  extended_by last ms (some d) =
      if any (λ tc. same tc.name d.looping_tool) last.tool_calls
      then some (strip_tool_calls last (compose_terminal_message d ms))
      else none

  abbrev pub with_calls : List Message → AiMessage → List ToolCall → Option AiMessage
  with_calls ms last [] = none
  with_calls ms last (tc ∷ tcs) = extended_by last ms (
      detect_loop g error_repeats args_repeats
        (keep (λ e. e.completed) (extract_events g ms (some window))))

  abbrev pub checked : List Message → Option AiMessage → Option AiMessage
  checked ms none = none
  checked ms (some last) = with_calls ms last last.tool_calls

  -- after_model: the message that replaces the last one, if any
  unfoldable pub stop_repeats : List Message → Option AiMessage
  stop_repeats ms = checked ms (last_message ms)
