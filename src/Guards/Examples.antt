-- ===== src/Guards/Examples.antt =====
-- Guards on concrete threads, and the theorems about them at concrete inputs.
use assist.Base.Dict
use assist.Guards.Messages
use assist.Guards.Events
use assist.Guards.Repeats
use assist.Guards.Strip
use assist.Guards.Breakers
use assist.Guards.Messages.{
  Value, text, other, ToolCall, AiMessage, ToolResult, Message, human, ai, tool,
}
use assist.Guards.Events.{Signatures, Event, paired}
use assist.Guards.Repeats.{args_run, is_read_only}
use assist.Guards.Strip.{stop_repeats, last_successful_artifact}
use assist.Guards.Breakers.{
  guard_runaway, guard_reread, guard_unavailable, run, is_search, is_unavailable, reads,
}
use assist.Guards.Stopping.{args_run-leading, leading, repeats, is_transparent, repeats_are_stopped}
use assist.Guards.Turns.{Turn, begin, executed, Asks}
use assist.Guards.Bounds.{searches_are_bounded, asks_for, empties}
use assist.Base.{
  ap, any, same, ◌≢◌, All, ◌+◌, ◌≤◌, String, true, false, not, ◌≡◌, refl, none, some, List, [], ◌∷◌,
  ◌++◌, length, keep, count_if, String-discrete, arith,
}

-- What the evaluations below compute with.
unfoldable evaluation : Unit {0}
unfolding String-discrete Dict.get Dict.put Events.since_human Events.turn_slice Events.collect
    Events.events_of Events.extract_events Messages.looks_like_error is_read_only guard_runaway
    guard_reread guard_unavailable Breakers.prior_read_count Breakers.count_search_unavailable
    Breakers.search_unavailable_message Breakers.search_empty_guidance Strip.from_last
    last_successful_artifact
evaluation = tt

abbrev path : Dict.Dict Value
path = ("file_path", text "/notes.md") ∷ []

abbrev signatures : Signatures
signatures = record {
  args_signature = λ args. "same";
  error_signature = λ s. s;
  lower = λ s. s;
  normalize_url = λ v. "https://example.org";
}

abbrev call : String → String → Dict.Dict Value → ToolCall
call id name args = record { id = some id; name = name; args = args }

abbrev asking : ToolCall → AiMessage
asking tc = record { id = none; content = ""; tool_calls = tc ∷ []; raw_calls = true }

abbrev result : String → String → String → ToolResult
result id name content = record {
  tool_call_id = id;
  name = name;
  content = content;
  is_status_error = false;
}

abbrev write : String → ToolCall
write id = call id "write_file" path

abbrev written : String → ToolResult
written id = result id "write_file" "Updated file"

-- A file that is written a fourth time.
abbrev rewriting : List Message
rewriting =
    human "take a note" []
    ∷ ai (asking (write "c1"))
    ∷ tool (written "c1")
    ∷ ai (asking (write "c2"))
    ∷ tool (written "c2")
    ∷ ai (asking (write "c3"))
    ∷ tool (written "c3")
    ∷ ai (asking (write "c4"))
    ∷ []

abbrev write_event : Event
write_event = paired signatures (write "c3") (some (written "c3"))

artifact_run : last_successful_artifact rewriting ≡ some "/notes.md"
unfolding evaluation
artifact_run = refl

error_text_run : Messages.looks_like_error "  Error: no such file" ≡ true
unfolding evaluation
error_text_run = refl

three_writes :
    Repeats.reversed
      (keep (λ x. x.completed) (Events.extract_events signatures rewriting (some 12)))
    ≡ write_event ∷ (write_event ∷ write_event ∷ []) ++ []
unfolding evaluation
three_writes = refl

calls_again : any (λ tc. same tc.name "write_file") (asking (write "c4")).tool_calls ≡ true
unfolding evaluation
calls_again = refl

writes : is_read_only write_event ≡ false
unfolding evaluation
writes = refl

alike : All (λ x. repeats "write_file" "same" x ≡ true) (write_event ∷ write_event ∷ [])
unfolding evaluation
alike = (refl, (refl, tt))

bool_clash : ◌≢◌ false true
bool_clash e = cc e

named : ◌≢◌ {A = String} "write_file" ""
unfolding evaluation
named e = bool_clash (ap (λ s. same s "") e)

repeats_are_stopped_example :
    (m : AiMessage) × (stop_repeats signatures 12 2 3 rewriting ≡ some m)
    × (m.tool_calls ≡ [])
    × (m.raw_calls ≡ false)
    × (m.id ≡ none)
repeats_are_stopped_example =
    repeats_are_stopped signatures 12 2 3 rewriting (asking (write "c4")) write_event
      (write_event ∷ write_event ∷ []) [] refl calls_again three_writes alike (ground arith) writes
      named

args_run-leading_example :
    args_run "write_file" "same" 1 (write_event ∷ [])
    ≡ 1
      + length (
          leading
            (repeats "write_file" "same")
            (keep (λ e. not (is_transparent "write_file" e)) (write_event ∷ [])))
args_run-leading_example = args_run-leading "write_file" "same" 1 (write_event ∷ [])

abbrev search : ToolCall
search = call "s1" "search_internet" (("query", text "casio  f91w") ∷ [])

abbrev found : ToolResult
found = result "s1" "search_internet" "[a page]"

search-Asks : Asks (asking search) search "s1"
unfolding evaluation
search-Asks = record { one = refl; named = refl; some_id = refl }

search_runs :
    guard_runaway signatures search (human "which watch?" [] ∷ ai (asking search) ∷ []) ≡ run
unfolding evaluation
search_runs = refl

abbrev searched : List Message
searched = (human "which watch?" [] ∷ []) ++ ai (asking search) ∷ tool found ∷ []

abbrev search_event : Event
search_event = paired signatures search (some found)

one_search : Turn signatures (guard_runaway signatures) searched ([] ++ search_event ∷ [])
unfolding evaluation
one_search =
    executed (asking search) search found (begin [] "which watch?" []) search-Asks (refl, tt)
      search_runs

searches_are_bounded_example :
    (count_if is_search (search_event ∷ []) ≤ 50)
    × (count_if (asks_for signatures "casio f91w") (search_event ∷ []) ≤ 3)
    × (count_if (empties signatures "casio f91w") (search_event ∷ []) ≤ 1)
searches_are_bounded_example =
    searches_are_bounded signatures searched (search_event ∷ []) "casio f91w" one_search

abbrev read_page : ToolCall
read_page = call "s1" "read_url" (("url", text "https://example.org/") ∷ [])

page-Asks : Asks (asking read_page) read_page "s1"
unfolding evaluation
page-Asks = record { one = refl; named = refl; some_id = refl }

page_runs :
    guard_reread signatures 3 read_page (human "read it" [] ∷ ai (asking read_page) ∷ []) ≡ run
unfolding evaluation
page_runs = refl

abbrev page_read : List Message
page_read = (human "read it" [] ∷ []) ++ ai (asking read_page) ∷ tool found ∷ []

abbrev page_event : Event
page_event = paired signatures read_page (some found)

one_read : Turn signatures (guard_reread signatures 3) page_read ([] ++ page_event ∷ [])
unfolding evaluation
one_read =
    executed (asking read_page) read_page found (begin [] "read it" []) page-Asks (refl, tt)
      page_runs

outage_runs :
    guard_unavailable signatures 4 search (human "which watch?" [] ∷ ai (asking search) ∷ []) ≡ run
unfolding evaluation
outage_runs = refl

one_outage : Turn signatures (guard_unavailable signatures 4) searched ([] ++ search_event ∷ [])
unfolding evaluation
one_outage =
    executed (asking search) search found (begin [] "which watch?" []) search-Asks (refl, tt)
      outage_runs
