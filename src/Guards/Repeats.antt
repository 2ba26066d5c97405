-- ===== src/Guards/Repeats.antt =====
-- `LoopDetectionMiddleware`: exact repetition in the completed calls of a turn.
use assist.Guards.Events.{Signatures, Event}
use assist.Base.{
  ℕ, ◌+◌, String, Bool, true, false, not, ◌&&◌, List, [], ◌∷◌, Option, none, some, same, any, keep,
  leb, ltb, if◌then◌else◌,
}

-- _READ_ONLY_TOOLS
abbrev pub read_only_tools : List String
read_only_tools = "read_file" ∷ "ls" ∷ "glob" ∷ "grep" ∷ "read_url" ∷ "search_internet" ∷ []

unfoldable pub is_read_only : Event → Bool
is_read_only e = any (same e.tool_name) read_only_tools

pub data Pattern : Type 0 where
  same_error same_args : Pattern

-- What `_detect_loop` returns; `tools` has one tool.
pub record Detection : Type 0 where
  pub pattern : Pattern
  pub looping_tool : String
  pub run_length : ℕ

-- A run that begins at the last event: its tool and its length.
pub record Repeat : Type 0 where
  pub run_tool : String
  pub run_len : ℕ

abbrev pub no_run : Repeat
no_run = record { run_tool = ""; run_len = 0 }

module _ (g : Signatures) where
  -- Pattern A's walk, from the last event back, once the run has begun.
  unfoldable pub error_run : String → String → ℕ → List Event → ℕ
  error_run run_tool err n [] = n
  error_run run_tool err n (e ∷ es) =
      let rest = error_run run_tool err (n + 1) es in
      if not e.is_error
      then n
      else if same e.tool_name run_tool && same (g.error_signature e.result_content) err
      then rest
      else n

  abbrev pub trailing_errors : List Event → Repeat
  trailing_errors [] = no_run
  trailing_errors (e ∷ es) =
      if e.is_error
      then record {
        run_tool = e.tool_name;
        run_len = error_run e.tool_name (g.error_signature e.result_content) 1 es;
      }
      else no_run

-- Pattern B's walk, once the run has begun.
unfoldable pub args_run : String → String → ℕ → List Event → ℕ
args_run run_tool sig n [] = n
args_run run_tool sig n (e ∷ es) =
    let longer = args_run run_tool sig (n + 1) es in
    let skipped = args_run run_tool sig n es in
    if same e.tool_name run_tool && same e.args_sig sig
    then longer
    else if not (same e.tool_name run_tool) && is_read_only e
    then skipped
    else n

-- _trailing_run, on the events from the last back
unfoldable pub trailing_run : Bool → List Event → Repeat
trailing_run skip [] = no_run
trailing_run skip (e ∷ es) =
    let further = trailing_run skip es in
    if skip && is_read_only e
    then further
    else record { run_tool = e.tool_name; run_len = args_run e.tool_name e.args_sig 1 es }

abbrev pub rev_onto : List Event → List Event → List Event
rev_onto [] acc = acc
rev_onto (e ∷ es) acc = rev_onto es (e ∷ acc)

-- reversed(events)
abbrev pub reversed : List Event → List Event
reversed es = rev_onto es []

-- `run_tool and run_len >= threshold`
abbrev pub reaches : Repeat → ℕ → Bool
reaches r threshold = not (same r.run_tool "") && leb threshold r.run_len

-- Whichever of the two walks of pattern B is longer, the first where they tie.
abbrev pub longer_run : Repeat → Repeat → Repeat
longer_run a b = if ltb a.run_len b.run_len then b else a

abbrev pub detected : Pattern → Repeat → Detection
detected p r = record { pattern = p; looping_tool = r.run_tool; run_length = r.run_len }

-- The decision, from the runs of the two patterns.
abbrev pub loop_verdict : ℕ → ℕ → Repeat → Repeat → Option Detection
loop_verdict error_repeats args_repeats errors repeats =
    if reaches errors error_repeats
    then some (detected same_error errors)
    else if reaches repeats args_repeats
    then some (detected same_args repeats)
    else none

-- The runs of pattern A and of pattern B, on the events from the last back.
abbrev pub errors_of : Signatures → List Event → Repeat
errors_of g back = trailing_errors g (keep (λ e. not (is_read_only e)) back)

abbrev pub repeats_of : List Event → Repeat
repeats_of back = longer_run (trailing_run false back) (trailing_run true back)

-- _detect_loop
unfoldable pub detect_loop : Signatures → ℕ → ℕ → List Event → Option Detection
unfolding trailing_run error_run is_read_only
detect_loop g error_repeats args_repeats es =
    loop_verdict error_repeats args_repeats (errors_of g (reversed es)) (repeats_of (reversed es))
