-- ===== src/Guards/Breakers.antt =====
-- The guards that count a turn's searches and reads, and refuse one call: `wrap_tool_call` of the
-- search-unavailable, the search-runaway and the re-read breaker, and of the read-only enforcer.
use Prim.Native.String as Str
use Prim.Native.String.{◌++◌ as ◌<>◌}
use assist.Base.Dict
use assist.Base.Dict.{Dict}
use assist.Base.Decimal.{decimal}
use assist.Guards.Messages.{
  Value, text, other, ToolCall, ToolResult, Message, is_space, is_true, shown,
}
use assist.Guards.Events.{Signatures, Event, extract_events}
use assist.Guards.Repeats.{reversed}
use assist.Base.{
  ℕ, ◌+◌, max, String, Bool, true, false, not, ◌&&◌, List, [], ◌∷◌, Option, none, same, length, any,
  keep, count_if, ltb, leb, default_to, if◌then◌else◌,
}

-- What `wrap_tool_call` does: it calls the handler, or answers in its place.
pub data Verdict : Type 0 where
  run : Verdict
  answer : ToolResult → Verdict

-- a call's id in the answer to it
abbrev pub id_or_empty : Option String → String
id_or_empty o = default_to "" o

abbrev pub refusal : ToolCall → String → Verdict
refusal tc content = answer (record {
  tool_call_id = id_or_empty tc.id;
  name = tc.name;
  content = content;
  is_status_error = true;
})

-- assist.tools: _SEARCH_UNAVAILABLE_MESSAGE
unfoldable pub search_unavailable_message : String
search_unavailable_message =
    "Web search is unavailable — the search backend could not be reached or returned an unusable response. Do not search again (it will keep failing the same way), and never answer from your own knowledge. What to do next depends on what you already have: if an EARLIER search this turn already returned real results, do NOT discard them — write your answer from those results and add that some searches couldn't complete, so coverage may be incomplete. Only if you have gathered NOTHING usable at all should your final message say you couldn't look this up right now."

-- assist.tools: _SEARCH_EMPTY_GUIDANCE
unfoldable pub search_empty_guidance : String
search_empty_guidance =
    "This search returned no results. Do NOT repeat this query or a lightly reworded version — it will return nothing again. Try a distinctly different angle: broaden it, drop a constraint, or use adjacent terms. If a specific item isn't findable after a couple of different angles, treat it as not findable and move on — say so and answer from what you have."

abbrev pub is_search : Event → Bool
is_search e = same e.tool_name "search_internet"

abbrev pub is_unavailable : Event → Bool
is_unavailable e = e.completed && is_search e && same e.result_content search_unavailable_message

-- _correction
abbrev pub correction : String
correction =
    "Web search is unavailable and every further search will fail the same way — do NOT search again. Write your best answer NOW from the results you already gathered this turn (do NOT answer from your own knowledge), and note honestly that some sources couldn't be reached. If you gathered nothing usable at all, say plainly that you couldn't look this up right now."

-- A word before the words that are there, if it is one.
abbrev push_word : String → List String → List String
push_word Str.[] ws = ws
push_word (Str.◌∷◌ c w) ws = Str.◌∷◌ c w ∷ ws

-- The word at the beginning of a text, and the further ones.
abbrev split_word : String → String × List String
split_word Str.[] = ("", [])
split_word (Str.◌∷◌ c s) =
    let (w, ws) = split_word s in if is_space c then ("", push_word w ws) else (Str.◌∷◌ c w, ws)

abbrev join_words : List String → String
join_words [] = ""
join_words (w ∷ []) = w
join_words (w ∷ v ∷ ws) = w <> " " <> join_words (v ∷ ws)

-- `" ".join(s.split())`
abbrev pub squeeze : String → String
squeeze s = let (w, ws) = split_word s in join_words (push_word w ws)

abbrev pub query_of : Dict Value → Value
query_of args = default_to (text "") (Dict.get "query" args)

module _ (g : Signatures) where
  -- _count_search_unavailable
  unfoldable pub count_search_unavailable : List Message → ℕ
  count_search_unavailable ms = count_if is_unavailable (extract_events g ms none)

  -- `SearchUnavailableBreakerMiddleware`, made with a threshold
  unfoldable pub guard_unavailable : ℕ → ToolCall → List Message → Verdict
  unfolding count_search_unavailable
  guard_unavailable threshold tc ms =
      if not (same tc.name "search_internet")
      then run
      else if ltb (count_search_unavailable ms) (max 1 threshold)
      then run
      else refusal tc correction

  -- _normalize_query
  abbrev pub normalize_query : Value → String
  normalize_query (text s) = squeeze (g.lower s)
  normalize_query (other b s) = ""

  -- _completed_searches
  abbrev pub completed_searches : List Message → List Event
  completed_searches ms = keep (λ e. e.completed && is_search e) (extract_events g ms none)

  abbrev pub has_query : String → Event → Bool
  has_query target e = same (normalize_query (query_of e.args)) target

  abbrev pub is_empty_result : Event → Bool
  is_empty_result e = same e.result_content search_empty_guidance

  -- The loop of _trailing_empty_run, on the events from the last back.
  abbrev pub empty_run : List Event → ℕ
  empty_run [] = 0
  empty_run (e ∷ es) = let rest = empty_run es in if is_empty_result e then rest + 1 else 0

  -- _SAME_QUERY_CAP, _TOTAL_CAP, _CONSECUTIVE_EMPTY_CAP
  abbrev pub same_query_cap : ℕ
  same_query_cap = 3

  abbrev pub total_cap : ℕ
  total_cap = 50

  abbrev pub consecutive_empty_cap : ℕ
  consecutive_empty_cap = 5

  -- _FINALIZE_STEER
  abbrev pub finalize_steer : String
  finalize_steer =
      "Stop searching now and write your answer from what you have already gathered. Further searching this turn will not help — if you could not find something after the searches so far, say plainly that it is not available and answer from what you have."

  abbrev pub vary_steer : String
  vary_steer =
      "You have already run this exact search 3 times this turn — re-running an identical query returns the same thing. Try a distinctly different query, or answer from what you have."

  -- The answer that a query that came back empty gets without a search.
  abbrev pub cached_empty : ToolCall → Verdict
  cached_empty tc = answer (record {
    tool_call_id = id_or_empty tc.id;
    name = tc.name;
    content = search_empty_guidance;
    is_status_error = false;
  })

  abbrev pub bound_search : ToolCall → List Event → Verdict
  bound_search tc es =
      let again = keep (has_query (normalize_query (query_of tc.args))) es in
      if leb total_cap (length es)
      then refusal tc finalize_steer
      else if leb consecutive_empty_cap (empty_run (reversed es))
      then refusal tc finalize_steer
      else if leb same_query_cap (length again)
      then refusal tc vary_steer
      else if any is_empty_result again
      then cached_empty tc
      else run

  -- `SearchRunawayBreakerMiddleware`
  unfoldable pub guard_runaway : ToolCall → List Message → Verdict
  guard_runaway tc ms =
      if not (same tc.name "search_internet") then run else bound_search tc (completed_searches ms)

  -- _read_url_arg
  abbrev pub url_of : String → Dict Value → Value
  url_of name args =
      if same name "read_url" then default_to (text "") (Dict.get "url" args) else text ""

  abbrev pub reads : String → Event → Bool
  reads target e =
      let url = url_of e.tool_name e.args in
      e.completed && is_true url && same (g.normalize_url url) target

  -- _prior_read_count
  unfoldable pub prior_read_count : List Message → String → ℕ
  prior_read_count ms target = count_if (reads target) (extract_events g ms none)

  abbrev pub reread_text : Value → ℕ → String
  reread_text url max_reads =
      "You have already read "
      <> shown url
      <> " "
      <> decimal 20 max_reads
      <> " times in this task. Its content does not change between reads, so reading it again returns exactly the same thing. Do NOT read it again. Answer from what you already have; if the page does not contain what you need, say so plainly and stop — do not keep retrying the same URL."

  -- `ReadUrlRereadBreaker`, made with `max_reads`
  unfoldable pub guard_reread : ℕ → ToolCall → List Message → Verdict
  unfolding prior_read_count
  guard_reread max_reads tc ms =
      let url = url_of tc.name tc.args in
      if not (is_true url)
      then run
      else if ltb (prior_read_count ms (g.normalize_url url)) max_reads
      then run
      else refusal tc (reread_text url max_reads)

-- _MUTATING_TOOLS
abbrev pub mutating_tools : List String
mutating_tools = "write_file" ∷ "edit_file" ∷ "execute" ∷ []

-- `ReadOnlyEnforcerMiddleware`
unfoldable pub guard_read_only : ToolCall → Verdict
guard_read_only tc =
    if any (same tc.name) mutating_tools
    then refusal tc (
        "Error: this agent is read-only and cannot call '" <> tc.name
        <> "'. If the user asked you to write or modify something, do not attempt the write — instead surface the relevant file path, current contents, and any format conventions the caller will need, and explicitly note that you did not perform the write.")
    else run
