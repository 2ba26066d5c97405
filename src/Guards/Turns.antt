-- ===== src/Guards/Turns.antt =====
-- A turn, call by call, under a guard, and the events that the guard reads.
use assist.Base.Dict
use assist.Base.Dict.{Dict, get-put, same_self}
use assist.Guards.Messages.{
  ToolCall, AiMessage, ToolResult, Message, human, ai, tool, system, is_human,
}
use assist.Guards.Events.{
  Signatures, Event, paired, events_of, extract_events, turn_slice, since_human, latest, collect,
  result_of,
}
use assist.Guards.Breakers.{Verdict, run, answer}
use assist.Base.{
  String, Bool, true, false, ◌≡◌, refl, sym, ap, ap₂, ◌∙◌, subst, List, [], ◌∷◌, ◌++◌, map,
  append-nil, append_assoc, Option, none, some, same, any, keep, keep-append, All, arith,
  default_to, inl, inr, Option-cases, if_true, if_false,
}

-- whether a message has a call of an id, or its result
abbrev pub mentions : String → Message → Bool
mentions id (ai m) = any (λ tc. elim tc.id [ none ↦ false | some i ↦ same i id ]) m.tool_calls
mentions id (human s ids) = false
mentions id (tool r) = same r.tool_call_id id
mentions id (system s) = false

-- No message mentions the id yet.
abbrev pub Fresh : String → List Message → Type 0
Fresh id = All (λ m. mentions id m ≡ false)

-- A message with one call, under an id.
pub record Asks (m : AiMessage) (tc : ToolCall) (id : String) : Type 0 where
  pub one : m.tool_calls ≡ tc ∷ []
  pub named : tc.id ≡ some id
  pub some_id : same id "" ≡ false

-- The messages of a turn whose calls are run one at a time, under a guard, and the calls that the
-- guard let through, with their results. Ids are not used twice, and any result may come back.
pub data Turn (g : Signatures) (wrap : ToolCall → List Message → Verdict)
    : List Message → List Event → Type 0 where
  begin :
      (before : List Message) (s : String) (ids : List String)
      → Turn g wrap (before ++ human s ids ∷ []) []
  executed :
      {ms : List Message} {hits : List Event} (m : AiMessage) (tc : ToolCall) (r : ToolResult)
      → Turn g wrap ms hits
      → Asks m tc r.tool_call_id
      → Fresh r.tool_call_id ms
      → wrap tc (ms ++ ai m ∷ []) ≡ run
      → Turn g wrap (ms ++ ai m ∷ tool r ∷ []) (hits ++ paired g tc (some r) ∷ [])
  refused :
      {ms : List Message} {hits : List Event} (m : AiMessage) (tc : ToolCall) (r : ToolResult)
      → Turn g wrap ms hits
      → Asks m tc r.tool_call_id
      → Fresh r.tool_call_id ms
      → wrap tc (ms ++ ai m ∷ []) ≡ answer r
      → Turn g wrap (ms ++ ai m ∷ tool r ∷ []) hits

-- The messages that a call adds.
abbrev NoHuman : List Message → Type 0
NoHuman = All (λ m. is_human m ≡ false)

no_human :
    (ms xs : List Message) → NoHuman xs → since_human ms ≡ none → since_human (ms ++ xs) ≡ none
unfolding since_human
no_human [] [] h e = refl
no_human [] (x ∷ xs) h e = ground (arith, h.0, no_human [] xs h.1)
no_human (m ∷ ms) xs h e = elim (Option-cases (since_human ms)) [
  | inl p ↦ ground (arith, e, p, no_human ms xs h)
  | inr (sl, p) ↦ absurd (ground (arith, e, p))
]

since_human-append :
    (ms xs sl : List Message)
    → NoHuman xs
    → since_human ms ≡ some sl
    → since_human (ms ++ xs) ≡ some (sl ++ xs)
unfolding since_human
since_human-append [] xs sl h e = absurd (cc e)
since_human-append (m ∷ ms) xs sl h e = elim (Option-cases (since_human ms)) [
  | inr (later, p) ↦
      ap (latest m (ms ++ xs)) (since_human-append ms xs later h p)
      ∙ ap (λ l. some (l ++ xs)) (ground (arith, e, p))
  | inl p ↦
      let first : m ∷ ms ≡ sl = ground (arith, e, p) in
      let test : is_human m ≡ true = ground (arith, e, p) in
      ap (latest m (ms ++ xs)) (no_human ms xs h p)
      ∙ if_true _ _ test
      ∙ ap (λ l. some (l ++ xs)) first
]

collect-append :
    (ms xs : List Message) (d : Dict ToolResult) → collect (ms ++ xs) d ≡ collect xs (collect ms d)
unfolding collect
collect-append [] xs d = refl
collect-append (human s ids ∷ ms) xs d = collect-append ms xs d
collect-append (ai m ∷ ms) xs d = collect-append ms xs d
collect-append (tool r ∷ ms) xs d = collect-append ms xs _
collect-append (system s ∷ ms) xs d = collect-append ms xs d

module _ (g : Signatures) where
  events_of-append :
      (d : Dict ToolResult) (ms xs : List Message)
      → events_of g d (ms ++ xs) ≡ events_of g d ms ++ events_of g d xs
  unfolding events_of
  events_of-append d [] xs = refl
  events_of-append d (human s ids ∷ ms) xs = events_of-append d ms xs
  events_of-append d (ai m ∷ ms) xs =
      ap (λ es. map (λ tc. paired g tc (result_of tc.id d)) m.tool_calls ++ es)
        (events_of-append d ms xs)
      ∙ sym (append_assoc (map (λ tc. paired g tc (result_of tc.id d)) m.tool_calls) _ _)
  events_of-append d (tool r ∷ ms) xs = events_of-append d ms xs
  events_of-append d (system s ∷ ms) xs = events_of-append d ms xs

  calls-put :
      (id : String) (r : ToolResult) (d : Dict ToolResult) (tcs : List ToolCall)
      → any (λ tc. elim tc.id [ none ↦ false | some i ↦ same i id ]) tcs ≡ false
      → map (λ tc. paired g tc (result_of tc.id (Dict.put id r d))) tcs
        ≡ map (λ tc. paired g tc (result_of tc.id d)) tcs
  calls-put id r d [] h = refl
  calls-put id r d (tc ∷ tcs) h =
      ap₂ (λ e es. e ∷ es) (ap (paired g tc) (unchanged tc.id (ground (arith, h))))
        (calls-put id r d tcs (ground (arith, h)))
    where
      unchanged :
          (o : Option String)
          → elim o [ none ↦ false | some i ↦ same i id ] ≡ false
          → result_of o (Dict.put id r d) ≡ result_of o d
      unchanged none e = refl
      unchanged (some i) e = get-put id i r d ∙ ground (arith, e)

  events_of-put :
      (id : String) (r : ToolResult) (d : Dict ToolResult) (ms : List Message)
      → Fresh id ms
      → events_of g (Dict.put id r d) ms ≡ events_of g d ms
  unfolding events_of
  events_of-put id r d [] h = refl
  events_of-put id r d (human s ids ∷ ms) h = events_of-put id r d ms h.1
  events_of-put id r d (ai m ∷ ms) h =
      ap₂ (λ (xs : List Event) ys. xs ++ ys) (calls-put id r d m.tool_calls h.0)
        (events_of-put id r d ms h.1)
  events_of-put id r d (tool s ∷ ms) h = events_of-put id r d ms h.1
  events_of-put id r d (system s ∷ ms) h = events_of-put id r d ms h.1

collect-get :
    (id : String) (ms : List Message) (d : Dict ToolResult)
    → Fresh id ms
    → Dict.get id (collect ms d) ≡ Dict.get id d
unfolding collect
collect-get id [] d h = refl
collect-get id (human s ids ∷ ms) d h = collect-get id ms d h.1
collect-get id (ai m ∷ ms) d h = collect-get id ms d h.1
collect-get id (tool r ∷ ms) d h =
    collect-get id ms _ h.1 ∙ ground (arith, h.0, get-put r.tool_call_id id r d)
collect-get id (system s ∷ ms) d h = collect-get id ms d h.1

Fresh-since_human :
    (id : String) (ms sl : List Message) → Fresh id ms → since_human ms ≡ some sl → Fresh id sl
unfolding since_human
Fresh-since_human id [] sl h e = absurd (cc e)
Fresh-since_human id (m ∷ ms) sl h e = elim (Option-cases (since_human ms)) [
  | inr (later, p) ↦
      let one : later ≡ sl = ground (arith, e, p) in
      subst (Fresh id) one (Fresh-since_human id ms later h.1 p)
  | inl p ↦ let one : m ∷ ms ≡ sl = ground (arith, e, p) in subst (Fresh id) one h
]

-- The completed calls of the current turn, as the guards count them.
abbrev pub turn_events : Signatures → List Message → List Event
turn_events g ms = keep (λ e. e.completed) (extract_events g ms none)

module _ (g : Signatures) where
  extract-slice :
      (ms sl : List Message)
      → since_human ms ≡ some sl
      → extract_events g ms none ≡ events_of g (collect sl []) sl
  unfolding extract_events turn_slice
  extract-slice ms sl e = ap (λ o. events_of g (collect (default_to ms o) []) (default_to ms o)) e

  last_call :
      (d : Dict ToolResult) (m : AiMessage) (tc : ToolCall) (id : String) (rest : List Message)
      → Asks m tc id
      → events_of g d rest ≡ []
      → events_of g d (ai m ∷ rest) ≡ paired g tc (Dict.get id d) ∷ []
  unfolding events_of
  last_call d m tc id rest a none_left =
      ap₂ (λ (xs : List Event) ys. xs ++ ys)
        (ap (map (λ tc. paired g tc (result_of tc.id d))) a.one) none_left
      ∙ ap (λ o. paired g tc (result_of o d) ∷ []) a.named

  -- A pending call is not counted.
  pub turn_events-pending :
      (ms sl : List Message) (m : AiMessage) (tc : ToolCall) (id : String)
      → since_human ms ≡ some sl
      → Asks m tc id
      → Fresh id ms
      → turn_events g (ms ++ ai m ∷ []) ≡ turn_events g ms
  unfolding collect events_of Dict.get
  turn_events-pending ms sl m tc id e a fresh =
      let d = collect sl [] in
      let f = Fresh-since_human id ms sl fresh e in
      let absent : Dict.get id d ≡ none = collect-get id sl [] f in
      ap (keep (λ x. x.completed)) (
        extract-slice (ms ++ ai m ∷ []) (sl ++ ai m ∷ [])
          (since_human-append ms (ai m ∷ []) sl (refl, tt) e)
        ∙ ap (λ c. events_of g c (sl ++ ai m ∷ [])) (collect-append sl (ai m ∷ []) [])
        ∙ events_of-append g d sl (ai m ∷ [])
        ∙ ap (λ es. events_of g d sl ++ es)
            (last_call d m tc id [] a refl ∙ ap (λ o. paired g tc o ∷ []) absent))
      ∙ keep-append (λ x. x.completed) (events_of g d sl) (paired g tc none ∷ [])
      ∙ append-nil _
      ∙ ap (keep (λ x. x.completed)) (sym (extract-slice ms sl e))

  -- A call with its result is counted.
  pub turn_events-paired :
      (ms sl : List Message) (m : AiMessage) (tc : ToolCall) (r : ToolResult)
      → since_human ms ≡ some sl
      → Asks m tc r.tool_call_id
      → Fresh r.tool_call_id ms
      → turn_events g (ms ++ ai m ∷ tool r ∷ []) ≡ turn_events g ms ++ paired g tc (some r) ∷ []
  unfolding collect events_of
  turn_events-paired ms sl m tc r e a fresh =
      let id = r.tool_call_id in
      let d = collect sl [] in
      let f = Fresh-since_human id ms sl fresh e in
      let put_there : collect (ai m ∷ tool r ∷ []) d ≡ Dict.put id r d = if_false _ _ a.some_id in
      let there : Dict.get id (Dict.put id r d) ≡ some r =
        get-put id id r d ∙ if_true _ _ (same_self id) in
      ap (keep (λ x. x.completed)) (
        extract-slice (ms ++ ai m ∷ tool r ∷ []) (sl ++ ai m ∷ tool r ∷ [])
          (since_human-append ms (ai m ∷ tool r ∷ []) sl (refl, (refl, tt)) e)
        ∙ ap (λ c. events_of g c (sl ++ ai m ∷ tool r ∷ []))
            (collect-append sl (ai m ∷ tool r ∷ []) [] ∙ put_there)
        ∙ events_of-append g (Dict.put id r d) sl (ai m ∷ tool r ∷ [])
        ∙ ap₂ (λ (xs : List Event) ys. xs ++ ys) (events_of-put g id r d sl f)
            (last_call (Dict.put id r d) m tc id (tool r ∷ []) a refl
              ∙ ap (λ o. paired g tc o ∷ []) there))
      ∙ keep-append (λ x. x.completed) (events_of g d sl) (paired g tc (some r) ∷ [])
      ∙ ap (λ es. keep (λ x. x.completed) es ++ paired g tc (some r) ∷ [])
          (sym (extract-slice ms sl e))

since_human-last :
    (before : List Message) (s : String) (ids : List String)
    → since_human (before ++ human s ids ∷ []) ≡ some (human s ids ∷ [])
unfolding since_human
since_human-last [] s ids = refl
since_human-last (m ∷ before) s ids = ap (latest m _) (since_human-last before s ids)

module _ (g : Signatures) (wrap : ToolCall → List Message → Verdict) where
  pub Turn-slice :
      {ms : List Message} {hits : List Event}
      → Turn g wrap ms hits
      → (sl : List Message) × (since_human ms ≡ some sl)
  Turn-slice (begin before s ids) = (human s ids ∷ [], since_human-last before s ids)
  Turn-slice (executed {ms = ms} m tc r t a f e) =
      let (sl, p) = Turn-slice t in
      (sl ++ ai m ∷ tool r ∷ [], since_human-append ms _ sl (refl, (refl, tt)) p)
  Turn-slice (refused {ms = ms} m tc r t a f e) =
      let (sl, p) = Turn-slice t in
      (sl ++ ai m ∷ tool r ∷ [], since_human-append ms _ sl (refl, (refl, tt)) p)
