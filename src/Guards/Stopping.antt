-- ===== src/Guards/Stopping.antt =====
-- Exact repetition is stopped, and nothing else of the message changes.
use assist.Guards.Messages.{ToolCall, AiMessage, Message}
use assist.Guards.Events.{Signatures, Event, extract_events}
use assist.Guards.Repeats.{
  is_read_only, Detection, Repeat, args_run, trailing_run, reversed, reaches, same_error, same_args,
  detected, loop_verdict, errors_of, repeats_of, detect_loop,
}
use assist.Guards.Strip.{
  strip_tool_calls, compose_terminal_message, last_message, extended_by, checked, with_calls,
  stop_repeats,
}
use assist.Base.{
  ℕ, ◌+◌, ◌≤◌, String, Bool, true, false, not, ◌&&◌, ◌≡◌, ◌≢◌, refl, sym, ap, ◌∙◌, List, [], ◌∷◌,
  ◌++◌, some, same, any, keep, length, All, inl, inr, ◌⊎◌, Bool-cases, arith, if◌then◌else◌, subst,
  suc, if_true, if_false,
}

-- The prefix of a list whose elements pass a test.
abbrev pub leading {ℓ} : {A : Type ℓ} → (A → Bool) → List A → List A
leading p [] = []
leading p (x ∷ xs) = if p x then x ∷ leading p xs else []

abbrev pub repeats : String → String → Event → Bool
repeats name sig e = same e.tool_name name && same e.args_sig sig

-- A call of another tool that only reads.
abbrev pub is_transparent : String → Event → Bool
is_transparent name e = not (same e.tool_name name) && is_read_only e

-- The walk of pattern B counts the run of exact repetitions that is left when the calls of other
-- tools that only read are taken out.
pub args_run-leading :
    (name sig : String) (n : ℕ) (es : List Event)
    → args_run name sig n es
      ≡ n + length (leading (repeats name sig) (keep (λ e. not (is_transparent name e)) es))
unfolding args_run
args_run-leading name sig n [] = omega arith
args_run-leading name sig n (e ∷ es) =
    ground (arith, args_run-leading name sig n es, args_run-leading name sig (n + 1) es)

args_run-ge : (name sig : String) (n : ℕ) (es : List Event) → n ≤ args_run name sig n es
unfolding args_run
args_run-ge name sig n [] = omega arith
args_run-ge name sig n (e ∷ es) =
    ground (arith, args_run-ge name sig n es, args_run-ge name sig (n + 1) es)

args_run-counts :
    (name sig : String) (n : ℕ) (xs ys : List Event)
    → All (λ x. repeats name sig x ≡ true) xs
    → n + length xs ≤ args_run name sig n (xs ++ ys)
unfolding args_run
args_run-counts name sig n [] ys h = omega (arith, args_run-ge name sig n ys)
args_run-counts name sig n (x ∷ xs) ys h =
    ground (arith, h.0, args_run-counts name sig (n + 1) xs ys h.1)

loop_verdict-tool :
    (er ar : ℕ) (name : String) (a b : Repeat)
    → name ≢ ""
    → (a.run_tool ≡ name) ⊎ (a.run_tool ≡ "")
    → b.run_tool ≡ name
    → ar ≤ b.run_len
    → (d : Detection) × (loop_verdict er ar a b ≡ some d) × (d.looping_tool ≡ name)
loop_verdict-tool er ar name a b named own same_name long = elim (Bool-cases (reaches a er)) [
  | inl e ↦ (
    detected same_error a,
    if_true _ _ e,
    elim own [ inl p ↦ p | inr p ↦ absurd (ground (arith, e, p)) ],
  )
  | inr e ↦
      let r : reaches b ar ≡ true = ground (arith, same_name, named, long) in
      (detected same_args b, if_false _ _ e ∙ if_true _ _ r, same_name)
]

errors-own :
    (g : Signatures) (e : Event) (rest : List Event)
    → is_read_only e ≡ false
    → ((errors_of g (e ∷ rest)).run_tool ≡ e.tool_name) ⊎ ((errors_of g (e ∷ rest)).run_tool ≡ "")
errors-own g e rest writes = ground (arith, writes)

repeats-own :
    (e : Event) (rest : List Event)
    → is_read_only e ≡ false
    → (repeats_of (e ∷ rest)).run_tool ≡ e.tool_name
unfolding trailing_run
repeats-own e rest writes = ground (arith, writes)

repeats-long :
    (e : Event) (rest : List Event)
    → is_read_only e ≡ false
    → (repeats_of (e ∷ rest)).run_len ≡ args_run e.tool_name e.args_sig 1 rest
unfolding trailing_run
repeats-long e rest writes = ground (arith, writes)

-- Whatever pattern is detected, the run is the last event's, if that is a call that writes.
detect-last :
    (g : Signatures) (er ar : ℕ) (es rest : List Event) (e : Event)
    → reversed es ≡ e ∷ rest
    → is_read_only e ≡ false
    → e.tool_name ≢ ""
    → ar ≤ args_run e.tool_name e.args_sig 1 rest
    → (d : Detection) × (detect_loop g er ar es ≡ some d) × (d.looping_tool ≡ e.tool_name)
unfolding detect_loop
detect-last g er ar es rest e back writes named long =
    let (d, found, own) =
      loop_verdict-tool er ar e.tool_name (errors_of g (e ∷ rest)) (repeats_of (e ∷ rest)) named
        (errors-own g e rest writes) (repeats-own e rest writes)
        (subst (λ n. ar ≤ n) (sym (repeats-long e rest writes)) long) in
    (d, ap (λ b. loop_verdict er ar (errors_of g b) (repeats_of b)) back ∙ found, own)

-- A call that writes is not made a further time after `args_repeats` identical ones. When the last
-- completed calls of the window are that many calls of one tool with the same arguments, and the
-- message to run calls the tool again, the message loses all its calls, and keeps its id, so that it
-- takes its own place.
pub repeats_are_stopped :
    (g : Signatures) (window er ar : ℕ) (ms : List Message) (last : AiMessage) (e : Event)
    (xs ys : List Event)
    → last_message ms ≡ some last
    → any (λ tc. same tc.name e.tool_name) last.tool_calls ≡ true
    → reversed (keep (λ x. x.completed) (extract_events g ms (some window))) ≡ e ∷ xs ++ ys
    → All (λ x. repeats e.tool_name e.args_sig x ≡ true) xs
    → ar ≤ suc (length xs)
    → is_read_only e ≡ false
    → e.tool_name ≢ ""
    → (m : AiMessage) × (stop_repeats g window er ar ms ≡ some m)
      × (m.tool_calls ≡ [])
      × (m.raw_calls ≡ false)
      × (m.id ≡ last.id)
unfolding stop_repeats strip_tool_calls
repeats_are_stopped g window er ar ms last e xs ys at_end again back runs enough writes named =
    let es = keep (λ x. x.completed) (extract_events g ms (some window)) in
    let long : ar ≤ args_run e.tool_name e.args_sig 1 (xs ++ ys) =
      omega (arith, args_run-counts e.tool_name e.args_sig 1 xs ys runs, enough) in
    let (d, found, own) = detect-last g er ar es (xs ++ ys) e back writes named long in
    let extends : any (λ tc. same tc.name d.looping_tool) last.tool_calls ≡ true =
      subst (λ t. any (λ tc. same tc.name t) last.tool_calls ≡ true) (sym own) again in
    (
      strip_tool_calls last (compose_terminal_message d ms),
      ap (checked g window er ar ms) at_end ∙ outcome last.tool_calls refl d found extends,
      refl,
      refl,
      refl,
    )
  where
    outcome :
        (tcs : List ToolCall)
        → last.tool_calls ≡ tcs
        → (d : Detection)
        → detect_loop g er ar (keep (λ x. x.completed) (extract_events g ms (some window))) ≡ some d
        → any (λ tc. same tc.name d.looping_tool) last.tool_calls ≡ true
        → with_calls g window er ar ms last tcs
          ≡ some (strip_tool_calls last (compose_terminal_message d ms))
    outcome [] p d found h = absurd (ground (arith, p, h))
    outcome (tc ∷ tcs) p d found h = ap (extended_by g window er ar last ms) found ∙ if_true _ _ h
