-- ===== src/Events/Log.antt =====
-- assist/events/thread_log.py: a thread's history, one line for each event. A file is its text, or
-- none where it is missing. `json.dumps` and `json.loads` are parameters: a line that `loads`
-- refuses, and an event that `dumps` does, is none. An event is its own object, by its `kind` and
-- its text for the other fields.
use Prim.Native.Char.{Char}
use Prim.Native.String as Str
use Prim.Native.String.{◌++◌ as ◌<>◌}
use text.Mathlib.TextLemmas as Text
use assist.Guards.{is_break}
use assist.Base.{
  String, Bool, true, false, not, ◌&&◌, ◌≡◌, refl, sym, ap, ◌∙◌, subst, Option, none, some, List,
  [], ◌∷◌, ◌++◌, append_assoc, append-nil, keep-append, same, keep, All, if◌then◌else◌, if_false,
  arith,
}

pub record Event : Type 0 where
  pub kind : String
  pub fields : String

abbrev glued : Char → List String → List String
glued c [] = Str.◌∷◌ c "" ∷ []
glued c (line ∷ lines) = Str.◌∷◌ c line ∷ lines

-- str.splitlines; the pair \r\n gives an empty line besides, which `loads` refuses as it does no line
unfoldable pub split_lines : String → List String
split_lines Str.[] = []
split_lines (Str.◌∷◌ c s) =
    let rest = split_lines s in if is_break c then "" ∷ rest else glued c rest

abbrev pub contents : Option String → String
contents none = ""
contents (some s) = s

abbrev pub of_kind : Option String → Event → Bool
of_kind none e = true
of_kind (some k) e = same e.kind k

-- No line ends in a text.
unfoldable pub unbroken : String → Bool
unbroken Str.[] = true
unbroken (Str.◌∷◌ c s) = let rest = unbroken s in not (is_break c) && rest

module _ (dumps : Event → Option String) (loads : String → Option Event) where
  -- append_event; the Boolean says whether the file system lets it
  unfoldable pub append_event : Bool → Event → Option String → Option String
  append_event writes e file = elim (dumps e) [
    | none ↦ file
    | some line ↦ if writes then some (contents file <> (line <> "\n")) else file
  ]

  -- The loop of `read_events`.
  abbrev pub read_lines : Option String → List String → List Event
  read_lines kind [] = []
  read_lines kind (line ∷ lines) =
      let rest = read_lines kind lines in
      elim (loads line) [ none ↦ rest | some e ↦ if of_kind kind e then e ∷ rest else rest ]

  unfoldable pub read_events : Option String → Option String → List Event
  unfolding split_lines
  read_events kind none = []
  read_events kind (some raw) = read_lines kind (split_lines raw)

  -- Attempts to append, one after another.
  unfoldable pub append_all : List (Bool × Event) → Option String → Option String
  unfolding append_event
  append_all [] file = file
  append_all ((writes, e) ∷ rest) file = append_all rest (append_event writes e file)

  -- The events of the attempts that reach the file.
  unfoldable pub recorded : List (Bool × Event) → List Event
  recorded [] = []
  recorded ((writes, e) ∷ rest) =
      let later = recorded rest in
      elim (dumps e) [ none ↦ later | some line ↦ if writes then e ∷ later else later ]

  -- What `dumps` writes for an event is one line, which `loads` reads as the event.
  abbrev pub Readable : Bool × Event → Type 0
  Readable p =
      (line : String) → dumps p.1 ≡ some line → (unbroken line ≡ true) × (loads line ≡ some p.1)

  split-line :
      (line rest : String)
      → unbroken line ≡ true
      → split_lines (line <> ("\n" <> rest)) ≡ line ∷ split_lines rest
  unfolding unbroken split_lines
  split-line Str.[] rest h =
      ap split_lines (Text.nil-append ("\n" <> rest) ∙ Text.cons-append "\n" "" rest)
      ∙ ap (λ s. "" ∷ split_lines s) (Text.nil-append rest)
  split-line (Str.◌∷◌ c s) rest h =
      let k : (is_break c ≡ false) × (unbroken s ≡ true) = ground (arith, h) in
      ap split_lines (Text.cons-append c s ("\n" <> rest))
      ∙ if_false _ _ k.0
      ∙ ap (glued c) (split-line s rest k.1)

  one_line :
      (c : Char) (s : String)
      → unbroken (Str.◌∷◌ c s) ≡ true
      → split_lines (Str.◌∷◌ c s) ≡ Str.◌∷◌ c s ∷ []
  unfolding unbroken split_lines
  one_line c Str.[] h = let k : is_break c ≡ false = ground (arith, h) in if_false _ _ k
  one_line c (Str.◌∷◌ d s) h =
      let k : (is_break c ≡ false) × (unbroken (Str.◌∷◌ d s) ≡ true) = ground (arith, h) in
      if_false _ _ k.0 ∙ ap (glued c) (one_line d s k.1)

  -- A torn line is not read.
  torn-line :
      (kind : Option String) (torn : String)
      → unbroken torn ≡ true
      → loads torn ≡ none
      → read_lines kind (split_lines torn) ≡ []
  unfolding split_lines
  torn-line kind Str.[] h e = refl
  torn-line kind (Str.◌∷◌ c s) h e = ap (read_lines kind) (one_line c s h) ∙ ground (arith, e)

  -- What the file holds is read before anything that follows it.
  abbrev Holds : Option String → List Event → Type 0
  Holds file es =
      (kind : Option String) (more : String)
      → read_lines kind (split_lines (contents file <> more))
        ≡ keep (of_kind kind) es ++ read_lines kind (split_lines more)

  read-line :
      (kind : Option String) (e : Event) (line : String) (lines : List String)
      → loads line ≡ some e
      → read_lines kind (line ∷ lines) ≡ keep (of_kind kind) (e ∷ []) ++ read_lines kind lines
  read-line kind e line lines k = ground (arith, k)

  written-Holds :
      (file : Option String) (es : List Event) (e : Event) (line : String)
      → Holds file es
      → unbroken line ≡ true
      → loads line ≡ some e
      → Holds (some (contents file <> (line <> "\n"))) (es ++ e ∷ [])
  written-Holds file es e line v h k kind more =
      ap (λ s. read_lines kind (split_lines s))
        (Text.append_assoc (contents file) (line <> "\n") more
          ∙ ap (λ s. contents file <> s) (Text.append_assoc line "\n" more))
      ∙ v kind (line <> ("\n" <> more))
      ∙ ap (λ l. keep (of_kind kind) es ++ l)
          (ap (read_lines kind) (split-line line more h)
            ∙ read-line kind e line (split_lines more) k)
      ∙ sym (append_assoc (keep (of_kind kind) es) (keep (of_kind kind) (e ∷ [])) _)
      ∙ ap (λ l. l ++ read_lines kind (split_lines more))
          (sym (keep-append (of_kind kind) es (e ∷ [])))

  append_all-Holds :
      (ps : List (Bool × Event)) (file : Option String) (es : List Event)
      → Holds file es
      → All Readable ps
      → Holds (append_all ps file) (es ++ recorded ps)
  unfolding append_all append_event recorded
  append_all-Holds [] file es v r = subst (Holds file) (sym (append-nil es)) v
  append_all-Holds ((writes, e) ∷ ps) file es v r =
      by_dumps (dumps e) refl writes (λ f fs w. append_all-Holds ps f fs w r.1)
    where
      by_dumps :
          (o : Option String)
          → dumps e ≡ o
          → (writes : Bool)
          → ((f : Option String) (fs : List Event)
              → Holds f fs
              → Holds (append_all ps f) (fs ++ recorded ps))
          → Holds
              (append_all ps (elim o [
                | none ↦ file
                | some line ↦ if writes then some (contents file <> (line <> "\n")) else file
              ]))
              (es ++ (elim o [
                | none ↦ recorded ps
                | some line ↦ if writes then e ∷ recorded ps else recorded ps
              ]))
      by_dumps none p writes ih = ih file es v
      by_dumps (some line) p false ih = ih file es v
      by_dumps (some line) p true ih =
          let (h, k) = r.0 line p in
          subst (Holds (append_all ps (some (contents file <> (line <> "\n")))))
            (append_assoc es (e ∷ []) (recorded ps))
            (ih (some (contents file <> (line <> "\n"))) (es ++ e ∷ [])
              (written-Holds file es e line v h k))

  -- From no file on, whichever appends fail, and with the beginning of one more line behind them: a
  -- reader gets the events whose appends did not fail, all or those of the kind it asks for, in the
  -- order of the appends. The conditions are that `dumps` writes an event as one line, which `loads`
  -- reads as the event, and that `loads` refuses the torn line.
  pub read_events-append_all :
      (ps : List (Bool × Event)) (torn : String) (kind : Option String)
      → All Readable ps
      → unbroken torn ≡ true
      → loads torn ≡ none
      → read_events kind (some (contents (append_all ps none) <> torn))
        ≡ keep (of_kind kind) (recorded ps)
  unfolding read_events
  read_events-append_all ps torn kind r h e =
      append_all-Holds ps none []
        (λ k more. ap (λ s. read_lines k (split_lines s)) (Text.nil-append more)) r kind torn
      ∙ ap (λ l. keep (of_kind kind) (recorded ps) ++ l) (torn-line kind torn h e)
      ∙ append-nil _
