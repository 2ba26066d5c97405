-- ===== src/Guards/Messages.antt =====
-- The messages of a thread, the tool calls in them, and the tests on their texts.
use Prim.Native.Char.{Char, code}
use Prim.Native.String as Str
use assist.Base.Dict.{Dict}
use assist.Base.{
  ℕ, zero, suc, ◌+◌, String, Bool, true, false, ◌||◌, ◌&&◌, List, [], ◌∷◌, Option, ◌==◌, leb, any,
  if◌then◌else◌,
}

-- A value of a call's arguments: a text, or anything else with its truth in a test and its `str`.
pub data Value : Type 0 where
  text : String → Value
  other : Bool → String → Value

-- A tool call; an absent name is empty.
pub record ToolCall : Type 0 where
  pub id : Option String
  pub name : String
  pub args : Dict Value

-- AIMessage; `raw_calls` says whether `additional_kwargs` has tool calls too.
pub record AiMessage : Type 0 where
  pub id : Option String
  pub content : String
  pub tool_calls : List ToolCall
  pub raw_calls : Bool

-- ToolMessage
pub record ToolResult : Type 0 where
  pub tool_call_id : String
  pub name : String
  pub content : String
  pub is_status_error : Bool

-- A human message carries the ids of the journal entries that it delivers.
pub data Message : Type 0 where
  human : String → List String → Message
  ai : AiMessage → Message
  tool : ToolResult → Message
  system : String → Message

abbrev pub is_human : Message → Bool
is_human (human s ids) = true
is_human (ai m) = false
is_human (tool r) = false
is_human (system s) = false

-- whether a value is true in a test
abbrev pub is_true : Value → Bool
is_true (text Str.[]) = false
is_true (text (Str.◌∷◌ c s)) = true
is_true (other b s) = b

-- str(value)
abbrev pub shown : Value → String
shown (text s) = s
shown (other b s) = s

-- str.isspace
abbrev pub is_space : Char → Bool
is_space c =
    let k = code c in
    (leb 9 k && leb k 13)
    || (leb 28 k && leb k 32)
    || k == 133
    || k == 160
    || k == 5760
    || (leb 8192 k && leb k 8202)
    || k == 8232
    || k == 8233
    || k == 8239
    || k == 8287
    || k == 12288

-- str.lstrip
abbrev pub strip_left : String → String
strip_left Str.[] = ""
strip_left (Str.◌∷◌ c s) = let rest = strip_left s in if is_space c then rest else Str.◌∷◌ c s

-- str.rstrip
abbrev pub strip_right : String → String
strip_right Str.[] = ""
strip_right (Str.◌∷◌ c s) =
    let rest = strip_right s in
    elim rest [
      | Str.[] ↦ if is_space c then "" else Str.◌∷◌ c Str.[]
      | Str.◌∷◌ d t ↦ Str.◌∷◌ c (Str.◌∷◌ d t)
    ]

-- where `str.splitlines` ends a line
abbrev pub is_break : Char → Bool
is_break c =
    let k = code c in
    (leb 10 k && leb k 13) || (leb 28 k && leb k 30) || k == 133 || k == 8232 || k == 8233

-- s.splitlines()[0], of a text that does not begin with a break
abbrev pub first_line : String → String
first_line Str.[] = ""
first_line (Str.◌∷◌ c s) = let rest = first_line s in if is_break c then "" else Str.◌∷◌ c rest

-- s[:n]
abbrev pub take_chars : ℕ → String → String
take_chars zero s = ""
take_chars (suc n) Str.[] = ""
take_chars (suc n) (Str.◌∷◌ c s) = Str.◌∷◌ c (take_chars n s)

-- The character of `str.lower`, where it is ASCII: a letter's, and the Kelvin sign's.
abbrev pub lower_code : ℕ → ℕ
lower_code k = if leb 65 k && leb k 90 then k + 32 else if k == 8490 then 107 else k

abbrev starts_with_any_case : String → String → Bool
starts_with_any_case Str.[] s = true
starts_with_any_case (Str.◌∷◌ p ps) Str.[] = false
starts_with_any_case (Str.◌∷◌ p ps) (Str.◌∷◌ c s) =
    lower_code (code c) == code p && starts_with_any_case ps s

-- _ERROR_PREFIXES
abbrev error_prefixes : List String
error_prefixes =
    "error:" ∷ "cannot write" ∷ "cannot edit" ∷ "cannot read" ∷ "failed to" ∷ "exception:"
    ∷ "traceback" ∷ []

-- _looks_like_error; no prefix is longer than the 120 characters that the code looks at
unfoldable pub looks_like_error : String → Bool
looks_like_error content = any (λ p. starts_with_any_case p (strip_left content)) error_prefixes
