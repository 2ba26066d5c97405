-- ===== src/Events/Inbound.antt =====
-- assist/events/inbound.py: the log of the messages that a phone posts, a file for each id.
use Prim.Native.Char.{Char, code}
use Prim.Native.String as Str
use Prim.Native.String.{count}
use assist.Base.Dict
use assist.Base.Dict.{Dict}
use assist.Base.{
  ℕ, suc, String, Bool, false, ◌&&◌, ◌||◌, Option, none, some, leb, ◌==◌, same, if◌then◌else◌,
}

-- What a file records, but for the id, which is its name.
pub record Message : Type 0 where
  pub sender : String
  pub text : String
  pub received_at : String

-- The pattern's class of characters.
abbrev pub is_word : Char → Bool
is_word c =
    let k = code c in
    (leb 65 k && leb k 90)
    || (leb 97 k && leb k 122)
    || (leb 48 k && leb k 57)
    || k == 95
    || k == 45

-- The characters of the class before the end, or before a line feed that ends the text, which `$`
-- allows too: how many, or none if others are among them.
unfoldable pub word_length : String → Option ℕ
word_length Str.[] = some 0
word_length (Str.◌∷◌ c s) =
    let rest = word_length s in
    if code c == 10 && same s ""
    then some 0
    else if is_word c
    then elim rest [ none ↦ none | some n ↦ some (suc n) ]
    else none

-- valid_id
unfoldable pub valid_id : String → Bool
unfolding word_length
valid_id s = elim (word_length s) [ none ↦ false | some n ↦ leb 1 n && leb n 128 ]

pub data Verdict : Type 0 where
  -- ValueError
  unsafe : Verdict
  duplicate : Verdict
  recorded : Verdict

-- claim, where the message holds the clock's text
unfoldable pub claim : String → Message → Dict Message → Verdict × Dict Message
unfolding valid_id
claim id m log =
    if valid_id id
    then elim (Dict.get id log) [
      | some old ↦ (duplicate, log)
      | none ↦ (recorded, Dict.put id m log)
    ]
    else (unsafe, log)
