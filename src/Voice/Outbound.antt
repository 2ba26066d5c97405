-- ===== src/Voice/Outbound.antt =====
-- `OutboundBuffer`: what the session has for the phone. A call that would wait says so, and is tried
-- again; every part between waits holds the condition's lock.
use assist.Base.{
  ℕ, ◌+◌, String, Bool, true, false, not, ◌&&◌, ◌||◌, List, [], ◌∷◌, ◌++◌, leb, ◌==◌, length, keep,
  same, if◌then◌else◌,
}

-- An item of the deque: a frame with its generation, or a server control by its `type`.
pub data Item : Type 0 where
  audio : ℕ → String → Item
  control : String → Item

pub record Outbound : Type 0 where
  pub capacity : ℕ
  pub items : List Item
  pub closed : Bool
  pub generation : ℕ

pub data Answer : Type 0 where
  -- waits on the condition
  waiting : Answer
  -- BufferClosed
  closed_error : Answer
  finished : Answer
  -- what `put_audio` returns
  queued : Bool → Answer
  -- what `start_generation` returns
  number : ℕ → Answer
  -- what `get` takes off
  item : Item → Answer

abbrev is_full : Outbound → Bool
is_full b = leb b.capacity (length b.items)

-- `self._items.pop()`
abbrev pub drop_last : List Item → List Item
drop_last [] = []
drop_last (x ∷ []) = []
drop_last (x ∷ y ∷ ys) = x ∷ drop_last (y ∷ ys)

-- `if len(self._items) >= self._capacity: self._items.pop()`
abbrev pub make_room : ℕ → List Item → List Item
make_room capacity xs = if leb capacity (length xs) then drop_last xs else xs

unfoldable pub start_generation : Outbound → Answer × Outbound
start_generation b =
    if b.closed
    then (closed_error, b)
    else (number (b.generation + 1), record b { generation = b.generation + 1 })

-- One round of `put_audio`'s loop.
unfoldable pub put_audio : ℕ → String → Outbound → Answer × Outbound
put_audio g frame b =
    if is_full b && not b.closed && g == b.generation
    then (waiting, b)
    else if b.closed || not (g == b.generation)
    then (queued false, b)
    else (queued true, record b { items = b.items ++ audio g frame ∷ [] })

unfoldable pub put_control : String → Outbound → Answer × Outbound
put_control c b =
    if b.closed
    then (closed_error, b)
    else (finished, record b { items = control c ∷ make_room b.capacity b.items })

-- not a tuple, and not the flush
abbrev pub outlives_flush : Item → Bool
outlives_flush (audio g frame) = false
outlives_flush (control c) = not (same c "flush_uplink")

unfoldable pub interrupt_audio : Outbound → Outbound
interrupt_audio b =
    let kept = keep outlives_flush b.items in
    if b.closed then b else record b {
      generation = b.generation + 1;
      items = control "flush_uplink" ∷ make_room b.capacity kept;
    }

abbrev pub take_first : List Item → Outbound → Answer × Outbound
take_first [] b = (if b.closed then closed_error else waiting, b)
take_first (x ∷ xs) b = (item x, record b { items = xs })

-- One round of `get`'s loop, up to its timeout.
unfoldable pub get : Outbound → Answer × Outbound
get b = take_first b.items b

unfoldable pub abort : Outbound → Outbound
abort b = record b { closed = true; items = [] }

unfoldable pub close_with_final : String → Outbound → Outbound
close_with_final c b = if b.closed then b else record b { items = control c ∷ []; closed = true }

-- finish: `close(discard=False)`
unfoldable pub finish : Outbound → Outbound
finish b = if b.closed then b else record b { closed = true }
