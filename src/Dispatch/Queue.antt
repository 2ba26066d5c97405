-- ===== src/Dispatch/Queue.antt =====
-- `_PriorityRunQueue`, under its lock, and what `_ResumeScheduler` puts there. `get` is
-- `get_nowait` once something is there.
use assist.Base.{
  String, Bool, true, false, not, Option, none, some, List, [], ◌∷◌, ◌++◌, map, same, keep,
  if◌then◌else◌,
}

-- An item of the queue.
pub record Ticket : Type 0 where
  pub run_id : String
  pub tid : String
  pub user_priority : Bool

pub record RunQueue : Type 0 where
  pub user : List Ticket
  pub background : List Ticket

-- put
unfoldable pub put : Ticket → RunQueue → RunQueue
put t q =
    if t.user_priority
    then record q { user = q.user ++ t ∷ [] }
    else record q { background = q.background ++ t ∷ [] }

-- get_nowait: the item and the queue without it, or none for `queue.Empty`
unfoldable pub get_nowait : RunQueue → Option (Ticket × RunQueue)
get_nowait q = elim q.user [
  | t ∷ ts ↦ some (t, record q { user = ts })
  | [] ↦ elim q.background [ t ∷ ts ↦ some (t, record q { background = ts }) | [] ↦ none ]
]

-- empty
unfoldable pub is_empty : RunQueue → Bool
is_empty q = elim q.user [ t ∷ ts ↦ false | [] ↦ elim q.background [ [] ↦ true | t ∷ ts ↦ false ] ]

abbrev pub of_thread : String → Ticket → Bool
of_thread tid t = same t.tid tid

abbrev pub raise_ticket : Ticket → Ticket
raise_ticket t = record t { user_priority = true }

-- promote; where nothing is promoted the tiers are what they were
unfoldable pub promote : String → RunQueue → RunQueue
promote tid q = record {
  user = q.user ++ map raise_ticket (keep (of_thread tid) q.background);
  background = keep (λ t. not (of_thread tid t)) q.background;
}

-- _ResumeScheduler.submit
unfoldable pub submit : String → String → Bool → RunQueue → RunQueue
unfolding put
submit run_id tid priority q =
    put (record { run_id = run_id; tid = tid; user_priority = priority }) q
