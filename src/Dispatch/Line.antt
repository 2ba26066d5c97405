-- ===== src/Dispatch/Line.antt =====
-- What the run queue promises: one line of tickets, from which the first ticket of a user is served, and
-- any other only where no user has one.
use assist.Dispatch.Queue.{
  Ticket, RunQueue, put, get_nowait, is_empty, of_thread, raise_ticket, promote,
}
use assist.Base.{
  String, Bool, true, false, not, ◌&&◌, ◌≡◌, Option, none, some, List, [], ◌∷◌, ◌++◌, map, keep,
  if◌then◌else◌,
}

pub data Call : Type 0 where
  putting : Ticket → Call
  getting : Call
  testing : Call
  promoting : String → Call

pub data Answer : Type 0 where
  done : Answer
  got : Option Ticket → Answer
  said : Bool → Answer

abbrev pub got_from {ℓ} : {A : Type ℓ} → A → Option (Ticket × A) → Answer × A
got_from a none = (got none, a)
got_from a (some p) = (got (some p.0), p.1)

-- What a call answers, and the queue after it.
unfoldable pub perform : Call → RunQueue → Answer × RunQueue
unfolding put get_nowait is_empty promote
perform (putting t) q = (done, put t q)
perform getting q = got_from q (get_nowait q)
perform testing q = (said (is_empty q), q)
perform (promoting tid) q = (done, promote tid q)

unfoldable pub replay : List Call → RunQueue → List Answer
unfolding perform
replay [] q = []
replay (c ∷ cs) q = let o = perform c q in o.0 ∷ replay cs o.1

-- The specification: a list of tickets.
abbrev pub Line : Type 0
Line = List Ticket

abbrev pub is_user : Ticket → Bool
is_user t = t.user_priority

abbrev pub is_other : Ticket → Bool
is_other t = not (is_user t)

-- The first ticket of a user, and the line without it.
abbrev pub first_user : Line → Option (Ticket × Line)
first_user [] = none
first_user (t ∷ ts) =
    let later = first_user ts in
    if is_user t then some (t, ts) else elim later [ none ↦ none | some p ↦ some (p.0, t ∷ p.1) ]

abbrev pub first_of : Line → Option (Ticket × Line)
first_of [] = none
first_of (t ∷ ts) = some (t, ts)

abbrev pub serve : Line → Option (Ticket × Line)
serve l = elim (first_user l) [ some p ↦ some p | none ↦ first_of l ]

-- The tickets that a promotion moves.
abbrev pub moves : String → Ticket → Bool
moves tid t = of_thread tid t && not (is_user t)

abbrev pub has_none : Line → Bool
has_none [] = true
has_none (t ∷ ts) = false

-- What the line answers: a new ticket stands last, the first ticket of a user is served before all
-- others, and a promotion moves a thread's other tickets to the end, as a user's, in their order.
unfoldable pub perform_in_line : Call → Line → Answer × Line
perform_in_line (putting t) l = (done, l ++ t ∷ [])
perform_in_line getting l = got_from l (serve l)
perform_in_line testing l = (said (has_none l), l)
perform_in_line (promoting tid) l =
    (done, keep (λ t. not (moves tid t)) l ++ map raise_ticket (keep (moves tid) l))

unfoldable pub replay_in_line : List Call → Line → List Answer
unfolding perform_in_line
replay_in_line [] l = []
replay_in_line (c ∷ cs) l = let o = perform_in_line c l in o.0 ∷ replay_in_line cs o.1

-- A queue holds a line: the tickets of users in one tier, the others in the other.
pub record Holds (q : RunQueue) (l : Line) : Type 0 where
  pub users : q.user ≡ keep is_user l
  pub others : q.background ≡ keep is_other l
