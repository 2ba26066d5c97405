-- ===== src/Runs/History.antt =====
-- Any number of calls, in any order: states follow the transitions, and final states are final.
use assist.Runs.Defs.{Status, interrupted, cancelled, Run, may_become, is_terminal}
use assist.Runs.Store.{Disk, Env}
use assist.Runs.Create.{NewRun, create}
use assist.Runs.Update.{Change, transition, cancel_pending}
use assist.Runs.Legacy.{PendingMessage, import_legacy}
use assist.Runs.Evolution.{Becomes, Evolves, runs_of}
use assist.Runs.Lifecycle.{transition-Evolves, cancel_pending-Evolves}
use assist.Runs.Acceptance.{create-Evolves}
use assist.Runs.Migration.{import_legacy-Evolves}
use assist.Base.{
  ℕ, zero, suc, String, true, ◌≡◌, refl, ◌⊎◌, inl, inr, some, List, [], ◌∷◌, get_elem?, arith, ap,
  ◌∙◌, subst,
}

-- A call that may change the store; `claim` and `cancel` are transitions.
pub data Call : Type 0 where
  accept : Env → NewRun → Call
  move : Env → String → String → Status → Change → Call
  withdraw : Env → String → String → Call
  migrate : Env → String → String → List PendingMessage → Call

unfoldable pub perform : Call → Disk → Disk
perform (accept env a) disk = (create env a disk).1
perform (move env tid rid s c) disk = (transition env tid rid s c disk).1
perform (withdraw env tid rid) disk = (cancel_pending env tid rid disk).1
perform (migrate env assistant tid ms) disk = (import_legacy env assistant tid ms disk).1

unfoldable pub replay : List Call → Disk → Disk
replay [] disk = disk
replay (c ∷ cs) disk = replay cs (perform c disk)

-- No call of the service breaks the life cycle of any run of any thread: runs keep their places
-- and ids, their states follow the transitions, and new ones come last and are pending.
pub perform-Evolves :
    (c : Call) (tid : String) (disk : Disk)
    → Evolves (runs_of tid disk) (runs_of tid (perform c disk))
unfolding perform
perform-Evolves (accept env a) j disk = create-Evolves env a j disk
perform-Evolves (move env tid rid s c) j disk = transition-Evolves env tid rid j s c disk
perform-Evolves (withdraw env tid rid) j disk = cancel_pending-Evolves env tid rid j disk
perform-Evolves (migrate env assistant tid ms) j disk =
    import_legacy-Evolves env assistant tid j ms disk

-- Two runs in the same place, before and after, and how the state went on.
abbrev Successor : ℕ → List Run → List Run → Run → Type 0
Successor i rs ns r =
    (n : Run) × (get_elem? ns i ≡ some n) × (n.id ≡ r.id) × Becomes r.status n.status

same_place :
    (i : ℕ) (rs ns : List Run) (r : Run)
    → Evolves rs ns
    → get_elem? rs i ≡ some r
    → Successor i rs ns r
same_place i [] ns r h e = absurd (cc e)
same_place i (x ∷ rs) [] r h e = absurd h
same_place zero (x ∷ rs) (n ∷ ns) r h e =
    let one : x ≡ r = ground arith in
    (n, refl, h.0 ∙ ap (λ y. y.id) one, subst (λ y. Becomes y.status n.status) one h.1)
same_place (suc i) (x ∷ rs) (n ∷ ns) r h e = same_place i rs ns r h.2 e

-- A terminal state is followed by terminal states only; an interrupted run may still be cancelled,
-- and the others keep their state.
terminal-step :
    (s t : Status)
    → is_terminal s ≡ true
    → Becomes s t
    → (is_terminal t ≡ true) × ((s ≡ t) ⊎ (s ≡ interrupted))
unfolding may_become is_terminal
terminal-step s t h (inl e) = (subst (λ x. is_terminal x ≡ true) e h, inl e)
terminal-step interrupted cancelled h (inr m) = (refl, inr refl)
terminal-step s t h (inr m) = absurd (ground arith)

-- A terminal run stays in its place with its id, through any sequence of calls on any threads: it
-- is never pending or running again, and its state stays the same unless it was interrupted.
pub terminal_forever :
    (cs : List Call) (tid : String) (disk : Disk) (i : ℕ) (r : Run)
    → get_elem? (runs_of tid disk) i ≡ some r
    → is_terminal r.status ≡ true
    → (n : Run) × (get_elem? (runs_of tid (replay cs disk)) i ≡ some n)
      × (n.id ≡ r.id)
      × (is_terminal n.status ≡ true)
      × ((r.status ≡ n.status) ⊎ (r.status ≡ interrupted))
unfolding replay
terminal_forever [] tid disk i r e f = (r, e, refl, f, inl refl)
terminal_forever (c ∷ cs) tid disk i r e f =
    let (n, there, same_id, next) = same_place i _ _ r (perform-Evolves c tid disk) e in
    let (final, stays) = terminal-step r.status n.status f next in
    let (m, there', same_id', final', stays') =
      terminal_forever cs tid (perform c disk) i n there final in
    (
      m,
      there',
      same_id' ∙ same_id,
      final',
      elim stays [
        | inr p ↦ inr p
        | inl p ↦ elim stays' [ inl q ↦ inl (p ∙ q) | inr q ↦ inr (p ∙ q) ]
      ],
    )
