-- ===== src/Dispatch/Recovery.antt =====
-- `_recovery_decision`, `_recover_run` and `queue_recovery_runs`: what a new process does about the
-- work that the last one left. `visible` is what `MANAGER.list()` answers; the state of a thread's
-- graph is a parameter, none where it can't be read.
use Prim.Native.String.{◌++◌ as ◌<>◌}
use assist.Base.Integer.{pos}
use assist.Web.{Status as Projection, no_fields, get_status}
use assist.Runs.{
  Run, pending, running, interrupted, success, error, timeout, cancelled, no_change, Result, ok,
  err, Env, read, NewRun,
}
use assist.Dispatch.World.{World, next, web_run, submit_run, create_run, move_run, put_status}
use assist.Dispatch.Pending.{has_status, is_true, dispatch_pending_after}
use assist.Base.{
  ℕ, String, Bool, true, false, not, ◌&&◌, ◌||◌, Option, none, some, List, [], ◌∷◌, same, any, find,
  default_to, if◌then◌else◌,
}

-- What `get_state` says of a thread's graph, with the text of its latest human message.
pub record Snapshot : Type 0 where
  pub mid_flight : Bool
  pub latest_human : String

pub data Decision : Type 0 where
  -- the decisions "resume", "finalize", "redispatch" and "error"
  resume finalize redispatch give_up : Decision

-- _SUPERSEDE_RIDER
abbrev pub supersede_rider : String
supersede_rider =
    "[There was an earlier reply you drafted in this conversation that was NOT sent — a newer message arrived first. Write ONE reply that addresses the earlier message(s) and this new one together; do not propose a separate reply for each.]\n\n"

-- _recovery_decision
unfoldable pub recovery_decision : Option Snapshot → String → Decision
recovery_decision none message = give_up
recovery_decision (some s) message =
    if s.mid_flight
    then resume
    else if not (same message "")
        && (same s.latest_human message || same s.latest_human (supersede_rider <> message))
    then finalize
    else redispatch

abbrev pub lost_turn : String
lost_turn =
    "Server restarted and this thread's turn could not be recovered. Send the message again."

abbrev pub ready : Projection
ready = record { stage = "ready"; fields = no_fields }

abbrev pub gave_up : Option String → Projection
gave_up message = record {
  stage = "error";
  fields = record no_fields { error = some lost_turn; pending_message = message };
}

-- The text of the message that a turn answers: `a or b or c`.
abbrev pub first_true : Option String → Option String → Option String
first_true a b = if is_true a then a else b

-- The successor of an abandoned run that is interrupted: a resumption of its work that is live.
abbrev pub resumes : Run → Run → Bool
resumes r c = (has_status pending c || has_status running c) && same c.work_id r.work_id && c.resume

abbrev pub is_resume : Decision → Bool
is_resume resume = true
is_resume _ = false

unfoldable pub successor_of : Bool → Option String → Run → NewRun
successor_of resumed message r = record (web_run r.thread_id) {
  text = if resumed then none else message;
  work_id = some r.work_id;
  sender = r.sender;
  rider = r.rider;
  origin = r.origin;
  resume = resumed;
  pending_text = if resumed then message else none;
  active_ms = pos r.active_ms;
}

-- A run that is abandoned: running, or interrupted with no later run of its work that ended.
abbrev pub is_ended : Run → Bool
is_ended r =
    has_status success r || has_status error r || has_status timeout r || has_status cancelled r

abbrev pub is_abandoned : Run → List Run → Bool
is_abandoned r later =
    has_status running r
    || (has_status interrupted r && not (any (λ l. same l.work_id r.work_id && is_ended l) later))

-- The last of them.
unfoldable pub abandoned_of : List Run → Option Run
abandoned_of [] = none
abandoned_of (r ∷ rs) = elim (abandoned_of rs) [
  | some later ↦ some later
  | none ↦ if is_abandoned r rs then some r else none
]

module _ (env : ℕ → Env) (snapshot : String → Option Snapshot) where
  abbrev pub handed : String → Bool → Result Run × World → Result {0} Unit × World
  handed tid priority (err e, w) = (err e, w)
  handed tid priority (ok s, w) = (ok tt, submit_run s tid priority w)

  unfoldable pub recover_interrupted :
      Run → Option String → Bool → List Run → World → Result {0} Unit × World
  unfolding create_run successor_of
  recover_interrupted r message priority runs w = elim (find (resumes r) runs) [
    | some s ↦ handed r.thread_id priority (ok s, w)
    | none ↦ handed r.thread_id priority (create_run env (successor_of true message r) w)
  ]

  unfoldable pub recover_running :
      Decision → Run → Option String → Bool → World → Result {0} Unit × World
  unfolding create_run successor_of move_run put_status dispatch_pending_after
  recover_running finalize r message priority w =
      next (move_run env r.thread_id r.id success no_change w) (λ s w1.
        next (put_status env r.thread_id ready w1)
          (λ u w2. dispatch_pending_after r.thread_id none w2))
  recover_running give_up r message priority w =
      next (move_run env r.thread_id r.id error (record no_change { error = some lost_turn }) w)
        (λ s w1.
          next (put_status env r.thread_id (gave_up message) w1)
            (λ u w2. dispatch_pending_after r.thread_id (some r.id) w2))
  recover_running resume r message priority w =
      next
        (move_run env r.thread_id r.id interrupted
          (record no_change { active_ms = some (pos r.active_ms) }) w)
        (λ s w1. handed r.thread_id priority (create_run env (successor_of true message r) w1))
  recover_running redispatch r message priority w =
      next
        (move_run env r.thread_id r.id interrupted
          (record no_change { active_ms = some (pos r.active_ms) }) w)
        (λ s w1. handed r.thread_id priority (create_run env (successor_of false message r) w1))

  abbrev pub message_of : Run → World → Option String
  message_of r w =
      first_true r.pending_text
        (first_true r.text (get_status r.thread_id w.web).fields.pending_message)

  -- _recover_run
  unfoldable pub recover_run : Run → Bool → World → Result {0} Unit × World
  unfolding recover_interrupted recover_running recovery_decision
  recover_run r priority w =
      if has_status interrupted r
      then elim (read r.thread_id w.disk) [
        | err e ↦ (err e, w)
        | ok runs ↦ recover_interrupted r (message_of r w) priority runs w
      ]
      else recover_running
          (recovery_decision (snapshot r.thread_id) (default_to "" (message_of r w))) r
          (message_of r w) priority w
