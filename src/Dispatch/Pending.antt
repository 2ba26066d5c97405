-- ===== src/Dispatch/Pending.antt =====
-- `_dispatch_pending_after`, and the acceptance of a web message.
use assist.Web.{Status as Projection, no_fields, get_status}
use assist.Runs.{
  Status, RunError, Run, turn, pending, running, interrupted, is_status, is_mode, Result, ok, err,
  Env, JsonObject, read,
}
use assist.Dispatch.Queue.{promote}
use assist.Dispatch.World.{World, web_run, stage_of, submit_run, create_run, put_status}
use assist.Base.{
  ℕ, String, Bool, true, false, not, ◌&&◌, ◌||◌, Option, none, some, List, [], ◌∷◌, same, any, find,
  keep, ◌⊎◌, inl, inr, is_some, if◌then◌else◌,
}

-- BUSY_STAGES
unfoldable pub is_busy : String → Bool
is_busy stage =
    same stage "initializing"
    || same stage "cloning"
    || same stage "starting_sandbox"
    || same stage "processing"
    || same stage "queued"
    || same stage "paused"

abbrev pub has_status : Status → Run → Bool
has_status s r = is_status r.status s

abbrev pub is_other : Option String → Run → Bool
is_other none r = true
is_other (some rid) r = not (same r.id rid)

-- A web message: a turn without an origin, with a text.
abbrev pub is_user_turn : Run → Bool
is_user_turn r = is_mode r.mode turn && not (is_some r.origin) && is_some r.text

-- The run to be queued, and whether it is a user's.
abbrev pub chosen : List Run → Option (Run × Bool)
chosen rs = elim (find is_user_turn rs) [
  | some r ↦ some (r, true)
  | none ↦ elim rs [ [] ↦ none | r ∷ later ↦ some (r, false) ]
]

-- Earlier work owns the thread.
abbrev pub is_owned : String → List Run → Bool
is_owned stage runs =
    any (has_status running) runs || (same stage "paused" && any (has_status interrupted) runs)

-- The pending runs but for the one that has ended.
abbrev pub followers : Option String → List Run → List Run
followers rid runs = keep (λ r. has_status pending r && is_other rid r) runs

abbrev pub submit_chosen : String → Option (Run × Bool) → World → World
submit_chosen tid none w = w
submit_chosen tid (some (r, is_user)) w = submit_run r tid is_user w

-- _dispatch_pending_after
unfoldable pub dispatch_pending_after : String → Option String → World → Result {0} Unit × World
dispatch_pending_after tid rid w = elim (read tid w.disk) [
  | err e ↦ (err e, w)
  | ok runs ↦
      if is_owned (stage_of tid w) runs
      then (ok tt, w)
      else (ok tt, submit_chosen tid (chosen (followers rid runs)) w)
]

-- Why a web message isn't accepted: an email awaits approval, or what was raised.
pub data Refusal : Type 0 where
  email_pending : Refusal
  raised : RunError → Refusal

-- The status that `_mark_pending` writes for an idle thread, where another thread may hold the slot.
abbrev pub marked_status : Option String → String → String → Run → ℕ → Projection
marked_status holder tid text r now = record {
  stage = elim holder [
    | none ↦ "processing"
    | some h ↦ if same h tid then "processing" else "queued"
  ];
  fields = record no_fields {
    pending_message = some text;
    pending_run_id = some r.id;
    started_at = some now;
  };
}

-- `token` truth: an absent or empty text is false
abbrev pub is_true : Option String → Bool
is_true none = false
is_true (some s) = not (same s "")

abbrev pub holds_slot : Option String → String → Bool
holds_slot none tid = false
holds_slot (some h) tid = same h tid

abbrev pub answered : Result {0} Unit → Result Bool
answered (err e) = err e
answered (ok u) = ok false

module _ (env : ℕ → Env) where
  -- _mark_pending
  unfoldable pub mark_pending :
      Option String → ℕ → String → String → Bool → Run → World → Result Bool × World
  unfolding put_status
  mark_pending holder now tid text true r w = (ok true, w)
  mark_pending holder now tid text false r w =
      let o = put_status env tid (marked_status holder tid text r now) w in (answered o.0, o.1)

  abbrev pub accepted_run : Run → Result Bool × World → (Refusal ⊎ (Run × Bool)) × World
  accepted_run r (err e, w) = (inl (raised e), w)
  accepted_run r (ok busy, w) = (inr (r, busy), w)

  unfoldable pub marked_run :
      Option String
      → ℕ
      → String
      → String
      → Bool
      → Result Run × World
      → (Refusal ⊎ (Run × Bool)) × World
  unfolding mark_pending promote
  marked_run holder now tid text busy (err e, w) = (inl (raised e), w)
  marked_run holder now tid text busy (ok r, w) = accepted_run r (
      mark_pending holder now tid text busy r
        (if busy then record w { queue = promote tid w.queue } else w))

  -- The locked part behind the check of a pending email, where `holder` holds the slot. The promotion
  -- of the slot's waiters is `promote` of Queue.
  unfoldable pub accept_run :
      Option String
      → ℕ
      → String
      → String
      → Option JsonObject
      → World
      → (Refusal ⊎ (Run × Bool)) × World
  unfolding create_run marked_run is_busy
  accept_run holder now tid text rider w =
      marked_run holder now tid text (is_busy (stage_of tid w) || holds_slot holder tid)
        (create_run env (record (web_run tid) { text = some text; rider = rider }) w)

  -- _accept_message_run
  unfoldable pub accept_message_run :
      Option String
      → ℕ
      → String
      → String
      → Option JsonObject
      → World
      → (Refusal ⊎ (Run × Bool)) × World
  unfolding accept_run
  accept_message_run holder now tid text rider w =
      if is_true (get_status tid w.web).fields.pending_email_token
      then (inl email_pending, w)
      else accept_run holder now tid text rider w
