-- ===== src/Dispatch/Startup.antt =====
-- `queue_recovery_runs`: a new process imports the legacy journal, and queues what the last process
-- accepted. `visible` is what `MANAGER.list()` answers.
use text.Mathlib.Text.{starts_with}
use assist.Base.Dict
use assist.Base.Dict.{Dict}
use assist.Base.Integer.{pos}
use assist.Records.{Outcome, Failure, Root, remove, for_thread}
use assist.Records as Records
use assist.Web.{get_status}
use assist.Runs.{
  Run, or_none, child, pending, running, interrupted, is_mode, RunError, not_found, io_error,
  Result, ok, err, Directory, Disk, Env, read, stored, import_legacy, PendingMessage,
}
use assist.Dispatch.World.{World, messages, next, web_run, submit_run, create_run, put_status}
use assist.Dispatch.Pending.{has_status, is_busy, dispatch_pending_after}
use assist.Dispatch.Handoff.{discard, ends_task, complete_child_handoff, recover_interrupted_child}
use assist.Dispatch.Recovery.{
  Snapshot, Decision, resume, finalize, redispatch, give_up, recovery_decision, ready, gave_up,
  handed, abandoned_of,
}
use assist.Base.{
  ℕ, suc, String, Bool, true, false, not, ◌&&◌, ◌||◌, Option, none, some, List, [], ◌∷◌, ◌++◌, same,
  any, keep, default_to, if◌then◌else◌,
}

-- A loop whose body may raise.
abbrev pub each {ℓ} :
    {A : Type ℓ} → (A → World → Result {0} Unit × World) → List A → World → Result {0} Unit × World
each body [] w = (ok tt, w)
each body (a ∷ rest) w = let go = each body rest in next (body a w) (λ u w'. go w')

-- What the journal of messages raises.
abbrev pub as_run_error : Failure → RunError
as_run_error Records.not_found = not_found
as_run_error Records.cap_exceeded = io_error
as_run_error Records.io_error = io_error
as_run_error Records.raised = io_error

-- MESSAGE_BACKLOG.claim, which passes over a message that is gone
abbrev pub claimed : Outcome {0} Unit × Root PendingMessage → World → Result {0} Unit × World
claimed (Records.ok u, journal) w = (ok tt, record w { journal = journal })
claimed (Records.failed Records.not_found, journal) w = (ok tt, w)
claimed (Records.failed Records.cap_exceeded, journal) w = (err io_error, w)
claimed (Records.failed Records.io_error, journal) w = (err io_error, w)
claimed (Records.failed Records.raised, journal) w = (err io_error, w)

abbrev pub is_id : Option String → PendingMessage → Bool
is_id none m = false
is_id (some rid) m = same m.id rid

-- The names of the directories.
abbrev pub names : Disk → List String
names [] = []
names ((tid, d) ∷ disk) = tid ∷ names disk

-- scan_all
abbrev pub all_runs : Disk → List Run
all_runs [] = []
all_runs ((tid, d) ∷ disk) = stored (some d) ++ all_runs disk

abbrev pub is_child : Run → Bool
is_child r = is_mode r.mode child

-- A directory without accepted work: a reservation that was not published, or one without runs.
abbrev pub is_vacant : String → Option Directory → Bool
is_vacant tid none = false
is_vacant tid (some d) = starts_with tid ".subagent-" || (d.marker && same_empty (stored (some d)))
  where
    same_empty : List Run → Bool
    same_empty [] = true
    same_empty (r ∷ rs) = false

abbrev pub clear_vacant : String → World → World
clear_vacant tid w = if is_vacant tid (Dict.get tid w.disk) then discard tid w else w

abbrev pub clear_all : List String → World → World
clear_all [] w = w
clear_all (tid ∷ tids) w = clear_all tids (clear_vacant tid w)

-- The abandoned heads, each with its thread, of the runs that were read.
abbrev pub submit_head : String × List Run → World → World
submit_head (tid, runs) w = elim (abandoned_of runs) [
  | none ↦ w
  | some r ↦ submit_run r tid false w
]

abbrev pub submit_heads : List (String × List Run) → World → World
submit_heads [] w = w
submit_heads (p ∷ ps) w = submit_heads ps (submit_head p w)

-- The runs of the visible threads, read one after another.
abbrev pub read_all : List String → Disk → Result (List (String × List Run))
read_all [] disk = ok []
read_all (tid ∷ tids) disk =
    let rest = read_all tids disk in
    elim (read tid disk) [
      | err e ↦ err e
      | ok runs ↦ elim rest [ err e ↦ err e | ok ps ↦ ok ((tid, runs) ∷ ps) ]
    ]

module _ (env : ℕ → Env) (snapshot : String → Option Snapshot) where
  -- The messages that became runs are claimed.
  abbrev pub imported :
      List PendingMessage → String → Result (List Run) × Disk → World → Result {0} Unit × World
  imported legacy tid (err e, disk) w = (err e, record w { disk = disk; calls = suc w.calls })
  imported legacy tid (ok rs, disk) w =
      each
        (λ m w'.
          claimed (remove messages (env w'.calls).writes tid m.id w'.journal)
            (record w' { calls = suc w'.calls }))
        legacy (record w { disk = disk; calls = suc w.calls })

  abbrev pub import_journal :
      String → Outcome (List PendingMessage) → World → Result {0} Unit × World
  import_journal tid (Records.failed e) w = (err (as_run_error e), w)
  import_journal tid (Records.ok []) w = (ok tt, w)
  import_journal tid (Records.ok (m ∷ ms)) w =
      let claimed_id = (get_status tid w.web).fields.claimed_id in
      imported (m ∷ ms) tid
        (import_legacy (env w.calls) "general-agent" tid
          (keep (λ l. not (is_id claimed_id l)) (m ∷ ms)) w.disk)
        w

  unfoldable pub import_thread : String → World → Result {0} Unit × World
  unfolding import_legacy for_thread remove
  import_thread tid w = import_journal tid (for_thread messages tid w.journal) w

  -- The loop over the children's runs.
  unfoldable pub recover_child : Run → World → Result {0} Unit × World
  unfolding recover_interrupted_child complete_child_handoff
  recover_child r w =
      if has_status pending r || has_status running r
      then (ok tt, submit_run r r.thread_id false w)
      else if has_status interrupted r
      then recover_interrupted_child env r w
      else if ends_task r.status
      then next (complete_child_handoff env r w) (λ s w'. (ok tt, w'))
      else (ok tt, w)

  -- A busy status whose message is in no run.
  unfoldable pub recover_status : Decision → String → World → Result {0} Unit × World
  unfolding put_status create_run dispatch_pending_after
  recover_status finalize tid w =
      next (put_status env tid ready w) (λ u w'. dispatch_pending_after tid none w')
  recover_status give_up tid w =
      next
        (put_status env tid
          (gave_up (some (default_to "" (get_status tid w.web).fields.pending_message))) w)
        (λ u w'. dispatch_pending_after tid none w')
  recover_status resume tid w =
      let f = (get_status tid w.web).fields in
      handed env snapshot tid false (
        create_run env
          (record (web_run tid) {
            sender = or_none f.sender;
            rider = f.rider;
            resume = true;
            active_ms = pos (default_to 0 f.accumulated_active_ms);
            pending_text = some (default_to "" f.pending_message);
            origin = or_none f.origin;
          })
          w)
  recover_status redispatch tid w =
      let f = (get_status tid w.web).fields in
      handed env snapshot tid false (
        create_run env
          (record (web_run tid) {
            text = some (default_to "" f.pending_message);
            sender = or_none f.sender;
            rider = f.rider;
            active_ms = pos (default_to 0 f.accumulated_active_ms);
            origin = or_none f.origin;
          })
          w)

  abbrev pub is_named : Option String → Run → Bool
  is_named none r = false
  is_named (some rid) r = same r.id rid

  -- The last loop's body for a thread without abandoned work.
  unfoldable pub queue_settled : String → List Run → World → Result {0} Unit × World
  unfolding is_busy recover_status recovery_decision dispatch_pending_after
  queue_settled tid runs w =
      let st = get_status tid w.web in
      if any (λ r. has_status pending r && is_named st.fields.pending_run_id r) runs
      then dispatch_pending_after tid none w
      else if is_busy st.stage
      then recover_status
          (recovery_decision (snapshot tid) (default_to "" st.fields.pending_message)) tid w
      else dispatch_pending_after tid none w

  -- The last loop's body, with the runs that were read before.
  unfoldable pub queue_thread : String × List Run → World → Result {0} Unit × World
  unfolding abandoned_of queue_settled
  queue_thread (tid, runs) w = elim (abandoned_of runs) [
    | some r ↦ (ok tt, w)
    | none ↦ queue_settled tid runs w
  ]

  unfoldable pub queue_read : Result (List (String × List Run)) → World → Result {0} Unit × World
  unfolding recover_child queue_thread
  queue_read (err e) w = (err e, w)
  queue_read (ok ps) w =
      let cleared = clear_all (names w.disk) (submit_heads ps w) in
      next (each recover_child (keep is_child (all_runs cleared.disk)) cleared)
        (λ u w'. each queue_thread ps w')

  -- queue_recovery_runs
  unfoldable pub queue_recovery_runs : List String → World → Result {0} Unit × World
  unfolding import_thread queue_read
  queue_recovery_runs visible w =
      next (each import_thread visible w) (λ u w'. queue_read (read_all visible w'.disk) w')
