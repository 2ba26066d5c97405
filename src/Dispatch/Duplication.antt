-- ===== src/Dispatch/Duplication.antt =====
-- A message that a start runs a second time.
use assist.Base.Dict.{same_self}
use assist.Web.{WebState, Status as Projection, get_status}
use assist.Runs.{
  is_status, or_none, Run, Status, reload, pending, NewRun, new_run, create, dispatched, replaced,
  truthy, Result, ok, err, Env, Disk, Directory, stored,
}
use assist.Runs.Evolution.{runs_of}
use assist.Runs.Acceptance.{Ending, refused, found, new, create-Ending}
use assist.Runs.Idempotence.{existing-inverse}
use assist.Dispatch.World.{World, create_run, web_run}
use assist.Dispatch.Pending.{has_status, is_busy}
use assist.Dispatch.Recovery.{Snapshot, handed, recovery_decision, redispatch, abandoned_of}
use assist.Dispatch.Startup.{queue_settled, queue_thread, recover_status, is_named}
use assist.Dispatch.Queue.{RunQueue}
use assist.Dispatch.Start.{recover_interrupted_threads}
use assist.Dispatch.Alone.{Settleable, alone, found_alone, start-alone}
use assist.Dispatch.Boundary.{same_text}
use assist.Base.Integer.{pos}
use assist.Base.{
  ap₂, ℕ, suc, ◌+◌, String, Bool, true, false, ◌&&◌, ◌≡◌, refl, sym, ap, ◌∙◌, Option, none, some,
  List, [], ◌∷◌, ◌++◌, map, any, count_if, count_if-append, default_to, if◌then◌else◌, if_true,
  if_false, subst, arith, String-discrete, Bool-cases, inl, inr, ◌≤◌,
}

-- A run that is pending with a text.
abbrev pub asks : String → Run → Bool
asks text r = has_status pending r && same_text r.text (some text)

asks-reload :
    (text : String) (rs : List Run) → count_if (asks text) (map reload rs) ≡ count_if (asks text) rs
unfolding reload
asks-reload text [] = refl
asks-reload text (r ∷ rs) = ap (λ n. (if asks text r then 1 else 0) + n) (asks-reload text rs)

itself : (x : Status) → is_status x x ≡ true
itself x = ground arith

-- Without a key, a run that is created is a new one.
unkeyed :
    (env : ℕ → Env) (a : NewRun) (w v : World) (s : Run)
    → a.dispatch_key ≡ none
    → a.cancel_pending ≡ false
    → create_run env a w ≡ (ok s, v)
    → runs_of a.thread_id v.disk
      ≡ map reload (runs_of a.thread_id w.disk ++ new_run (env w.calls) a ∷ [])
unfolding create_run create dispatched replaced
unkeyed env a w v s k c e =
    by_ending (create (env w.calls) a w.disk) (create-Ending (env w.calls) a w.disk)
      (ap (λ o. o.0) e) (ap (λ o. o.1.disk) e)
  where
    runs : List Run
    runs = runs_of a.thread_id w.disk

    by_ending :
        (o : Result Run × Disk)
        → Ending (env w.calls) a w.disk o
        → o.0 ≡ ok s
        → o.1 ≡ v.disk
        → runs_of a.thread_id v.disk ≡ map reload (runs ++ new_run (env w.calls) a ∷ [])
    by_ending o (refused same_runs) f d = absurd (cc f)
    by_ending o (found {r = r} open_before there) f d =
        let (under_key, agrees) = existing-inverse (env w.calls) a runs r there in
        let clash : none ≡ some r = sym (if_false _ _ (ap truthy k)) ∙ under_key in
        absurd (cc clash)
    by_ending o (new {ns = ns} open_after x made after) f d =
        ap (runs_of a.thread_id) (sym d)
        ∙ after a.thread_id
        ∙ if_true _ _ (same_self a.thread_id)
        ∙ ap (map reload)
            (x.appended_last ∙ ap (λ ks. ks ++ new_run (env w.calls) a ∷ []) (if_false _ _ c))

handed-created :
    (env : ℕ → Env) (snapshot : String → Option Snapshot) (tid : String) (o : Result Run × World)
    (w' : World)
    → handed env snapshot tid false o ≡ (ok tt, w')
    → (s : Run) × (v : World) × (o ≡ (ok s, v)) × (w'.disk ≡ v.disk)
handed-created env snapshot tid (err e, v) w' h = absurd (cc h)
handed-created env snapshot tid (ok s, v) w' h = (s, v, refl, ap (λ o. o.1.disk) (sym h))

-- The last loop's body creates a run for the message of a busy status that it redispatches.
redispatched :
    (env : ℕ → Env) (snapshot : String → Option Snapshot) (tid : String) (runs : List Run)
    (w w' : World)
    → let st = get_status tid w.web in
      let text = default_to "" st.fields.pending_message in
      is_busy st.stage ≡ true
      → any (λ r. has_status pending r && is_named env snapshot st.fields.pending_run_id r) runs
        ≡ false
      → recovery_decision (snapshot tid) text ≡ redispatch
      → queue_settled env snapshot tid runs w ≡ (ok tt, w')
      → count_if (asks text) (runs_of tid w'.disk) ≡ suc (count_if (asks text) (runs_of tid w.disk))
unfolding queue_settled recover_status new_run
redispatched env snapshot tid runs w w' busy unnamed fresh e =
    let f = (get_status tid w.web).fields in
    let text = default_to "" f.pending_message in
    let a : NewRun = record (web_run tid) {
      text = some text;
      sender = or_none f.sender;
      rider = f.rider;
      active_ms = pos (default_to 0 f.accumulated_active_ms);
      origin = or_none f.origin;
    } in
    let recovered : recover_status env snapshot redispatch tid w ≡ (ok tt, w') =
      ap (λ d. recover_status env snapshot d tid w) (sym fresh)
      ∙ sym (if_true _ _ busy)
      ∙ sym (if_false _ _ unnamed)
      ∙ e in
    let (s, v, made, same_disk) =
      handed-created env snapshot tid (create_run env a w) w' recovered in
    let old : List Run = runs_of tid w.disk in
    let one : count_if (asks text) (new_run (env w.calls) a ∷ []) ≡ 1 =
      ap (λ b. (if b then 1 else 0) + 0) (ap₂ (λ x y. x && y) (itself pending) (same_self text)) in
    ap (λ d. count_if (asks text) (runs_of tid d)) same_disk
    ∙ ap (count_if (asks text)) (unkeyed env a w v s refl refl made)
    ∙ asks-reload text (old ++ new_run (env w.calls) a ∷ [])
    ∙ count_if-append (asks text) old (new_run (env w.calls) a ∷ [])
    ∙ omega (arith, one)

some_counted : (p : Run → Bool) (rs : List Run) → any p rs ≡ true → 1 ≤ count_if p rs
some_counted p [] e = absurd (cc e)
some_counted p (r ∷ rs) e = elim (Bool-cases (p r)) [
  | inl h ↦ ground (arith, h)
  | inr h ↦
      let further : any p rs ≡ true = ground (arith, e, h) in
      ground (arith, h, some_counted p rs further)
]

settled_of :
    (env : ℕ → Env) (snapshot : String → Option Snapshot) (tid : String) (runs : List Run)
    (w : World)
    → abandoned_of runs ≡ none
    → queue_thread env snapshot (tid, runs) w ≡ queue_settled env snapshot tid runs w
unfolding queue_thread
settled_of env snapshot tid runs w left = ap go left
  where
    go : Option Run → Result {0} Unit × World
    go o = elim o [ some r ↦ (ok tt, w) | none ↦ queue_settled env snapshot tid runs w ]

-- The last loop creates another run for a message that already has a pending one.
recreated :
    (env : ℕ → Env) (snapshot : String → Option Snapshot) (tid : String) (w w' : World)
    → let st = get_status tid w.web in
      let text = default_to "" st.fields.pending_message in
      let runs = runs_of tid w.disk in
      is_busy st.stage ≡ true
      → any (asks text) runs ≡ true
      → any (λ r. has_status pending r && is_named env snapshot st.fields.pending_run_id r) runs
        ≡ false
      → recovery_decision (snapshot tid) text ≡ redispatch
      → abandoned_of runs ≡ none
      → queue_thread env snapshot (tid, runs) w ≡ (ok tt, w')
      → (count_if (asks text) (runs_of tid w'.disk) ≡ suc (count_if (asks text) runs))
        × (2 ≤ count_if (asks text) (runs_of tid w'.disk))
recreated env snapshot tid w w' busy waits unnamed fresh left e =
    let runs = runs_of tid w.disk in
    let text = default_to "" (get_status tid w.web).fields.pending_message in
    let more =
      redispatched env snapshot tid runs w w' busy unnamed fresh
        (sym (settled_of env snapshot tid runs w left) ∙ e) in
    (more, omega (arith, more, some_counted (asks text) runs waits))

-- A start that nothing stops gives another run to a message that already has a pending one, and the
-- message then has at least two pending runs. The thread's busy status has the message and names no
-- pending run, and the message hasn't reached the thread's graph. The thread is the only one,
-- published, without children's runs or a legacy journal; none of its runs is left to resume; and the
-- status can be written.
pub waiting_message_twice :
    (env : ℕ → Env) (snapshot : String → Option Snapshot) (tid : String) (d : Directory)
    (s : WebState) (q : RunQueue) (n : ℕ) (w' : World)
    → let f = (get_status tid s).fields in
      let text = default_to "" f.pending_message in
      let runs = stored (some d) in
      Settleable tid d
      → (env n).writes ≡ true
      → is_busy (get_status tid s).stage ≡ true
      → any (asks text) runs ≡ true
      → any (λ r. has_status pending r && is_named env snapshot f.pending_run_id r) runs ≡ false
      → recovery_decision (snapshot tid) text ≡ redispatch
      → recover_interrupted_threads env snapshot (tid ∷ []) (alone tid d s q n) ≡ (ok tt, w')
      → (count_if (asks text) (runs_of tid w'.disk) ≡ suc (count_if (asks text) runs))
        × (2 ≤ count_if (asks text) (runs_of tid w'.disk))
unfolding is_busy String-discrete
waiting_message_twice env snapshot tid d s q n w' v writes busy waits unnamed fresh e =
    let (s', started, status) = start-alone env snapshot tid d s q n v writes busy in
    let w = alone tid d s' q (suc n) in
    let there : runs_of tid w.disk ≡ stored (some d) = ap stored (found_alone tid d) in
    let Twice : Projection → List Run → Type 0 = λ st rs.
      let text = default_to "" st.fields.pending_message in
      is_busy st.stage ≡ true
      → any (asks text) rs ≡ true
      → any (λ r. has_status pending r && is_named env snapshot st.fields.pending_run_id r) rs
        ≡ false
      → recovery_decision (snapshot tid) text ≡ redispatch
      → abandoned_of rs ≡ none
      → queue_thread env snapshot (tid, rs) w ≡ (ok tt, w')
      → (count_if (asks text) (runs_of tid w'.disk) ≡ suc (count_if (asks text) rs))
        × (2 ≤ count_if (asks text) (runs_of tid w'.disk)) in
    subst (λ st. Twice st (stored (some d))) status
      (subst (λ rs. Twice (get_status tid s') rs) there (recreated env snapshot tid w w')) refl
      waits unnamed fresh v.resumed (sym started ∙ e)
