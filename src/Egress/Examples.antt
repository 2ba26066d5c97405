-- ===== src/Egress/Examples.antt =====
-- The egress store on concrete calls, and the theorems about it at concrete inputs.
use assist.Base.Dict
use assist.Egress.Defs
use assist.Egress.Store
use assist.Egress.Defs.{
  pending, approved, declined, revoked_only, instant, unreadable, EgressRequest, key, is_ahead,
  is_pending,
}
use assist.Egress.Store.{
  Store, Env, Entry, returned, load, revoke, take_undispatched, remove_thread, for_thread, project,
  pending_of, per_thread_pending_cap, global_pending_cap,
}
use assist.Egress.Calls.{Call, ask, answer, withdraw, announce, perform, replay, entries, env_of}
use assist.Egress.Caps.{Capped, caps_hold}
use assist.Egress.Grants.{InSync, projection-InSync, only_approval_grants}
use assist.Egress.Announcement.{announced_once}
use assist.Base.{
  ℕ, String, true, false, ◌≡◌, ◌≢◌, refl, none, some, List, [], ◌∷◌, All, String-discrete, arith,
  inl, inr,
}

-- What the evaluations below compute with.
unfoldable evaluation : Unit {0}
unfolding perform replay String-discrete Dict.get Dict.put Dict.remove Dict.retain Dict.values
    Store.load Store.mutate Store.add_pending Store.resolve Store.decide revoke take_undispatched
    remove_thread for_thread Defs.key Defs.request_key Defs.is_readable Defs.grant_live
    Defs.stale_decline project
evaluation = tt

abbrev at : ℕ → Env
at t = record { now = t; writes = true; projects = true; removes = true }

-- The projection cannot be rewritten.
abbrev full_disk : Env
full_disk = record { now = 5000; writes = true; projects = false; removes = true }

abbrev request : String → EgressRequest
request tid = record {
  host = "pypi.org";
  port = 443;
  task = "install";
  origin_tid = tid;
  created_at = instant 1000;
  state = pending;
  expires_at = unreadable "";
  dispatched = false;
}

abbrev empty_store : Store
empty_store = record { requests = []; projection = none }

abbrev story : List Call
story =
    ask (at 1000) (request "t1")
    ∷ ask (at 1000) (request "t2")
    ∷ answer (at 2000) "t1:pypi.org:443" "hour"
    ∷ answer (at 2000) "t2:pypi.org:443" "decline"
    ∷ []

key_run : key (request "t1") ≡ "t1:pypi.org:443"
unfolding evaluation
key_run = refl

empty-Capped : Capped empty_store
unfolding evaluation
empty-Capped = record { each = λ tid. ground arith; all = ground arith }

caps_hold_example : Capped (replay story empty_store)
caps_hold_example = caps_hold story empty_store empty-Capped

removals_work : All (λ c. (env_of c).removes ≡ true) story
removals_work = (refl, (refl, (refl, (refl, tt))))

projection-InSync_example : InSync (replay story empty_store)
projection-InSync_example = projection-InSync story empty_store removals_work (inr refl)

-- The store after the story: one grant, and one decline that was not announced.
abbrev decided_store : Store
decided_store = record {
  requests =
      ("t1:pypi.org:443", record (request "t1") { state = approved; expires_at = instant 3602000 })
      ∷ ("t2:pypi.org:443", record (request "t2") { state = declined })
      ∷ [];
  projection = some (
      (
        "t1:pypi.org:443",
        record { host = "pypi.org"; port = 443; origin_tid = "t1"; expires_at = instant 3602000 },
      )
      ∷ []);
}

story_run : replay story empty_store ≡ decided_store
unfolding evaluation
story_run = refl

decided-InSync : InSync decided_store
unfolding evaluation
decided-InSync = inl refl

abbrev quiet : List Call
quiet = announce 3000 (at 3000) "t2" ∷ withdraw full_disk "t1:pypi.org:443" ∷ []

abbrev OfFirst : Entry → Type 0
OfFirst e = e.origin_tid ≡ "t1"

decided-OfFirst : All OfFirst (Dict.values (project decided_store.requests))
unfolding evaluation
decided-OfFirst = (refl, tt)

only_approval_grants_example : All OfFirst (entries (replay quiet decided_store).projection)
only_approval_grants_example =
    only_approval_grants OfFirst quiet decided_store (refl, (refl, tt)) (refl, (refl, tt))
      decided-InSync decided-OfFirst

abbrev an_hour_on : Call
an_hour_on = announce 3000000 (at 3700000) "t2"

pruned_run : (perform an_hour_on decided_store).projection ≡ some []
unfolding evaluation
pruned_run = refl

pruned_changes : (perform an_hour_on decided_store).projection ≢ decided_store.projection
pruned_changes e = cc (pruned_run, e)

granted_found :
    Dict.get "t1:pypi.org:443" (load decided_store)
    ≡ some (record (request "t1") { state = approved; expires_at = instant 3602000 })
unfolding evaluation
granted_found = refl

removed_run : (remove_thread (at 3000) "t1" decided_store).0 ≡ returned 1
unfolding evaluation
removed_run = refl

announced_run :
    (take_undispatched 3000 (at 3000) "t2" decided_store).0
    ≡ returned (record (request "t2") { state = declined } ∷ [])
unfolding evaluation
announced_run = refl

announced_once_example :
    let s' = (take_undispatched 3000 (at 3000) "t2" decided_store).1 in
    take_undispatched 4000 (at 4000) "t2" s' ≡ (returned [], s')
announced_once_example =
    announced_once 3000 4000 (at 3000) (at 4000) "t2" decided_store _ announced_run (ground arith)
