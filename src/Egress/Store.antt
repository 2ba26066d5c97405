-- ===== src/Egress/Store.antt =====
-- `EgressStore`, on the file of requests and the projection that the proxy reads.
use assist.Base.Dict
use assist.Base.Dict.{Dict}
use assist.Egress.Defs.{
  approved, declined, Stamp, revoked_only, instant, unreadable, EgressRequest, key, is_readable,
  is_pending, is_approved, is_declined, grant_live, grant_ttl, stale_decline,
}
use assist.Base.{
  ℕ, ◌+◌, ◌-◌, String, Bool, true, false, not, ◌||◌, ◌&&◌, Option, none, some, List, [], ◌∷◌, same,
  leb, ltb, length, keep, count_if, if◌then◌else◌,
}

-- An entry of the projection.
pub record Entry : Type 0 where
  pub host : String
  pub port : ℕ
  pub origin_tid : String
  pub expires_at : Stamp

-- The two files; the projection may not be there.
pub record Store : Type 0 where
  pub requests : Dict EgressRequest
  pub projection : Option (Dict Entry)

-- What a mutation meets: the time, whether the request file and the projection can be written, and
-- whether the projection can be removed.
pub record Env : Type 0 where
  pub now : ℕ
  pub writes : Bool
  pub projects : Bool
  pub removes : Bool

-- What a call returns, or the OSError that it raises.
pub data Answer {ℓ} (A : Type ℓ) : Type ℓ where
  returned : A → Answer A
  raised : Answer A

abbrev pub load_into : Dict EgressRequest → Dict EgressRequest → Dict EgressRequest
load_into out [] = out
load_into out ((k, r) ∷ data_left) =
    load_into (if is_readable r then Dict.put (key r) r out else out) data_left

-- _load
unfoldable pub load : Store → Dict EgressRequest
load s = load_into [] s.requests

abbrev pub is_kept : ℕ → EgressRequest → Bool
is_kept now r = not (is_approved r && not (grant_live r now)) && not (stale_decline r now)

abbrev pub entry : EgressRequest → Entry
entry r = record {
  host = r.host;
  port = r.port;
  origin_tid = r.origin_tid;
  expires_at = r.expires_at;
}

-- The projection of the records: their grants, under their keys.
unfoldable pub project : Dict EgressRequest → Dict Entry
project [] = []
project ((k, r) ∷ d) = if is_approved r then (k, entry r) ∷ project d else project d

-- _mutate: whether it returns, and the files after it.
unfoldable pub mutate : Env → Dict EgressRequest → Store → Bool × Store
mutate env recs s =
    let live = Dict.retain (is_kept env.now) recs in
    if not env.writes
    then (false, s)
    else if env.projects
    then (true, record { requests = live; projection = some (project live) })
    else (
      false,
      record { requests = live; projection = if env.removes then none else s.projection },
    )

abbrev pub finish {ℓ} : {A : Type ℓ} → A → Bool × Store → Answer A × Store
finish a (returns, s) = (if returns then returned a else raised, s)

pub data Refusal : Type 0 where
  thread_cap global_cap : Refusal

abbrev pub per_thread_pending_cap : ℕ
per_thread_pending_cap = 3

abbrev pub global_pending_cap : ℕ
global_pending_cap = 10

abbrev pub pending_of : String → EgressRequest → Bool
pending_of tid r = is_pending r && same r.origin_tid tid

unfoldable pub add_pending : Env → EgressRequest → Store → Answer (Option Refusal) × Store
add_pending env rec s =
    let recs = load s in
    if leb per_thread_pending_cap (count_if (pending_of rec.origin_tid) (Dict.values recs))
    then (returned (some thread_cap), s)
    else if leb global_pending_cap (count_if is_pending (Dict.values recs))
    then (returned (some global_cap), s)
    else finish none (mutate env (Dict.put (key rec) rec recs) s)

-- The record after the user's decision; any other word decides nothing.
unfoldable pub decide : ℕ → String → EgressRequest → Option EgressRequest
decide now decision r =
    if same decision "hour"
    then some (record r { state = approved; expires_at = instant (now + grant_ttl) })
    else if same decision "always"
    then some (record r { state = approved; expires_at = revoked_only })
    else if same decision "decline"
    then some (record r { state = declined; expires_at = unreadable "" })
    else none

abbrev pub settle :
    Env → String → Option EgressRequest → Store → Answer (Option EgressRequest) × Store
settle env k none s = (returned none, s)
settle env k (some r) s = finish (some r) (mutate env (Dict.put k r (load s)) s)

abbrev pub resolve_found :
    Env → String → String → Option EgressRequest → Store → Answer (Option EgressRequest) × Store
resolve_found env k decision none s = (returned none, s)
resolve_found env k decision (some r) s =
    if is_pending r then settle env k (decide env.now decision r) s else (returned none, s)

unfoldable pub resolve : Env → String → String → Store → Answer (Option EgressRequest) × Store
resolve env k decision s = resolve_found env k decision (Dict.get k (load s)) s

abbrev pub revoke_found : Env → String → Option EgressRequest → Store → Answer Bool × Store
revoke_found env k none s = (returned false, s)
revoke_found env k (some r) s =
    if is_approved r
    then finish true (mutate env (Dict.remove k (load s)) s)
    else (returned false, s)

unfoldable pub revoke : Env → String → Store → Answer Bool × Store
revoke env k s = revoke_found env k (Dict.get k (load s)) s

-- A resolution that the thread has not been told of.
abbrev pub untold : ℕ → String → EgressRequest → Bool
untold now tid r =
    same r.origin_tid tid
    && not r.dispatched
    && (is_declined r || (is_approved r && grant_live r now))

abbrev pub tell : List EgressRequest → Dict EgressRequest → Dict EgressRequest
tell [] recs = recs
tell (r ∷ rs) recs = tell rs (Dict.put (key r) (record r { dispatched = true }) recs)

abbrev pub hand_out : Env → List EgressRequest → Store → Answer (List EgressRequest) × Store
hand_out env [] s = (returned [], s)
hand_out env (r ∷ rs) s = finish (r ∷ rs) (mutate env (tell (r ∷ rs) (load s)) s)

-- `asked` is the instant that is read before the lock is taken.
unfoldable pub take_undispatched : ℕ → Env → String → Store → Answer (List EgressRequest) × Store
take_undispatched asked env tid s = hand_out env (keep (untold asked tid) (Dict.values (load s))) s

unfoldable pub remove_thread : Env → String → Store → Answer ℕ × Store
remove_thread env tid s =
    let recs = load s in
    let kept = Dict.retain (λ r. not (same r.origin_tid tid)) recs in
    let n = length recs - length kept in
    if ltb 0 n then finish n (mutate env kept s) else (returned n, s)

unfoldable pub for_thread : ℕ → String → Store → List EgressRequest
for_thread now tid s =
    keep (λ r. same r.origin_tid tid && (not (is_approved r) || grant_live r now))
      (Dict.values (load s))

unfoldable pub live_grants : ℕ → Store → List EgressRequest
live_grants now s = keep (λ r. grant_live r now) (Dict.values (load s))
