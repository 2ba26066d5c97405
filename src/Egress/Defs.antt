-- ===== src/Egress/Defs.antt =====
-- `EgressRequest` and the tests on it. A text of an instant is the instant it stands for, in
-- milliseconds: `fromisoformat` reads what `isoformat` wrote.
use Prim.Native.String.{◌++◌}
use assist.Base.Decimal.{decimal}
use assist.Base.{ℕ, ◌-◌, String, Bool, true, false, not, ◌&&◌, ltb, same, if◌then◌else◌}

-- `state`
pub data State : Type 0 where
  pending approved declined : State

-- `expires_at` and `created_at`, by what their readers make of them.
pub data Stamp : Type 0 where
  -- the literal REVOKED_ONLY
  revoked_only : Stamp
  -- the ISO text of an aware instant
  instant : ℕ → Stamp
  -- any other text: `fromisoformat` raises, or gives a naive instant
  unreadable : String → Stamp

pub record EgressRequest : Type 0 where
  pub host : String
  pub port : ℕ
  pub task : String
  pub origin_tid : String
  pub created_at : Stamp
  pub state : State
  pub expires_at : Stamp
  pub dispatched : Bool

-- request_key; a port has at most five digits
unfoldable pub request_key : String → String → ℕ → String
request_key tid host port = tid ++ ":" ++ host ++ ":" ++ decimal 20 port

-- the property `key`
unfoldable pub key : EgressRequest → String
unfolding request_key
key r = request_key r.origin_tid r.host r.port

-- The test of `from_dict` on what `to_dict` wrote.
unfoldable pub is_readable : EgressRequest → Bool
is_readable r =
    not (same r.host "") && not (same r.origin_tid "") && ltb 0 r.port && ltb r.port 65536

abbrev pub is_pending : EgressRequest → Bool
is_pending r = elim r.state [ pending ↦ true | _ ↦ false ]

abbrev pub is_approved : EgressRequest → Bool
is_approved r = elim r.state [ approved ↦ true | _ ↦ false ]

abbrev pub is_declined : EgressRequest → Bool
is_declined r = elim r.state [ declined ↦ true | _ ↦ false ]

-- whether a duration marker still counts
abbrev pub is_ahead : Stamp → ℕ → Bool
is_ahead revoked_only now = true
is_ahead (instant t) now = ltb now t
is_ahead (unreadable s) now = false

-- _grant_live
unfoldable pub grant_live : EgressRequest → ℕ → Bool
grant_live r now = if is_approved r then is_ahead r.expires_at now else false

-- GRANT_TTL
abbrev pub grant_ttl : ℕ
grant_ttl = 3600000

-- DECLINED_RETENTION
abbrev pub declined_retention : ℕ
declined_retention = 604800000

-- whether a decline's stamp is older than DECLINED_RETENTION, or cannot be read
abbrev pub is_old : Stamp → ℕ → Bool
is_old (instant t) now = ltb declined_retention (now - t)
is_old _ now = true

-- _stale_decline
unfoldable pub stale_decline : EgressRequest → ℕ → Bool
stale_decline r now =
    if not (is_declined r)
    then false
    else if not r.dispatched
    then false
    else is_old r.created_at now
