-- ===== src/Events/Defs.antt =====
-- `Subscription`, and `SubscriptionStore.route`. `re` is a parameter: `search` of a pattern in a
-- text, which is none where the pattern doesn't compile.
use assist.Base.Order.{before}
use assist.Records.{Keyed, Root, all}
use assist.Base.{
  ℕ, String, Bool, false, Option, none, some, List, [], ◌∷◌, keep, default_to, if◌then◌else◌,
}

pub record Subscription : Type 0 where
  pub id : String
  pub thread_id : String
  pub sender_regexp : String
  pub template : String
  pub created_at : Option String

abbrev pub subscriptions : Keyed Subscription
subscriptions = record { id_of = λ s. s.id; thread_of = λ s. s.thread_id }

-- SubscriptionStore.CAP
abbrev pub cap_per_thread : ℕ
cap_per_thread = 10

-- `s.created_at or ""`
abbrev pub age_key : Subscription → String
age_key s = default_to "" s.created_at

-- `min(matches, key=...)`, of a list that begins with `best`: the first of the least
unfoldable pub earliest : Subscription → List Subscription → Subscription
unfolding before
earliest best [] = best
earliest best (s ∷ ss) =
    if before (age_key s) (age_key best) then earliest s ss else earliest best ss

module _ (search : String → String → Option Bool) where
  -- matches
  abbrev pub matches : String → Subscription → Bool
  matches sender s = default_to false (search s.sender_regexp sender)

  abbrev pub chosen : List Subscription → Option Subscription
  chosen [] = none
  chosen (s ∷ ss) = some (earliest s ss)

  -- route
  unfoldable pub route : String → Root Subscription → Option Subscription
  unfolding all earliest
  route sender root = chosen (keep (matches sender) (all subscriptions root))
