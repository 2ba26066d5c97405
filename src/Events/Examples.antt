-- ===== src/Events/Examples.antt =====
-- Subscriptions, posts and a log, and the theorems about them.
use Prim.Native.String.{◌++◌ as ◌<>◌}
use assist.Base.Dict
use assist.Base.Dict.{Dict}
use assist.Records.{Root}
use assist.Events.Defs.{Subscription, route}
use assist.Events.Routing.{Routed, route-Routed}
use assist.Events.Inbound.{Message, valid_id}
use assist.Events.Dedup.{claim_all, first_post, sent_as, or_first, unless_known, claimed_once}
use assist.Events.Log.{
  Event, contents, of_kind, unbroken, append_all, read_events, recorded, Readable,
  read_events-append_all,
}
use assist.Base.{
  String, String-discrete, Bool, true, false, ◌≡◌, refl, sym, ◌∙◌, subst, Option, none, some, List,
  [], ◌∷◌, same, keep, All, if◌then◌else◌, arith,
}

-- Patterns that are the sender, or match any; an open bracket doesn't compile.
abbrev search : String → String → Option Bool
search p sender =
    if same p "[" then none else if same p ".*" then some true else some (same p sender)

abbrev subscription : String → String → String → String → Subscription
subscription id tid p created = record {
  id = id;
  thread_id = tid;
  sender_regexp = p;
  template = "Answer {sender}.";
  created_at = some created;
}

abbrev subscribed : Root Subscription
subscribed =
    ("t1", some (subscription "a" "t1" ".*" "2026-02-01" ∷ subscription "b" "t1" "[" "" ∷ []))
    ∷ ("t2", none)
    ∷ ("t3", some (subscription "c" "t3" "Ann" "2026-01-01" ∷ []))
    ∷ []

route-Routed_example : Routed search "Ann" subscribed (route search "Ann" subscribed)
route-Routed_example = route-Routed search "Ann" subscribed

-- `$` matches before a line feed that ends the id.
accepts_line_feed : valid_id "m1\n" ≡ true
unfolding valid_id String-discrete
accepts_line_feed = refl

abbrev message : String → Message
message text = record { sender = "Ann"; text = text; received_at = "2026-03-01" }

abbrev posts : List (String × Message)
posts = ("m1", message "hi") ∷ ("m2", message "there") ∷ ("m1", message "hi") ∷ []

claimed_once_example :
    (Dict.get "m1" (claim_all posts []).1 ≡ or_first (Dict.get "m1" []) (first_post "m1" posts))
    × (sent_as "m1" (claim_all posts []).0
        ≡ unless_known (Dict.get "m1" []) (first_post "m1" posts))
claimed_once_example = claimed_once "m1" posts []

abbrev scheduled : Event
scheduled = record { kind = "scheduled"; fields = "" }

abbrev broken : Event
broken = record { kind = "failed"; fields = "" }

abbrev dumps : Event → Option String
dumps e =
    if same e.kind "scheduled"
    then some "{1}"
    else if same e.kind "failed"
    then some "{2}"
    else none

abbrev loads : String → Option Event
loads s = if same s "{1}" then some scheduled else if same s "{2}" then some broken else none

abbrev attempts : List (Bool × Event)
attempts =
    (true, scheduled)
    ∷ (false, scheduled)
    ∷ (true, record { kind = "set"; fields = "" })
    ∷ (true, broken)
    ∷ []

line-Readable :
    (writes : Bool) (e : Event) (w : String)
    → dumps e ≡ some w
    → unbroken w ≡ true
    → loads w ≡ some e
    → Readable dumps loads (writes, e)
line-Readable writes e w d h l line f =
    let one : w ≡ line = ground (arith, sym d ∙ f) in
    (subst (λ s. unbroken s ≡ true) one h, subst (λ s. loads s ≡ some e) one l)

attempts-Readable : All (Readable dumps loads) attempts
unfolding unbroken String-discrete
attempts-Readable = (
  line-Readable true scheduled "{1}" refl refl refl,
  (
    line-Readable false scheduled "{1}" refl refl refl,
    (λ line e. absurd (cc e), (line-Readable true broken "{2}" refl refl refl, tt)),
  ),
)

unbroken_torn : unbroken "{" ≡ true
unfolding unbroken
unbroken_torn = refl

read_events-append_all_example :
    read_events dumps loads
      (some "failed")
      (some (contents (append_all dumps loads attempts none) <> "{"))
    ≡ keep (of_kind (some "failed")) (recorded dumps loads attempts)
unfolding String-discrete
read_events-append_all_example =
    read_events-append_all dumps loads attempts "{" (some "failed") attempts-Readable unbroken_torn
      refl
