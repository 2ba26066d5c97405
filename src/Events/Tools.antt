-- ===== src/Events/Tools.antt =====
-- The subscription tools of a turn. Their answers are the branches, by name, with what each prints.
-- `tid` is the thread of the run's configuration, and `writes` says whether the file system lets the
-- store write.
use assist.Guards.{strip_left, strip_right}
use assist.Records.{
  Root, Failure, not_found, cap_exceeded, io_error, raised, Outcome, ok, failed, add, update,
  remove, for_thread,
}
use assist.Events.Defs.{Subscription, subscriptions, cap_per_thread}
use assist.Base.{
  String, Bool, true, false, not, Option, none, some, List, same, default_to, if◌then◌else◌,
}

pub data Answer : Type 0 where
  no_thread : Answer
  bad_regexp : Answer
  empty_template : Answer
  at_capacity : Answer
  nothing_to_change : Answer
  no_such : String → Answer
  subscribed : Subscription → Answer
  listed : List Subscription → Answer
  updated : Subscription → Answer
  deleted : String → Answer
  -- what the tool doesn't catch
  uncaught : Failure → Answer

-- `not s.strip()`
abbrev pub is_blank : String → Bool
is_blank s = same (strip_right (strip_left s)) ""

-- `if not tid`
abbrev pub thread_given : Option String → Option String
thread_given none = none
thread_given (some t) = if same t "" then none else some t

abbrev pub created : Outcome Subscription → Answer
created (ok s) = subscribed s
created (failed cap_exceeded) = at_capacity
created (failed not_found) = uncaught not_found
created (failed io_error) = uncaught io_error
created (failed raised) = uncaught raised

abbrev pub changed_to : String → Outcome Subscription → Answer
changed_to rid (ok s) = updated s
changed_to rid (failed not_found) = no_such rid
changed_to rid (failed cap_exceeded) = uncaught cap_exceeded
changed_to rid (failed io_error) = uncaught io_error
changed_to rid (failed raised) = uncaught raised

abbrev pub removed : String → Outcome {0} Unit → Answer
removed rid (ok u) = deleted rid
removed rid (failed not_found) = no_such rid
removed rid (failed cap_exceeded) = uncaught cap_exceeded
removed rid (failed io_error) = uncaught io_error
removed rid (failed raised) = uncaught raised

abbrev pub shown_list : Outcome (List Subscription) → Answer
shown_list (ok ss) = listed ss
shown_list (failed e) = uncaught e

-- validate_regexp: whether the pattern compiles
abbrev pub compiles : (String → String → Option Bool) → String → Bool
compiles search p = elim (search p "") [ none ↦ false | some b ↦ true ]

module _ (search : String → String → Option Bool) (writes : Bool) where
  unfoldable pub saved : Subscription → Root Subscription → Answer × Root Subscription
  unfolding add
  saved sub root = let o = add subscriptions cap_per_thread writes sub root in (created o.0, o.1)

  -- create_subscription, where `fresh` is `os.urandom(6).hex()` and `now` the clock's text
  unfoldable pub create_subscription :
      Option String
      → String
      → String
      → String
      → String
      → Root Subscription
      → Answer × Root Subscription
  unfolding saved
  create_subscription tid fresh now sender_regexp template root = elim (thread_given tid) [
    | none ↦ (no_thread, root)
    | some t ↦
        if not (compiles search sender_regexp)
        then (bad_regexp, root)
        else if is_blank template
        then (empty_template, root)
        else saved
            (record {
              id = fresh;
              thread_id = t;
              sender_regexp = sender_regexp;
              template = template;
              created_at = some now;
            })
            root
  ]

  -- list_subscriptions
  unfoldable pub list_subscriptions : Option String → Root Subscription → Answer
  unfolding for_thread
  list_subscriptions tid root = elim (thread_given tid) [
    | none ↦ no_thread
    | some t ↦ shown_list (for_thread subscriptions t root)
  ]

  -- _apply
  abbrev pub apply : Option String → Option String → Subscription → Subscription
  apply sender_regexp template s = record s {
    sender_regexp = default_to s.sender_regexp sender_regexp;
    template = default_to s.template template;
  }

  abbrev pub objection : Option String → Option String → Option Answer
  objection none none = some nothing_to_change
  objection none (some t) = if is_blank t then some empty_template else none
  objection (some p) none = if compiles search p then none else some bad_regexp
  objection (some p) (some t) =
      if compiles search p
      then if is_blank t then some empty_template else none
      else some bad_regexp

  -- modify_subscription
  unfoldable pub modify_subscription :
      Option String
      → String
      → Option String
      → Option String
      → Root Subscription
      → Answer × Root Subscription
  unfolding update
  modify_subscription tid rid sender_regexp template root = elim (thread_given tid) [
    | none ↦ (no_thread, root)
    | some t ↦ elim (objection sender_regexp template) [
      | some a ↦ (a, root)
      | none ↦
          let o =
            update subscriptions writes t rid (λ s. some (apply sender_regexp template s)) root in
          (changed_to rid o.0, o.1)
    ]
  ]

  -- delete_subscription
  unfoldable pub delete_subscription :
      Option String → String → Root Subscription → Answer × Root Subscription
  unfolding remove
  delete_subscription tid rid root = elim (thread_given tid) [
    | none ↦ (no_thread, root)
    | some t ↦ let o = remove subscriptions writes t rid root in (removed rid o.0, o.1)
  ]
