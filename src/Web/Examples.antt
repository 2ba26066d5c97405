-- ===== src/Web/Examples.antt =====
-- A thread that answered, asked for attention, and is listed after a restart.
use assist.Base.Dict
use assist.Web.State.{
  Status, no_fields, Folder, WebState, set_status, mark_urgent, mark_unseen_response,
  has_unseen_response, has_urgent, load_unseen_cache, load_urgent_cache,
}
use assist.Web.Badges.{InSync, here, next, responding, notifying, restart_keeps_badges}
use assist.Web.Marks.{is_hidden}
use assist.Base.{String-discrete, true, false, ◌≡◌, refl, none, some, arith, [], ◌∷◌}

abbrev idle : Folder
idle = record { hidden = false; status = none; unseen_marker = false; urgent_marker = false }

abbrev quiet : WebState
quiet = record { folders = ("t1", idle) ∷ []; unseen = []; urgent = [] }

quiet-InSync : InSync quiet
unfolding Dict.get
quiet-InSync = record { unseen_agrees = λ t h. ground arith; urgent_agrees = λ t h. ground arith }

abbrev ready : Status
ready = record { stage = "ready"; fields = no_fields }

abbrev answered : WebState
answered =
    mark_unseen_response true "t1"
      (record quiet { folders = ("t1", record idle { status = some ready }) ∷ [] })

answered_is_set : set_status true true "t1" ready quiet ≡ some answered
unfolding set_status mark_unseen_response String-discrete Dict.get Dict.put
answered_is_set = refl

abbrev folder : Folder
folder = record idle { status = some ready; unseen_marker = true }

answered_is_there : Dict.get "t1" answered.folders ≡ some folder
unfolding mark_unseen_response String-discrete Dict.get Dict.put
answered_is_there = refl

abbrev flagged : WebState
flagged = mark_urgent true "t1" answered

flagged_is_shown : is_hidden (Dict.get "t1" flagged.folders) ≡ false
unfolding mark_unseen_response mark_urgent String-discrete Dict.get Dict.put
flagged_is_shown = refl

restart_keeps_badges_example :
    (has_unseen_response "t1" (load_urgent_cache (load_unseen_cache flagged))
      ≡ has_unseen_response "t1" flagged)
    × (has_urgent "t1" (load_urgent_cache (load_unseen_cache flagged)) ≡ has_urgent "t1" flagged)
restart_keeps_badges_example =
    restart_keeps_badges quiet flagged "t1" quiet-InSync
      (next (next here (responding "t1" ready answered_is_set))
        (notifying "t1" folder answered_is_there))
      flagged_is_shown
