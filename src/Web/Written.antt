-- ===== src/Web/Written.antt =====
-- What a status file reads as after `_set_status`.
use assist.Base.Dict
use assist.Base.Dict.{Dict, get-put, same→≡}
use assist.Web.State.{
  Status, Folder, WebState, get_status, set_status, no_fields, new_folder, write_status, on_folder,
  mark_unseen_response,
}
use assist.Base.{
  String, Bool, true, false, ◌||◌, ◌≡◌, refl, sym, ap, ◌∙◌, Option, none, some, same, if◌then◌else◌,
  if_true, if_false, inl, inr, Bool-cases, Option-cases, arith,
}

abbrev status_in : Option Folder → Status
status_in none = record { stage = "ready"; fields = no_fields }
status_in (some d) = elim d.status [
  | none ↦ record { stage = "ready"; fields = no_fields }
  | some st ↦ st
]

put-status :
    (tid j : String) (d : Folder) (f : Dict Folder)
    → status_in (Dict.get j (Dict.put tid d f))
      ≡ (if same tid j then status_in (some d) else status_in (Dict.get j f))
put-status tid j d f = ap status_in (get-put tid j d f) ∙ elim (Bool-cases (same tid j)) [
  | inl e ↦ ap status_in (if_true _ _ e) ∙ sym (if_true _ _ e)
  | inr e ↦ ap status_in (if_false _ _ e) ∙ sym (if_false _ _ e)
]

written :
    (tid j : String) (st : Status) (f : Dict Folder) (o : Option Folder)
    → status_in (
        Dict.get j (elim o as (λ _. Dict Folder) [
          | none ↦ Dict.put tid (new_folder st) f
          | some d ↦ Dict.put tid (record d { status = some st }) f
        ]))
      ≡ (if same tid j then st else status_in (Dict.get j f))
written tid j st f none = put-status tid j (new_folder st) f
written tid j st f (some d) = put-status tid j (record d { status = some st }) f

unmoved :
    (tid j : String) (f : Dict Folder) (d : Folder)
    → Dict.get tid f ≡ some d
    → (if same tid j then status_in (some d) else status_in (Dict.get j f))
      ≡ status_in (Dict.get j f)
unmoved tid j f d e = elim (Bool-cases (same tid j)) [
  | inl h ↦ if_true _ _ h ∙ ap status_in (sym e ∙ ap (λ k. Dict.get k f) (same→≡ tid j h))
  | inr h ↦ if_false _ _ h
]

marked_folders :
    (marks : Bool) (tid j : String) (f : Dict Folder)
    → status_in (Dict.get j (on_folder marks tid (λ d. record d { unseen_marker = true }) f))
      ≡ status_in (Dict.get j f)
marked_folders false tid j f = refl
marked_folders true tid j f = elim (Option-cases (Dict.get tid f)) [
  | inl e ↦ rw (on_folder, e) refl
  | inr (d, e) ↦ rw (on_folder, e) (put-status tid j _ f ∙ unmoved tid j f d e)
]

pub get_status-set_status :
    (writes marks : Bool) (tid j : String) (st : Status) (s u : WebState)
    → set_status writes marks tid st s ≡ some u
    → get_status j u ≡ (if same tid j then st else get_status j s)
unfolding set_status get_status mark_unseen_response
get_status-set_status false marks tid j st s u e = absurd (cc e)
get_status-set_status true marks tid j st s u e =
    elim (Bool-cases (same st.stage "ready" || same st.stage "awaiting_approval")) [
      | inl h ↦
          let one : marked ≡ u = ground (arith, e, h) in
          ap (get_status j) (sym one)
          ∙ marked_folders marks tid j (write_status tid st s.folders)
          ∙ written tid j st s.folders (Dict.get tid s.folders)
      | inr h ↦
          let one : there ≡ u = ground (arith, e, h) in
          ap (get_status j) (sym one) ∙ written tid j st s.folders (Dict.get tid s.folders)
    ]
  where
    there : WebState
    there = record s { folders = write_status tid st s.folders }

    marked : WebState
    marked = mark_unseen_response marks tid there
