-- ===== src/Web/Badges.antt =====
-- The badges of the thread list and the files that mark them agree, so that a restart keeps them.
use assist.Web.Marks.{
  is_hidden, Agree, mark-Agree, clear-Agree, other-Agree, evict-Agree, write_status-Agree,
  write_status-there, marked-Agree,
}
use assist.Base.Dict
use assist.Base.Dict.{Dict, get-put, get-remove, same_self, same→≡}
use assist.Web.State.{
  Status, Folder, WebState, mark_unseen_response, clear_unseen_response, has_unseen_response,
  mark_urgent, clear_urgent, has_urgent, load_unseen_cache, load_urgent_cache, write_status,
  set_status, evict_caches,
}
use assist.Base.{
  String, true, false, ◌||◌, ◌≡◌, refl, sym, ◌∙◌, subst, some, same, inl, inr, Bool-cases, arith,
}

-- Both sets agree with the files.
pub record InSync (s : WebState) : Type 0 where
  pub unseen_agrees : Agree (λ d. d.unseen_marker) s.unseen s.folders
  pub urgent_agrees : Agree (λ d. d.urgent_marker) s.urgent s.folders

-- What the web application does, where the file system lets it: a turn sets its status, the user opens
-- a thread's page, a turn of a thread that is there calls `notify`, a thread is deleted, and a new
-- process starts.
pub data Step (s : WebState) : WebState → Type 0 where
  responding :
      (tid : String) (st : Status) {u : WebState}
      → set_status true true tid st s ≡ some u
      → Step s u
  opening : (tid : String) → Step s (clear_urgent true tid (clear_unseen_response true tid s))
  notifying :
      (tid : String) (d : Folder)
      → Dict.get tid s.folders ≡ some d
      → Step s (mark_urgent true tid s)
  deleting : (tid : String) → Step s (evict_caches tid s)
  restarting : Step s (load_urgent_cache (load_unseen_cache s))

pub data Reach (s : WebState) : WebState → Type 0 where
  here : Reach s s
  next : {t u : WebState} → Reach s t → Step t u → Reach s u

mark_unseen_response-InSync :
    (tid : String) (d : Folder) (s : WebState)
    → Dict.get tid s.folders ≡ some d
    → InSync s
    → InSync (mark_unseen_response true tid s)
unfolding mark_unseen_response
mark_unseen_response-InSync tid d s there v = record {
  unseen_agrees =
      mark-Agree (λ e. e.unseen_marker) _ tid d s.unseen s.folders (λ e. refl) (λ e. refl) there
        v.unseen_agrees;
  urgent_agrees =
      other-Agree (λ e. e.urgent_marker) _ tid s.urgent s.folders (λ e. refl) (λ e. refl)
        v.urgent_agrees;
}

set_status-InSync :
    (tid : String) (st : Status) (s u : WebState)
    → set_status true true tid st s ≡ some u
    → InSync s
    → InSync u
unfolding set_status
set_status-InSync tid st s u e v =
    elim (Bool-cases (same st.stage "ready" || same st.stage "awaiting_approval")) [
      | inl h ↦
          let one : mark_unseen_response true tid written ≡ u = ground (arith, e, h) in
          let (d, there) = write_status-there tid st s.folders in
          subst InSync one (mark_unseen_response-InSync tid d written there kept)
      | inr h ↦ let one : written ≡ u = ground (arith, e, h) in subst InSync one kept
    ]
  where
    written : WebState
    written = record s { folders = write_status tid st s.folders }

    kept : InSync written
    kept = record {
      unseen_agrees =
          write_status-Agree (λ d. d.unseen_marker) tid st s.unseen s.folders (λ d. refl) refl
            v.unseen_agrees;
      urgent_agrees =
          write_status-Agree (λ d. d.urgent_marker) tid st s.urgent s.folders (λ d. refl) refl
            v.urgent_agrees;
    }

step-InSync : (s u : WebState) → Step s u → InSync s → InSync u
unfolding clear_unseen_response clear_urgent mark_urgent evict_caches load_unseen_cache
    load_urgent_cache
step-InSync s u (responding tid st e) v = set_status-InSync tid st s u e v
step-InSync s u (opening tid) v = record {
  unseen_agrees =
      other-Agree (λ e. e.unseen_marker) _ tid _ _ (λ e. refl) (λ e. refl)
        (clear-Agree (λ e. e.unseen_marker) _ tid s.unseen s.folders (λ e. refl) (λ e. refl)
          v.unseen_agrees);
  urgent_agrees =
      clear-Agree (λ e. e.urgent_marker) _ tid _ _ (λ e. refl) (λ e. refl)
        (other-Agree (λ e. e.urgent_marker) _ tid s.urgent s.folders (λ e. refl) (λ e. refl)
          v.urgent_agrees);
}
step-InSync s u (notifying tid d there) v = record {
  unseen_agrees =
      other-Agree (λ e. e.unseen_marker) _ tid s.unseen s.folders (λ e. refl) (λ e. refl)
        v.unseen_agrees;
  urgent_agrees =
      mark-Agree (λ e. e.urgent_marker) _ tid d s.urgent s.folders (λ e. refl) (λ e. refl) there
        v.urgent_agrees;
}
step-InSync s u (deleting tid) v = record {
  unseen_agrees = evict-Agree _ tid s.unseen s.folders v.unseen_agrees;
  urgent_agrees = evict-Agree _ tid s.urgent s.folders v.urgent_agrees;
}
step-InSync s u restarting v = record {
  unseen_agrees = marked-Agree (λ d. d.unseen_marker) s.folders;
  urgent_agrees = marked-Agree (λ d. d.urgent_marker) s.folders;
}

reach-InSync : (s u : WebState) → Reach s u → InSync s → InSync u
reach-InSync s u here v = v
reach-InSync s u (next r t) v = step-InSync _ u t (reach-InSync s _ r v)

-- From a state in which the sets agree with the files, and through any such steps: a restart shows
-- the badges that the list showed, for each thread that is not hidden.
pub restart_keeps_badges :
    (start s : WebState) (t : String)
    → InSync start
    → Reach start s
    → is_hidden (Dict.get t s.folders) ≡ false
    → (has_unseen_response t (load_urgent_cache (load_unseen_cache s)) ≡ has_unseen_response t s)
      × (has_urgent t (load_urgent_cache (load_unseen_cache s)) ≡ has_urgent t s)
unfolding load_unseen_cache load_urgent_cache has_unseen_response has_urgent
restart_keeps_badges start s t v r h =
    let w = reach-InSync start s r v in
    (
      marked-Agree (λ d. d.unseen_marker) s.folders t h ∙ sym (w.unseen_agrees t h),
      marked-Agree (λ d. d.urgent_marker) s.folders t h ∙ sym (w.urgent_agrees t h),
    )
