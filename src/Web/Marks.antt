-- ===== src/Web/Marks.antt =====
-- What the operations do to a set of threads and to the files that mark them.
use assist.Base.Dict
use assist.Base.Dict.{Dict, get-put, get-remove, same_self, same→≡}
use assist.Web.State.{
  Status, Folder, with_id, without_id, on_folder, is_marked, names, marked, new_folder,
  write_status,
}
use assist.Base.{
  String, Bool, true, false, not, ◌&&◌, ◌||◌, ◌≡◌, refl, sym, ap, ◌∙◌, subst, Option, none, some,
  List, [], ◌∷◌, same, any, keep, if◌then◌else◌, if_true, if_false, inl, inr, Bool-cases,
  Option-cases, arith,
}

abbrev pub is_hidden : Option Folder → Bool
is_hidden = is_marked (λ d. d.hidden)

-- Of the threads that are not hidden, a set has those whose folder has the mark.
abbrev pub Agree : (Folder → Bool) → List String → Dict Folder → Type 0
Agree marker ids folders =
    (t : String)
    → is_hidden (Dict.get t folders) ≡ false
    → any (same t) ids ≡ is_marked marker (Dict.get t folders)

any-with_id :
    (t tid : String) (ids : List String)
    → any (same t) (with_id tid ids) ≡ (same t tid || any (same t) ids)
any-with_id t tid ids = elim (Bool-cases (any (same tid) ids)) [
  | inr h ↦ ap (any (same t)) (if_false _ _ h)
  | inl h ↦ ap (any (same t)) (if_true _ _ h) ∙ (elim (Bool-cases (same t tid)) [
    | inr e ↦ ground (arith, e)
    | inl e ↦ subst (λ i. any (same i) ids ≡ true) (sym (same→≡ t tid e)) h ∙ ground (arith, e)
  ])
]

any-without_id :
    (t tid : String) (ids : List String)
    → any (same t) (without_id tid ids) ≡ (not (same t tid) && any (same t) ids)
any-without_id t tid [] = ground arith
any-without_id t tid (i ∷ ids) = ground (arith, any-without_id t tid ids)

abbrev mapped : (Folder → Folder) → Option Folder → Option Folder
mapped f none = none
mapped f (some d) = some (f d)

get-on_folder :
    (f : Folder → Folder) (tid t : String) (folders : Dict Folder)
    → Dict.get t (on_folder true tid f folders)
      ≡ (if same tid t then mapped f (Dict.get t folders) else Dict.get t folders)
get-on_folder f tid t folders = elim (Option-cases (Dict.get tid folders)) [
  | inl h ↦ elim (Bool-cases (same tid t)) [
    | inr e ↦ ground (arith, h, e)
    | inl e ↦ ground (arith, h, e, subst (λ i. Dict.get i folders ≡ none) (same→≡ tid t e) h)
  ]
  | inr (d, h) ↦ elim (Bool-cases (same tid t)) [
    | inr e ↦ ground (arith, h, e, get-put tid t (f d) folders)
    | inl e ↦ ground (
      arith,
      h,
      e,
      get-put tid t (f d) folders,
      subst (λ i. Dict.get i folders ≡ some d) (same→≡ tid t e) h,
    )
  ]
]

any-keep :
    (t : String) (p : String → Bool) (xs : List String)
    → any (same t) (keep p xs) ≡ (p t && any (same t) xs)
any-keep t p [] = ground arith
any-keep t p (x ∷ xs) = elim (Bool-cases (same t x)) [
  | inr e ↦ ground (arith, e, any-keep t p xs)
  | inl e ↦ ground (arith, e, any-keep t p xs, ap p (same→≡ t x e))
]

any-names :
    (q : Folder → Bool) (t : String) (folders : Dict Folder)
    → (is_marked q (Dict.get t folders) && any (same t) (names folders))
      ≡ is_marked q (Dict.get t folders)
unfolding Dict.get
any-names q t [] = refl
any-names q t ((tid, d) ∷ folders) = ground (arith, any-names q t folders)

pub marked-Agree :
    (marker : Folder → Bool) (folders : Dict Folder) → Agree marker (marked marker folders) folders
marked-Agree marker folders t h =
    any-keep t _ (names folders)
    ∙ any-names (λ d. not d.hidden && marker d) t folders
    ∙ shown (Dict.get t folders) h
  where
    shown :
        (o : Option Folder)
        → is_hidden o ≡ false
        → is_marked (λ d. not d.hidden && marker d) o ≡ is_marked marker o
    shown none h = refl
    shown (some d) h = ground (arith, h)

same_sym : (x y : String) → same x y ≡ false → same y x ≡ false
same_sym x y h = ground (arith, h)

mapped-hidden :
    (f : Folder → Folder)
    → ((e : Folder) → (f e).hidden ≡ e.hidden)
    → (o : Option Folder) → is_hidden (mapped f o) ≡ is_hidden o
mapped-hidden f m none = refl
mapped-hidden f m (some e) = m e

-- A change of one folder and of the set, seen at that folder and elsewhere.
changed-Agree :
    (marker : Folder → Bool) (f : Folder → Folder) (tid : String) (ids ids' : List String)
    (folders : Dict Folder)
    → ((e : Folder) → (f e).hidden ≡ e.hidden)
    → (is_hidden (Dict.get tid folders) ≡ false
        → any (same tid) ids' ≡ is_marked marker (mapped f (Dict.get tid folders)))
    → ((t : String) → same tid t ≡ false → any (same t) ids' ≡ any (same t) ids)
    → Agree marker ids folders
    → Agree marker ids' (on_folder true tid f folders)
changed-Agree marker f tid ids ids' folders m own elsewhere v t h = elim (Bool-cases (same tid t)) [
  | inr e ↦
      let as_before : Dict.get t (on_folder true tid f folders) ≡ Dict.get t folders =
        get-on_folder f tid t folders ∙ if_false _ _ e in
      elsewhere t e ∙ v t (ap is_hidden (sym as_before) ∙ h) ∙ ap (is_marked marker) (sym as_before)
  | inl e ↦
      let now : Dict.get t (on_folder true tid f folders) ≡ mapped f (Dict.get t folders) =
        get-on_folder f tid t folders ∙ if_true _ _ e in
      let seen : is_hidden (Dict.get t folders) ≡ false =
        sym (mapped-hidden f m (Dict.get t folders)) ∙ ap is_hidden (sym now) ∙ h in
      let one : tid ≡ t = same→≡ tid t e in
      subst (λ i. any (same i) ids' ≡ is_marked marker (mapped f (Dict.get i folders))) one
        (own (subst (λ i. is_hidden (Dict.get i folders) ≡ false) (sym one) seen))
      ∙ ap (is_marked marker) (sym now)
]

-- Marking a folder that is there, and the set with it.
pub mark-Agree :
    (marker : Folder → Bool) (f : Folder → Folder) (tid : String) (d : Folder) (ids : List String)
    (folders : Dict Folder)
    → ((e : Folder) → (f e).hidden ≡ e.hidden)
    → ((e : Folder) → marker (f e) ≡ true)
    → Dict.get tid folders ≡ some d
    → Agree marker ids folders
    → Agree marker (with_id tid ids) (on_folder true tid f folders)
mark-Agree marker f tid d ids folders m k there v =
    changed-Agree marker f tid ids (with_id tid ids) folders m
      (λ h.
        any-with_id tid tid ids
        ∙ ap (λ b. b || any (same tid) ids) (same_self tid)
        ∙ sym (k d)
        ∙ ap (λ o. is_marked marker (mapped f o)) (sym there))
      (λ t e. any-with_id t tid ids ∙ ap (λ b. b || any (same t) ids) (same_sym tid t e)) v

-- Clearing a folder, if it is there, and the set with it.
pub clear-Agree :
    (marker : Folder → Bool) (f : Folder → Folder) (tid : String) (ids : List String)
    (folders : Dict Folder)
    → ((e : Folder) → (f e).hidden ≡ e.hidden)
    → ((e : Folder) → marker (f e) ≡ false)
    → Agree marker ids folders
    → Agree marker (without_id tid ids) (on_folder true tid f folders)
clear-Agree marker f tid ids folders m k v =
    changed-Agree marker f tid ids (without_id tid ids) folders m
      (λ h.
        any-without_id tid tid ids
        ∙ ap (λ b. not b && any (same tid) ids) (same_self tid)
        ∙ sym (unmarked (Dict.get tid folders)))
      (λ t e. any-without_id t tid ids ∙ ap (λ b. not b && any (same t) ids) (same_sym tid t e)) v
  where
    unmarked : (o : Option Folder) → is_marked marker (mapped f o) ≡ false
    unmarked none = refl
    unmarked (some e) = k e

-- What leaves the mark alone.
pub other-Agree :
    (marker : Folder → Bool) (f : Folder → Folder) (tid : String) (ids : List String)
    (folders : Dict Folder)
    → ((e : Folder) → (f e).hidden ≡ e.hidden)
    → ((e : Folder) → marker (f e) ≡ marker e)
    → Agree marker ids folders
    → Agree marker ids (on_folder true tid f folders)
other-Agree marker f tid ids folders m k v =
    changed-Agree marker f tid ids ids folders m
      (λ h. v tid h ∙ sym (unmoved (Dict.get tid folders))) (λ t e. refl) v
  where
    unmoved : (o : Option Folder) → is_marked marker (mapped f o) ≡ is_marked marker o
    unmoved none = refl
    unmoved (some e) = k e

pub evict-Agree :
    (marker : Folder → Bool) (tid : String) (ids : List String) (folders : Dict Folder)
    → Agree marker ids folders
    → Agree marker (without_id tid ids) (Dict.remove tid folders)
evict-Agree marker tid ids folders v t h = elim (Bool-cases (same tid t)) [
  | inl e ↦
      let gone : Dict.get t (Dict.remove tid folders) ≡ none =
        get-remove tid t folders ∙ if_true _ _ e in
      any-without_id t tid ids ∙ ground (arith, e) ∙ ap (is_marked marker) (sym gone)
  | inr e ↦
      let as_before : Dict.get t (Dict.remove tid folders) ≡ Dict.get t folders =
        get-remove tid t folders ∙ if_false _ _ e in
      any-without_id t tid ids
      ∙ ap (λ b. not b && any (same t) ids) (same_sym tid t e)
      ∙ v t (ap is_hidden (sym as_before) ∙ h)
      ∙ ap (is_marked marker) (sym as_before)
]

new_folder-Agree :
    (marker : Folder → Bool) (tid : String) (d : Folder) (ids : List String) (folders : Dict Folder)
    → marker d ≡ false
    → Dict.get tid folders ≡ none
    → Agree marker ids folders
    → Agree marker ids (Dict.put tid d folders)
new_folder-Agree marker tid d ids folders k absent v t h = elim (Bool-cases (same tid t)) [
  | inl e ↦
      let there : Dict.get t (Dict.put tid d folders) ≡ some d =
        get-put tid t d folders ∙ if_true _ _ e in
      let missing : Dict.get t folders ≡ none =
        subst (λ i. Dict.get i folders ≡ none) (same→≡ tid t e) absent in
      v t (ap is_hidden missing)
      ∙ ap (is_marked marker) missing
      ∙ sym k
      ∙ ap (is_marked marker) (sym there)
  | inr e ↦
      let as_before : Dict.get t (Dict.put tid d folders) ≡ Dict.get t folders =
        get-put tid t d folders ∙ if_false _ _ e in
      v t (ap is_hidden (sym as_before) ∙ h) ∙ ap (is_marked marker) (sym as_before)
]

pub write_status-Agree :
    (marker : Folder → Bool) (tid : String) (st : Status) (ids : List String)
    (folders : Dict Folder)
    → ((e : Folder) → marker (record e { status = some st }) ≡ marker e)
    → marker (new_folder st) ≡ false
    → Agree marker ids folders
    → Agree marker ids (write_status tid st folders)
write_status-Agree marker tid st ids folders k n v = elim (Option-cases (Dict.get tid folders)) [
  | inl h ↦
      subst (Agree marker ids) (sym (written none h))
        (new_folder-Agree marker tid _ ids folders n h v)
  | inr (d, h) ↦ subst (Agree marker ids) (sym (written (some d) h)) (
      subst (Agree marker ids) (changed (some d) h)
        (other-Agree marker (λ e. record e { status = some st }) tid ids folders (λ e. refl) k v))
]
  where
    anew : Option Folder → Dict Folder
    anew o = elim o [
      | none ↦ Dict.put tid (new_folder st) folders
      | some d ↦ Dict.put tid (record d { status = some st }) folders
    ]

    written : (o : Option Folder) → Dict.get tid folders ≡ o → write_status tid st folders ≡ anew o
    written o h = ap anew h

    changed :
        (o : Option Folder)
        → Dict.get tid folders ≡ o
        → on_folder true tid (λ e. record e { status = some st }) folders
          ≡ elim o as (λ x. Dict Folder) [
            | none ↦ folders
            | some d ↦ Dict.put tid (record d { status = some st }) folders
          ]
    changed o h =
        ap
          (λ (x : Option Folder). elim x as (λ y. Dict Folder) [
            | none ↦ folders
            | some d ↦ Dict.put tid (record d { status = some st }) folders
          ])
          h

pub write_status-there :
    (tid : String) (st : Status) (folders : Dict Folder)
    → (d : Folder) × (Dict.get tid (write_status tid st folders) ≡ some d)
write_status-there tid st folders = by_folder (Dict.get tid folders)
  where
    by_folder :
        (o : Option Folder)
        → (d : Folder) × (Dict.get tid (elim o as (λ x. Dict Folder) [
          | none ↦ Dict.put tid (new_folder st) folders
          | some e ↦ Dict.put tid (record e { status = some st }) folders
        ])
            ≡ some d)
    by_folder none = (_, get-put tid tid _ folders ∙ if_true _ _ (same_self tid))
    by_folder (some e) = (_, get-put tid tid _ folders ∙ if_true _ _ (same_self tid))
