-- ===== src/Web/State.antt =====
-- manage/web/state.py: a thread's status and its badges. A thread's directory holds the files; the
-- badges that the list shows are sets in memory, and a file marks each of their threads for the next
-- process. The Boolean of an operation says whether the file system lets it write or remove.
use assist.Base.Dict
use assist.Base.Dict.{Dict}
use assist.Runs.{JsonObject}
use assist.Base.{
  ℕ, String, Bool, true, false, not, ◌&&◌, ◌||◌, Option, none, some, List, [], ◌∷◌, same, any, keep,
  if◌then◌else◌,
}

-- The keys of status.json beside the stage; a key that is absent or null is none.
pub record Fields : Type 0 where
  pub error : Option String
  pub pending_message : Option String
  pub pending_run_id : Option String
  pub claimed_id : Option String
  pub pending_email_token : Option String
  pub sender : Option String
  pub rider : Option JsonObject
  pub origin : Option String
  pub accumulated_active_ms : Option ℕ
  pub started_at : Option ℕ

abbrev pub no_fields : Fields
no_fields = record {
  error = none;
  pending_message = none;
  pending_run_id = none;
  claimed_id = none;
  pending_email_token = none;
  sender = none;
  rider = none;
  origin = none;
  accumulated_active_ms = none;
  started_at = none;
}

-- status.json
pub record Status : Type 0 where
  pub stage : String
  pub fields : Fields

-- A thread's directory: whether it is a child's or a deleted one, which `list` leaves out, status.json,
-- unseen_response and urgent_response.
pub record Folder : Type 0 where
  pub hidden : Bool
  pub status : Option Status
  pub unseen_marker : Bool
  pub urgent_marker : Bool

-- The thread directories, and _UNSEEN and _URGENT.
pub record WebState : Type 0 where
  pub folders : Dict Folder
  pub unseen : List String
  pub urgent : List String

-- set.add and set.discard
abbrev pub with_id : String → List String → List String
with_id tid ids = if any (same tid) ids then ids else tid ∷ ids

abbrev pub without_id : String → List String → List String
without_id tid ids = keep (λ i. not (same i tid)) ids

-- What an operation on one file does, if it is let, where the directory is there.
abbrev pub on_folder : Bool → String → (Folder → Folder) → Dict Folder → Dict Folder
on_folder false tid f folders = folders
on_folder true tid f folders = elim (Dict.get tid folders) [
  | none ↦ folders
  | some d ↦ Dict.put tid (f d) folders
]

-- _mark_unseen_response
unfoldable pub mark_unseen_response : Bool → String → WebState → WebState
mark_unseen_response writes tid s = record s {
  folders = on_folder writes tid (λ d. record d { unseen_marker = true }) s.folders;
  unseen = with_id tid s.unseen;
}

-- _clear_unseen_response
unfoldable pub clear_unseen_response : Bool → String → WebState → WebState
clear_unseen_response removes tid s = record s {
  folders = on_folder removes tid (λ d. record d { unseen_marker = false }) s.folders;
  unseen = without_id tid s.unseen;
}

-- _has_unseen_response
unfoldable pub has_unseen_response : String → WebState → Bool
has_unseen_response tid s = any (same tid) s.unseen

-- _mark_urgent
unfoldable pub mark_urgent : Bool → String → WebState → WebState
mark_urgent writes tid s = record s {
  folders = on_folder writes tid (λ d. record d { urgent_marker = true }) s.folders;
  urgent = with_id tid s.urgent;
}

-- _clear_urgent
unfoldable pub clear_urgent : Bool → String → WebState → WebState
clear_urgent removes tid s = record s {
  folders = on_folder removes tid (λ d. record d { urgent_marker = false }) s.folders;
  urgent = without_id tid s.urgent;
}

-- _has_urgent
unfoldable pub has_urgent : String → WebState → Bool
has_urgent tid s = any (same tid) s.urgent

abbrev pub is_marked : (Folder → Bool) → Option Folder → Bool
is_marked marker none = false
is_marked marker (some d) = marker d

abbrev pub names : Dict Folder → List String
names [] = []
names ((tid, d) ∷ folders) = tid ∷ names folders

-- load_unseen_cache and load_urgent_cache, over `MANAGER.list()`
abbrev pub marked : (Folder → Bool) → Dict Folder → List String
marked marker folders =
    keep (λ tid. is_marked (λ d. not d.hidden && marker d) (Dict.get tid folders)) (names folders)

unfoldable pub load_unseen_cache : WebState → WebState
load_unseen_cache s = record s { unseen = marked (λ d. d.unseen_marker) s.folders }

unfoldable pub load_urgent_cache : WebState → WebState
load_urgent_cache s = record s { urgent = marked (λ d. d.urgent_marker) s.folders }

-- _get_status
unfoldable pub get_status : String → WebState → Status
get_status tid s = elim (Dict.get tid s.folders) [
  | none ↦ record { stage = "ready"; fields = no_fields }
  | some d ↦ elim d.status [ none ↦ record { stage = "ready"; fields = no_fields } | some st ↦ st ]
]

abbrev pub new_folder : Status → Folder
new_folder st = record {
  hidden = false;
  status = some st;
  unseen_marker = false;
  urgent_marker = false;
}

-- _atomic_write of the status, which makes a directory that is missing
abbrev pub write_status : String → Status → Dict Folder → Dict Folder
write_status tid st folders = elim (Dict.get tid folders) [
  | none ↦ Dict.put tid (new_folder st) folders
  | some d ↦ Dict.put tid (record d { status = some st }) folders
]

-- _set_status, whose write raises if the file system doesn't let it
unfoldable pub set_status : Bool → Bool → String → Status → WebState → Option WebState
unfolding mark_unseen_response
set_status false marks tid st s = none
set_status true marks tid st s =
    let written : WebState = record s { folders = write_status tid st s.folders } in
    if same st.stage "ready" || same st.stage "awaiting_approval"
    then some (mark_unseen_response marks tid written)
    else some written

-- _evict_caches, of the two sets, after hard_delete took the directory
unfoldable pub evict_caches : String → WebState → WebState
evict_caches tid s = record {
  folders = Dict.remove tid s.folders;
  unseen = without_id tid s.unseen;
  urgent = without_id tid s.urgent;
}
