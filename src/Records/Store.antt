-- ===== src/Records/Store.antt =====
-- `PerThreadJsonStore`: a file of records for each thread's directory. The file is its list of
-- records; `_from_dict` of what `to_dict` wrote is the record again.
use assist.Base.Dict
use assist.Base.Dict.{Dict}
use assist.Runs.{is_segment}
use assist.Base.{
  ℕ, String, Bool, not, ◌&&◌, Option, none, some, List, [], ◌∷◌, ◌++◌, same, keep, length, leb,
  ◌==◌, if◌then◌else◌,
}

-- What the store asks of a record.
pub record Keyed (T : Type 0) : Type 0 where
  pub id_of : T → String
  pub thread_of : T → String

-- The thread directories, in the order of `listdir`, each with its file, if there is one.
abbrev pub Root : Type 0 → Type 0
Root T = Dict (Option (List T))

pub data Failure : Type 0 where
  -- NOTFOUND_EXC
  not_found : Failure
  -- CAP_EXC
  cap_exceeded : Failure
  -- an OSError of the write
  io_error : Failure
  -- what the caller's function raises
  raised : Failure

pub data Outcome {ℓ} (A : Type ℓ) : Type ℓ where
  ok : A → Outcome A
  failed : Failure → Outcome A

module _ {T : Type 0} (k : Keyed T) where
  abbrev pub held : Option (Option (List T)) → List T
  held none = []
  held (some none) = []
  held (some (some rs)) = rs

  -- The records of a thread, without the check of its id.
  abbrev pub records_of : String → Root T → List T
  records_of tid root = held (Dict.get tid root)

  -- `for_thread`, by `_read`
  unfoldable pub for_thread : String → Root T → Outcome (List T)
  for_thread tid root = if is_segment tid then ok (records_of tid root) else failed not_found

  -- `_write`, into a directory that is there; the Boolean says whether the file system lets it
  unfoldable pub write : Bool → String → List T → Root T → Option (Root T)
  write writes tid rs root = elim (Dict.get tid root) [
    | none ↦ none
    | some f ↦ if writes then some (Dict.put tid (some rs) root) else none
  ]

  abbrev pub settled {ℓ} : {A : Type ℓ} → A → Root T → Option (Root T) → Outcome A × Root T
  settled a root none = (failed io_error, root)
  settled a root (some root') = (ok a, root')

  -- `self.CAP and len(recs) >= self.CAP`
  abbrev pub at_cap : ℕ → List T → Bool
  at_cap cap rs = not (cap == 0) && leb cap (length rs)

  unfoldable pub add : ℕ → Bool → T → Root T → Outcome T × Root T
  unfolding write
  add cap writes rec root =
      let tid = k.thread_of rec in
      let rs = records_of tid root in
      if not (is_segment tid)
      then (failed not_found, root)
      else if at_cap cap rs
      then (failed cap_exceeded, root)
      else settled rec root (write writes tid (rs ++ rec ∷ []) root)

  -- The loop of `update`: the record that is changed, and the list with it, or what is raised.
  abbrev pub changed : String → (T → Option T) → List T → Outcome (T × List T)
  changed rid fn [] = failed not_found
  changed rid fn (r ∷ rs) =
      let later = changed rid fn rs in
      if same (k.id_of r) rid
      then elim (fn r) [ none ↦ failed raised | some r' ↦ ok (r', r' ∷ rs) ]
      else elim later [ ok p ↦ ok (p.0, r ∷ p.1) | failed e ↦ failed e ]

  abbrev pub saved : Bool → String → Root T → Outcome (T × List T) → Outcome T × Root T
  saved writes tid root (failed e) = (failed e, root)
  saved writes tid root (ok (r, rs)) = settled r root (write writes tid rs root)

  unfoldable pub update : Bool → String → String → (T → Option T) → Root T → Outcome T × Root T
  unfolding write
  update writes tid rid fn root =
      if not (is_segment tid)
      then (failed not_found, root)
      else saved writes tid root (changed rid fn (records_of tid root))

  unfoldable pub remove : Bool → String → String → Root T → Outcome {0} Unit × Root T
  unfolding write
  remove writes tid rid root =
      let rs = records_of tid root in
      let kept = keep (λ r. not (same (k.id_of r) rid)) rs in
      if not (is_segment tid)
      then (failed not_found, root)
      else if length kept == length rs
      then (failed not_found, root)
      else settled tt root (write writes tid kept root)

  abbrev pub gathered : Root T → List T
  gathered [] = []
  gathered ((tid, none) ∷ root) = gathered root
  gathered ((tid, some rs) ∷ root) = rs ++ gathered root

  -- `all`; a directory's name is a segment
  unfoldable pub all : Root T → List T
  all root = gathered root
