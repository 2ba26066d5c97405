-- ===== src/Retention/Recent.antt =====
-- The prune spares the most recent threads.
use assist.Retention.Ranking.{
  newest_first-Descending, count_if-newest_first, take-NoneNewer, take-drop, length-take,
  count_if-take-drop,
}
use assist.Base.Dict
use assist.Base.Dict.{Dict, get-remove, same→≡}
use assist.Base.Integer.{pos}
use assist.Retention.Prune.{
  Removal, removed, denied_then_removed, denied, refused, Faults, Fleet, stopped, unrecorded, wiped,
  hard_delete, older, newest_first, candidates, counted, delete_all, prune_to_n_threads,
}
use assist.Base.{
  ℕ, ◌+◌, min, String, Bool, true, false, ◌&&◌, ◌||◌, ◌≡◌, refl, sym, ap, ◌∙◌, subst, Option, none,
  some, List, [], ◌∷◌, ◌++◌, same, any, length, take, drop, count_if, leb, leb→le, All, append-nil,
  if◌then◌else◌, if_true, if_false, inl, inr, Bool-cases, arith,
}

-- whether the directory is gone after it
abbrev pub removes : Removal → Bool
removes removed = true
removes denied_then_removed = true
removes denied = false
removes refused = false

-- whether the deletion ends without raising
abbrev pub ends : Removal → Bool
ends removed = true
ends denied_then_removed = true
ends denied = true
ends refused = false

stopped-dirs : (b : Bool) (tid : String) (fleet : Fleet) → (stopped b tid fleet).dirs ≡ fleet.dirs
stopped-dirs true tid fleet = refl
stopped-dirs false tid fleet = refl

unrecorded-dirs :
    (b : Bool) (tid : String) (fleet : Fleet) → (unrecorded b tid fleet).dirs ≡ fleet.dirs
unrecorded-dirs true tid fleet = refl
unrecorded-dirs false tid fleet = refl

wiped-get :
    (r : Removal) (tid t : String) (fleet : Fleet)
    → Dict.get t (wiped r tid fleet).1.dirs
      ≡ (if same tid t && removes r then none else Dict.get t fleet.dirs)
wiped-get removed tid t fleet = ground (arith, get-remove tid t fleet.dirs)
wiped-get denied_then_removed tid t fleet = ground (arith, get-remove tid t fleet.dirs)
wiped-get denied tid t fleet = ground arith
wiped-get refused tid t fleet = ground arith

wiped-ends : (r : Removal) (tid : String) (fleet : Fleet) → (wiped r tid fleet).0 ≡ ends r
wiped-ends removed tid fleet = refl
wiped-ends denied_then_removed tid fleet = refl
wiped-ends denied tid fleet = refl
wiped-ends refused tid fleet = refl

hard_delete-get :
    (faults : Faults) (tid t : String) (fleet : Fleet)
    → Dict.get t (hard_delete faults tid fleet).1.dirs
      ≡ (if same tid t && removes faults.removal then none else Dict.get t fleet.dirs)
unfolding hard_delete
hard_delete-get faults tid t fleet =
    wiped-get faults.removal tid t (unrecorded faults.rows tid (stopped faults.cleanup tid fleet))
    ∙ ap (λ d. if same tid t && removes faults.removal then none else Dict.get t d)
        (unrecorded-dirs faults.rows tid (stopped faults.cleanup tid fleet)
          ∙ stopped-dirs faults.cleanup tid fleet)

hard_delete-ends :
    (faults : Faults) (tid : String) (fleet : Fleet)
    → (hard_delete faults tid fleet).0 ≡ ends faults.removal
unfolding hard_delete
hard_delete-ends faults tid fleet = wiped-ends faults.removal tid _

-- The threads of a list whose deletion ends without raising.
abbrev pub deleted_of : (String → Faults) → List (String × ℕ) → List String
deleted_of faults [] = []
deleted_of faults ((tid, t) ∷ doomed) =
    let rest = deleted_of faults doomed in if ends (faults tid).removal then tid ∷ rest else rest

-- whether the sweep removes a thread's directory
abbrev pub is_removed : (String → Faults) → String → List (String × ℕ) → Bool
is_removed faults t doomed = any (λ d. same d.0 t) doomed && removes (faults t).removal

delete_all-answer :
    (faults : String → Faults) (doomed : List (String × ℕ)) (fleet : Fleet)
    → (delete_all faults doomed fleet).0 ≡ deleted_of faults doomed
unfolding delete_all
delete_all-answer faults [] fleet = refl
delete_all-answer faults ((tid, m) ∷ doomed) fleet =
    ap (λ b. counted b tid (delete_all faults doomed (hard_delete (faults tid) tid fleet).1).0)
      (hard_delete-ends (faults tid) tid fleet)
    ∙ ap (counted (ends (faults tid).removal) tid) (delete_all-answer faults doomed _)
    ∙ counted_if (ends (faults tid).removal)
  where
    counted_if :
        (b : Bool)
        → counted b tid (deleted_of faults doomed)
          ≡ (if b then tid ∷ deleted_of faults doomed else deleted_of faults doomed)
    counted_if true = refl
    counted_if false = refl

joined :
    (b d r x : Bool) (o : Option (Option ℕ))
    → (b ≡ true → r ≡ x)
    → (if d && x then none else if b && r then none else o) ≡ (if (b || d) && x then none else o)
joined false d r x o h = refl
joined true d r x o h = ground (arith, h refl)

delete_all-get :
    (faults : String → Faults) (doomed : List (String × ℕ)) (t : String) (fleet : Fleet)
    → Dict.get t (delete_all faults doomed fleet).1.dirs
      ≡ (if is_removed faults t doomed then none else Dict.get t fleet.dirs)
unfolding delete_all
delete_all-get faults [] t fleet = refl
delete_all-get faults ((tid, m) ∷ doomed) t fleet =
    delete_all-get faults doomed t (hard_delete (faults tid) tid fleet).1
    ∙ ap (λ o. if is_removed faults t doomed then none else o)
        (hard_delete-get (faults tid) tid t fleet)
    ∙ joined (same tid t) _ _ _ (Dict.get t fleet.dirs)
        (λ e. ap (λ i. removes (faults i).removal) (same→≡ tid t e))

-- What a prune to `n` threads answers and leaves.
pub record Recent (faults : String → Faults) (n : ℕ) (fleet : Fleet)
    (o : Option (List String) × Fleet) : Type 0 where
  pub kept : List (String × ℕ)
  pub doomed : List (String × ℕ)
  pub together :
      (p : String × ℕ → Bool)
      → count_if p kept + count_if p doomed ≡ count_if p (candidates fleet.dirs)
  pub size : length kept ≡ min n (length (kept ++ doomed))
  pub newest : All (λ k. All (λ d. older k d ≡ false) doomed) kept
  pub answer : o.0 ≡ some (deleted_of faults doomed)
  pub dirs_after :
      (t : String)
      → Dict.get t o.1.dirs ≡ (if is_removed faults t doomed then none else Dict.get t fleet.dirs)

-- A prune to `n` threads splits the thread directories that have a time into those it keeps, `n` or
-- all of them if they are fewer, and the others, of which none is newer than one it keeps, by time
-- and then by name. It answers the others, but for those whose deletion raises, in the order of the
-- deletions, and of all directories it removes theirs, but for those whose removal fails.
pub prune_to_n_threads-Recent :
    (faults : String → Faults) (n : ℕ) (fleet : Fleet)
    → Recent faults n fleet (prune_to_n_threads faults (pos n) fleet)
unfolding prune_to_n_threads
prune_to_n_threads-Recent faults n fleet = elim (Bool-cases (leb (length ranked) n)) [
  | inl h ↦ subst (Recent faults n fleet) (sym (if_true _ _ h)) (record {
    kept = ranked;
    doomed = [];
    together = λ p. omega (arith, count_if-newest_first p (candidates fleet.dirs));
    size = sym (
        ap (λ l. min n (length l)) (append-nil ranked) ∙ omega (arith, leb→le (length ranked) n h));
    newest = nothing ranked;
    answer = refl;
    dirs_after = λ t. refl;
  })
  | inr h ↦ subst (Recent faults n fleet) (sym (if_false _ _ h)) (record {
    kept = take n ranked;
    doomed = drop n ranked;
    together = λ p. count_if-take-drop p n ranked ∙ count_if-newest_first p (candidates fleet.dirs);
    size = length-take n ranked ∙ ap (λ l. min n (length l)) (sym (take-drop n ranked));
    newest = take-NoneNewer n ranked (newest_first-Descending (candidates fleet.dirs));
    answer = ap some (delete_all-answer faults (drop n ranked) fleet);
    dirs_after = λ t. delete_all-get faults (drop n ranked) t fleet;
  })
]
  where
    ranked : List (String × ℕ)
    ranked = newest_first (candidates fleet.dirs)

    nothing : (ks : List (String × ℕ)) → All (λ k. All (λ d. older k d ≡ false) []) ks
    nothing [] = tt
    nothing (k ∷ ks) = (tt, nothing ks)
