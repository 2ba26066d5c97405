-- ===== src/Runs/Admission.antt =====
-- What an accepted run meets: the limits hold afterwards, and its id is its own.
use assist.Runs.Defs.{Status-discrete, Run, reload}
use assist.Runs.Store.{Disk, Env, Result, ok}
use assist.Runs.Create.{
  NewRun, new_run, replaced, is_pending, reached, cancel_if_pending, create, dispatched, admit,
  existing,
}
use assist.Runs.Evolution.{runs_of}
use assist.Runs.Acceptance.{Accepted, Ending, refused, found, new, create-Ending}
use assist.Base.Dict.{same_self}
use assist.Base.{
  ℕ, suc, ◌+◌, ◌≤◌, ◌<◌, String, true, false, ◌≡◌, refl, none, some, List, [], ◌∷◌, map, inl, inr,
  Bool-cases, arith, ap, ◌∙◌, sym, subst, if_true, length, length-append, count_if, count_if-append,
}

pending-reload : (rs : List Run) → count_if is_pending (map reload rs) ≡ count_if is_pending rs
unfolding reload
pending-reload [] = refl
pending-reload (r ∷ rs) = ground (arith, pending-reload rs)

length-map {ℓ κ} :
    {A : Type ℓ} {B : Type κ} (f : A → B) (xs : List A) → length (map f xs) ≡ length xs
length-map f [] = refl
length-map f (x ∷ xs) = ap suc (length-map f xs)

below_limit : (m n : ℕ) → reached (some m) n ≡ false → n < m
below_limit m n h = ground arith

Accepted-limits :
    (env : Env) (a : NewRun) (runs ns : List Run) (m k : ℕ)
    → Accepted env a runs ns
    → a.max_runs ≡ some m
    → a.max_pending ≡ some k
    → (length (map reload ns) ≤ m) × (count_if is_pending (map reload ns) ≤ k)
unfolding new_run Status-discrete
Accepted-limits env a runs ns m k v e f =
    let kept = replaced env a runs in
    let split = v.appended_last in
    let n : length ns ≡ length kept + 1 = ap length split ∙ length-append kept _ in
    let c : count_if is_pending ns ≡ count_if is_pending kept + 1 =
      ap (count_if is_pending) split ∙ count_if-append is_pending kept _ ∙ omega arith in
    let room =
      below_limit m (length kept) (subst (λ o. reached o (length kept) ≡ false) e v.room) in
    let pending_room =
      below_limit k (count_if is_pending kept)
        (subst (λ o. reached o (count_if is_pending kept) ≡ false) f v.pending_room) in
    (
      omega (arith, length-map reload ns, n, room),
      omega (arith, pending-reload ns, c, pending_room),
    )

none_pending :
    (now : String) (rs : List Run) → count_if is_pending (map (cancel_if_pending now) rs) ≡ 0
unfolding Status-discrete
none_pending now [] = refl
none_pending now (r ∷ rs) = elim (Bool-cases (is_pending r)) [
  | inl e ↦ ground (arith, none_pending now rs)
  | inr e ↦ ground (arith, none_pending now rs)
]

Accepted-alone :
    (env : Env) (a : NewRun) (runs ns : List Run)
    → Accepted env a runs ns
    → a.cancel_pending ≡ true
    → count_if is_pending (map reload ns) ≡ 1
unfolding new_run replaced Status-discrete
Accepted-alone env a runs ns v e =
    pending-reload ns
    ∙ ap (count_if is_pending) v.appended_last
    ∙ count_if-append is_pending (replaced env a runs) _
    ∙ ap (λ ks. count_if is_pending ks + count_if is_pending (new_run env a ∷ [])) (if_true _ _ e)
    ∙ omega (arith, none_pending env.now runs)

not-existing :
    (env : Env) (a : NewRun) (runs : List Run) (r : Run)
    → dispatched a runs ≡ none
    → admit env a runs ≡ ok (existing r)
    → ⊥
unfolding admit
not-existing env a runs r e f = ground arith

-- After a `create` that is no retry, the thread's history and its pending runs are within the limits
-- that the caller gave.
pub create_within_limits :
    (env : Env) (a : NewRun) (disk : Disk) (m k : ℕ) (r : Run)
    → dispatched a (runs_of a.thread_id disk) ≡ none
    → a.max_runs ≡ some m
    → a.max_pending ≡ some k
    → (create env a disk).0 ≡ ok r
    → let runs = runs_of a.thread_id (create env a disk).1 in
      (length runs ≤ m) × (count_if is_pending runs ≤ k)
create_within_limits env a disk m k r fresh e f done =
    ended (create env a disk) (create-Ending env a disk) done
  where
    ended :
        (o : Result Run × Disk)
        → Ending env a disk o
        → o.0 ≡ ok r
        → (length (runs_of a.thread_id o.1) ≤ m)
          × (count_if is_pending (runs_of a.thread_id o.1) ≤ k)
    ended o (refused same_runs) q = absurd (cc q)
    ended o (found {r = s} way there) q =
        absurd (not-existing env a (runs_of a.thread_id disk) s fresh there)
    ended o (new {ns = ns} way v made after) q =
        subst (λ rs. (length rs ≤ m) × (count_if is_pending rs ≤ k))
          (sym (after a.thread_id ∙ if_true _ _ (same_self a.thread_id)))
          (Accepted-limits env a _ ns m k v e f)

-- After a `create` that replaces pending work and is no retry, exactly one run of the thread is
-- pending: the new one.
pub replacement_is_alone :
    (env : Env) (a : NewRun) (disk : Disk) (r : Run)
    → dispatched a (runs_of a.thread_id disk) ≡ none
    → a.cancel_pending ≡ true
    → (create env a disk).0 ≡ ok r
    → (count_if is_pending (runs_of a.thread_id (create env a disk).1) ≡ 1) × (r ≡ new_run env a)
replacement_is_alone env a disk r fresh e done =
    ended (create env a disk) (create-Ending env a disk) done
  where
    ended :
        (o : Result Run × Disk)
        → Ending env a disk o
        → o.0 ≡ ok r
        → (count_if is_pending (runs_of a.thread_id o.1) ≡ 1) × (r ≡ new_run env a)
    ended o (refused same_runs) q = absurd (cc q)
    ended o (found {r = s} way there) q =
        absurd (not-existing env a (runs_of a.thread_id disk) s fresh there)
    ended o (new {ns = ns} {r = s} way v made after) q = (
      subst (λ rs. count_if is_pending rs ≡ 1)
          (sym (after a.thread_id ∙ if_true _ _ (same_self a.thread_id)))
          (Accepted-alone env a _ ns v e),
      cc,
    )
