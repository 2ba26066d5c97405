-- ===== src/Dispatch/Finished.antt =====
-- A message that a turn has been shown is finished: it doesn't run as a turn of its own.
use assist.Runs.{
  reload, Run, Status, success, may_become, no_change, PendingMessage, Result, ok, err, Env,
  find_run,
}
use assist.Runs.Evolution.{runs_of, Evolves, Becomes}
use assist.Runs.Lifecycle.{transition-Evolves}
use assist.Runs.Claims.{transition-Landed}
use assist.Dispatch.World.{World, move_run}
use assist.Dispatch.Boundary.{
  holds, Slice, and_go_on, claimed_one, consume_all, consume_interjections, pending_run_records,
}
use assist.Base.{
  keep, ℕ, String, Bool, true, false, ◌≡◌, refl, sym, ap, ◌∙◌, subst, some, List, [], ◌∷◌, All,
  same, if◌then◌else◌, if_true, if_false, inl, inr, Bool-cases, arith,
}

-- The run with an id has ended in success.
abbrev pub Ended : String → List Run → Type 0
Ended rid rs = (r : Run) × (find_run rid rs ≡ some r) × (r.status ≡ success)

success_stays : (t : Status) → Becomes success t → t ≡ success
unfolding may_become
success_stays t (inl e) = sym e
success_stays t (inr m) = absurd (ground (arith, m))

Ended-Evolves : (rid : String) (rs ns : List Run) → Evolves rs ns → Ended rid rs → Ended rid ns
unfolding find_run
Ended-Evolves rid [] ns v (r, e, h) = absurd (cc e)
Ended-Evolves rid (x ∷ xs) [] v k = absurd v
Ended-Evolves rid (x ∷ xs) (n ∷ ns) (same_id, b, v) (r, e, h) = elim (Bool-cases (same x.id rid)) [
  | inl i ↦
      let one : x ≡ r = ground (arith, e, i) in
      (
        n,
        if_true _ _ (ap (λ k. same k rid) same_id ∙ i),
        success_stays n.status (subst (λ s. Becomes s n.status) (ap (λ y. y.status) one ∙ h) b),
      )
  | inr i ↦
      let (m, there, done) = Ended-Evolves rid xs ns v (r, sym (if_false _ _ i) ∙ e, h) in
      (m, if_false _ _ (ap (λ k. same k rid) same_id ∙ i) ∙ there, done)
]

module _ (env : ℕ → Env) where
  -- What has ended stays so while others are consumed.
  consume_all-stays :
      (tid rid : String) (ids : List String) (ms : List PendingMessage) (s : Slice)
      → Ended rid (runs_of tid s.world.disk)
      → Ended rid (runs_of tid (consume_all env tid ids ms s).1.world.disk)
  unfolding consume_all move_run
  consume_all-stays tid rid ids [] s k = k
  consume_all-stays tid rid ids (m ∷ ms) s k =
      by_test (holds m.id ids) (consume_all-stays tid rid ids ms)
    where
      moved : Result Run × World
      moved = move_run env tid m.id success (record no_change { consumed_by = s.run_id }) s.world

      by_move :
          (o : Result Run × World)
          → Ended rid (runs_of tid o.1.disk)
          → ((t : Slice)
              → Ended rid (runs_of tid t.world.disk)
              → Ended rid (runs_of tid (consume_all env tid ids ms t).1.world.disk))
          → Ended rid (
              runs_of tid
                (and_go_on env (claimed_one env m o s) (consume_all env tid ids ms)).1.world.disk)
      by_move (err e, w) d ih = d
      by_move (ok r, w) d ih = ih _ d

      by_test :
          (b : Bool)
          → ((t : Slice)
              → Ended rid (runs_of tid t.world.disk)
              → Ended rid (runs_of tid (consume_all env tid ids ms t).1.world.disk))
          → Ended rid (
              runs_of tid
                (if b
                  then and_go_on env (claimed_one env m moved s) (consume_all env tid ids ms)
                  else consume_all env tid ids ms s).1.world.disk)
      by_test true ih =
          by_move moved
            (Ended-Evolves rid _ _
              (transition-Evolves (env s.world.calls) tid m.id tid success
                (record no_change { consumed_by = s.run_id }) s.world.disk)
              k)
            ih
      by_test false ih = ih s k

  consume_all-Ended :
      (tid : String) (ids : List String) (ms : List PendingMessage) (s : Slice)
      → (consume_all env tid ids ms s).0 ≡ ok tt
      → All
          (λ m.
            holds m.id ids ≡ true
            → Ended m.id (runs_of tid (consume_all env tid ids ms s).1.world.disk))
          ms
  unfolding consume_all move_run reload
  consume_all-Ended tid ids [] s e = tt
  consume_all-Ended tid ids (m ∷ ms) s e =
      by_test (holds m.id ids) refl e (consume_all-Ended tid ids ms)
    where
      moved : Result Run × World
      moved = move_run env tid m.id success (record no_change { consumed_by = s.run_id }) s.world

      Consumed : List PendingMessage → Slice → Type 0
      Consumed ks t = All (λ k. holds k.id ids ≡ true → Ended k.id (runs_of tid t.world.disk)) ks

      by_move :
          (o : Result Run × World)
          → ((r : Run) → o.0 ≡ ok r → Ended m.id (runs_of tid o.1.disk))
          → (and_go_on env (claimed_one env m o s) (consume_all env tid ids ms)).0 ≡ ok tt
          → ((t : Slice)
              → (consume_all env tid ids ms t).0 ≡ ok tt
              → Consumed ms (consume_all env tid ids ms t).1)
          → Consumed (m ∷ ms) (and_go_on env (claimed_one env m o s) (consume_all env tid ids ms)).1
      by_move (err x, w) d f ih = absurd (cc f)
      by_move (ok r, w) d f ih = ((λ h. consume_all-stays tid m.id ids ms _ (d r refl)), ih _ f)

      landed : (r : Run) → moved.0 ≡ ok r → Ended m.id (runs_of tid moved.1.disk)
      landed r f =
          let v =
            transition-Landed (env s.world.calls) s.run_id tid m.id success r s.world.disk f in
          (reload r, v.there, v.reached)

      by_test :
          (b : Bool)
          → holds m.id ids ≡ b
          → (if b
              then and_go_on env (claimed_one env m moved s) (consume_all env tid ids ms)
              else consume_all env tid ids ms s).0
            ≡ ok tt
          → ((t : Slice)
              → (consume_all env tid ids ms t).0 ≡ ok tt
              → Consumed ms (consume_all env tid ids ms t).1)
          → Consumed
              (m ∷ ms)
              (if b
                then and_go_on env (claimed_one env m moved s) (consume_all env tid ids ms)
                else consume_all env tid ids ms s).1
      by_test true g f ih = by_move moved landed f ih
      by_test false g f ih =
          ((λ h. let clash : true ≡ false = sym h ∙ g in absurd (cc clash)), ih s f)

kept-All {ℓ κ} :
    {A : Type ℓ} (P : A → Type κ) (p : A → Bool) (xs : List A)
    → All (λ x. p x ≡ true → P x) xs
    → All P (keep p xs)
kept-All P p [] h = h
kept-All P p (x ∷ xs) (h, hs) = by_test (p x) refl (kept-All P p xs hs)
  where
    by_test :
        (b : Bool) → p x ≡ b → All P (keep p xs) → All P (if b then x ∷ keep p xs else keep p xs)
    by_test true e k = (h e, k)
    by_test false e k = k

-- Where the consumption of the ids that the state holds returns, the run of each such message that
-- was pending for the turns of the thread has ended in success.
pub consume_interjections-Ended :
    (env : ℕ → Env) (tid : String) (ids : List String) (s : Slice) (ms : List PendingMessage)
    → pending_run_records tid s.world ≡ ok ms
    → (consume_interjections env tid ids s).0 ≡ ok tt
    → All
        (λ m. Ended m.id (runs_of tid (consume_interjections env tid ids s).1.world.disk))
        (keep (λ m. holds m.id ids) ms)
unfolding consume_interjections
consume_interjections-Ended env tid ids s ms f e =
    subst
      (λ (o : Result {0} Unit × Slice).
        All (λ m. Ended m.id (runs_of tid o.1.world.disk)) (keep (λ m. holds m.id ids) ms))
      (sym (ap by_records f))
      (kept-All (λ m. Ended m.id (runs_of tid (consume_all env tid ids ms s).1.world.disk))
        (λ m. holds m.id ids) ms
        (consume_all-Ended env tid ids ms s (ap (λ r. (by_records r).0) (sym f) ∙ e)))
  where
    by_records : Result (List PendingMessage) → Result {0} Unit × Slice
    by_records r = elim r [ err x ↦ (err x, s) | ok ks ↦ consume_all env tid ids ks s ]
