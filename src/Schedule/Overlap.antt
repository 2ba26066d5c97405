-- ===== src/Schedule/Overlap.antt =====
-- The ids in flight: the poll thread claims them, the worker releases them, and each is that of one
-- wakeup that is queued or running. `finish_wakeup` comes between any two fires of a poll.
use assist.Base.Dict.{same_self}
use assist.Records.{Root, Outcome, ok, failed}
use assist.Schedule.Defs.{Schedule, Zone}
use assist.Schedule.Scheduler.{
  due, Wakeup, Scheduler, wakeup_of, claim_id, release_id, advance, submit, fired, fire, fire_all,
  poll, reconcile, finish_wakeup,
}
use assist.Base.{
  ℕ, String, Bool, true, false, not, ◌≡◌, refl, sym, ap, ◌∙◌, subst, Option, some, List, [], ◌∷◌,
  ◌++◌, same, any, if_true, if_false, inl, inr, Bool-cases, arith,
}

-- No id is in the list twice.
abbrev pub Distinct : List String → Type 0
Distinct [] = Unit
Distinct (x ∷ xs) = (any (same x) xs ≡ false) × Distinct xs

abbrev pub ids_of : List Wakeup → List String
ids_of [] = []
ids_of (w ∷ ws) = w.schedule_id ∷ ids_of ws

-- The state of the dispatcher that every step keeps.
pub record OneEach (st : Scheduler) : Type 0 where
  pub claimed : st.inflight ≡ ids_of st.submitted
  pub distinct : Distinct st.inflight

same_sym : (x y : String) → same x y ≡ false → same y x ≡ false
same_sym x y h = ground (arith, h)

any-snoc :
    (x sid : String) (xs : List String)
    → any (same x) xs ≡ false
    → same sid x ≡ false
    → any (same x) (xs ++ sid ∷ []) ≡ false
any-snoc x sid [] h k = ground (arith, same_sym sid x k)
any-snoc x sid (y ∷ xs) h k = ground (arith, h, k, any-snoc x sid xs)

snoc-Distinct :
    (sid : String) (xs : List String)
    → any (same sid) xs ≡ false
    → Distinct xs
    → Distinct (xs ++ sid ∷ [])
snoc-Distinct sid [] h d = (refl, tt)
snoc-Distinct sid (x ∷ xs) h d =
    let k : (same sid x ≡ false) × (any (same sid) xs ≡ false) = ground (arith, h) in
    (any-snoc x sid xs d.0 k.0, snoc-Distinct sid xs k.1 d.1)

release_absent :
    (sid : String) (xs : List String) → any (same sid) xs ≡ false → release_id sid xs ≡ xs
release_absent sid [] h = refl
release_absent sid (x ∷ xs) h = ground (arith, h, release_absent sid xs)

release_last :
    (sid : String) (xs : List String)
    → any (same sid) xs ≡ false
    → release_id sid (xs ++ sid ∷ []) ≡ xs
release_last sid [] h = ground arith
release_last sid (x ∷ xs) h = ground (arith, h, release_last sid xs)

ids_of-append :
    (ws : List Wakeup) (w : Wakeup) → ids_of (ws ++ w ∷ []) ≡ ids_of ws ++ w.schedule_id ∷ []
ids_of-append [] w = refl
ids_of-append (v ∷ ws) w = ap (λ l. v.schedule_id ∷ l) (ids_of-append ws w)

finish_wakeup-OneEach : (st : Scheduler) → OneEach st → OneEach (finish_wakeup st)
unfolding finish_wakeup
finish_wakeup-OneEach st v = by_queue st.submitted v.claimed
  where
    by_queue :
        (ws : List Wakeup)
        → st.inflight ≡ ids_of ws
        → OneEach (elim ws [
          | [] ↦ st
          | w ∷ ws' ↦ record st { inflight = release_id w.schedule_id st.inflight; submitted = ws' }
        ])
    by_queue [] p = v
    by_queue (w ∷ ws) p =
        let d : Distinct (w.schedule_id ∷ ids_of ws) = subst Distinct p v.distinct in
        let rest : release_id w.schedule_id st.inflight ≡ ids_of ws =
          ap (release_id w.schedule_id) p
          ∙ if_false _ _ (ap not (same_self w.schedule_id))
          ∙ release_absent w.schedule_id (ids_of ws) d.0 in
        record { claimed = rest; distinct = subst Distinct (sym rest) d.1 }

module _ (zones : String → Option Zone) (writes : String → Bool) where
  -- What the poll thread, the worker, and whoever else writes the store's files do.
  pub data Step (st : Scheduler) : Scheduler → Type 0 where
    firing :
        (now : ℕ) (healthy : Bool) (s : Schedule) → Step st (fire zones writes now healthy s st)
    finishing : Step st (finish_wakeup st)
    -- a new process, which has no wakeups
    restarting :
        (now : ℕ)
        → Step st (reconcile zones writes now (record st { inflight = []; submitted = [] }))
    editing : (root : Root Schedule) → Step st (record st { root = root })

  pub data Reach (st : Scheduler) : Scheduler → Type 0 where
    here : Reach st st
    next : {t u : Scheduler} → Reach st t → Step t u → Reach st u

  -- A poll is a sequence of steps.
  fire_all-Reach :
      (now : ℕ) (healthy : Bool) (ss : List Schedule) (start st : Scheduler)
      → Reach start st
      → Reach start (fire_all zones writes now healthy ss st)
  unfolding fire_all
  fire_all-Reach now healthy [] start st r = r
  fire_all-Reach now healthy (s ∷ ss) start st r =
      fire_all-Reach now healthy ss start _ (next r (firing now healthy s))

  pub poll-Reach :
      (now : ℕ) (healthy : Bool) (start st : Scheduler)
      → Reach start st
      → Reach start (poll zones writes now healthy st)
  unfolding poll
  poll-Reach now healthy start st r = fire_all-Reach now healthy (due now st.root) start st r

  claimed-OneEach :
      (healthy : Bool) (s : Schedule) (st : Scheduler)
      → OneEach st
      → any (same s.id) st.inflight ≡ false
      → OneEach (submit zones writes healthy s st (some (st.inflight ++ s.id ∷ [])))
  claimed-OneEach true s st v h = record {
    claimed = ap (λ l. l ++ s.id ∷ []) v.claimed ∙ sym (ids_of-append st.submitted (wakeup_of s));
    distinct = snoc-Distinct s.id st.inflight h v.distinct;
  }
  claimed-OneEach false s st v h = record {
    claimed = release_last s.id st.inflight h ∙ v.claimed;
    distinct = subst Distinct (sym (release_last s.id st.inflight h)) v.distinct;
  }

  submit-OneEach :
      (healthy : Bool) (s : Schedule) (st : Scheduler)
      → OneEach st
      → OneEach (submit zones writes healthy s st (claim_id s.id st.inflight))
  submit-OneEach healthy s st v = elim (Bool-cases (any (same s.id) st.inflight)) [
    | inl h ↦ subst (λ o. OneEach (submit zones writes healthy s st o)) (sym (if_true _ _ h)) v
    | inr h ↦
        subst (λ o. OneEach (submit zones writes healthy s st o)) (sym (if_false _ _ h))
          (claimed-OneEach healthy s st v h)
  ]

  fire-OneEach :
      (now : ℕ) (healthy : Bool) (s : Schedule) (st : Scheduler)
      → OneEach st
      → OneEach (fire zones writes now healthy s st)
  unfolding fire
  fire-OneEach now healthy s st v = by_advance (advance zones writes now s st.root)
    where
      by_advance :
          (o : Outcome Schedule × Root Schedule) → OneEach (fired zones writes healthy s st o)
      by_advance (failed e, root) = record { claimed = v.claimed; distinct = v.distinct }
      by_advance (ok r, root) =
          submit-OneEach healthy s (record st { root = root })
            record { claimed = v.claimed; distinct = v.distinct }

  -- From a state in which it is so, such as an empty one, and however polls, the worker, restarts and
  -- edits of the files interleave: the ids in flight are those of the wakeups that are queued or
  -- running, in their order, and no schedule has two.
  pub no_overlap : (start st : Scheduler) → OneEach start → Reach start st → OneEach st
  unfolding reconcile
  no_overlap start st v here = v
  no_overlap start st v (next r (firing now healthy s)) =
      fire-OneEach now healthy s _ (no_overlap start _ v r)
  no_overlap start st v (next r finishing) = finish_wakeup-OneEach _ (no_overlap start _ v r)
  no_overlap start st v (next r (restarting now)) = record { claimed = refl; distinct = tt }
  no_overlap start st v (next r (editing root)) =
      let u = no_overlap start _ v r in record { claimed = u.claimed; distinct = u.distinct }
