-- ===== src/Schedule/Advance.antt =====
-- A wakeup is submitted only once its schedule's next fire is on disk, past the present instant.
use assist.Schedule.Plans.{FiresLater, replace-FiresLater, changed-FiresLater}
use assist.Base.Dict.{same_self, same→≡}
use assist.Runs.{is_segment}
use assist.Records.{
  Root, Outcome, ok, failed, Failure, records_of, changed, saved, settled, write, update,
}
use assist.Records.Refinement.{
  change, perform, perform-Refines, view, Refines, Call, put-view, write-some,
}
use assist.Schedule.Defs.{Schedule, Zone}
use assist.Schedule.Scheduler.{schedules, Wakeup, wakeup_of, next_fire, advance}
use assist.Base.{
  ℕ, String, Bool, not, ◌≡◌, refl, sym, ap, ◌∙◌, subst, Option, none, some, List, same, if_true,
  if_false, inl, inr, Bool-cases, arith,
}

module _ (zones : String → Option Zone) (writes : String → Bool) (now : ℕ) where
  -- The plan of a schedule on disk.
  abbrev pub Planned : Root Schedule → Wakeup → Type 0
  Planned root w = FiresLater now w.schedule_id (records_of schedules w.thread_id root)

  settled-Planned :
      (s r r' : Schedule) (rs : List Schedule) (root : Root Schedule)
      → FiresLater now s.id rs
      → (o : Option (Root Schedule)) → write schedules (writes s.thread_id) s.thread_id rs root ≡ o
      → (settled schedules r root o).0 ≡ ok r'
      → Planned (settled schedules r root o).1 (wakeup_of s)
  settled-Planned s r r' rs root v none p e = absurd (cc e)
  settled-Planned s r r' rs root v (some root') p e =
      subst (FiresLater now s.id)
        (sym (
          ap (λ x. records_of schedules s.thread_id x)
            (write-some schedules (writes s.thread_id) s.thread_id rs root root' p)
          ∙ put-view schedules s.thread_id rs root s.thread_id
          ∙ if_true _ _ (same_self s.thread_id)))
        v

  pub advance-Planned :
      (s r : Schedule) (root : Root Schedule)
      → (advance zones writes now s root).0 ≡ ok r
      → Planned (advance zones writes now s root).1 (wakeup_of s)
  unfolding advance update
  advance-Planned s r root e = elim (Bool-cases (is_segment s.thread_id)) [
    | inr h ↦ absurd (ground (arith, e, h))
    | inl h ↦
        subst (λ (o : Outcome Schedule × Root Schedule). Planned o.1 (wakeup_of s))
          (sym (if_false _ _ (ap not h)))
          (kept
            (changed schedules s.id (next_fire zones now) (records_of schedules s.thread_id root))
            refl
            (ap (λ (o : Outcome Schedule × Root Schedule). o.0) (sym (if_false _ _ (ap not h)))
              ∙ e))
  ]
    where
      kept :
          (o : Outcome (Schedule × List Schedule))
          → changed schedules s.id (next_fire zones now) (records_of schedules s.thread_id root) ≡ o
          → (saved schedules (writes s.thread_id) s.thread_id root o).0 ≡ ok r
          → Planned (saved schedules (writes s.thread_id) s.thread_id root o).1 (wakeup_of s)
      kept (failed x) p f = absurd (cc f)
      kept (ok (r', rs)) p f =
          settled-Planned s r' r rs root (changed-FiresLater zones now s.id _ (r', rs) p) _ refl f

  pub advance-keeps-Planned :
      (s : Schedule) (root : Root Schedule) (w : Wakeup)
      → Planned root w
      → Planned (advance zones writes now s root).1 w
  unfolding advance perform
  advance-keeps-Planned s root w v =
      by_error (perform schedules 0 (writes s.thread_id) c root).0
        (perform-Refines schedules 0 (writes s.thread_id) c root)
    where
      c : Call schedules
      c = change s.thread_id s.id (next_fire zones now)

      after : String → List Schedule
      after tid = records_of schedules tid (advance zones writes now s root).1

      by_error :
          (o : Option Failure)
          → Refines schedules (view schedules root) after c o
          → FiresLater now w.schedule_id (after w.thread_id)
      by_error (some e) h = subst (FiresLater now w.schedule_id) (sym (h w.thread_id)) v
      by_error none h =
          subst (FiresLater now w.schedule_id) (sym (h w.thread_id))
            (elim (Bool-cases (same s.thread_id w.thread_id)) [
              | inr m ↦ subst (FiresLater now w.schedule_id) (sym (if_false _ _ m)) v
              | inl m ↦ subst (FiresLater now w.schedule_id) (sym (if_true _ _ m)) (
                  replace-FiresLater zones now w.schedule_id s.id _ (
                    subst (λ t. FiresLater now w.schedule_id (records_of schedules t root))
                      (sym (same→≡ s.thread_id w.thread_id m)) v))
            ])
