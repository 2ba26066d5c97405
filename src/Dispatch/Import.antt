-- ===== src/Dispatch/Import.antt =====
-- What the import of the legacy journal leaves of runs and statuses.
use assist.Records as Records
use assist.Records.{Outcome, Root, for_thread}
use assist.Runs.{Status, is_status, Run, pending, Result, ok, err, Env, Disk, PendingMessage}
use assist.Runs.Evolution.{runs_of}
use assist.Runs.Migration.{Migrated, left, grown, import_legacy-Migrated}
use assist.Base.Dict.{same→≡}
use assist.Dispatch.World.{World}
use assist.Dispatch.Pending.{has_status}
use assist.Dispatch.Recovery.{Snapshot}
use assist.Dispatch.Startup.{each, claimed, imported, import_journal, import_thread}
use assist.Dispatch.Progress.{has_any, any-append, reload-status}
use assist.Dispatch.Loops.{each-kept}
use assist.Base.{
  ℕ, suc, String, false, ◌||◌, ◌≡◌, refl, sym, ap, ap₂, ◌∙◌, subst, Option, List, [], ◌∷◌, same,
  any, All, if_true, if_false, inl, inr, Bool-cases,
}

-- The import leaves the statuses, and adds pending runs only.
pub record Imported (w w' : World) : Type 0 where
  pub same_web : w'.web ≡ w.web
  pub only_pending :
      (s : Status) (tid : String)
      → is_status pending s ≡ false
      → has_any s tid w ≡ false
      → has_any s tid w' ≡ false

-- Other runs on disk don't matter where the directories read the same.
Imported-refl :
    (w w' : World)
    → w'.web ≡ w.web
    → ((j : String) → runs_of j w'.disk ≡ runs_of j w.disk)
    → Imported w w'
Imported-refl w w' e f = record {
  same_web = e;
  only_pending = λ s tid o h. ap (any (has_status s)) (f tid) ∙ h;
}

Imported-trans : {u v w : World} → Imported u v → Imported v w → Imported u w
Imported-trans a b = record {
  same_web = b.same_web ∙ a.same_web;
  only_pending = λ s tid o h. b.only_pending s tid o (a.only_pending s tid o h);
}

pub each-Imported {ℓ} :
    {A : Type ℓ} (body : A → World → Result {0} Unit × World)
    → ((a : A) (w : World) → Imported w (body a w).1)
    → (xs : List A) (w : World) → Imported w (each body xs w).1
each-Imported body step xs w =
    each-kept Imported body (λ v. Imported-refl v v refl (λ j. refl)) (λ u v x. Imported-trans) step
      xs w

none_of :
    (s : Status) (ns : List Run)
    → is_status pending s ≡ false
    → All (λ n. n.status ≡ pending) ns
    → any (has_status s) ns ≡ false
none_of s [] o h = refl
none_of s (n ∷ ns) o (h, hs) =
    ap₂ (λ a b. a || b) (ap (λ x. is_status x s) h ∙ o) (none_of s ns o hs)

Migrated-Imported :
    (tid : String) (w : World) (d : Disk) (n : ℕ)
    → Migrated tid w.disk d
    → Imported w (record w { disk = d; calls = n })
Migrated-Imported tid w d n (left same_runs) =
    Imported-refl w (record w { disk = d; calls = n }) refl same_runs
Migrated-Imported tid w d n (grown ns p after) = record {
  same_web = refl;
  only_pending = λ s j o h. elim (Bool-cases (same tid j)) [
    | inr e ↦ ap (any (has_status s)) (after j ∙ if_false _ _ e) ∙ h
    | inl e ↦
        ap (any (has_status s)) (after j ∙ if_true _ _ e)
        ∙ reload-status s _
        ∙ any-append (has_status s) (runs_of tid w.disk) ns
        ∙ ap₂ (λ a b. a || b) (subst (λ i. has_any s i w ≡ false) (sym (same→≡ tid j e)) h)
            (none_of s ns o p)
  ];
}

claimed-Imported :
    (o : Outcome {0} Unit × Root PendingMessage) (w : World) → Imported w (claimed o w).1
claimed-Imported (Records.ok u, journal) w =
    Imported-refl w (record w { journal = journal }) refl (λ j. refl)
claimed-Imported (Records.failed Records.not_found, journal) w = Imported-refl w w refl (λ j. refl)
claimed-Imported (Records.failed Records.cap_exceeded, journal) w =
    Imported-refl w w refl (λ j. refl)
claimed-Imported (Records.failed Records.io_error, journal) w = Imported-refl w w refl (λ j. refl)
claimed-Imported (Records.failed Records.raised, journal) w = Imported-refl w w refl (λ j. refl)

module _ (env : ℕ → Env) (snapshot : String → Option Snapshot) where
  imported-Imported :
      (legacy : List PendingMessage) (tid : String) (o : Result (List Run) × Disk) (w : World)
      → Migrated tid w.disk o.1
      → Imported w (imported env snapshot legacy tid o w).1
  imported-Imported legacy tid (err e, disk) w m = Migrated-Imported tid w disk (suc w.calls) m
  imported-Imported legacy tid (ok rs, disk) w m =
      Imported-trans (Migrated-Imported tid w disk (suc w.calls) m) (
        each-Imported _
          (λ l w'.
            Imported-trans (Imported-refl w' (record w' { calls = suc w'.calls }) refl (λ j. refl))
              (claimed-Imported _ (record w' { calls = suc w'.calls })))
          legacy (record w { disk = disk; calls = suc w.calls }))

  import_journal-Imported :
      (tid : String) (o : Outcome (List PendingMessage)) (w : World)
      → Imported w (import_journal env snapshot tid o w).1
  import_journal-Imported tid (Records.failed e) w = Imported-refl w w refl (λ j. refl)
  import_journal-Imported tid (Records.ok []) w = Imported-refl w w refl (λ j. refl)
  import_journal-Imported tid (Records.ok (m ∷ ms)) w =
      imported-Imported (m ∷ ms) tid _ w
        (import_legacy-Migrated (env w.calls) "general-agent" tid _ w.disk)

  pub import_thread-Imported :
      (tid : String) (w : World) → Imported w (import_thread env snapshot tid w).1
  unfolding import_thread
  import_thread-Imported tid w = import_journal-Imported tid _ w
