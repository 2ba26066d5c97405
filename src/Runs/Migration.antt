-- ===== src/Runs/Migration.antt =====
-- The import of legacy messages adds pending runs only, and does nothing the second time.
use assist.Runs.Defs.{pending, Run, reload}
use assist.Runs.Store.{Disk, Env, write, read, Result, ok, err, not_found, is_segment}
use assist.Runs.Legacy.{
  PendingMessage, Import, imported_run, by_id, import_found, import_one, import_all, start_import,
  import_written, import_done, import_loaded, import_legacy, and_then,
}
use assist.Runs.Evolution.{
  Evolves, Evolves-refl, Evolves-append, runs_of, write-Evolves, write-runs,
}
use assist.Base.{
  String, Bool, true, false, ◌≡◌, refl, Option, none, some, List, [], ◌∷◌, ◌++◌, map, same,
  if◌then◌else◌, All, All-append, append-nil, append_assoc, arith, ap, ◌∙◌, sym, subst,
}

-- More runs, all of them pending, behind those that were there.
abbrev Grows : List Run → List Run → Type 0
Grows rs rs' = (ns : List Run) × All (λ n. n.status ≡ pending) ns × (rs' ≡ rs ++ ns)

Grows-refl : (rs : List Run) → Grows rs rs
Grows-refl rs = ([], tt, sym (append-nil rs))

Grows-trans : (rs ss ts : List Run) → Grows rs ss → Grows ss ts → Grows rs ts
Grows-trans rs ss ts (ns, p, e) (ms, q, f) =
    (ns ++ ms, All-append _ ns ms p q, f ∙ ap (λ l. l ++ ms) e ∙ append_assoc rs ns ms)

import_found-Grows :
    (env : Env) (assistant tid : String) (m : PendingMessage) (s s' : Import) (o : Option Run)
    → import_found env assistant tid m s o ≡ ok s'
    → Grows s.runs s'.runs
unfolding import_found imported_run
import_found-Grows env assistant tid m s s' none e =
    (imported_run env assistant m tid ∷ [], (refl, tt), ground arith)
import_found-Grows env assistant tid m s s' (some r) e =
    let kept : s.runs ≡ s'.runs = ground arith in ([], tt, sym kept ∙ sym (append-nil s.runs))

import_one-Grows :
    (env : Env) (assistant tid : String) (m : PendingMessage) (s s' : Import)
    → import_one env assistant tid m s ≡ ok s'
    → Grows s.runs s'.runs
unfolding import_one
import_one-Grows env assistant tid m s s' e =
    import_found-Grows env assistant tid m s s' (by_id m.id s.runs) (ground arith)

import_all-Grows :
    (env : Env) (assistant tid : String) (ms : List PendingMessage) (s s' : Import)
    → import_all env assistant tid ms s ≡ ok s'
    → Grows s.runs s'.runs
unfolding import_all
import_all-Grows env assistant tid [] s s' e =
    let same_import : s ≡ s' = cc in
    subst (λ x. Grows s.runs x.runs) same_import (Grows-refl s.runs)
import_all-Grows env assistant tid (m ∷ ms) s s' e =
    next (import_one env assistant tid m s) refl e (λ t. import_all-Grows env assistant tid ms t s')
  where
    next :
        (r : Result Import)
        → import_one env assistant tid m s ≡ r
        → and_then r (import_all env assistant tid ms) ≡ ok s'
        → ((t : Import) → import_all env assistant tid ms t ≡ ok s' → Grows t.runs s'.runs)
        → Grows s.runs s'.runs
    next (ok t) q f rest =
        Grows-trans s.runs t.runs s'.runs (import_one-Grows env assistant tid m s t q) (rest t f)
    next (err x) q f rest = absurd (cc f)

Grows-Evolves : (rs ss : List Run) → Grows rs ss → Evolves rs ss
Grows-Evolves rs ss (ns, p, e) = subst (Evolves rs) (sym e) (Evolves-append rs ns p)

-- The import only adds pending runs behind those that are there; so it does where it fails.
pub import_legacy-Evolves :
    (env : Env) (assistant tid j : String) (ms : List PendingMessage) (disk : Disk)
    → Evolves (runs_of j disk) (runs_of j (import_legacy env assistant tid ms disk).1)
unfolding import_legacy read
import_legacy-Evolves env assistant tid j ms disk = loaded (is_segment tid)
  where
    start : Import
    start = start_import (runs_of tid disk)

    wrote :
        (s : Import) (o : Option Disk)
        → Evolves (runs_of tid disk) s.runs
        → write env tid s.runs disk ≡ o
        → Evolves (runs_of j disk) (runs_of j (import_written s disk o).1)
    wrote s none g w = Evolves-refl (runs_of j disk)
    wrote s (some disk') g w = write-Evolves env tid j s.runs disk disk' w g

    gate :
        (s : Import) (b : Bool)
        → Evolves (runs_of tid disk) s.runs
        → Evolves (runs_of j disk) (
            runs_of j
              (if b
                then import_written s disk (write env tid s.runs disk)
                else (ok s.imported, disk)).1)
    gate s true g = wrote s (write env tid s.runs disk) g refl
    gate s false g = Evolves-refl (runs_of j disk)

    done :
        (r : Result Import)
        → import_all env assistant tid ms start ≡ r
        → Evolves (runs_of j disk) (runs_of j (import_done env tid disk r).1)
    done (err e) q = Evolves-refl (runs_of j disk)
    done (ok s) q =
        gate s s.changed (Grows-Evolves _ s.runs (import_all-Grows env assistant tid ms start s q))

    loaded :
        (b : Bool)
        → Evolves (runs_of j disk) (
            runs_of j
              (import_loaded env assistant tid ms disk
                (if b then ok (runs_of tid disk) else err not_found)).1)
    loaded true = done (import_all env assistant tid ms start) refl
    loaded false = Evolves-refl (runs_of j disk)

-- What an import leaves: the runs as they were, or those of its thread with pending ones behind them.
pub data Migrated (tid : String) (disk disk' : Disk) : Type 0 where
  left : ((j : String) → runs_of j disk' ≡ runs_of j disk) → Migrated tid disk disk'
  grown :
      (ns : List Run)
      → All (λ n. n.status ≡ pending) ns
      → ((j : String)
          → runs_of j disk'
            ≡ (if same tid j then map reload (runs_of tid disk ++ ns) else runs_of j disk))
      → Migrated tid disk disk'

pub import_legacy-Migrated :
    (env : Env) (assistant tid : String) (ms : List PendingMessage) (disk : Disk)
    → Migrated tid disk (import_legacy env assistant tid ms disk).1
unfolding import_legacy read
import_legacy-Migrated env assistant tid ms disk = loaded (is_segment tid)
  where
    start : Import
    start = start_import (runs_of tid disk)

    wrote :
        (s : Import) (o : Option Disk)
        → Grows (runs_of tid disk) s.runs
        → write env tid s.runs disk ≡ o
        → Migrated tid disk (import_written s disk o).1
    wrote s none g w = left (λ j. refl)
    wrote s (some disk') (ns, p, e) w = grown ns p (λ j.
        write-runs env tid j s.runs disk disk' w
        ∙ ap (λ rs. if same tid j then map reload rs else runs_of j disk) e)

    gate :
        (s : Import) (b : Bool)
        → Grows (runs_of tid disk) s.runs
        → Migrated tid disk
            (if b
              then import_written s disk (write env tid s.runs disk)
              else (ok s.imported, disk)).1
    gate s true g = wrote s (write env tid s.runs disk) g refl
    gate s false g = left (λ j. refl)

    done :
        (r : Result Import)
        → import_all env assistant tid ms start ≡ r
        → Migrated tid disk (import_done env tid disk r).1
    done (err e) q = left (λ j. refl)
    done (ok s) q = gate s s.changed (import_all-Grows env assistant tid ms start s q)

    loaded :
        (b : Bool)
        → Migrated tid disk
            (import_loaded env assistant tid ms disk
              (if b then ok (runs_of tid disk) else err not_found)).1
    loaded true = done (import_all env assistant tid ms start) refl
    loaded false = left (λ j. refl)
