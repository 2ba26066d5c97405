-- ===== src/Dispatch/Loops.antt =====
-- What the loops of a new process go through: the snapshot of the runs, the directories.
use assist.Base.Dict
use assist.Runs.{Run, running, Result, ok, err, Disk, read}
use assist.Runs.Evolution.{runs_of}
use assist.Base.Dict.{same→≡}
use assist.Dispatch.World.{World, next}
use assist.Dispatch.Pending.{has_status}
use assist.Dispatch.Handoff.{discard}
use assist.Dispatch.Recovery.{is_abandoned, abandoned_of}
use assist.Dispatch.Startup.{each, is_vacant, clear_vacant, clear_all, read_all}
use assist.Dispatch.Progress.{Later, Later-refl, Later-trans, discard-Later}
use assist.Dispatch.Coverage.{read-runs}
use assist.Base.{
  String, Bool, true, false, ◌≡◌, refl, ap₂, ◌∙◌, Option, none, some, List, [], ◌∷◌, map, any,
  if◌then◌else◌, inl, inr, Bool-cases, arith,
}

-- A loop goes from world to world as its body does.
pub each-kept {ℓ κ} :
    {A : Type ℓ} (R : World → World → Type κ) (body : A → World → Result {0} Unit × World)
    → ((w : World) → R w w)
    → ((u v w : World) → R u v → R v w → R u w)
    → ((a : A) (w : World) → R w (body a w).1)
    → (xs : List A) (w : World) → R w (each body xs w).1
each-kept R body same_world on step [] w = same_world w
each-kept R body same_world on step (a ∷ rest) w =
    by_first (body a w) (step a w) (λ w'. each-kept R body same_world on step rest w')
  where
    by_first :
        (o : Result {0} Unit × World)
        → R w o.1
        → ((w' : World) → R w' (each body rest w').1)
        → R w (next o (λ u w'. each body rest w')).1
    by_first (err e, w') h more = h
    by_first (ok u, w') h more = on _ _ _ h (more w')

pub each-Later {ℓ} :
    {A : Type ℓ} (body : A → World → Result {0} Unit × World)
    → ((a : A) (w : World) → Later w (body a w).1)
    → (xs : List A) (w : World) → Later w (each body xs w).1
each-Later body step xs w = each-kept Later body Later-refl (λ u v w. Later-trans) step xs w

-- Nothing that is running is passed over.
pub abandoned_of-none :
    (rs : List Run) → abandoned_of rs ≡ none → any (has_status running) rs ≡ false
unfolding abandoned_of
abandoned_of-none [] e = refl
abandoned_of-none (r ∷ rs) e = by_rest (abandoned_of rs) refl e (abandoned_of-none rs)
  where
    by_rest :
        (o : Option Run)
        → abandoned_of rs ≡ o
        → (elim o as (λ _. Option Run) [
          | some later ↦ some later
          | none ↦ if is_abandoned r rs then some r else none
        ])
          ≡ none
        → (abandoned_of rs ≡ none → any (has_status running) rs ≡ false)
        → any (has_status running) (r ∷ rs) ≡ false
    by_rest (some later) f g h = absurd (cc g)
    by_rest none f g h = elim (Bool-cases (has_status running r)) [
      | inl k ↦ absurd (ground (arith, g, k))
      | inr k ↦ ground (arith, k, h f)
    ]

pub read_all-read :
    (visible : List String) (disk : Disk) (ps : List (String × List Run))
    → read_all visible disk ≡ ok ps
    → ps ≡ map (λ tid. (tid, runs_of tid disk)) visible
read_all-read [] disk ps e = cc e
read_all-read (tid ∷ tids) disk ps e =
    by_read (read tid disk) (read_all tids disk) refl e (read_all-read tids disk)
  where
    by_read :
        (o : Result (List Run)) (rest : Result (List (String × List Run)))
        → read tid disk ≡ o
        → (elim o as (λ _. Result (List (String × List Run))) [
          | err x ↦ err x
          | ok runs ↦ elim rest as (λ _. Result (List (String × List Run))) [
            | err x ↦ err x
            | ok qs ↦ ok ((tid, runs) ∷ qs)
          ]
        ])
          ≡ ok ps
        → ((qs : List (String × List Run))
            → rest ≡ ok qs
            → qs ≡ map (λ t. (t, runs_of t disk)) tids)
        → ps ≡ (tid, runs_of tid disk) ∷ map (λ t. (t, runs_of t disk)) tids
    by_read (err x) rest f g ih = absurd (cc g)
    by_read (ok runs) (err x) f g ih = absurd (cc g)
    by_read (ok runs) (ok qs) f g ih =
        let one : ps ≡ (tid, runs) ∷ qs = cc g in
        one ∙ ap₂ (λ r q. (tid, r) ∷ q) (read-runs tid disk runs f) (ih qs refl)

clear_vacant-Later : (tid : String) (w : World) → Later w (clear_vacant tid w)
clear_vacant-Later tid w = by_test (is_vacant tid (Dict.get tid w.disk))
  where
    by_test : (b : Bool) → Later w (if b then discard tid w else w)
    by_test true = discard-Later tid w
    by_test false = Later-refl w

pub clear_all-Later : (tids : List String) (w : World) → Later w (clear_all tids w)
clear_all-Later [] w = Later-refl w
clear_all-Later (tid ∷ tids) w =
    Later-trans (clear_vacant-Later tid w) (clear_all-Later tids (clear_vacant tid w))
