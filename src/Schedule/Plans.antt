-- ===== src/Schedule/Plans.antt =====
-- A schedule whose next fire is after an instant, and what advancing any schedule does to it.
use assist.Records.{Outcome, ok, failed, changed, raised}
use assist.Records.Refinement.{replace_first}
use assist.Schedule.Defs.{Schedule, Zone}
use assist.Schedule.Cadence.{next_after}
use assist.Schedule.Scheduler.{schedules, fire_from, next_fire}
use assist.Schedule.Later.{next_after-after}
use assist.Base.{
  ℕ, ◌*◌, ◌<◌, String, true, false, ◌≡◌, refl, sym, ap, ◌∙◌, subst, Option, none, some, List, [],
  ◌∷◌, same, find, if_true, if_false, inl, inr, ◌⊎◌, Bool-cases, arith,
}

-- The first schedule with an id fires after `now`.
pub record FiresLater (now : ℕ) (sid : String) (rs : List Schedule) : Type 0 where
  pub found : Schedule
  pub instant : ℕ
  pub there : find (λ s. same s.id sid) rs ≡ some found
  pub planned : found.next_fire_at ≡ some instant
  pub later : now < instant * 60

module _ (zones : String → Option Zone) (now : ℕ) where
  next_fire-later :
      (x y : Schedule)
      → next_fire zones now x ≡ some y
      → (y.id ≡ x.id) × ((t : ℕ) × (y.next_fire_at ≡ some t) × (now < t * 60))
  next_fire-later x y e = by_next (next_after zones x now) refl e
    where
      by_next :
          (o : Option ℕ)
          → next_after zones x now ≡ o
          → fire_from o x ≡ some y
          → (y.id ≡ x.id) × ((t : ℕ) × (y.next_fire_at ≡ some t) × (now < t * 60))
      by_next none p q = absurd (cc q)
      by_next (some t) p q =
          let one : record x { next_fire_at = some t } ≡ y = ground (arith, q) in
          (
            ap (λ s. s.id) (sym one),
            (t, ap (λ s. s.next_fire_at) (sym one), next_after-after zones x now t p),
          )

  at_head :
      (sid : String) (x y : Schedule) (rs : List Schedule)
      → next_fire zones now x ≡ some y
      → same x.id sid ≡ true
      → FiresLater now sid (y ∷ rs)
  at_head sid x y rs e h =
      let (same_id, (t, planned, later)) = next_fire-later x y e in
      record {
        found = y;
        instant = t;
        there = if_true _ _ (ap (λ i. same i sid) same_id ∙ h);
        planned = planned;
        later = later;
      }

  further :
      (sid : String) (x : Schedule) (rs : List Schedule)
      → same x.id sid ≡ false
      → FiresLater now sid rs
      → FiresLater now sid (x ∷ rs)
  further sid x rs h v = record {
    found = v.found;
    instant = v.instant;
    there = if_false _ _ h ∙ v.there;
    planned = v.planned;
    later = v.later;
  }

  parts :
      (sid : String) (r : Schedule) (rs : List Schedule)
      → FiresLater now sid (r ∷ rs)
      → ((same r.id sid ≡ true) × ((ss : List Schedule) → FiresLater now sid (r ∷ ss)))
        ⊎ ((same r.id sid ≡ false) × FiresLater now sid rs)
  parts sid r rs v = elim (Bool-cases (same r.id sid)) [
    | inl h ↦
        let one : some r ≡ some v.found = sym (if_true _ _ h) ∙ v.there in
        inl (
          h,
          λ ss. record {
            found = v.found;
            instant = v.instant;
            there = if_true _ _ h ∙ one;
            planned = v.planned;
            later = v.later;
          },
        )
    | inr h ↦ inr (
      h,
      record {
        found = v.found;
        instant = v.instant;
        there = sym (if_false _ _ h) ∙ v.there;
        planned = v.planned;
        later = v.later;
      },
    )
  ]

  -- Advancing any schedule leaves the plans that stand.
  pub replace-FiresLater :
      (sid rid : String) (rs : List Schedule)
      → FiresLater now sid rs
      → FiresLater now sid (replace_first schedules rid (next_fire zones now) rs)
  replace-FiresLater sid rid [] v = absurd (cc v.there)
  replace-FiresLater sid rid (r ∷ rs) v =
      by_parts (parts sid r rs v) (replace-FiresLater sid rid rs)
    where
      planned_anew :
          (o : Option Schedule)
          → next_fire zones now r ≡ o
          → ((same r.id sid ≡ true) × ((ss : List Schedule) → FiresLater now sid (r ∷ ss)))
            ⊎ ((same r.id sid ≡ false) × FiresLater now sid rs)
          → FiresLater now sid (elim o [ none ↦ r ∷ rs | some r' ↦ r' ∷ rs ])
      planned_anew none e p = v
      planned_anew (some y) e (inl p) = at_head sid r y rs e p.0
      planned_anew (some y) e (inr p) =
          further sid y rs (ap (λ i. same i sid) (next_fire-later r y e).0 ∙ p.0) p.1

      by_parts :
          ((same r.id sid ≡ true) × ((ss : List Schedule) → FiresLater now sid (r ∷ ss)))
            ⊎ ((same r.id sid ≡ false) × FiresLater now sid rs)
          → (FiresLater now sid rs
              → FiresLater now sid (replace_first schedules rid (next_fire zones now) rs))
          → FiresLater now sid (replace_first schedules rid (next_fire zones now) (r ∷ rs))
      by_parts p ih = elim (Bool-cases (same r.id rid)) [
        | inl h ↦
            subst (FiresLater now sid) (sym (if_true _ _ h))
              (planned_anew (next_fire zones now r) refl p)
        | inr h ↦
            subst (FiresLater now sid) (sym (if_false _ _ h))
              (elim p [ inl q ↦ q.1 _ | inr q ↦ further sid r _ q.0 (ih q.1) ])
      ]

  -- What `update` finds is planned.
  pub changed-FiresLater :
      (sid : String) (rs : List Schedule) (p : Schedule × List Schedule)
      → changed schedules sid (next_fire zones now) rs ≡ ok p
      → FiresLater now sid p.1
  changed-FiresLater sid [] p e = absurd (cc e)
  changed-FiresLater sid (r ∷ rs) p e = elim (Bool-cases (same r.id sid)) [
    | inl h ↦ matched (next_fire zones now r) refl h (sym (if_true _ _ h) ∙ e)
    | inr h ↦
        passed (changed schedules sid (next_fire zones now) rs) h (sym (if_false _ _ h) ∙ e)
          (changed-FiresLater sid rs) refl
  ]
    where
      matched :
          (o : Option Schedule)
          → next_fire zones now r ≡ o
          → same r.id sid ≡ true
          → (elim o as (λ x. Outcome (Schedule × List Schedule)) [
            | none ↦ failed raised
            | some r' ↦ ok (r', r' ∷ rs)
          ])
            ≡ ok p
          → FiresLater now sid p.1
      matched none q h f = absurd (cc f)
      matched (some y) q h f =
          let one : y ∷ rs ≡ p.1 = ground (arith, f) in
          subst (FiresLater now sid) one (at_head sid r y rs q h)

      passed :
          (o : Outcome (Schedule × List Schedule))
          → same r.id sid ≡ false
          → (elim o as (λ x. Outcome (Schedule × List Schedule)) [
            | ok q ↦ ok (q.0, r ∷ q.1)
            | failed x ↦ failed x
          ])
            ≡ ok p
          → ((q : Schedule × List Schedule)
              → changed schedules sid (next_fire zones now) rs ≡ ok q
              → FiresLater now sid q.1)
          → changed schedules sid (next_fire zones now) rs ≡ o
          → FiresLater now sid p.1
      passed (failed x) h f ih q = absurd (cc f)
      passed (ok v) h f ih q =
          let one : r ∷ v.1 ≡ p.1 = ground (arith, f) in
          subst (FiresLater now sid) one (further sid r v.1 h (ih v q))
