-- ===== src/Dispatch/Injection.antt =====
-- What a boundary appends, and how often an id stands in it.
use assist.Runs.{success, no_change, Run, Result, ok, err, Env, read, PendingMessage}
use assist.Runs.Evolution.{runs_of}
use assist.Runs.Numbering.{ids_of, transition-ids}
use assist.Base.Dict.{same→≡}
use assist.Dispatch.World.{World, move_run}
use assist.Dispatch.Coverage.{read-runs}
use assist.Dispatch.Boundary.{
  and_go_on, claimed_one, ShownMessage, collect_interjection_ids, holds, is_shown, record_of,
  as_records, pending_run_records, Slice, is_fresh, consume_all, consume_interjections, framed,
  injected, before_model,
}
use assist.Base.{
  ◌⊎◌, append_assoc, ℕ, ◌+◌, ◌≤◌, String, Bool, true, false, ◌≡◌, refl, sym, ap, ◌∙◌, subst, Option,
  List, [], ◌∷◌, ◌++◌, map, same, keep, count_if, count_if-append, if◌then◌else◌, if_true, if_false,
  inl, inr, Bool-cases, arith,
}

-- How often an id stands in the state.
abbrev pub times : String → List ShownMessage → ℕ
times rid ms = count_if (same rid) (collect_interjection_ids ms)

collect-append :
    (ms ns : List ShownMessage)
    → collect_interjection_ids (ms ++ ns)
      ≡ collect_interjection_ids ms ++ collect_interjection_ids ns
unfolding collect_interjection_ids
collect-append [] ns = refl
collect-append (m ∷ ms) ns =
    ap (λ l. m.interjection_ids ++ l) (collect-append ms ns)
    ∙ sym (
        append_assoc m.interjection_ids (collect_interjection_ids ms) (collect_interjection_ids ns))

pub times-append :
    (rid : String) (ms ns : List ShownMessage) → times rid (ms ++ ns) ≡ times rid ms + times rid ns
times-append rid ms ns =
    ap (count_if (same rid)) (collect-append ms ns)
    ∙ count_if-append (same rid) (collect_interjection_ids ms) (collect_interjection_ids ns)

pub never_held :
    (rid : String) (ids : List String) → holds rid ids ≡ false → count_if (same rid) ids ≡ 0
never_held rid [] h = refl
never_held rid (i ∷ ids) h = elim (Bool-cases (same rid i)) [
  | inl e ↦ absurd (ground (arith, h, e))
  | inr e ↦ ground (arith, e, never_held rid ids (ground (arith, h, e)))
]

module _ (env : ℕ → Env) (frame : PendingMessage → String) (sender : Option String) where
  abbrev due_of : List String → List Run → List ShownMessage
  due_of ids rs =
      map (framed env frame) (keep (is_fresh sender ids) (map record_of (keep is_shown rs)))

  due-cases :
      (ids : List String) (r : Run) (rs : List Run)
      → ((due_of ids (r ∷ rs) ≡ framed env frame (record_of r) ∷ due_of ids rs)
          × (holds r.id ids ≡ false))
        ⊎ (due_of ids (r ∷ rs) ≡ due_of ids rs)
  due-cases ids r rs = elim (Bool-cases (is_shown r)) [
    | inr e ↦ inr (ap due (if_false _ _ e))
    | inl e ↦ elim (Bool-cases (is_fresh sender ids (record_of r))) [
      | inl d ↦
          inl (
            ap due (if_true _ _ e) ∙ ap (map (framed env frame)) (if_true _ _ d),
            ground (arith, d),
          )
      | inr d ↦ inr (ap due (if_true _ _ e) ∙ ap (map (framed env frame)) (if_false _ _ d))
    ]
  ]
    where
      due : List Run → List ShownMessage
      due ks = map (framed env frame) (keep (is_fresh sender ids) (map record_of ks))

  due_bounded :
      (rid : String) (ids : List String) (rs : List Run)
      → times rid (due_of ids rs) ≤ count_if (same rid) (ids_of rs)
  unfolding collect_interjection_ids
  due_bounded rid ids [] = omega arith
  due_bounded rid ids (r ∷ rs) = elim (due-cases ids r rs) [
    | inl (e, f) ↦ omega (arith, ap (times rid) e, due_bounded rid ids rs)
    | inr e ↦ omega (arith, ap (times rid) e, due_bounded rid ids rs)
  ]

  due_new :
      (rid : String) (ids : List String) (rs : List Run)
      → holds rid ids ≡ true
      → times rid (due_of ids rs) ≡ 0
  unfolding collect_interjection_ids
  due_new rid ids [] h = refl
  due_new rid ids (r ∷ rs) h = elim (due-cases ids r rs) [
    | inr e ↦ ap (times rid) e ∙ due_new rid ids rs h
    | inl (e, f) ↦ elim (Bool-cases (same rid r.id)) [
      | inl i ↦
          let clash : true ≡ false = sym h ∙ ap (λ x. holds x ids) (same→≡ rid r.id i) ∙ f in
          absurd (cc clash)
      | inr i ↦ ap (times rid) e ∙ ground (arith, i, due_new rid ids rs h)
    ]
  ]

  -- A message is new, and as often as its run.
  abbrev pub IsNew : String → String → List String → World → List ShownMessage → Type 0
  IsNew tid rid ids w ms =
      (times rid ms ≤ count_if (same rid) (ids_of (runs_of tid w.disk)))
      × (holds rid ids ≡ true → times rid ms ≡ 0)

  injected-IsNew :
      (tid rid : String) (ids : List String) (o : Result {0} Unit × Slice)
      → IsNew tid rid ids o.1.world (injected env frame sender tid ids o).0
  unfolding collect_interjection_ids pending_run_records
  injected-IsNew tid rid ids (err e, s) = (omega arith, λ h. refl)
  injected-IsNew tid rid ids (ok u, s) = by_read (read tid s.world.disk) refl
    where
      by_read :
          (o : Result (List Run))
          → read tid s.world.disk ≡ o
          → IsNew tid rid ids s.world
              (elim (as_records o) as (λ _. List ShownMessage × Slice) [
                | err e ↦ ([], s)
                | ok ms ↦ (map (framed env frame) (keep (is_fresh sender ids) ms), s)
              ]).0
      by_read (err e) f = (omega arith, λ h. refl)
      by_read (ok rs) f = (
        subst (λ ks. times rid (due_of ids rs) ≤ count_if (same rid) (ids_of ks))
            (read-runs tid s.world.disk rs f) (due_bounded rid ids rs),
        due_new rid ids rs,
      )

  -- Consumption keeps the ids.
  consume_all-ids :
      (tid : String) (ids : List String) (ms : List PendingMessage) (s : Slice)
      → ids_of (runs_of tid (consume_all env tid ids ms s).1.world.disk)
        ≡ ids_of (runs_of tid s.world.disk)
  unfolding consume_all move_run
  consume_all-ids tid ids [] s = refl
  consume_all-ids tid ids (m ∷ ms) s = by_test (holds m.id ids) (consume_all-ids tid ids ms)
    where
      moved : Result Run × World
      moved = move_run env tid m.id success (record no_change { consumed_by = s.run_id }) s.world

      kept : ids_of (runs_of tid moved.1.disk) ≡ ids_of (runs_of tid s.world.disk)
      kept =
          transition-ids (env s.world.calls) tid m.id tid success
            (record no_change { consumed_by = s.run_id }) s.world.disk

      by_move :
          (o : Result Run × World)
          → ids_of (runs_of tid o.1.disk) ≡ ids_of (runs_of tid s.world.disk)
          → ((t : Slice)
              → ids_of (runs_of tid (consume_all env tid ids ms t).1.world.disk)
                ≡ ids_of (runs_of tid t.world.disk))
          → ids_of (
              runs_of tid
                (and_go_on env (claimed_one env m o s) (consume_all env tid ids ms)).1.world.disk)
            ≡ ids_of (runs_of tid s.world.disk)
      by_move (err e, w) k ih = k
      by_move (ok r, w) k ih = ih _ ∙ k

      by_test :
          (b : Bool)
          → ((t : Slice)
              → ids_of (runs_of tid (consume_all env tid ids ms t).1.world.disk)
                ≡ ids_of (runs_of tid t.world.disk))
          → ids_of (
              runs_of tid
                (if b
                  then and_go_on env (claimed_one env m moved s) (consume_all env tid ids ms)
                  else consume_all env tid ids ms s).1.world.disk)
            ≡ ids_of (runs_of tid s.world.disk)
      by_test true ih = by_move moved kept ih
      by_test false ih = ih s

  consume_interjections-ids :
      (tid : String) (ids : List String) (s : Slice)
      → ids_of (runs_of tid (consume_interjections env tid ids s).1.world.disk)
        ≡ ids_of (runs_of tid s.world.disk)
  unfolding consume_interjections
  consume_interjections-ids tid ids s = by_records (pending_run_records tid s.world)
    where
      by_records :
          (o : Result (List PendingMessage))
          → ids_of (
              runs_of tid
                (elim o as (λ _. Result {0} Unit × Slice) [
                  | err e ↦ (err e, s)
                  | ok ms ↦ consume_all env tid ids ms s
                ]).1.world.disk)
            ≡ ids_of (runs_of tid s.world.disk)
      by_records (err e) = refl
      by_records (ok ms) = consume_all-ids tid ids ms s

  pub before_model-IsNew :
      (tid rid : String) (messages : List ShownMessage) (s : Slice)
      → IsNew tid rid
          (collect_interjection_ids messages)
          s.world
          (before_model env frame sender tid messages s).0
  unfolding before_model
  before_model-IsNew tid rid messages s = by_ids (collect_interjection_ids messages)
    where
      by_ids :
          (ids : List String)
          → IsNew tid rid ids s.world
              (injected env frame sender tid ids (elim ids as (λ _. Result {0} Unit × Slice) [
                | [] ↦ (ok tt, s)
                | i ∷ is ↦ consume_interjections env tid (i ∷ is) s
              ])).0
      by_ids [] = injected-IsNew tid rid [] (ok tt, s)
      by_ids (i ∷ is) =
          let (bound, fresh) =
            injected-IsNew tid rid (i ∷ is) (consume_interjections env tid (i ∷ is) s) in
          (
            subst
                (λ l.
                  times rid
                    (injected env frame sender tid (i ∷ is)
                      (consume_interjections env tid (i ∷ is) s)).0
                  ≤ count_if (same rid) l)
                (consume_interjections-ids tid (i ∷ is) s) bound,
            fresh,
          )
