-- ===== src/Dispatch/Progress.antt =====
-- What every step of a new process keeps: tickets stay queued, no run starts, and a run that becomes
-- pending has a ticket of its thread.
use assist.Base.Dict
use assist.Base.Dict.{get-remove, same_self, same→≡}
use assist.Web.{get_status}
use assist.Runs.{Status, stored, Run, reload, pending, interrupted, is_status, Disk}
use assist.Runs.Evolution.{runs_of}
use assist.Dispatch.Queue.{RunQueue, put, of_thread, submit}
use assist.Dispatch.World.{World, submit_run}
use assist.Dispatch.Pending.{has_status}
use assist.Dispatch.Handoff.{discard}
use assist.Base.{
  ℕ, String, Bool, true, false, ◌||◌, ◌≡◌, refl, sym, ap, ap₂, ◌∙◌, subst, none, List, [], ◌∷◌,
  ◌++◌, map, same, any, if◌then◌else◌, if_true, if_false, inl, inr, ◌⊎◌, Bool-cases, arith,
}

-- whether a thread has a ticket
abbrev pub is_queued : String → RunQueue → Bool
is_queued tid q = any (of_thread tid) q.user || any (of_thread tid) q.background

-- whether a thread has a run in a state
abbrev pub has_any : Status → String → World → Bool
has_any s tid w = any (has_status s) (runs_of tid w.disk)

-- A thread's pending work has a ticket.
abbrev pub Covered : String → World → Type 0
Covered tid w = (is_queued tid w.queue ≡ true) ⊎ (has_any pending tid w ≡ false)

-- Where a status is that of a paused turn and names the run of a web message, no run of the thread is
-- interrupted.
abbrev pub Clean : String → World → Type 0
Clean tid w =
    same (get_status tid w.web).stage "paused" ≡ true
    → ((get_status tid w.web).fields.pending_run_id ≡ none) ⊎ (has_any interrupted tid w ≡ false)

-- How a world goes on.
pub record Later (w w' : World) : Type 0 where
  pub tickets_stay : (tid : String) → is_queued tid w.queue ≡ true → is_queued tid w'.queue ≡ true
  pub only_pending :
      (s : Status) (tid : String)
      → is_status pending s ≡ false
      → has_any s tid w ≡ false
      → has_any s tid w' ≡ false
  pub covered_stay : (tid : String) → Covered tid w → Covered tid w'
  pub clean_stays : (tid : String) → Clean tid w → Clean tid w'

-- With the statuses as they are.
pub unmoved-Clean :
    (w w' : World)
    → w'.web ≡ w.web
    → ((s : Status) (tid : String)
        → is_status pending s ≡ false
        → has_any s tid w ≡ false
        → has_any s tid w' ≡ false)
    → (tid : String) → Clean tid w
    → Clean tid w'
unmoved-Clean w w' e f tid h p =
    let same_status : get_status tid w'.web ≡ get_status tid w.web = ap (get_status tid) e in
    elim (h (ap (λ st. same st.stage "paused") (sym same_status) ∙ p)) [
      | inl n ↦ inl (ap (λ st. st.fields.pending_run_id) same_status ∙ n)
      | inr n ↦ inr (f interrupted tid (ground arith) n)
    ]

pub Later-refl : (w : World) → Later w w
Later-refl w = record {
  tickets_stay = λ tid h. h;
  only_pending = λ s tid o h. h;
  covered_stay = λ tid h. h;
  clean_stays = λ tid h. h;
}

pub Later-trans : {u v w : World} → Later u v → Later v w → Later u w
Later-trans a b = record {
  tickets_stay = λ tid h. b.tickets_stay tid (a.tickets_stay tid h);
  only_pending = λ s tid o h. b.only_pending s tid o (a.only_pending s tid o h);
  covered_stay = λ tid h. b.covered_stay tid (a.covered_stay tid h);
  clean_stays = λ tid h. b.clean_stays tid (a.clean_stays tid h);
}

pub any-append {ℓ} :
    {A : Type ℓ} (p : A → Bool) (xs ys : List A) → any p (xs ++ ys) ≡ (any p xs || any p ys)
any-append p [] ys = refl
any-append p (x ∷ xs) ys = ground (arith, any-append p xs ys)

-- A ticket is added.
submit-queued :
    (rid tid : String) (priority : Bool) (q : RunQueue) (t : String)
    → is_queued t (submit rid tid priority q) ≡ (is_queued t q || same tid t)
unfolding submit put
submit-queued rid tid true q t = ground (
  arith,
  any-append (of_thread t) q.user (record { run_id = rid; tid = tid; user_priority = true } ∷ []),
)
submit-queued rid tid false q t = ground (
  arith,
  any-append (of_thread t) q.background
      (record { run_id = rid; tid = tid; user_priority = false } ∷ []),
)

pub submit_run-queued :
    (r : Run) (tid : String) (priority : Bool) (w : World)
    → is_queued tid (submit_run r tid priority w).queue ≡ true
submit_run-queued r tid priority w =
    submit-queued r.id tid priority w.queue tid ∙ ground (arith, same_self tid)

pub submit_run-Later :
    (r : Run) (tid : String) (priority : Bool) (w : World) → Later w (submit_run r tid priority w)
submit_run-Later r tid priority w = record {
  tickets_stay = stay;
  only_pending = λ s t o h. h;
  covered_stay = λ t c. elim c [ inl h ↦ inl (stay t h) | inr h ↦ inr h ];
  clean_stays = λ t h. h;
}
  where
    stay :
        (t : String)
        → is_queued t w.queue ≡ true
        → is_queued t (submit_run r tid priority w).queue ≡ true
    stay t h = submit-queued r.id tid priority w.queue t ∙ ground (arith, h)

-- Other runs on disk, of which none is running or pending where none was.
pub fewer-Later :
    (w : World) (d : Disk) (n : ℕ)
    → ((s : Status) (t : String) → has_any s t w ≡ false → any (has_status s) (runs_of t d) ≡ false)
    → Later w (record w { disk = d; calls = n })
fewer-Later w d n f = record {
  tickets_stay = λ t h. h;
  only_pending = λ s t o h. f s t h;
  covered_stay = λ t c. elim c [ inl h ↦ inl h | inr h ↦ inr (f pending t h) ];
  clean_stays = unmoved-Clean w (record w { disk = d; calls = n }) refl (λ s t o h. f s t h);
}

-- A directory goes, with its runs.
pub discard-Later : (tid : String) (w : World) → Later w (discard tid w)
discard-Later tid w = fewer-Later w (Dict.remove tid w.disk) w.calls (λ s t h.
    ap (λ o. any (has_status s) (stored o)) (get-remove tid t w.disk)
    ∙ elim (Bool-cases (same tid t)) [
      | inl e ↦ ap (λ o. any (has_status s) (stored o)) (if_true _ _ e)
      | inr e ↦ ap (λ o. any (has_status s) (stored o)) (if_false _ _ e) ∙ h
    ])

pub reload-status :
    (s : Status) (rs : List Run) → any (has_status s) (map reload rs) ≡ any (has_status s) rs
unfolding reload
reload-status s [] = refl
reload-status s (r ∷ rs) = ap (λ b. has_status s r || b) (reload-status s rs)

-- A new run comes with a ticket of its thread.
pub new-Later :
    (w : World) (d : Disk) (n : ℕ) (t : String) (r s : Run) (priority : Bool)
    → r.status ≡ pending
    → ((j : String)
        → runs_of j d
          ≡ (if same t j then map reload (runs_of t w.disk ++ r ∷ []) else runs_of j w.disk))
    → Later w (submit_run s t priority (record w { disk = d; calls = n }))
new-Later w d n t r s priority p made = record {
  tickets_stay = v.tickets_stay;
  only_pending = no_more;
  covered_stay = λ j c. elim (Bool-cases (same t j)) [
    | inl e ↦ inl (
        subst (λ i. is_queued i (submit_run s t priority w).queue ≡ true) (same→≡ t j e)
          (submit_run-queued s t priority w))
    | inr e ↦ elim c [
      | inl h ↦ inl (v.tickets_stay j h)
      | inr h ↦ inr (ap (any (has_status pending)) (made j ∙ if_false _ _ e) ∙ h)
    ]
  ];
  clean_stays = unmoved-Clean w later refl no_more;
}
  where
    v : Later w (submit_run s t priority w)
    v = submit_run-Later s t priority w

    later : World
    later = submit_run s t priority (record w { disk = d; calls = n })

    no_more :
        (x : Status) (j : String)
        → is_status pending x ≡ false
        → has_any x j w ≡ false
        → has_any x j later ≡ false
    no_more x j o h = elim (Bool-cases (same t j)) [
      | inr e ↦ ap (any (has_status x)) (made j ∙ if_false _ _ e) ∙ h
      | inl e ↦
          ap (any (has_status x)) (made j ∙ if_true _ _ e)
          ∙ reload-status x _
          ∙ any-append (has_status x) (runs_of t w.disk) (r ∷ [])
          ∙ ap₂ (λ a b. a || (b || false))
              (subst (λ i. has_any x i w ≡ false) (sym (same→≡ t j e)) h)
              (ap (λ y. is_status y x) p ∙ o)
    ]
