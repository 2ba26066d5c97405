-- ===== src/Dispatch/Tiers.antt =====
-- The two tiers of the queue implement one line of tickets.
use assist.Dispatch.Queue.{
  Ticket, RunQueue, put, get_nowait, is_empty, of_thread, raise_ticket, promote,
}
use assist.Dispatch.Line.{
  Call, Answer, got_from, perform, replay, Line, is_user, is_other, first_user, first_of, serve,
  moves, has_none, perform_in_line, replay_in_line, Holds, putting, getting, testing, promoting,
  got, said,
}
use assist.Base.{
  String, Bool, true, false, not, ◌≡◌, refl, sym, ap, ap₂, ◌∙◌, subst, Option, none, some, List, [],
  ◌∷◌, ◌++◌, map, keep, keep-append, append-nil, if_true, if_false, inl, inr, Bool-cases, arith,
}

keep-kept :
    (p : Ticket → Bool) (t : Ticket) (l : Line)
    → p t ≡ true
    → keep p (l ++ t ∷ []) ≡ keep p l ++ t ∷ []
keep-kept p t l e = keep-append p l (t ∷ []) ∙ ap (λ m. keep p l ++ m) (if_true _ _ e)

keep-dropped :
    (p : Ticket → Bool) (t : Ticket) (l : Line) → p t ≡ false → keep p (l ++ t ∷ []) ≡ keep p l
keep-dropped p t l e =
    keep-append p l (t ∷ []) ∙ ap (λ m. keep p l ++ m) (if_false _ _ e) ∙ append-nil (keep p l)

put-Holds : (t : Ticket) (q : RunQueue) (l : Line) → Holds q l → Holds (put t q) (l ++ t ∷ [])
unfolding put
put-Holds t q l h = elim (Bool-cases t.user_priority) [
  | inl e ↦
      subst (λ r. Holds r (l ++ t ∷ [])) (sym (if_true _ _ e))
        (record {
          users = ap (λ m. m ++ t ∷ []) h.users ∙ sym (keep-kept is_user t l e);
          others = h.others ∙ sym (keep-dropped is_other t l (ap not e));
        })
  | inr e ↦
      subst (λ r. Holds r (l ++ t ∷ [])) (sym (if_false _ _ e))
        (record {
          users = h.users ∙ sym (keep-dropped is_user t l e);
          others = ap (λ m. m ++ t ∷ []) h.others ∙ sym (keep-kept is_other t l (ap not e));
        })
]

-- A line without a user's ticket is served from its front.
first_user-none : (l : Line) → keep is_user l ≡ [] → first_user l ≡ none
first_user-none [] h = refl
first_user-none (t ∷ ts) h = ground (arith, h, first_user-none ts)

without_users : (l : Line) → keep is_user l ≡ [] → keep is_other l ≡ l
without_users [] h = refl
without_users (t ∷ ts) h = ground (arith, h, without_users ts)

-- What serving a user's ticket leaves.
record Served (l : Line) (t : Ticket) (ts : List Ticket) : Type 0 where
  rest : Line
  first : first_user l ≡ some (t, rest)
  users_left : keep is_user rest ≡ ts
  others_left : keep is_other rest ≡ keep is_other l

first_user-Served :
    (l : Line) (t : Ticket) (ts : List Ticket) → keep is_user l ≡ t ∷ ts → Served l t ts
first_user-Served [] t ts h = absurd (cc h)
first_user-Served (x ∷ l) t ts h = elim (Bool-cases (is_user x)) [
  | inl e ↦
      let here : x ∷ keep is_user l ≡ t ∷ ts = sym (if_true _ _ e) ∙ h in
      record {
        rest = l;
        first = ground (arith, e, here);
        users_left = ground (arith, here);
        others_left = ground (arith, e);
      }
  | inr e ↦
      let v = first_user-Served l t ts (sym (if_false _ _ e) ∙ h) in
      record {
        rest = x ∷ v.rest;
        first = ground (arith, e, v.first);
        users_left = ground (arith, e, v.users_left);
        others_left = ground (arith, e, v.others_left);
      }
]

-- The same answer, and queues that hold the lines that are left.
abbrev Agrees : Answer × RunQueue → Answer × Line → Type 0
Agrees o p = (o.0 ≡ p.0) × Holds o.1 p.1

get-Agrees :
    (q : RunQueue) (l : Line)
    → Holds q l
    → Agrees (got_from q (get_nowait q)) (got_from l (serve l))
unfolding get_nowait
get-Agrees q l h = by_user q.user q.background h.users h.others
  where
    by_front :
        (bs l : List Ticket)
        → [] ≡ keep is_user l
        → bs ≡ l
        → Agrees
            (got_from
              (record { user = []; background = bs })
              (get_nowait (record { user = []; background = bs })))
            (got_from l (first_of l))
    by_front [] [] e f = (refl, record { users = refl; others = refl })
    by_front [] (y ∷ l) e f = absurd (cc f)
    by_front (x ∷ bs) [] e f = absurd (cc f)
    by_front (x ∷ bs) (y ∷ l) e f =
        let tail : bs ≡ l = ground (arith, f) in
        let none_left : keep is_user l ≡ [] = ground (arith, e) in
        (
          ground (arith, f),
          record { users = sym none_left; others = tail ∙ sym (without_users l none_left) },
        )

    by_user :
        (us bs : List Ticket)
        → us ≡ keep is_user l
        → bs ≡ keep is_other l
        → Agrees
            (got_from
              (record { user = us; background = bs })
              (get_nowait (record { user = us; background = bs })))
            (got_from l (serve l))
    by_user (t ∷ us) bs e f =
        let v = first_user-Served l t us (sym e) in
        subst
          (λ o.
            Agrees (got (some t), record { user = us; background = bs })
              (got_from l
                (elim o as (λ x. Option (Ticket × Line)) [ some p ↦ some p | none ↦ first_of l ])))
          (sym v.first) (refl, record { users = sym v.users_left; others = f ∙ sym v.others_left })
    by_user [] bs e f =
        subst
          (λ o.
            Agrees
              (got_from (record { user = []; background = bs })
                (get_nowait (record { user = []; background = bs })))
              (got_from l
                (elim o as (λ x. Option (Ticket × Line)) [ some p ↦ some p | none ↦ first_of l ])))
          (sym (first_user-none l (sym e))) (by_front bs l e (f ∙ without_users l (sym e)))

stay-users :
    (tid : String) (l : Line) → keep is_user (keep (λ t. not (moves tid t)) l) ≡ keep is_user l
stay-users tid [] = refl
stay-users tid (t ∷ l) = ground (arith, stay-users tid l)

stay-others :
    (tid : String) (l : Line)
    → keep is_other (keep (λ t. not (moves tid t)) l)
      ≡ keep (λ t. not (of_thread tid t)) (keep is_other l)
stay-others tid [] = refl
stay-others tid (t ∷ l) = ground (arith, stay-others tid l)

moved-others :
    (tid : String) (l : Line) → keep (of_thread tid) (keep is_other l) ≡ keep (moves tid) l
moved-others tid [] = refl
moved-others tid (t ∷ l) = ground (arith, moved-others tid l)

raised-users : (ts : List Ticket) → keep is_user (map raise_ticket ts) ≡ map raise_ticket ts
raised-users [] = refl
raised-users (t ∷ ts) = ap (λ l. raise_ticket t ∷ l) (raised-users ts)

raised-others : (ts : List Ticket) → keep is_other (map raise_ticket ts) ≡ []
raised-others [] = refl
raised-others (t ∷ ts) = raised-others ts

promote-Holds :
    (tid : String) (q : RunQueue) (l : Line)
    → Holds q l
    → Holds
        (promote tid q)
        (keep (λ t. not (moves tid t)) l ++ map raise_ticket (keep (moves tid) l))
unfolding promote
promote-Holds tid q l h = record {
  users =
      ap₂ (λ a b. a ++ map raise_ticket b) h.users
        (ap (keep (of_thread tid)) h.others ∙ moved-others tid l)
      ∙ sym (
          keep-append is_user (keep (λ t. not (moves tid t)) l) _
          ∙ ap₂ (λ a b. a ++ b) (stay-users tid l) (raised-users (keep (moves tid) l)));
  others =
      ap (keep (λ t. not (of_thread tid t))) h.others
      ∙ sym (
          keep-append is_other (keep (λ t. not (moves tid t)) l) _
          ∙ ap₂ (λ a b. a ++ b) (stay-others tid l) (raised-others (keep (moves tid) l))
          ∙ append-nil _);
}

empty-Agrees : (q : RunQueue) (l : Line) → Holds q l → is_empty q ≡ has_none l
unfolding is_empty
empty-Agrees q l h = by_tiers q.user q.background l h.users h.others
  where
    by_tiers :
        (us bs : List Ticket) (l : Line)
        → us ≡ keep is_user l
        → bs ≡ keep is_other l
        → (elim us [ t ∷ ts ↦ false | [] ↦ elim bs [ [] ↦ true | t ∷ ts ↦ false ] ]) ≡ has_none l
    by_tiers us bs [] e f = ground (arith, e, f)
    by_tiers us bs (t ∷ l) e f = ground (arith, e, f)

perform-Agrees :
    (c : Call) (q : RunQueue) (l : Line) → Holds q l → Agrees (perform c q) (perform_in_line c l)
unfolding perform perform_in_line
perform-Agrees (putting t) q l h = (refl, put-Holds t q l h)
perform-Agrees getting q l h = get-Agrees q l h
perform-Agrees testing q l h = (ap said (empty-Agrees q l h), h)
perform-Agrees (promoting tid) q l h = (refl, promote-Holds tid q l h)

-- Whatever is put, taken, asked and promoted, the two tiers answer what the one line answers, from
-- any line that they hold.
pub replay-Line :
    (cs : List Call) (q : RunQueue) (l : Line) → Holds q l → replay cs q ≡ replay_in_line cs l
unfolding replay replay_in_line
replay-Line [] q l h = refl
replay-Line (c ∷ cs) q l h =
    let (same_answer, held) = perform-Agrees c q l h in
    ap₂ (λ a rest. a ∷ rest) same_answer
      (replay-Line cs (perform c q).1 (perform_in_line c l).1 held)
