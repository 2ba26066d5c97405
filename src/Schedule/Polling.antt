-- ===== src/Schedule/Polling.antt =====
-- What a poll has written by the time it has submitted its wakeups.
use assist.Records.{Root, Outcome, ok, failed}
use assist.Schedule.Defs.{Schedule, Zone}
use assist.Schedule.Scheduler.{
  due, Wakeup, Scheduler, wakeup_of, claim_id, release_id, advance, submit, fired, fire, fire_all,
  poll,
}
use assist.Schedule.Advance.{Planned, advance-Planned, advance-keeps-Planned}
use assist.Base.{
  ℕ, String, Bool, true, false, ◌≡◌, refl, sym, ap, ◌∙◌, subst, Option, none, some, List, [], ◌∷◌,
  ◌++◌, append-nil, append_assoc, All, All-append, if◌then◌else◌,
}

module _ (zones : String → Option Zone) (writes : String → Bool) (now : ℕ) (healthy : Bool) where
  -- The wakeups a state has submitted after `old` are planned.
  pub record Ahead (old : List Wakeup) (st : Scheduler) : Type 0 where
    pub new : List Wakeup
    pub order : st.submitted ≡ old ++ new
    pub planned : All (Planned zones writes now st.root) new

  submit-Ahead :
      (old : List Wakeup) (s : Schedule) (st : Scheduler)
      → Planned zones writes now st.root (wakeup_of s)
      → Ahead old st
      → (o : Option (List String)) → Ahead old (submit zones writes healthy s st o)
  submit-Ahead old s st p a none = a
  submit-Ahead old s st p a (some ids) = by_health healthy
    where
      by_health :
          (h : Bool)
          → Ahead old (
              if h
              then record st { inflight = ids; submitted = st.submitted ++ wakeup_of s ∷ [] }
              else record st { inflight = release_id s.id ids })
      by_health true = record {
        new = a.new ++ wakeup_of s ∷ [];
        order = ap (λ l. l ++ wakeup_of s ∷ []) a.order ∙ append_assoc old a.new _;
        planned = All-append _ a.new (wakeup_of s ∷ []) a.planned (p, tt);
      }
      by_health false = record { new = a.new; order = a.order; planned = a.planned }

  fire-Ahead :
      (old : List Wakeup) (s : Schedule) (st : Scheduler)
      → Ahead old st
      → Ahead old (fire zones writes now healthy s st)
  unfolding fire
  fire-Ahead old s st a = by_advance (advance zones writes now s st.root) refl
    where
      still :
          (ws : List Wakeup)
          → All (Planned zones writes now st.root) ws
          → All (Planned zones writes now (advance zones writes now s st.root).1) ws
      still [] h = tt
      still (w ∷ ws) h = (advance-keeps-Planned zones writes now s st.root w h.0, still ws h.1)

      by_advance :
          (o : Outcome Schedule × Root Schedule)
          → advance zones writes now s st.root ≡ o
          → Ahead old (fired zones writes healthy s st o)
      by_advance (failed e, root) p = record {
        new = a.new;
        order = a.order;
        planned =
            subst
              (λ (q : Outcome Schedule × Root Schedule). All (Planned zones writes now q.1) a.new) p
              (still a.new a.planned);
      }
      by_advance (ok r, root) p =
          submit-Ahead old s (record st { root = root })
            (subst
              (λ (q : Outcome Schedule × Root Schedule). Planned zones writes now q.1 (wakeup_of s))
              p
              (advance-Planned zones writes now s r st.root
                (ap (λ (q : Outcome Schedule × Root Schedule). q.0) p)))
            record {
              new = a.new;
              order = a.order;
              planned =
                  subst
                    (λ (q : Outcome Schedule × Root Schedule).
                      All (Planned zones writes now q.1) a.new)
                    p (still a.new a.planned);
            }
            (claim_id s.id st.inflight)

  fire_all-Ahead :
      (old : List Wakeup) (ss : List Schedule) (st : Scheduler)
      → Ahead old st
      → Ahead old (fire_all zones writes now healthy ss st)
  unfolding fire_all
  fire_all-Ahead old [] st a = a
  fire_all-Ahead old (s ∷ ss) st a =
      fire_all-Ahead old ss (fire zones writes now healthy s st) (fire-Ahead old s st a)

  -- A poll adds wakeups behind those submitted before it, and by its end the first schedule on disk
  -- with the id of each, in its thread's file, has a next fire on disk that is after the poll's
  -- instant.
  pub poll-Ahead : (st : Scheduler) → Ahead st.submitted (poll zones writes now healthy st)
  unfolding poll
  poll-Ahead st =
      fire_all-Ahead st.submitted (due now st.root) st
        record { new = []; order = sym (append-nil st.submitted); planned = tt }
