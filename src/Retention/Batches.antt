-- ===== src/Retention/Batches.antt =====
-- The batched deletion ends, and an interruption after any commit leaves a thread that the next
-- sweep finds.
use assist.Retention.Defs.{
  Row, Database, delete_some, then_state, clear_table, last_state, with_writes, with_checkpoints,
  in_order, delete_thread_in_batches,
}
use assist.Base.{
  ℕ, zero, suc, ◌+◌, ◌<◌, String, not, ◌≡◌, refl, sym, ap, ◌∙◌, Option, some, List, [], ◌∷◌, ◌++◌,
  same, keep, ltb, ltb→lt, All, All-append, if◌then◌else◌, if_true, if_false, inl, inr, ◌⊎◌,
  Bool-cases, arith,
}

-- The rows of the other threads.
abbrev pub others : String → List Row → List Row
others tid rows = keep (λ r. not (same r.thread_id tid)) rows

-- How many rows are the thread's.
abbrev pub own : String → List Row → ℕ
own tid [] = 0
own tid (r ∷ rows) = let rest = own tid rows in if same r.thread_id tid then suc rest else rest

delete_some-others :
    (tid : String) (n : ℕ) (rows : List Row)
    → others tid (delete_some tid n rows).1 ≡ others tid rows
unfolding delete_some
delete_some-others tid zero rows = refl
delete_some-others tid (suc n) [] = refl
delete_some-others tid (suc n) (r ∷ rows) =
    ground (arith, delete_some-others tid n rows, delete_some-others tid (suc n) rows)

-- What is deleted is counted.
delete_some-own :
    (tid : String) (n : ℕ) (rows : List Row)
    → own tid rows ≡ (delete_some tid n rows).0 + own tid (delete_some tid n rows).1
unfolding delete_some
delete_some-own tid zero rows = omega arith
delete_some-own tid (suc n) [] = refl
delete_some-own tid (suc n) (r ∷ rows) =
    ground (arith, delete_some-own tid n rows, delete_some-own tid (suc n) rows)

-- A batch that is not full took every row.
delete_some-none_left :
    (tid : String) (n : ℕ) (rows : List Row)
    → (delete_some tid n rows).0 < n
    → own tid (delete_some tid n rows).1 ≡ 0
unfolding delete_some
delete_some-none_left tid zero rows h = absurd (omega (arith, h))
delete_some-none_left tid (suc n) [] h = refl
delete_some-none_left tid (suc n) (r ∷ rows) h =
    ground (arith, h, delete_some-none_left tid n rows, delete_some-none_left tid (suc n) rows)

own-others : (tid : String) (rows : List Row) → own tid rows ≡ 0 → others tid rows ≡ rows
own-others tid [] h = refl
own-others tid (r ∷ rows) h = ground (arith, h, own-others tid rows)

-- The loop on a table ended, with these commits.
record Cleared (tid : String) (rows : List Row) (o : Option (List (List Row))) : Type 0 where
  states : List (List Row)
  ended : o ≡ some states
  empty : own tid (last_state rows states) ≡ 0
  kept : All (λ s. others tid s ≡ others tid rows) states

others_still :
    (tid : String) (rows left : List Row) (states : List (List Row))
    → others tid left ≡ others tid rows
    → All (λ s. others tid s ≡ others tid left) states
    → All (λ s. others tid s ≡ others tid rows) states
others_still tid rows left [] e h = tt
others_still tid rows left (s ∷ states) e h = (h.0 ∙ e, others_still tid rows left states e h.1)

clear_table-Cleared :
    (fuel batch : ℕ) (tid : String) (rows : List Row)
    → 0 < batch
    → own tid rows < fuel
    → Cleared tid rows (clear_table fuel batch tid rows)
unfolding clear_table
clear_table-Cleared zero batch tid rows b f = absurd (omega (arith, f))
clear_table-Cleared (suc fuel) batch tid rows b f =
    elim (Bool-cases (ltb (delete_some tid batch rows).0 batch)) [
      | inl h ↦ record {
        states = left ∷ [];
        ended = if_true _ _ h;
        empty = delete_some-none_left tid batch rows (ltb→lt _ _ h);
        kept = (delete_some-others tid batch rows, tt);
      }
      | inr h ↦
          let rest : Cleared tid left (clear_table fuel batch tid left) =
            clear_table-Cleared fuel batch tid left b
              (ground (arith, f, b, h, delete_some-own tid batch rows)) in
          record {
            states = left ∷ rest.states;
            ended = if_false _ _ h ∙ ap (then_state left) rest.ended;
            empty = rest.empty;
            kept = (
              delete_some-others tid batch rows,
              others_still tid rows left rest.states (delete_some-others tid batch rows) rest.kept,
            );
          }
    ]
  where
    left : List Row
    left = (delete_some tid batch rows).1

-- What holds after each commit: the other threads have their rows, and a thread that had checkpoints
-- has all of them for as long as it has writes.
pub record Resumable (tid : String) (before after : Database) : Type 0 where
  pub writes_kept : others tid after.writes ≡ others tid before.writes
  pub checkpoints_kept : others tid after.checkpoints ≡ others tid before.checkpoints
  pub found_again : (after.checkpoints ≡ before.checkpoints) ⊎ (own tid after.writes ≡ 0)

with_writes-Resumable :
    (tid : String) (db : Database) (states : List (List Row))
    → All (λ s. others tid s ≡ others tid db.writes) states
    → All (Resumable tid db) (with_writes db states)
with_writes-Resumable tid db [] h = tt
with_writes-Resumable tid db (s ∷ states) h = (
  record { writes_kept = h.0; checkpoints_kept = refl; found_again = inl refl },
  with_writes-Resumable tid db states h.1,
)

with_checkpoints-Resumable :
    (tid : String) (db : Database) (ws : List Row) (states : List (List Row))
    → others tid ws ≡ others tid db.writes
    → own tid ws ≡ 0
    → All (λ s. others tid s ≡ others tid db.checkpoints) states
    → All (Resumable tid db) (with_checkpoints (record db { writes = ws }) states)
with_checkpoints-Resumable tid db ws [] e z h = tt
with_checkpoints-Resumable tid db ws (s ∷ states) e z h = (
  record { writes_kept = e; checkpoints_kept = h.0; found_again = inr z },
  with_checkpoints-Resumable tid db ws states e z h.1,
)

last_state-kept :
    (tid : String) (rows now : List Row) (states : List (List Row))
    → others tid now ≡ others tid rows
    → All (λ s. others tid s ≡ others tid rows) states
    → others tid (last_state now states) ≡ others tid rows
last_state-kept tid rows now [] e h = e
last_state-kept tid rows now (s ∷ states) e h = last_state-kept tid rows s states h.0 h.1

abbrev pub last_database : Database → List Database → Database
last_database db [] = db
last_database db (s ∷ states) = last_database s states

last_with_checkpoints :
    (db : Database) (states : List (List Row))
    → last_database db (with_checkpoints db states)
      ≡ record db { checkpoints = last_state db.checkpoints states }
last_with_checkpoints db [] = refl
last_with_checkpoints db (s ∷ states) = last_with_checkpoints (record db { checkpoints = s }) states

with_writes_anew :
    (db : Database) (ws : List Row) (states : List (List Row))
    → with_writes (record db { writes = ws }) states ≡ with_writes db states
with_writes_anew db ws [] = refl
with_writes_anew db ws (s ∷ states) =
    ap (λ l. record db { writes = s } ∷ l) (with_writes_anew db ws states)

last_with_writes :
    (db : Database) (states : List (List Row)) (more : List Database)
    → last_database db (with_writes db states ++ more)
      ≡ last_database (record db { writes = last_state db.writes states }) more
last_with_writes db [] more = refl
last_with_writes db (s ∷ states) more =
    ap (λ l. last_database (record db { writes = s }) (l ++ more))
      (sym (with_writes_anew db s states))
    ∙ last_with_writes (record db { writes = s }) states more

-- The table at the end is that of the other threads.
last_state-others :
    (tid : String) (rows : List Row) (o : Option (List (List Row)))
    → (c : Cleared tid rows o) → last_state rows c.states ≡ others tid rows
last_state-others tid rows o c =
    sym (own-others tid (last_state rows c.states) c.empty)
    ∙ last_state-kept tid rows rows c.states refl c.kept

-- A deletion that ended, with the databases that its commits left.
pub record Purged (tid : String) (db : Database) (o : Option (List Database)) : Type 0 where
  pub states : List Database
  pub ended : o ≡ some states
  pub finished :
      last_database db states
      ≡ record { writes = others tid db.writes; checkpoints = others tid db.checkpoints }
  pub resumable : All (Resumable tid db) states

-- With fuel for one more round than each table has rows of the thread, and batches that are not of
-- size 0, the deletion ends. The last commit leaves the other threads' rows in their order, and no
-- more. Each commit leaves them too, and as long as writes of the thread are left, all of the
-- checkpoints are, by which the next sweep finds the thread.
pub delete_thread_in_batches-Purged :
    (fuel batch : ℕ) (tid : String) (db : Database)
    → 0 < batch
    → own tid db.writes < fuel
    → own tid db.checkpoints < fuel
    → Purged tid db (delete_thread_in_batches fuel batch tid db)
unfolding delete_thread_in_batches
delete_thread_in_batches-Purged fuel batch tid db b f g = record {
  states = with_writes db ws.states ++ later;
  ended =
      ap (λ o. in_order db o (clear_table fuel batch tid db.checkpoints)) ws.ended
      ∙ ap (in_order db (some ws.states)) cs.ended;
  finished =
      last_with_writes db ws.states later
      ∙ last_with_checkpoints (record db { writes = left }) cs.states
      ∙ ap (λ t. record { writes = t; checkpoints = last_state db.checkpoints cs.states })
          (last_state-others tid db.writes _ ws)
      ∙ ap (λ t. record { writes = others tid db.writes; checkpoints = t })
          (last_state-others tid db.checkpoints _ cs);
  resumable =
      All-append (Resumable tid db) (with_writes db ws.states) later
        (with_writes-Resumable tid db ws.states ws.kept)
        (with_checkpoints-Resumable tid db left cs.states
          (last_state-kept tid db.writes db.writes ws.states refl ws.kept) ws.empty cs.kept);
}
  where
    ws : Cleared tid db.writes (clear_table fuel batch tid db.writes)
    ws = clear_table-Cleared fuel batch tid db.writes b f

    cs : Cleared tid db.checkpoints (clear_table fuel batch tid db.checkpoints)
    cs = clear_table-Cleared fuel batch tid db.checkpoints b g

    left : List Row
    left = last_state db.writes ws.states

    later : List Database
    later = with_checkpoints (record db { writes = left }) cs.states
