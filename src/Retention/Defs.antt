-- ===== src/Retention/Defs.antt =====
-- The checkpoint database, and `_delete_thread_in_batches` with what each of its commits leaves. Of
-- the rows that a batch's subquery may choose, SQLite is taken to choose the first.
use assist.Base.{
  ℕ, zero, suc, String, Option, none, some, List, [], ◌∷◌, ◌++◌, same, ltb, if◌then◌else◌,
}

pub record Row : Type 0 where
  pub thread_id : String
  pub content : String

pub record Database : Type 0 where
  pub writes : List Row
  pub checkpoints : List Row

-- _DELETE_BATCH
abbrev pub delete_batch : ℕ
delete_batch = 2000

-- The DELETE: how many rows it takes, and the table after it.
unfoldable pub delete_some : String → ℕ → List Row → ℕ × List Row
delete_some tid zero rows = (0, rows)
delete_some tid (suc n) [] = (0, [])
delete_some tid (suc n) (r ∷ rows) =
    let taken = delete_some tid n rows in
    let left = delete_some tid (suc n) rows in
    if same r.thread_id tid then (suc taken.0, taken.1) else (left.0, r ∷ left.1)

abbrev pub then_state : List Row → Option (List (List Row)) → Option (List (List Row))
then_state rows none = none
then_state rows (some states) = some (rows ∷ states)

-- The loop on one table: the table after each commit, or none if the fuel gives out.
unfoldable pub clear_table : ℕ → ℕ → String → List Row → Option (List (List Row))
unfolding delete_some
clear_table zero batch tid rows = none
clear_table (suc fuel) batch tid rows =
    let o = delete_some tid batch rows in
    let rest = clear_table fuel batch tid o.1 in
    if ltb o.0 batch then some (o.1 ∷ []) else then_state o.1 rest

-- The last of the tables, if there is one.
abbrev pub last_state : List Row → List (List Row) → List Row
last_state rows [] = rows
last_state rows (s ∷ states) = last_state s states

abbrev pub with_writes : Database → List (List Row) → List Database
with_writes db [] = []
with_writes db (rows ∷ states) = record db { writes = rows } ∷ with_writes db states

abbrev pub with_checkpoints : Database → List (List Row) → List Database
with_checkpoints db [] = []
with_checkpoints db (rows ∷ states) = record db { checkpoints = rows } ∷ with_checkpoints db states

abbrev pub in_order :
    Database → Option (List (List Row)) → Option (List (List Row)) → Option (List Database)
in_order db (some ws) (some cs) =
    some (with_writes db ws ++ with_checkpoints (record db { writes = last_state db.writes ws }) cs)
in_order db none cs = none
in_order db (some ws) none = none

-- _delete_thread_in_batches: the database after each commit
unfoldable pub delete_thread_in_batches : ℕ → ℕ → String → Database → Option (List Database)
unfolding clear_table
delete_thread_in_batches fuel batch tid db =
    in_order db (clear_table fuel batch tid db.writes) (clear_table fuel batch tid db.checkpoints)
