-- ===== src/Db/Locks.antt =====
-- db/db.go: the locks that transactions take, as a step relation. Any number of transactions run at
-- once; each locks its tables one after the other in the order of their names, runs, and unlocks
-- them in any order. `sync.Mutex` is modelled by its documentation: a locked mutex cannot be locked.
use k_elda_archive.Base.{ℕ, suc, ◌+◌, ◌≡◌, List, [], ◌∷◌, ◌++◌, map, if◌then◌else◌, ite, insert_key}
use k_elda_archive.Db.TableType.{TableType, TableType-discrete, less}

-- The keys of the map that `Txn` makes.
unfoldable pub txn_tables : List TableType → List TableType → List TableType
unfolding insert_key TableType-discrete
txn_tables [] keys = keys
txn_tables (t ∷ ts) keys = txn_tables ts (insert_key TableType-discrete t keys)

unfoldable pub insert_table : TableType → List TableType → List TableType
unfolding less
insert_table t [] = t ∷ []
insert_table t (u ∷ us) = let rest = insert_table t us in if less u t then u ∷ rest else t ∷ u ∷ us

-- `sort.Sort` of the table types.
unfoldable pub sort_tables : List TableType → List TableType
unfolding insert_table
sort_tables [] = []
sort_tables (t ∷ ts) = insert_table t (sort_tables ts)

-- Where a transaction stands in `Run`.
pub data Phase : Type 0 where
  locking : (want : List TableType) → Phase  -- the loop of `lockTables`, with the tables to come
  running : Phase  -- in `do` and the alerts
  unlocking : Phase  -- the loop of `unlockTables`

pub record Thread : Type 0 where
  pub phase : Phase
  pub held : List TableType

-- A transaction before `Run`.
abbrev pub to_run : List TableType → Thread
to_run tables = record { phase = locking (sort_tables (txn_tables tables [])); held = [] }

-- How often a table stands in a list.
abbrev pub count : TableType → List TableType → ℕ
count x [] = 0
count x (y ∷ ys) = let rest = count x ys in ite (TableType-discrete x y) (suc rest) rest

-- How many locks of a table the transactions hold.
abbrev pub holders : TableType → List Thread → ℕ
holders x [] = 0
holders x (t ∷ ts) = count x t.held + holders x ts

-- One step of a transaction, among all of them.
pub data Move (all : List Thread) (t t' : Thread) : Type 0 where
  lock :
      (x : TableType) (xs : List TableType)
      → t.phase ≡ locking (x ∷ xs)
      → holders x all ≡ 0
      → t' ≡ record { phase = locking xs; held = x ∷ t.held }
      → Move all t t'
  begin : t.phase ≡ locking [] → t' ≡ record { phase = running; held = t.held } → Move all t t'
  finish : t.phase ≡ running → t' ≡ record { phase = unlocking; held = t.held } → Move all t t'
  unlock :
      (x : TableType) (before after : List TableType)
      → t.phase ≡ unlocking
      → t.held ≡ before ++ x ∷ after
      → t' ≡ record { phase = unlocking; held = before ++ after }
      → Move all t t'

pub data Step (s s' : List Thread) : Type 0 where
  at :
      (before after : List Thread) (t t' : Thread)
      → s ≡ before ++ t ∷ after
      → s' ≡ before ++ t' ∷ after
      → Move s t t'
      → Step s s'

-- The states that are reached from transactions over the given tables.
pub data Reach (txns : List (List TableType)) : List Thread → Type 0 where
  start : Reach txns (map to_run txns)
  later : {s s' : List Thread} → Reach txns s → Step s s' → Reach txns s'

-- All tables are unlocked.
abbrev pub IsDone : Thread → Type 0
IsDone t = (t.phase ≡ unlocking) × (t.held ≡ [])
