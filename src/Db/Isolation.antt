-- ===== src/Db/Isolation.antt =====
-- db/db.go: transactions that run at once have no table in common.
use k_elda_archive.Base.{
  ℕ, ◌+◌, ◌≡◌, ◌≤◌, ◌<◌, refl, sym, subst, ◌∙◌, Bool, true, false, List, [], ◌∷◌, ◌++◌, map, has,
  insert_key, arith, Bool-cases, inl, inr, ◌&&◌, if◌then◌else◌,
}
use k_elda_archive.Db.TableType.{TableType, TableType-discrete, less}
use k_elda_archive.Db.Locks.{
  txn_tables, insert_table, sort_tables, Phase, locking, running, unlocking, Thread, to_run, count,
  holders, Move, lock, begin, finish, unlock, at, Reach, start, later,
}
use k_elda_archive.Db.LockLaws.{Reach-Inv}

-- What a transaction over the tables holds or still waits for, until it unlocks.
abbrev Has : List TableType → Phase → List TableType → Type 0
Has tables (locking want) held =
    (x : TableType) → has TableType-discrete x tables ≡ true → 0 < count x held + count x want
Has tables running held =
    (x : TableType) → has TableType-discrete x tables ≡ true → 0 < count x held
Has tables unlocking held = Unit

-- Each transaction with its tables.
abbrev Each : List (List TableType) → List Thread → Type 0
Each [] [] = Unit
Each [] (t ∷ s) = ⊥
Each (ts ∷ txns) [] = ⊥
Each (ts ∷ txns) (t ∷ s) = Has ts t.phase t.held × Each txns s

-- How many of the transactions run and have the table.
abbrev is_running : Phase → Bool
is_running (locking want) = false
is_running running = true
is_running unlocking = false

abbrev pub runners : TableType → List (List TableType) → List Thread → ℕ
runners x [] s = 0
runners x (ts ∷ txns) [] = 0
runners x (ts ∷ txns) (t ∷ s) =
    (if is_running t.phase && has TableType-discrete x ts then 1 else 0) + runners x txns s

count-insert :
    (x t : TableType) (us : List TableType) → count x (insert_table t us) ≡ count x (t ∷ us)
unfolding insert_table
count-insert x t [] = refl
count-insert x t (u ∷ us) = elim (Bool-cases (less u t)) [
  | inl h ↦ rw h (ground (arith, count-insert x t us))
  | inr h ↦ rw h refl
]

count-sort : (x : TableType) (ts : List TableType) → count x (sort_tables ts) ≡ count x ts
unfolding sort_tables
count-sort x [] = refl
count-sort x (t ∷ ts) = count-insert x t (sort_tables ts) ∙ ground (arith, count-sort x ts)

count-key :
    (x t : TableType) (keys : List TableType)
    → 0 < count x keys
    → 0 < count x (insert_key TableType-discrete t keys)
unfolding insert_key
count-key x t keys h = ground arith

count-has :
    (x : TableType) (keys : List TableType)
    → has TableType-discrete x keys ≡ true
    → 0 < count x keys
unfolding has
count-has x [] h = cc h
count-has x (k ∷ keys) h = ground (arith, count-has x keys, h)

count-new :
    (x : TableType) (keys : List TableType) → 0 < count x (insert_key TableType-discrete x keys)
unfolding insert_key
count-new x keys = elim (Bool-cases (has TableType-discrete x keys)) [
  | inl h ↦ rw h (count-has x keys h)
  | inr h ↦ rw h (ground arith)
]

count-txn_old :
    (x : TableType) (ts keys : List TableType) → 0 < count x keys → 0 < count x (txn_tables ts keys)
unfolding txn_tables
count-txn_old x [] keys h = h
count-txn_old x (t ∷ ts) keys h = count-txn_old x ts _ (count-key x t keys h)

count-txn :
    (x : TableType) (ts keys : List TableType)
    → has TableType-discrete x ts ≡ true
    → 0 < count x (txn_tables ts keys)
unfolding txn_tables has
count-txn x [] keys h = cc h
count-txn x (t ∷ ts) keys h = elim (TableType-discrete x t) [
  | yes p ↦
      count-txn_old x ts _
        (subst (λ u. 0 < count x (insert_key TableType-discrete u keys)) p (count-new x keys))
  | no n ↦ count-txn x ts _ (ground arith)
]

start-Each : (txns : List (List TableType)) → Each txns (map to_run txns)
start-Each [] = tt
start-Each (ts ∷ txns) =
    ((λ x h. omega (arith, count-txn x ts [] h, count-sort x (txn_tables ts []))), start-Each txns)

Move-Has :
    (all : List Thread) (t t' : Thread) (ts : List TableType)
    → Move all t t'
    → Has ts t.phase t.held
    → Has ts t'.phase t'.held
Move-Has all t t' ts (lock x xs e free e') h =
    let waited = subst (λ p. Has ts p t.held) e h in
    subst (λ u. Has ts u.phase u.held) (sym e') (λ y k. passed y (waited y k))
  where
    passed :
        (y : TableType)
        → 0 < count y t.held + count y (x ∷ xs)
        → 0 < count y (x ∷ t.held) + count y xs
    passed y k = ground arith
Move-Has all t t' ts (begin e e') h =
    let waited = subst (λ p. Has ts p t.held) e h in
    subst (λ u. Has ts u.phase u.held) (sym e') (λ y k. omega (arith, waited y k))
Move-Has all t t' ts (finish e e') h = subst (λ u. Has ts u.phase u.held) (sym e') tt
Move-Has all t t' ts (unlock x before after e f e') h =
    subst (λ u. Has ts u.phase u.held) (sym e') tt

Each-replace :
    (all : List Thread) (txns : List (List TableType)) (before : List Thread) (t t' : Thread)
    (after : List Thread)
    → Move all t t'
    → Each txns (before ++ t ∷ after)
    → Each txns (before ++ t' ∷ after)
Each-replace all [] [] t t' after m v = absurd v
Each-replace all [] (u ∷ before) t t' after m v = absurd v
Each-replace all (ts ∷ txns) [] t t' after m v = (Move-Has all t t' ts m v.0, v.1)
Each-replace all (ts ∷ txns) (u ∷ before) t t' after m v =
    (v.0, Each-replace all txns before t t' after m v.1)

Reach-Each : {txns : List (List TableType)} {s : List Thread} → Reach txns s → Each txns s
Reach-Each {txns} start = start-Each txns
Reach-Each {txns} (later {s} r (at before after t t' e e' m)) =
    subst (Each txns) (sym e')
      (Each-replace s txns before t t' after m (subst (Each txns) e (Reach-Each r)))

running-count :
    (x : TableType) (ts held : List TableType) (p : Phase)
    → Has ts p held
    → (if is_running p && has TableType-discrete x ts then 1 else 0) ≤ count x held
running-count x ts held (locking want) h = omega arith
running-count x ts held running h = elim (Bool-cases (has TableType-discrete x ts)) [
  | inl e ↦ rw e (omega (arith, h x e))
  | inr e ↦ rw e (omega arith)
]
running-count x ts held unlocking h = omega arith

runners-holders :
    (x : TableType) (txns : List (List TableType)) (s : List Thread)
    → Each txns s
    → runners x txns s ≤ holders x s
runners-holders x [] s v = omega arith
runners-holders x (ts ∷ txns) [] v = omega arith
runners-holders x (ts ∷ txns) (t ∷ s) v =
    omega (arith, running-count x ts t.held t.phase v.0, runners-holders x txns s v.1)

-- In any state that transactions over the given tables reach, at most one of those that have a
-- table is running, for every table.
pub isolation :
    (txns : List (List TableType)) (s : List Thread) (x : TableType)
    → Reach txns s
    → runners x txns s ≤ 1
isolation txns s x r =
    omega (arith, runners-holders x txns s (Reach-Each r), (Reach-Inv r).single x)
