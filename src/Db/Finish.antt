-- ===== src/Db/Finish.antt =====
-- db/db.go: concurrent transactions come to an end.
use k_elda_archive.Base.{
  ℕ, suc, zero, ◌+◌, ◌*◌, ◌≡◌, refl, ap, ◌≤◌, ◌<◌, inl, inr, List, [], ◌∷◌, ◌++◌, All, map, has,
  insert_key, arith, length, length-append, Bool-cases,
}
use k_elda_archive.Db.TableType.{TableType, TableType-discrete}
use k_elda_archive.Db.Locks.{
  Phase, locking, running, unlocking, Thread, Move, lock, begin, finish, unlock, Step, at, Reach,
  IsDone, start, later, to_run, insert_table, sort_tables, txn_tables,
}
use k_elda_archive.Db.Progress.{no_deadlock}

-- The steps that a transaction has left at most.
abbrev pub left : Phase → ℕ → ℕ
left (locking want) held = 2 * length want + held + 2
left running held = held + 1
left unlocking held = held

abbrev pub steps_left : List Thread → ℕ
steps_left [] = 0
steps_left (t ∷ s) = left t.phase (length t.held) + steps_left s

steps_left-append : (s u : List Thread) → steps_left (s ++ u) ≡ steps_left s + steps_left u
steps_left-append [] u = omega arith
steps_left-append (t ∷ s) u = omega (arith, steps_left-append s u)

Move-left :
    (all : List Thread) (t t' : Thread)
    → Move all t t'
    → left t'.phase (length t'.held) < left t.phase (length t.held)
Move-left all t t' (lock x xs e free e') = rw (e', e) (omega arith)
Move-left all t t' (begin e e') = rw (e', e) (omega arith)
Move-left all t t' (finish e e') = rw (e', e) (omega arith)
Move-left all t t' (unlock x before after e f e') =
    rw (e', e, f, length-append before after, length-append before (x ∷ after)) (omega arith)

Step-steps_left : (s s' : List Thread) → Step s s' → steps_left s' < steps_left s
Step-steps_left s s' (at before after t t' e e' m) = omega (
  arith,
  ap steps_left e,
  ap steps_left e',
  steps_left-append before (t ∷ after),
  steps_left-append before (t' ∷ after),
  Move-left s t t' m,
)

-- A run of steps, with their number.
pub data Run : ℕ → List Thread → List Thread → Type 0 where
  rest : {s : List Thread} → Run 0 s s
  one_more : {n : ℕ} {s s' s'' : List Thread} → Step s s' → Run n s' s'' → Run (suc n) s s''

Run-steps_left : {n : ℕ} {s s' : List Thread} → Run n s s' → n + steps_left s' ≤ steps_left s
Run-steps_left rest = omega arith
Run-steps_left (one_more {s} {s'} st r) = omega (arith, Step-steps_left s s' st, Run-steps_left r)

-- A run to the end of all transactions.
abbrev pub Finish : List Thread → Type 0
Finish s = (n : ℕ) × (s' : List Thread) × Run n s s' × All IsDone s'

after : (s : List Thread) (p : (s' : List Thread) × Step s s') → Finish p.0 → Finish s
after s (s', st) (n, s'', r, d) = (suc n, s'', one_more st r, d)

finish_within :
    (fuel : ℕ) (txns : List (List TableType)) (s : List Thread)
    → Reach txns s
    → steps_left s ≤ fuel
    → Finish s
finish_within zero txns s r h = elim (no_deadlock txns s r) [
  | inl p ↦ absurd (omega (arith, h, Step-steps_left s p.0 p.1))
  | inr d ↦ (0, s, rest, d)
]
finish_within (suc fuel) txns s r h = elim (no_deadlock txns s r) [
  | inl p ↦
      after s p
        (finish_within fuel txns p.0 (later r p.1) (omega (arith, h, Step-steps_left s p.0 p.1)))
  | inr d ↦ (0, s, rest, d)
]

Run-Reach :
    {n : ℕ} {txns : List (List TableType)} {s s' : List Thread}
    → Reach txns s
    → Run n s s'
    → Reach txns s'
Run-Reach r rest = r
Run-Reach r (one_more st run) = Run-Reach (later r st) run

length-insert_table :
    (t : TableType) (us : List TableType) → length (insert_table t us) ≡ suc (length us)
unfolding insert_table
length-insert_table t [] = refl
length-insert_table t (u ∷ us) = ground (arith, length-insert_table t us)

length-sort_tables : (ts : List TableType) → length (sort_tables ts) ≡ length ts
unfolding sort_tables
length-sort_tables [] = refl
length-sort_tables (t ∷ ts) =
    omega (arith, length-insert_table t (sort_tables ts), length-sort_tables ts)

length-txn_tables :
    (ts keys : List TableType) → length (txn_tables ts keys) ≤ length ts + length keys
unfolding txn_tables insert_key
length-txn_tables [] keys = omega arith
length-txn_tables (t ∷ ts) keys = elim (Bool-cases (has TableType-discrete t keys)) [
  | inl h ↦ rw h (omega (arith, length-txn_tables ts keys))
  | inr h ↦ rw h (omega (arith, length-txn_tables ts (t ∷ keys)))
]

-- Each table is locked and unlocked, and each transaction begins and finishes.
abbrev pub longest : List (List TableType) → ℕ
longest [] = 0
longest (ts ∷ txns) = 2 * length ts + 2 + longest txns

start-steps_left : (txns : List (List TableType)) → steps_left (map to_run txns) ≤ longest txns
start-steps_left [] = omega arith
start-steps_left (ts ∷ txns) =
    omega
      (arith, length-sort_tables (txn_tables ts []), length-txn_tables ts [], start-steps_left txns)

-- Every run of concurrent transactions has at most two steps for each table that a transaction
-- names and two for each transaction, and from where it stands the transactions can go on until all
-- have run and unlocked their tables.
pub Run-Finish :
    (txns : List (List TableType)) (n : ℕ) (s : List Thread)
    → Run n (map to_run txns) s
    → (n ≤ longest txns) × Finish s
Run-Finish txns n s r = (
  omega (arith, Run-steps_left r, start-steps_left txns),
  finish_within (steps_left s) txns s (Run-Reach start r) (omega arith),
)
