-- ===== src/Db/Progress.antt =====
-- Concurrent transactions do not block each other for good.
use mathlib.Core.List.{append_assoc}
use k_elda_archive.Base.{
  ℕ, suc, zero, ◌+◌, ◌≡◌, refl, sym, ap, subst, ◌∙◌, ◌≤◌, ◌<◌, ◌⊎◌, inl, inr, List, [], ◌∷◌, ◌++◌,
  All, arith, ◌==◌, Bool-cases, ==→eq,
}
use k_elda_archive.Db.TableType.{TableType, TableType-discrete, rank}
use k_elda_archive.Db.Locks.{
  Phase, locking, running, unlocking, Thread, count, holders, Move, lock, begin, finish, unlock,
  Step, at, Reach, IsDone,
}
use k_elda_archive.Db.LockLaws.{Above, InOrder, IsOrdered, Inv, Reach-Inv, rank-le, All-middle}

-- A transaction of the list.
record Among (s : List Thread) : Type 0 where
  before : List Thread
  after : List Thread
  thread : Thread
  split : s ≡ before ++ thread ∷ after

abbrev further : (u : Thread) (s : List Thread) → Among s → Among (u ∷ s)
further u s m = record {
  before = u ∷ m.before;
  after = m.after;
  thread = m.thread;
  split = ap (◌∷◌ u) m.split;
}

-- Who holds a lock.
holder :
    (x : TableType) (s : List Thread)
    → 0 < holders x s
    → (m : Among s) × (0 < count x m.thread.held)
holder x [] h = absurd (omega arith)
holder x (t ∷ s) h = elim (Bool-cases (count x t.held == 0)) [
  | inl none_here ↦
      let (m, held) = holder x s (omega (arith, h, ==→eq _ _ none_here)) in (further t s m, held)
  | inr here ↦ (record { before = []; after = s; thread = t; split = refl }, ground arith)
]

held-Above :
    (x : TableType) (want held : List TableType)
    → All (λ h. Above h want) held
    → 0 < count x held
    → Above x want
held-Above x want [] a h = absurd (omega arith)
held-Above x want (y ∷ held) a h = elim (TableType-discrete x y) [
  | yes p ↦ subst (λ z. Above z want) (sym p) a.0
  | no n ↦ held-Above x want held a.1 (ground arith)
]

abbrev Next : List Thread → Type 0
Next s = (s' : List Thread) × Step s s'

move : (s : List Thread) (m : Among s) (t' : Thread) → Move s m.thread t' → Next s
move s m t' mv = (m.before ++ t' ∷ m.after, at m.before m.after m.thread t' m.split refl mv)

-- The holder of a table can go on, unless it waits for a table further up.
holder_moves :
    (s : List Thread) (v : Inv s) (x : TableType) (o : Among s) (p : Phase)
    → o.thread.phase ≡ p
    → 0 < count x o.thread.held
    → ((y : TableType) (ys : List TableType)
        → o.thread.phase ≡ locking (y ∷ ys)
        → rank x < rank y
        → Next s)
    → Next s
holder_moves s v x o (locking []) f held up = move s o _ (begin f refl)
holder_moves s v x o (locking (y ∷ ys)) f held up =
    let ordered =
      All-middle IsOrdered o.before o.thread o.after (subst (All IsOrdered) o.split v.ordered) in
    let above = subst (λ q. InOrder q o.thread.held) f ordered in
    up y ys f (held-Above x (y ∷ ys) o.thread.held above.1 held).0
holder_moves s v x o running f held up = move s o _ (finish f refl)
holder_moves s v x o unlocking f held up = release o.thread.held refl
  where
    release : (hs : List TableType) → o.thread.held ≡ hs → Next s
    release [] e = absurd (omega (arith, held, ap (count x) e))
    release (y ∷ hs) e = move s o _ (unlock y [] hs f e refl)

-- A transaction that waits can go on, or else the one that holds its table can, or the one that that
-- one waits for.
waiting :
    (n : ℕ) (s : List Thread) (v : Inv s) (m : Among s) (x : TableType) (xs : List TableType)
    → m.thread.phase ≡ locking (x ∷ xs)
    → 10 ≤ rank x + n
    → Next s
waiting zero s v m x xs e h = absurd (omega (arith, rank-le x))
waiting (suc n) s v m x xs e h = elim (Bool-cases (holders x s == 0)) [
  | inl free ↦ move s m _ (lock x xs e (==→eq _ _ free) refl)
  | inr taken ↦
      let (o, held) = holder x s (ground arith) in
      holder_moves s v x o o.thread.phase refl held
        (λ y ys f above. waiting n s v o y ys f (omega arith))
]

-- A transaction that is not done can go on, or another one can.
undone :
    (s : List Thread) (v : Inv s) (m : Among s) (p : Phase)
    → m.thread.phase ≡ p
    → Next s ⊎ IsDone m.thread
undone s v m (locking []) e = inl (move s m _ (begin e refl))
undone s v m (locking (x ∷ xs)) e = inl (waiting 10 s v m x xs e (omega arith))
undone s v m running e = inl (move s m _ (finish e refl))
undone s v m unlocking e = rest m.thread.held refl
  where
    rest : (hs : List TableType) → m.thread.held ≡ hs → Next s ⊎ IsDone m.thread
    rest [] f = inr (e, f)
    rest (y ∷ hs) f = inl (move s m _ (unlock y [] hs e f refl))

go_on :
    (s : List Thread) (v : Inv s) (done rest : List Thread)
    → s ≡ done ++ rest
    → Next s ⊎ All IsDone rest
go_on s v done [] e = inr tt
go_on s v done (t ∷ rest) e =
    elim (undone s v (record { before = done; after = rest; thread = t; split = e }) t.phase refl) [
      | inl next ↦ inl next
      | inr here ↦
          elim (go_on s v (done ++ t ∷ []) rest (e ∙ sym (append_assoc done (t ∷ []) rest))) [
            | inl next ↦ inl next
            | inr others ↦ inr (here, others)
          ]
    ]

-- Of any transactions over any tables, in any state that they reach by locking their tables in the
-- order of their names, running and unlocking, all are done, or one of them can take a step.
pub no_deadlock :
    (txns : List (List TableType)) (s : List Thread)
    → Reach txns s
    → ((s' : List Thread) × Step s s') ⊎ All IsDone s
no_deadlock txns s r = go_on s (Reach-Inv r) [] s refl
