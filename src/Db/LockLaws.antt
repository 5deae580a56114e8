-- ===== src/Db/LockLaws.antt =====
-- What the steps of the transactions keep: each waits only for tables above those that it holds, and
-- no table is locked twice.
use k_elda_archive.Base.{
  ℕ, ◌+◌, ◌≡◌, refl, sym, ap, subst, ◌∙◌, ◌≤◌, ◌<◌, true, false, List, [], ◌∷◌, ◌++◌, map, All,
  arith, Bool-cases, inl, inr, if◌then◌else◌, has, insert_key, Distinct, ◌≢◌, ◌==◌,
}
use k_elda_archive.Db.TableType.{
  TableType, TableType-discrete, less, rank, less-rank, blueprint_table, connection_table,
  container_table, etcd_table, hostname_table, image_table, load_balancer_table, machine_table,
  minion_table, placement_table,
}
use k_elda_archive.Db.Locks.{
  txn_tables, insert_table, sort_tables, Phase, locking, running, unlocking, Thread, to_run, count,
  holders, Move, lock, begin, finish, unlock, Step, at, Reach, start, later,
}

-- All tables of a list are above one.
abbrev pub Above : TableType → List TableType → Type 0
Above h = All (λ w. rank h < rank w)

abbrev pub Ascending : List TableType → Type 0
Ascending [] = Unit
Ascending (x ∷ xs) = Above x xs × Ascending xs

-- What a transaction still waits for is above all that it holds.
abbrev pub InOrder : Phase → List TableType → Type 0
InOrder (locking want) held = Ascending want × All (λ h. Above h want) held
InOrder running held = Unit
InOrder unlocking held = Unit

abbrev pub IsOrdered : Thread → Type 0
IsOrdered t = InOrder t.phase t.held

at_rank : ℕ → TableType
at_rank n =
    if n == 0
    then blueprint_table
    else (if n == 1
        then connection_table
        else (if n == 2
            then container_table
            else (if n == 3
                then etcd_table
                else (if n == 4
                    then hostname_table
                    else (if n == 5
                        then image_table
                        else (if n == 6
                            then load_balancer_table
                            else (if n == 7
                                then machine_table
                                else (if n == 8 then minion_table else placement_table))))))))

at_rank-rank : (t : TableType) → at_rank (rank t) ≡ t
unfolding at_rank
at_rank-rank blueprint_table = refl
at_rank-rank machine_table = refl
at_rank-rank _ = refl

rank-injective : (a b : TableType) → rank a ≡ rank b → a ≡ b
rank-injective a b h = sym (at_rank-rank a) ∙ ap at_rank h ∙ at_rank-rank b

pub rank-le : (a : TableType) → rank a ≤ 9
rank-le blueprint_table = omega arith
rank-le _ = omega arith

insert-All :
    (P : TableType → Type 0) (t : TableType) (us : List TableType)
    → P t
    → All P us
    → All P (insert_table t us)
unfolding insert_table
insert-All P t [] h a = (h, tt)
insert-All P t (u ∷ us) h a = ground (arith, insert-All P t us h a.1)

others_differ :
    (t : TableType) (us : List TableType)
    → has TableType-discrete t us ≡ false
    → All (λ u. rank t ≢ rank u) us
unfolding has
others_differ t [] h = tt
others_differ t (u ∷ us) h =
    ((λ e. differ (rank-injective t u e)), others_differ t us (ground arith))
  where
    differ : t ≡ u → ⊥
    differ e = ground arith

Above-trans : (a b : TableType) (us : List TableType) → rank a < rank b → Above b us → Above a us
Above-trans a b [] h u = tt
Above-trans a b (v ∷ us) h u = (omega arith, Above-trans a b us h u.1)

insert-Ascending :
    (t : TableType) (us : List TableType)
    → All (λ u. rank t ≢ rank u) us
    → Ascending us
    → Ascending (insert_table t us)
unfolding insert_table
insert-Ascending t [] d a = (tt, tt)
insert-Ascending t (u ∷ us) d a = elim (Bool-cases (less u t)) [
  | inl below ↦
      rw below
        (insert-All (λ w. rank u < rank w) t us (lower below) a.0, insert-Ascending t us d.1 a.1)
  | inr above ↦ rw above ((upper above, Above-trans t u us (upper above) a.0), a)
]
  where
    lower : less u t ≡ true → rank u < rank t
    lower h = ground (arith, less-rank u t)

    upper : less u t ≡ false → rank t < rank u
    upper h = ground (arith, less-rank u t, d.0)

sort-Ascending : (ts : List TableType) → Distinct TableType-discrete ts → Ascending (sort_tables ts)
unfolding sort_tables
sort-Ascending [] d = tt
sort-Ascending (t ∷ ts) d =
    insert-Ascending t (sort_tables ts) (sort-All ts (others_differ t ts d.0))
      (sort-Ascending ts d.1)
  where
    sort-All :
        (us : List TableType)
        → All (λ u. rank t ≢ rank u) us
        → All (λ u. rank t ≢ rank u) (sort_tables us)
    sort-All [] a = tt
    sort-All (u ∷ us) a = insert-All _ u (sort_tables us) a.0 (sort-All us a.1)

txn_tables-Distinct :
    (ts keys : List TableType)
    → Distinct TableType-discrete keys
    → Distinct TableType-discrete (txn_tables ts keys)
unfolding txn_tables insert_key
txn_tables-Distinct [] keys d = d
txn_tables-Distinct (t ∷ ts) keys d = elim (Bool-cases (has TableType-discrete t keys)) [
  | inl old ↦ rw old (txn_tables-Distinct ts keys d)
  | inr new ↦ rw new (txn_tables-Distinct ts (t ∷ keys) (new, d))
]

pub to_run-IsOrdered : (tables : List TableType) → IsOrdered (to_run tables)
to_run-IsOrdered tables = (sort-Ascending _ (txn_tables-Distinct tables [] tt), tt)

count-append :
    (x : TableType) (xs ys : List TableType) → count x (xs ++ ys) ≡ count x xs + count x ys
count-append x [] ys = omega arith
count-append x (y ∷ xs) ys = ground (arith, count-append x xs ys)

pub holders-append :
    (x : TableType) (s u : List Thread) → holders x (s ++ u) ≡ holders x s + holders x u
holders-append x [] u = omega arith
holders-append x (t ∷ s) u = omega (arith, holders-append x s u)

-- One transaction among the others.
module _ (P : Thread → Type 0) where
  pub All-middle :
      (before : List Thread) (t : Thread) (after : List Thread) → All P (before ++ t ∷ after) → P t
  All-middle [] t after a = a.0
  All-middle (u ∷ before) t after a = All-middle before t after a.1

  All-replace :
      (before : List Thread) (t t' : Thread) (after : List Thread)
      → All P (before ++ t ∷ after)
      → P t'
      → All P (before ++ t' ∷ after)
  All-replace [] t t' after a h = (h, a.1)
  All-replace (u ∷ before) t t' after a h = (a.0, All-replace before t t' after a.1 h)

pub record Inv (s : List Thread) : Type 0 where
  pub ordered : All IsOrdered s
  pub single : (x : TableType) → holders x s ≤ 1

Above-All :
    (x : TableType) (xs held : List TableType)
    → All (λ h. Above h (x ∷ xs)) held
    → All (λ h. Above h xs) held
Above-All x xs [] a = tt
Above-All x xs (h ∷ held) a = (a.0.1, Above-All x xs held a.1)

Move-IsOrdered : (all : List Thread) (t t' : Thread) → Move all t t' → IsOrdered t → IsOrdered t'
Move-IsOrdered all t t' (lock x xs e free e') o =
    let o' = subst (λ p. InOrder p t.held) e o in
    subst IsOrdered (sym e') (o'.0.1, (o'.0.0, Above-All x xs t.held o'.1))
Move-IsOrdered all t t' (begin e e') o = subst IsOrdered (sym e') tt
Move-IsOrdered all t t' (finish e e') o = subst IsOrdered (sym e') tt
Move-IsOrdered all t t' (unlock x before after e f e') o = subst IsOrdered (sym e') tt

-- A step leaves at most one lock of a table, where there was at most one.
Move-count :
    (all : List Thread) (t t' : Thread) (rest : ℕ) (y : TableType)
    → Move all t t'
    → holders y all ≡ rest + count y t.held
    → holders y all ≤ 1
    → rest + count y t'.held ≤ 1
Move-count all t t' rest y (lock x xs e free e') h l = elim (TableType-discrete y x) [
  | yes p ↦ rw e' (ground (arith, subst (λ z. holders z all ≡ 0) (sym p) free))
  | no n ↦ rw e' (ground arith)
]
Move-count all t t' rest y (begin e e') h l = rw e' (omega arith)
Move-count all t t' rest y (finish e e') h l = rw e' (omega arith)
Move-count all t t' rest y (unlock x before after e f e') h l =
    rw (e', count-append y before after)
      (ground (arith, count-append y before (x ∷ after), ap (count y) f))

pub Step-Inv : {s s' : List Thread} → Step s s' → Inv s → Inv s'
Step-Inv {s} {s'} (at before after t t' e e' m) v = record {
  ordered =
      let o = subst (All IsOrdered) e v.ordered in
      subst (All IsOrdered) (sym e') (
        All-replace IsOrdered before t t' after o
          (Move-IsOrdered s t t' m (All-middle IsOrdered before t after o)));
  single = λ y.
      let rest : ℕ = holders y before + holders y after in
      omega (
        arith,
        ap (holders y) e',
        holders-append y before (t' ∷ after),
        Move-count s t t' rest y m
            (omega (arith, ap (holders y) e, holders-append y before (t ∷ after))) (v.single y),
      );
}

start-holders : (x : TableType) (txns : List (List TableType)) → holders x (map to_run txns) ≡ 0
start-holders x [] = refl
start-holders x (ts ∷ txns) = omega (arith, start-holders x txns)

start-IsOrdered : (txns : List (List TableType)) → All IsOrdered (map to_run txns)
start-IsOrdered [] = tt
start-IsOrdered (ts ∷ txns) = (to_run-IsOrdered ts, start-IsOrdered txns)

pub Reach-Inv : {txns : List (List TableType)} {s : List Thread} → Reach txns s → Inv s
Reach-Inv {txns} start = record {
  ordered = start-IsOrdered txns;
  single = λ x. omega (arith, start-holders x txns);
}
Reach-Inv (later r st) = Step-Inv st (Reach-Inv r)
