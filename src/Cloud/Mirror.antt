-- ===== src/Cloud/Mirror.antt =====
-- cloud/join.go: the machine table after `syncDBWithCloud`.
use mathlib.Core.List.{map-append, append_assoc, perm_append_comm, perm_middle}
use mathlib.Core.List.Perm
use k_elda_archive.Base.{
  ℕ, suc, ◌≡◌, refl, sym, ap, subst, ◌∙◌, String, Bool, true, not, List, [], ◌∷◌, ◌++◌, map, Perm,
  All, All-map, false, arith, values, keep, ok, ◌>>=◌, for_each, Bool-cases, inl, inr,
}
use k_elda_archive.Cloud.Join.{insert_missing, merged, commit_merged, sync_db_with_cloud}
use k_elda_archive.Cloud.Expected.{is_here, fits, score-fits, mirrored, fresh_rows}
use k_elda_archive.Join.Matched.{join-matched}
use k_elda_archive.Join.Maximal.{join-maximal}
use k_elda_archive.Cloud.Machines.{
  Cloud, same, in_cloud, select_machines, machine_score, score_in_place,
}
use k_elda_archive.Db.{Database}
use k_elda_archive.Db.Access.{select_from, insert_row, commit_row}
use k_elda_archive.Db.Rows.{Machine, unassigned}
use k_elda_archive.Db.Slots
use k_elda_archive.Db.Tables.{Table, select}
use k_elda_archive.Engine.Effects.{
  Leaves, Leaves-after, Leaves-map, Leaves-bind, Sound, remove_each-Leaves,
}
use k_elda_archive.Engine.Loops.{insert_each, commit_each, remove_each}
use k_elda_archive.Engine.Pairs.{new_pairs, insert_each-Inserted, commit_each-Leaves}
use k_elda_archive.Join.{Pair, Joined, lefts_of, rights_of}
use k_elda_archive.Join.Partial.{join_or_panic, join-total}
use k_elda_archive.Join.Partition.{join-perm}
use k_elda_archive.Join.Score.{join}

abbrev Machines : Type 0
Machines = List (Pair Machine Machine)

-- The machine is in the region of the controller.
abbrev pub InPlace : Cloud → Machine → Type 0
InPlace cld m = (m.provider ≡ cld.provider_name) × (m.region ≡ cld.region)

-- The rows of this region, and those of others.
abbrev pub inside : Cloud → Database → List Machine
inside cld db = keep (is_here cld) (values db.machines.rows)

abbrev pub outside : Cloud → Database → List Machine
outside cld db = keep (λ m. not (is_here cld m)) (values db.machines.rows)

-- The rows of this region are the provider's machines, one row for each: those of old rows that fit,
-- with what only the row knows, and new rows. A row is gone and a machine is new only where no two
-- of them fit. The rows of other regions are as they were.
pub record Mirrors (cld : Cloud) (cms : List Machine) (db : Database) (t : Table Machine)
    : Type 0 where
  pub pairs : Machines
  pub gone : List Machine
  pub arrived : List Machine
  pub all_rows : Perm (lefts_of pairs ++ gone) (inside cld db)
  pub all_listed : Perm (rights_of pairs ++ arrived) cms
  pub fitting : All (λ p. fits p.l p.r ≡ true) pairs
  pub no_more : All (λ row. All (λ m. fits row m ≡ false) arrived) gone
  pub rows :
      Perm (values t.rows) (outside cld db ++ (map mirrored pairs ++ fresh_rows db.cur_id arrived))

-- What the join by the score pairs, and what it leaves.
pub join-fitting :
    (lefts rights : List Machine)
    → All (λ p. fits p.l p.r ≡ true) (join score_in_place lefts rights).pairs
join-fitting lefts rights =
    All-map _ _ _ (λ p h. not_false _ (sym (score-fits p.l p.r) ∙ h))
      (join-matched score_in_place lefts rights)
  where
    not_false : (b : Bool) → not b ≡ false → b ≡ true
    not_false b h = ground (arith, h)

pub join-no_more :
    (lefts rights : List Machine)
    → All
        (λ l. All (λ r. fits l r ≡ false) (join score_in_place lefts rights).lonely_rights)
        (join score_in_place lefts rights).lonely_lefts
join-no_more lefts rights =
    All-map _ _ _ (λ l a. All-map _ _ _ (λ r h. not_true _ (sym (score-fits l r) ∙ h)) a)
      (join-maximal score_in_place lefts rights)
  where
    not_true : (b : Bool) → not b ≡ true → b ≡ false
    not_true b h = ground (arith, h)

pub keep-split :
    {A : Type 0} (p : A → Bool) (xs : List A) → Perm xs (keep (λ x. not (p x)) xs ++ keep p xs)
unfolding keep
keep-split p [] = Perm.nil
keep-split p (x ∷ xs) = elim (Bool-cases (p x)) [
  | inl e ↦
      rw e (Perm.trans (Perm.cons x (keep-split p xs)) (Perm.symm (perm_middle _ (keep p xs))))
  | inr e ↦ rw e (Perm.cons x (keep-split p xs))
]

pub same→eq : (a b : String) → same a b ≡ true → a ≡ b
same→eq a b h = ground arith

pub eq→same : (a b : String) → a ≡ b → same a b ≡ true
eq→same a b h = ground arith

in_cloud→InPlace : (cld : Cloud) (m : Machine) → in_cloud cld m ≡ true → InPlace cld m
unfolding in_cloud
in_cloud→InPlace cld m h = elim (Bool-cases (same m.provider cld.provider_name)) [
  | inl p ↦ (same→eq _ _ p, same→eq _ _ (rw p at h))
  | inr n ↦ cc (h, n)
]

pub keep-All : (cld : Cloud) (ms : List Machine) → All (InPlace cld) (keep (in_cloud cld) ms)
unfolding keep
keep-All cld [] = tt
keep-All cld (m ∷ ms) = elim (Bool-cases (in_cloud cld m)) [
  | inl e ↦ rw e (in_cloud→InPlace cld m e, keep-All cld ms)
  | inr e ↦ rw e (keep-All cld ms)
]

-- Within a region the score does not panic.
pub score-total :
    (cld : Cloud) (l r : Machine)
    → InPlace cld l
    → InPlace cld r
    → machine_score l r ≡ ok (score_in_place l r)
unfolding machine_score
score-total cld l r p q =
    rw (eq→same l.provider r.provider (p.0 ∙ sym q.0), eq→same l.region r.region (p.1 ∙ sym q.1))
      refl

abbrev flip : Pair Machine Machine → Pair Machine Machine
flip p = record { l = p.r; r = p.l }

map-flip-flip : (ps : Machines) → map flip (map flip ps) ≡ ps
map-flip-flip [] = refl
map-flip-flip (p ∷ ps) = ap (◌∷◌ p) (map-flip-flip ps)

abbrev merged_flip : Pair Machine Machine → Machine
merged_flip q = merged (flip q)

merged_flip-id : (q : Pair Machine Machine) → (merged_flip q).id ≡ q.r.id
unfolding merged
merged_flip-id q = refl

rights-flip : (ps : Machines) → rights_of (map flip ps) ≡ lefts_of ps
rights-flip [] = refl
rights-flip (p ∷ ps) = ap (◌∷◌ p.l) (rights-flip ps)

merged_flip-old : (ps : Machines) → map merged_flip (map flip ps) ≡ map mirrored ps
unfolding merged
merged_flip-old [] = refl
merged_flip-old (p ∷ ps) = ap (◌∷◌ (mirrored p)) (merged_flip-old ps)

merged_flip-new :
    (n : ℕ) (xs : List Machine) → map merged_flip (new_pairs Slots.machines n xs) ≡ fresh_rows n xs
unfolding merged
merged_flip-new n [] = refl
merged_flip-new n (x ∷ xs) = λ i. first i ∷ merged_flip-new (suc n) xs i
  where
    first :
        merged_flip (record { l = x; r = Slots.machines.row.zero_row (suc n) })
        ≡ record x { id = suc n; ssh_keys = []; status = ""; role = unassigned; connected = false }
    first = refl

-- The loop that inserts is that of the updates, with the pairs the other way round.
insert_missing-flip :
    (cms : List Machine) (pairs : Machines) (db : Database)
    → insert_missing cms (map flip pairs) db ≡ (
      map flip (insert_each Slots.machines cms pairs db).0,
      (insert_each Slots.machines cms pairs db).1,
    )
unfolding insert_missing insert_each
insert_missing-flip [] pairs db = refl
insert_missing-flip (cm ∷ cms) pairs db =
    let (dbm, db') = insert_row Slots.machines db in
    let p : Pair Machine Machine = record { l = cm; r = dbm } in
    ap (λ ps. insert_missing cms ps db') (sym (map-append flip pairs (p ∷ [])))
    ∙ insert_missing-flip cms (pairs ++ p ∷ []) db'

commit_merged-flip :
    (ps : Machines) (db : Database)
    → commit_merged (map flip ps) db ≡ commit_each Slots.machines merged_flip ps db
unfolding commit_merged commit_each for_each
commit_merged-flip [] db = refl
commit_merged-flip (p ∷ ps) db =
    λ i. commit_row Slots.machines (merged_flip p) db >>= (λ db'. commit_merged-flip ps db' i)

swap_middle :
    (xs ys zs ws : List Machine) → Perm ((xs ++ (ys ++ zs)) ++ ws) (zs ++ (xs ++ (ys ++ ws)))
swap_middle xs ys zs ws =
    subst (λ m. Perm (m ++ ws) (zs ++ (xs ++ (ys ++ ws)))) (append_assoc xs ys zs)
      (subst (λ m. Perm (((xs ++ ys) ++ zs) ++ ws) (zs ++ m)) (append_assoc xs ys ws)
        (subst (Perm (((xs ++ ys) ++ zs) ++ ws)) (append_assoc zs (xs ++ ys) ws) (
          Perm.append_right {l₁ = (xs ++ ys) ++ zs} {l₂ = zs ++ (xs ++ ys)} ws
            (perm_append_comm (xs ++ ys) zs))))

module _ (cld : Cloud) (cms : List Machine) (db : Database) where
  joined : Joined Machine Machine
  joined = join score_in_place (select_machines cld db) cms

  news : Machines
  news = new_pairs Slots.machines db.cur_id joined.lonely_rights

  -- All pairs, with the provider's machine at the left.
  whole : Machines
  whole = map flip joined.pairs ++ news

  -- The rows before the removal: the lonely ones, and those that stay.
  rows_split :
      Perm
        (values db.machines.rows ++ rights_of news)
        (joined.lonely_lefts ++ (outside cld db ++ rights_of whole))
  unfolding joined whole select_machines select_from select in_cloud
  rows_split =
      let old = values db.machines.rows in
      Perm.trans
        (Perm.append_right {l₁ = old}
          {l₂ = outside cld db ++ (lefts_of joined.pairs ++ joined.lonely_lefts)} (rights_of news)
          (Perm.trans (keep-split (in_cloud cld) old) (
            Perm.append_left (outside cld db)
              (Perm.symm (join-perm score_in_place (select_machines cld db) cms).0))))
        (rw (map-append (λ p. p.r) (map flip joined.pairs) news, rights-flip joined.pairs)
          (swap_middle (outside cld db) (lefts_of joined.pairs) joined.lonely_lefts
            (rights_of news)))

  -- The removals and the commits, after the insertions.
  remove_commit-Leaves :
      Sound Slots.machines db
      → Leaves Slots.machines db
          (λ t. Perm (values t.rows) (outside cld db ++ map merged_flip whole))
          (commit_each Slots.machines merged_flip whole (
            remove_each Slots.machines joined.lonely_lefts
              (insert_each Slots.machines joined.lonely_rights (map flip joined.pairs) db).1))
  unfolding whole news
  remove_commit-Leaves v =
      let a =
        insert_each-Inserted Slots.machines joined.lonely_rights (map flip joined.pairs) db v in
      let s = Slots.machines in
      let db₁ : Database = s.write a.table (s.count a.last db) in
      rw a.result (
        Leaves-after s _ a.table a.last db _ a.grew (
          Leaves-bind s (λ t. Perm (values t.rows) (outside cld db ++ rights_of whole)) _ db₁
            (ok (remove_each s joined.lonely_lefts db₁)) (commit_each s merged_flip whole)
            (remove_each-Leaves s joined.lonely_lefts (outside cld db ++ rights_of whole) db₁
              a.sound
              (subst (λ m. Perm m (joined.lonely_lefts ++ (outside cld db ++ rights_of whole)))
                (sym a.rows) rows_split))
            (λ t n sound rest.
              commit_each-Leaves s merged_flip whole (outside cld db) (s.write t (s.count n db₁))
                merged_flip-id sound rest)))

  -- The rows that are written.
  whole-rows :
      map merged_flip whole ≡ map mirrored joined.pairs ++ fresh_rows db.cur_id joined.lonely_rights
  unfolding whole news
  whole-rows =
      map-append merged_flip (map flip joined.pairs) news
      ∙ (λ i. merged_flip-old joined.pairs i ++ merged_flip-new db.cur_id joined.lonely_rights i)

  join-cloud :
      All (InPlace cld) cms → join_or_panic machine_score (select_machines cld db) cms ≡ ok joined
  unfolding joined select_machines select_from select
  join-cloud h =
      join-total (InPlace cld) (InPlace cld) machine_score score_in_place (score-total cld) _ cms
        (keep-All cld (values db.machines.rows)) h

  inserted-eq :
      let (qs, db') = insert_each Slots.machines joined.lonely_rights (map flip joined.pairs) db in
      insert_missing joined.lonely_rights joined.pairs db ≡ (map flip qs, db')
  inserted-eq =
      subst
        (λ ps.
          let (qs, db') =
            insert_each Slots.machines joined.lonely_rights (map flip joined.pairs) db in
          insert_missing joined.lonely_rights ps db ≡ (map flip qs, db'))
        (map-flip-flip joined.pairs)
        (insert_missing-flip joined.lonely_rights (map flip joined.pairs) db)

  -- For a sound machine table, and machines of the region listed by the provider, `syncDBWithCloud`
  -- neither fails nor panics and changes no other table. The rows of the region are then paired with
  -- machines that fit them or removed, and the listed machines are paired or new, such that no
  -- removed row fits a new machine. Afterwards the rows of other regions are as they were; each
  -- paired row says what the provider lists, but keeps its ID, status, SSH keys, role and connection;
  -- and each new machine has a row with a new ID and none of these.
  pub sync_db_with_cloud-Mirrors :
      Sound Slots.machines db
      → All (InPlace cld) cms
      → Leaves Slots.machines db (Mirrors cld cms db) (sync_db_with_cloud cld cms db)
  unfolding sync_db_with_cloud whole news joined select_machines select_from select in_cloud
  sync_db_with_cloud-Mirrors v h =
      let qs = insert_each Slots.machines joined.lonely_rights (map flip joined.pairs) db in
      let a =
        insert_each-Inserted Slots.machines joined.lonely_rights (map flip joined.pairs) db v in
      rw
        (
          join-cloud h,
          inserted-eq,
          commit_merged-flip qs.0 (remove_each Slots.machines joined.lonely_lefts qs.1),
          ap (λ r. r.0) a.result,
        )
        (Leaves-map Slots.machines _ (Mirrors cld cms db) db _
          (λ t rows. record {
            pairs = joined.pairs;
            gone = joined.lonely_lefts;
            arrived = joined.lonely_rights;
            all_rows = (join-perm score_in_place (select_machines cld db) cms).0;
            all_listed = (join-perm score_in_place (select_machines cld db) cms).1;
            fitting = join-fitting (select_machines cld db) cms;
            no_more = join-no_more (select_machines cld db) cms;
            rows = subst (λ m. Perm (values t.rows) (outside cld db ++ m)) whole-rows rows;
          })
          (remove_commit-Leaves v))
