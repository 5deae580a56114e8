-- ===== src/Cloud/Plan.antt =====
-- `syncDBWithBlueprint`: what the join asks of the provider, and what it leaves in the table.
use mathlib.Core.List.{append_assoc, perm_append_comm}
use mathlib.Core.List.Perm
use native.Mathlib.Nat.{le_trans}
use k_elda_archive.Base.{
  true, ℕ, ◌≤◌, ◌≡◌, refl, sym, ap, subst, Bool, false, ◌||◌, not, List, [], ◌∷◌, ◌++◌, map, Perm,
  All, arith, values, keep, Outcome, ok, ◌>>=◌, for_each, Bool-cases, inl, inr, Option, none, some,
}
use k_elda_archive.Blueprint
use k_elda_archive.Blueprint.{Blueprint}
use k_elda_archive.Cloud.Desired.{machines_asked, desired_machines-asked}
use k_elda_archive.Cloud.Expected.{
  fits, planned_row, moved_row, stopped_row, wants_ip, any, refreshed-planned, needs_ip-wants,
  with_ip-moved,
}
use k_elda_archive.Cloud.Join.{
  JoinResult, no_result, refreshed, needs_ip, with_ip, refresh_pair, stopping, stop_extra,
  boot_missing, is_nil, sync_db_with_blueprint,
}
use k_elda_archive.Cloud.Machines.{
  Cloud, desired_machine, with_role, same, desired_machines, select_machines, machine_score,
  score_in_place, in_cloud,
}
use k_elda_archive.Cloud.Mirror.{
  inside, join-fitting, join-no_more, InPlace, same→eq, outside, score-total, keep-split, keep-All,
}
use k_elda_archive.Db.{Database}
use k_elda_archive.Db.Access.{select_from}
use k_elda_archive.Db.Invariant.{IsSound}
use k_elda_archive.Db.Rows.{Machine, Role, parse_role, machine}
use k_elda_archive.Db.Slots
use k_elda_archive.Db.Tables.{Table, select}
use k_elda_archive.Engine.Effects.{Sound, add_each-Leaves, made}
use k_elda_archive.Engine.Pairs.{commit_each-Leaves}
use k_elda_archive.Join.{Pair, Joined, lefts_of, rights_of}
use k_elda_archive.Join.Partial.{join_or_panic, join-total}
use k_elda_archive.Join.Partition.{join-perm}
use k_elda_archive.Join.Score.{join}
use k_elda_archive.Cloud.Loops.{twice, refresh-loop, stop-loop, boot-loop, ips, boot_row, booted}

-- The run succeeds; what it asks for, and what it leaves.
pub record IsPlan (cld : Cloud) (bpms : List Machine) (db : Database)
    (o : Outcome (JoinResult × Database)) : Type 0 where
  pub pairs : List (Pair Machine Machine)
  -- the machines of the region that nothing asks for, and the desired ones that are missing
  pub extra : List Machine
  pub missing : List Machine
  pub all_desired : Perm (lefts_of pairs ++ missing) bpms
  pub all_present : Perm (rights_of pairs ++ extra) (inside cld db)
  pub fitting : All (λ p. fits p.l p.r ≡ true) pairs
  pub no_more : All (λ m. All (λ row. fits m row ≡ false) extra) missing
  -- the last ID before the new rows
  pub first : ℕ
  pub table : Table Machine
  pub last : ℕ
  pub result :
      o
      ≡ ok (
        record {
          acls = [];
          boot = booted first missing;
          terminate = map stopped_row extra;
          update_ips = map moved_row (keep wants_ip pairs);
          is_active = any bpms || any (inside cld db);
        },
        record db { machines = table; cur_id = last },
      )
  pub grew : db.cur_id ≤ first
  pub sound : IsSound machine last table
  pub rows : Perm (values table.rows) (
      ((outside cld db ++ map planned_row pairs) ++ map stopped_row extra)
      ++ made Slots.machines boot_row first missing)

map-planned : (ps : List (Pair Machine Machine)) → map refreshed ps ≡ map planned_row ps
map-planned [] = refl
map-planned (p ∷ ps) = λ i. refreshed-planned p i ∷ map-planned ps i

ips-moved :
    (ps : List (Pair Machine Machine))
    → map with_ip (keep needs_ip ps) ≡ map moved_row (keep wants_ip ps)
unfolding keep
ips-moved [] = refl
ips-moved (p ∷ ps) = elim (Bool-cases (wants_ip p)) [
  | inl h ↦ rw (needs_ip-wants p, h) (λ i. with_ip-moved p i ∷ ips-moved ps i)
  | inr h ↦ rw (needs_ip-wants p, h) (ips-moved ps)
]

any-is_nil : (ms : List Machine) → not (is_nil ms) ≡ any ms
any-is_nil [] = refl
any-is_nil (m ∷ ms) = refl

stops : (ms : List Machine) → map (λ p. stopping p.r) (map twice ms) ≡ map stopping ms
stops [] = refl
stops (m ∷ ms) = ap (◌∷◌ (stopping m)) (stops ms)

rights-twice : (ms : List Machine) → rights_of (map twice ms) ≡ ms
rights-twice [] = refl
rights-twice (m ∷ ms) = ap (◌∷◌ m) (rights-twice ms)

refreshed-id : (p : Pair Machine Machine) → (refreshed p).id ≡ p.r.id
unfolding refreshed
refreshed-id p = ground arith

swap_last : (xs ys zs : List Machine) → Perm ((xs ++ ys) ++ zs) ((xs ++ zs) ++ ys)
swap_last xs ys zs =
    subst (λ m. Perm m ((xs ++ zs) ++ ys)) (sym (append_assoc xs ys zs))
      (subst (Perm (xs ++ (ys ++ zs))) (sym (append_assoc xs zs ys))
        (Perm.append_left xs (perm_append_comm ys zs)))

module _ (cld : Cloud) (bpms : List Machine) (db : Database) (j : Joined Machine Machine) where
  three_loops : JoinResult → Outcome (JoinResult × Database)
  three_loops res = do
    s ← for_each refresh_pair j.pairs (res, db)
    t ← for_each stop_extra j.lonely_rights s
    for_each boot_missing j.lonely_lefts t

  rows-present :
      Perm (rights_of j.pairs ++ j.lonely_rights) (select_machines cld db)
      → Perm (values db.machines.rows) ((outside cld db ++ j.lonely_rights) ++ rights_of j.pairs)
  unfolding select_machines select_from select in_cloud
  rows-present p = Perm.trans (keep-split (in_cloud cld) (values db.machines.rows)) (
      subst (Perm _) (sym (append_assoc (outside cld db) j.lonely_rights (rights_of j.pairs))) (
        Perm.append_left (outside cld db)
          (Perm.trans (Perm.symm p) (perm_append_comm (rights_of j.pairs) j.lonely_rights))))

  -- The three loops, one after the other, each on the table that the one before leaves.
  three_loops-IsPlan :
      (is_active : Bool)
      → is_active ≡ (any bpms || any (inside cld db))
      → Sound Slots.machines db
      → Perm (lefts_of j.pairs ++ j.lonely_lefts) bpms
      → Perm (rights_of j.pairs ++ j.lonely_rights) (select_machines cld db)
      → All (λ p. fits p.l p.r ≡ true) j.pairs
      → All (λ m. All (λ row. fits m row ≡ false) j.lonely_rights) j.lonely_lefts
      → IsPlan cld bpms db (three_loops (record no_result { is_active = is_active }))
  unfolding three_loops select_machines select_from select in_cloud
  three_loops-IsPlan is_active e v left right fitting no_more =
      let s = Slots.machines in
      let res : JoinResult = record no_result { is_active = is_active } in
      let a =
        commit_each-Leaves s refreshed j.pairs (outside cld db ++ j.lonely_rights) db refreshed-id v
          (rows-present right) in
      let db₁ : Database = record db { machines = a.table; cur_id = a.last } in
      let kept : List Machine = outside cld db ++ map refreshed j.pairs in
      let b =
        commit_each-Leaves s (λ p. stopping p.r) (map twice j.lonely_rights) kept db₁ (λ p. refl)
          a.sound
          (rw (rights-twice j.lonely_rights) (
            Perm.trans a.holds
              (swap_last (outside cld db) j.lonely_rights (map refreshed j.pairs)))) in
      let db₂ : Database = record db₁ { machines = b.table; cur_id = b.last } in
      let c = add_each-Leaves s boot_row j.lonely_lefts db₂ (λ x r. refl) b.sound in
      record {
        pairs = j.pairs;
        extra = j.lonely_rights;
        missing = j.lonely_lefts;
        all_desired = left;
        all_present = right;
        fitting = fitting;
        no_more = no_more;
        first = b.last;
        table = c.table;
        last = c.last;
        result =
            rw
              (
                refresh-loop j.pairs res db,
                a.result,
                stop-loop j.lonely_rights (ips j.pairs res) db₁,
                b.result,
                boot-loop j.lonely_lefts
                    (record (ips j.pairs res) { terminate = map stopping j.lonely_rights }) db₂
                    b.sound,
                c.result,
                e,
                ips-moved j.pairs,
              )
              refl;
        grew = le_trans a.grew b.grew;
        sound = c.sound;
        rows =
            subst
              (λ m. Perm (values c.table.rows) (
                ((outside cld db ++ m) ++ map stopped_row j.lonely_rights)
                ++ made s boot_row b.last j.lonely_lefts))
              (map-planned j.pairs)
              (subst
                (λ m.
                  Perm m (
                    (kept ++ map stopping j.lonely_rights)
                    ++ made s boot_row b.last j.lonely_lefts))
                (sym c.holds)
                (Perm.append_right {l₁ = values b.table.rows}
                  {l₂ = kept ++ map stopping j.lonely_rights}
                  (made s boot_row b.last j.lonely_lefts)
                  (subst (λ m. Perm (values b.table.rows) (kept ++ m)) (stops j.lonely_rights)
                    b.holds)));
      }

-- Every desired machine is of the region.
pub desired_machines-InPlace :
    (cld : Cloud) (bpms : List Blueprint.Machine) → All (InPlace cld) (desired_machines cld bpms)
unfolding desired_machines desired_machine
desired_machines-InPlace cld [] = tt
desired_machines-InPlace cld (bpm ∷ bpms) =
    elim (Bool-cases
      (not (same bpm.provider cld.provider_name) || not (same bpm.region cld.region))) [
        | inl away ↦ rw away (desired_machines-InPlace cld bpms)
        | inr here ↦
            rw here (
              by_role (parse_role bpm.role) (here-InPlace here) (desired_machines-InPlace cld bpms))
      ]
  where
    here-InPlace :
        (not (same bpm.provider cld.provider_name) || not (same bpm.region cld.region)) ≡ false
        → (bpm.provider ≡ cld.provider_name) × (bpm.region ≡ cld.region)
    here-InPlace h = (same→eq _ _ (ground arith), same→eq _ _ (ground arith))

    by_role :
        (o : Option Role)
        → (bpm.provider ≡ cld.provider_name) × (bpm.region ≡ cld.region)
        → All (InPlace cld) (desired_machines cld bpms)
        → All (InPlace cld) (with_role cld bpm o (desired_machines cld bpms))
    by_role none p rest = rest
    by_role (some role) p rest = (p, rest)

join-region :
    (cld : Cloud) (bpms : List Machine) (db : Database)
    → All (InPlace cld) bpms
    → join_or_panic machine_score bpms (select_machines cld db)
      ≡ ok (join score_in_place bpms (select_machines cld db))
unfolding select_machines select_from select
join-region cld bpms db h =
    join-total (InPlace cld) (InPlace cld) machine_score score_in_place (score-total cld) bpms _ h
      (keep-All cld (values db.machines.rows))

desired-IsPlan :
    (cld : Cloud) (bp : Blueprint) (db : Database)
    → Sound Slots.machines db
    → IsPlan cld (desired_machines cld bp.machines) db (sync_db_with_blueprint cld bp db)
unfolding sync_db_with_blueprint three_loops select_machines select_from select in_cloud
desired-IsPlan cld bp db v =
    let bpms : List Machine = desired_machines cld bp.machines in
    let active : (ms : List Machine)
        → (not (is_nil bpms) || not (is_nil ms)) ≡ (any bpms || any ms) =
      λ ms i. any-is_nil bpms i || any-is_nil ms i in
    let perms = join-perm score_in_place bpms (select_machines cld db) in
    rw (join-region cld bpms db (desired_machines-InPlace cld bp.machines)) (
      three_loops-IsPlan cld bpms db (join score_in_place bpms (select_machines cld db)) _
        (active (select_machines cld db)) v perms.0 perms.1
        (join-fitting bpms (select_machines cld db)) (join-no_more bpms (select_machines cld db)))

-- If the machine table is sound, `syncDBWithBlueprint` neither fails nor panics and changes no other
-- table. The desired machines are those of the blueprint that are in the region and whose role
-- parses, with the administrator's SSH key, if there is one, and a disk of 32 GB if no size is given.
-- Every desired machine is paired with a row of the region that fits it or booted, every row
-- of the region is paired or stopped, and no machine to be booted fits a row to be stopped. The table
-- then holds the rows of other regions as they were; those of the pairs with the desired SSH keys,
-- and the status of their connection; those to be stopped with the status stopping; and for each
-- machine to be booted a new row with the status booting and no role. The result lists the machines
-- to boot, with the IDs of their rows, those to stop, and the rows with a role whose floating IP is
-- not the desired one, with that one; and whether the region has desired machines or rows.
pub sync_db_with_blueprint-IsPlan :
    (cld : Cloud) (bp : Blueprint) (db : Database)
    → Sound Slots.machines db
    → IsPlan cld (machines_asked cld bp.machines) db (sync_db_with_blueprint cld bp db)
sync_db_with_blueprint-IsPlan cld bp db v =
    subst (λ ms. IsPlan cld ms db (sync_db_with_blueprint cld bp db))
      (desired_machines-asked cld bp.machines) (desired-IsPlan cld bp db v)
