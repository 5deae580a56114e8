-- ===== src/Cloud/Loops.antt =====
-- The three loops of `syncDBWithBlueprint`, each as a loop that writes the table and a result.
use mathlib.Core.List.{append_assoc, append-nil}
use k_elda_archive.Base.{
  ℕ, suc, ◌≡◌, refl, sym, ap, ◌∙◌, List, [], ◌∷◌, ◌++◌, map, keep, Outcome, ok, err, panic, ◌>>=◌,
  for_each, if◌then◌else◌, Bool-cases, inl, inr,
}
use k_elda_archive.Cloud.Join.{
  JoinResult, refreshed, needs_ip, with_ip, refresh_pair, stopping, stop_extra, boot_missing,
}
use k_elda_archive.Db.{Database}
use k_elda_archive.Db.Access.{insert_row, commit_row}
use k_elda_archive.Db.Effects.{with_row, with_row-IsSound}
use k_elda_archive.Db.Rows.{Machine, unassigned, machine}
use k_elda_archive.Db.Slots
use k_elda_archive.Engine.Effects.{Sound, add_one-eq}
use k_elda_archive.Engine.Loops.{add_one, add_each, commit_each}
use k_elda_archive.Join.{Pair}

abbrev logs : {X : Type 0} → (X → JoinResult → JoinResult) → List X → JoinResult → JoinResult
logs note [] res = res
logs note (x ∷ xs) res = logs note xs (note x res)

abbrev logging :
    {X : Type 0}
    → (X → Database → Outcome Database)
    → (X → JoinResult → JoinResult)
    → X
    → JoinResult × Database
    → Outcome (JoinResult × Database)
logging c note x (res, db) = c x db >>= λ db'. ok (note x res, db')

-- A loop that writes the database and the result is the loop that writes the database, and then the
-- result.
log-split :
    {X : Type 0} (c : X → Database → Outcome Database) (note : X → JoinResult → JoinResult)
    (xs : List X) (res : JoinResult) (db : Database)
    → for_each (logging c note) xs (res, db)
      ≡ (for_each c xs db >>= λ db'. ok (logs note xs res, db'))
unfolding for_each
log-split c note [] res db = refl
log-split {X} c note (x ∷ xs) res db = step (c x db) (log-split c note xs (note x res))
  where
    step :
        (o : Outcome Database)
        → ((d : Database)
            → for_each (logging c note) xs (note x res, d)
              ≡ (for_each c xs d >>= λ db'. ok (logs note xs (note x res), db')))
        → ((o >>= λ db'. ok (note x res, db')) >>= for_each (logging c note) xs)
          ≡ ((o >>= for_each c xs) >>= λ db'. ok (logs note xs (note x res), db'))
    step (ok db') rest = rest db'
    step (err e) rest = refl
    step panic rest = refl

abbrev note_ip : Pair Machine Machine → JoinResult → JoinResult
note_ip p res =
    if needs_ip p then record res { update_ips = res.update_ips ++ with_ip p ∷ [] } else res

abbrev note_stop : Machine → JoinResult → JoinResult
note_stop m res = record res { terminate = res.terminate ++ stopping m ∷ [] }

abbrev pub ips : List (Pair Machine Machine) → JoinResult → JoinResult
ips ps res = record res { update_ips = res.update_ips ++ map with_ip (keep needs_ip ps) }

logs-ips : (ps : List (Pair Machine Machine)) (res : JoinResult) → logs note_ip ps res ≡ ips ps res
unfolding keep
logs-ips [] res = ap (λ l. record res { update_ips = l }) (sym (append-nil res.update_ips))
logs-ips (p ∷ ps) res = elim (Bool-cases (needs_ip p)) [
  | inl e ↦ rw e (
      logs-ips ps (record res { update_ips = res.update_ips ++ with_ip p ∷ [] })
      ∙ ap (λ l. record res { update_ips = l })
          (append_assoc res.update_ips (with_ip p ∷ []) (map with_ip (keep needs_ip ps))))
  | inr e ↦ rw e (logs-ips ps res)
]

logs-stops :
    (ms : List Machine) (res : JoinResult)
    → logs note_stop ms res ≡ record res { terminate = res.terminate ++ map stopping ms }
logs-stops [] res = ap (λ l. record res { terminate = l }) (sym (append-nil res.terminate))
logs-stops (m ∷ ms) res =
    logs-stops ms (note_stop m res)
    ∙ ap (λ l. record res { terminate = l })
        (append_assoc res.terminate (stopping m ∷ []) (map stopping ms))

pub refresh-loop :
    (ps : List (Pair Machine Machine)) (res : JoinResult) (db : Database)
    → for_each refresh_pair ps (res, db)
      ≡ (commit_each Slots.machines refreshed ps db >>= λ db'. ok (ips ps res, db'))
unfolding refresh_pair commit_each
refresh-loop ps res db =
    log-split (λ p. commit_row Slots.machines (refreshed p)) note_ip ps res db
    ∙ ap (λ r. commit_each Slots.machines refreshed ps db >>= λ db'. ok (r, db')) (logs-ips ps res)

-- A machine as a pair, with itself.
abbrev pub twice : Machine → Pair Machine Machine
twice m = record { l = m; r = m }

commit_twice :
    (ms : List Machine) (db : Database)
    → for_each (λ m. commit_row Slots.machines (stopping m)) ms db
      ≡ commit_each Slots.machines (λ p. stopping p.r) (map twice ms) db
unfolding for_each commit_each
commit_twice [] db = refl
commit_twice (m ∷ ms) db =
    λ i. commit_row Slots.machines (stopping m) db >>= (λ db'. commit_twice ms db' i)

pub stop-loop :
    (ms : List Machine) (res : JoinResult) (db : Database)
    → for_each stop_extra ms (res, db) ≡ (
        commit_each Slots.machines (λ p. stopping p.r) (map twice ms) db >>= λ db'.
        ok (record res { terminate = res.terminate ++ map stopping ms }, db'))
unfolding stop_extra
stop-loop ms res db =
    log-split (λ m. commit_row Slots.machines (stopping m)) note_stop ms res db
    ∙ ap (λ o. o >>= λ db'. ok (logs note_stop ms res, db')) (commit_twice ms db)
    ∙ ap
        (λ r.
          commit_each Slots.machines (λ p. stopping p.r) (map twice ms) db >>= λ db'. ok (r, db'))
        (logs-stops ms res)

-- The row of a machine that is booted: its role is the foreman's to find.
abbrev pub boot_row : Machine → Machine → Machine
boot_row bpm r = record bpm { id = r.id; status = "booting"; role = unassigned }

-- The machines that the provider is to boot, with the IDs of their rows.
abbrev pub booted : ℕ → List Machine → List Machine
booted n [] = []
booted n (m ∷ ms) = record m { id = suc n; status = "booting" } ∷ booted (suc n) ms

boot-one :
    (m : Machine) (res : JoinResult) (db : Database)
    → boot_missing m (res, db) ≡ (
        add_one Slots.machines boot_row m db >>= λ db'. ok (
          record res {
            boot = res.boot ++ record m { id = suc db.cur_id; status = "booting" } ∷ [];
          },
          db',
        ))
unfolding boot_missing add_one insert_row
boot-one m res db = refl

pub boot-loop :
    (ms : List Machine) (res : JoinResult) (db : Database)
    → Sound Slots.machines db
    → for_each boot_missing ms (res, db) ≡ (
        add_each Slots.machines boot_row ms db >>= λ db'.
        ok (record res { boot = res.boot ++ booted db.cur_id ms }, db'))
unfolding for_each add_each
boot-loop [] res db v = ap (λ l. ok (record res { boot = l }, db)) (sym (append-nil res.boot))
boot-loop (m ∷ ms) res db v =
    let n : ℕ = suc db.cur_id in
    let db₁ : Database = record db {
      machines = with_row machine (boot_row m (machine.zero_row n)) db.machines;
      cur_id = n;
    } in
    let head : Machine = record m { id = n; status = "booting" } in
    rw (boot-one m res db, add_one-eq Slots.machines boot_row m db (λ x r. refl) v)
      (boot-loop ms (record res { boot = res.boot ++ head ∷ [] }) db₁
          (with_row-IsSound machine db.cur_id (boot_row m (machine.zero_row n)) db.machines refl v)
        ∙ ap
            (λ l.
              add_each Slots.machines boot_row ms db₁ >>= λ db'. ok (record res { boot = l }, db'))
            (append_assoc res.boot (head ∷ []) (booted n ms)))
