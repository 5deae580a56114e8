-- ===== src/Foreman/Status.antt =====
-- What a round of a machine's thread writes to the machine table.
use mathlib.Core.List.{mem-cons_self, perm_append_comm}
use mathlib.Core.List.Perm
use k_elda_archive.Base.{
  ◌≡◌, refl, subst, String, Bool, not, List, [], ◌∷◌, ◌++◌, Perm, Mem, arith, values, keep,
  if◌then◌else◌, ok, Bool-cases, inl, inr,
}
use k_elda_archive.Cloud.Machines.{same}
use k_elda_archive.Cloud.Mirror.{keep-split}
use k_elda_archive.Db.{Database}
use k_elda_archive.Db.Access.{commit_row, select_from}
use k_elda_archive.Db.Effects.{commit-Replaces, id-le_of_mem}
use k_elda_archive.Db.Rows.{Machine, Role, machine}
use k_elda_archive.Db.Slots
use k_elda_archive.Db.Tables.{Table, select}
use k_elda_archive.Engine.Effects.{Leaves, Sound}
use k_elda_archive.Foreman.Config.{WireRole, pb_to_role}
use k_elda_archive.Foreman.Run.{learned, set_status_of, set_minion_status}

abbrev pub has_id : String → Machine → Bool
has_id id m = same m.cloud_id id

abbrev pub lacks_id : String → Machine → Bool
lacks_id id m = not (same m.cloud_id id)

-- What a round makes of the rows with its cloud ID: a single one that is not stopping learns.
abbrev pub updated : Role → Bool → List Machine → List Machine
updated role is_connected [] = []
updated role is_connected (m ∷ []) =
    (if same m.status "stopping" then m else learned role is_connected m) ∷ []
updated role is_connected (m ∷ n ∷ rest) = m ∷ n ∷ rest

-- The rows of the other machines as they are, and these.
abbrev pub Beside : String → Database → List Machine → Table Machine → Type 0
Beside id db ms t = Perm (values t.rows) (keep (lacks_id id) (values db.machines.rows) ++ ms)

learned-id : (r : Role) (b : Bool) (m : Machine) → (learned r b m).id ≡ m.id
unfolding learned
learned-id r b m = ground arith

unchanged :
    (id : String) (db : Database)
    → Sound Slots.machines db
    → Leaves Slots.machines db (Beside id db (keep (has_id id) (values db.machines.rows))) (ok db)
unchanged id db v = record {
  table = db.machines;
  last = db.cur_id;
  result = refl;
  grew = omega arith;
  sound = v;
  holds = keep-split (has_id id) (values db.machines.rows);
}

replaced :
    (id : String) (m : Machine) (r : Role) (b : Bool) (db : Database)
    → keep (has_id id) (values db.machines.rows) ≡ m ∷ []
    → Sound Slots.machines db
    → Leaves Slots.machines db
        (Beside id db (learned r b m ∷ []))
        (commit_row Slots.machines (learned r b m) db)
unfolding commit_row
replaced id m r b db e v =
    let others = keep (lacks_id id) (values db.machines.rows) in
    let split : Perm (values db.machines.rows) (others ++ m ∷ []) =
      subst (λ ms. Perm (values db.machines.rows) (others ++ ms)) e
        (keep-split (has_id id) (values db.machines.rows)) in
    let front : Perm (values db.machines.rows) (m ∷ others) =
      Perm.trans split (perm_append_comm others (m ∷ [])) in
    let here : Mem m (values db.machines.rows) = (Perm.mem_iff front).1 mem-cons_self in
    let c =
      commit-Replaces machine db.cur_id m (learned r b m) db.machines v here (learned-id r b m)
        (rw (learned-id r b m) (id-le_of_mem machine db.cur_id m db.machines.rows v.owned here)) in
    record {
      table = c.table;
      last = db.cur_id;
      result = rw c.result refl;
      grew = omega arith;
      sound = c.sound;
      holds =
          Perm.trans
            (Perm.cons_inv (
              Perm.trans c.swapped (
                Perm.trans (Perm.cons (learned r b m) front) (Perm.swap m (learned r b m) others))))
            (perm_append_comm (learned r b m ∷ []) others);
    }

status-by_rows :
    (id : String) (role : WireRole) (r : Role) (b : Bool) (db : Database) (rows : List Machine)
    → pb_to_role role ≡ ok r
    → Sound Slots.machines db
    → keep (has_id id) (values db.machines.rows) ≡ rows
    → Leaves Slots.machines db (Beside id db (updated r b rows)) (set_status_of rows role b db)
unfolding set_status_of
status-by_rows id role r b db [] known v e =
    subst (λ ms. Leaves Slots.machines db (Beside id db ms) (ok db)) e (unchanged id db v)
status-by_rows id role r b db (m ∷ []) known v e = elim (Bool-cases (same m.status "stopping")) [
  | inl h ↦
      rw h (subst (λ ms. Leaves Slots.machines db (Beside id db ms) (ok db)) e (unchanged id db v))
  | inr h ↦ rw (h, known) (replaced id m r b db e v)
]
status-by_rows id role r b db (m ∷ n ∷ rest) known v e =
    subst (λ ms. Leaves Slots.machines db (Beside id db ms) (ok db)) e (unchanged id db v)

pub set_minion_status-Beside :
    (id : String) (role : WireRole) (r : Role) (b : Bool) (db : Database)
    → pb_to_role role ≡ ok r
    → Sound Slots.machines db
    → Leaves Slots.machines db
        (Beside id db (updated r b (keep (has_id id) (values db.machines.rows))))
        (set_minion_status db id role b)
unfolding set_minion_status select_from select
set_minion_status-Beside id role r b db known v =
    status-by_rows id role r b db (keep (has_id id) (values db.machines.rows)) known v refl
