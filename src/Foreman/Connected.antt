-- ===== src/Foreman/Connected.antt =====
-- What a round leaves of the row of a machine whose minion answers.
use mathlib.Core.Option.{some-injective}
use k_elda_archive.Base.{
  ◌||◌, ◌⊎◌, none, pos, Bool-cases, inl, inr, sym, refl, ◌≡◌, ap, subst, ◌∙◌, String, Bool, true,
  false, [], ◌∷◌, arith, values, keep, some, if◌then◌else◌, str_discrete, ok,
}
use k_elda_archive.Blueprint.{Blueprint}
use k_elda_archive.Cloud.Machines.{same, connection_status}
use k_elda_archive.Db.{Database}
use k_elda_archive.Db.Queries.{get_blueprint}
use k_elda_archive.Db.Rows.{Machine, Role, unassigned}
use k_elda_archive.Db.Slots
use k_elda_archive.Engine.Effects.{Leaves, Sound}
use k_elda_archive.Foreman.Config.{MinionConfig, pb_to_role}
use k_elda_archive.Foreman.Run.{
  find_machine, Minions, is_up, blueprint_of, learned, set_minion_status, round,
}
use k_elda_archive.Foreman.Status.{has_id, Beside, updated, set_minion_status-Beside}
use k_elda_archive.Foreman.Rounds.{up, find-up, run_once-answer, run_once-error}

not_stopping-up : (m : Machine) → is_up m ≡ true → same m.status "stopping" ≡ false
unfolding is_up
not_stopping-up m h = ground arith

status-up :
    (m : Machine) (r : Role)
    → is_up m ≡ true
    → connection_status (record m { role = r; connected = true }) ≡ "connected"
unfolding connection_status is_up
status-up m r h = ground arith

learned-connected :
    (m : Machine) (r : Role)
    → is_up m ≡ true
    → learned r true m ≡ record m { role = r; connected = true; status = "connected" }
unfolding learned str_discrete
learned-connected m r h =
    let m' : Machine = record m { role = r; connected = true } in
    ap (λ s. if same s "" then m' else record m' { status = s }) (status-up m r h)

learned-up :
    (m : Machine) (r : Role)
    → is_up m ≡ true
    → updated r true (m ∷ []) ≡ record m { role = r; connected = true; status = "connected" } ∷ []
learned-up m r h = rw (not_stopping-up m h) (ap (λ n. n ∷ []) (learned-connected m r h))

-- If there is at most one blueprint, just one row has the cloud ID, it has all its addresses and is
-- not stopping, its minion answers with a known role, and the machine table is sound, then a round
-- of the machine's thread succeeds and changes no other table and no other row, and the row gets
-- that role, is connected and has the status connected.
pub round-connected :
    (print : Blueprint → String) (deep_equal : MinionConfig → MinionConfig → Bool)
    (minions : Minions) (before_cutoff : Bool) (db : Database) (id : String) (bp : Blueprint)
    (m : Machine) (current : MinionConfig) (r : Role)
    → blueprint_of (get_blueprint db) ≡ ok bp
    → keep (has_id id) (values db.machines.rows) ≡ m ∷ []
    → is_up m ≡ true
    → minions.connects m.public_ip ≡ true
    → minions.config m.public_ip ≡ some current
    → pb_to_role current.role ≡ ok r
    → Sound Slots.machines db
    → Leaves Slots.machines db
        (Beside id db (record m { role = r; connected = true; status = "connected" } ∷ []))
        (round print deep_equal minions before_cutoff db id)
unfolding round
round-connected print deep_equal minions before_cutoff db id bp m current r b e h c k known v =
    rw (run_once-answer print deep_equal minions before_cutoff db id bp m current b e h c k) (
      subst
        (λ ms.
          Leaves Slots.machines db (Beside id db ms) (set_minion_status db id current.role true))
        (ap (updated r true) e ∙ learned-up m r h)
        (set_minion_status-Beside id current.role r true db known v))

-- The status of a machine whose minion is lost.
abbrev pub lost_status : Machine → String
lost_status m =
    if same m.status "connected" || same m.status "reconnecting"
    then "reconnecting"
    else "connecting"

lost-status :
    (m : Machine)
    → is_up m ≡ true
    → connection_status (record m { role = unassigned; connected = false }) ≡ lost_status m
unfolding connection_status is_up
lost-status m h = ground arith

lost_status-some : (m : Machine) → same (lost_status m) "" ≡ false
unfolding str_discrete
lost_status-some m = elim (Bool-cases (same m.status "connected" || same m.status "reconnecting")) [
  | inl h ↦ rw h refl
  | inr h ↦ rw h refl
]

-- The row of a machine whose minion is lost.
abbrev pub lost : Machine → Machine
lost m = record m { role = unassigned; connected = false; status = lost_status m }

learned-lost : (m : Machine) → is_up m ≡ true → learned unassigned false m ≡ lost m
unfolding learned str_discrete
learned-lost m h =
    let m' : Machine = record m { role = unassigned; connected = false } in
    ap (λ s. if same s "" then m' else record m' { status = s }) (lost-status m h)
    ∙ ap (λ b. if b then m' else lost m) (lost_status-some m)

updated-lost : (m : Machine) → is_up m ≡ true → updated unassigned false (m ∷ []) ≡ lost m ∷ []
updated-lost m h = rw (not_stopping-up m h) (ap (λ n. n ∷ []) (learned-lost m h))

no_role : pb_to_role (pos 0) ≡ ok unassigned
unfolding pb_to_role
no_role = refl

-- If there is at most one blueprint, just one row has the cloud ID, it has all its addresses and is
-- not stopping, its minion cannot be connected to or does not give its configuration, and the
-- machine table is sound, then a round of the machine's thread succeeds and changes no other table
-- and no other row, and the row loses its role and is not connected; its status is reconnecting if
-- it was connected or reconnecting, and connecting otherwise.
pub round-lost :
    (print : Blueprint → String) (deep_equal : MinionConfig → MinionConfig → Bool)
    (minions : Minions) (before_cutoff : Bool) (db : Database) (id : String) (bp : Blueprint)
    (m : Machine)
    → blueprint_of (get_blueprint db) ≡ ok bp
    → keep (has_id id) (values db.machines.rows) ≡ m ∷ []
    → is_up m ≡ true
    → (minions.connects m.public_ip ≡ false) ⊎ (minions.config m.public_ip ≡ none)
    → Sound Slots.machines db
    → Leaves Slots.machines db
        (Beside id db (lost m ∷ []))
        (round print deep_equal minions before_cutoff db id)
unfolding round
round-lost print deep_equal minions before_cutoff db id bp m b e h f v =
    let only : (n : Machine)
        → find_machine id (up db) none ≡ some n
        → (minions.connects n.public_ip ≡ false) ⊎ (minions.config n.public_ip ≡ none) =
      λ n found.
        let same_row : m ≡ n = some-injective _ _ (sym (find-up db id m e h) ∙ found) in
        subst (λ k. (minions.connects k.public_ip ≡ false) ⊎ (minions.config k.public_ip ≡ none))
          same_row f in
    rw (run_once-error print deep_equal minions before_cutoff db id bp b only) (
      subst
        (λ ms. Leaves Slots.machines db (Beside id db ms) (set_minion_status db id (pos 0) false))
        (ap (updated unassigned false) e ∙ updated-lost m h)
        (set_minion_status-Beside id (pos 0) unassigned false db no_role v))
