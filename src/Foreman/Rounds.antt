-- ===== src/Foreman/Rounds.antt =====
-- What a round of a machine's thread asks of the minion, and what it learns.
use k_elda_archive.Base.{
  ◌≡◌, refl, ap, ◌∙◌, String, Bool, true, false, not, ◌&&◌, ◌||◌, List, [], ◌∷◌, map, arith, values,
  keep, Option, none, some, if◌then◌else◌, ok, Bool-cases, inl, inr, pos, ◌⊎◌,
}
use k_elda_archive.Blueprint.{Blueprint}
use k_elda_archive.Cloud.Machines.{same, is_unassigned}
use k_elda_archive.Db.{Database}
use k_elda_archive.Db.Access.{select_from}
use k_elda_archive.Db.Queries.{select_from_machine, get_blueprint}
use k_elda_archive.Db.Rows.{Machine}
use k_elda_archive.Db.Tables.{select}
use k_elda_archive.Foreman.Config.{MinionConfig, cluster_ready, etcd_ips, make_config, is_master}
use k_elda_archive.Foreman.Run.{
  Minions, Round, not_connected, is_up, find_machine, blueprint_of, configure, on_found, run_once,
}
use k_elda_archive.Foreman.Status.{has_id}

abbrev last_of : List Machine → Option Machine → Option Machine
last_of [] found = found
last_of (m ∷ ms) found = last_of ms (some m)

find-last_of :
    (id : String) (ms : List Machine) (found : Option Machine)
    → find_machine id ms found ≡ last_of (keep (has_id id) ms) found
unfolding find_machine keep
find-last_of id [] found = refl
find-last_of id (m ∷ ms) found = elim (Bool-cases (same m.cloud_id id)) [
  | inl h ↦ rw h (find-last_of id ms (some m))
  | inr h ↦ rw h (find-last_of id ms found)
]

keep-keep : {A : Type 0} (p q : A → Bool) (xs : List A) → keep p (keep q xs) ≡ keep q (keep p xs)
unfolding keep
keep-keep p q [] = refl
keep-keep p q (x ∷ xs) = elim (Bool-cases (p x)) [
  | inl h ↦ elim (Bool-cases (q x)) [
    | inl k ↦ rw (h, k, h) (ap (◌∷◌ x) (keep-keep p q xs))
    | inr k ↦ rw (h, k) (keep-keep p q xs)
  ]
  | inr h ↦ elim (Bool-cases (q x)) [
    | inl k ↦ rw (h, k, h) (keep-keep p q xs)
    | inr k ↦ rw (h, k) (keep-keep p q xs)
  ]
]

-- The machines that are up, and whether one of them has no role yet.
abbrev pub up : Database → List Machine
up db = keep is_up (values db.machines.rows)

abbrev pub awaits_role : List Machine → Bool
awaits_role [] = false
awaits_role (m ∷ ms) = is_unassigned m.role || awaits_role ms

-- The configuration for a machine among those that are up.
abbrev pub config_for : List Machine → Machine → String → MinionConfig
config_for machines m blueprint = record {
  id = "";
  role = pos 0;
  private_ip = m.private_ip;
  blueprint = blueprint;
  provider = m.provider;
  size = m.size;
  region = m.region;
  floating_ip = m.floating_ip;
  etcd_members = map (λ n. n.private_ip) (keep (λ n. is_master n.role) machines);
  authorized_keys = m.ssh_keys;
}

has_private_ip : (m : Machine) → is_up m ≡ true → same m.private_ip "" ≡ false
unfolding is_up
has_private_ip m h = ground arith

or_false : (b : Bool) → (b || false) ≡ b
or_false b = ground arith

ready-step :
    (m : Machine) (ms : List Machine)
    → same m.private_ip "" ≡ false
    → cluster_ready (m ∷ ms) ≡ (not (is_unassigned m.role) && cluster_ready ms)
unfolding cluster_ready
ready-step m ms h =
    rw h (elim (Bool-cases (is_unassigned m.role)) [ inl k ↦ rw k refl | inr k ↦ rw k refl ])

ready-up : (ms : List Machine) → cluster_ready (keep is_up ms) ≡ not (awaits_role (keep is_up ms))
unfolding cluster_ready keep
ready-up [] = refl
ready-up (m ∷ ms) = elim (Bool-cases (is_up m)) [
  | inl h ↦ rw h (
      ready-step m (keep is_up ms) (has_private_ip m h)
      ∙ elim (Bool-cases (is_unassigned m.role)) [ inl k ↦ rw k refl | inr k ↦ rw k (ready-up ms) ])
  | inr h ↦ rw h (ready-up ms)
]

etcd-step :
    (m : Machine) (ms : List Machine)
    → same m.private_ip "" ≡ false
    → etcd_ips (m ∷ ms) ≡ (if is_master m.role then m.private_ip ∷ etcd_ips ms else etcd_ips ms)
unfolding etcd_ips
etcd-step m ms h =
    rw h (elim (Bool-cases (is_master m.role)) [ inl k ↦ rw k refl | inr k ↦ rw k refl ])

etcd_ips-up :
    (ms : List Machine)
    → etcd_ips (keep is_up ms)
      ≡ map (λ n. n.private_ip) (keep (λ n. is_master n.role) (keep is_up ms))
unfolding etcd_ips keep
etcd_ips-up [] = refl
etcd_ips-up (m ∷ ms) = elim (Bool-cases (is_up m)) [
  | inl h ↦ rw h (
      etcd-step m (keep is_up ms) (has_private_ip m h) ∙ elim (Bool-cases (is_master m.role)) [
        | inl k ↦ rw k (ap (◌∷◌ m.private_ip) (etcd_ips-up ms))
        | inr k ↦ rw k (etcd_ips-up ms)
      ])
  | inr h ↦ rw h (etcd_ips-up ms)
]

up-select : (db : Database) → select_from_machine is_up db ≡ up db
unfolding select_from select
up-select db = refl

-- The machine that is found, for a cloud ID that one row has.
pub find-up :
    (db : Database) (id : String) (m : Machine)
    → keep (has_id id) (values db.machines.rows) ≡ m ∷ []
    → is_up m ≡ true
    → find_machine id (up db) none ≡ some m
unfolding keep
find-up db id m e h =
    let only : keep (has_id id) (up db) ≡ m ∷ [] =
      keep-keep (has_id id) is_up (values db.machines.rows) ∙ ap (keep is_up) e ∙ rw h refl in
    find-last_of id (up db) none ∙ ap (λ ms. last_of ms none) only

module _ (print : Blueprint → String) (deep_equal : MinionConfig → MinionConfig → Bool)
    (minions : Minions) where
  -- What a round does with the answer of its machine's minion: it reports the minion's role, and
  -- sends a configuration that differs, unless a machine that is up has no role and time is left.
  abbrev pub answer : Bool → List Machine → Machine → String → MinionConfig → Round
  answer before_cutoff machines m blueprint current = record {
    role = current.role;
    connected = true;
    sent =
        if awaits_role machines && before_cutoff
        then []
        else (if deep_equal current (config_for machines m blueprint)
            then []
            else (m.public_ip, config_for machines m blueprint) ∷ []);
  }

  make_config-up :
      (db : Database) (m : Machine) (blueprint : String)
      → make_config (up db) m blueprint ≡ config_for (up db) m blueprint
  unfolding make_config
  make_config-up db m blueprint =
      ap (λ ips. record (config_for (up db) m blueprint) { etcd_members = ips })
        (etcd_ips-up (values db.machines.rows))

  configure-answer :
      (before_cutoff : Bool) (db : Database) (m : Machine) (blueprint : String)
      (current : MinionConfig)
      → configure print deep_equal minions before_cutoff (up db) m blueprint current
        ≡ answer before_cutoff (up db) m blueprint current
  unfolding configure
  configure-answer before_cutoff db m blueprint current =
      rw (ready-up (values db.machines.rows), make_config-up db m blueprint)
        (elim (Bool-cases (awaits_role (up db))) [
          | inl h ↦ rw h (elim (Bool-cases before_cutoff) [ inl k ↦ rw k refl | inr k ↦ rw k refl ])
          | inr h ↦ rw h refl
        ])

  -- If there is at most one blueprint, just one row has the cloud ID, it has all its addresses and
  -- is not stopping, and its minion answers, then runOnce reports the minion's role, and sends the
  -- configuration with the private IPs of all masters that are up just if it differs from the
  -- answer and either each machine that is up has a role or the time of waiting is over.
  pub run_once-answer :
      (before_cutoff : Bool) (db : Database) (id : String) (bp : Blueprint) (m : Machine)
      (current : MinionConfig)
      → blueprint_of (get_blueprint db) ≡ ok bp
      → keep (has_id id) (values db.machines.rows) ≡ m ∷ []
      → is_up m ≡ true
      → minions.connects m.public_ip ≡ true
      → minions.config m.public_ip ≡ some current
      → run_once print deep_equal minions before_cutoff db id
        ≡ ok (answer before_cutoff (up db) m (print bp) current)
  unfolding run_once
  run_once-answer before_cutoff db id bp m current b e h c k =
      rw (b, up-select db, find-up db id m e h, c, k)
        (ap ok (configure-answer before_cutoff db m (print bp) current))

  -- If there is at most one blueprint, and no machine that is up has the cloud ID, or the one found
  -- cannot be connected to or does not give its configuration, then runOnce returns the role none
  -- and not connected, and sends nothing.
  pub run_once-error :
      (before_cutoff : Bool) (db : Database) (id : String) (bp : Blueprint)
      → blueprint_of (get_blueprint db) ≡ ok bp
      → ((m : Machine)
          → find_machine id (up db) none ≡ some m
          → (minions.connects m.public_ip ≡ false) ⊎ (minions.config m.public_ip ≡ none))
      → run_once print deep_equal minions before_cutoff db id ≡ ok not_connected
  unfolding run_once
  run_once-error before_cutoff db id bp b f =
      rw (b, up-select db) (ap ok (lost (find_machine id (up db) none) f))
    where
      lost :
          (o : Option Machine)
          → ((m : Machine)
              → o ≡ some m
              → (minions.connects m.public_ip ≡ false) ⊎ (minions.config m.public_ip ≡ none))
          → on_found print deep_equal minions before_cutoff (up db) (print bp) o ≡ not_connected
      lost none g = refl
      lost (some m) g = elim (g m refl) [
        | inl h ↦ rw h refl
        | inr h ↦ elim (Bool-cases (minions.connects m.public_ip)) [
          | inl k ↦ rw (k, h) refl
          | inr k ↦ rw k refl
        ]
      ]
