-- ===== src/Cloud/Desired.antt =====
-- cloud/join.go: the machines of a region that a blueprint asks for, written out.
use mathlib.Core.List.{append-nil}
use k_elda_archive.Base.{
  ◌==◌, ◌≡◌, ◌∙◌, sym, refl, ap, false, ◌&&◌, List, [], ◌∷◌, ◌++◌, Option, none, some,
  if◌then◌else◌, Bool-cases, inl, inr,
}
use k_elda_archive.Blueprint
use k_elda_archive.Cloud.Machines.{Cloud, same, desired_machine, with_role, desired_machines}
use k_elda_archive.Db.Rows.{Machine, Role, parse_role}

-- The row of a machine of the blueprint: of 32 GB if no size of the disk is given, and with the
-- administrator's key, if there is one, after the blueprint's.
abbrev row_asked : Cloud → Blueprint.Machine → Role → Machine
row_asked cld m role = record {
  id = 0;
  provider = m.provider;
  region = m.region;
  size = m.size;
  disk_size = if m.disk_size == 0 then 32 else m.disk_size;
  ssh_keys = m.ssh_keys ++ (if same cld.admin_key "" then [] else cld.admin_key ∷ []);
  floating_ip = m.floating_ip;
  preemptible = m.preemptible;
  cloud_id = "";
  public_ip = "";
  private_ip = "";
  status = "";
  role = role;
  connected = false;
}

abbrev if_role : Cloud → Blueprint.Machine → Option Role → List Machine
if_role cld m none = []
if_role cld m (some role) = row_asked cld m role ∷ []

-- The machines of the region whose role parses.
abbrev pub machines_asked : Cloud → List Blueprint.Machine → List Machine
machines_asked cld [] = []
machines_asked cld (m ∷ ms) =
    (if same m.provider cld.provider_name && same m.region cld.region
      then if_role cld m (parse_role m.role)
      else [])
    ++ machines_asked cld ms

desired-asked :
    (cld : Cloud) (m : Blueprint.Machine) (role : Role)
    → desired_machine cld m role ≡ row_asked cld m role
unfolding desired_machine
desired-asked cld m role = elim (Bool-cases (same cld.admin_key "")) [
  | inl h ↦
      rw h
        (ap (λ ks. record (row_asked cld m role) { ssh_keys = ks }) (sym (append-nil m.ssh_keys)))
  | inr h ↦ rw h refl
]

with_role-asked :
    (cld : Cloud) (m : Blueprint.Machine) (o : Option Role) (rest : List Machine)
    → with_role cld m o rest ≡ if_role cld m o ++ rest
with_role-asked cld m none rest = refl
with_role-asked cld m (some role) rest = ap (λ n. n ∷ rest) (desired-asked cld m role)

pub desired_machines-asked :
    (cld : Cloud) (ms : List Blueprint.Machine) → desired_machines cld ms ≡ machines_asked cld ms
unfolding desired_machines
desired_machines-asked cld [] = refl
desired_machines-asked cld (m ∷ ms) = elim (Bool-cases (same m.provider cld.provider_name)) [
  | inl p ↦ elim (Bool-cases (same m.region cld.region)) [
    | inl q ↦
        rw (p, q)
          (with_role-asked cld m (parse_role m.role) (desired_machines cld ms)
            ∙ ap (λ rest. if_role cld m (parse_role m.role) ++ rest)
                (desired_machines-asked cld ms))
    | inr q ↦ rw (p, q) (desired_machines-asked cld ms)
  ]
  | inr p ↦ rw p (desired_machines-asked cld ms)
]
