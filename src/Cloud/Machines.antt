-- ===== src/Cloud/Machines.antt =====
-- The parts of cloud/cloud.go and cloud/join.go that look at machines and ACLs only.
use k_elda_archive.Base.{
  ℕ, ◌-◌, ◌==◌, String, Bool, true, false, ◌&&◌, ◌||◌, not, List, [], ◌∷◌, ◌++◌, Option, none, some,
  ite, if◌then◌else◌, Outcome, ok, panic, insert_key, str_discrete, ℕ_discrete, ℤ, pos, negsuc,
}
use k_elda_archive.Blueprint
use k_elda_archive.Blueprint.{Blueprint, public_internet_label}
use k_elda_archive.Db.{Database}
use k_elda_archive.Db.Queries.{select_from_machine}
use k_elda_archive.Db.Rows.{Machine, Role, unassigned, Role-discrete, parse_role}
use k_elda_archive.Str.Defs.{slice_contains}

-- acl.ACL: traffic that a machine lets in.
pub record Acl : Type 0 where
  pub cidr_ip : String
  pub min_port : ℕ
  pub max_port : ℕ

unfoldable pub Acl-discrete : Discrete Acl
unfolding str_discrete ℕ_discrete
Acl-discrete = hlevel (str_discrete, ℕ_discrete)

-- The controller of a region. Its connection is the database that each function takes, its provider
-- the results of the calls on it; the administrator's SSH key is a variable of the package.
pub record Cloud : Type 0 where
  pub namespace : String
  pub provider_name : String
  pub region : String
  pub admin_key : String

abbrev pub same : String → String → Bool
same a b = ite (str_discrete a b) true false

abbrev pub default_disk_size : ℕ
default_disk_size = 32

-- `ConnectionStatus` of db/machine.go.
unfoldable pub connection_status : Machine → String
unfolding str_discrete
connection_status m =
    if not (same m.public_ip "") && m.connected
    then "connected"
    else (if same m.status "connected" || same m.status "reconnecting"
        then "reconnecting"
        else (if not (same m.public_ip "") then "connecting" else ""))

-- The database machine that a blueprint's machine asks for, once its role is parsed.
unfoldable pub desired_machine : Cloud → Blueprint.Machine → Role → Machine
unfolding str_discrete
desired_machine cld bpm role = record {
  id = 0;
  provider = bpm.provider;
  region = bpm.region;
  size = bpm.size;
  disk_size = if bpm.disk_size == 0 then default_disk_size else bpm.disk_size;
  ssh_keys = if same cld.admin_key "" then bpm.ssh_keys else bpm.ssh_keys ++ cld.admin_key ∷ [];
  floating_ip = bpm.floating_ip;
  preemptible = bpm.preemptible;
  cloud_id = "";
  public_ip = "";
  private_ip = "";
  status = "";
  role = role;
  connected = false;
}

-- A role that does not parse leaves the machine out.
abbrev pub with_role : Cloud → Blueprint.Machine → Option Role → List Machine → List Machine
with_role cld bpm none rest = rest
with_role cld bpm (some role) rest = desired_machine cld bpm role ∷ rest

unfoldable pub desired_machines : Cloud → List Blueprint.Machine → List Machine
unfolding desired_machine parse_role str_discrete
desired_machines cld [] = []
desired_machines cld (bpm ∷ bpms) =
    let rest = desired_machines cld bpms in
    if not (same bpm.provider cld.provider_name) || not (same bpm.region cld.region)
    then rest
    else with_role cld bpm (parse_role bpm.role) rest

-- Whether a database machine is in this region of this provider.
unfoldable pub in_cloud : Cloud → Machine → Bool
unfolding str_discrete
in_cloud cld dbm = same dbm.provider cld.provider_name && same dbm.region cld.region

unfoldable pub select_machines : Cloud → Database → List Machine
unfolding in_cloud
select_machines cld db = select_from_machine (in_cloud cld) db

abbrev pub is_unassigned : Role → Bool
is_unassigned r = ite (Role-discrete r unassigned) true false

unfoldable pub Bool-discrete : Discrete Bool
Bool-discrete = hlevel

-- The score of two machines of one provider and region: -1 if they cannot be one machine, 0 if they
-- have one cloud ID, and else the lower the better they fit.
unfoldable pub score_in_place : Machine → Machine → ℤ
unfolding str_discrete Role-discrete Bool-discrete
score_in_place l r =
    if ite (Bool-discrete l.preemptible r.preemptible) false true
    then negsuc 0
    else (if not (same l.size r.size)
        then negsuc 0
        else (if not (l.disk_size == 0)
              && not (r.disk_size == 0)
              && not (l.disk_size == r.disk_size)
            then negsuc 0
            else (if not (is_unassigned l.role)
                  && not (is_unassigned r.role)
                  && ite (Role-discrete l.role r.role) false true
                then negsuc 0
                else (if not (same l.cloud_id "")
                      && not (same r.cloud_id "")
                      && same l.cloud_id r.cloud_id
                    then pos 0
                    else pos (
                        10
                        - (if not (same l.floating_ip "")
                              && not (same r.floating_ip "")
                              && same l.floating_ip r.floating_ip
                            then 2
                            else 0)
                        - (if not (is_unassigned l.role) && not (is_unassigned r.role)
                            then 1
                            else 0))))))

-- `machineScore`: machines of two places are a panic.
unfoldable pub machine_score : Machine → Machine → Outcome ℤ
unfolding score_in_place
machine_score l r =
    if not (same l.provider r.provider) || not (same l.region r.region)
    then panic
    else ok (score_in_place l r)

-- The ACL that lets one range of addresses in on all ports.
abbrev pub open_to : String → Acl
open_to cidr = record { cidr_ip = cidr; min_port = 1; max_port = 65535 }

-- The loop over the administrators' addresses.
unfoldable pub admin_acls : List String → List Acl → List Acl
unfolding insert_key
admin_acls [] acls = acls
admin_acls (cidr ∷ cidrs) acls = admin_acls cidrs (insert_key Acl-discrete (open_to cidr) acls)

-- The ACL of a connection from the public internet.
abbrev pub public_acl : Blueprint.Connection → Acl
public_acl conn = record {
  cidr_ip = "0.0.0.0/0";
  min_port = conn.min_port;
  max_port = conn.max_port;
}

-- The loop over the connections.
unfoldable pub public_acls : List Blueprint.Connection → List Acl → List Acl
unfolding insert_key slice_contains
public_acls [] acls = acls
public_acls (conn ∷ conns) acls = public_acls conns (
    if slice_contains conn.from public_internet_label
    then insert_key Acl-discrete (public_acl conn) acls
    else acls)

-- `desiredACLs`: a set, as the list of its elements.
unfoldable pub desired_acls : Blueprint → List Acl
unfolding admin_acls public_acls
desired_acls bp = public_acls bp.connections (admin_acls (bp.admin_acl ++ "local" ∷ []) [])
