-- ===== src/Foreman/Config.antt =====
-- minion/pb: the configuration of a minion, with the roles of db/constants.go, and the part of
-- cloud/foreman/foreman.go that makes a configuration.
use k_elda_archive.Base.{
  refl, ◌≡◌, ◌==◌, String, Bool, true, false, not, ◌&&◌, ◌||◌, List, [], ◌∷◌, if◌then◌else◌, ite,
  str_discrete, Outcome, ok, panic, ℤ, pos, negsuc,
}
use k_elda_archive.Cloud.Machines.{same, is_unassigned}
use k_elda_archive.Db.Rows.{Machine, Role, unassigned, worker, master, Role-discrete}

-- A role on the wire is any number of 32 bits.
abbrev pub WireRole : Type 0
WireRole = ℤ

pub record MinionConfig : Type 0 where
  pub id : String
  pub role : WireRole
  pub private_ip : String
  pub blueprint : String
  pub provider : String
  pub size : String
  pub region : String
  pub floating_ip : String
  pub etcd_members : List String
  pub authorized_keys : List String

-- `RoleToPB`; a `Role` is one of the three.
unfoldable pub role_to_pb : Role → WireRole
role_to_pb unassigned = pos 0
role_to_pb worker = pos 1
role_to_pb master = pos 2

-- `PBToRole`
unfoldable pub pb_to_role : WireRole → Outcome Role
pb_to_role (pos n) =
    if n == 0
    then ok unassigned
    else (if n == 1 then ok worker else (if n == 2 then ok master else panic))
pb_to_role (negsuc n) = panic

abbrev pub is_master : Role → Bool
is_master r = ite (Role-discrete r master) true false

-- `clusterReady`
unfoldable pub cluster_ready : List Machine → Bool
unfolding Role-discrete str_discrete
cluster_ready [] = true
cluster_ready (m ∷ ms) =
    let rest = cluster_ready ms in
    if is_unassigned m.role || same m.private_ip "" then false else rest

-- The loop of `makeConfig`.
unfoldable pub etcd_ips : List Machine → List String
unfolding Role-discrete str_discrete
etcd_ips [] = []
etcd_ips (m ∷ ms) =
    let rest = etcd_ips ms in
    if is_master m.role && not (same m.private_ip "") then m.private_ip ∷ rest else rest

-- `makeConfig`
unfoldable pub make_config : List Machine → Machine → String → MinionConfig
unfolding etcd_ips
make_config machines minion blueprint = record {
  id = "";
  role = pos 0;
  private_ip = minion.private_ip;
  blueprint = blueprint;
  provider = minion.provider;
  size = minion.size;
  region = minion.region;
  floating_ip = minion.floating_ip;
  etcd_members = etcd_ips machines;
  authorized_keys = minion.ssh_keys;
}

-- A role comes back from the wire as it was sent.
pub role_round_trip : (r : Role) → pb_to_role (role_to_pb r) ≡ ok r
unfolding pb_to_role role_to_pb
role_round_trip unassigned = refl
role_round_trip worker = refl
role_round_trip master = refl
