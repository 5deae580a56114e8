-- ===== src/Db/Rows.antt =====
-- The rows of the tables: db/machine.go, db/container.go, db/minion.go, db/connection.go,
-- db/load_balancer.go, db/etcd.go, db/placement.go, db/image.go, db/hostname.go and
-- db/blueprint.go, with the roles of db/constants.go. A time is a number whose zero is the zero
-- time.
use k_elda_archive.Base.{
  refl, ℕ, String, Bool, false, List, [], ite, Option, none, some, ℕ_discrete, str_discrete,
}
use k_elda_archive.Blueprint.{
  ContainerValue, VolumeMount, Blueprint, no_blueprint, Blueprint-discrete,
}
use k_elda_archive.Db.Tables.{Row}

-- The role of a machine in the cluster; `unassigned` is the source's None.
pub data Role : Type 0 where
  unassigned worker master : Role

unfoldable pub Role-discrete : Discrete Role
Role-discrete = hlevel

-- `ParseRole`: `none` is the error.
unfoldable pub parse_role : String → Option Role
unfolding str_discrete
parse_role role = ite (str_discrete role "Master") (some master) (
    ite (str_discrete role "Worker") (some worker)
      (ite (str_discrete role "") (some unassigned) none))

pub record Machine : Type 0 where
  pub id : ℕ
  pub provider : String
  pub region : String
  pub size : String
  pub disk_size : ℕ
  pub ssh_keys : List String
  pub floating_ip : String
  pub preemptible : Bool
  pub cloud_id : String
  pub public_ip : String
  pub private_ip : String
  pub status : String
  pub role : Role
  pub connected : Bool

pub record Container : Type 0 where
  pub id : ℕ
  pub ip : String
  pub minion : String
  pub blueprint_id : String
  pub pod_name : String
  pub status : String
  pub command : List String
  pub env : List (String × ContainerValue)
  pub filepath_to_content : List (String × ContainerValue)
  pub hostname : String
  pub created : ℕ
  pub privileged : Bool
  pub volume_mounts : List VolumeMount
  pub image : String
  pub dockerfile : String

pub record Minion : Type 0 where
  pub id : ℕ
  pub self : Bool
  pub authorized_keys : String
  pub role : Role
  pub private_ip : String
  pub provider : String
  pub size : String
  pub region : String
  pub floating_ip : String
  pub host_subnets : List String

pub record Connection : Type 0 where
  pub id : ℕ
  pub from : List String
  pub to : List String
  pub min_port : ℕ
  pub max_port : ℕ

pub record LoadBalancer : Type 0 where
  pub id : ℕ
  pub name : String
  pub ip : String
  pub hostnames : List String

pub record Etcd : Type 0 where
  pub id : ℕ
  pub etcd_ips : List String
  pub leader : Bool
  pub leader_ip : String

pub record Placement : Type 0 where
  pub id : ℕ
  pub target_container : String
  pub exclusive : Bool
  pub other_container : String
  pub provider : String
  pub size : String
  pub region : String
  pub floating_ip : String

pub record Image : Type 0 where
  pub id : ℕ
  pub name : String
  pub dockerfile : String
  pub repo_digest : String
  pub status : String

pub record Hostname : Type 0 where
  pub id : ℕ
  pub hostname : String
  pub ip : String

-- A row of the blueprint table: the ID beside the blueprint.
pub record BlueprintRow : Type 0 where
  pub id : ℕ
  pub blueprint : Blueprint

unfoldable pub Machine-discrete : Discrete Machine
unfolding str_discrete ℕ_discrete Role-discrete Blueprint-discrete
Machine-discrete = hlevel (str_discrete, ℕ_discrete, Role-discrete, Blueprint-discrete)

abbrev pub machine : Row Machine
machine = record {
  get_id = λ r. r.id;
  zero_row = λ id. record {
    id = id;
    provider = "";
    region = "";
    size = "";
    disk_size = 0;
    ssh_keys = [];
    floating_ip = "";
    preemptible = false;
    cloud_id = "";
    public_ip = "";
    private_ip = "";
    status = "";
    role = unassigned;
    connected = false;
  };
  dec = Machine-discrete;
  id-zero = λ id. refl;
}

unfoldable pub Container-discrete : Discrete Container
unfolding str_discrete ℕ_discrete Role-discrete Blueprint-discrete
Container-discrete = hlevel (str_discrete, ℕ_discrete, Role-discrete, Blueprint-discrete)

abbrev pub container : Row Container
container = record {
  get_id = λ r. r.id;
  zero_row = λ id. record {
    id = id;
    ip = "";
    minion = "";
    blueprint_id = "";
    pod_name = "";
    status = "";
    command = [];
    env = [];
    filepath_to_content = [];
    hostname = "";
    created = 0;
    privileged = false;
    volume_mounts = [];
    image = "";
    dockerfile = "";
  };
  dec = Container-discrete;
  id-zero = λ id. refl;
}

unfoldable pub Minion-discrete : Discrete Minion
unfolding str_discrete ℕ_discrete Role-discrete Blueprint-discrete
Minion-discrete = hlevel (str_discrete, ℕ_discrete, Role-discrete, Blueprint-discrete)

abbrev pub minion : Row Minion
minion = record {
  get_id = λ r. r.id;
  zero_row = λ id. record {
    id = id;
    self = false;
    authorized_keys = "";
    role = unassigned;
    private_ip = "";
    provider = "";
    size = "";
    region = "";
    floating_ip = "";
    host_subnets = [];
  };
  dec = Minion-discrete;
  id-zero = λ id. refl;
}

unfoldable pub Connection-discrete : Discrete Connection
unfolding str_discrete ℕ_discrete Role-discrete Blueprint-discrete
Connection-discrete = hlevel (str_discrete, ℕ_discrete, Role-discrete, Blueprint-discrete)

abbrev pub connection : Row Connection
connection = record {
  get_id = λ r. r.id;
  zero_row = λ id. record { id = id; from = []; to = []; min_port = 0; max_port = 0 };
  dec = Connection-discrete;
  id-zero = λ id. refl;
}

unfoldable pub LoadBalancer-discrete : Discrete LoadBalancer
unfolding str_discrete ℕ_discrete Role-discrete Blueprint-discrete
LoadBalancer-discrete = hlevel (str_discrete, ℕ_discrete, Role-discrete, Blueprint-discrete)

abbrev pub load_balancer : Row LoadBalancer
load_balancer = record {
  get_id = λ r. r.id;
  zero_row = λ id. record { id = id; name = ""; ip = ""; hostnames = [] };
  dec = LoadBalancer-discrete;
  id-zero = λ id. refl;
}

unfoldable pub Etcd-discrete : Discrete Etcd
unfolding str_discrete ℕ_discrete Role-discrete Blueprint-discrete
Etcd-discrete = hlevel (str_discrete, ℕ_discrete, Role-discrete, Blueprint-discrete)

abbrev pub etcd : Row Etcd
etcd = record {
  get_id = λ r. r.id;
  zero_row = λ id. record { id = id; etcd_ips = []; leader = false; leader_ip = "" };
  dec = Etcd-discrete;
  id-zero = λ id. refl;
}

unfoldable pub Placement-discrete : Discrete Placement
unfolding str_discrete ℕ_discrete Role-discrete Blueprint-discrete
Placement-discrete = hlevel (str_discrete, ℕ_discrete, Role-discrete, Blueprint-discrete)

abbrev pub placement : Row Placement
placement = record {
  get_id = λ r. r.id;
  zero_row = λ id. record {
    id = id;
    target_container = "";
    exclusive = false;
    other_container = "";
    provider = "";
    size = "";
    region = "";
    floating_ip = "";
  };
  dec = Placement-discrete;
  id-zero = λ id. refl;
}

unfoldable pub Image-discrete : Discrete Image
unfolding str_discrete ℕ_discrete Role-discrete Blueprint-discrete
Image-discrete = hlevel (str_discrete, ℕ_discrete, Role-discrete, Blueprint-discrete)

abbrev pub image : Row Image
image = record {
  get_id = λ r. r.id;
  zero_row = λ id. record { id = id; name = ""; dockerfile = ""; repo_digest = ""; status = "" };
  dec = Image-discrete;
  id-zero = λ id. refl;
}

unfoldable pub Hostname-discrete : Discrete Hostname
unfolding str_discrete ℕ_discrete Role-discrete Blueprint-discrete
Hostname-discrete = hlevel (str_discrete, ℕ_discrete, Role-discrete, Blueprint-discrete)

abbrev pub hostname : Row Hostname
hostname = record {
  get_id = λ r. r.id;
  zero_row = λ id. record { id = id; hostname = ""; ip = "" };
  dec = Hostname-discrete;
  id-zero = λ id. refl;
}

unfoldable pub BlueprintRow-discrete : Discrete BlueprintRow
unfolding str_discrete ℕ_discrete Role-discrete Blueprint-discrete
BlueprintRow-discrete = hlevel (str_discrete, ℕ_discrete, Role-discrete, Blueprint-discrete)

abbrev pub blueprint_row : Row BlueprintRow
blueprint_row = record {
  get_id = λ r. r.id;
  zero_row = λ id. record { id = id; blueprint = no_blueprint };
  dec = BlueprintRow-discrete;
  id-zero = λ id. refl;
}
