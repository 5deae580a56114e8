-- ===== src/Blueprint.antt =====
-- The types of blueprint/blueprint.go: what a user's policy asks for. A map in a field is the list
-- of its entries.
use k_elda_archive.Base.{ℕ, String, Bool, List, [], str_discrete, ℕ_discrete}

pub record Placement : Type 0 where
  pub target_container : String
  pub exclusive : Bool
  pub provider : String
  pub size : String
  pub region : String
  pub floating_ip : String

pub record Image : Type 0 where
  pub name : String
  pub dockerfile : String

-- The wrapped value is a string or the name of a secret.
pub data ContainerValue : Type 0 where
  text : String → ContainerValue
  secret : String → ContainerValue

pub record VolumeMount : Type 0 where
  pub volume_name : String
  pub mount_path : String

pub record Container : Type 0 where
  pub id : String
  pub image : Image
  pub command : List String
  pub env : List (String × ContainerValue)
  pub filepath_to_content : List (String × ContainerValue)
  pub hostname : String
  pub privileged : Bool
  pub volume_mounts : List VolumeMount

pub record Volume : Type 0 where
  pub name : String
  pub type' : String
  pub conf : List (String × String)

pub record LoadBalancer : Type 0 where
  pub name : String
  pub hostnames : List String

pub record Connection : Type 0 where
  pub from : List String
  pub to : List String
  pub min_port : ℕ
  pub max_port : ℕ

pub record Machine : Type 0 where
  pub provider : String
  pub role : String
  pub size : String
  pub disk_size : ℕ
  pub region : String
  pub ssh_keys : List String
  pub floating_ip : String
  pub preemptible : Bool

pub record Blueprint : Type 0 where
  pub containers : List Container
  pub load_balancers : List LoadBalancer
  pub connections : List Connection
  pub placements : List Placement
  pub machines : List Machine
  pub volumes : List Volume
  pub admin_acl : List String
  pub namespace : String

-- The zero value.
abbrev pub no_blueprint : Blueprint
no_blueprint = record {
  containers = [];
  load_balancers = [];
  connections = [];
  placements = [];
  machines = [];
  volumes = [];
  admin_acl = [];
  namespace = "";
}

-- The label that stands for the public network.
abbrev pub public_internet_label : String
public_internet_label = "public"

unfoldable pub Image-discrete : Discrete Image
unfolding str_discrete
Image-discrete = hlevel str_discrete

unfoldable pub Blueprint-discrete : Discrete Blueprint
unfolding str_discrete ℕ_discrete
Blueprint-discrete = hlevel (str_discrete, ℕ_discrete)
