-- ===== src/Examples/Clouds.antt =====
-- One region of a provider: a machine that still runs, one that is gone, one that is new, and one of
-- another region.
use k_elda_archive.Base.{
  ℕ, ◌≡◌, refl, String, List, [], ◌∷◌, arith, has, ℕ_discrete, false, true, ok, in_order,
}
use k_elda_archive.Blueprint
use k_elda_archive.Blueprint.{no_blueprint}
use k_elda_archive.Cloud.Join.{sync_db_with_cloud, sync_db_with_blueprint, join_impl}
use k_elda_archive.Cloud.Desired.{machines_asked}
use k_elda_archive.Cloud.Machines.{Cloud}
use k_elda_archive.Cloud.Mirror.{Mirrors, sync_db_with_cloud-Mirrors}
use k_elda_archive.Cloud.Plan.{IsPlan, sync_db_with_blueprint-IsPlan}
use k_elda_archive.Cloud.Whole.{Joins, join_impl-Joins}
use k_elda_archive.Db.{Database, new}
use k_elda_archive.Db.Invariant.{IsSound-mono}
use k_elda_archive.Db.Queries.{get_blueprint}
use k_elda_archive.Db.Rows.{Machine, machine, BlueprintRow}
use k_elda_archive.Db.Slots
use k_elda_archive.Db.Tables.{new_table}
use k_elda_archive.Engine.Effects.{Leaves, Sound}

abbrev pub west : Cloud
west = record { namespace = "ns"; provider_name = "Amazon"; region = "us-west-1"; admin_key = "" }

abbrev pub at_west : ℕ → String → Machine
at_west id cloud_id = record (machine.zero_row id) {
  provider = "Amazon";
  region = "us-west-1";
  size = "m3.medium";
  cloud_id = cloud_id;
}

abbrev pub at_east : Machine
at_east = record (at_west 3 "east") { region = "us-east-1" }

abbrev pub listed_machines : List Machine
listed_machines = at_west 0 "stays" ∷ at_west 0 "comes" ∷ []

abbrev pub before : Database
before = record new {
  cur_id = 3;
  machines = record new_table {
    rows =
        (1, at_west 1 "stays")
        ∷ (2, record (at_west 2 "goes") { preemptible = true })
        ∷ (3, at_east)
        ∷ [];
  };
}

before-machines : Sound Slots.machines before
unfolding has ℕ_discrete
before-machines = record {
  owned = ((refl, omega arith), ((refl, omega arith), ((refl, omega arith), tt)));
  distinct = (refl, (refl, (refl, tt)));
}

sync_db_with_cloud-Mirrors_example :
    Leaves Slots.machines before
      (Mirrors west listed_machines before)
      (sync_db_with_cloud west listed_machines before)
sync_db_with_cloud-Mirrors_example =
    sync_db_with_cloud-Mirrors west listed_machines before before-machines
      ((refl, refl), ((refl, refl), tt))

-- The blueprint asks for two machines.
abbrev wanted : Blueprint.Machine
wanted = record {
  provider = "Amazon";
  role = "Worker";
  size = "m3.medium";
  disk_size = 0;
  region = "us-west-1";
  ssh_keys = [];
  floating_ip = "";
  preemptible = false;
}

abbrev plan_row : BlueprintRow
plan_row = record {
  id = 4;
  blueprint = record no_blueprint { machines = wanted ∷ wanted ∷ wanted ∷ []; namespace = "ns" };
}

abbrev planned : Database
planned = record before { cur_id = 4; blueprints = record new_table { rows = (4, plan_row) ∷ [] } }

planned-machines : Sound Slots.machines planned
planned-machines = IsSound-mono machine 3 4 before.machines (omega arith) before-machines

planned-blueprint : get_blueprint planned ≡ ok plan_row
unfolding get_blueprint
planned-blueprint = refl

sync_db_with_blueprint-IsPlan_example :
    IsPlan west
      (machines_asked west plan_row.blueprint.machines)
      planned
      (sync_db_with_blueprint west plan_row.blueprint planned)
sync_db_with_blueprint-IsPlan_example =
    sync_db_with_blueprint-IsPlan west plan_row.blueprint planned planned-machines

join_impl-Joins_example :
    Joins west listed_machines plan_row.blueprint planned
      (join_impl in_order west (ok listed_machines) planned)
join_impl-Joins_example =
    join_impl-Joins in_order west listed_machines plan_row planned planned-blueprint refl
      planned-machines ((refl, refl), ((refl, refl), tt))
