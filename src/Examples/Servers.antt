-- ===== src/Examples/Servers.antt =====
-- A worker's server that is told a configuration.
use k_elda_archive.Base.{◌≡◌, ◌≢◌, refl, [], ◌∷◌, true, some, ok, arith, has, ℕ_discrete, keep, pos}
use k_elda_archive.Db.{Database}
use k_elda_archive.Db.Queries.{minion_self}
use k_elda_archive.Db.Rows.{Minion, minion, worker}
use k_elda_archive.Db.Tables.{new_table}
use k_elda_archive.Examples.Data.{orders, policy, leading}
use k_elda_archive.Examples.Foremen.{booted}
use k_elda_archive.Examples.Policy.{leading-IsSoundPolicy}
use k_elda_archive.Foreman.Config.{MinionConfig, make_config}
use k_elda_archive.Server.Config.{Texts, get_config, set_config}
use k_elda_archive.Server.Reports.{resent}
use k_elda_archive.Server.Configured.{set_config-IsConfigured}
use k_elda_archive.Server.RoundTrip.{IsMinion, IsConfigured}

abbrev texts : Texts
texts = record {
  print = λ bp. "{}";
  parse = λ s. some policy;
  split = λ s. s ∷ [];
  sort = λ ss. ss;
}

abbrev own_row : Minion
own_row = record (minion.zero_row 3) { self = true; role = worker }

abbrev served : Database
served = record leading { minions = record new_table { rows = (3, own_row) ∷ [] } }

abbrev told : MinionConfig
told = record {
  id = "";
  role = pos 0;
  private_ip = "10.0.0.1";
  blueprint = "{}";
  provider = "Amazon";
  size = "m3.medium";
  region = "us-west-1";
  floating_ip = "";
  etcd_members = "10.0.0.2" ∷ [];
  authorized_keys = "key" ∷ [];
}

served-IsMinion : IsMinion own_row served
unfolding has ℕ_discrete keep
served-IsMinion = record {
  blueprints = record { owned = ((refl, omega arith), tt); distinct = (refl, tt) };
  minions = record { owned = ((refl, omega arith), tt); distinct = (refl, tt) };
  etcds = record { owned = ((refl, omega arith), tt); distinct = (refl, tt) };
  policy = record {
    images = leading-IsSoundPolicy.images;
    containers = leading-IsSoundPolicy.containers;
    load_balancers = leading-IsSoundPolicy.load_balancers;
    connections = leading-IsSoundPolicy.connections;
    placements = leading-IsSoundPolicy.placements;
  };
  one_blueprint = omega arith;
  one_etcd = omega arith;
  one_self = refl;
}

set_config-IsConfigured_example :
    IsConfigured texts told policy own_row (set_config texts orders told served)
set_config-IsConfigured_example =
    set_config-IsConfigured orders texts told policy own_row served refl served-IsMinion

own-row : minion_self served ≡ ok own_row
unfolding minion_self
own-row = refl

says_now : MinionConfig
says_now = record told {
  role = pos 1;
  private_ip = "";
  provider = "";
  size = "";
  region = "";
  etcd_members = [];
  authorized_keys = "" ∷ [];
}

says-now : get_config texts served served ≡ ok says_now
unfolding get_config says_now
says-now = refl

resent_example : says_now ≢ make_config (booted ∷ []) booted "{}"
resent_example =
    resent texts served served (booted ∷ []) booted "{}" own_row says_now own-row (λ e. cc e)
      says-now
