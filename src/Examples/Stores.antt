-- ===== src/Examples/Stores.antt =====
-- Two minions of one etcd store: one leads and writes its hostnames, the other reads them.
use mathlib.Core.List.Perm
use mathlib.Core.List.{Nodup-nil}
use k_elda_archive.Base.{
  ◌≡◌, ◌≢◌, refl, sym, ap, [], ◌∷◌, List, String, Bool, true, false, Option, none, some, ok, arith,
  has, ℕ_discrete, str_discrete, in_order, keep, values, ite, if◌then◌else◌, map,
}
use k_elda_archive.Cloud.Machines.{same, Bool-discrete}
use k_elda_archive.Cloud.Mirror.{eq→same}
use k_elda_archive.Db.{Database, new}
use k_elda_archive.Db.Queries.{etcd_leader}
use k_elda_archive.Db.Rows.{
  Hostname, hostname, Hostname-discrete, Etcd-discrete, etcd, minion, master,
}
use k_elda_archive.Db.Tables.{new_table}
use k_elda_archive.Etcd.Elector.{
  Request, refresh, create, Answer, accepted, exists, failed, campaign,
}
use k_elda_archive.Etcd.Election.{IsNode, ip_of}
use k_elda_archive.Etcd.Follow.{RoundTrips, Follows, follower-Follows, hostnames-IsMirrored, stored}
use k_elda_archive.Etcd.Store.{
  missing, printed, unprinted, read_etcd_node, Codec, Written, mirrored_hostnames, mirror_once,
}
use k_elda_archive.Etcd.Unique.{
  LeaderKey, IsLeaderKey, Cluster, Pass, start, later, IsElected, one_leader,
}
use k_elda_archive.Network.Dns.{hostname_key}
use k_elda_archive.Examples.Data.{leading, following}
use k_elda_archive.Examples.Policy.{following-follower}

abbrev web_name : Hostname
web_name = record (hostname.zero_row 3) { hostname = "web"; ip = "10.0.0.2" }

unfoldable Hostnames-discrete : Discrete (List Hostname)
unfolding Hostname-discrete
Hostnames-discrete = hlevel Hostname-discrete

-- A codec that knows one slice.
abbrev codec : Codec Hostname
codec = record {
  sort = λ rows. rows;
  encode =
      λ rows. ite (Hostnames-discrete rows (web_name ∷ [])) (printed "web") (unprinted "other");
  decode = λ text. web_name ∷ [];
}

codec-RoundTrips : RoundTrips mirrored_hostnames codec
codec-RoundTrips = record {
  sort-perm = λ rows. Perm.rfl;
  decode-encode = λ rows text h. elim (Hostnames-discrete rows (web_name ∷ [])) [
    | yes p ↦ ap (map hostname_key) (sym p)
    | no n ↦ absurd (ground (arith, h, n))
  ];
}

abbrev names : Database
names = record leading { hostnames = record new_table { rows = (3, web_name) ∷ [] } }

names-leader : etcd_leader names ≡ true
unfolding etcd_leader
names-leader = refl

nothing_yet : read_etcd_node missing ≡ ok ""
unfolding read_etcd_node
nothing_yet = refl

names-text : codec.encode (codec.sort (values names.hostnames.rows)) ≡ printed "web"
unfolding Hostnames-discrete
names-text = refl

follower-Follows_example :
    (w : Written) × (mirror_once mirrored_hostnames codec in_order none missing names
      ≡ ok (w, names))
    × Follows mirrored_hostnames names following
        (mirror_once mirrored_hostnames codec in_order none (stored missing w.sent) following)
follower-Follows_example =
    follower-Follows mirrored_hostnames hostnames-IsMirrored codec codec-RoundTrips in_order
      in_order missing "" "web" names following nothing_yet names-leader names-text
      following-follower Nodup-nil (record { owned = tt; distinct = tt })

-- The leader's key, when it does not expire.
abbrev asked : Option String → Request → Answer
asked none (create ip) = accepted
asked none (refresh ip) = failed
asked (some held) (create ip) = exists
asked (some held) (refresh ip) = if same held ip then accepted else failed

abbrev next : Option String → Request → Option String
next none (create ip) = some ip
next none (refresh ip) = none
next (some held) r = some held

abbrev leader_key : LeaderKey
leader_key = record { answer = asked; next = next }

grants-own :
    (holder : Option String) (r : Request)
    → asked holder r ≡ accepted
    → next holder r ≡ some (ip_of r)
grants-own none (create ip) h = refl
grants-own none (refresh ip) h = cc
grants-own (some held) (create ip) h = cc
grants-own (some held) (refresh ip) h = ground (arith, h)

leader_key-IsLeaderKey : IsLeaderKey leader_key
leader_key-IsLeaderKey = record { keeps = λ ip r. refl; grants = grants-own }

abbrev ips : Bool → String
ips true = "10.0.0.1"
ips false = "10.0.0.2"

abbrev node_of : Bool → Database
node_of b = record new {
  cur_id = 2;
  minions = record new_table {
    rows = (1, record (minion.zero_row 1) { self = true; role = master; private_ip = ips b }) ∷ [];
  };
  etcds = record new_table { rows = (2, etcd.zero_row 2) ∷ [] };
}

candidate-IsNode : (b : Bool) → IsNode (ips b) (node_of b)
unfolding has ℕ_discrete keep
candidate-IsNode b = record {
  etcds = record { owned = ((refl, omega arith), tt); distinct = (refl, tt) };
  self = record (minion.zero_row 1) { self = true; role = master; private_ip = ips b };
  one_self = refl;
  address = refl;
}

no_leader : (b : Bool) → etcd_leader (node_of b) ≡ false
unfolding etcd_leader
no_leader b = refl

abbrev at_first : Cluster Bool
at_first = record { holder = none; nodes = node_of }

at_first-IsElected : IsElected ips at_first
at_first-IsElected = record { node = candidate-IsNode; leader = λ b h. cc (h, no_leader b) }

-- The first minion's pass: it leads.
abbrev won_node : Database
won_node = record (node_of true) {
  etcds = record new_table {
    rows = (2, record (etcd.zero_row 2) { leader = true; leader_ip = "10.0.0.1" }) ∷ [];
    should_alert = true;
  };
}

abbrev nodes_after : Bool → Database
nodes_after true = won_node
nodes_after false = node_of false

abbrev won : Cluster Bool
won = record { holder = some "10.0.0.1"; nodes = nodes_after }

unchanged_other : (b : Bool) → b ≢ true → nodes_after b ≡ node_of b
unchanged_other true n = absurd (n refl)
unchanged_other false n = refl

first-Pass : Pass leader_key true at_first won
unfolding campaign ℕ_discrete Etcd-discrete
first-Pass = record {
  call = some (create "10.0.0.1");
  node = won_node;
  result = refl;
  holder = refl;
  changed = refl;
  others = unchanged_other;
}

addresses-differ : same (ips true) (ips false) ≡ false
unfolding str_discrete
addresses-differ = refl

addresses-distinct : (a b : Bool) → ips a ≡ ips b → a ≡ b
addresses-distinct true true h = refl
addresses-distinct true false h = cc (eq→same _ _ h, addresses-differ)
addresses-distinct false true h = cc (eq→same _ _ (sym h), addresses-differ)
addresses-distinct false false h = refl

won-leader : etcd_leader (won.nodes true) ≡ true
unfolding etcd_leader
won-leader = refl

one_leader_example : true ≡ true
one_leader_example =
    one_leader Bool-discrete leader_key leader_key-IsLeaderKey ips true true addresses-distinct
      at_first-IsElected (later start true first-Pass) won-leader won-leader
