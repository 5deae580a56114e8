-- ===== src/Etcd/Peers.antt =====
-- What `readMinion` leaves in the minion table.
use mathlib.Core.List.Perm
use k_elda_archive.Base.{
  join_with, none, String, Bool, not, List, [], ◌∷◌, Perm, MapRange, keep, values, Option, some,
}
use k_elda_archive.Cloud.Machines.{same}
use k_elda_archive.Db.{Database}
use k_elda_archive.Db.Rows.{Minion}
use k_elda_archive.Db.Slots
use k_elda_archive.Etcd.Minions.{MinionKey, MinionKey-discrete, minion_key}
use k_elda_archive.Join.{Joined}
use k_elda_archive.Join.Hash.{hash_join}

abbrev pub own : Minion → Bool
own m = m.self

abbrev pub peer : Minion → Bool
peer m = not m.self

module _ (order : MapRange (MinionKey × Minion)) (db : Database) (peers : List Minion) where
  rows : List Minion
  rows = values db.minions.rows

  joined : Joined Minion Minion
  joined = hash_join MinionKey-discrete order minion_key minion_key (keep peer rows) peers

-- What a row says of its minion, besides the ID and whether it is the minion itself.
abbrev pub facts : Minion → MinionKey
facts m = record {
  role = m.role;
  private_ip = m.private_ip;
  host_subnets = join_with " " m.host_subnets;
  provider = m.provider;
  size = m.size;
  region = m.region;
  floating_ip = m.floating_ip;
}

-- The address of the last row, or the one given.
abbrev last_address : String → List Minion → String
last_address ip [] = ip
last_address ip (m ∷ ms) = last_address m.private_ip ms

-- The minions that the texts are read as.
abbrev parsed : (String → Option Minion) → List String → List Minion
parsed parse [] = []
parsed parse (text ∷ texts) = elim (parse text) [
  | none ↦ parsed parse texts
  | some m ↦ m ∷ parsed parse texts
]

-- The minions that the texts are read as, but those at the address of the minion's own row.
abbrev pub peers_in : (String → Option Minion) → List String → List Minion → List Minion
peers_in parse tree rows =
    keep (λ m. not (same (last_address "" (keep own rows)) m.private_ip)) (parsed parse tree)
