-- ===== src/Examples/Peers.antt =====
-- A minion with a row for a minion that is gone, and a store with a new one.
use k_elda_archive.Base.{[], ◌∷◌, String, Option, true, some}
use k_elda_archive.Db.{Database, new}
use k_elda_archive.Db.Rows.{Minion, minion, worker}
use k_elda_archive.Db.Slots
use k_elda_archive.Db.Tables.{new_table}

abbrev self_row : Minion
self_row = record (minion.zero_row 1) { self = true; role = worker; private_ip = "10.0.0.1" }

abbrev gone_row : Minion
gone_row = record (minion.zero_row 2) { role = worker; private_ip = "10.0.0.2" }

abbrev with_peer : Database
with_peer = record new {
  cur_id = 2;
  minions = record new_table { rows = (1, self_row) ∷ (2, gone_row) ∷ [] };
}

abbrev parse_peer : String → Option Minion
parse_peer text = some (record (minion.zero_row 0) { role = worker; private_ip = text })
