-- ===== src/Etcd/Store.antt =====
-- minion/etcd/util.go, hostname.go and connection.go: one pass of the loop that brings a table and
-- its node in the etcd store together. What the store answers is a parameter, and so are encoding/json
-- and sort.Sort with the order of the rows.
use Prim.Native.String.{◌++◌}
use k_elda_archive.Base.{
  String, List, Option, none, some, if◌then◌else◌, str_discrete, Outcome, ok, err, ◌>>=◌, MapRange,
}
use k_elda_archive.Cloud.Machines.{same}
use k_elda_archive.Db.{Database}
use k_elda_archive.Db.Access.{select_from}
use k_elda_archive.Db.Queries.{every, etcd_leader}
use k_elda_archive.Db.Rows.{Hostname, Connection, Hostname-discrete}
use k_elda_archive.Db.Slots
use k_elda_archive.Db.Slots.{Slot}
use k_elda_archive.Engine.Loops.{add_each, remove_each}
use k_elda_archive.Engine.Services.{dbc_key}
use k_elda_archive.Join.Hash.{hash_join}
use k_elda_archive.Network.Dns.{hostname_key, renumbered}

-- The answer to `store.Get`.
pub data Fetched : Type 0 where
  found : String → Fetched
  missing : Fetched
  failed : String → Fetched

-- `readEtcdNode`: a missing key is an empty node.
unfoldable pub read_etcd_node : Fetched → Outcome String
read_etcd_node (found value) = ok value
read_etcd_node missing = ok ""
read_etcd_node (failed e) = err ("etcd read error: " ++ e)

-- What a write comes to: what was sent to `store.Set`, and the error, if any.
pub record Written : Type 0 where
  pub sent : Option String
  pub error : Option String

-- The result of `jsonMarshal`: the text, or an error.
pub data Printed : Type 0 where
  printed : String → Printed
  unprinted : String → Printed

-- `encoding/json` and `sort.Sort` for one type of rows. What does not
-- parse leaves no rows.
pub record Codec (R : Type 0) : Type 0 where
  pub sort : List R → List R
  pub encode : List R → Printed
  pub decode : String → List R

abbrev pub nothing_written : Written
nothing_written = record { sent = none; error = none }

abbrev pub write_error : Option String → Option String
write_error none = none
write_error (some e) = some ("etcd write error: " ++ e)

-- `writeEtcdSlice`, by the JSON and by the error of `store.Set`, if it gives one.
unfoldable pub write_text : Option String → String → Printed → Written
unfolding str_discrete
write_text set_error old (printed text) =
    if same text old
    then nothing_written
    else record { sent = some text; error = write_error set_error }
write_text set_error old (unprinted e) = record { sent = none; error = write_error (some e) }

unfoldable pub write_etcd_slice : {R : Type 0} → Codec R → Option String → String → List R → Written
unfolding write_text
write_etcd_slice codec set_error old rows =
    write_text set_error old (codec.encode (codec.sort rows))

-- A table that the store mirrors: where it is, what the rows are joined by, and a row with the ID of
-- another.
pub record Mirrored (R K : Type 0) : Type 0 where
  pub slot : Slot R
  pub dec : Discrete K
  pub key : R → K
  pub renumber : R → R → R

abbrev pub mirrored_hostnames : Mirrored Hostname Hostname
mirrored_hostnames = record {
  slot = Slots.hostnames;
  dec = Hostname-discrete;
  key = hostname_key;
  renumber = renumbered;
}

abbrev pub mirrored_connections : Mirrored Connection String
mirrored_connections = record {
  slot = Slots.connections;
  dec = str_discrete;
  key = dbc_key;
  renumber = λ etcd row. record etcd { id = row.id };
}

module _ {R K : Type 0} (m : Mirrored R K) where
  open m use {slot, dec, key, renumber}

  -- `joinHostnames` and `joinConnections`.
  unfoldable pub join_rows : MapRange (K × R) → List R → Database → Outcome Database
  unfolding hash_join add_each remove_each select_from
  join_rows order etcd_rows db =
      let joined = hash_join dec order key key (select_from slot every db) etcd_rows in
      add_each slot renumber joined.lonely_rights (remove_each slot joined.lonely_lefts db)

  -- A pass: what it writes to the store, and the database after it.
  unfoldable pub mirror_once :
      Codec R → MapRange (K × R) → Option String → Fetched → Database → Outcome (Written × Database)
  unfolding read_etcd_node write_etcd_slice etcd_leader join_rows select_from
  mirror_once codec order set_error fetched db = do
    text ← read_etcd_node fetched
    if etcd_leader db
        then ok (write_etcd_slice codec set_error text (select_from slot every db), db)
        else (join_rows order (codec.decode text) db >>= λ db'. ok (nothing_written, db'))

-- `runHostnameOnce` and `runConnectionOnce`.
abbrev pub run_hostname_once :
    Codec Hostname
    → MapRange (Hostname × Hostname)
    → Option String
    → Fetched
    → Database
    → Outcome (Written × Database)
unfolding mirror_once
run_hostname_once = mirror_once mirrored_hostnames

abbrev pub run_connection_once :
    Codec Connection
    → MapRange (String × Connection)
    → Option String
    → Fetched
    → Database
    → Outcome (Written × Database)
unfolding mirror_once
run_connection_once = mirror_once mirrored_connections
