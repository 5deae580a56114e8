-- ===== src/Db/Slots.antt =====
-- Where each table stands in the database. A `Slot` is the access of one table, with its laws; the
-- operations are written once, over a slot.
use k_elda_archive.Base.{ℕ, ◌≡◌, refl}
use k_elda_archive.Db.{Database}
use k_elda_archive.Db.Rows
use k_elda_archive.Db.Rows.{
  Machine, Container, Minion, Connection, LoadBalancer, Etcd, Placement, Image, Hostname,
  BlueprintRow,
}
use k_elda_archive.Db.Tables.{Table, Row}

pub record Slot (R : Type 0) : Type 0 where
  pub row : Row R
  pub read : Database → Table R
  pub write : Table R → Database → Database
  pub count : ℕ → Database → Database
  pub read-write : (t : Table R) (db : Database) → read (write t db) ≡ t
  pub read-count : (n : ℕ) (db : Database) → read (count n db) ≡ read db
  pub write-write : (t u : Table R) (db : Database) → write t (write u db) ≡ write t db
  pub write-read : (db : Database) → write (read db) db ≡ db
  pub cur_id-write : (t : Table R) (db : Database) → (write t db).cur_id ≡ db.cur_id
  pub cur_id-count : (n : ℕ) (db : Database) → (count n db).cur_id ≡ n
  pub count-id : (db : Database) → count db.cur_id db ≡ db
  pub count-write :
      (n : ℕ) (t : Table R) (db : Database) → count n (write t db) ≡ write t (count n db)
  pub count-count : (n m : ℕ) (db : Database) → count n (count m db) ≡ count n db

abbrev pub machines : Slot Machine
machines = record {
  row = Rows.machine;
  read = λ db. db.machines;
  write = λ t db. record db { machines = t };
  count = λ n db. record db { cur_id = n };
  read-write = λ _ _. refl;
  read-count = λ _ _. refl;
  write-write = λ _ _ _. refl;
  write-read = λ _. refl;
  cur_id-write = λ _ _. refl;
  cur_id-count = λ _ _. refl;
  count-id = λ _. refl;
  count-write = λ _ _ _. refl;
  count-count = λ _ _ _. refl;
}

abbrev pub containers : Slot Container
containers = record {
  row = Rows.container;
  read = λ db. db.containers;
  write = λ t db. record db { containers = t };
  count = λ n db. record db { cur_id = n };
  read-write = λ _ _. refl;
  read-count = λ _ _. refl;
  write-write = λ _ _ _. refl;
  write-read = λ _. refl;
  cur_id-write = λ _ _. refl;
  cur_id-count = λ _ _. refl;
  count-id = λ _. refl;
  count-write = λ _ _ _. refl;
  count-count = λ _ _ _. refl;
}

abbrev pub minions : Slot Minion
minions = record {
  row = Rows.minion;
  read = λ db. db.minions;
  write = λ t db. record db { minions = t };
  count = λ n db. record db { cur_id = n };
  read-write = λ _ _. refl;
  read-count = λ _ _. refl;
  write-write = λ _ _ _. refl;
  write-read = λ _. refl;
  cur_id-write = λ _ _. refl;
  cur_id-count = λ _ _. refl;
  count-id = λ _. refl;
  count-write = λ _ _ _. refl;
  count-count = λ _ _ _. refl;
}

abbrev pub connections : Slot Connection
connections = record {
  row = Rows.connection;
  read = λ db. db.connections;
  write = λ t db. record db { connections = t };
  count = λ n db. record db { cur_id = n };
  read-write = λ _ _. refl;
  read-count = λ _ _. refl;
  write-write = λ _ _ _. refl;
  write-read = λ _. refl;
  cur_id-write = λ _ _. refl;
  cur_id-count = λ _ _. refl;
  count-id = λ _. refl;
  count-write = λ _ _ _. refl;
  count-count = λ _ _ _. refl;
}

abbrev pub load_balancers : Slot LoadBalancer
load_balancers = record {
  row = Rows.load_balancer;
  read = λ db. db.load_balancers;
  write = λ t db. record db { load_balancers = t };
  count = λ n db. record db { cur_id = n };
  read-write = λ _ _. refl;
  read-count = λ _ _. refl;
  write-write = λ _ _ _. refl;
  write-read = λ _. refl;
  cur_id-write = λ _ _. refl;
  cur_id-count = λ _ _. refl;
  count-id = λ _. refl;
  count-write = λ _ _ _. refl;
  count-count = λ _ _ _. refl;
}

abbrev pub etcds : Slot Etcd
etcds = record {
  row = Rows.etcd;
  read = λ db. db.etcds;
  write = λ t db. record db { etcds = t };
  count = λ n db. record db { cur_id = n };
  read-write = λ _ _. refl;
  read-count = λ _ _. refl;
  write-write = λ _ _ _. refl;
  write-read = λ _. refl;
  cur_id-write = λ _ _. refl;
  cur_id-count = λ _ _. refl;
  count-id = λ _. refl;
  count-write = λ _ _ _. refl;
  count-count = λ _ _ _. refl;
}

abbrev pub placements : Slot Placement
placements = record {
  row = Rows.placement;
  read = λ db. db.placements;
  write = λ t db. record db { placements = t };
  count = λ n db. record db { cur_id = n };
  read-write = λ _ _. refl;
  read-count = λ _ _. refl;
  write-write = λ _ _ _. refl;
  write-read = λ _. refl;
  cur_id-write = λ _ _. refl;
  cur_id-count = λ _ _. refl;
  count-id = λ _. refl;
  count-write = λ _ _ _. refl;
  count-count = λ _ _ _. refl;
}

abbrev pub images : Slot Image
images = record {
  row = Rows.image;
  read = λ db. db.images;
  write = λ t db. record db { images = t };
  count = λ n db. record db { cur_id = n };
  read-write = λ _ _. refl;
  read-count = λ _ _. refl;
  write-write = λ _ _ _. refl;
  write-read = λ _. refl;
  cur_id-write = λ _ _. refl;
  cur_id-count = λ _ _. refl;
  count-id = λ _. refl;
  count-write = λ _ _ _. refl;
  count-count = λ _ _ _. refl;
}

abbrev pub hostnames : Slot Hostname
hostnames = record {
  row = Rows.hostname;
  read = λ db. db.hostnames;
  write = λ t db. record db { hostnames = t };
  count = λ n db. record db { cur_id = n };
  read-write = λ _ _. refl;
  read-count = λ _ _. refl;
  write-write = λ _ _ _. refl;
  write-read = λ _. refl;
  cur_id-write = λ _ _. refl;
  cur_id-count = λ _ _. refl;
  count-id = λ _. refl;
  count-write = λ _ _ _. refl;
  count-count = λ _ _ _. refl;
}

abbrev pub blueprints : Slot BlueprintRow
blueprints = record {
  row = Rows.blueprint_row;
  read = λ db. db.blueprints;
  write = λ t db. record db { blueprints = t };
  count = λ n db. record db { cur_id = n };
  read-write = λ _ _. refl;
  read-count = λ _ _. refl;
  write-write = λ _ _ _. refl;
  write-read = λ _. refl;
  cur_id-write = λ _ _. refl;
  cur_id-count = λ _ _. refl;
  count-id = λ _. refl;
  count-write = λ _ _ _. refl;
  count-count = λ _ _ _. refl;
}
