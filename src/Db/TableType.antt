-- ===== src/Db/TableType.antt =====
-- db/table.go: the types of the tables, by the names that reflection gives the rows' types.
use Prim.Native.Nat.{Ordering}
use Prim.Native.String
use k_elda_archive.Base.{ℕ, String, Bool, true, false, List, [], ◌∷◌, ◌≡◌, refl, ltb}

pub data TableType : Type 0 where
  blueprint_table machine_table container_table minion_table connection_table : TableType
  load_balancer_table etcd_table placement_table image_table hostname_table : TableType

unfoldable pub TableType-discrete : Discrete TableType
TableType-discrete = hlevel

unfoldable pub type_name : TableType → String
type_name blueprint_table = "db.Blueprint"
type_name machine_table = "db.Machine"
type_name container_table = "db.Container"
type_name minion_table = "db.Minion"
type_name connection_table = "db.Connection"
type_name load_balancer_table = "db.LoadBalancer"
type_name etcd_table = "db.Etcd"
type_name placement_table = "db.Placement"
type_name image_table = "db.Image"
type_name hostname_table = "db.Hostname"

-- `AllTables`.
abbrev pub all_tables : List TableType
all_tables =
    blueprint_table ∷ machine_table ∷ container_table ∷ minion_table ∷ connection_table
    ∷ load_balancer_table ∷ etcd_table ∷ placement_table ∷ image_table ∷ hostname_table ∷ []

-- `Less` of `tableSlice`.
unfoldable pub less : TableType → TableType → Bool
unfolding type_name
less a b = elim (String.compare (type_name a) (type_name b)) [ Ordering.lt ↦ true | _ ↦ false ]

-- The place of a table in the order of the names.
abbrev pub rank : TableType → ℕ
rank blueprint_table = 0
rank connection_table = 1
rank container_table = 2
rank etcd_table = 3
rank hostname_table = 4
rank image_table = 5
rank load_balancer_table = 6
rank machine_table = 7
rank minion_table = 8
rank placement_table = 9

pub less-rank : (a b : TableType) → less a b ≡ ltb (rank a) (rank b)
unfolding less
less-rank blueprint_table blueprint_table = refl
less-rank blueprint_table _ = refl
less-rank machine_table blueprint_table = refl
less-rank machine_table _ = refl
less-rank container_table blueprint_table = refl
less-rank container_table _ = refl
less-rank minion_table blueprint_table = refl
less-rank minion_table _ = refl
less-rank connection_table blueprint_table = refl
less-rank connection_table _ = refl
less-rank load_balancer_table blueprint_table = refl
less-rank load_balancer_table _ = refl
less-rank etcd_table blueprint_table = refl
less-rank etcd_table _ = refl
less-rank placement_table blueprint_table = refl
less-rank placement_table _ = refl
less-rank image_table blueprint_table = refl
less-rank image_table _ = refl
less-rank hostname_table blueprint_table = refl
less-rank hostname_table _ = refl
