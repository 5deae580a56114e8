-- ===== src/Examples/Switches.antt =====
-- The ACLs of a switch with an ACL to delete and an ACL to keep.
use k_elda_archive.Base.{[], ◌∷◌, List, some, in_order}
use k_elda_archive.Network.Acl.{SwitchAcl, AclConnection}
use k_elda_archive.Network.AclLaws.{IsExact, sync_acls-IsExact}
use k_elda_archive.Network.AclSync.{new_acl, sync_acls}

abbrev listed_acls : List SwitchAcl
listed_acls =
    record (new_acl 0 "from-lport" "ip" "drop") { uuid = "u1" }
    ∷ record (new_acl 1 "to-lport" "old" "allow") { uuid = "u2" }
    ∷ []

abbrev web_connection : AclConnection
web_connection = record { from = "10.0.0.2"; to = "$sha1"; min_port = 80; max_port = 81 }

sync_acls-IsExact_example :
    IsExact listed_acls
      (web_connection ∷ web_connection ∷ [])
      (sync_acls in_order (some listed_acls) (web_connection ∷ web_connection ∷ []))
sync_acls-IsExact_example =
    sync_acls-IsExact in_order listed_acls (web_connection ∷ web_connection ∷ [])
