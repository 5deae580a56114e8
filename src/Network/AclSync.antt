-- ===== src/Network/AclSync.antt =====
-- minion/network/acl.go: `syncACLs` and `syncAddressSets`.
use Prim.Native.String.{◌++◌}
use mathlib.Core.List as List
use k_elda_archive.Base.{
  ℕ, String, false, List, [], ◌∷◌, map, MapRange, Option, none, some, has, insert_key, decimal,
  join_with, str_discrete, if◌then◌else◌,
}
use k_elda_archive.Db.Rows.{Connection}
use k_elda_archive.Join.Hash.{hash_join}
use k_elda_archive.Network.Acl.{
  AclCore, AclCore-discrete, SwitchAcl, AddressSet, AclConnection, Hashing, resolve_connections,
}

-- `or` and `and`
unfoldable pub any_of : List String → String
unfolding join_with
any_of predicates = "(" ++ join_with " || " predicates ++ ")"

unfoldable pub all_of : List String → String
unfolding join_with
all_of predicates = "(" ++ join_with " && " predicates ++ ")"

-- `from` and `to`
abbrev pub src_is : String → String
src_is ip = "ip4.src == " ++ ip

abbrev pub dst_is : String → String
dst_is ip = "ip4.dst == " ++ ip

unfoldable pub port_constraint : ℕ → ℕ → String → String
unfolding decimal
port_constraint min_port max_port direction =
    "("
    ++ decimal min_port
    ++ " <= udp."
    ++ direction
    ++ " <= "
    ++ decimal max_port
    ++ " || "
    ++ decimal min_port
    ++ " <= tcp."
    ++ direction
    ++ " <= "
    ++ decimal max_port
    ++ ")"

-- `getMatchString`
unfoldable pub get_match_string : AclConnection → String
unfolding any_of all_of port_constraint
get_match_string conn = any_of (
    all_of
      (src_is conn.from ∷ dst_is conn.to ∷ port_constraint conn.min_port conn.max_port "dst" ∷ [])
    ∷ all_of
        (src_is conn.to ∷ dst_is conn.from ∷ port_constraint conn.min_port conn.max_port "src" ∷ [])
    ∷ [])

unfoldable pub icmp_match : AclConnection → String
unfolding all_of
icmp_match conn = all_of (src_is conn.from ∷ dst_is conn.to ∷ "icmp" ∷ [])

-- `directedACLs`, of an ACL's action, match and priority.
abbrev pub new_acl : ℕ → String → String → String → SwitchAcl
new_acl priority direction match' action = record {
  uuid = "";
  core = record { priority = priority; direction = direction; match' = match'; action = action };
  log = false;
}

abbrev pub directed_acls : String → String → ℕ → List SwitchAcl
directed_acls action match' priority =
    new_acl priority "from-lport" match' action ∷ new_acl priority "to-lport" match' action ∷ []

abbrev pub drop_acls : List SwitchAcl
drop_acls = directed_acls "drop" "ip" 0

abbrev pub allow_acls : AclConnection → List SwitchAcl
unfolding get_match_string
allow_acls conn = directed_acls "allow" (get_match_string conn) 1

abbrev pub icmp_acls : String → List SwitchAcl
icmp_acls match' = directed_acls "allow-related" match' 1

-- The loop over the connections, with `icmpMatches`.
unfoldable pub connection_acls : List String → List AclConnection → List SwitchAcl
unfolding icmp_match get_match_string has insert_key str_discrete
connection_acls seen [] = []
connection_acls seen (conn ∷ conns) =
    let icmp = icmp_match conn in
    let rest = connection_acls (insert_key str_discrete icmp seen) conns in
    List.◌++◌ (allow_acls conn)
      (if has str_discrete icmp seen then rest else List.◌++◌ (icmp_acls icmp) rest)

abbrev pub core_of : SwitchAcl → AclCore
core_of acl = acl.core

unfoldable pub expected_acls : List AclConnection → List SwitchAcl
unfolding connection_acls
expected_acls conns = List.◌++◌ drop_acls (connection_acls [] conns)

-- The calls of the client: `DeleteACLs` and `CreateACLs`, each left out for an empty slice.
pub record AclCalls : Type 0 where
  pub deleted : List SwitchAcl
  pub created : List AclCore

-- `syncACLs`, by the ACLs that are listed; `none` is an error, after which nothing is called.
unfoldable pub sync_acls :
    MapRange (AclCore × SwitchAcl) → Option (List SwitchAcl) → List AclConnection → AclCalls
unfolding hash_join expected_acls AclCore-discrete
sync_acls order none conns = record { deleted = []; created = [] }
sync_acls order (some listed) conns =
    let joined = hash_join AclCore-discrete order core_of core_of (expected_acls conns) listed in
    record { deleted = joined.lonely_rights; created = map core_of joined.lonely_lefts }

pub record SetCalls : Type 0 where
  pub deleted : List AddressSet
  pub created : List AddressSet

-- `syncAddressSets`
module _ (hashing : Hashing) where
  unfoldable pub set_key : AddressSet → String
  unfolding join_with
  set_key set = join_with "" (List.◌++◌ (hashing.sort set.addresses) (set.name ∷ []))

  unfoldable pub sync_address_sets :
      MapRange (String × AddressSet) → Option (List AddressSet) → List AddressSet → SetCalls
  unfolding hash_join set_key str_discrete
  sync_address_sets order none sets = record { deleted = []; created = [] }
  sync_address_sets order (some listed) sets =
      let joined = hash_join str_discrete order set_key set_key sets listed in
      record { deleted = joined.lonely_rights; created = joined.lonely_lefts }

  -- `updateACLs`
  unfoldable pub update_acls :
      MapRange (String × List String)
      → MapRange (String × AddressSet)
      → MapRange (AclCore × SwitchAcl)
      → Option (List AddressSet)
      → Option (List SwitchAcl)
      → List Connection
      → List (String × String)
      → SetCalls × AclCalls
  unfolding resolve_connections sync_address_sets sync_acls
  update_acls names sets acls listed_sets listed_acls conns ips =
      let r = resolve_connections hashing names conns ips in
      (sync_address_sets sets listed_sets r.1, sync_acls acls listed_acls r.0)
