-- ===== src/Network/Acl.antt =====
-- minion/network/acl.go: the ACLs of the logical switch, and the sets of addresses that they name.
-- What the Open vSwitch client lists is a parameter, and so are sort.Strings and the SHA-256 hash in
-- hexadecimal; the calls that create and delete are the results. A map from hostnames to IPs and one
-- from names of sets to addresses are association lists.
use Prim.Native.String.{◌++◌}
use mathlib.Core.List as List
use k_elda_archive.Base.{
  ℕ, String, Bool, List, [], ◌∷◌, map, MapRange, Option, none, some, get, put, has, keys,
  insert_key, join_with, str_discrete, ℕ_discrete, if◌then◌else◌,
}
use k_elda_archive.Blueprint.{public_internet_label}
use k_elda_archive.Db.Rows.{Connection}
use k_elda_archive.Str.Defs.{slice_filter_out}

-- ovsdb.ACLCore and ovsdb.ACL.
pub record AclCore : Type 0 where
  pub priority : ℕ
  pub direction : String
  pub match' : String
  pub action : String

pub record SwitchAcl : Type 0 where
  pub uuid : String
  pub core : AclCore
  pub log : Bool

unfoldable pub AclCore-discrete : Discrete AclCore
unfolding str_discrete ℕ_discrete
AclCore-discrete = hlevel (str_discrete, ℕ_discrete)

-- ovsdb.AddressSet
pub record AddressSet : Type 0 where
  pub name : String
  pub addresses : List String

-- `connection`: each end is an IP or the name of a set of addresses.
pub record AclConnection : Type 0 where
  pub from : String
  pub to : String
  pub min_port : ℕ
  pub max_port : ℕ

-- The loop of `uniqueStrings`, with its set.
unfoldable pub unique_strings : List String → List String → List String
unfolding has insert_key str_discrete
unique_strings seen [] = []
unique_strings seen (s ∷ strs) =
    let rest = unique_strings (insert_key str_discrete s seen) strs in
    if has str_discrete s seen then rest else s ∷ rest

-- `resolveHostnames`: an unknown hostname is left out.
abbrev pub cons_some : Option String → List String → List String
cons_some none rest = rest
cons_some (some ip) rest = ip ∷ rest

unfoldable pub resolve_hostnames : List String → List (String × String) → List String
unfolding get str_discrete
resolve_hostnames [] ips = []
resolve_hostnames (h ∷ hs) ips = cons_some (get str_discrete h ips) (resolve_hostnames hs ips)

pub record Hashing : Type 0 where
  pub sort : List String → List String
  pub sha : String → String

module _ (hashing : Hashing) where
  open hashing use {sort, sha}

  -- `endpointName`: the name, and the sets with the one that the name is of.
  abbrev pub add_set :
      String → List String → List (String × List String) → List (String × List String)
  unfolding put has str_discrete
  add_set name members sets =
      if has str_discrete name (keys sets) then sets else put str_discrete name members sets

  unfoldable pub endpoint_name :
      List String → List (String × List String) → String × List (String × List String)
  unfolding join_with put has str_discrete
  endpoint_name (m ∷ []) sets = (m, sets)
  endpoint_name members sets =
      let name = "sha" ++ sha (join_with "" (sort members)) in
      ("$" ++ name, add_set name (sort members) sets)

  -- One side of a connection.
  unfoldable pub resolve_side : List (String × String) → List String → List String
  unfolding slice_filter_out unique_strings resolve_hostnames
  resolve_side ips side =
      resolve_hostnames (unique_strings [] (slice_filter_out side public_internet_label)) ips

  -- A connection with its two sides resolved, before the rest of the loop.
  abbrev pub named :
      Connection
      → List String
      → List String
      → List (String × List String)
      → AclConnection × List (String × List String)
  unfolding endpoint_name
  named conn from to sets =
      let f = endpoint_name from sets in
      let t = endpoint_name to f.1 in
      (record { from = f.0; to = t.0; min_port = conn.min_port; max_port = conn.max_port }, t.1)

  -- The body of the loop: a side without an IP leaves the connection out.
  unfoldable pub resolve_one :
      Connection
      → List String
      → List String
      → List AclConnection × List (String × List String)
      → List AclConnection × List (String × List String)
  unfolding endpoint_name
  resolve_one conn [] to s = s
  resolve_one conn (f ∷ from) [] s = s
  resolve_one conn (f ∷ from) (t ∷ to) s =
      let n = named conn (f ∷ from) (t ∷ to) s.1 in (List.◌++◌ s.0 (n.0 ∷ []), n.1)

  unfoldable pub resolve_all :
      List (String × String)
      → List Connection
      → List AclConnection × List (String × List String)
      → List AclConnection × List (String × List String)
  unfolding resolve_one resolve_side
  resolve_all ips [] s = s
  resolve_all ips (conn ∷ conns) s =
      resolve_all ips conns
        (resolve_one conn (resolve_side ips conn.from) (resolve_side ips conn.to) s)

  -- `resolveConnections`
  unfoldable pub resolve_connections :
      MapRange (String × List String)
      → List Connection
      → List (String × String)
      → List AclConnection × List AddressSet
  unfolding resolve_all
  resolve_connections order conns ips =
      let s = resolve_all ips conns ([], []) in
      (s.0, map (λ e. record { name = e.0; addresses = e.1 }) (order.range s.1))
