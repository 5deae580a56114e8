-- ===== src/Network/AclText.antt =====
-- minion/network/acl.go: the ACLs of a switch, written out for its connections.
use Prim.Native.String.{◌++◌}
use k_elda_archive.Base.{ℕ, String, List, [], ◌∷◌, decimal}
use k_elda_archive.Network.Acl.{AclCore, AclConnection}

-- UDP or TCP packets with a source or destination port of the range.
abbrev ports_text : AclConnection → String → String
ports_text conn side =
    "("
    ++ decimal conn.min_port
    ++ " <= udp."
    ++ side
    ++ " <= "
    ++ decimal conn.max_port
    ++ " || "
    ++ decimal conn.min_port
    ++ " <= tcp."
    ++ side
    ++ " <= "
    ++ decimal conn.max_port
    ++ ")"

abbrev pub way_text : String → String → String → String
way_text source destination rest =
    "("
    ++ (("ip4.src == " ++ source) ++ " && " ++ ("ip4.dst == " ++ destination) ++ " && " ++ rest)
    ++ ")"

-- The packets of a connection: from the one to the other at a port of the range, and back from it.
abbrev pub packets : AclConnection → String
packets conn =
    "("
    ++ (way_text conn.from conn.to (ports_text conn "dst")
        ++ " || "
        ++ way_text conn.to conn.from (ports_text conn "src"))
    ++ ")"

-- A core for each direction.
abbrev pub both_ways : ℕ → String → String → List AclCore → List AclCore
both_ways priority match' action rest =
    record { priority = priority; direction = "from-lport"; match' = match'; action = action }
    ∷ record { priority = priority; direction = "to-lport"; match' = match'; action = action }
    ∷ rest

abbrev pub allowed : List AclConnection → List AclCore
allowed [] = []
allowed (conn ∷ conns) =
    both_ways 1 (packets conn) "allow"
      (both_ways 1 (way_text conn.from conn.to "icmp") "allow-related" (allowed conns))

-- The cores of a switch: all IP traffic is dropped, but that of the connections.
abbrev pub written_cores : List AclConnection → List AclCore
written_cores conns = both_ways 0 "ip" "drop" (allowed conns)
