-- ===== src/Network/Nat.antt =====
-- minion/network/nat.go: the rules that let containers receive packets from the public internet and
-- send packets to it. A map of sets of ports is an association list of lists without repetition.
use Prim.Native.String.{◌++◌}
use k_elda_archive.Base.{
  not, Bool-cases, inl, inr, ℕ, String, Bool, List, [], ◌∷◌, MapRange, Option, none, some, get, put,
  insert_key, decimal, str_discrete, ℕ_discrete, true, false, ◌&&◌, ◌||◌, has, ite, arith, get-put,
  ◌∙◌, if◌then◌else◌, ◌≡◌, refl, ap,
}
use k_elda_archive.Cloud.Machines.{same}
use k_elda_archive.Blueprint.{public_internet_label}
use k_elda_archive.Db.Rows.{Connection, Container}
use k_elda_archive.Str.Defs.{slice_contains}

abbrev PortMap : Type 0
PortMap = List (String × List ℕ)

-- The ports of a hostname: none for a missing key.
abbrev pub ports_at : Option (List ℕ) → List ℕ
ports_at none = []
ports_at (some ports) = ports

-- The loop that notes one port for each hostname.
unfoldable pub note_port : ℕ → List String → List (String × List ℕ) → List (String × List ℕ)
unfolding put get insert_key
note_port port [] m = m
note_port port (host ∷ hosts) m =
    note_port port hosts
      (put str_discrete host (insert_key ℕ_discrete port (ports_at (get str_discrete host m))) m)

unfoldable pub ports_from_web : List Connection → List (String × List ℕ) → List (String × List ℕ)
unfolding slice_contains note_port
ports_from_web [] m = m
ports_from_web (conn ∷ conns) m = ports_from_web conns (
    if slice_contains conn.from public_internet_label then note_port conn.min_port conn.to m else m)

-- The inner loop over `conn.To` in `postroutingRules`: its `continue` goes on with this loop itself.
unfoldable pub over_to : List String → List (String × List ℕ) → List (String × List ℕ)
unfolding str_discrete
over_to [] m = m
over_to (to ∷ tos) m =
    let rest = over_to tos m in if not (same to public_internet_label) then rest else rest

unfoldable pub ports_to_web : List Connection → List (String × List ℕ) → List (String × List ℕ)
unfolding over_to note_port
ports_to_web [] m = m
ports_to_web (conn ∷ conns) m =
    ports_to_web conns (note_port conn.min_port conn.from (over_to conn.to m))

unfoldable pub prerouting_rule : String → Container → ℕ → String → String
unfolding decimal
prerouting_rule public_interface dbc port protocol =
    "-i "
    ++ public_interface
    ++ " -p "
    ++ protocol
    ++ " -m "
    ++ protocol
    ++ " --dport "
    ++ decimal port
    ++ " -j DNAT --to-destination "
    ++ dbc.ip
    ++ ":"
    ++ decimal port

unfoldable pub postrouting_rule : String → Container → ℕ → String → String
unfolding decimal
postrouting_rule public_interface dbc port protocol =
    "-s "
    ++ dbc.ip
    ++ "/32 -p "
    ++ protocol
    ++ " -m "
    ++ protocol
    ++ " --dport "
    ++ decimal port
    ++ " -o "
    ++ public_interface
    ++ " -j MASQUERADE"

-- The rules of both protocols for each port, before the rules of the later containers.
abbrev pub both_protocols : (ℕ → String → String) → List ℕ → List String → List String
both_protocols rule [] later = later
both_protocols rule (port ∷ ports) later =
    rule port "tcp" ∷ rule port "udp" ∷ both_protocols rule ports later

-- The loop over the containers, for the rules of either chain.
unfoldable pub container_rules :
    MapRange ℕ
    → (Container → ℕ → String → String)
    → List Container
    → List (String × List ℕ)
    → List String
unfolding get
container_rules order rule [] m = []
container_rules order rule (dbc ∷ dbcs) m =
    both_protocols (rule dbc) (order.range (ports_at (get str_discrete dbc.hostname m)))
      (container_rules order rule dbcs m)

unfoldable pub prerouting_rules :
    MapRange ℕ → String → List Container → List Connection → List String
unfolding container_rules prerouting_rule ports_from_web
prerouting_rules order public_interface containers connections =
    container_rules order (prerouting_rule public_interface) containers
      (ports_from_web connections [])

unfoldable pub postrouting_rules :
    MapRange ℕ → String → List Container → List Connection → List String
unfolding container_rules postrouting_rule ports_to_web
postrouting_rules order public_interface containers connections =
    container_rules order (postrouting_rule public_interface) containers
      (ports_to_web connections [])

-- The port is open, in the map, for the hostname.
abbrev pub notes : String → ℕ → List (String × List ℕ) → Bool
notes host port m = has ℕ_discrete port (ports_at (get str_discrete host m))

has-insert_key :
    (p q : ℕ) (s : List ℕ)
    → has ℕ_discrete p (insert_key ℕ_discrete q s)
      ≡ (ite (ℕ_discrete p q) true false || has ℕ_discrete p s)
unfolding has insert_key
has-insert_key p q s = ground arith

note_port-notes :
    (host : String) (p port : ℕ) (hosts : List String) (m : List (String × List ℕ))
    → notes host p (note_port port hosts m)
      ≡ ((slice_contains hosts host && ite (ℕ_discrete p port) true false) || notes host p m)
unfolding note_port slice_contains
note_port-notes host p port [] m = refl
note_port-notes host p port (h ∷ hosts) m = ground (
  arith,
  note_port-notes host p port hosts
      (put str_discrete h (insert_key ℕ_discrete port (ports_at (get str_discrete h m))) m),
  get-put str_discrete host h (insert_key ℕ_discrete port (ports_at (get str_discrete h m))) m,
  has-insert_key p port (ports_at (get str_discrete h m)),
)

-- Some connection from the public internet leads to the hostname at the port.
abbrev pub lets_in : String → ℕ → List Connection → Bool
lets_in host port [] = false
lets_in host port (conn ∷ conns) =
    (slice_contains conn.from public_internet_label
      && (slice_contains conn.to host && ite (ℕ_discrete port conn.min_port) true false))
    || lets_in host port conns

ports_from_web-notes :
    (host : String) (port : ℕ) (conns : List Connection) (m : List (String × List ℕ))
    → notes host port (ports_from_web conns m) ≡ (lets_in host port conns || notes host port m)
unfolding ports_from_web
ports_from_web-notes host port [] m = refl
ports_from_web-notes host port (conn ∷ conns) m = ground (
  arith,
  ports_from_web-notes host port conns m,
  ports_from_web-notes host port conns (note_port conn.min_port conn.to m),
  note_port-notes host port conn.min_port conn.to m,
)

-- `preroutingRules` maps a port of the host to a container just where some connection from the
-- public internet leads to the container's hostname with that port as its first.
pub ports_from_web-exact :
    (host : String) (port : ℕ) (conns : List Connection)
    → notes host port (ports_from_web conns []) ≡ lets_in host port conns
unfolding get has
ports_from_web-exact host port conns =
    ports_from_web-notes host port conns [] ∙ or_false (lets_in host port conns)
  where
    or_false : (b : Bool) → (b || false) ≡ b
    or_false b = ground arith

-- Some connection from the hostname has the port as its first, wherever it leads.
abbrev pub lets_out : String → ℕ → List Connection → Bool
lets_out host port [] = false
lets_out host port (conn ∷ conns) =
    (slice_contains conn.from host && ite (ℕ_discrete port conn.min_port) true false)
    || lets_out host port conns

over_to-same : (tos : List String) (m : List (String × List ℕ)) → over_to tos m ≡ m
unfolding over_to
over_to-same [] m = refl
over_to-same (to ∷ tos) m = elim (Bool-cases (same to public_internet_label)) [
  | inl h ↦ rw h (over_to-same tos m)
  | inr h ↦ rw h (over_to-same tos m)
]

ports_to_web-step :
    (conn : Connection) (conns : List Connection) (m : List (String × List ℕ))
    → ports_to_web (conn ∷ conns) m ≡ ports_to_web conns (note_port conn.min_port conn.from m)
unfolding ports_to_web
ports_to_web-step conn conns m =
    ap (λ n. ports_to_web conns (note_port conn.min_port conn.from n)) (over_to-same conn.to m)

ports_to_web-nil : (m : List (String × List ℕ)) → ports_to_web [] m ≡ m
unfolding ports_to_web
ports_to_web-nil m = refl

or_step : (a b c : Bool) → (a || (b || c)) ≡ ((b || a) || c)
or_step a b c = ground arith

ports_to_web-notes :
    (host : String) (port : ℕ) (conns : List Connection) (m : List (String × List ℕ))
    → notes host port (ports_to_web conns m) ≡ (lets_out host port conns || notes host port m)
ports_to_web-notes host port [] m = ap (notes host port) (ports_to_web-nil m)
ports_to_web-notes host port (conn ∷ conns) m =
    ap (notes host port) (ports_to_web-step conn conns m)
    ∙ ports_to_web-notes host port conns (note_port conn.min_port conn.from m)
    ∙ ap (λ b. lets_out host port conns || b) (note_port-notes host port conn.min_port conn.from m)
    ∙ or_step (lets_out host port conns)
        (slice_contains conn.from host && ite (ℕ_discrete port conn.min_port) true false)
        (notes host port m)

-- `postroutingRules` maps a hostname to a port just where some connection from the hostname has that
-- port as its first, whether or not it leads to the public internet.
pub ports_to_web-exact :
    (host : String) (port : ℕ) (conns : List Connection)
    → notes host port (ports_to_web conns []) ≡ lets_out host port conns
unfolding get has
ports_to_web-exact host port conns =
    ports_to_web-notes host port conns [] ∙ or_false (lets_out host port conns)
  where
    or_false : (b : Bool) → (b || false) ≡ b
    or_false b = ground arith
