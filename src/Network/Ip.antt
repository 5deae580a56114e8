-- ===== src/Network/Ip.antt =====
-- minion/network/ip.go: the allocation of IPs of the Kelda subnet to containers and load balancers.
-- The net package and the random numbers are parameters.
use k_elda_archive.Base.{
  ℕ, suc, zero, ◌+◌, ◌%◌, String, Bool, true, false, ◌||◌, ◌&&◌, not, List, [], ◌∷◌, map, MapRange,
  Option, none, some, if◌then◌else◌, Outcome, ok, err, ◌>>=◌, has, insert_key, str_discrete,
}
use k_elda_archive.Cloud.Machines.{same}
use k_elda_archive.Db.{Database}
use k_elda_archive.Db.Queries.{
  every, select_from_container, select_from_load_balancer, select_from_minion,
}
use k_elda_archive.Db.Rows.{Container, LoadBalancer, Minion, worker}

-- What the code asks of the net package: addresses and subnets, and the notation of the IPv4 address
-- of a number.
pub record Net (Address Subnet : Type 0) : Type 0 where
  pub show : ℕ → String
  pub parse_ip : String → Address
  pub parse_cidr : String → Option Subnet
  pub contains : Subnet → Address → Bool
  pub ip : Subnet → Address

-- `ipdef.KeldaSubnet`, 10.0.0.0/8: its first address, and the number of its addresses.
abbrev pub prefix : ℕ
prefix = 167772160

abbrev pub subnet_size : ℕ
subnet_size = 16777216

-- The addresses that are not given out, and how many random numbers are drawn.
pub record IpPool : Type 0 where
  pub reserved : List String
  pub drawn : ℕ

module _ {Address Subnet : Type 0} (net : Net Address Subnet) where
  open net use {show, parse_ip, parse_cidr, contains, ip}

  unfoldable pub ip_blacklisted : String → List Subnet → Bool
  ip_blacklisted ip_str [] = false
  ip_blacklisted ip_str (subnet ∷ blacklist) =
      if contains subnet (parse_ip ip_str) then true else ip_blacklisted ip_str blacklist

  unfoldable pub subnet_intersects : Subnet → Subnet → Bool
  subnet_intersects a b = contains a (ip b) || contains b (ip a)

  -- The loop over the set of subnets.
  unfoldable pub intersecting : Subnet → List String → Outcome (List Subnet)
  unfolding subnet_intersects
  intersecting kelda [] = ok []
  intersecting kelda (text ∷ texts) = elim (parse_cidr text) [
    | none ↦ err "parse subnet"
    | some subnet ↦ do
      rest ← intersecting kelda texts
      ok (if subnet_intersects kelda subnet then subnet ∷ rest else rest)
  ]

  -- The set of the workers' subnets.
  unfoldable pub add_subnets : List String → List String → List String
  unfolding insert_key
  add_subnets [] set = set
  add_subnets (subnet ∷ subnets) set = add_subnets subnets (insert_key str_discrete subnet set)

  unfoldable pub host_subnets_of : List Minion → List String → List String
  unfolding add_subnets
  host_subnets_of [] set = set
  host_subnets_of (m ∷ ms) set = host_subnets_of ms (add_subnets m.host_subnets set)

  abbrev pub is_worker : Minion → Bool
  is_worker m = elim m.role [ worker ↦ true | _ ↦ false ]

  unfoldable pub make_subnet_blacklist : MapRange String → Subnet → Database → Outcome (List Subnet)
  unfolding intersecting host_subnets_of
  make_subnet_blacklist order kelda db =
      intersecting kelda (order.range (host_subnets_of (select_from_minion is_worker db) []))

  -- The IP that a row keeps: none, if it is blacklisted.
  unfoldable pub kept_ip : List Subnet → String → String
  unfolding ip_blacklisted str_discrete
  kept_ip blacklist ip_str =
      if not (same ip_str "") && ip_blacklisted ip_str blacklist then "" else ip_str

  abbrev pub without_ip : Container → Container
  without_ip dbc = record dbc { ip = "" }

  unfoldable pub unassigned_containers : List Subnet → List Container → List Container
  unfolding kept_ip str_discrete
  unassigned_containers blacklist [] = []
  unassigned_containers blacklist (dbc ∷ dbcs) =
      let rest = unassigned_containers blacklist dbcs in
      if same (kept_ip blacklist dbc.ip) "" then without_ip dbc ∷ rest else rest

  abbrev pub without_balancer_ip : LoadBalancer → LoadBalancer
  without_balancer_ip lb = record lb { ip = "" }

  unfoldable pub unassigned_load_balancers : List Subnet → List LoadBalancer → List LoadBalancer
  unfolding kept_ip str_discrete
  unassigned_load_balancers blacklist [] = []
  unassigned_load_balancers blacklist (lb ∷ lbs) =
      let rest = unassigned_load_balancers blacklist lbs in
      if same (kept_ip blacklist lb.ip) "" then without_balancer_ip lb ∷ rest else rest

  -- The loop that reserves the IPs that stay.
  unfoldable pub reserve : List Subnet → List String → List String → List String
  unfolding kept_ip insert_key str_discrete
  reserve blacklist [] reserved = reserved
  reserve blacklist (ip_str ∷ ips) reserved = reserve blacklist ips (
      if same (kept_ip blacklist ip_str) ""
      then reserved
      else insert_key str_discrete ip_str reserved)

  -- The gateway, the load balancer router and the subnet's own address.
  abbrev pub always_reserved : List String
  always_reserved = show (prefix + 1) ∷ show (prefix + 2) ∷ show prefix ∷ []

  unfoldable pub reserved_ips : List Subnet → Database → List String
  unfolding reserve
  reserved_ips blacklist db =
      reserve blacklist (map (λ lb. lb.ip) (select_from_load_balancer every db))
        (reserve blacklist (map (λ dbc. dbc.ip) (select_from_container every db)) always_reserved)

module _ (show : ℕ → String) (base size : ℕ) (rand32 : ℕ → ℕ) where
  -- The loop over the offsets, with the number that is left.
  unfoldable pub try_offsets : ℕ → ℕ → ℕ → List String → Option String
  unfolding has
  try_offsets zero start offset reserved = none
  try_offsets (suc left) start offset reserved =
      let later = try_offsets left start (suc offset) reserved in
      let candidate = show (base + (start + offset) % size) in
      if has str_discrete candidate reserved then later else some candidate

  -- By what the loop finds.
  unfoldable pub take_ip : IpPool → Option String → Outcome (String × IpPool)
  take_ip pool none = err "IP pool exhausted"
  take_ip pool (some ip) = ok (ip, record { reserved = ip ∷ pool.reserved; drawn = suc pool.drawn })

  unfoldable pub allocate_ip : IpPool → Outcome (String × IpPool)
  unfolding try_offsets take_ip
  allocate_ip pool = take_ip pool (try_offsets size (rand32 pool.drawn % size) 0 pool.reserved)
