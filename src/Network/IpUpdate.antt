-- ===== src/Network/IpUpdate.antt =====
-- minion/network/ip.go: the loops that commit the new IPs, and the three attempts of
-- `updateIPsOnce`.
use k_elda_archive.Base.{
  ℕ, suc, zero, String, Bool, true, false, ◌&&◌, List, [], ◌∷◌, MapRange, Option, none, some,
  if◌then◌else◌, Outcome, ok, err, panic, ◌>>=◌,
}
use k_elda_archive.Db.{Database}
use k_elda_archive.Db.Access.{commit_row}
use k_elda_archive.Db.Queries.{every, select_from_container, select_from_load_balancer}
use k_elda_archive.Db.Rows.{Container, LoadBalancer}
use k_elda_archive.Db.Slots
use k_elda_archive.Db.Slots.{Slot}
use k_elda_archive.Network.Ip.{
  Net, IpPool, prefix, subnet_size, allocate_ip, make_subnet_blacklist, unassigned_containers,
  unassigned_load_balancers, reserved_ips,
}

-- The state of an attempt: the error that ended it, if any. What it committed before stays.
pub record Attempt : Type 0 where
  pub db : Database
  pub pool : IpPool
  pub error : Option String

abbrev pub drawn_again : IpPool → IpPool
drawn_again pool = record pool { drawn = suc pool.drawn }

module _ {R : Type 0} (show : ℕ → String) (rand32 : ℕ → ℕ) (s : Slot R)
    (with_ip : String → R → R) where
  -- The loop over the rows without IP, for containers and for load balancers.
  unfoldable pub allocate_ips : List R → IpPool → Database → Outcome Attempt
  unfolding allocate_ip commit_row
  allocate_ips [] pool db = ok (record { db = db; pool = pool; error = none })
  allocate_ips (row ∷ rows) pool db = elim (allocate_ip show prefix subnet_size rand32 pool) [
    | ok (ip, pool') ↦ do db' ← commit_row s (with_ip ip row) db; allocate_ips rows pool' db'
    | err e ↦ ok (record { db = db; pool = drawn_again pool; error = some e })
    | panic ↦ panic
  ]

module _ {Address Subnet : Type 0} (net : Net Address Subnet) (rand32 : ℕ → ℕ) where
  abbrev pub set_ip : String → Container → Container
  set_ip ip dbc = record dbc { ip = ip }

  abbrev pub set_balancer_ip : String → LoadBalancer → LoadBalancer
  set_balancer_ip ip lb = record lb { ip = ip }

  unfoldable pub allocate_container_ips : List Container → IpPool → Database → Outcome Attempt
  unfolding allocate_ips
  allocate_container_ips = allocate_ips net.show rand32 Slots.containers set_ip

  unfoldable pub allocate_load_balancer_ips :
      List LoadBalancer → IpPool → Database → Outcome Attempt
  unfolding allocate_ips
  allocate_load_balancer_ips = allocate_ips net.show rand32 Slots.load_balancers set_balancer_ip

  -- The load balancers, unless the containers ended with an error.
  abbrev pub and_then : List LoadBalancer → Attempt → Outcome Attempt
  and_then lbs a = elim a.error [
    | none ↦ allocate_load_balancer_ips lbs a.pool a.db
    | some e ↦ ok a
  ]

  abbrev pub is_empty : {A : Type 0} → List A → Bool
  is_empty [] = true
  is_empty (x ∷ xs) = false

  -- The loop of the attempts, with the number that is left and the error of the last one.
  unfoldable pub attempts : ℕ → List Subnet → Attempt → Outcome Attempt
  unfolding allocate_container_ips allocate_load_balancer_ips unassigned_containers
      unassigned_load_balancers reserved_ips
  attempts zero blacklist last = ok last
  attempts (suc left) blacklist last =
      let dbcs = unassigned_containers net blacklist (select_from_container every last.db) in
      let lbs = unassigned_load_balancers net blacklist (select_from_load_balancer every last.db) in
      let pool : IpPool = record last.pool { reserved = reserved_ips net blacklist last.db } in
      let more : Outcome Attempt = (do
        a ← allocate_container_ips dbcs pool last.db
        b ← and_then lbs a
        attempts left blacklist b) in
      if is_empty dbcs && is_empty lbs then ok (record last { error = none }) else more

  -- `updateIPsOnce`.
  unfoldable pub update_ips_once : MapRange String → Subnet → Database → Outcome Attempt
  unfolding make_subnet_blacklist attempts
  update_ips_once order kelda db = do
    blacklist ← make_subnet_blacklist net order kelda db
    attempts 3 blacklist
        (record { db = db; pool = record { reserved = []; drawn = 0 }; error = none })
