-- ===== src/Network/Dns.antt =====
-- minion/network/dns.go: `joinHostnames` writes the hostnames of load balancers and containers that
-- have an IP into the hostname table.
use k_elda_archive.Base.{
  Nodup, String, not, ◌&&◌, ◌||◌, List, [], ◌∷◌, ◌++◌, map, MapRange, Outcome, refl, keep,
  str_discrete, Bool, true, false, ◌≡◌, ◌∙◌, sym, ap, has, values, arith, Bool-cases, inl, inr, ite,
}
use k_elda_archive.Cloud.Machines.{same}
use k_elda_archive.Cloud.Mirror.{same→eq, eq→same}
use k_elda_archive.Db.Tables.{Table}
use k_elda_archive.Db.{Database}
use k_elda_archive.Db.Queries.{
  every, select_from_container, select_from_hostname, select_from_load_balancer,
}
use k_elda_archive.Db.Rows.{Container, Hostname, Hostname-discrete, LoadBalancer}
use k_elda_archive.Db.Slots
use k_elda_archive.Engine.Effects.{Leaves, Sound}
use k_elda_archive.Engine.Loops.{add_each, remove_each}
use mathlib.Core.List.{map-append}
use k_elda_archive.Db.Access.{select_from}
use k_elda_archive.Db.Effects.{select-every}
use k_elda_archive.Db.Rows.{load_balancer, container}
use k_elda_archive.Engine.Effects.{Leaves-map}
use k_elda_archive.Engine.Sync.{IsSynced-IsJust, remove_add-synced}
use k_elda_archive.Join.Contract.{hash_join-IsHashJoin}
use k_elda_archive.Join.Hash.{hash_join}

-- A new row of a name and an IP.
abbrev pub target_row : String → String → Hostname
target_row name ip = record { id = 0; hostname = name; ip = ip }

unfoldable pub load_balancer_targets : List LoadBalancer → List Hostname
unfolding keep str_discrete
load_balancer_targets lbs =
    map (λ lb. target_row lb.name lb.ip) (keep (λ lb. not (same lb.ip "")) lbs)

unfoldable pub container_targets : List Container → List Hostname
unfolding keep str_discrete
container_targets cs =
    map (λ c. target_row c.hostname c.ip)
      (keep (λ c. not (same c.hostname "") && not (same c.ip "")) cs)

unfoldable pub target_hostnames : Database → List Hostname
unfolding load_balancer_targets container_targets
target_hostnames db =
    load_balancer_targets (select_from_load_balancer every db)
    ++ container_targets (select_from_container every db)

unfoldable pub hostname_key : Hostname → Hostname
hostname_key h = record h { id = 0 }

abbrev pub renumbered : Hostname → Hostname → Hostname
renumbered target row = record target { id = row.id }

unfoldable pub join_hostnames : MapRange (Hostname × Hostname) → Database → Outcome Database
unfolding hash_join add_each remove_each target_hostnames hostname_key Hostname-discrete
join_hostnames order db = do
  let joined =
      hash_join Hostname-discrete order hostname_key hostname_key (target_hostnames db)
        (select_from_hostname every db)
  add_each Slots.hostnames renumbered joined.lonely_lefts
      (remove_each Slots.hostnames joined.lonely_rights db)

-- Some load balancer has the name and the IP.
abbrev balancer_gives : String → String → List LoadBalancer → Bool
balancer_gives name ip [] = false
balancer_gives name ip (lb ∷ lbs) =
    (same name lb.name && same ip lb.ip) || balancer_gives name ip lbs

-- Some container has the hostname and the IP.
abbrev container_gives : String → String → List Container → Bool
container_gives name ip [] = false
container_gives name ip (c ∷ cs) =
    (same name c.hostname && same ip c.ip) || container_gives name ip cs

-- The IP is not empty and stands under a load balancer's name, or under a container's hostname that
-- is not empty.
abbrev pub gives : Database → String → String → Bool
gives db name ip =
    (not (same ip "") && balancer_gives name ip (values db.load_balancers.rows))
    || ((not (same name "") && not (same ip ""))
        && container_gives name ip (values db.containers.rows))

-- A name and an IP, as a row without an ID.
abbrev entry : String → String → Hostname
entry name ip = record { id = 0; hostname = name; ip = ip }

-- The rows are the names and IPs that the database gives, each once.
pub record HasHostnames (db : Database) (t : Table Hostname) : Type 0 where
  pub once : Nodup (map (λ h. entry h.hostname h.ip) (values t.rows))
  pub exact :
      (name ip : String)
      → has Hostname-discrete (entry name ip) (map (λ h. entry h.hostname h.ip) (values t.rows))
        ≡ gives db name ip

taken : (m v g : Bool) → (m ≡ true → v ≡ true) → (m || (v && g)) ≡ (v && (m || g))
taken true v g h = rw (h refl) refl
taken false v g h = refl

skipped : (m v g : Bool) → (m ≡ true → v ≡ false) → (v && g) ≡ (v && (m || g))
skipped true v g h = rw (h refl) refl
skipped false v g h = refl

and_false : (b : Bool) → (b && false) ≡ false
and_false b = ground arith

has-append :
    {A : Type 0} (dec : Discrete A) (x : A) (xs ys : List A)
    → has dec x (xs ++ ys) ≡ (has dec x xs || has dec x ys)
unfolding has
has-append dec x [] ys = refl
has-append dec x (y ∷ xs) ys = ground (arith, has-append dec x xs ys)

module _ (name ip : String) where
  abbrev has_entry : List Hostname → Bool
  has_entry = has Hostname-discrete (entry name ip)

  apart :
      (n i : String) (hs : List Hostname)
      → ¬ (entry name ip ≡ entry n i)
      → has_entry hs ≡ ((same name n && same ip i) || has_entry hs)
  apart n i hs k = elim (Bool-cases (same name n)) [
    | inl p ↦ elim (Bool-cases (same ip i)) [
      | inl q ↦ absurd (k (λ j. entry (same→eq _ _ p j) (same→eq _ _ q j)))
      | inr q ↦ rw (p, q) refl
    ]
    | inr p ↦ rw p refl
  ]

  has-target :
      (n i : String) (hs : List Hostname)
      → has_entry (hostname_key (target_row n i) ∷ hs)
        ≡ ((same name n && same ip i) || has_entry hs)
  unfolding has hostname_key
  has-target n i hs =
      elim (Hostname-discrete (entry name ip) (entry n i))
        as (λ d. ite d true (has_entry hs) ≡ ((same name n && same ip i) || has_entry hs)) [
          | yes e ↦
              rw (eq→same name n (ap (λ h. h.hostname) e), eq→same ip i (ap (λ h. h.ip) e)) refl
          | no k ↦ apart n i hs k
        ]

  agree : (n i : String) → (same name n && same ip i) ≡ true → (name ≡ n) × (ip ≡ i)
  agree n i h = elim (Bool-cases (same name n)) [
    | inl p ↦ (same→eq _ _ p, same→eq _ _ (rw p at h))
    | inr p ↦ cc (h, p)
  ]

  has_entry-nil : has_entry [] ≡ false
  unfolding has
  has_entry-nil = refl

  has-balancers :
      (lbs : List LoadBalancer)
      → has_entry (map hostname_key (load_balancer_targets lbs))
        ≡ (not (same ip "") && balancer_gives name ip lbs)
  unfolding load_balancer_targets keep
  has-balancers [] = has_entry-nil ∙ sym (and_false (not (same ip "")))
  has-balancers (lb ∷ lbs) =
      let here : (same name lb.name && same ip lb.ip) ≡ true
          → not (same ip "") ≡ not (same lb.ip "") =
        λ h. ap (λ x. not (same x "")) (agree lb.name lb.ip h).1 in
      elim (Bool-cases (not (same lb.ip ""))) [
        | inl e ↦ rw e (
            has-target lb.name lb.ip (map hostname_key (load_balancer_targets lbs))
            ∙ ap (λ b. (same name lb.name && same ip lb.ip) || b) (has-balancers lbs)
            ∙ taken _ _ _ (λ h. here h ∙ e))
        | inr e ↦ rw e (has-balancers lbs ∙ skipped _ _ _ (λ h. here h ∙ e))
      ]

  has-containers :
      (cs : List Container)
      → has_entry (map hostname_key (container_targets cs))
        ≡ ((not (same name "") && not (same ip "")) && container_gives name ip cs)
  unfolding container_targets keep
  has-containers [] = has_entry-nil ∙ sym (and_false (not (same name "") && not (same ip "")))
  has-containers (c ∷ cs) =
      let here : (same name c.hostname && same ip c.ip) ≡ true
          → (not (same name "") && not (same ip ""))
            ≡ (not (same c.hostname "") && not (same c.ip "")) =
        λ h.
          let a = agree c.hostname c.ip h in
          (λ i. not (same (a.0 i) "") && not (same (a.1 i) "")) in
      elim (Bool-cases (not (same c.hostname "") && not (same c.ip ""))) [
        | inl e ↦ rw e (
            has-target c.hostname c.ip (map hostname_key (container_targets cs))
            ∙ ap (λ b. (same name c.hostname && same ip c.ip) || b) (has-containers cs)
            ∙ taken _ _ _ (λ h. here h ∙ e))
        | inr e ↦ rw e (has-containers cs ∙ skipped _ _ _ (λ h. here h ∙ e))
      ]

  has-targets :
      (db : Database) → has_entry (map hostname_key (target_hostnames db)) ≡ gives db name ip
  unfolding target_hostnames select_from
  has-targets db =
      rw
        (
          select-every load_balancer db.load_balancers,
          select-every container db.containers,
          map-append hostname_key (load_balancer_targets (values db.load_balancers.rows))
              (container_targets (values db.containers.rows)),
          has-append Hostname-discrete (entry name ip)
              (map hostname_key (load_balancer_targets (values db.load_balancers.rows)))
              (map hostname_key (container_targets (values db.containers.rows))),
          has-balancers (values db.load_balancers.rows),
          has-containers (values db.containers.rows),
        )
        refl

-- On a sound hostname table `joinHostnames` succeeds, changes no other table, and leaves one row for
-- each distinct pair of a name and an IP that is not empty, of a load balancer, or of a container
-- whose hostname is not empty, and no other row.
pub join_hostnames-synced :
    (order : MapRange (Hostname × Hostname)) (db : Database)
    → Sound Slots.hostnames db
    → Leaves Slots.hostnames db (HasHostnames db) (join_hostnames order db)
unfolding join_hostnames hostname_key
join_hostnames-synced order db v =
    Leaves-map Slots.hostnames _ (HasHostnames db) db _
      (λ t h.
        let j = IsSynced-IsJust Hostname-discrete hostname_key _ _ t (λ k. refl) h in
        record {
          once = j.once;
          exact = λ name ip. j.exact (entry name ip) ∙ has-targets name ip db;
        })
      (remove_add-synced Slots.hostnames hostname_key hostname_key renumbered (λ x r. refl)
        (λ x r. refl) _ db _
        (hash_join-IsHashJoin Hostname-discrete order hostname_key hostname_key _ _) v)
