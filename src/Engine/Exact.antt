-- ===== src/Engine/Exact.antt =====
-- minion/engine.go: the tables of containers and load balancers, in the fields that the blueprint
-- decides.
use mathlib.Core.List.{map-append}
use mathlib.Core.List.Perm
use k_elda_archive.Base.{
  sym, ℕ, suc, String, ◌≡◌, refl, ap, subst, ◌∙◌, List, [], ◌∷◌, ◌++◌, map, Perm, Nodup, MapRange,
  values, str_discrete,
}
use k_elda_archive.Blueprint
use k_elda_archive.Blueprint.{Blueprint, Image-discrete}
use k_elda_archive.Db.{Database}
use k_elda_archive.Db.Queries.{every, select_from_container, select_from_load_balancer}
use k_elda_archive.Db.Rows.{Container, LoadBalancer}
use k_elda_archive.Db.Slots
use k_elda_archive.Db.Slots.{Slot}
use k_elda_archive.Db.Tables.{Table}
use k_elda_archive.Engine.Effects.{Leaves, Leaves-map, Sound}
use k_elda_archive.Engine.Pairs.{new_pairs}
use k_elda_archive.Engine.PairSync.{HoldsPairs, write_pairs-HoldsPairs}
use k_elda_archive.Engine.Policy.{load_balancer_row, update_load_balancer, update_load_balancers}
use k_elda_archive.Engine.Services.{query_containers, update_container, update_containers}
use k_elda_archive.Engine.Sync.{rows_of_join}
use k_elda_archive.Join.{Pair, Joined, lefts_of}
use k_elda_archive.Join.Contract.{hash_join-IsHashJoin, hash_join-lefts_perm}
use k_elda_archive.Join.Hash.{hash_join}

module _ {L R S : Type 0} (s : Slot R) (update : Pair L R → R) (see : R → S) (ask : L → S)
    (see-update : (p : Pair L R) → see (update p) ≡ ask p.l) where
  seen : (ps : List (Pair L R)) → map see (map update ps) ≡ map ask (lefts_of ps)
  seen [] = refl
  seen (p ∷ ps) = λ i. see-update p i ∷ seen ps i

  lefts-new : (n : ℕ) (xs : List L) → lefts_of (new_pairs s n xs) ≡ xs
  lefts-new n [] = refl
  lefts-new n (x ∷ xs) = ap (◌∷◌ x) (lefts-new (suc n) xs)

  pub HoldsPairs-exact :
      (j : Joined L R) (targets : List L) (t : Table R)
      → Perm (lefts_of j.pairs ++ j.lonely_lefts) targets
      → HoldsPairs s update j t
      → Perm (map see (values t.rows)) (map ask targets)
  HoldsPairs-exact j targets t p h =
      let same : map see (map update (j.pairs ++ new_pairs s h.last j.lonely_lefts))
          ≡ map ask (lefts_of j.pairs ++ j.lonely_lefts) =
        seen _
        ∙ ap (map ask) (
            map-append (λ q. q.l) j.pairs _
            ∙ ap (◌++◌ (lefts_of j.pairs)) (lefts-new h.last j.lonely_lefts)) in
      Perm.trans (subst (Perm (map see (values t.rows))) same (Perm.map see h.rows))
        (Perm.map ask p)

-- What the blueprint decides of a container.
abbrev pub specified : Container → Container
specified c = record c { id = 0; ip = ""; minion = ""; pod_name = ""; status = ""; created = 0 }

-- If the container table is sound and the IDs of the containers that `queryContainers` gives are
-- distinct, `updateContainers` succeeds and changes no other table; in the fields that the blueprint
-- decides the rows are then those containers, in some order.
pub update_containers-exact :
    (query_order order : MapRange (String × Container)) (bp : Blueprint) (db : Database)
    → Sound Slots.containers db
    → Nodup (map (λ c. c.blueprint_id) (query_containers query_order bp))
    → Leaves Slots.containers db
        (λ t.
          Perm (map specified (values t.rows)) (map specified (query_containers query_order bp)))
        (update_containers query_order order bp db)
unfolding update_containers update_container
update_containers-exact query_order order bp db v d =
    let key : Container → String = λ c. c.blueprint_id in
    let targets : List Container = query_containers query_order bp in
    let olds : List Container = select_from_container every db in
    let j : Joined Container Container = hash_join str_discrete order key key targets olds in
    let joined = hash_join-IsHashJoin str_discrete order key key targets olds in
    Leaves-map Slots.containers _ _ db _
      (λ t h.
        HoldsPairs-exact Slots.containers update_container specified specified (λ p. refl) j targets
          t (hash_join-lefts_perm str_discrete order key key targets olds d) h)
      (write_pairs-HoldsPairs Slots.containers update_container j db (λ p. refl) v
        (rows_of_join Slots.containers key key targets db j joined))

-- What a row says of a load balancer.
abbrev pub balancer_row : LoadBalancer → String × List String
balancer_row lb = (lb.name, lb.hostnames)

-- What the blueprint says of one.
abbrev pub balancer_asked : Blueprint.LoadBalancer → String × List String
balancer_asked lb = (lb.name, lb.hostnames)

rows-asked :
    (lbs : List Blueprint.LoadBalancer)
    → map balancer_row (map load_balancer_row lbs) ≡ map balancer_asked lbs
unfolding load_balancer_row
rows-asked [] = refl
rows-asked (lb ∷ lbs) = ap (◌∷◌ (balancer_asked lb)) (rows-asked lbs)

rows-names :
    (lbs : List Blueprint.LoadBalancer)
    → map (λ lb. lb.name) (map load_balancer_row lbs) ≡ map (λ lb. lb.name) lbs
unfolding load_balancer_row
rows-names [] = refl
rows-names (lb ∷ lbs) = ap (◌∷◌ lb.name) (rows-names lbs)

-- If the load balancer table is sound and the names of the blueprint's load balancers are distinct,
-- `updateLoadBalancers` succeeds and changes no other table; in names and hostnames the rows are then
-- the blueprint's load balancers, in some order.
pub update_load_balancers-exact :
    (order : MapRange (String × LoadBalancer)) (bp : Blueprint) (db : Database)
    → Sound Slots.load_balancers db
    → Nodup (map (λ lb. lb.name) bp.load_balancers)
    → Leaves Slots.load_balancers db
        (λ t. Perm (map balancer_row (values t.rows)) (map balancer_asked bp.load_balancers))
        (update_load_balancers order bp db)
unfolding update_load_balancers update_load_balancer
update_load_balancers-exact order bp db v d =
    let key : LoadBalancer → String = λ lb. lb.name in
    let targets : List LoadBalancer = map load_balancer_row bp.load_balancers in
    let olds : List LoadBalancer = select_from_load_balancer every db in
    let j : Joined LoadBalancer LoadBalancer = hash_join str_discrete order key key targets olds in
    let joined = hash_join-IsHashJoin str_discrete order key key targets olds in
    Leaves-map Slots.load_balancers _ _ db _
      (λ t h. subst (Perm (map balancer_row (values t.rows))) (rows-asked bp.load_balancers) (
        HoldsPairs-exact Slots.load_balancers update_load_balancer balancer_row balancer_row
          (λ p. refl) j targets t
          (hash_join-lefts_perm str_discrete order key key targets olds
            (subst Nodup (sym (rows-names bp.load_balancers)) d))
          h))
      (write_pairs-HoldsPairs Slots.load_balancers update_load_balancer j db (λ p. refl) v
        (rows_of_join Slots.load_balancers key key targets db j joined))
