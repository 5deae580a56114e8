-- ===== src/Etcd/Placed.antt =====
-- What a pass leaves in the container table of a minion that does not lead.
use mathlib.Core.List.Perm
use k_elda_archive.Base.{
  ◌≡◌, refl, sym, ap, subst, List, [], ◌∷◌, ◌++◌, map, Perm, Nodup, MapRange, values,
}
use k_elda_archive.Db.{Database}
use k_elda_archive.Db.Access.{select_from}
use k_elda_archive.Db.Effects.{select-every}
use k_elda_archive.Db.Queries.{every, select_from_container}
use k_elda_archive.Db.Rows.{Container}
use k_elda_archive.Db.Slots
use k_elda_archive.Engine.Effects.{Leaves, Leaves-map, Sound}
use k_elda_archive.Engine.Exact.{HoldsPairs-exact}
use k_elda_archive.Engine.PairSync.{write_pairs-HoldsPairs}
use k_elda_archive.Etcd.Containers.{
  Formats, ContainerKey, ContainerKey-discrete, container_key, mirrored_container, flip_pair,
  flipped, join_containers,
}
use k_elda_archive.Join.{Pair, Joined, lefts_of, rights_of}
use k_elda_archive.Join.Contract.{hash_join-IsHashJoin, hash_join-lefts_perm}
use k_elda_archive.Join.Hash.{hash_join}

-- A container but for what a minion keeps of its own.
abbrev pub shared : Container → Container
shared c = record c { id = 0; pod_name = ""; status = ""; created = 0; dockerfile = "" }

lefts-flip : {L R : Type 0} (ps : List (Pair L R)) → lefts_of (map flip_pair ps) ≡ rights_of ps
lefts-flip [] = refl
lefts-flip (p ∷ ps) = ap (◌∷◌ p.r) (lefts-flip ps)

rights-flip : {L R : Type 0} (ps : List (Pair L R)) → rights_of (map flip_pair ps) ≡ lefts_of ps
rights-flip [] = refl
rights-flip (p ∷ ps) = ap (◌∷◌ p.l) (rights-flip ps)

shared-mirrored_container :
    (p : Pair Container Container) → shared (mirrored_container p) ≡ shared p.l
unfolding mirrored_container
shared-mirrored_container p = refl

mirrored_container-id : (p : Pair Container Container) → (mirrored_container p).id ≡ p.r.id
unfolding mirrored_container
mirrored_container-id p = refl

containers-all : (db : Database) → select_from_container every db ≡ values db.containers.rows
unfolding select_from
containers-all db = select-every Slots.containers.row db.containers

pub join_containers-exact :
    (formats : Formats) (order : MapRange (ContainerKey × Container)) (etcd_dbcs : List Container)
    (db : Database)
    → Nodup (map (container_key formats) (values db.containers.rows))
    → Sound Slots.containers db
    → Leaves Slots.containers db
        (λ t. Perm (map shared (values t.rows)) (map shared etcd_dbcs))
        (join_containers formats order etcd_dbcs db)
unfolding join_containers
join_containers-exact formats order etcd_dbcs db d v =
    let key : Container → ContainerKey = container_key formats in
    let rows : List Container = select_from_container every db in
    let j : Joined Container Container =
      hash_join ContainerKey-discrete order key key rows etcd_dbcs in
    let h = hash_join-IsHashJoin ContainerKey-discrete order key key rows etcd_dbcs in
    let all_rows : Perm (lefts_of j.pairs ++ j.lonely_lefts) (values db.containers.rows) =
      subst (Perm (lefts_of j.pairs ++ j.lonely_lefts)) (containers-all db) (
        hash_join-lefts_perm ContainerKey-discrete order key key rows etcd_dbcs
          (subst (λ rs. Nodup (map key rs)) (sym (containers-all db)) d)) in
    Leaves-map Slots.containers _ _ db _
      (λ t q.
        HoldsPairs-exact Slots.containers mirrored_container shared shared shared-mirrored_container
          (flipped j) etcd_dbcs t
          (subst (λ xs. Perm (xs ++ j.lonely_rights) etcd_dbcs) (sym (lefts-flip j.pairs))
            h.rights_perm)
          q)
      (write_pairs-HoldsPairs Slots.containers mirrored_container (flipped j) db
        mirrored_container-id v
        (Perm.symm (
          subst (λ xs. Perm (xs ++ j.lonely_lefts) (values db.containers.rows))
            (sym (rights-flip j.pairs)) all_rows)))
