-- ===== src/Engine/Kept.antt =====
-- What the update of the containers leaves of the old rows.
use mathlib.Core.List.{mem-cons, not-mem-nil, mem-append, mem-map, mem-map_of_mem, mem-append_left}
use mathlib.Core.List.Perm
use mathlib.Core.Logic.Or
use mathlib.Core.HLevel.{hedberg}
use mathlib.Core.Logic.{∥∥₁_map}
use k_elda_archive.Base.{
  String, ◌≡◌, refl, sym, ap, subst, ◌∙◌, List, [], ◌∷◌, map, Mem, Nodup, All, values, MapRange,
  str_discrete,
}
use k_elda_archive.Blueprint.{Blueprint}
use k_elda_archive.Db.{Database}
use k_elda_archive.Db.Queries.{every, select_from_container}
use k_elda_archive.Db.Rows.{Container}
use k_elda_archive.Db.Slots
use k_elda_archive.Db.Tables.{Table}
use k_elda_archive.Engine.Effects.{Leaves, Leaves-map, Sound}
use k_elda_archive.Engine.PairSync.{HoldsPairs, write_pairs-HoldsPairs}
use k_elda_archive.Engine.Services.{query_containers, update_container, update_containers}
use k_elda_archive.Engine.Sync.{rows_of_join}
use k_elda_archive.Join.{Pair, Joined}
use k_elda_archive.Join.Contract.{IsHashJoin, hash_join-IsHashJoin}
use k_elda_archive.Join.Hash.{hash_join}
use k_elda_archive.Join.Lonely.{hash_join-lonely_rights}

-- A row that keeps what the blueprint does not decide.
pub record Keeps (old c : Container) : Type 0 where
  pub id : c.id ≡ old.id
  pub blueprint_id : c.blueprint_id ≡ old.blueprint_id
  pub ip : c.ip ≡ old.ip
  pub minion : c.minion ≡ old.minion
  pub pod_name : c.pod_name ≡ old.pod_name
  pub status : c.status ≡ old.status
  pub created : c.created ≡ old.created

-- Every old row that the blueprint still asks for lives on in such a row.
abbrev pub KeepsAll : List Container → List String → Table Container → Type 0
KeepsAll olds ids t =
    (old : Container)
    → Mem old olds
    → Mem old.blueprint_id ids
    → ∥ ((c : Container) × Mem c (values t.rows) × Keeps old c) ∥₁

All-at :
    {A : Type 0} (P : A → Type 0) (cP : (x : A) → IsProp (P x)) (xs : List A) (x : A)
    → All P xs
    → Mem x xs
    → P x
All-at P cP [] x a m = absurd (not-mem-nil m)
All-at P cP (y ∷ xs) x a m =
    Or.elim (cP x) (mem-cons.0 m) (λ e. subst P (sym e) a.0) (All-at P cP xs x a.1)

-- The row of a pair keeps its fields.
Keeps-of_pair :
    (p : Pair Container Container) (old : Container)
    → p.r ≡ old
    → p.l.blueprint_id ≡ p.r.blueprint_id
    → Keeps old (update_container p)
unfolding update_container
Keeps-of_pair p old e k = record {
  id = ap (λ c. c.id) e;
  blueprint_id = k ∙ ap (λ c. c.blueprint_id) e;
  ip = ap (λ c. c.ip) e;
  minion = ap (λ c. c.minion) e;
  pod_name = ap (λ c. c.pod_name) e;
  status = ap (λ c. c.status) e;
  created = ap (λ c. c.created) e;
}

abbrev key : Container → String
key c = c.blueprint_id

module _ (targets olds : List Container) (j : Joined Container Container) (t : Table Container)
    (joined : IsHashJoin key key targets olds j)
    (lonely : All (λ r. ¬ Mem (key r) (map key targets)) j.lonely_rights)
    (held : HoldsPairs Slots.containers update_container j t) where
  pair_row :
      (p : Pair Container Container) → Mem p j.pairs → Mem (update_container p) (values t.rows)
  pair_row p m = (Perm.mem_iff held.rows).1 (mem-map_of_mem update_container (mem-append_left _ m))

  kept : KeepsAll olds (map key targets) t
  kept old m asked =
      Or.elim squash₁ (mem-append.0 ((Perm.mem_iff joined.rights_perm).1 m))
        (λ paired. ∥∥₁_map (mem-map.0 paired) (λ q. (
          update_container q.0,
          pair_row q.0 q.1,
          Keeps-of_pair q.0 old q.2 (
              All-at (λ p. key p.l ≡ key p.r) (λ p. hedberg str_discrete _ _) j.pairs q.0
                joined.pairs_agree q.1),
        )))
        (λ alone. absurd (
          All-at (λ r. ¬ Mem (key r) (map key targets)) (λ r. hlevel) j.lonely_rights old lonely
            alone asked))

-- If the old rows have distinct blueprint IDs, `updateContainers` keeps the ID, the IP, the minion,
-- the pod name, the status and the creation time of each container that the blueprint still asks
-- for.
pub update_containers-KeepsAll :
    (query_order order : MapRange (String × Container)) (bp : Blueprint) (db : Database)
    → Sound Slots.containers db
    → Nodup (map key (select_from_container every db))
    → Leaves Slots.containers db
        (KeepsAll (select_from_container every db) (map key (query_containers query_order bp)))
        (update_containers query_order order bp db)
unfolding update_containers
update_containers-KeepsAll query_order order bp db v d =
    let targets : List Container = query_containers query_order bp in
    let olds : List Container = select_from_container every db in
    let j : Joined Container Container = hash_join str_discrete order key key targets olds in
    let joined = hash_join-IsHashJoin str_discrete order key key targets olds in
    Leaves-map Slots.containers _ _ db _
      (λ t h.
        kept targets olds j t joined
          (hash_join-lonely_rights str_discrete order key key targets olds d) h)
      (write_pairs-HoldsPairs Slots.containers update_container j db (λ p. refl) v
        (rows_of_join Slots.containers key key targets db j joined))
