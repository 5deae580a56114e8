-- ===== src/Etcd/Mirror.antt =====
-- What a pass of a minion that does not lead leaves in its table.
use mathlib.Core.List.{map-append, perm_append_comm}
use mathlib.Core.List.Perm
use k_elda_archive.Base.{
  ℕ, suc, ◌≡◌, refl, sym, subst, ◌∙◌, List, [], ◌∷◌, ◌++◌, map, Perm, Nodup, MapRange, values,
  arith, ok, All,
}
use k_elda_archive.Db.{Database}
use k_elda_archive.Db.Access.{select_from}
use k_elda_archive.Db.Effects.{select-every}
use k_elda_archive.Db.Queries.{every}
use k_elda_archive.Engine.Effects.{
  Leaves, Leaves-bind, Leaves-map, Sound, Sound-write, made, add_each-Leaves, remove_each-Leaves,
}
use k_elda_archive.Engine.Loops.{add_each, remove_each}
use k_elda_archive.Etcd.Store.{Mirrored, join_rows}
use k_elda_archive.Join.{Pair, Joined, lefts_of, rights_of}
use k_elda_archive.Join.Contract.{IsHashJoin, hash_join-IsHashJoin, hash_join-lefts_perm}
use k_elda_archive.Join.Hash.{hash_join}

-- What the joins of this package rely on: the ID is no part of the key.
pub record IsMirrored {R K : Type 0} (m : Mirrored R K) : Type 0 where
  pub keeps_id : (etcd row : R) → m.slot.row.get_id (m.renumber etcd row) ≡ m.slot.row.get_id row
  pub keeps_key : (etcd row : R) → m.key (m.renumber etcd row) ≡ m.key etcd

-- The keys of the table.
abbrev pub row_keys : {R K : Type 0} → Mirrored R K → Database → List K
row_keys m db = map m.key (values (m.slot.read db).rows)

module _ {R K : Type 0} (m : Mirrored R K) (law : IsMirrored m) where
  open m use {slot, dec, key, renumber}

  made-keys : (n : ℕ) (xs : List R) → map key (made slot renumber n xs) ≡ map key xs
  made-keys n [] = refl
  made-keys n (x ∷ xs) =
      ground (arith, law.keeps_key x (slot.row.zero_row (suc n)), made-keys (suc n) xs)

  paired-keys :
      (ps : List (Pair R R))
      → All (λ p. key p.l ≡ key p.r) ps
      → map key (lefts_of ps) ≡ map key (rights_of ps)
  paired-keys [] a = refl
  paired-keys (p ∷ ps) a = ground (arith, paired-keys ps a.1)

  module _ (order : MapRange (K × R)) (etcd_rows : List R) (db : Database) where
    joined : Joined R R
    joined = hash_join dec order key key (select_from slot every db) etcd_rows

    joined-IsHashJoin : IsHashJoin key key (select_from slot every db) etcd_rows joined
    unfolding joined
    joined-IsHashJoin = hash_join-IsHashJoin dec order key key (select_from slot every db) etcd_rows

    selected : select_from slot every db ≡ values (slot.read db).rows
    unfolding select_from
    selected = select-every slot.row (slot.read db)

    joined-rows :
        Nodup (row_keys m db)
        → Perm (values (slot.read db).rows) (joined.lonely_lefts ++ lefts_of joined.pairs)
    unfolding joined
    joined-rows d = Perm.symm (
        subst (Perm (joined.lonely_lefts ++ lefts_of joined.pairs)) selected (
          Perm.trans (perm_append_comm joined.lonely_lefts (lefts_of joined.pairs)) (
            hash_join-lefts_perm dec order key key (select_from slot every db) etcd_rows
              (subst (λ rows. Nodup (map key rows)) (sym selected) d))))

    -- The rows that were there and the new ones have the keys of the store's rows.
    exact-keys :
        (n : ℕ) (rows : List R)
        → Perm rows (lefts_of joined.pairs ++ made slot renumber n joined.lonely_rights)
        → Perm (map key rows) (map key etcd_rows)
    exact-keys n rows p = Perm.trans (Perm.map key p) (
        subst (λ ks. Perm ks (map key etcd_rows))
          (sym (
            map-append key (lefts_of joined.pairs) (made slot renumber n joined.lonely_rights)
            ∙ rw
                (
                  paired-keys joined.pairs joined-IsHashJoin.pairs_agree,
                  made-keys n joined.lonely_rights,
                  map-append key (rights_of joined.pairs) joined.lonely_rights,
                )
                refl))
          (Perm.map key joined-IsHashJoin.rights_perm))

    pub join_rows-exact :
        Nodup (row_keys m db)
        → Sound slot db
        → Leaves slot db
            (λ t. Perm (map key (values t.rows)) (map key etcd_rows))
            (join_rows m order etcd_rows db)
    unfolding join_rows joined
    join_rows-exact d v =
        Leaves-bind slot (λ t. Perm (values t.rows) (lefts_of joined.pairs)) _ db
          (ok (remove_each slot joined.lonely_lefts db))
          (add_each slot renumber joined.lonely_rights)
          (remove_each-Leaves slot joined.lonely_lefts (lefts_of joined.pairs) db v (joined-rows d))
          (λ t n sound rest.
            let db' : Database = slot.write t (slot.count n db) in
            Leaves-map slot _ _ _ _
              (λ u e. exact-keys db'.cur_id (values u.rows) (
                subst
                  (λ rows.
                    Perm rows
                      (lefts_of joined.pairs ++ made slot renumber db'.cur_id joined.lonely_rights))
                  (sym e)
                  (Perm.append_right {l₁ = values (slot.read db').rows} {l₂ = lefts_of joined.pairs}
                    _ (rw slot.read-write rest))))
              (add_each-Leaves slot renumber joined.lonely_rights db' law.keeps_id
                (Sound-write slot n t db sound)))
