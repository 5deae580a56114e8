-- ===== src/Etcd/Follow.antt =====
-- The leader writes a table to the store, another minion reads it.
use mathlib.Core.List.Perm
use k_elda_archive.Base.{
  ◌≡◌, refl, sym, ap, subst, ◌∙◌, String, true, false, List, map, Perm, Nodup, MapRange, Option,
  none, some, Outcome, ok, ◌>>=◌, values, Bool-cases, inl, inr,
}
use k_elda_archive.Cloud.Machines.{same}
use k_elda_archive.Cloud.Mirror.{same→eq}
use k_elda_archive.Db.{Database}
use k_elda_archive.Db.Access.{select_from}
use k_elda_archive.Db.Effects.{select-every}
use k_elda_archive.Db.Queries.{etcd_leader}
use k_elda_archive.Engine.Effects.{Leaves, Sound}
use k_elda_archive.Engine.Services.{dbc_key}
use k_elda_archive.Etcd.Mirror.{IsMirrored, row_keys, join_rows-exact}
use k_elda_archive.Etcd.Store.{
  printed, Fetched, found, read_etcd_node, Written, nothing_written, Codec, write_text,
  write_etcd_slice, Mirrored, mirrored_hostnames, mirrored_connections, join_rows, mirror_once,
}
use k_elda_archive.Network.Dns.{hostname_key}

-- The node after a write that the store took.
abbrev pub stored : Fetched → Option String → Fetched
stored before none = before
stored before (some text) = found text

-- After the leader's write the node reads as the JSON of its rows, whether or not it had to be sent.
pub write-stored :
    (before : Fetched) (old text : String)
    → read_etcd_node before ≡ ok old
    → read_etcd_node (stored before (write_text none old (printed text)).sent) ≡ ok text
unfolding write_text read_etcd_node
write-stored before old text h = elim (Bool-cases (same text old)) [
  | inl e ↦ rw e (h ∙ ap ok (sym (same→eq text old e)))
  | inr e ↦ rw e refl
]

module _ {R K : Type 0} (m : Mirrored R K) where
  open m use {slot, dec, key, renumber}

  -- The JSON of rows parses to rows with the same keys.
  pub record RoundTrips (codec : Codec R) : Type 0 where
    pub sort-perm : (rows : List R) → Perm (codec.sort rows) rows
    pub decode-encode :
        (rows : List R) (text : String)
        → codec.encode rows ≡ printed text
        → map key (codec.decode text) ≡ map key rows

  leader-writes :
      (codec : Codec R) (order : MapRange (K × R)) (fetched : Fetched) (old text : String)
      (db : Database)
      → read_etcd_node fetched ≡ ok old
      → etcd_leader db ≡ true
      → codec.encode (codec.sort (values (slot.read db).rows)) ≡ printed text
      → mirror_once m codec order none fetched db ≡ ok (write_text none old (printed text), db)
  unfolding mirror_once write_etcd_slice select_from
  leader-writes codec order fetched old text db h l e =
      rw (h, l, select-every slot.row (slot.read db), e) refl

  follower-reads :
      (codec : Codec R) (order : MapRange (K × R)) (fetched : Fetched) (text : String)
      (db : Database)
      → read_etcd_node fetched ≡ ok text
      → etcd_leader db ≡ false
      → mirror_once m codec order none fetched db
        ≡ (join_rows m order (codec.decode text) db >>= λ db'. ok (nothing_written, db'))
  unfolding mirror_once
  follower-reads codec order fetched text db h l = rw (h, l) refl

  -- What a pass of a follower after a pass of the leader leaves.
  pub record Follows (leading following : Database) (o : Outcome (Written × Database))
      : Type 0 where
    pub after : Database
    pub result : o ≡ ok (nothing_written, after)
    pub rows : Perm (row_keys m after) (row_keys m leading)

  after_join :
      (leading following : Database) (etcd_rows : List R) (o : Outcome Database)
      → Perm (map key etcd_rows) (row_keys m leading)
      → Leaves slot following (λ t. Perm (map key (values t.rows)) (map key etcd_rows)) o
      → Follows leading following (o >>= λ db'. ok (nothing_written, db'))
  after_join leading following etcd_rows o p a = record {
    after = slot.write a.table (slot.count a.last following);
    result = rw a.result refl;
    rows =
        Perm.trans
          (subst (λ t. Perm (map key (values t.rows)) (map key etcd_rows))
            (sym (slot.read-write a.table _)) a.holds)
          p;
  }

  -- For a table that the etcd store mirrors, if sorting rearranges the rows, the JSON of rows
  -- parses to rows with the same keys, the store answers and takes the write, and the table of a
  -- minion that does not lead is sound and has distinct keys, then after a pass of the leader and a
  -- pass of that minion the minion's table has the keys of the leader's table, each as often.
  pub follower-Follows :
      (law : IsMirrored m) (codec : Codec R) (rules : RoundTrips codec)
      (order order' : MapRange (K × R)) (fetched : Fetched) (old text : String)
      (leading following : Database)
      → read_etcd_node fetched ≡ ok old
      → etcd_leader leading ≡ true
      → codec.encode (codec.sort (values (slot.read leading).rows)) ≡ printed text
      → etcd_leader following ≡ false
      → Nodup (row_keys m following)
      → Sound slot following
      → (w : Written) × (mirror_once m codec order none fetched leading ≡ ok (w, leading))
        × Follows leading following
            (mirror_once m codec order' none (stored fetched w.sent) following)
  follower-Follows law codec rules order order' fetched old text leading following h l e f d v =
      let w = write_text none old (printed text) in
      (
        w,
        leader-writes codec order fetched old text leading h l e,
        rw
            (follower-reads codec order' (stored fetched w.sent) text following
              (write-stored fetched old text h) f)
            (after_join leading following (codec.decode text) _
              (subst (λ ks. Perm ks (row_keys m leading)) (sym (rules.decode-encode _ text e))
                (Perm.map key (rules.sort-perm _)))
              (join_rows-exact m law order' (codec.decode text) following d v)),
      )

pub hostnames-IsMirrored : IsMirrored mirrored_hostnames
unfolding hostname_key
hostnames-IsMirrored = record { keeps_id = λ e r. refl; keeps_key = λ e r. refl }

pub connections-IsMirrored : IsMirrored mirrored_connections
unfolding dbc_key
connections-IsMirrored = record { keeps_id = λ e r. refl; keeps_key = λ e r. refl }
