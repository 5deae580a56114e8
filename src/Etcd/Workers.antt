-- ===== src/Etcd/Workers.antt =====
-- The leader writes its containers to the store, another minion takes those that are for it.
use mathlib.Core.List.Perm
use k_elda_archive.Base.{
  ◌≡◌, refl, sym, ap, subst, ◌∙◌, String, Bool, true, false, List, [], ◌∷◌, map, keep, Perm, Nodup,
  MapRange, none, Outcome, ok, ◌>>=◌, values, Bool-cases, inl, inr,
}
use k_elda_archive.Db.{Database}
use k_elda_archive.Db.Access.{select_from}
use k_elda_archive.Db.Queries.{etcd_leader, minion_self}
use k_elda_archive.Db.Rows.{Container, Minion}
use k_elda_archive.Db.Slots
use k_elda_archive.Db.Tables.{select}
use k_elda_archive.Engine.Effects.{Leaves, Sound}
use k_elda_archive.Etcd.Containers.{
  Formats, ContainerKey, container_key, join_containers, is_taken_by, taken_by, is_placed,
  update_leader, update_non_leader, run_container_once,
}
use k_elda_archive.Etcd.Follow.{stored, write-stored}
use k_elda_archive.Etcd.Placed.{shared, join_containers-exact}
use k_elda_archive.Etcd.Store.{
  Fetched, read_etcd_node, Written, nothing_written, Codec, printed, write_text, write_etcd_slice,
}
use k_elda_archive.Server.Single.{keep-perm}

-- The containers of a database that have a minion and an IP.
abbrev pub placed : Database → List Container
placed db = keep is_placed (values db.containers.rows)

-- The JSON of containers parses to containers that are the same but for what a minion keeps of its
-- own.
pub record ContainersRoundTrip (codec : Codec Container) : Type 0 where
  pub sort-perm : (rows : List Container) → Perm (codec.sort rows) rows
  pub decode-encode :
      (rows : List Container) (text : String)
      → codec.encode rows ≡ printed text
      → map shared (codec.decode text) ≡ map shared rows

keep-map :
    {A B : Type 0} (f : A → B) (p : A → Bool) (q : B → Bool) (xs : List A)
    → ((x : A) → q (f x) ≡ p x)
    → map f (keep p xs) ≡ keep q (map f xs)
unfolding keep
keep-map f p q [] h = refl
keep-map f p q (x ∷ xs) h = elim (Bool-cases (p x)) [
  | inl e ↦ rw (e, h x ∙ e) (ap (◌∷◌ (f x)) (keep-map f p q xs h))
  | inr e ↦ rw (e, h x ∙ e) (keep-map f p q xs h)
]

-- Which containers a minion takes does not depend on what is not shared.
taken-shared :
    (self : Minion) (xs ys : List Container)
    → Perm (map shared xs) (map shared ys)
    → Perm (map shared (taken_by self xs)) (map shared (taken_by self ys))
unfolding taken_by
taken-shared self xs ys p =
    subst (λ zs. Perm zs (map shared (taken_by self ys)))
      (sym (keep-map shared (is_taken_by self) (is_taken_by self) xs (λ x. refl)))
      (subst (Perm (keep (is_taken_by self) (map shared xs)))
        (sym (keep-map shared (is_taken_by self) (is_taken_by self) ys (λ x. refl)))
        (keep-perm (is_taken_by self) p))

-- What a pass of a minion leaves after a pass of the leader.
pub record Takes (leading : Database) (self : Minion) (o : Outcome (Written × Database))
    : Type 0 where
  pub after : Database
  pub result : o ≡ ok (nothing_written, after)
  pub rows :
      Perm (map shared (values after.containers.rows)) (map shared (taken_by self (placed leading)))

leader-writes_containers :
    (formats : Formats) (order : MapRange (ContainerKey × Container)) (codec : Codec Container)
    (fetched : Fetched) (old text : String) (db : Database)
    → read_etcd_node fetched ≡ ok old
    → etcd_leader db ≡ true
    → codec.encode (codec.sort (placed db)) ≡ printed text
    → run_container_once formats order codec none fetched db
      ≡ ok (write_text none old (printed text), db)
unfolding run_container_once update_leader write_etcd_slice select_from select
leader-writes_containers formats order codec fetched old text db h l e = rw (h, l, e) refl

follower-takes :
    (formats : Formats) (order : MapRange (ContainerKey × Container)) (codec : Codec Container)
    (fetched : Fetched) (text : String) (db : Database) (self : Minion)
    → read_etcd_node fetched ≡ ok text
    → etcd_leader db ≡ false
    → minion_self db ≡ ok self
    → run_container_once formats order codec none fetched db ≡ (
        join_containers formats order (taken_by self (codec.decode text)) db >>= λ db'.
        ok (nothing_written, db'))
unfolding run_container_once update_non_leader
follower-takes formats order codec fetched text db self h l s = rw (h, l, s) refl

after_take :
    (leading following : Database) (self : Minion) (taken : List Container) (o : Outcome Database)
    → Perm (map shared taken) (map shared (taken_by self (placed leading)))
    → Leaves Slots.containers following
        (λ t. Perm (map shared (values t.rows)) (map shared taken))
        o
    → Takes leading self (o >>= λ db'. ok (nothing_written, db'))
after_take leading following self taken o p a = record {
  after = record following { containers = a.table; cur_id = a.last };
  result = rw a.result refl;
  rows = Perm.trans a.holds p;
}

-- If sorting rearranges the rows, the JSON of containers parses to the same containers but for ID,
-- pod name, status, creation time and Dockerfile, the store answers and takes the write, and the
-- container table of a minion that does not lead is sound with distinct keys, then after a pass of
-- the leader and a pass of that minion the minion's table holds, but for these fields, just those
-- containers of the leader's table that have a minion and an IP and, unless the minion is a master,
-- are placed on it.
pub follower-Takes :
    (formats : Formats) (codec : Codec Container)
    (order order' : MapRange (ContainerKey × Container)) (fetched : Fetched) (old text : String)
    (leading following : Database) (self : Minion)
    → ContainersRoundTrip codec
    → read_etcd_node fetched ≡ ok old
    → etcd_leader leading ≡ true
    → codec.encode (codec.sort (placed leading)) ≡ printed text
    → etcd_leader following ≡ false
    → minion_self following ≡ ok self
    → Nodup (map (container_key formats) (values following.containers.rows))
    → Sound Slots.containers following
    → (w : Written) × (run_container_once formats order codec none fetched leading
        ≡ ok (w, leading))
      × Takes leading self
          (run_container_once formats order' codec none (stored fetched w.sent) following)
follower-Takes formats codec order order' fetched old text leading following self rules h l e f s d
      v =
    let w : Written = write_text none old (printed text) in
    (
      w,
      leader-writes_containers formats order codec fetched old text leading h l e,
      rw
          (follower-takes formats order' codec (stored fetched w.sent) text following self
            (write-stored fetched old text h) f s)
          (after_take leading following self (taken_by self (codec.decode text)) _
            (taken-shared self (codec.decode text) (placed leading) (
              subst (λ xs. Perm xs (map shared (placed leading)))
                (sym (rules.decode-encode _ text e))
                (Perm.map shared (rules.sort-perm (placed leading)))))
            (join_containers-exact formats order' (taken_by self (codec.decode text)) following d
              v)),
    )
