-- ===== src/Network/AclLaws.antt =====
-- What the calls of `syncACLs` make of the ACLs of the switch.
use mathlib.Core.List.{map-append}
use k_elda_archive.Base.{
  join_with, ◌≡◌, ◌≢◌, ◌↔◌, refl, sym, ap, subst, ◌∙◌, String, Bool, true, false, ◌||◌, List, [],
  ◌∷◌, ◌++◌, map, Perm, Mem, Nodup, All, arith, MapRange, some, has, insert_key, str_discrete,
  Bool-cases, inl, inr, mem_of_has, has_of_mem,
}
use k_elda_archive.Join.{Pair, Joined, lefts_of, rights_of}
use k_elda_archive.Join.Contract.{IsHashJoin, hash_join-IsHashJoin}
use k_elda_archive.Join.Hash.{hash_join}
use k_elda_archive.Network.Acl.{AclCore, AclCore-discrete, SwitchAcl, AclConnection}
use k_elda_archive.Network.AclText.{both_ways, way_text, packets, allowed, written_cores}
use k_elda_archive.Network.AclSync.{
  any_of, all_of, port_constraint, get_match_string, drop_acls, allow_acls, icmp_acls, icmp_match,
  connection_acls, expected_acls, core_of, AclCalls, sync_acls,
}

-- The cores that the source makes for the connections, those of ICMP for each connection again.
abbrev pub asked_for : List AclConnection → List AclCore
asked_for [] = []
asked_for (conn ∷ conns) =
    map core_of (allow_acls conn) ++ (map core_of (icmp_acls (icmp_match conn)) ++ asked_for conns)

abbrev has_core : AclCore → List AclCore → Bool
has_core = has AclCore-discrete

has_core-append :
    (c : AclCore) (xs ys : List AclCore) → has_core c (xs ++ ys) ≡ (has_core c xs || has_core c ys)
unfolding has
has_core-append c [] ys = refl
has_core-append c (x ∷ xs) ys = ground (arith, has_core-append c xs ys)

has_rest :
    (m n : String) (seen : List String)
    → m ≢ n
    → has str_discrete m (n ∷ seen) ≡ true
    → has str_discrete m seen ≡ true
unfolding has
has_rest m n seen e h = ground (arith, h)

has_none : (m : String) → has str_discrete m [] ≡ false
unfolding has
has_none m = refl

abbrev cores : List String → List AclConnection → List AclCore
cores seen conns = map core_of (connection_acls seen conns)

-- A round of the loop.
cores-seen :
    (seen : List String) (conn : AclConnection) (conns : List AclConnection)
    → has str_discrete (icmp_match conn) seen ≡ true
    → cores seen (conn ∷ conns) ≡ map core_of (allow_acls conn) ++ cores seen conns
unfolding connection_acls insert_key
cores-seen seen conn conns h = rw h refl

cores-new :
    (seen : List String) (conn : AclConnection) (conns : List AclConnection)
    → has str_discrete (icmp_match conn) seen ≡ false
    → cores seen (conn ∷ conns)
      ≡ map core_of (allow_acls conn)
        ++ (map core_of (icmp_acls (icmp_match conn)) ++ cores (icmp_match conn ∷ seen) conns)
unfolding connection_acls insert_key
cores-new seen conn conns h = rw h refl

cores-nil : (seen : List String) → cores seen [] ≡ []
unfolding connection_acls
cores-nil seen = refl

or-seen :
    (d a i x y : Bool)
    → (i ≡ true → d ≡ true)
    → ((d || a) || x) ≡ ((d || a) || y)
    → (d || (a || x)) ≡ (d || (a || (i || y)))
or-seen true a i x y f h = refl
or-seen false true i x y f h = refl
or-seen false false true x y f h = absurd (ground (arith, f refl))
or-seen false false false x y f h = h

or-new :
    (d a i x y : Bool)
    → (((d || a) || i) || x) ≡ (((d || a) || i) || y)
    → (d || (a || (i || x))) ≡ (d || (a || (i || y)))
or-new true a i x y h = refl
or-new false true i x y h = refl
or-new false false i x y h = h

or_left : (a b : Bool) → a ≡ true → (a || b) ≡ true
or_left a b h = ground (arith, h)

or_right : (a b : Bool) → b ≡ true → (a || b) ≡ true
or_right a b h = ground (arith, h)

-- What a list of seen matches and of cores before tells of a core: one of an ICMP match that was seen
-- stands before.
abbrev Before : AclCore → List String → Bool → Type 0
Before c seen d =
    (m : String)
    → has str_discrete m seen ≡ true
    → has_core c (map core_of (icmp_acls m)) ≡ true
    → d ≡ true

Before-cons :
    (c : AclCore) (n : String) (seen : List String) (d : Bool)
    → Before c seen d
    → Before c (n ∷ seen) (d || has_core c (map core_of (icmp_acls n)))
Before-cons c n seen d f m h k = elim (str_discrete m n) [
  | yes e ↦
      or_right d (has_core c (map core_of (icmp_acls n)))
        (subst (λ x. has_core c (map core_of (icmp_acls x)) ≡ true) e k)
  | no e ↦ or_left d (has_core c (map core_of (icmp_acls n))) (f m (has_rest m n seen e h) k)
]

-- To leave out the ICMP matches that were seen changes nothing.
cores-asked :
    (c : AclCore) (conns : List AclConnection) (seen : List String) (d : Bool)
    → Before c seen d
    → (d || has_core c (cores seen conns)) ≡ (d || has_core c (asked_for conns))
cores-asked c [] seen d f = ap (λ xs. d || has_core c xs) (cores-nil seen)
cores-asked c (conn ∷ conns) seen d f =
    let m : String = icmp_match conn in
    let allow : List AclCore = map core_of (allow_acls conn) in
    let icmp : List AclCore = map core_of (icmp_acls m) in
    let a : Bool = has_core c allow in
    let i : Bool = has_core c icmp in
    let asked : has_core c (asked_for (conn ∷ conns)) ≡ (a || (i || has_core c (asked_for conns))) =
      has_core-append c allow (icmp ++ asked_for conns)
      ∙ ap (λ b. a || b) (has_core-append c icmp (asked_for conns)) in
    elim (Bool-cases (has str_discrete m seen)) [
      | inl h ↦
          ap (λ b. d || b)
            (ap (has_core c) (cores-seen seen conn conns h)
              ∙ has_core-append c allow (cores seen conns))
          ∙ or-seen d a i (has_core c (cores seen conns)) (has_core c (asked_for conns)) (f m h)
              (cores-asked c conns seen (d || a) (λ n p q. or_left d a (f n p q)))
          ∙ ap (λ b. d || b) (sym asked)
      | inr h ↦
          ap (λ b. d || b)
            (ap (has_core c) (cores-new seen conn conns h)
              ∙ has_core-append c allow (icmp ++ cores (m ∷ seen) conns)
              ∙ ap (λ b. a || b) (has_core-append c icmp (cores (m ∷ seen) conns)))
          ∙ or-new d a i (has_core c (cores (m ∷ seen) conns)) (has_core c (asked_for conns)) (
              cores-asked c conns (m ∷ seen) ((d || a) || i)
                (Before-cons c m seen (d || a) (λ n p q. or_left d a (f n p q))))
          ∙ ap (λ b. d || b) (sym asked)
    ]

written-asked : (conns : List AclConnection) → asked_for conns ≡ allowed conns
unfolding icmp_match get_match_string any_of all_of port_constraint join_with
written-asked [] = refl
written-asked (conn ∷ conns) =
    ap
      (λ rest.
        both_ways 1 (packets conn) "allow"
          (both_ways 1 (way_text conn.from conn.to "icmp") "allow-related" rest))
      (written-asked conns)

-- The ACLs of the switch after both calls: those listed without the deleted ones, and the created
-- ones. Each core that is asked for is there once, and no other is.
pub record IsExact (listed : List SwitchAcl) (conns : List AclConnection) (calls : AclCalls)
    : Type 0 where
  pub kept : List SwitchAcl
  pub deletes : Perm (kept ++ calls.deleted) listed
  pub once : Nodup (map core_of kept ++ calls.created)
  pub exact :
      (c : AclCore) → Mem c (map core_of kept ++ calls.created) ↔ Mem c (written_cores conns)

expected-asked :
    (c : AclCore) (conns : List AclConnection)
    → has_core c (map core_of (expected_acls conns)) ≡ has_core c (written_cores conns)
unfolding expected_acls
expected-asked c conns =
    ap (has_core c) (map-append core_of drop_acls (connection_acls [] conns))
    ∙ has_core-append c (map core_of drop_acls) (cores [] conns)
    ∙ cores-asked c conns [] (has_core c (map core_of drop_acls)) (λ m h k. cc (h, has_none m))
    ∙ sym (has_core-append c (map core_of drop_acls) (asked_for conns))
    ∙ ap (λ cs. has_core c (map core_of drop_acls ++ cs)) (written-asked conns)

paired-cores :
    (ps : List (Pair SwitchAcl SwitchAcl))
    → All (λ p. core_of p.l ≡ core_of p.r) ps
    → map core_of (rights_of ps) ≡ map core_of (lefts_of ps)
paired-cores [] a = refl
paired-cores (p ∷ ps) a = ground (arith, paired-cores ps a.1)

-- If the switch lists its ACLs, then after the calls of syncACLs, each taking effect, the rows that
-- were not deleted and the created ones have each core once, and their cores are just these: to
-- drop all IP traffic with priority 0, and with priority 1 for each connection to allow packets
-- from the one address to the other at the ports of its range and back, and the related ones of
-- ICMP, each in both directions.
pub sync_acls-IsExact :
    (order : MapRange (AclCore × SwitchAcl)) (listed : List SwitchAcl) (conns : List AclConnection)
    → IsExact listed conns (sync_acls order (some listed) conns)
unfolding sync_acls
sync_acls-IsExact order listed conns =
    let j : Joined SwitchAcl SwitchAcl =
      hash_join AclCore-discrete order core_of core_of (expected_acls conns) listed in
    let h : IsHashJoin core_of core_of (expected_acls conns) listed j =
      hash_join-IsHashJoin AclCore-discrete order core_of core_of (expected_acls conns) listed in
    let same : map core_of (lefts_of j.pairs ++ j.lonely_lefts)
        ≡ map core_of (rights_of j.pairs) ++ map core_of j.lonely_lefts =
      map-append core_of (lefts_of j.pairs) j.lonely_lefts
      ∙ ap (λ xs. xs ++ map core_of j.lonely_lefts) (sym (paired-cores j.pairs h.pairs_agree)) in
    record {
      kept = rights_of j.pairs;
      deletes = h.rights_perm;
      once = subst Nodup same h.keys_once;
      exact = λ c. (
        (λ m. mem_of_has AclCore-discrete c _ (
            sym (expected-asked c conns)
            ∙ has_of_mem AclCore-discrete c _ ((h.keys_all c).0 (subst (Mem c) (sym same) m)))),
        (λ m. subst (Mem c) same (
            (h.keys_all c).1 (
              mem_of_has AclCore-discrete c _
                (expected-asked c conns ∙ has_of_mem AclCore-discrete c _ m)))),
      );
    }
