-- ===== src/Etcd/Unique.antt =====
-- Minions that campaign in turn against one store.
use mathlib.Core.Option.{some-injective}
use k_elda_archive.Base.{
  ok-injective, ◌≡◌, ◌≢◌, sym, ap, subst, ◌∙◌, String, true, Option, none, some, ok, inl, inr,
}
use k_elda_archive.Db.{Database}
use k_elda_archive.Db.Queries.{etcd_leader}
use k_elda_archive.Etcd.Elector.{Request, Answer, accepted, campaign}
use k_elda_archive.Etcd.Election.{IsNode, ip_of, IsPass, campaign-IsPass}

-- The leader's key in the store, and how a call changes it.
pub record LeaderKey : Type 0 where
  pub answer : Option String → Request → Answer
  pub next : Option String → Request → Option String

-- What a campaign relies on while the key does not expire: a value stays, and a call that is accepted
-- leaves its own.
pub record IsLeaderKey (key : LeaderKey) : Type 0 where
  pub keeps : (ip : String) (r : Request) → key.next (some ip) r ≡ some ip
  pub grants :
      (holder : Option String) (r : Request)
      → key.answer holder r ≡ accepted
      → key.next holder r ≡ some (ip_of r)

-- The value of the key, and the databases of the minions.
pub record Cluster (I : Type 0) : Type 0 where
  pub holder : Option String
  pub nodes : I → Database

abbrev pub next_holder : LeaderKey → Option String → Option Request → Option String
next_holder key holder none = holder
next_holder key holder (some r) = key.next holder r

-- One pass of one minion.
pub record Pass {I : Type 0} (key : LeaderKey) (i : I) (before after : Cluster I) : Type 0 where
  pub call : Option Request
  pub node : Database
  pub result : campaign (key.answer before.holder) (before.nodes i) ≡ ok (call, node)
  pub holder : after.holder ≡ next_holder key before.holder call
  pub changed : after.nodes i ≡ node
  pub others : (j : I) → j ≢ i → after.nodes j ≡ before.nodes j

pub data Passes {I : Type 0} (key : LeaderKey) : Cluster I → Cluster I → Type 0 where
  start : {c : Cluster I} → Passes key c c
  later : {b c d : Cluster I} → Passes key b c → (i : I) → Pass key i c d → Passes key b d

-- Each minion is at its address, and one that leads holds the key.
pub record IsElected {I : Type 0} (ips : I → String) (c : Cluster I) : Type 0 where
  pub node : (i : I) → IsNode (ips i) (c.nodes i)
  pub leader : (i : I) → etcd_leader (c.nodes i) ≡ true → c.holder ≡ some (ips i)

module _ {I : Type 0} (dec : Discrete I) (key : LeaderKey) (law : IsLeaderKey key)
    (ips : I → String) where
  keeps_holder :
      (ip : String) (holder : Option String) (call : Option Request)
      → holder ≡ some ip
      → next_holder key holder call ≡ some ip
  keeps_holder ip holder none h = h
  keeps_holder ip holder (some r) h = ap (λ o. key.next o r) h ∙ law.keeps ip r

  pub Pass-IsElected :
      (i : I) (before after : Cluster I)
      → Pass key i before after
      → IsElected ips before
      → IsElected ips after
  Pass-IsElected i before after p v =
      let a : IsPass (ips i) (key.answer before.holder) (before.nodes i)
          (campaign (key.answer before.holder) (before.nodes i)) =
        campaign-IsPass (ips i) (key.answer before.holder) (before.nodes i) (v.node i) in
      let same : (a.call, a.after) ≡ (p.call, p.node) = ok-injective (sym a.result ∙ p.result) in
      let now : after.nodes i ≡ a.after = p.changed ∙ sym (ap (λ x. x.1) same) in
      let held : after.holder ≡ next_holder key before.holder a.call =
        p.holder ∙ ap (λ x. next_holder key before.holder x.0) (sym same) in
      record {
        node = λ j. elim (dec j i) [
          | yes e ↦
              subst (λ k. IsNode (ips k) (after.nodes k)) (sym e)
                (subst (IsNode (ips i)) (sym now) a.node)
          | no n ↦ subst (IsNode (ips j)) (sym (p.others j n)) (v.node j)
        ];
        leader = λ j h. elim (dec j i) [
          | yes e ↦
              subst (λ k. after.holder ≡ some (ips k)) (sym e)
                (held
                  ∙ elim (a.leads (
                      ap etcd_leader (sym now)
                      ∙ ap (λ k. etcd_leader (after.nodes k)) (sym e)
                      ∙ h)) [
                        | inl (c, l) ↦ ap (next_holder key before.holder) c ∙ v.leader i l
                        | inr (r, c, y) ↦
                            ap (next_holder key before.holder) c
                            ∙ law.grants before.holder r y
                            ∙ ap some (a.own r c)
                      ])
          | no n ↦
              held
              ∙ keeps_holder (ips j) before.holder a.call
                  (v.leader j (ap etcd_leader (sym (p.others j n)) ∙ h))
        ];
      }

  pub Passes-IsElected : {b c : Cluster I} → Passes key b c → IsElected ips b → IsElected ips c
  Passes-IsElected start v = v
  Passes-IsElected (later {c} {d} ps i p) v = Pass-IsElected i c d p (Passes-IsElected ps v)

  -- If the leader's key does not expire, keeps its value and takes on the IP of a call that it
  -- accepts, and if the minions have different addresses, sound etcd tables and one row each for
  -- themselves, and each one that leads holds the key, then after any passes of any minions'
  -- campaigns at most one minion leads.
  pub one_leader :
      {b c : Cluster I} (i j : I)
      → ((i j : I) → ips i ≡ ips j → i ≡ j)
      → IsElected ips b
      → Passes key b c
      → etcd_leader (c.nodes i) ≡ true
      → etcd_leader (c.nodes j) ≡ true
      → i ≡ j
  one_leader i j distinct v ps h k =
      let w = Passes-IsElected ps v in
      distinct i j (some-injective _ _ (sym (w.leader i h) ∙ w.leader j k))
