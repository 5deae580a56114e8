-- ===== src/Engine/Ports.antt =====
-- The rules of `portPlacements` of minion/engine.go.
use mathlib.Core.List.{
  Mem-prop, mem-cons, mem-cons_self, mem-cons_of_mem, not-mem-nil, mem-append, mem-append_left,
  mem-append_right,
}
use mathlib.Core.Logic.Or
use k_elda_archive.Base.{
  ℕ, ◌==◌, String, false, ◌≡◌, sym, subst, List, [], ◌∷◌, ◌++◌, Mem, MapRange, Bool-cases, inl, inr,
  arith,
}
use k_elda_archive.Db.Rows.{Connection, Placement}
use k_elda_archive.Engine.Policy.{
  exclusive_rule, rules_against, port_rules, all_port_rules, public_ports, port_placements,
}
use k_elda_archive.Join.Score.{enumerate}

-- The rule with its two containers exchanged.
abbrev pub mirrored : Placement → Placement
mirrored r = record r { target_container = r.other_container; other_container = r.target_container }

against-mem :
    (i : ℕ) (tgt : String) (cids : List (ℕ × String)) (f : ℕ × String)
    → Mem f cids
    → (i == f.0) ≡ false
    → Mem (exclusive_rule tgt f.1) (rules_against i tgt cids)
unfolding rules_against
against-mem i tgt [] f m n = absurd (not-mem-nil m)
against-mem i tgt (e ∷ cids) f m n = elim (Bool-cases (i == e.0)) [
  | inl same ↦ rw same (
      Or.elim Mem-prop (mem-cons.0 m) (λ here. cc (n, same, here))
        (λ later. against-mem i tgt cids f later n))
  | inr other ↦ rw other (
      Or.elim Mem-prop (mem-cons.0 m)
        (λ here.
          subst
            (λ g. Mem (exclusive_rule tgt g.1) (exclusive_rule tgt e.1 ∷ rules_against i tgt cids))
            (sym here) mem-cons_self)
        (λ later. mem-cons_of_mem _ (against-mem i tgt cids f later n)))
]

-- Where each rule of a target comes from.
against-from :
    (P : Type 0) (cP : IsProp P) (i : ℕ) (tgt : String) (cids : List (ℕ × String)) (r : Placement)
    → Mem r (rules_against i tgt cids)
    → ((f : ℕ × String) → Mem f cids → (i == f.0) ≡ false → r ≡ exclusive_rule tgt f.1 → P)
    → P
unfolding rules_against
against-from P cP i tgt [] r m g = absurd (not-mem-nil m)
against-from P cP i tgt (e ∷ cids) r m g = elim (Bool-cases (i == e.0)) [
  | inl same ↦
      against-from P cP i tgt cids r (rw same at m) (λ f h n q. g f (mem-cons_of_mem _ h) n q)
  | inr other ↦
      Or.elim cP (mem-cons.0 (rw other at m)) (λ here. g e mem-cons_self other here)
        (λ later. against-from P cP i tgt cids r later (λ f h n q. g f (mem-cons_of_mem _ h) n q))
]

port-mem :
    (cids all : List (ℕ × String)) (e f : ℕ × String)
    → Mem e cids
    → Mem f all
    → (e.0 == f.0) ≡ false
    → Mem (exclusive_rule e.1 f.1) (port_rules cids all)
unfolding port_rules
port-mem [] all e f m h n = absurd (not-mem-nil m)
port-mem (c ∷ cids) all e f m h n =
    Or.elim Mem-prop (mem-cons.0 m)
      (λ here.
        subst (λ d. Mem (exclusive_rule d.1 f.1) (rules_against c.0 c.1 all ++ port_rules cids all))
          (sym here)
          (mem-append_left _
            (against-mem c.0 c.1 all f h (subst (λ d. (d.0 == f.0) ≡ false) here n))))
      (λ later. mem-append_right (rules_against c.0 c.1 all) (port-mem cids all e f later h n))

port-from :
    (P : Type 0) (cP : IsProp P) (cids all : List (ℕ × String)) (r : Placement)
    → Mem r (port_rules cids all)
    → ((e f : ℕ × String)
        → Mem e cids
        → Mem f all
        → (e.0 == f.0) ≡ false
        → r ≡ exclusive_rule e.1 f.1
        → P)
    → P
unfolding port_rules
port-from P cP [] all r m g = absurd (not-mem-nil m)
port-from P cP (c ∷ cids) all r m g =
    Or.elim cP (mem-append.0 m)
      (λ here. against-from P cP c.0 c.1 all r here (λ f h n q. g c f mem-cons_self h n q))
      (λ later. port-from P cP cids all r later (λ e f k h n q. g e f (mem-cons_of_mem _ k) h n q))

differ : (a b : ℕ) → (a == b) ≡ false → (b == a) ≡ false
differ a b h = ground arith

-- On one port.
port_rules-mirrored :
    (all : List (ℕ × String)) (r : Placement)
    → Mem r (port_rules all all)
    → Mem (mirrored r) (port_rules all all)
port_rules-mirrored all r m = port-from _ Mem-prop all all r m (λ e f k h n q.
    subst (λ s. Mem (mirrored s) (port_rules all all)) (sym q)
      (port-mem all all f e h k (differ e.0 f.0 n)))

all_port_rules-mirrored :
    (ports : List (ℕ × List String)) (r : Placement)
    → Mem r (all_port_rules ports)
    → Mem (mirrored r) (all_port_rules ports)
unfolding all_port_rules
all_port_rules-mirrored [] r m = absurd (not-mem-nil m)
all_port_rules-mirrored ((port, cids) ∷ ports) r m =
    Or.elim Mem-prop (mem-append.0 m)
      (λ here. mem-append_left _ (port_rules-mirrored (enumerate 0 cids) r here))
      (λ later.
        mem-append_right (port_rules (enumerate 0 cids) (enumerate 0 cids))
          (all_port_rules-mirrored ports r later))

-- If `portPlacements` keeps one container off the machines of another, then it also keeps the other
-- off the machines of the first.
pub port_placements-mirrored :
    (order : MapRange (ℕ × List String)) (connections : List Connection) (r : Placement)
    → Mem r (port_placements order connections)
    → Mem (mirrored r) (port_placements order connections)
unfolding port_placements
port_placements-mirrored order connections r m =
    all_port_rules-mirrored (order.range (public_ports connections [])) r m
