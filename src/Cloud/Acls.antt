-- ===== src/Cloud/Acls.antt =====
-- cloud/cloud.go: the ACLs that `desiredACLs` makes of a blueprint.
use k_elda_archive.Base.{
  ◌≡◌, refl, ap, ◌∙◌, Bool, true, false, ◌&&◌, ◌||◌, String, List, [], ◌∷◌, ◌++◌, ite, has,
  insert_key, arith, Bool-cases, inl, inr,
}
use k_elda_archive.Blueprint
use k_elda_archive.Blueprint.{Blueprint, public_internet_label}
use k_elda_archive.Cloud.Machines.{
  Acl, Acl-discrete, open_to, admin_acls, public_acl, public_acls, desired_acls,
}
use k_elda_archive.Str.Defs.{slice_contains}

-- One of the addresses, at all ports.
abbrev from_admin : Acl → List String → Bool
from_admin a [] = false
from_admin a (cidr ∷ cidrs) =
    ite (Acl-discrete a (record { cidr_ip = cidr; min_port = 1; max_port = 65535 })) true false
    || from_admin a cidrs

-- Any address, at the ports of a connection from the public internet.
abbrev from_public : Acl → List Blueprint.Connection → Bool
from_public a [] = false
from_public a (conn ∷ conns) =
    (slice_contains conn.from public_internet_label
      && ite
          (Acl-discrete a
            (record { cidr_ip = "0.0.0.0/0"; min_port = conn.min_port; max_port = conn.max_port }))
          true false)
    || from_public a conns

abbrev pub admits : Blueprint → Acl → Bool
admits bp a =
    from_public a bp.connections || (from_admin a ("local" ∷ []) || from_admin a bp.admin_acl)

has-insert :
    (a b : Acl) (acls : List Acl)
    → has Acl-discrete a (insert_key Acl-discrete b acls)
      ≡ (ite (Acl-discrete a b) true false || has Acl-discrete a acls)
unfolding has insert_key
has-insert a b acls = ground arith

or_turn : (x y z : Bool) → (x || (y || z)) ≡ ((y || x) || z)
or_turn x y z = ground arith

admin_acls-has :
    (a : Acl) (cidrs : List String) (acls : List Acl)
    → has Acl-discrete a (admin_acls cidrs acls) ≡ (from_admin a cidrs || has Acl-discrete a acls)
unfolding admin_acls
admin_acls-has a [] acls = refl
admin_acls-has a (cidr ∷ cidrs) acls =
    admin_acls-has a cidrs (insert_key Acl-discrete (open_to cidr) acls)
    ∙ ap (λ b. from_admin a cidrs || b) (has-insert a (open_to cidr) acls)
    ∙ or_turn (from_admin a cidrs) (ite (Acl-discrete a (open_to cidr)) true false)
        (has Acl-discrete a acls)

public_acls-has :
    (a : Acl) (conns : List Blueprint.Connection) (acls : List Acl)
    → has Acl-discrete a (public_acls conns acls) ≡ (from_public a conns || has Acl-discrete a acls)
unfolding public_acls
public_acls-has a [] acls = refl
public_acls-has a (conn ∷ conns) acls =
    elim (Bool-cases (slice_contains conn.from public_internet_label)) [
      | inl h ↦ rw h (
          public_acls-has a conns (insert_key Acl-discrete (public_acl conn) acls)
          ∙ ap (λ b. from_public a conns || b) (has-insert a (public_acl conn) acls)
          ∙ or_turn (from_public a conns) (ite (Acl-discrete a (public_acl conn)) true false)
              (has Acl-discrete a acls))
      | inr h ↦ rw h (public_acls-has a conns acls)
    ]

from_admin-append :
    (a : Acl) (xs ys : List String) → from_admin a (xs ++ ys) ≡ (from_admin a ys || from_admin a xs)
from_admin-append a [] ys = or_false (from_admin a ys)
  where
    or_false : (b : Bool) → b ≡ (b || false)
    or_false b = ground arith
from_admin-append a (x ∷ xs) ys =
    ap (λ b. ite (Acl-discrete a (open_to x)) true false || b) (from_admin-append a xs ys)
    ∙ turned (ite (Acl-discrete a (open_to x)) true false) (from_admin a ys) (from_admin a xs)
  where
    turned : (x y z : Bool) → (x || (y || z)) ≡ (y || (x || z))
    turned x y z = ground arith

has_none : (a : Acl) → has Acl-discrete a [] ≡ false
unfolding has
has_none a = refl

pub desired_acls-admits :
    (bp : Blueprint) (a : Acl) → has Acl-discrete a (desired_acls bp) ≡ admits bp a
unfolding desired_acls
desired_acls-admits bp a =
    public_acls-has a bp.connections (admin_acls (bp.admin_acl ++ "local" ∷ []) [])
    ∙ ap (λ b. from_public a bp.connections || b)
        (admin_acls-has a (bp.admin_acl ++ "local" ∷ []) []
          ∙ or_none (from_admin a (bp.admin_acl ++ "local" ∷ [])) _ (has_none a)
          ∙ from_admin-append a bp.admin_acl ("local" ∷ []))
  where
    or_none : (b c : Bool) → c ≡ false → (b || c) ≡ b
    or_none b c h = ground (arith, h)
