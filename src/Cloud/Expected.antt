-- ===== src/Cloud/Expected.antt =====
-- cloud/join.go and cloud/cloud.go: what a run of the join is to make of machines and of the
-- blueprint, written out.
use k_elda_archive.Base.{
  ℤ, pos, negsuc, sym, ℕ, suc, ◌==◌, String, Bool, true, false, ◌&&◌, ◌||◌, not, List, [], ◌∷◌, ite,
  if◌then◌else◌, ◌≡◌, refl, arith, str_discrete, ap, ◌∙◌,
}
use k_elda_archive.Cloud.Machines.{
  Cloud, same, score_in_place, is_unassigned, Bool-discrete, connection_status,
}
use k_elda_archive.Cloud.Join.{refreshed, needs_ip, with_ip}
use k_elda_archive.Db.Rows.{Machine, Role-discrete, unassigned}
use k_elda_archive.Join.{Pair}
use k_elda_archive.Join.Settled.{is_negative}

-- The machine is in the region.
abbrev pub is_here : Cloud → Machine → Bool
is_here cld m = same m.provider cld.provider_name && same m.region cld.region

-- Both can be one machine: equal in whether they can be preempted and in size, and in disk size and
-- role where both have one.
abbrev pub fits : Machine → Machine → Bool
fits l r =
    ite (Bool-discrete l.preemptible r.preemptible) true false
    && (same l.size r.size
        && ((l.disk_size == 0 || (r.disk_size == 0 || l.disk_size == r.disk_size))
            && (ite (Role-discrete l.role unassigned) true false
                || (ite (Role-discrete r.role unassigned) true false
                    || ite (Role-discrete l.role r.role) true false))))

guarded :
    (b g : Bool) (z : ℤ) (f : Bool)
    → not b ≡ g
    → is_negative z ≡ not f
    → is_negative (if b then negsuc 0 else z) ≡ not (g && f)
guarded true true z f e h = cc e
guarded true false z f e h = refl
guarded false true z f e h = h
guarded false false z f e h = cc e

not_negative : (b : Bool) (n : ℕ) → is_negative (if b then pos 0 else pos n) ≡ false
not_negative true n = refl
not_negative false n = refl

not-ite : {A : Type 0} (d : Dec A) → not (ite d false true) ≡ ite d true false
not-ite (yes p) = refl
not-ite (no n) = refl

not-not : (a : Bool) → not (not a) ≡ a
not-not a = ground arith

not-and : (a b c d : Bool) → not c ≡ d → not (not a && not b && c) ≡ (a || (b || d))
not-and a b c d e = ground arith

and_true : (a : Bool) → not a ≡ not (a && true)
and_true a = ground arith

pub score-fits : (l r : Machine) → is_negative (score_in_place l r) ≡ not (fits l r)
unfolding score_in_place
score-fits l r = guarded _ _ _ _ (not-ite (Bool-discrete l.preemptible r.preemptible)) (
    guarded _ _ _ _ (not-not (same l.size r.size)) (
      guarded _ _ _ _
        (not-and (l.disk_size == 0) (r.disk_size == 0) (not (l.disk_size == r.disk_size)) _
          (not-not (l.disk_size == r.disk_size)))
        (guarded _ _ _ true
            (not-and (is_unassigned l.role) (is_unassigned r.role) _ _
              (not-ite (Role-discrete l.role r.role)))
            (not_negative _ _)
          ∙ sym (and_true _))))

-- The provider's machine, with what only the row knows.
abbrev pub mirrored : Pair Machine Machine → Machine
mirrored p = record {
  id = p.l.id;
  provider = p.r.provider;
  region = p.r.region;
  size = p.r.size;
  disk_size = p.r.disk_size;
  ssh_keys = p.l.ssh_keys;
  floating_ip = p.r.floating_ip;
  preemptible = p.r.preemptible;
  cloud_id = p.r.cloud_id;
  public_ip = p.r.public_ip;
  private_ip = p.r.private_ip;
  status = p.l.status;
  role = p.l.role;
  connected = p.l.connected;
}

-- Rows for machines that had none, with the IDs from the one after `n` on.
abbrev pub fresh_rows : ℕ → List Machine → List Machine
fresh_rows n [] = []
fresh_rows n (m ∷ ms) =
    record m { id = suc n; ssh_keys = []; status = ""; role = unassigned; connected = false }
    ∷ fresh_rows (suc n) ms

-- The status of a row by its public IP and its connection.
abbrev pub status_after : Machine → String
status_after m =
    if not (same m.public_ip "") && m.connected
    then "connected"
    else (if same m.status "connected" || same m.status "reconnecting"
        then "reconnecting"
        else (if same m.public_ip "" then m.status else "connecting"))

-- The row of a desired machine.
abbrev pub planned_row : Pair Machine Machine → Machine
planned_row p = record (p.r) { ssh_keys = p.l.ssh_keys; status = status_after p.r }

-- A machine with a role, whose floating IP is not the desired one.
abbrev pub wants_ip : Pair Machine Machine → Bool
wants_ip p =
    not (ite (Role-discrete p.r.role unassigned) true false)
    && not (same p.l.floating_ip p.r.floating_ip)

abbrev pub moved_row : Pair Machine Machine → Machine
moved_row p = record (p.r) {
  ssh_keys = p.l.ssh_keys;
  status = status_after p.r;
  floating_ip = p.l.floating_ip;
}

abbrev pub stopped_row : Machine → Machine
stopped_row m = record m { status = "stopping" }

abbrev pub any : List Machine → Bool
any [] = false
any (m ∷ ms) = true

row-of :
    (a b c : Bool) (m : Machine)
    → (if same
          (if a
            then "connected"
            else (if b then "reconnecting" else (if not c then "connecting" else "")))
          ""
        then m
        else record m {
          status =
              if a
              then "connected"
              else (if b then "reconnecting" else (if not c then "connecting" else ""));
        })
      ≡ record m {
        status =
            if a
            then "connected"
            else (if b then "reconnecting" else (if c then m.status else "connecting"));
      }
unfolding str_discrete
row-of true b c m = refl
row-of false true c m = refl
row-of false false true m = refl
row-of false false false m = refl

pub refreshed-planned : (p : Pair Machine Machine) → refreshed p ≡ planned_row p
unfolding refreshed connection_status
refreshed-planned p =
    row-of (not (same p.r.public_ip "") && p.r.connected)
      (same p.r.status "connected" || same p.r.status "reconnecting") (same p.r.public_ip "")
      (record (p.r) { ssh_keys = p.l.ssh_keys })

pub needs_ip-wants : (p : Pair Machine Machine) → needs_ip p ≡ wants_ip p
unfolding needs_ip
needs_ip-wants p =
    ap (λ m. not (is_unassigned m.role) && not (same p.l.floating_ip m.floating_ip))
      (refreshed-planned p)

pub with_ip-moved : (p : Pair Machine Machine) → with_ip p ≡ moved_row p
with_ip-moved p =
    ap {A = Machine} (λ m. record m { floating_ip = p.l.floating_ip }) (refreshed-planned p)
