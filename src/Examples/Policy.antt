-- ===== src/Examples/Policy.antt =====
-- `updatePolicy` on the small policy.
use k_elda_archive.Base.{
  ◌≡◌, refl, [], ◌∷◌, true, false, ok, arith, in_order, map, Nodup, Nodup-of_Distinct, str_discrete,
  has, ℕ_discrete,
}
use k_elda_archive.Db.Access.{select_from}
use k_elda_archive.Db.Queries.{etcd_leader, get_blueprint, every, select_from_container}
use k_elda_archive.Db.Slots
use k_elda_archive.Engine.Effects.{Sound, Leaves}
use k_elda_archive.Engine.Kept.{KeepsAll, update_containers-KeepsAll}
use k_elda_archive.Engine.Services.{query_containers, update_containers}
use k_elda_archive.Engine.Update.{update_policy}
use k_elda_archive.Engine.Whole.{IsSoundPolicy, Succeeds, update_policy-Succeeds}
use k_elda_archive.Examples.Data.{orders, policy, policy_row, leading, following}

pub leading-leader : etcd_leader leading ≡ true
unfolding etcd_leader
leading-leader = refl

leading-blueprint : get_blueprint leading ≡ ok policy_row
unfolding get_blueprint
leading-blueprint = refl

pub leading-containers : Sound Slots.containers leading
unfolding has ℕ_discrete
leading-containers = record {
  owned = ((refl, omega arith), ((refl, omega arith), tt));
  distinct = (refl, (refl, tt));
}

pub leading-IsSoundPolicy : IsSoundPolicy leading
leading-IsSoundPolicy = record {
  images = record { owned = tt; distinct = tt };
  containers = leading-containers;
  load_balancers = record { owned = tt; distinct = tt };
  connections = record { owned = tt; distinct = tt };
  placements = record { owned = tt; distinct = tt };
}

update_policy-Succeeds_example : Succeeds orders policy leading (update_policy orders leading)
update_policy-Succeeds_example =
    update_policy-Succeeds orders policy_row leading leading-leader leading-blueprint
      leading-IsSoundPolicy

pub following-follower : etcd_leader following ≡ false
unfolding etcd_leader
following-follower = refl

leading-distinct : Nodup (map (λ c. c.blueprint_id) (select_from_container every leading))
unfolding select_from has str_discrete
leading-distinct = Nodup-of_Distinct str_discrete ("c1" ∷ "c2" ∷ []) (refl, (refl, tt))

update_containers-KeepsAll_example :
    Leaves Slots.containers leading
      (KeepsAll
        (select_from_container every leading)
        (map (λ c. c.blueprint_id) (query_containers in_order policy)))
      (update_containers in_order in_order policy leading)
update_containers-KeepsAll_example =
    update_containers-KeepsAll in_order in_order policy leading leading-containers leading-distinct
