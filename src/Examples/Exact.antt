-- ===== src/Examples/Exact.antt =====
-- The rows that `updatePolicy` leaves for the small policy, seen through what the blueprint decides.
use k_elda_archive.Base.{
  refl, [], ◌∷◌, in_order, map, Nodup, Nodup-of_Distinct, Perm, str_discrete, has, values,
}
use k_elda_archive.Db.Slots
use k_elda_archive.Engine.Effects.{Leaves}
use k_elda_archive.Engine.Exact.{
  specified, balancer_row, balancer_asked, update_containers-exact, update_load_balancers-exact,
}
use k_elda_archive.Blueprint.{Image-discrete}
use k_elda_archive.Engine.Images.{builds, update_images-exact}
use k_elda_archive.Engine.Policy.{update_load_balancers}
use k_elda_archive.Engine.Sync.{IsJust}
use k_elda_archive.Engine.Update.{update_images}
use k_elda_archive.Engine.Services.{query_containers, update_containers}
use k_elda_archive.Examples.Data.{policy, leading}
use k_elda_archive.Examples.Policy.{leading-containers}

policy-distinct : Nodup (map (λ c. c.blueprint_id) (query_containers in_order policy))
unfolding query_containers has
policy-distinct = Nodup-of_Distinct str_discrete ("c1" ∷ []) (refl, tt)

balancers-distinct : Nodup (map (λ lb. lb.name) policy.load_balancers)
unfolding has
balancers-distinct = Nodup-of_Distinct str_discrete ("lb" ∷ []) (refl, tt)

update_containers-exact_example :
    Leaves Slots.containers leading
      (λ t. Perm (map specified (values t.rows)) (map specified (query_containers in_order policy)))
      (update_containers in_order in_order policy leading)
update_containers-exact_example =
    update_containers-exact in_order in_order policy leading leading-containers policy-distinct

update_load_balancers-exact_example :
    Leaves Slots.load_balancers leading
      (λ t. Perm (map balancer_row (values t.rows)) (map balancer_asked policy.load_balancers))
      (update_load_balancers in_order policy leading)
update_load_balancers-exact_example =
    update_load_balancers-exact in_order policy leading (record { owned = tt; distinct = tt })
      balancers-distinct

update_images-exact_example :
    Leaves Slots.images leading
      (IsJust Image-discrete
        (λ r. record { name = r.name; dockerfile = r.dockerfile })
        (builds policy))
      (update_images in_order policy leading)
update_images-exact_example =
    update_images-exact in_order policy leading (record { owned = tt; distinct = tt })
