-- ===== src/Engine/Update.antt =====
-- The images of minion/engine.go, and `updatePolicy`, which runs all updates on the leader.
use k_elda_archive.Base.{
  ℕ, String, true, false, ◌||◌, List, [], ◌∷◌, ite, if◌then◌else◌, Outcome, ok, err, panic, ◌>>=◌,
  MapRange, has, insert_key, str_discrete,
}
use k_elda_archive.Blueprint
use k_elda_archive.Blueprint.{Blueprint, Image-discrete}
use k_elda_archive.Db.{Database}
use k_elda_archive.Db.Slots
use k_elda_archive.Db.Queries.{every, etcd_leader, get_blueprint, select_from_image}
use k_elda_archive.Db.Rows.{Container, LoadBalancer, Placement, Image, BlueprintRow}
use k_elda_archive.Engine.Loops.{remove_each, add_each}
use k_elda_archive.Engine.Policy.{update_placements, update_load_balancers}
use k_elda_archive.Engine.Services.{update_connections, update_containers}
use k_elda_archive.Join.Hash.{hash_join}

-- The loop of `queryImages`; `added` is its set of images.
unfoldable pub images_of : List Blueprint.Container → List Blueprint.Image → List Blueprint.Image
unfolding has insert_key str_discrete Image-discrete
images_of [] added = []
images_of (c ∷ cs) added =
    let skipped = images_of cs added in
    let taken = c.image ∷ images_of cs (insert_key Image-discrete c.image added) in
    if ite (str_discrete c.image.dockerfile "") true false || has Image-discrete c.image added
    then skipped
    else taken

unfoldable pub query_images : Blueprint → List Blueprint.Image
unfolding images_of
query_images bp = images_of bp.containers []

unfoldable pub db_image_key : Image → Blueprint.Image
db_image_key i = record { name = i.name; dockerfile = i.dockerfile }

-- The row of an image of the blueprint.
unfoldable pub image_row : Blueprint.Image → Image → Image
image_row i im = record im { name = i.name; dockerfile = i.dockerfile }

unfoldable pub update_images :
    MapRange (Blueprint.Image × Blueprint.Image) → Blueprint → Database → Outcome Database
unfolding query_images db_image_key image_row hash_join add_each remove_each
update_images order bp db =
    let joined =
      hash_join Image-discrete order (λ i. i) db_image_key (query_images bp)
        (select_from_image every db) in
    do
      db' ← add_each Slots.images image_row joined.lonely_lefts db
      ok (remove_each Slots.images joined.lonely_rights db')

-- The orders of the maps that one run of `updatePolicy` ranges over.
pub record Orders : Type 0 where
  pub images : MapRange (Blueprint.Image × Blueprint.Image)
  pub queried : MapRange (String × Container)
  pub containers : MapRange (String × Container)
  pub load_balancers : MapRange (String × LoadBalancer)
  pub connections : MapRange (String × Blueprint.Connection)
  pub ports : MapRange (ℕ × List String)
  pub placements : MapRange (Placement × Placement)

unfoldable pub update_all : Orders → Blueprint → Database → Outcome Database
unfolding update_images update_containers update_load_balancers update_connections update_placements
update_all o bp db = do
  db₁ ← update_images o.images bp db
  db₂ ← update_containers o.queried o.containers bp db₁
  db₃ ← update_load_balancers o.load_balancers bp db₂
  db₄ ← update_connections o.connections bp db₃
  update_placements o.ports o.placements bp db₄

-- By what the blueprint table gives: without a blueprint nothing is done.
unfoldable pub update_with : Orders → Outcome BlueprintRow → Database → Outcome Database
unfolding update_all
update_with o (ok row) db = update_all o row.blueprint db
update_with o (err e) db = ok db
update_with o panic db = panic

unfoldable pub update_policy : Orders → Database → Outcome Database
unfolding update_with etcd_leader get_blueprint
update_policy o db = if etcd_leader db then update_with o (get_blueprint db) db else ok db
