-- ===== src/Engine/Images.antt =====
-- minion/engine.go: the table of images, and the images that the blueprint has built.
use k_elda_archive.Base.{
  Bool, true, false, not, ◌&&◌, ◌||◌, ite, arith, has, insert_key, Bool-cases, inl, inr, ◌≡◌, refl,
  ap, ◌∙◌, List, [], ◌∷◌, map, MapRange,
}
use k_elda_archive.Blueprint
use k_elda_archive.Blueprint.{Blueprint, Image-discrete}
use k_elda_archive.Cloud.Machines.{same}
use k_elda_archive.Db.{Database}
use k_elda_archive.Db.Slots
use k_elda_archive.Db.Slots.{Slot}
use k_elda_archive.Engine.Effects.{Leaves, Leaves-map, Sound}
use k_elda_archive.Engine.Sync.{IsJust, IsSynced-IsJust}
use k_elda_archive.Engine.Tables.{update_images-synced}
use k_elda_archive.Engine.Update.{images_of, query_images, db_image_key, update_images}

-- Some container has the image.
abbrev uses_image : Blueprint.Image → List Blueprint.Container → Bool
uses_image i [] = false
uses_image i (c ∷ cs) = ite (Image-discrete i c.image) true false || uses_image i cs

-- Some container has the image, and it has a Dockerfile.
abbrev pub builds : Blueprint → Blueprint.Image → Bool
builds bp i = not (same i.dockerfile "") && uses_image i bp.containers

skips :
    (d e u h : Bool)
    → (e ≡ true → (d || h) ≡ true)
    → ((not d && u) && not h) ≡ ((not d && (e || u)) && not h)
skips true e u h f = refl
skips false true u true f = ground arith
skips false true u false f = ground (arith, f refl)
skips false false u h f = refl

takes :
    (d e u h : Bool)
    → (e ≡ true → (d || h) ≡ false)
    → (e || ((not d && u) && not (e || h))) ≡ ((not d && (e || u)) && not h)
takes true true u h f = ground (arith, f refl)
takes true false u h f = refl
takes false true u true f = ground (arith, f refl)
takes false true u false f = refl
takes false false u h f = refl

has-insert :
    (i x : Blueprint.Image) (added : List Blueprint.Image)
    → has Image-discrete x added ≡ false
    → has Image-discrete i (insert_key Image-discrete x added)
      ≡ (ite (Image-discrete i x) true false || has Image-discrete i added)
unfolding has insert_key
has-insert i x added h = rw h (ground arith)

same_image : (i x : Blueprint.Image) → ite (Image-discrete i x) true false ≡ true → i ≡ x
same_image i x h = ground arith

images_of-skip :
    (c : Blueprint.Container) (cs : List Blueprint.Container) (added : List Blueprint.Image)
    → (same c.image.dockerfile "" || has Image-discrete c.image added) ≡ true
    → images_of (c ∷ cs) added ≡ images_of cs added
unfolding images_of
images_of-skip c cs added h = rw h refl

images_of-take :
    (c : Blueprint.Container) (cs : List Blueprint.Container) (added : List Blueprint.Image)
    → (same c.image.dockerfile "" || has Image-discrete c.image added) ≡ false
    → images_of (c ∷ cs) added ≡ c.image ∷ images_of cs (insert_key Image-discrete c.image added)
unfolding images_of
images_of-take c cs added h = rw h refl

has_cons :
    (i x : Blueprint.Image) (xs : List Blueprint.Image)
    → has Image-discrete i (x ∷ xs)
      ≡ (ite (Image-discrete i x) true false || has Image-discrete i xs)
unfolding has
has_cons i x xs = ground arith

images_of-nil : (added : List Blueprint.Image) → images_of [] added ≡ []
unfolding images_of
images_of-nil added = refl

no_uses : (d h : Bool) (i : Blueprint.Image) → has Image-discrete i [] ≡ ((not d && false) && not h)
unfolding has
no_uses true h i = refl
no_uses false h i = refl

-- The images that are not yet added, each with a Dockerfile.
images_of-uses :
    (i : Blueprint.Image) (cs : List Blueprint.Container) (added : List Blueprint.Image)
    → has Image-discrete i (images_of cs added)
      ≡ ((not (same i.dockerfile "") && uses_image i cs) && not (has Image-discrete i added))
images_of-uses i [] added =
    ap (has Image-discrete i) (images_of-nil added) ∙ no_uses (same i.dockerfile "") _ i
images_of-uses i (c ∷ cs) added =
    let old : Blueprint.Image → Bool = λ x. same x.dockerfile "" || has Image-discrete x added in
    let here : ite (Image-discrete i c.image) true false ≡ true → old i ≡ old c.image =
      λ h. ap old (same_image i c.image h) in
    elim (Bool-cases (old c.image)) [
      | inl e ↦
          ap (has Image-discrete i) (images_of-skip c cs added e)
          ∙ images_of-uses i cs added
          ∙ skips _ _ _ _ (λ h. here h ∙ e)
      | inr e ↦
          ap (has Image-discrete i) (images_of-take c cs added e)
          ∙ has_cons i c.image _
          ∙ ap (λ b. ite (Image-discrete i c.image) true false || b)
              (images_of-uses i cs (insert_key Image-discrete c.image added)
                ∙ ap (λ b. (not (same i.dockerfile "") && uses_image i cs) && not b)
                    (has-insert i c.image added (or_no _ _ e)))
          ∙ takes _ _ _ _ (λ h. here h ∙ e)
    ]
  where
    or_no : (a b : Bool) → (a || b) ≡ false → b ≡ false
    or_no a b h = ground (arith, h)

map_same : (is : List Blueprint.Image) → map (λ j. j) is ≡ is
map_same [] = refl
map_same (i ∷ is) = ap (◌∷◌ i) (map_same is)

query_images-builds :
    (bp : Blueprint) (i : Blueprint.Image)
    → has Image-discrete i (map (λ j. j) (query_images bp)) ≡ builds bp i
unfolding query_images has
query_images-builds bp i =
    ap (has Image-discrete i) (map_same (query_images bp))
    ∙ images_of-uses i bp.containers []
    ∙ and_true (builds bp i)
  where
    and_true : (b : Bool) → (b && true) ≡ b
    and_true b = ground arith

-- On a sound table `updateImages` succeeds, changes no other table, and leaves one row for each
-- distinct image of a container of the blueprint whose Dockerfile is not empty, and no other row.
pub update_images-exact :
    (order : MapRange (Blueprint.Image × Blueprint.Image)) (bp : Blueprint) (db : Database)
    → Sound Slots.images db
    → Leaves Slots.images db
        (IsJust Image-discrete
          (λ r. record { name = r.name; dockerfile = r.dockerfile })
          (builds bp))
        (update_images order bp db)
unfolding db_image_key
update_images-exact order bp db v =
    Leaves-map Slots.images _ _ db _
      (λ t. IsSynced-IsJust Image-discrete db_image_key _ (builds bp) t (query_images-builds bp))
      (update_images-synced order bp db v)
