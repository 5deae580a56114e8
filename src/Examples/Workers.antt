-- ===== src/Examples/Workers.antt =====
-- A leader with one placed container, and a worker with a container that is gone.
use mathlib.Core.List.Perm
use k_elda_archive.Base.{
  ◌≡◌, refl, sym, ap, [], ◌∷◌, List, true, false, none, ok, arith, has, ℕ_discrete, in_order, keep,
  values, ite, map, Nodup, Nodup-of_Distinct,
}
use k_elda_archive.Db.{Database, new}
use k_elda_archive.Db.Queries.{etcd_leader, minion_self}
use k_elda_archive.Db.Rows.{Container, Container-discrete, Minion, minion, worker}
use k_elda_archive.Db.Slots
use k_elda_archive.Db.Tables.{new_table}
use k_elda_archive.Engine.Effects.{Sound}
use k_elda_archive.Etcd.Containers.{
  Formats, ContainerKey-discrete, container_key, is_placed, run_container_once,
}
use k_elda_archive.Etcd.Follow.{stored}
use k_elda_archive.Etcd.Placed.{shared}
use k_elda_archive.Etcd.Store.{missing, read_etcd_node, Codec, Written, printed, unprinted}
use k_elda_archive.Etcd.Workers.{placed, ContainersRoundTrip, Takes, follower-Takes}
use k_elda_archive.Examples.Data.{leading, running, leaving}

abbrev placed_web : Container
placed_web = record running { minion = "10.0.0.1" }

abbrev placing : Database
placing = record leading { containers = record new_table { rows = (3, placed_web) ∷ [] } }

abbrev worker_row : Minion
worker_row = record (minion.zero_row 1) { self = true; role = worker; private_ip = "10.0.0.1" }

abbrev working : Database
working = record new {
  cur_id = 4;
  minions = record new_table { rows = (1, worker_row) ∷ [] };
  containers = record new_table { rows = (4, leaving) ∷ [] };
}

unfoldable Containers-discrete : Discrete (List Container)
unfolding Container-discrete
Containers-discrete = hlevel Container-discrete

-- A codec that knows one slice.
abbrev web_codec : Codec Container
web_codec = record {
  sort = λ rows. rows;
  encode =
      λ rows. ite (Containers-discrete rows (placed_web ∷ [])) (printed "c1") (unprinted "other");
  decode = λ text. placed_web ∷ [];
}

web_codec-ContainersRoundTrip : ContainersRoundTrip web_codec
web_codec-ContainersRoundTrip = record {
  sort-perm = λ rows. Perm.rfl;
  decode-encode = λ rows text h. elim (Containers-discrete rows (placed_web ∷ [])) [
    | yes p ↦ ap (map shared) (sym p)
    | no n ↦ absurd (ground (arith, h, n))
  ];
}

abbrev formats : Formats
formats = record { order = in_order; sort = λ ss. ss; show_value = λ v. ""; show_mounts = λ ms. "" }

nothing_there : read_etcd_node missing ≡ ok ""
unfolding read_etcd_node
nothing_there = refl

placing-leader : etcd_leader placing ≡ true
unfolding etcd_leader
placing-leader = refl

placing-text : web_codec.encode (web_codec.sort (placed placing)) ≡ printed "c1"
unfolding Containers-discrete keep is_placed
placing-text = refl

working-follower : etcd_leader working ≡ false
unfolding etcd_leader
working-follower = refl

working_self : minion_self working ≡ ok worker_row
unfolding minion_self
working_self = refl

working-distinct : Nodup (map (container_key formats) (values working.containers.rows))
unfolding has
working-distinct =
    Nodup-of_Distinct ContainerKey-discrete
      (map (container_key formats) (values working.containers.rows)) (refl, tt)

working-Sound : Sound Slots.containers working
unfolding has ℕ_discrete
working-Sound = record { owned = ((refl, omega arith), tt); distinct = (refl, tt) }

follower-Takes_example :
    (w : Written) × (run_container_once formats in_order web_codec none missing placing
      ≡ ok (w, placing))
    × Takes placing worker_row
        (run_container_once formats in_order web_codec none (stored missing w.sent) working)
follower-Takes_example =
    follower-Takes formats web_codec in_order in_order missing "" "c1" placing working worker_row
      web_codec-ContainersRoundTrip nothing_there placing-leader placing-text working-follower
      working_self working-distinct working-Sound
