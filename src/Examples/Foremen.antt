-- ===== src/Examples/Foremen.antt =====
-- A foreman with one machine that is up, and a thread of a machine that is gone.
use mathlib.Core.List.Perm
use k_elda_archive.Base.{
  ◌≡◌, refl, [], ◌∷◌, String, true, false, none, some, ok, arith, has, ℕ_discrete, str_discrete,
  in_order, keep, values, pos, inl,
}
use k_elda_archive.Blueprint.{Blueprint, no_blueprint}
use k_elda_archive.Db.{Database, new}
use k_elda_archive.Db.Queries.{get_blueprint}
use k_elda_archive.Db.Rows.{Machine, machine, worker}
use k_elda_archive.Db.Slots
use k_elda_archive.Db.Tables.{new_table}
use k_elda_archive.Engine.Effects.{Sound, Leaves}
use k_elda_archive.Foreman.Config.{MinionConfig, pb_to_role}
use k_elda_archive.Foreman.Connected.{round-connected, lost, round-lost}
use k_elda_archive.Foreman.Rounds.{up, answer, run_once-answer}
use k_elda_archive.Foreman.Run.{Minions, is_up, blueprint_of, run_once, round}
use k_elda_archive.Foreman.Status.{has_id, Beside}
use k_elda_archive.Foreman.ThreadLaws.{IsOpen}
use k_elda_archive.Foreman.Threads.{Threads, update_minions}
use k_elda_archive.Foreman.Tracking.{IsTracking, update_minions-IsTracking}

abbrev pub booted : Machine
booted = record (machine.zero_row 1) {
  cloud_id = "b";
  public_ip = "8.8.8.8";
  private_ip = "10.0.0.1";
  role = worker;
}

abbrev of_another : Threads
of_another = record { chans = ("a", 0) ∷ []; made = 1; started = ("a", 0) ∷ []; closed = [] }

of_another-IsOpen : IsOpen of_another
unfolding has keep ℕ_discrete str_discrete
of_another-IsOpen = record {
  ids = (refl, tt);
  channels = (refl, tt);
  made_started = (omega arith, tt);
  made_closed = tt;
  open_threads = Perm.rfl;
}

update_minions-IsTracking_example :
    IsTracking (booted ∷ []) of_another (update_minions in_order (booted ∷ []) of_another)
update_minions-IsTracking_example =
    update_minions-IsTracking in_order (booted ∷ []) of_another of_another-IsOpen

abbrev pub controlling : Database
controlling = record new { cur_id = 1; machines = record new_table { rows = (1, booted) ∷ [] } }

controlling-Sound : Sound Slots.machines controlling
unfolding has ℕ_discrete
controlling-Sound = record { owned = ((refl, omega arith), tt); distinct = (refl, tt) }

abbrev says : MinionConfig
says = record {
  id = "";
  role = pos 1;
  private_ip = "";
  blueprint = "";
  provider = "";
  size = "";
  region = "";
  floating_ip = "";
  etcd_members = [];
  authorized_keys = [];
}

abbrev answering : Minions
answering = record { connects = λ ip. true; config = λ ip. some says }

abbrev silent : Minions
silent = record { connects = λ ip. false; config = λ ip. none }

abbrev to_text : Blueprint → String
to_text bp = "{}"

no_row : blueprint_of (get_blueprint controlling) ≡ ok no_blueprint
unfolding get_blueprint
no_row = refl

one_row : keep (has_id "b") (values controlling.machines.rows) ≡ booted ∷ []
unfolding keep str_discrete
one_row = refl

booted-up : is_up booted ≡ true
unfolding is_up str_discrete
booted-up = refl

run_once-answer_example :
    run_once to_text (λ a b. false) answering false controlling "b"
    ≡ ok (answer to_text (λ a b. false) answering false (up controlling) booted "{}" says)
run_once-answer_example =
    run_once-answer to_text (λ a b. false) answering false controlling "b" no_blueprint booted says
      no_row one_row booted-up refl refl

one-worker : pb_to_role (pos 1) ≡ ok worker
unfolding pb_to_role
one-worker = refl

round-connected_example :
    Leaves Slots.machines controlling
      (Beside "b" controlling
        (record booted { role = worker; connected = true; status = "connected" } ∷ []))
      (round to_text (λ a b. false) answering false controlling "b")
round-connected_example =
    round-connected to_text (λ a b. false) answering false controlling "b" no_blueprint booted says
      worker no_row one_row booted-up refl refl one-worker controlling-Sound

round-lost_example :
    Leaves Slots.machines controlling
      (Beside "b" controlling (lost booted ∷ []))
      (round to_text (λ a b. false) silent false controlling "b")
round-lost_example =
    round-lost to_text (λ a b. false) silent false controlling "b" no_blueprint booted no_row
      one_row booted-up (inl refl) controlling-Sound
