-- ===== src/Foreman/Threads.antt =====
-- cloud/foreman/foreman.go: `updateMinions`, which starts and stops the threads of the machines.
use k_elda_archive.Base.{
  ℕ, suc, String, List, [], ◌∷◌, Option, none, some, if◌then◌else◌, get, put, delete, keys, has,
  insert_key, str_discrete, ℕ_discrete, Outcome, ok, panic, ◌>>=◌, MapRange,
}
use k_elda_archive.Db.Rows.{Machine}

-- `minionChans`, from a cloud ID to the number of its stop channel; and, of the channels, how many
-- were made, which of them a thread was started with, and which are closed.
pub record Threads : Type 0 where
  pub chans : List (String × ℕ)
  pub made : ℕ
  pub started : List (String × ℕ)
  pub closed : List ℕ

-- A machine without an entry gets one, and its thread is started.
abbrev pub start_thread : String → Threads → Threads
start_thread id th = record {
  chans = put str_discrete id th.made th.chans;
  made = suc th.made;
  started = (id, th.made) ∷ th.started;
  closed = th.closed;
}

-- The loop over the machines, with `seen`.
unfoldable pub start_missing : List Machine → List String × Threads → List String × Threads
unfolding put has insert_key str_discrete
start_missing [] s = s
start_missing (m ∷ ms) (seen, th) = start_missing ms (
  insert_key str_discrete m.cloud_id seen,
  if has str_discrete m.cloud_id (keys th.chans) then th else start_thread m.cloud_id th,
)

-- `close` and `delete`; to close a channel that is not there, or is closed, is a panic.
abbrev pub close_chan : String → Option ℕ → Threads → Outcome Threads
close_chan id none th = panic
close_chan id (some ch) th =
    if has ℕ_discrete ch th.closed
    then panic
    else ok (record th { chans = delete str_discrete id th.chans; closed = ch ∷ th.closed })

-- The loop over the map.
unfoldable pub stop_unseen : List String → List String → Threads → Outcome Threads
unfolding has get delete str_discrete ℕ_discrete
stop_unseen seen [] th = ok th
stop_unseen seen (id ∷ ids) th = do
  th' ← if has str_discrete id seen then ok th else close_chan id (get str_discrete id th.chans) th
  stop_unseen seen ids th'

-- `updateMinions`, by the order in which the map is ranged over.
unfoldable pub update_minions : MapRange String → List Machine → Threads → Outcome Threads
unfolding start_missing stop_unseen
update_minions order machines th =
    let s = start_missing machines ([], th) in stop_unseen s.0 (order.range (keys s.1.chans)) s.1
