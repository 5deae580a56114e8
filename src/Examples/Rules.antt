-- ===== src/Examples/Rules.antt =====
-- The rules of the address translation for one container.
use k_elda_archive.Base.{◌≡◌, [], ◌∷◌}
use k_elda_archive.Db.Rows.{Connection, connection}
use k_elda_archive.Network.Nat.{
  notes, ports_to_web, lets_out, ports_to_web-exact, ports_from_web, lets_in, ports_from_web-exact,
}

-- A connection to another container, and not to the public internet.
abbrev inner : Connection
inner = record (connection.zero_row 7) {
  from = "web" ∷ [];
  to = "cache" ∷ [];
  min_port = 6379;
  max_port = 6379;
}

abbrev outer : Connection
outer = record (connection.zero_row 8) {
  from = "public" ∷ [];
  to = "web" ∷ [];
  min_port = 80;
  max_port = 80;
}

ports_to_web-exact_example :
    notes "web" 6379 (ports_to_web (inner ∷ outer ∷ []) [])
    ≡ lets_out "web" 6379 (inner ∷ outer ∷ [])
ports_to_web-exact_example = ports_to_web-exact "web" 6379 (inner ∷ outer ∷ [])

ports_from_web-exact_example :
    notes "web" 80 (ports_from_web (inner ∷ outer ∷ []) []) ≡ lets_in "web" 80 (inner ∷ outer ∷ [])
ports_from_web-exact_example = ports_from_web-exact "web" 80 (inner ∷ outer ∷ [])
