-- ===== src/Examples/Ports.antt =====
-- Two containers that listen on one public port.
use mathlib.Core.List.{mem-cons_self}
use k_elda_archive.Base.{List, [], ◌∷◌, Mem, in_order, str_discrete, ℕ_discrete}
use k_elda_archive.Db.Rows.{Connection, connection}
use k_elda_archive.Engine.Policy.{exclusive_rule, port_placements}
use k_elda_archive.Engine.Ports.{mirrored, port_placements-mirrored}

abbrev two_listeners : List Connection
two_listeners =
    record (connection.zero_row 1) {
      from = "public" ∷ [];
      to = "a" ∷ "b" ∷ [];
      min_port = 80;
      max_port = 80;
    }
    ∷ []

listeners-rule : Mem (exclusive_rule "a" "b") (port_placements in_order two_listeners)
unfolding port_placements str_discrete ℕ_discrete
listeners-rule = mem-cons_self

port_placements-mirrored_example :
    Mem (mirrored (exclusive_rule "a" "b")) (port_placements in_order two_listeners)
port_placements-mirrored_example =
    port_placements-mirrored in_order two_listeners (exclusive_rule "a" "b") listeners-rule
