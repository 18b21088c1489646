-- ===== src/Examples/Clients.antt =====
-- The theorems on the command line's client and on what it reads of the daemon.
use cachee_cli.Base.{◌≤◌, none, [], ◌∷◌, false, ◌≡◌, ◌⊎◌, refl, arith, ascii, length, join}
use cachee_cli.Client.{ok_line, nil, payload, set_request}
use cachee_cli.Client.Session.{client_set, client_get, client_get-client_set}
use cachee_cli.Daemon.Connection.{Server}
use cachee_cli.Daemon.Protocol
use cachee_cli.Daemon.Printing.{Statistics, Printer, print_reply}
use cachee_cli.PlanCommands.{usage_counts}
use cachee_cli.PlanCommands.Usage.{usage_counts-statistics}
use cachee_cli.Examples.Readers.{toy_engine_laws}
use cachee_cli.Examples.Server.{toy_world, toy_settings, toy_clock, empty_shared, k-PlainWord}

abbrev toy_statistics : Statistics
toy_statistics = record {
  total_ops = 12;
  hit_rate = ascii "0.7500";
  hits_l0 = 6;
  hits_l1 = 3;
  misses = 3;
  key_count = 4;
  memory_bytes = 4096;
  last_reload = 1700000000;
  last_flush = 1700000015;
}

abbrev toy_printer : Printer
toy_printer = record {
  response_json = λ r. ascii "{}";
  history_json = λ es. ascii "[]";
  debug_state = λ s. ascii "Active";
  log_error = λ e. ascii "audit write";
  hex_encode = λ b. b;
  statistics = toy_statistics;
}

short_request : length (set_request (ascii "k") (ascii "k") none) ≤ 4096
unfolding set_request join
short_request = omega arith

-- A daemon with a limited key, which a connection that needs none does not touch.
abbrev limited_server : Server toy_world
limited_server = record { shared = empty_shared; registry = []; counters = (ascii "k1", 5) ∷ [] }

client_get-client_set_example :
    (let out =
        client_set toy_world toy_settings toy_printer false toy_clock
          (ascii "k")
          (ascii "k")
          none
          limited_server in
      (out.1 ≡ ok_line)
      × (((client_get toy_world toy_settings toy_printer false toy_clock (ascii "k") out.0).1 ≡ nil)
          ⊎ ((client_get toy_world toy_settings toy_printer false toy_clock (ascii "k") out.0).1
              ≡ payload (ascii "k"))))
client_get-client_set_example =
    client_get-client_set toy_world toy_settings toy_printer toy_engine_laws toy_clock toy_clock
      (ascii "k") (ascii "k") limited_server refl refl k-PlainWord k-PlainWord short_request

usage_counts-statistics_example :
    usage_counts (print_reply toy_printer (Protocol.statistics (ascii "0.2") 4 2)) ≡ (12, 0, 0)
usage_counts-statistics_example =
    usage_counts-statistics toy_printer (ascii "0.2") 4 2 (refl, (refl, (refl, tt)))
      (refl, (refl, (refl, (refl, (refl, (refl, tt)))))) (omega arith)
