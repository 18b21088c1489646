-- ===== src/Examples/Hosts.antt =====
-- The theorems on stopping the daemon, on the usage flusher and on the doctor.
use cachee_cli.Base.{
  ℕ, true, false, none, some, List, [], ◌∷◌, ◌++◌, ◌≡◌, refl, err, ascii, All, ◌==◌,
}
use cachee_cli.Config
use cachee_cli.Daemon.Processes.{System, stop}
use cachee_cli.Daemon.Processes.Stopping.{Allowed, stop-Allowed}
use cachee_cli.Daemon.Flusher.{
  Ledger, connection_adds, flusher_swaps, flusher_sent, confirmed, timed_out, run_steps, take_step,
  swapped, finished, received, is_success, Step, empty_ledger, Accounted, usage_is_conserved,
}
use cachee_cli.Diagnostics.{Installation, answer, healthy, absent, opened}
use cachee_cli.Diagnostics.Sound.{Sound}
use cachee_cli.Examples.{toy_codecs}
use cachee_cli.Examples.Logs.{toy_env, log_one}

-- The process numbers that live; 7 is the daemon and listens.
abbrev toy_system : System
toy_system = record {
  State = List ℕ;
  alive = λ st pid. true;
  ps = λ st pid. some (ascii "/usr/bin/cachee");
  lsof = λ st port. some (ascii "7" ++ 10 ∷ []);
  kill = λ st pid signal. pid ∷ st;
  pause = λ st. st;
}

stop-Allowed_example :
    All (Allowed toy_system [] 6380 false) (stop toy_system [] (some (ascii "7")) 6380 false).1
stop-Allowed_example = stop-Allowed toy_system [] 6380 false (some (ascii "7"))

abbrev toy_steps : List Step
toy_steps =
    connection_adds
    ∷ connection_adds
    ∷ flusher_swaps
    ∷ connection_adds
    ∷ flusher_sent timed_out
    ∷ flusher_swaps
    ∷ flusher_sent confirmed
    ∷ []

abbrev last_ledger : Ledger
last_ledger = record {
  counter = 0;
  in_flight = none;
  confirmed_ops = 3;
  unconfirmed_ops = 2;
  accepted = 5;
  added = 3;
  taken_back = 0;
}

toy_steps-run : run_steps toy_steps empty_ledger ≡ some last_ledger
unfolding run_steps take_step swapped finished received is_success
toy_steps-run = refl

usage_is_conserved_example : Accounted last_ledger
usage_is_conserved_example = usage_is_conserved toy_steps last_ledger toy_steps-run

abbrev toy_installation : Installation toy_env toy_codecs
toy_installation = record {
  config_exists = true;
  identity_exists = true;
  config = err Config.parse_failed;
  probe = answer (ascii "+PONG");
  pid_file = some (ascii "7");
  alive = λ pid. pid.1 == 7;
  tls_cert = false;
  tls_key = false;
  mldsa_key = true;
  falcon_key = true;
  slhdsa_key = true;
  audit_log = opened log_one.db;
  credentials = none;
  auth1 = healthy;
  content_store = absent;
}
