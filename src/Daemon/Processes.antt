-- ===== src/Daemon/Processes.antt =====
-- `stop` of src/daemon.rs and its helpers. The operating system is a parameter: the programs `ps` and
-- `lsof`, `kill`, and the pauses.
pub mod Stopping
use cachee_cli.Base.{
  ℕ, Bytes, Str, Bool, true, false, not, Option, none, some, List, [], ◌∷◌, ◌++◌, ◌&&◌,
  if◌then◌else◌, ◌==◌, ascii, contains_text, from_utf8_lossy, trim, lines, parse_u32,
}

pub data Signal : Type 0 where
  sigterm sigkill : Signal

-- The state of the system's processes. A process number goes to `kill` as an `i32`.
pub record System : Type 1 where
  pub State : Type 0
  -- `kill(pid, 0) == 0`
  pub alive : State → ℕ → Bool
  -- the output of `ps -p pid -o comm=`, if it runs with success
  pub ps : State → ℕ → Option Bytes
  -- the output of `lsof -nP -iTCP:port -sTCP:LISTEN -t`, if it runs with success
  pub lsof : State → ℕ → Option Bytes
  pub kill : State → ℕ → Signal → State
  -- `sleep`, half a second
  pub pause : State → State

-- What `stop` does to the system.
pub data Action : Type 0 where
  signalled : ℕ → Signal → Action
  pid_file_removed : Action

pub data Stopped : Type 0 where
  stopped found_by_port force_killed refused : ℕ → Stopped
  not_running : Stopped

module _ (os : System) where
  abbrev pub first : List Str → Option Str
  first [] = none
  first (l ∷ ls) = some l

  -- The process's name, if it is not empty.
  unfoldable pub process_name : os.State → ℕ → Option Str
  process_name st pid = elim (os.ps st pid) [
    | none ↦ none
    | some output ↦ elim (trim (from_utf8_lossy output)) [ [] ↦ none | c ∷ name ↦ some (c ∷ name) ]
  ]

  unfoldable pub process_is_cachee : os.State → ℕ → Bool
  unfolding process_name
  process_is_cachee st pid = elim (process_name st pid) [
    | none ↦ false
    | some name ↦ contains_text name (ascii "cachee")
  ]

  unfoldable pub find_listener_pid : os.State → ℕ → Option ℕ
  find_listener_pid st port = elim (os.lsof st port) [
    | none ↦ none
    | some output ↦ elim (first (lines (from_utf8_lossy output))) [
      | none ↦ none
      | some line ↦ parse_u32 line
    ]
  ]

  abbrev is_pid : Option ℕ → ℕ → Bool
  is_pid none pid = false
  is_pid (some n) pid = n == pid

  unfoldable pub process_is_cachee_and_listening : os.State → ℕ → ℕ → Bool
  unfolding process_is_cachee find_listener_pid
  process_is_cachee_and_listening st pid port =
      os.alive st pid && process_is_cachee st pid && is_pid (find_listener_pid st port) pid

  -- SIGTERM, a pause, and SIGKILL if the process still lives and `force` is given.
  unfoldable pub kill_pid : os.State → ℕ → Bool → os.State × List Action
  kill_pid st pid force =
      let waited = os.pause (os.kill st pid sigterm) in
      if os.alive waited pid && force
      then (os.kill waited pid sigkill, signalled pid sigterm ∷ signalled pid sigkill ∷ [])
      else (waited, signalled pid sigterm ∷ [])

  abbrev Outcome : Type 0
  Outcome = os.State × List Action × Stopped

  abbrev after_kill : os.State → ℕ → Bool → List Action → Stopped → Outcome
  after_kill st pid force rest done =
      let out = kill_pid st pid force in (out.0, out.1 ++ rest, done)

  -- A listener that is not called cachee.
  unfoldable pub other_listener : os.State → ℕ → Bool → Outcome
  unfolding kill_pid
  other_listener st pid force =
      if force then after_kill st pid true [] (force_killed pid) else (st, [], refused pid)

  -- Step 2: the process that listens on the port.
  unfoldable pub stop_listener : os.State → ℕ → Bool → Outcome
  unfolding find_listener_pid process_is_cachee kill_pid other_listener
  stop_listener st port force = elim (find_listener_pid st port) [
    | none ↦ (st, [], not_running)
    | some pid ↦
        if process_is_cachee st pid
        then after_kill st pid force [] (found_by_port pid)
        else other_listener st pid force
  ]

  abbrev read_pid : Option Str → Option ℕ
  read_pid none = none
  read_pid (some text) = parse_u32 (trim text)

  abbrev then_removed : Outcome → Outcome
  then_removed (st, actions, done) = (st, pid_file_removed ∷ actions, done)

  -- `pid_file` is the text of cachee.pid, if it can be read.
  unfoldable pub stop : os.State → Option Str → ℕ → Bool → Outcome
  unfolding process_is_cachee_and_listening kill_pid stop_listener
  stop st pid_file port force = elim (read_pid pid_file) [
    | none ↦ stop_listener st port force
    | some pid ↦
        if process_is_cachee_and_listening st pid port
        then after_kill st pid force (pid_file_removed ∷ []) (stopped pid)
        else then_removed (stop_listener st port force)
  ]
