-- ===== src/Daemon/Processes/Stopping.antt =====
-- Which processes `stop` of src/daemon.rs signals.
use cachee_cli.Base.{
  ℕ, Str, Bool, true, false, Option, none, some, List, [], ◌∷◌, ◌++◌, ◌≡◌, ◌⊎◌, refl, inl, inr, All,
  All-append, Bool-cases, Option-cases, parse_u32, trim,
}
use cachee_cli.Daemon.Processes.{
  System, sigterm, Action, signalled, pid_file_removed, process_is_cachee, find_listener_pid,
  process_is_cachee_and_listening, kill_pid, other_listener, stop_listener, stop,
}

module _ (os : System) (st : os.State) (port : ℕ) where
  -- A process called cachee, or, by force, the one that listens on the port.
  abbrev pub Target : Bool → ℕ → Type 0
  Target force pid =
      (process_is_cachee os st pid ≡ true)
      ⊎ ((force ≡ true) × (find_listener_pid os st port ≡ some pid))

  abbrev pub Allowed : Bool → Action → Type 0
  Allowed force (signalled pid signal) = Target force pid × ((signal ≡ sigterm) ⊎ (force ≡ true))
  Allowed force pid_file_removed = Unit

  kill_pid-Allowed :
      (force : Bool) (pid : ℕ) → Target force pid → All (Allowed force) (kill_pid os st pid force).1
  unfolding kill_pid
  kill_pid-Allowed true pid t =
      elim (Bool-cases (os.alive (os.pause (os.kill st pid sigterm)) pid)) [
        | inr gone ↦ rw (kill_pid, gone) ((t, inl refl), tt)
        | inl lives ↦ rw (kill_pid, lives) ((t, inl refl), ((t, inr refl), tt))
      ]
  kill_pid-Allowed false pid t =
      elim (Bool-cases (os.alive (os.pause (os.kill st pid sigterm)) pid)) [
        | inr gone ↦ rw (kill_pid, gone) ((t, inl refl), tt)
        | inl lives ↦ rw (kill_pid, lives) ((t, inl refl), tt)
      ]

  killing-Allowed :
      (force : Bool) (pid : ℕ) (rest : List Action)
      → Target force pid
      → All (Allowed force) rest
      → All (Allowed force) ((kill_pid os st pid force).1 ++ rest)
  killing-Allowed force pid rest t a =
      All-append (Allowed force) (kill_pid os st pid force).1 rest (kill_pid-Allowed force pid t) a

  stop_listener-Allowed : (force : Bool) → All (Allowed force) (stop_listener os st port force).1
  unfolding stop_listener
  stop_listener-Allowed force = elim (Option-cases (find_listener_pid os st port)) [
    | inl nobody ↦ rw (stop_listener, nobody) tt
    | inr (pid, listens) ↦ elim (Bool-cases (process_is_cachee os st pid)) [
      | inl ours ↦ rw (stop_listener, listens, ours) (killing-Allowed force pid [] (inl ours) tt)
      | inr foreign ↦ rw (stop_listener, listens, foreign) (another force pid listens)
    ]
  ]
    where
      another :
          (force : Bool) (pid : ℕ)
          → find_listener_pid os st port ≡ some pid
          → All (Allowed force) (other_listener os st pid force).1
      another true pid listens = killing-Allowed true pid [] (inr (refl, listens)) tt
      another false pid listens = tt

  -- Every signal that `stop` sends goes to a process whose name contains cachee, or, with --force
  -- only, to the one that listens on the configured port; without --force every signal is a SIGTERM.
  -- The names and the port are as the system reports them when `stop` starts.
  pub stop-Allowed :
      (force : Bool) (pid_file : Option Str)
      → All (Allowed force) (stop os st pid_file port force).1
  unfolding stop process_is_cachee_and_listening
  stop-Allowed force none = stop_listener-Allowed force
  stop-Allowed force (some text) = elim (Option-cases (parse_u32 (trim text))) [
    | inl unreadable ↦ rw (stop, unreadable) (stop_listener-Allowed force)
    | inr (pid, read) ↦ elim (Bool-cases (process_is_cachee os st pid)) [
      | inl ours ↦ elim (Bool-cases (process_is_cachee_and_listening os st pid port)) [
        | inl active ↦
            rw (stop, read, active)
              (killing-Allowed force pid (pid_file_removed ∷ []) (inl ours) (tt, tt))
        | inr stale ↦ rw (stop, read, stale) (tt, stop_listener-Allowed force)
      ]
      | inr foreign ↦
          let stale : process_is_cachee_and_listening os st pid port ≡ false =
            not_ours pid foreign in
          rw (stop, read, stale) (tt, stop_listener-Allowed force)
    ]
  ]
    where
      not_ours :
          (pid : ℕ)
          → process_is_cachee os st pid ≡ false
          → process_is_cachee_and_listening os st pid port ≡ false
      not_ours pid foreign = elim (Bool-cases (os.alive st pid)) [
        | inl lives ↦ rw (process_is_cachee_and_listening, lives, foreign) refl
        | inr dead ↦ rw (process_is_cachee_and_listening, dead) refl
      ]
