-- ===== src/Daemon/Commands.antt =====
-- `handle_resp` of src/daemon.rs: one command on the shared state.
pub mod Kept
pub mod Changes
pub mod Entries
pub mod Unverified
pub mod Effects
pub mod Coherence
pub mod Staying
pub mod Covered
pub mod Races
pub mod Overlaps
use cachee_cli.Base.{Bytes, Str, Option, some, List, [], ◌∷◌}
use cachee_cli.Daemon.World.{World, Settings, Clock, Shared}
use cachee_cli.Daemon.Protocol
use cachee_cli.Daemon.Protocol.{Command, Reply, pong, failure, command_of, words_of}
use cachee_cli.Daemon.Reads.{
  handle_get, handle_get_verified, handle_state, handle_info, handle_audit_log, handle_audit_verify,
  handle_audit_anchor,
}
use cachee_cli.Daemon.Writes.{handle_set, handle_del, handle_invalidate, handle_supersede}

module _ (w : World) (settings : Settings) (clock : Clock) where
  abbrev replied : Shared w × Reply → Shared w × Option Reply
  replied (s, r) = (s, some r)

  -- A `none` reply is a panic of the connection's task.
  -- The whole of a command as one step: in the source each of its locks is released before the next is
  -- taken, as Daemon/Commands/Races has it for SET and DEL.
  unfoldable pub dispatch : Command → Shared w → Shared w × Option Reply
  dispatch Protocol.empty_input s = (s, some (failure Protocol.empty_command))
  dispatch Protocol.unknown_command s = (s, some (failure Protocol.unknown))
  dispatch Protocol.ping s = (s, some pong)
  dispatch (Protocol.set parts) s = handle_set w settings clock parts s
  dispatch (Protocol.get key) s = replied (handle_get w settings clock key s)
  dispatch (Protocol.get_verified key) s = replied (handle_get_verified w settings clock key s)
  dispatch (Protocol.del key) s = replied (handle_del w settings clock key s)
  dispatch (Protocol.invalidate key reason) s =
      replied (handle_invalidate w settings clock key reason s)
  dispatch (Protocol.supersede old_key new_key) s =
      replied (handle_supersede w settings clock old_key new_key s)
  dispatch (Protocol.state key) s = replied (handle_state w settings clock key s)
  dispatch Protocol.info s = replied (handle_info w settings clock s)
  dispatch (Protocol.audit_log key) s = replied (handle_audit_log w settings clock key s)
  dispatch Protocol.audit_verify s = replied (handle_audit_verify w settings clock s)
  dispatch Protocol.audit_anchor s = replied (handle_audit_anchor w settings clock s)

  unfoldable pub handle_resp : Bytes → Shared w → Shared w × Option Reply
  unfolding dispatch
  handle_resp input s = dispatch (command_of (words_of input)) s

-- The commands of all connections, in the order in which they take the locks. A panic ends its
-- connection and leaves the state to the others.
unfoldable pub run_commands : (w : World) → Settings → List (Clock × Command) → Shared w → Shared w
run_commands w settings [] s = s
run_commands w settings ((clock, cmd) ∷ cmds) s =
    run_commands w settings cmds (dispatch w settings clock cmd s).0
