-- ===== src/Daemon/Commands/Races.antt =====
-- A SET and a DEL of one key that come between each other in src/daemon.rs: each takes the locks of
-- the registry and calls the engine in steps.
use cachee_cli.Base.{
  Bytes, Str, none, ◌≡◌, refl, find_key, put_key, remove_key, find_key-remove_key,
}
use cachee_cli.Archive.Types.{ComputationFingerprint}
use cachee_cli.Daemon.World.{World, Settings, Clock, Shared}
use cachee_cli.Daemon.Commands.Changes.{made}

module _ (w : World) (settings : Settings) where
  -- The first and the third step of a SET; the second stores the bundle, the last writes the log.
  unfoldable pub set_register : Clock → Str → Bytes → ComputationFingerprint → Shared w → Shared w
  set_register clock key value fp s = record s {
    slots = put_key key (made w settings clock value fp) s.slots;
  }

  unfoldable pub set_into_engine : Str → Bytes → Shared w → Shared w
  set_into_engine key value s = record s { engine = w.engine.set s.engine key value }

  -- The first two steps of a DEL; the last writes the log.
  unfoldable pub del_from_engine : Str → Shared w → Shared w
  del_from_engine key s = record s { engine = (w.engine.delete s.engine key).0 }

  unfoldable pub del_slot : Str → Shared w → Shared w
  del_slot key s = record s { slots = remove_key key s.slots }

  -- If the first two steps of a DEL come between the first and the third step of a SET of the key,
  -- then the engine is left with the value, and the registry without a slot.
  pub set-del-uncovered :
      (clock : Clock) (key : Str) (value : Bytes) (fp : ComputationFingerprint) (s : Shared w)
      → (let t =
            set_into_engine key value
              (del_slot key (del_from_engine key (set_register clock key value fp s))) in
          (t.engine ≡ w.engine.set (w.engine.delete s.engine key).0 key value)
          × (find_key key t.slots ≡ none))
  unfolding set_register set_into_engine del_from_engine del_slot
  set-del-uncovered clock key value fp s =
      (refl, find_key-remove_key key (put_key key (made w settings clock value fp) s.slots))
