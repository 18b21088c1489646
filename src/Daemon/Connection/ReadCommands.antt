-- ===== src/Daemon/Connection/ReadCommands.antt =====
-- The commands that need no write permission only read.
use cachee_cli.Base.{
  Str, Bool, true, false, List, [], ◌∷◌, if◌then◌else◌, ◌≡◌, arith, bytes_eq, ascii, upper, arith,
}
use cachee_cli.Daemon.Protocol
use cachee_cli.Daemon.Protocol.{Command, Reply, command_of, named, with_key, words_of}
use cachee_cli.Daemon.Commands.Kept.{ReadsOnly}
use cachee_cli.Daemon.Connection.{needs_write, first_word}

pub record Reading (cmd : Command) : Type 0 where
  pub reads : ReadsOnly cmd

abbrev plain : {cmd : Command} → ReadsOnly cmd → Reading cmd
plain r = record { reads = r }

either : (b : Bool) (x y : Command) → Reading x → Reading y → Reading (if b then x else y)
either true x y f g = f
either false x y f g = g

with_key-Reading :
    (make : Str → Command)
    → ((k : Str) → ReadsOnly (make k))
    → (args : List Str) → Reading (with_key make args)
with_key-Reading make f [] = plain tt
with_key-Reading make f (k ∷ args) = plain (f k)

-- The write commands are those that need the permission.
named-Reading :
    (u name : Str) (args : List Str) → needs_write u ≡ false → Reading (named u name args)
unfolding named
named-Reading u name args h =
    let not_set : bytes_eq u (ascii "SET") ≡ false = ground arith in
    let not_del : bytes_eq u (ascii "DEL") ≡ false = ground arith in
    let not_invalidate : bytes_eq u (ascii "INVALIDATE") ≡ false = ground arith in
    let not_supersede : bytes_eq u (ascii "SUPERSEDE") ≡ false = ground arith in
    rw (named, not_set, not_del, not_invalidate, not_supersede)
      (either (bytes_eq u (ascii "PING")) Protocol.ping _ (plain tt) (
        either (bytes_eq u (ascii "GET")) (with_key Protocol.get args) _
          (with_key-Reading Protocol.get (λ k. tt) args)
          (either (bytes_eq u (ascii "GETVERIFIED")) (with_key Protocol.get_verified args) _
            (with_key-Reading Protocol.get_verified (λ k. tt) args)
            (either (bytes_eq u (ascii "STATE")) (with_key Protocol.state args) _
              (with_key-Reading Protocol.state (λ k. tt) args)
              (either (bytes_eq u (ascii "INFO")) Protocol.info _ (plain tt) (
                either (bytes_eq u (ascii "AUDITLOG")) (with_key Protocol.audit_log args) _
                  (with_key-Reading Protocol.audit_log (λ k. tt) args)
                  (either (bytes_eq u (ascii "AUDITVERIFY")) Protocol.audit_verify _ (plain tt) (
                    either (bytes_eq u (ascii "AUDITANCHOR")) Protocol.audit_anchor _ (plain tt)
                      (plain tt)))))))))

pub command-Reading :
    (parts : List Str) → needs_write (upper (first_word parts)) ≡ false → Reading (command_of parts)
unfolding command_of
command-Reading [] h = plain tt
command-Reading (name ∷ args) h = named-Reading (upper name) name args h
