-- ===== src/Session/OtherUsers.antt =====
-- The session of session.rs with the handlers of server.rs over the registry of mailboxes/impl/memory.rs.
use scuttled.Prelude.{
  Bool, false, ◌≡◌, refl, Option, some, arith, ◌==◌, list_key, nat_key, pair_key, get, get-insert,
  get-remove,
}
use scuttled.Text.{Text}
use scuttled.Types.{Credentials}
use scuttled.Error.{Result}
use scuttled.Channel.{Loop}
use scuttled.Mailboxes.{MailboxInfo}
use scuttled.Mailboxes.Memory.{MailboxState, fresh_mailbox, create_mailbox, delete_mailbox}
use scuttled.Mailboxes.Memory.Handle
use scuttled.Mailboxes.Memory.Handle.{in_memory_mailboxes}
use scuttled.Handlers.{SessionContext, username_of}
use scuttled.Handlers.BuiltIn.{built_in}
use scuttled.Handlers.Confining.{IsStable, built_in-IsConfined}
use scuttled.Session.Turns.{Turn, Setup, Session, turn}
use scuttled.Session.Answers.{session_of}
use scuttled.Session.Isolation.{turn-IsKept}

-- The mailbox of `v` named `m`, as it was.
abbrev pub Has : Text → Text → Option MailboxInfo → MailboxState → Type 0
Has v m info s = get s.mailboxes (v, m) ≡ info

create_mailbox-Has :
    (u v m name : Text) (info : Option MailboxInfo) (s : MailboxState)
    → (u == v) ≡ false
    → Has v m info s
    → Has v m info (create_mailbox s u name).1
unfolding create_mailbox
create_mailbox-Has u v m name info s other h =
    ground
      (arith, get-insert s.mailboxes (u, name) (v, m) (fresh_mailbox u name s.next_uid_validity))

delete_mailbox-Has :
    (u v m name : Text) (info : Option MailboxInfo) (s : MailboxState)
    → (u == v) ≡ false
    → Has v m info s
    → Has v m info (delete_mailbox s u name).1
unfolding delete_mailbox
delete_mailbox-Has u v m name info s other h =
    ground (arith, get-remove s.mailboxes (u, name) (v, m))

abbrev pub context_of :
    (Text → Option (Text → Bool))
    → Loop
    → (MailboxState → Credentials → Result Bool)
    → SessionContext MailboxState
context_of compile loop authenticate = record {
  mailboxes = in_memory_mailboxes compile loop;
  authenticate = authenticate;
}

module _ (compile : Text → Option (Text → Bool)) where
  pub context_of-IsStable :
      (loop : Loop) (authenticate : MailboxState → Credentials → Result Bool) (u v m : Text)
      (info : Option MailboxInfo)
      → (u == v) ≡ false
      → IsStable u (Has v m info) (λ state. Unit) (context_of compile loop authenticate)
  unfolding Handle.create_mailbox Handle.delete_mailbox
  context_of-IsStable Loop.running authenticate u v m info other s name h =
      (create_mailbox-Has u v m name info s other h, delete_mailbox-Has u v m name info s other h)
  context_of-IsStable Loop.draining authenticate u v m info other s name h = (h, h)
  context_of-IsStable Loop.stopped authenticate u v m info other s name h = (h, h)

  -- Whatever the client of the user `u` sends, one turn of the session neither creates, deletes nor
  -- changes a mailbox of another user.
  pub turn-other_user :
      (loop : Loop) (authenticate : MailboxState → Credentials → Result Bool)
      (setup : Setup MailboxState) (t : Turn) (s : Session MailboxState) (u v m : Text)
      → setup.command_handlers ≡ built_in (context_of compile loop authenticate) setup.upper
      → username_of s.state ≡ some u
      → (u == v) ≡ false
      → get (session_of (turn setup t s)).world.store.mailboxes (v, m)
        ≡ get s.world.store.mailboxes (v, m)
  turn-other_user loop authenticate setup t s u v m e user other =
      (turn-IsKept u (Has v m (get s.world.store.mailboxes (v, m))) (λ state. Unit) setup t
        (rw e (
          built_in-IsConfined u (Has v m (get s.world.store.mailboxes (v, m))) (λ state. Unit)
            (context_of compile loop authenticate)
            (context_of-IsStable loop authenticate u v m (get s.world.store.mailboxes (v, m)) other)
            ((λ r n p granted. tt), (λ n. tt)) setup.upper))
        s user (refl, tt)).0
