-- ===== src/Examples/Serving.antt =====
-- server.rs: two clients at once, and a client whose handshake fails.
use scuttled.Prelude.{
  Bool, true, not, ◌&&◌, ◌≡◌, ◌≢◌, refl, none, some, List, [], ◌∷◌, ◌++◌, length, ◌==◌, list_key,
  nat_key, list_beq, get, pair_key,
}
use scuttled.Text.{Text, text}
use scuttled.Error.{Error, Result, ok}
use scuttled.Types.{Credentials}
use scuttled.Channel.{Loop}
use scuttled.Session.OtherUsers.{context_of, Has}
use scuttled.Server.Runs.{IsKept}
use scuttled.Server.Others.{IsOthers, listen-other_user}
use scuttled.Mailboxes.Memory
use scuttled.Mailboxes.Memory.{MailboxState}
use scuttled.Handlers.BuiltIn.{built_in}
use scuttled.Server.{
  ImapServer, Serving, Accept, Happening, new, with_tls_identity, listen_on, listen_on_tls,
}
use scuttled.Server.Outside.{IsClosed, listen-IsClosed}
use scuttled.Server.Handshakes.{listen_on_tls-unusable}
use scuttled.Examples.Sessions.{same_case, no_regex, closed, plain, says, login_line}

abbrev server : ImapServer MailboxState
server = record (new closed same_case) { has_tls_acceptor = true }

abbrev idle : Serving MailboxState
idle = record { store = Memory.new; clients = []; ended = none }

abbrev arrival : Happening
arrival = Happening.accept (Accept.usable plain.connection 0)

abbrev failure : Happening
failure = Happening.accept (Accept.unusable (text "no shared cipher"))

-- Two clients whose turns alternate, with a third that comes in between.
abbrev rush : List Happening
rush =
    arrival
    ∷ arrival
    ∷ Happening.turn_of 1 (says login_line)
    ∷ Happening.turn_of 0 (says (text "b1 CREATE Stolen"))
    ∷ arrival
    ∷ Happening.turn_of 1 (says (text "a2 DELETE Drafts"))
    ∷ []

three_clients : length (listen_on server same_case rush idle).clients ≡ 3
unfolding listen_on
three_clients = refl

with_identity :
    with_tls_identity (λ (m : Text). none) (text "identity") (new closed same_case) ≡ ok server
unfolding with_tls_identity
with_identity = refl

listen-IsClosed_example :
    IsClosed closed Memory.new (listen_on server same_case rush idle)
    × IsClosed closed Memory.new (listen_on_tls server same_case rush idle)
unfolding built_in new
listen-IsClosed_example =
    listen-IsClosed closed same_case server Memory.new (λ c e. cc) rush idle refl refl refl

listen_on_tls-unusable_example :
    ((listen_on_tls server same_case (failure ∷ rush) idle).ended
      ≡ some (Error.tls_error (text "TLS handshake failed: " ++ text "no shared cipher")))
    × (length (listen_on_tls server same_case (failure ∷ rush) idle).clients ≡ 0)
    × (listen_on server same_case (failure ∷ rush) idle ≡ listen_on server same_case rush idle)
listen_on_tls-unusable_example =
    listen_on_tls-unusable server same_case (text "no shared cipher") rush idle refl refl

-- Everybody but bob gets in with the password `secret`.
abbrev without_bob : MailboxState → Credentials → Result Bool
without_bob s c = ok (not (c.username == text "bob") && c.password == text "secret")

never_bob :
    (s : MailboxState) (p : Text)
    → without_bob s (record { username = text "bob"; password = p }) ≢ ok true
unfolding text list_beq
never_bob s p e = cc

abbrev without_bob_server : ImapServer MailboxState
without_bob_server = new (context_of no_regex Loop.running without_bob) same_case

-- Alice logs in at one connection and creates a mailbox, and somebody tries to be bob at another.
abbrev evening : List Happening
evening =
    arrival
    ∷ arrival
    ∷ Happening.turn_of 1 (says login_line)
    ∷ Happening.turn_of 0 (says (text "b1 LOGIN bob secret"))
    ∷ Happening.turn_of 1 (says (text "a2 CREATE INBOX"))
    ∷ Happening.turn_of 0 (says (text "b2 DELETE INBOX"))
    ∷ []

listen-other_user_example :
    IsKept
      (context_of no_regex Loop.running without_bob)
      (Has (text "bob") (text "INBOX") none)
      (IsOthers (text "bob"))
      (listen_on without_bob_server same_case evening idle)
    × IsKept
        (context_of no_regex Loop.running without_bob)
        (Has (text "bob") (text "INBOX") none)
        (IsOthers (text "bob"))
        (listen_on_tls without_bob_server same_case evening idle)
unfolding built_in new get Memory.new
listen-other_user_example =
    listen-other_user no_regex Loop.running without_bob (text "bob") never_bob (text "INBOX") none
      same_case without_bob_server evening idle refl refl refl
