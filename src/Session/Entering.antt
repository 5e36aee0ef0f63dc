-- ===== src/Session/Entering.antt =====
-- A user of userstore/impl/sqlite.rs logs in: protocol.rs, session.rs, handlers/login.rs,
-- authenticator/impl/basic.rs and the user store together.
use scuttled.Prelude.{list_key, nat_key}
use scuttled.Text.{Text}
use scuttled.Mailboxes.{Mailboxes}
use scuttled.Handlers.{SessionContext}
use scuttled.Users.{UserStore, authenticate}

-- The context of a session over a user store. The state behind a look-up, in which no user has changed, is
-- dropped.
abbrev pub context_over : {S : Type 0} → Mailboxes S → UserStore S → SessionContext S
context_over mailboxes users = record {
  mailboxes = mailboxes;
  authenticate = λ s credentials. (authenticate users credentials s).0;
}
