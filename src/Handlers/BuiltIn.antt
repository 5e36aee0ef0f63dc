-- ===== src/Handlers/BuiltIn.antt =====
-- The handlers that server.rs registers when a server is made.
use scuttled.Prelude.{ℕ, true, false, List, [], ◌∷◌}
use scuttled.Text.{Text, text}
use scuttled.Handlers.{SessionContext, CommandHandler, CommandHandlers, register}
use scuttled.Handlers.Account.{login, logout, noop, capability}
use scuttled.Handlers.Folders.{select, create, delete}
use scuttled.Handlers.Listing.{list}

module _ {S : Type 0} where
  abbrev pub capability_handler : CommandHandler S
  capability_handler = record {
    command_name = text "CAPABILITY";
    requires_auth = false;
    requires_selected_mailbox = false;
    handle = capability false;
  }

  abbrev pub noop_handler : CommandHandler S
  noop_handler = record {
    command_name = text "NOOP";
    requires_auth = true;
    requires_selected_mailbox = false;
    handle = noop;
  }

  abbrev pub logout_handler : CommandHandler S
  logout_handler = record {
    command_name = text "LOGOUT";
    requires_auth = false;
    requires_selected_mailbox = false;
    handle = logout;
  }

  -- `let _ = handlers.register(handler)`
  unfoldable pub register_all :
      (ℕ → Text) → List (CommandHandler S) → CommandHandlers S → CommandHandlers S
  unfolding register
  register_all upper [] m = m
  register_all upper (h ∷ hs) m = register_all upper hs (register upper m h).1

module _ {S : Type 0} (context : SessionContext S) where
  abbrev pub login_handler : CommandHandler S
  login_handler = record {
    command_name = text "LOGIN";
    requires_auth = false;
    requires_selected_mailbox = false;
    handle = login context;
  }

  abbrev pub select_handler : CommandHandler S
  select_handler = record {
    command_name = text "SELECT";
    requires_auth = true;
    requires_selected_mailbox = false;
    handle = select context;
  }

  abbrev pub create_handler : CommandHandler S
  create_handler = record {
    command_name = text "CREATE";
    requires_auth = true;
    requires_selected_mailbox = false;
    handle = create context;
  }

  abbrev pub delete_handler : CommandHandler S
  delete_handler = record {
    command_name = text "DELETE";
    requires_auth = true;
    requires_selected_mailbox = false;
    handle = delete context;
  }

  abbrev pub list_handler : CommandHandler S
  list_handler = record {
    command_name = text "LIST";
    requires_auth = true;
    requires_selected_mailbox = false;
    handle = list context;
  }

  -- In the order of the calls of `register`.
  abbrev pub handlers : List (CommandHandler S)
  handlers =
      capability_handler ∷ noop_handler ∷ logout_handler ∷ login_handler ∷ select_handler
      ∷ create_handler ∷ delete_handler ∷ list_handler ∷ []

  unfoldable pub built_in : (ℕ → Text) → CommandHandlers S
  unfolding register_all
  built_in upper = register_all upper handlers []
