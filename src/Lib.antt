-- ===== src/Lib.antt =====
-- Verification of scuttled, an IMAP server library in Rust.
--
-- The program keeps the mailboxes of its users in a registry, the UIDs of a mailbox in a handle
-- with a state loop of its own, and messages as files of a mail store. A session reads command
-- lines, parses them and lets handlers work on these components. The components own their state
-- in a background loop that takes commands from a channel one at a time, so an operation is
-- modelled as one transition of the owned state: it returns its result and the state behind it,
-- and a run of the loop is a fold over the commands that its channel yields, up to a Shutdown.
-- Handles send a command and wait for the reply; Channel says what they see of a loop that runs,
-- drains or has stopped.
--
-- Files:
-- - Prelude: Boolean tests on the native numbers, lists, equality of keys as an interface, and
--   HashMap as an association list with look-up laws.
-- - Text: Rust's str and char operations on lists of code points, with lemmas on split_whitespace
--   (Words) and trim (Trim).
-- - Types, Error: src/types.rs and src/error.rs.
-- - Protocol: src/protocol.rs, Command, parse_command (the match is `dispatch`) and Response;
--   what the parser accepts is in Parsing, RoundTrip and Arity.
-- - Mailboxes: the trait of src/mailboxes/mod.rs as an interface. Mailboxes/Memory:
--   src/mailboxes/impl/memory.rs, MailboxState with its methods under their own names, `write`
--   and `writer_loop` for the loop, Listing for list_mailboxes, Handle for InMemoryMailboxes.
-- - Mailbox: src/mailbox.rs, `handle` for a turn of mailbox_state_loop (its arms are assign,
--   remove_uid, move_uid, snapshot_of, add_subscriber, notify_all), Mailbox/Handle for the
--   handle.
-- - Mailstore: the trait of src/mailstore/format.rs. Mailstore/Maildir:
--   src/mailstore/watcher/maildir.rs.
-- - Files: the file system that the program reaches through tokio::fs, as an interface over its
--   state (FileSystem), with the parts of std::path that the program uses. Laws says what a file
--   system must meet for the theorems (IsLawful): on paths without `..` and symbolic links, what
--   each call leaves at every path.
-- - Storage: src/storage.rs and src/storage/store_mail.rs, where `execute` is one turn of
--   run_storage_writer_loop; FilesystemStore: src/storage/filesystem_store.rs; Handle: the
--   methods of Storage, with `new_path` for the name that update_flags computes (move is its
--   request, store_message is Storage::store). Contents, Replay and Runs are about the loop,
--   Flags, Names and Updates about update_flags.
-- - Mailstore/Filesystem: src/mailstore/mod.rs and src/mailstore/impl/filesystem.rs.
-- - Mailstore/Watcher: src/mailstore/watcher/filesystem.rs. `Watching` is WatcherState with the
--   files, the notify watcher and the events published so far; Changes is the way of a notify
--   event to event_bus.publish, Scan is scan_existing_messages, Commands the command loop
--   (`handle` is one turn) and Handle the methods of FilesystemWatcher. Registered and Watched
--   are about the two maps, Indexing about the watcher and the index listener together.
-- - Users: src/userstore/mod.rs, src/authenticator/mod.rs and src/authenticator/impl/basic.rs.
--   Users/Sqlite: src/userstore/impl/sqlite.rs over the rusqlite crate as an interface
--   (Database); Table is what SQLite promises about the table, Accounts, Logins and Refusals are
--   about the calls.
-- - Connection: write_response of src/connection.rs, whose failures the environment chooses.
-- - Handlers: src/session_context.rs, src/command_handler.rs and src/command_handlers.rs (`find`
--   is get, `dispatch` is handle, `run` its branch for a handler that is found).
--   Handlers/Account: src/handlers/login.rs, logout.rs, noop.rs and capability.rs;
--   Handlers/Folders: select.rs, create.rs and delete.rs; Handlers/Patterns and Handlers/Listing:
--   list.rs; Handlers/BuiltIn: the registrations of src/server.rs. Handlers/Cells: the methods of
--   SessionContext. Answering, Guarding and Confining hold what the session relies on: that a
--   handler answers with its tag, that one which requires no authentication leaves the store
--   alone, and that one which is run for a user keeps to that user's mailboxes. Registered
--   carries such a law from the handlers to the registry.
-- - Session: src/session.rs. Session/Tags is TagHistory, Session/Sequence is SequenceIdMap,
--   Session/Lines cuts a line into tag and command, Session/Commands is handle_command_static,
--   and Session/Turns is the loop of Session::handle, where `turn` is one pass through it and
--   `run` any number. Answers, Access, Isolation, OtherUsers, Server and Logins are about a turn
--   and a run, Entering is about a login from the line to the table of users.
-- - Server: src/server.rs. An accept loop and the sessions that it spawns share one store; a run
--   is a list of what happens, each item a turn of the accept loop or of one session, so that
--   every interleaving is such a list. Runs carries what one turn of a session keeps to any
--   interleaving, Outside and Others use it for clients whom the authenticator does not let in,
--   and Handshakes is about connections of no use.
-- - Queue: src/queue/impl/channel.rs and the tasks of src/types.rs, with the order of tasks in
--   Queue/Order.
-- - Events: src/events.rs. Events/Bus has event_bus_loop, with `turn` for one command, and Handle
--   the methods of EventBus; Order is about what a subscriber receives, Capacity about the bound
--   of a channel. A channel is the list of deliveries in it. For the loop a publish_sync is done
--   when its deliveries are made, since its wait for the acknowledgments changes no state of the
--   bus; Waiting has the steps of the subscribers meanwhile, Acknowledgments says when the wait
--   is over.
-- - Index: src/index/mod.rs and backend.rs. Index/Memory: src/index/impl/inmemory.rs, whose map
--   from identifiers to entries is `Messages`; Contents and Replay are about the commands on it,
--   Searches about queries. Index/Indexer: src/index/indexer.rs, `write` and `writer_loop` for
--   the loop, Handle for the methods of Indexer, and Listener for event_listener, where `listen`
--   is one event. Index/Tantivy: src/index/impl/tantivy.rs, with the writer loop, its Reads and
--   the Handle; Own is about what a search shows.
-- - Searcher: src/searcher.rs.
-- - Examples: tests, and the theorems at concrete inputs.
--
-- Numbers: a u32 is a native number whose increment wraps at 2^32, as in a release build;
-- theorems on counters carry the bound they need. `decimal` writes at most twenty digits, enough
-- for a u64.
--
-- Code outside the repository is an argument: how the uuid crate prints an identifier (`display`,
-- `debug`), the regex crate (`compile`), the authenticator of a session (a function of the store
-- and the credentials), Unicode's upper case table beyond ASCII (`upper`), the file system, the
-- notify crate (`Notify`), the mailparse crate (`parse_mail`), the clock (`now`), the rusqlite
-- crate (`Database`), the tantivy crate (`IndexWriter`, `IndexReader`), the bcrypt crate (`hash`,
-- with the salt of a call, and `verify`) and the native_tls crate. Examples/MemoryFiles is a file
-- system that is lawful, Examples/Accounts such a database.
--
-- Identifiers that the program draws at random are arguments of the commands. The times that a
-- session reads from its clock, the events that select! yields and the outcome of a TLS handshake
-- are inputs of each turn. The untagged responses and the shutdown signal are such events,
-- although the program as it stands sends neither.
--
-- Not modelled: what sockets and TLS do (the reading side of src/connection.rs) and the start of
-- the program (src/bin/main.rs). A spawned task is taken to run until it ends by itself. The
-- regular expression of a pattern with a `%` or with several stars is written as the source
-- writes it, but what it matches is the regex crate's. Of the watcher the start of its tasks is
-- left out, and the publication of its events through the bus, whose order is that of the list
-- `published`.
pub mod Prelude
pub mod Text
pub mod Error
pub mod Types
pub mod Protocol
pub mod Channel
pub mod Mailboxes
pub mod Mailbox
pub mod Mailstore
pub mod Files
pub mod Storage
pub mod Users
pub mod Connection
pub mod Handlers
pub mod Session
pub mod Server
pub mod Queue
pub mod Events
pub mod Index
pub mod Searcher
pub mod Examples
