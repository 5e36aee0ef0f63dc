-- ===== src/Examples.antt =====
-- Tests, and each theorem at a concrete input that exercises the code.
mod Accounts
mod Documents
mod Entering
mod Commands
mod Registry
mod Messages
mod Maildir
mod Sessions
mod Tasks
mod Wildcards
mod Searching
mod Listening
mod Events
mod MemoryFiles
mod Serving
mod Storing
mod Watching
