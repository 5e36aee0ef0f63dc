-- ===== src/Storage.antt =====
-- storage.rs and storage/store_mail.rs: the operations on message files as an interface, the writer loop
-- over it, and the handle with its flag updates.
pub mod FilesystemStore
pub mod Handle
pub mod Contents
pub mod Replay
pub mod Runs
pub mod Flags
pub mod Names
pub mod Updates
use scuttled.Prelude.{Bool, Option, List, [], ◌∷◌}
use scuttled.Text.{Text}
use scuttled.Error.{Result}
use scuttled.Files.{Action, Bytes}

-- The trait StoreMail.
pub record StoreMail (S : Type 0) : Type 0 where
  pub write : (path : Text) → Bytes → Action S (Unit {0})
  pub move_file : (from to : Text) → Action S (Unit {0})
  pub remove : (path : Text) → Action S (Unit {0})
  pub write_metadata : (path : Text) → Bytes → Action S (Unit {0})
  pub exists : S → (path : Text) → Result Bool
  pub read : S → (path : Text) → Result (Option Bytes)

pub data StorageCommand : Type 0 where
  write : (path : Text) → (content : Bytes) → StorageCommand
  move : (from to : Text) → StorageCommand
  remove : (path : Text) → StorageCommand
  write_metadata : (path : Text) → (metadata : Bytes) → StorageCommand
  shutdown : StorageCommand

-- What the loop sends back.
pub data Reply : Type 0 where
  done : Result (Unit {0}) → Reply
  closed : Reply

abbrev pub replied : {S : Type 0} → Result (Unit {0}) × S → Reply × S
replied (r, s) = (Reply.done r, s)

module _ {S : Type 0} (store : StoreMail S) where
  -- One turn of the loop.
  unfoldable pub execute : StorageCommand → S → Reply × S
  execute (StorageCommand.write path content) s = replied (store.write path content s)
  execute (StorageCommand.move from to) s = replied (store.move_file from to s)
  execute (StorageCommand.remove path) s = replied (store.remove path s)
  execute (StorageCommand.write_metadata path metadata) s =
      replied (store.write_metadata path metadata s)
  execute StorageCommand.shutdown s = (Reply.closed, s)

  unfoldable pub run_storage_writer_loop : List StorageCommand → S → List Reply × S
  run_storage_writer_loop [] s = ([], s)
  run_storage_writer_loop (StorageCommand.shutdown ∷ cs) s = (Reply.closed ∷ [], s)
  run_storage_writer_loop (c ∷ cs) s =
      let (reply, t) = execute c s in
      let (replies, end) = run_storage_writer_loop cs t in (reply ∷ replies, end)
