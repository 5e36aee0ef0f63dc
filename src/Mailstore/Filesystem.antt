-- ===== src/Mailstore/Filesystem.antt =====
-- mailstore/mod.rs and mailstore/impl/filesystem.rs: the trait of mail stores, and the one that keeps
-- message files below a root, with its writer loop over any file system.
pub mod Handle
use scuttled.Prelude.{Bool, true, false, Option, none, some, List, [], ◌∷◌, ◌++◌, if◌then◌else◌}
use scuttled.Text.{Text, text}
use scuttled.Error.{Error, Result, ok, err}
use scuttled.Mailstore.{FilePath, parent}
use scuttled.Files.{Action, ◌>>◌, ◌>>=◌, pure, fail, Bytes, FileSystem, or_false, join}
use scuttled.Storage.FilesystemStore.{create_directory}

pub record MailStore (S : Type 0) : Type 0 where
  pub store : (path : Text) → Bytes → Action S (Unit {0})
  pub retrieve : S → (path : Text) → Result (Option Bytes)
  pub delete : (path : Text) → Action S (Unit {0})
  pub exists : S → (path : Text) → Result Bool

pub data WriteCommand : Type 0 where
  store : (path : Text) → (content : Bytes) → WriteCommand
  delete : (path : Text) → WriteCommand
  shutdown : WriteCommand

-- What the loop sends back.
pub data Reply : Type 0 where
  done : Result (Unit {0}) → Reply
  closed : Reply

abbrev pub replied : {S : Type 0} → Result (Unit {0}) × S → Reply × S
replied (r, s) = (Reply.done r, s)

module _ {S : Type 0} (fs : FileSystem S) where
  unfoldable pub new : FilePath → Action S FilePath
  new root_path = do fs.create_dir_all root_path; pure root_path

  module _ (root : FilePath) where
    unfoldable pub store_file : Text → Bytes → Action S (Unit {0})
    unfolding join parent
    store_file path content = do
      create_directory fs (parent (join root path))
      fs.create (join root path)
      fs.write_all (join root path) content

    unfoldable pub delete_file : Text → Action S (Unit {0})
    unfolding join
    delete_file path s =
        if or_false (fs.try_exists s (join root path))
        then fs.remove_file (join root path) s
        else fail (Error.not_found (text "File not found: " ++ path)) s

    -- One turn of the loop.
    unfoldable pub write : WriteCommand → S → Reply × S
    unfolding store_file delete_file
    write (WriteCommand.store path content) s = replied (store_file path content s)
    write (WriteCommand.delete path) s = replied (delete_file path s)
    write WriteCommand.shutdown s = (Reply.closed, s)

    unfoldable pub writer_loop : List WriteCommand → S → List Reply × S
    unfolding write
    writer_loop [] s = ([], s)
    writer_loop (WriteCommand.shutdown ∷ cs) s = (Reply.closed ∷ [], s)
    writer_loop (c ∷ cs) s =
        let (reply, t) = write c s in
        let (replies, end) = writer_loop cs t in (reply ∷ replies, end)
