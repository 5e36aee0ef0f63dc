-- ===== src/Storage/FilesystemStore.antt =====
-- storage/filesystem_store.rs: message files below a root, over any file system.
use scuttled.Prelude.{Bool, Option, none, some, ◌++◌, if◌then◌else◌}
use scuttled.Text.{Text, text}
use scuttled.Error.{Error, Result, ok, err}
use scuttled.Mailstore.{FilePath, parent}
use scuttled.Files.{Action, ◌>>◌, pure, fail, Bytes, FileSystem, or_false, join}
use scuttled.Storage.{StoreMail}

-- `read_to_end`, whose result is the file's content.
abbrev pub found : Result Bytes → Result (Option Bytes)
found (ok content) = ok (some content)
found (err e) = err e

module _ {S : Type 0} (fs : FileSystem S) where
  -- `if let Some(parent) = full_path.parent() { fs::create_dir_all(parent).await?; }`
  abbrev pub create_directory : Option FilePath → Action S (Unit {0})
  create_directory none = pure tt
  create_directory (some directory) = fs.create_dir_all directory

  unfoldable pub new : FilePath → Action S FilePath
  new root_path = do fs.create_dir_all root_path; pure root_path

  module _ (root : FilePath) where
    unfoldable pub write : Text → Bytes → Action S (Unit {0})
    unfolding join parent
    write path content = do
      create_directory (parent (join root path))
      fs.create (join root path)
      fs.write_all (join root path) content
      fs.sync_all (join root path)

    unfoldable pub move_file : (from to : Text) → Action S (Unit {0})
    unfolding join parent
    move_file from to s =
        if or_false (fs.try_exists s (join root from))
        then (do
          create_directory (parent (join root to))
          fs.rename (join root from) (join root to))
            s
        else fail (Error.not_found (text "Source file not found: " ++ from)) s

    unfoldable pub remove : Text → Action S (Unit {0})
    unfolding join
    remove path s =
        if or_false (fs.try_exists s (join root path))
        then fs.remove_file (join root path) s
        else fail (Error.not_found (text "File not found: " ++ path)) s

    unfoldable pub write_metadata : Text → Bytes → Action S (Unit {0})
    write_metadata path metadata = pure tt

    unfoldable pub exists : S → Text → Result Bool
    unfolding join
    exists s path = ok (or_false (fs.try_exists s (join root path)))

    unfoldable pub read : S → Text → Result (Option Bytes)
    unfolding join
    read s path =
        if or_false (fs.try_exists s (join root path))
        then found (fs.read s (join root path))
        else ok none

    -- `impl StoreMail for FilesystemStore`
    abbrev pub filesystem_store : StoreMail S
    filesystem_store = record {
      write = write;
      move_file = move_file;
      remove = remove;
      write_metadata = write_metadata;
      exists = exists;
      read = read;
    }
