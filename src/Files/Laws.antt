-- ===== src/Files/Laws.antt =====
-- What the program relies on of the file system. `content` tells which paths are regular files and what
-- they hold. The laws are about paths without `..`, below which no symbolic link stands.
use scuttled.Prelude.{
  Bool, true, false, not, ◌&&◌, ◌≡◌, Option, none, some, [], ◌∷◌, if◌then◌else◌, ◌==◌, list_key,
  nat_key, is_some,
}
use scuttled.Text.{text}
use scuttled.Error.{ok, is_ok}
use scuttled.Mailstore.{FilePath}
use scuttled.Files.{Bytes, FileSystem}

abbrev pub is_normal : FilePath → Bool
is_normal [] = true
is_normal (c ∷ path) = not (c == text "..") && is_normal path

abbrev pub IsNormal : FilePath → Type 0
IsNormal path = is_normal path ≡ true

-- The files that a path names after a rename.
abbrev pub renamed : (FilePath → Option Bytes) → (from to : FilePath) → FilePath → Option Bytes
renamed content from to q = if to == q then content from else if from == q then none else content q

abbrev pub without : (FilePath → Option Bytes) → FilePath → FilePath → Option Bytes
without content path q = if path == q then none else content q

abbrev pub holding : (FilePath → Option Bytes) → FilePath → Bytes → FilePath → Option Bytes
holding content path bytes q = if path == q then some bytes else content q

pub record IsLawful {S : Type 0} (fs : FileSystem S) (content : S → FilePath → Option Bytes)
    : Type 0 where
  pub create_dir_all_keeps :
      (s : S) (p q : FilePath) → IsNormal q → content (fs.create_dir_all p s).1 q ≡ content s q
  -- The file is made or emptied.
  pub create_empties :
      (s : S) (p q : FilePath)
      → IsNormal p
      → IsNormal q
      → content (fs.create p s).1 q
        ≡ (if is_ok (fs.create p s).0 then holding (content s) p [] q else content s q)
  -- A write that fails may leave a part of the bytes.
  pub write_all_fills :
      (s : S) (p : FilePath) (bytes : Bytes)
      → IsNormal p
      → content s p ≡ some []
      → is_ok (fs.write_all p bytes s).0 ≡ true
      → content (fs.write_all p bytes s).1 p ≡ some bytes
  pub write_all_keeps :
      (s : S) (p q : FilePath) (bytes : Bytes)
      → IsNormal p
      → IsNormal q
      → (p == q) ≡ false
      → content (fs.write_all p bytes s).1 q ≡ content s q
  pub sync_all_keeps :
      (s : S) (p q : FilePath) → IsNormal q → content (fs.sync_all p s).1 q ≡ content s q
  -- A file that is renamed takes the place of one at the new path.
  pub rename_moves :
      (s : S) (from to q : FilePath)
      → IsNormal from
      → IsNormal to
      → IsNormal q
      → is_some (content s from) ≡ true
      → content (fs.rename from to s).1 q
        ≡ (if is_ok (fs.rename from to s).0 then renamed (content s) from to q else content s q)
  -- It removes files only.
  pub remove_file_removes :
      (s : S) (p q : FilePath)
      → IsNormal p
      → IsNormal q
      → content (fs.remove_file p s).1 q
        ≡ (if is_ok (fs.remove_file p s).0 then without (content s) p q else content s q)
  pub try_exists_finds :
      (s : S) (p : FilePath) → IsNormal p → fs.try_exists s p ≡ ok false → content s p ≡ none
  pub read_returns :
      (s : S) (p : FilePath) (bytes : Bytes)
      → IsNormal p
      → fs.read s p ≡ ok bytes
      → content s p ≡ some bytes
