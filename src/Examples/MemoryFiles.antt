-- ===== src/Examples/MemoryFiles.antt =====
-- A file system in memory: a map from paths to contents, with no directories of its own. It meets the
-- assumptions on file systems.
use scuttled.Prelude.{
  Bool, true, false, ◌≡◌, refl, ◌∙◌, Option, none, some, [], map, arith, if◌then◌else◌, ◌==◌,
  list_key, nat_key, is_some, HashMap, get, insert, remove, contains_key, keep, get-insert,
  get-remove, beq_refl,
}
use scuttled.Text.{text}
use scuttled.Error.{Error, Result, ok, err, is_ok}
use scuttled.Mailstore.{FilePath, parent}
use scuttled.Files.{Bytes, FileSystem}
use scuttled.Files.Laws.{renamed, IsLawful}

abbrev pub Files : Type 0
Files = HashMap FilePath Bytes

abbrev no_file : Error
no_file = Error.io (text "No such file")

abbrev content_of : Option Bytes → Result Bytes
content_of none = err no_file
content_of (some bytes) = ok bytes

abbrev moved : FilePath → FilePath → Option Bytes → Files → Result (Unit {0}) × Files
moved from to none s = (err no_file, s)
moved from to (some bytes) s = (ok tt, insert (remove s from) to bytes)

abbrev is_directory : FilePath → Option FilePath → Bool
is_directory directory none = false
is_directory directory (some p) = p == directory

abbrev pub memory_content : Files → FilePath → Option Bytes
memory_content s p = get s p

abbrev pub memory_files : FileSystem Files
memory_files = record {
  create_dir_all = λ p s. (ok tt, s);
  create = λ p s. (ok tt, insert s p []);
  write_all = λ p bytes s. (ok tt, insert s p bytes);
  sync_all = λ p s. (ok tt, s);
  rename = λ from to s. moved from to (get s from) s;
  remove_file = λ p s. (ok tt, remove s p);
  try_exists = λ s p. ok (contains_key s p);
  read = λ s p. content_of (get s p);
  read_dir = λ s p. ok (map (λ e. ok e.0) (keep (λ e. is_directory p (parent e.0)) s));
  is_file = λ s p. ok (contains_key s p);
}

rename_moved :
    (s : Files) (from to q : FilePath) (bytes : Bytes)
    → get s from ≡ some bytes
    → get (insert (remove s from) to bytes) q ≡ renamed (get s) from to q
rename_moved s from to q bytes h =
    ground (arith, get-insert (remove s from) to q bytes, get-remove s from q, h)

moved-content :
    (s : Files) (from to q : FilePath) (found : Option Bytes)
    → get s from ≡ found
    → is_some found ≡ true
    → get (moved from to found s).1 q
      ≡ (if is_ok (moved from to found s).0 then renamed (get s) from to q else get s q)
moved-content s from to q none h there = cc
moved-content s from to q (some bytes) h there = rename_moved s from to q bytes h

content_of_ok : (o : Option Bytes) (bytes : Bytes) → content_of o ≡ ok bytes → o ≡ some bytes
content_of_ok none bytes h = absurd (ground arith)
content_of_ok (some b) bytes h = ground arith

exists_get : (o : Option Bytes) → ◌≡◌ {A = Result Bool} (ok (is_some o)) (ok false) → o ≡ none
exists_get none h = refl
exists_get (some b) h = absurd (ground arith)

pub memory_files-IsLawful : IsLawful memory_files memory_content
unfolding contains_key
memory_files-IsLawful = record {
  create_dir_all_keeps = λ s p q n. refl;
  create_empties = λ s p q np nq. get-insert s p q [];
  write_all_fills = λ s p bytes np empty done. get-insert s p p bytes ∙ rw (beq_refl p) refl;
  write_all_keeps = λ s p q bytes np nq other. get-insert s p q bytes ∙ rw other refl;
  sync_all_keeps = λ s p q n. refl;
  rename_moves = λ s from to q nf nt nq there. moved-content s from to q (get s from) refl there;
  remove_file_removes = λ s p q np nq. get-remove s p q;
  try_exists_finds = λ s p n gone. exists_get (get s p) gone;
  read_returns = λ s p bytes n h. content_of_ok (get s p) bytes h;
}
