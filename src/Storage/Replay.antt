-- ===== src/Storage/Replay.antt =====
-- One command of storage.rs over filesystem_store.rs, as a change of the map from paths to contents.
use scuttled.Prelude.{
  true, not, ◌||◌, ◌≡◌, refl, sym, ◌∙◌, Option, List, [], ◌∷◌, arith, if◌then◌else◌, list_key,
  nat_key, is_some, Bool-cases, inl, inr,
}
use scuttled.Text.{Text}
use scuttled.Error.{Result, ok, err, is_ok}
use scuttled.Mailstore.{FilePath, parent}
use scuttled.Files.{Bytes, FileSystem, or_false, join}
use scuttled.Files.Laws.{IsNormal, renamed, without, holding, IsLawful}
use scuttled.Storage.{StorageCommand, Reply, execute}
use scuttled.Storage.FilesystemStore.{
  create_directory, write, move_file, remove, write_metadata, filesystem_store,
}
use scuttled.Storage.Contents.{
  Contents, effect, create_directory_keeps, rename_moves_after, write_after,
}

module _ {S : Type 0} (fs : FileSystem S) (content : S → FilePath → Option Bytes)
    (root : FilePath) where
  -- The paths of a command have no `..`.
  abbrev pub HasNormalPaths : StorageCommand → Type 0
  HasNormalPaths (StorageCommand.write path bytes) = IsNormal (join root path)
  HasNormalPaths (StorageCommand.move from to) = IsNormal (join root from) × IsNormal (join root to)
  HasNormalPaths (StorageCommand.remove path) = IsNormal (join root path)
  HasNormalPaths _ = Unit

  -- A write does not fail halfway, and what is moved is a file, if it is there.
  abbrev pub IsClean : S → StorageCommand → Type 0
  IsClean s (StorageCommand.write path bytes) = is_ok (write fs root path bytes s).0 ≡ true
  IsClean s (StorageCommand.move from to) =
      (is_some (content s (join root from)) || not (or_false (fs.try_exists s (join root from))))
      ≡ true
  IsClean s _ = Unit

  abbrev pub RunsClean : S → List StorageCommand → Type 0
  RunsClean s [] = Unit
  RunsClean s (StorageCommand.shutdown ∷ cs) = Unit
  RunsClean s (c ∷ cs) =
      HasNormalPaths c × IsClean s c × RunsClean (execute (filesystem_store fs root) c s).1 cs

  module _ (laws : IsLawful fs content) where
    pub effect_of_move :
        (c : Contents) (from to : Text) (q : FilePath) (r : Result (Unit {0}))
        → effect root c (StorageCommand.move from to) (Reply.done r) q
          ≡ (if is_ok r then renamed c (join root from) (join root to) q else c q)
    effect_of_move c from to q (ok u) = refl
    effect_of_move c from to q (err e) = refl

    effect_of_write :
        (c : Contents) (path : Text) (bytes : Bytes) (q : FilePath) (r : Result (Unit {0}))
        → is_ok r ≡ true
        → holding c (join root path) bytes q
          ≡ effect root c (StorageCommand.write path bytes) (Reply.done r) q
    effect_of_write c path bytes q (ok u) done = refl
    effect_of_write c path bytes q (err e) done = cc

    effect_of_remove :
        (c : Contents) (path : Text) (q : FilePath) (r : Result (Unit {0}))
        → effect root c (StorageCommand.remove path) (Reply.done r) q
          ≡ (if is_ok r then without c (join root path) q else c q)
    effect_of_remove c path q (ok u) = refl
    effect_of_remove c path q (err e) = refl

    pub move_file-effect :
        (s : S) (from to : Text) (q : FilePath)
        → HasNormalPaths (StorageCommand.move from to)
        → IsNormal q
        → IsClean s (StorageCommand.move from to)
        → content (move_file fs root from to s).1 q
          ≡ effect root
              (content s)
              (StorageCommand.move from to)
              (Reply.done (move_file fs root from to s).0)
              q
    unfolding move_file
    move_file-effect s from to q n nq clean =
        elim (Bool-cases (or_false (fs.try_exists s (join root from)))) [
          | inl there ↦ rw there (
              rename_moves_after fs content laws root s
                (create_directory fs (parent (join root to)) s) (join root from) (join root to) q
                (create_directory_keeps fs content laws root s (parent (join root to))) n.0 n.1 nq
                (ground (arith, there, clean))
              ∙ sym (effect_of_move (content s) from to q _))
          | inr gone ↦ rw gone refl
        ]

    remove-effect :
        (s : S) (path : Text) (q : FilePath)
        → IsNormal (join root path)
        → IsNormal q
        → content (remove fs root path s).1 q
          ≡ effect root
              (content s)
              (StorageCommand.remove path)
              (Reply.done (remove fs root path s).0)
              q
    unfolding remove
    remove-effect s path q n nq = elim (Bool-cases (or_false (fs.try_exists s (join root path)))) [
      | inl there ↦ rw there (
          laws.remove_file_removes s (join root path) q n nq
          ∙ sym (effect_of_remove (content s) path q _))
      | inr gone ↦ rw gone refl
    ]

    pub execute-effect :
        (c : StorageCommand) (s : S) (q : FilePath)
        → HasNormalPaths c
        → IsClean s c
        → IsNormal q
        → content (execute (filesystem_store fs root) c s).1 q
          ≡ effect root (content s) c (execute (filesystem_store fs root) c s).0 q
    unfolding execute write write_metadata
    execute-effect (StorageCommand.write path bytes) s q n clean nq =
        write_after fs content laws root s (create_directory fs (parent (join root path)) s)
          (join root path) q bytes
          (create_directory_keeps fs content laws root s (parent (join root path))) n nq clean
        ∙ effect_of_write (content s) path bytes q _ clean
    execute-effect (StorageCommand.move from to) s q n clean nq =
        move_file-effect s from to q n nq clean
    execute-effect (StorageCommand.remove path) s q n clean nq = remove-effect s path q n nq
    execute-effect (StorageCommand.write_metadata path metadata) s q n clean nq = refl
    execute-effect StorageCommand.shutdown s q n clean nq = refl
