-- ===== src/Storage/Contents.antt =====
-- What the commands of storage.rs do to the files, over filesystem_store.rs and a lawful file system.
use scuttled.Prelude.{
  true, ◌≡◌, refl, sym, ◌∙◌, Option, none, some, List, [], ◌∷◌, arith, if◌then◌else◌, ◌==◌,
  list_key, nat_key, is_some, Bool-cases, inl, inr, beq_refl, list_beq_iff,
}
use scuttled.Error.{Result, ok, err, is_ok}
use scuttled.Mailstore.{FilePath}
use scuttled.Files.{continue, ◌>>◌, Bytes, FileSystem, join}
use scuttled.Files.Laws.{IsNormal, renamed, without, holding, IsLawful}
use scuttled.Storage.{StorageCommand, Reply}
use scuttled.Storage.FilesystemStore.{create_directory}

abbrev pub Contents : Type 0
Contents = FilePath → Option Bytes

module _ (root : FilePath) where
  -- A command that succeeds changes the files so; one that fails leaves them.
  abbrev pub effect : Contents → StorageCommand → Reply → Contents
  effect c (StorageCommand.write path content) (Reply.done (ok _)) q =
      holding c (join root path) content q
  effect c (StorageCommand.move from to) (Reply.done (ok _)) q =
      renamed c (join root from) (join root to) q
  effect c (StorageCommand.remove path) (Reply.done (ok _)) q = without c (join root path) q
  effect c _ _ q = c q

  abbrev pub replay : Contents → List StorageCommand → List Reply → Contents
  replay c (x ∷ cs) (r ∷ rs) = replay (effect c x r) cs rs
  replay c _ _ = c

module _ {S : Type 0} (fs : FileSystem S) (content : S → FilePath → Option Bytes)
    (laws : IsLawful fs content) (root : FilePath) where
  pub create_directory_keeps :
      (s : S) (p : Option FilePath) (q : FilePath)
      → IsNormal q
      → content (create_directory fs p s).1 q ≡ content s q
  create_directory_keeps s none q n = refl
  create_directory_keeps s (some p) q n = laws.create_dir_all_keeps s p q n

  pub rename_moves_after :
      (s : S) (p : Result (Unit {0}) × S) (from to q : FilePath)
      → ((r : FilePath) → IsNormal r → content p.1 r ≡ content s r)
      → IsNormal from
      → IsNormal to
      → IsNormal q
      → is_some (content s from) ≡ true
      → content (continue p (λ _. fs.rename from to)).1 q ≡ (
          if is_ok (continue p (λ _. fs.rename from to)).0
          then renamed (content s) from to q
          else content s q)
  rename_moves_after s (ok u, t) from to q same nf nt nq file = ground (
    arith,
    laws.rename_moves t from to q nf nt nq (rw (same from nf) file),
    same from nf,
    same q nq,
  )
  rename_moves_after s (err e, t) from to q same nf nt nq file = same q nq

  sync_after :
      (p : Result (Unit {0}) × S) (path q : FilePath)
      → IsNormal q
      → is_ok (continue p (λ _. fs.sync_all path)).0 ≡ true
      → (is_ok p.0 ≡ true) × (content (continue p (λ _. fs.sync_all path)).1 q ≡ content p.1 q)
  sync_after (ok u, s) path q nq done = (refl, laws.sync_all_keeps s path q nq)
  sync_after (err e, s) path q nq done = (done, refl)

  write_all_lem :
      (s : S) (path q : FilePath) (bytes : Bytes)
      → IsNormal path
      → IsNormal q
      → content s path ≡ some []
      → is_ok (fs.write_all path bytes s).0 ≡ true
      → content (fs.write_all path bytes s).1 q ≡ holding (content s) path bytes q
  write_all_lem s path q bytes np nq empty done = elim (Bool-cases (path == q)) [
    | inl here ↦
        rw (here, sym ((list_beq_iff path q).0 here))
          (laws.write_all_fills s path bytes np empty done)
    | inr there ↦ rw there (laws.write_all_keeps s path q bytes np nq there)
  ]

  fill_after :
      (p : Result (Unit {0}) × S) (path q : FilePath) (bytes : Bytes)
      → IsNormal path
      → IsNormal q
      → (is_ok p.0 ≡ true → content p.1 path ≡ some [])
      → is_ok (continue p (λ _. fs.write_all path bytes >> fs.sync_all path)).0 ≡ true
      → (is_ok p.0 ≡ true)
        × (content (continue p (λ _. fs.write_all path bytes >> fs.sync_all path)).1 q
            ≡ holding (content p.1) path bytes q)
  fill_after (ok u, s) path q bytes np nq empty done =
      let (filled, synced) = sync_after (fs.write_all path bytes s) path q nq done in
      (refl, synced ∙ write_all_lem s path q bytes np nq (empty refl) filled)
  fill_after (err e, s) path q bytes np nq empty done = (done, cc done)

  holding_over :
      (c d : Contents) (path q : FilePath) (bytes : Bytes)
      → d q ≡ holding c path [] q
      → holding d path bytes q ≡ holding c path bytes q
  holding_over c d path q bytes h = ground arith

  pub write_after :
      (s : S) (p : Result (Unit {0}) × S) (path q : FilePath) (bytes : Bytes)
      → ((r : FilePath) → IsNormal r → content p.1 r ≡ content s r)
      → IsNormal path
      → IsNormal q
      → is_ok (continue p (λ _. fs.create path >> (fs.write_all path bytes >> fs.sync_all path))).0
        ≡ true
      → content
          (continue p (λ _. fs.create path >> (fs.write_all path bytes >> fs.sync_all path))).1
          q
        ≡ holding (content s) path bytes q
  write_after s (ok u, t) path q bytes same np nq done =
      let created = fs.create path t in
      let (made, filled) =
        fill_after created path q bytes np nq
          (λ made. rw (laws.create_empties t path path np np, made, beq_refl path)) done in
      filled
      ∙ holding_over (content s) (content created.1) path q bytes
          (rw (laws.create_empties t path q np nq, made) (ground (arith, same q nq)))
  write_after s (err e, t) path q bytes same np nq done = absurd (ground arith)
