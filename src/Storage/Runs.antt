-- ===== src/Storage/Runs.antt =====
-- The writer loop of storage.rs over filesystem_store.rs implements its commands on the map from paths to
-- contents.
use scuttled.Prelude.{◌≡◌, list_key, nat_key}
use scuttled.Mailstore.{FilePath}
use scuttled.Files.Laws.{IsNormal}
use scuttled.Storage.Contents.{Contents}

-- Two contents agree where there is no `..`.
abbrev Agree : Contents → Contents → Type 0
Agree c d = (q : FilePath) → IsNormal q → c q ≡ d q
