-- ===== src/Index/Memory/Searches.antt =====
-- What searches of index/impl/inmemory.rs find.
use scuttled.Prelude.{ℕ, List, [], length, nat_key}
use scuttled.Text.{Text}
use scuttled.Error.{Result, ok, err}

abbrev pub paths_of : Result (List Text) → List Text
paths_of (ok paths) = paths
paths_of (err e) = []

-- How many messages a result holds.
abbrev pub count : Result (List Text) → ℕ
count r = length (paths_of r)
