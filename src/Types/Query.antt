-- ===== src/Types/Query.antt =====
-- `SearchQuery` of types.rs.
use scuttled.Prelude.{ℕ, List}
use scuttled.Text.{Text}

pub data SearchQuery : Type 0 where
  all : SearchQuery
  text from to subject body : Text → SearchQuery
  uid sequence : List ℕ → SearchQuery
  seen unseen flagged unflagged deleted undeleted : SearchQuery
  and or : SearchQuery → SearchQuery → SearchQuery
  not : SearchQuery → SearchQuery
