-- ===== src/Session/Tags.antt =====
-- `TagHistory` of session.rs.
pub mod History
use scuttled.Prelude.{
  ℕ, Bool, true, false, List, [], ◌∷◌, ◌++◌, if◌then◌else◌, leb, length, list_key, nat_key,
  contains,
}
use scuttled.Text.{Text, text}
use scuttled.Error.{Error, Result, ok, err}

pub record TagHistory : Type 0 where
  pub tags : List Text
  pub max_size : ℕ

unfoldable pub new : ℕ → TagHistory
new max_size = record { tags = []; max_size = max_size }

-- `DEFAULT_MAX_TAG_HISTORY`
abbrev pub default_max_tag_history : ℕ
default_max_tag_history = 10000

abbrev pub with_default_max : TagHistory
with_default_max = new default_max_tag_history

unfoldable pub register : TagHistory → Text → Result (Unit {0}) × TagHistory
register h tag =
    if contains h.tags tag
    then (err (Error.protocol_error (text "Duplicate tag: " ++ tag)), h)
    else if leb h.max_size (length h.tags)
    then (err (Error.protocol_error (text "Maximum tag history exceeded")), h)
    else (ok tt, record h { tags = tag ∷ h.tags })

unfoldable pub clear : TagHistory → TagHistory
clear h = record h { tags = [] }
