-- ===== src/Handlers/Patterns.antt =====
-- The patterns of handlers/list.rs: which filter stands for a pattern, and its regular expression.
pub mod Matching
use scuttled.Prelude.{
  ℕ, Bool, true, false, not, ◌&&◌, ◌||◌, List, [], ◌∷◌, ◌++◌, if◌then◌else◌, ◌==◌, list_key,
  nat_key, list_beq, nat_eq, is_empty, contains,
}
use scuttled.Text.{Text, text, contains_char}
use scuttled.Mailboxes.{MailboxFilter}

abbrev pub star : ℕ
star = b'*'

abbrev pub percent : ℕ
percent = b'%'

-- `&pattern[..pattern.len() - 1]`
unfoldable pub all_but_last : Text → Text
all_but_last [] = []
all_but_last (c ∷ []) = []
all_but_last (c ∷ d ∷ s) = c ∷ all_but_last (d ∷ s)

unfoldable pub ends_with_char : Text → ℕ → Bool
ends_with_char [] q = false
ends_with_char (c ∷ []) q = nat_eq c q
ends_with_char (c ∷ d ∷ s) q = ends_with_char (d ∷ s) q

unfoldable pub starts_with_char : Text → ℕ → Bool
starts_with_char [] q = false
starts_with_char (c ∷ s) q = nat_eq c q

-- `&pattern[1..]`
abbrev pub all_but_first : Text → Text
all_but_first [] = []
all_but_first (c ∷ s) = s

unfoldable pub escape : ℕ → Text
unfolding contains_char
escape ch =
    if nat_eq ch star
    then text ".*"
    else if nat_eq ch percent
    then text "[^/]*"
    else if contains_char (text ".+?^$()[]{}|\\") ch
    then b'\\' ∷ ch ∷ []
    else ch ∷ []

unfoldable pub escape_all : Text → Text
unfolding escape
escape_all [] = []
escape_all (ch ∷ s) = escape ch ++ escape_all s

unfoldable pub imap_pattern_to_regex : Text → Text
unfolding escape_all
imap_pattern_to_regex pattern = text "^" ++ escape_all pattern ++ text "$"

unfoldable pub pattern_to_filter : Text → MailboxFilter
unfolding list_beq contains_char all_but_last ends_with_char starts_with_char imap_pattern_to_regex
pattern_to_filter pattern =
    if pattern == text "*"
    then MailboxFilter.all
    else if not (contains_char pattern star) && not (contains_char pattern percent)
    then MailboxFilter.exact pattern
    else if ends_with_char pattern star
        && not (contains_char (all_but_last pattern) star)
        && not (contains_char pattern percent)
    then MailboxFilter.prefix (all_but_last pattern)
    else if starts_with_char pattern star
        && not (contains_char (all_but_first pattern) star)
        && not (contains_char pattern percent)
    then MailboxFilter.suffix (all_but_first pattern)
    else MailboxFilter.regex (imap_pattern_to_regex pattern)
