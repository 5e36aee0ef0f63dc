-- ===== src/Mailboxes/Memory/Listing.antt =====
-- `list_mailboxes` of mailboxes/impl/memory.rs. The `regex` crate is the argument `compile`: a
-- pattern's test, or nothing where the pattern is invalid.
use scuttled.Prelude.{
  Bool, true, false, ◌&&◌, Option, none, some, List, map, if◌then◌else◌, ◌==◌, list_key, nat_key,
  keep,
}
use scuttled.Text.{Text, text, starts_with, ends_with, eq_ignore_ascii_case}
use scuttled.Error.{Result, ok}
use scuttled.Mailboxes.{MailboxFilter, MailboxInfo}
use scuttled.Mailboxes.Memory.{MailboxState}

-- INBOX is case-insensitive.
unfoldable pub matches_exact : Text → Text → Bool
unfolding eq_ignore_ascii_case
matches_exact pattern name =
    if eq_ignore_ascii_case name (text "INBOX") && eq_ignore_ascii_case pattern (text "INBOX")
    then true
    else name == pattern

module _ (compile : Text → Option (Text → Bool)) where
  -- The test of one branch of the `match` on the filter.
  unfoldable pub matches_filter : MailboxFilter → Text → Bool
  unfolding matches_exact starts_with ends_with
  matches_filter MailboxFilter.all name = true
  matches_filter (MailboxFilter.exact pattern) name = matches_exact pattern name
  matches_filter (MailboxFilter.prefix prefix) name = starts_with name prefix
  matches_filter (MailboxFilter.suffix suffix) name = ends_with name suffix
  matches_filter (MailboxFilter.regex pattern) name = elim (compile pattern) [
    | none ↦ false
    | some is_match ↦ is_match name
  ]

  unfoldable pub list_mailboxes : MailboxState → Text → MailboxFilter → Result (List MailboxInfo)
  unfolding matches_filter
  list_mailboxes s username filter = ok (
      keep (λ info. matches_filter filter info.id.name)
        (map (λ entry. entry.1) (keep (λ entry. entry.0.0 == username) s.mailboxes)))
