-- ===== src/Examples/Wildcards.antt =====
-- handlers/list.rs at the pattern `Work`, alone and with a star.
use scuttled.Prelude.{Bool, ◌&&◌, ◌||◌, ◌≡◌, refl, Option, none, [], ◌∷◌, ◌++◌}
use scuttled.Text.{Text, text, eq_ignore_ascii_case}
use scuttled.Mailboxes.Memory.Listing.{matches_filter}
use scuttled.Handlers.Patterns.{star, pattern_to_filter, imap_pattern_to_regex}
use scuttled.Handlers.Patterns.Matching.{matches, pattern_to_filter-matches}

abbrev no_regex : Text → Option (Text → Bool)
no_regex pattern = none

regex_of : imap_pattern_to_regex (text "Test*Foo%B.r") ≡ text "^Test.*Foo[^/]*B\\.r$"
unfolding imap_pattern_to_regex text
regex_of = refl

pattern_to_filter-matches_example :
    (matches_filter no_regex (pattern_to_filter (text "Work" ++ star ∷ [])) (text "Work/2024")
      ≡ matches (text "Work" ++ star ∷ []) (text "Work/2024"))
    × (matches_filter no_regex (pattern_to_filter (star ∷ text "Work")) (text "Work/2024")
        ≡ matches (star ∷ text "Work") (text "Work/2024"))
    × (matches_filter no_regex (pattern_to_filter (text "Work")) (text "Work/2024") ≡ (
        matches (text "Work") (text "Work/2024")
        || (eq_ignore_ascii_case (text "Work/2024") (text "INBOX")
            && eq_ignore_ascii_case (text "Work") (text "INBOX"))))
unfolding text
pattern_to_filter-matches_example =
    pattern_to_filter-matches no_regex (text "Work") (text "Work/2024")
      ((refl, refl), ((refl, refl), ((refl, refl), ((refl, refl), tt))))
