-- ===== src/Handlers/Patterns/Matching.antt =====
-- The filters that handlers/list.rs makes of simple patterns select what IMAP's wildcards select.
use scuttled.Prelude.{
  ℕ, Bool, true, false, not, ◌&&◌, ◌||◌, ◌≡◌, refl, sym, ◌∙◌, ap, Option, [], ◌∷◌, ◌++◌,
  if◌then◌else◌, arith, ◌==◌, list_key, nat_key, list_beq, nat_eq, is_empty, All,
}
use scuttled.Text.{Text, text, contains_char, starts_with, ends_with, eq_ignore_ascii_case}
use scuttled.Mailboxes.{MailboxFilter}
use scuttled.Mailboxes.Memory.Listing.{matches_filter, matches_exact}
use scuttled.Handlers.Patterns.{
  star, percent, all_but_last, all_but_first, ends_with_char, starts_with_char, pattern_to_filter,
}

-- Does a test hold of the name, or of what is left of it behind characters that pass `p`?
abbrev pub at_some_suffix : (ℕ → Bool) → (Text → Bool) → Text → Bool
at_some_suffix p test [] = test []
at_some_suffix p test (d ∷ name) =
    let later = at_some_suffix p test name in test (d ∷ name) || (p d && later)

abbrev pub head_is : ℕ → (Text → Bool) → Text → Bool
head_is c test [] = false
head_is c test (d ∷ name) = nat_eq c d && test name

-- RFC 3501, section 6.3.8: `*` stands for any characters, `%` for any but the hierarchy delimiter.
pub matches : Text → Text → Bool
matches [] name = is_empty name
matches (c ∷ pattern) name =
    let rest = matches pattern in
    if nat_eq c star
    then at_some_suffix (λ d. true) rest name
    else if nat_eq c percent
    then at_some_suffix (λ d. not (nat_eq d b'/')) rest name
    else head_is c rest name

abbrev pub IsPlain : Text → Type 0
IsPlain p = All (λ c. (nat_eq c star ≡ false) × (nat_eq c percent ≡ false)) p

matches_plain : (p name : Text) → IsPlain p → matches p name ≡ (name == p)
unfolding matches list_beq
matches_plain [] [] h = refl
matches_plain [] (d ∷ name) h = refl
matches_plain (c ∷ p) [] h = ground (arith, h.0)
matches_plain (c ∷ p) (d ∷ name) h = ground (arith, h.0, matches_plain p name h.1)

matches-star : (name : Text) → matches (star ∷ []) name ≡ true
unfolding matches
matches-star [] = refl
matches-star (d ∷ name) = matches-star name

matches_prefix : (p name : Text) → IsPlain p → matches (p ++ star ∷ []) name ≡ starts_with name p
unfolding starts_with matches
matches_prefix [] name h = matches-star name
matches_prefix (c ∷ p) [] h = ground (arith, h.0)
matches_prefix (c ∷ p) (d ∷ name) h = ground (arith, h.0, matches_prefix p name h.1)

empty_is : (q : Text) → ([] == q) ≡ is_empty q
unfolding list_beq
empty_is [] = refl
empty_is (c ∷ q) = refl

at_some_suffix_plain :
    (p name : Text) → IsPlain p → at_some_suffix (λ d. true) (matches p) name ≡ ends_with name p
unfolding ends_with
at_some_suffix_plain p [] h = matches_plain p [] h ∙ empty_is p
at_some_suffix_plain p (d ∷ name) h =
    ground (arith, matches_plain p (d ∷ name) h, at_some_suffix_plain p name h)

matches_suffix : (p name : Text) → IsPlain p → matches (star ∷ p) name ≡ ends_with name p
unfolding matches
matches_suffix p name h = at_some_suffix_plain p name h

-- The filter of a pattern whose only wildcard, if any, is a star at its end or its beginning.
no_star : (p : Text) → IsPlain p → contains_char p star ≡ false
unfolding contains_char
no_star [] h = refl
no_star (c ∷ p) h = ground (arith, h.0, no_star p h.1)

no_percent : (p : Text) → IsPlain p → contains_char p percent ≡ false
unfolding contains_char
no_percent [] h = refl
no_percent (c ∷ p) h = ground (arith, h.0, no_percent p h.1)

contains_char-append :
    (p s : Text) (q : ℕ) → contains_char (p ++ s) q ≡ (contains_char p q || contains_char s q)
unfolding contains_char
contains_char-append [] s q = refl
contains_char-append (c ∷ p) s q = ground (arith, contains_char-append p s q)

all_but_last-append : (p : Text) (c : ℕ) → all_but_last (p ++ c ∷ []) ≡ p
unfolding all_but_last
all_but_last-append [] c = refl
all_but_last-append (d ∷ []) c = refl
all_but_last-append (d ∷ e ∷ p) c = ap (◌∷◌ d) (all_but_last-append (e ∷ p) c)

ends_with_char-append : (p : Text) (c : ℕ) → ends_with_char (p ++ c ∷ []) c ≡ true
unfolding ends_with_char
ends_with_char-append [] c = ground arith
ends_with_char-append (d ∷ []) c = ground arith
ends_with_char-append (d ∷ e ∷ p) c = ends_with_char-append (e ∷ p) c

not_star : (p : Text) → IsPlain p → (p == text "*") ≡ false
unfolding text list_beq
not_star [] h = refl
not_star (c ∷ p) h = ground (arith, h.0)

longer_than_star : (c d : ℕ) (p : Text) → ((c ∷ d ∷ p) == text "*") ≡ false
unfolding text list_beq
longer_than_star c d p = ground arith

pattern_to_filter_exact : (p : Text) → IsPlain p → pattern_to_filter p ≡ MailboxFilter.exact p
unfolding pattern_to_filter
pattern_to_filter_exact p h = ground (arith, not_star p h, no_star p h, no_percent p h)

append_not_star : (c : ℕ) (p : Text) → ((c ∷ p ++ star ∷ []) == text "*") ≡ false
append_not_star c [] = longer_than_star c star []
append_not_star c (d ∷ p) = longer_than_star c d (p ++ star ∷ [])

module _ (q : Text) (longer : (q == text "*") ≡ false) (wild : contains_char q star ≡ true) where
  by_last :
      contains_char q percent ≡ false
      → ends_with_char q star ≡ true
      → contains_char (all_but_last q) star ≡ false
      → pattern_to_filter q ≡ MailboxFilter.prefix (all_but_last q)
  unfolding pattern_to_filter
  by_last a b c = rw (longer, wild, a, b, c)

  by_first :
      contains_char q percent ≡ false
      → ends_with_char q star ≡ false
      → starts_with_char q star ≡ true
      → contains_char (all_but_first q) star ≡ false
      → pattern_to_filter q ≡ MailboxFilter.suffix (all_but_first q)
  unfolding pattern_to_filter
  by_first a b c d = rw (longer, wild, a, b, c, d)

ends_with_char_plain : (p : Text) → IsPlain p → ends_with_char p star ≡ false
unfolding ends_with_char
ends_with_char_plain [] h = refl
ends_with_char_plain (c ∷ []) h = h.0.0
ends_with_char_plain (c ∷ d ∷ p) h = ends_with_char_plain (d ∷ p) h.1

star_has_star : contains_char (star ∷ []) star ≡ true
unfolding contains_char
star_has_star = refl

star_no_percent : contains_char (star ∷ []) percent ≡ false
unfolding contains_char
star_no_percent = refl

module _ (c : ℕ) (p : Text) (h : IsPlain (c ∷ p)) where
  pattern_to_filter_prefix : pattern_to_filter (c ∷ p ++ star ∷ []) ≡ MailboxFilter.prefix (c ∷ p)
  pattern_to_filter_prefix =
      by_last (c ∷ p ++ star ∷ []) (append_not_star c p)
        (contains_char-append (c ∷ p) (star ∷ []) star ∙ rw (no_star (c ∷ p) h, star_has_star))
        (contains_char-append (c ∷ p) (star ∷ []) percent
          ∙ rw (no_percent (c ∷ p) h, star_no_percent))
        (ends_with_char-append (c ∷ p) star)
        (ap (λ s. contains_char s star) (all_but_last-append (c ∷ p) star) ∙ no_star (c ∷ p) h)
      ∙ ap MailboxFilter.prefix (all_but_last-append (c ∷ p) star)

  pattern_to_filter_suffix : pattern_to_filter (star ∷ c ∷ p) ≡ MailboxFilter.suffix (c ∷ p)
  unfolding contains_char ends_with_char starts_with_char
  pattern_to_filter_suffix =
      by_first (star ∷ c ∷ p) (longer_than_star star c p) refl (no_percent (c ∷ p) h)
        (ends_with_char_plain (c ∷ p) h) refl (no_star (c ∷ p) h)

star_is_all : pattern_to_filter (star ∷ []) ≡ MailboxFilter.all
unfolding pattern_to_filter text list_beq
star_is_all = refl

module _ (compile : Text → Option (Text → Bool)) where
  select_prefix :
      (p name : Text)
      → IsPlain p
      → matches_filter compile (pattern_to_filter (p ++ star ∷ [])) name
        ≡ matches (p ++ star ∷ []) name
  unfolding matches_filter
  select_prefix [] name h = rw star_is_all (sym (matches-star name))
  select_prefix (c ∷ p) name h =
      rw (pattern_to_filter_prefix c p h) (sym (matches_prefix (c ∷ p) name h))

  select_suffix :
      (p name : Text)
      → IsPlain p
      → matches_filter compile (pattern_to_filter (star ∷ p)) name ≡ matches (star ∷ p) name
  unfolding matches_filter
  select_suffix [] name h = rw star_is_all (sym (matches-star name))
  select_suffix (c ∷ p) name h =
      rw (pattern_to_filter_suffix c p h) (sym (matches_suffix (c ∷ p) name h))

  select_exact :
      (p name : Text)
      → IsPlain p
      → matches_filter compile (pattern_to_filter p) name ≡ (
          matches p name
          || (eq_ignore_ascii_case name (text "INBOX") && eq_ignore_ascii_case p (text "INBOX")))
  select_exact p name h = rw (pattern_to_filter_exact p h, matches_plain p name h) (exactly p name)
    where
      exactly :
          (p name : Text)
          → matches_filter compile (MailboxFilter.exact p) name ≡ (
              (name == p)
              || (eq_ignore_ascii_case name (text "INBOX")
                  && eq_ignore_ascii_case p (text "INBOX")))
      exactly p name = unfold matches_filter matches_exact in ground arith

  -- For a pattern without wildcards, with one `*` behind it or before it, the filter selects exactly the
  -- names that IMAP's wildcards select, and besides INBOX in any case for INBOX without wildcards. The
  -- pattern itself holds no `*` and no `%`.
  pub pattern_to_filter-matches :
      (p name : Text)
      → IsPlain p
      → (matches_filter compile (pattern_to_filter (p ++ star ∷ [])) name
          ≡ matches (p ++ star ∷ []) name)
        × (matches_filter compile (pattern_to_filter (star ∷ p)) name ≡ matches (star ∷ p) name)
        × (matches_filter compile (pattern_to_filter p) name ≡ (
            matches p name
            || (eq_ignore_ascii_case name (text "INBOX") && eq_ignore_ascii_case p (text "INBOX"))))
  pattern_to_filter-matches p name h =
      (select_prefix p name h, select_suffix p name h, select_exact p name h)
