-- ===== src/Mailstore/Maildir/Flags.antt =====
-- mailstore/watcher/maildir.rs: the flags that a file name carries are the storable ones of the list
-- it was written from.
use scuttled.Prelude.{
  ℕ, Bool, true, false, ◌&&◌, ◌||◌, ◌≡◌, refl, ◌∙◌, Option, none, some, List, [], ◌∷◌, arith,
  is_some, contains, All, nat_key, nat_eq,
}
use scuttled.Text.{Text}
use scuttled.Types.{MessageFlag}
use scuttled.Types.Flags.{flag_beq, flag_key}
use scuttled.Mailstore.Maildir.{
  flag_of_char, push, parse_flags, char_of_flag, flag_chars, insert_sorted, sort,
}

contains-insert_sorted :
    (c d : ℕ) (s : Text) → contains (insert_sorted c s) d ≡ (nat_eq c d || contains s d)
unfolding insert_sorted
contains-insert_sorted c d [] = ground arith
contains-insert_sorted c d (e ∷ s) = ground (arith, contains-insert_sorted c d s)

contains-sort : (s : Text) (d : ℕ) → contains (sort s) d ≡ contains s d
unfolding sort
contains-sort [] d = refl
contains-sort (c ∷ s) d = rw (contains-insert_sorted c d (sort s), contains-sort s d)

-- Is the flag's letter in the text?
abbrev has : Option ℕ → Text → Bool
has none s = false
has (some c) s = contains s c

contains-parse_flags :
    (f : MessageFlag) (s : Text) → contains (parse_flags s) f ≡ has (char_of_flag f) s
unfolding parse_flags flag_of_char flag_beq char_of_flag
contains-parse_flags MessageFlag.seen [] = refl
contains-parse_flags MessageFlag.answered [] = refl
contains-parse_flags MessageFlag.flagged [] = refl
contains-parse_flags MessageFlag.deleted [] = refl
contains-parse_flags MessageFlag.draft [] = refl
contains-parse_flags MessageFlag.recent [] = refl
contains-parse_flags (MessageFlag.custom t) [] = refl
contains-parse_flags MessageFlag.seen (c ∷ s) =
    ground (arith, contains-parse_flags MessageFlag.seen s)
contains-parse_flags MessageFlag.answered (c ∷ s) =
    ground (arith, contains-parse_flags MessageFlag.answered s)
contains-parse_flags MessageFlag.flagged (c ∷ s) =
    ground (arith, contains-parse_flags MessageFlag.flagged s)
contains-parse_flags MessageFlag.deleted (c ∷ s) =
    ground (arith, contains-parse_flags MessageFlag.deleted s)
contains-parse_flags MessageFlag.draft (c ∷ s) =
    ground (arith, contains-parse_flags MessageFlag.draft s)
contains-parse_flags MessageFlag.recent (c ∷ s) =
    ground (arith, contains-parse_flags MessageFlag.recent s)
contains-parse_flags (MessageFlag.custom t) (c ∷ s) =
    ground (arith, contains-parse_flags (MessageFlag.custom t) s)

-- Maildir has a letter for every flag but \Recent and the custom ones.
abbrev pub is_storable : MessageFlag → Bool
unfolding char_of_flag
is_storable f = is_some (char_of_flag f)

and_false : (b : Bool) → (b && false) ≡ false
and_false true = refl
and_false false = refl

has-nil : (c : Option ℕ) → has c [] ≡ false
has-nil none = refl
has-nil (some c) = refl

has-push :
    (f g : MessageFlag) (s : Text)
    → has (char_of_flag f) (push (char_of_flag g) s)
      ≡ ((flag_beq g f && is_storable f) || has (char_of_flag f) s)
unfolding char_of_flag flag_beq
has-push MessageFlag.recent g s = rw (and_false (flag_beq g MessageFlag.recent))
has-push (MessageFlag.custom t) g s = rw (and_false (flag_beq g (MessageFlag.custom t)))
has-push f g s = ground arith

has-flag_chars :
    (f : MessageFlag) (fs : List MessageFlag)
    → has (char_of_flag f) (flag_chars fs) ≡ (contains fs f && is_storable f)
unfolding flag_chars
has-flag_chars f [] = has-nil (char_of_flag f)
has-flag_chars f (g ∷ fs) = ground (arith, has-push f g (flag_chars fs), has-flag_chars f fs)

has-sort : (c : Option ℕ) (s : Text) → has c (sort s) ≡ has c s
has-sort none s = refl
has-sort (some c) s = contains-sort s c

-- Reading back the sorted letters of a list of flags finds the storable flags of the list.
pub contains-parse_flags-sort :
    (fs : List MessageFlag) (f : MessageFlag)
    → contains (parse_flags (sort (flag_chars fs))) f ≡ (contains fs f && is_storable f)
contains-parse_flags-sort fs f =
    contains-parse_flags f (sort (flag_chars fs))
    ∙ has-sort (char_of_flag f) (flag_chars fs)
    ∙ has-flag_chars f fs

-- The letters are no separators of paths.
insert_sorted_plain :
    (c : ℕ) (s : Text)
    → nat_eq b'/' c ≡ false
    → All (λ d. nat_eq b'/' d ≡ false) s
    → All (λ d. nat_eq b'/' d ≡ false) (insert_sorted c s)
unfolding insert_sorted
insert_sorted_plain c [] p h = (p, tt)
insert_sorted_plain c (d ∷ s) p h = ground (arith, p, h.0, h.1, insert_sorted_plain c s p h.1)

sort_plain :
    (s : Text) → All (λ d. nat_eq b'/' d ≡ false) s → All (λ d. nat_eq b'/' d ≡ false) (sort s)
unfolding sort
sort_plain [] h = tt
sort_plain (c ∷ s) h = insert_sorted_plain c (sort s) h.0 (sort_plain s h.1)

push_plain :
    (f : MessageFlag) (s : Text)
    → All (λ d. nat_eq b'/' d ≡ false) s
    → All (λ d. nat_eq b'/' d ≡ false) (push (char_of_flag f) s)
unfolding char_of_flag
push_plain f s h = ground (arith, h)

flag_chars_plain : (fs : List MessageFlag) → All (λ d. nat_eq b'/' d ≡ false) (flag_chars fs)
unfolding flag_chars
flag_chars_plain [] = tt
flag_chars_plain (f ∷ fs) = push_plain f (flag_chars fs) (flag_chars_plain fs)

pub letters_plain :
    (fs : List MessageFlag) → All (λ d. nat_eq b'/' d ≡ false) (sort (flag_chars fs))
letters_plain fs = sort_plain (flag_chars fs) (flag_chars_plain fs)
