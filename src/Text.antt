-- ===== src/Text.antt =====
-- Rust's `str` and `char` operations that the sources use, over texts as lists of code points:
-- `split_whitespace`, `trim`, `trim_matches`, `join`, `starts_with`, `ends_with`, `contains`, `find`,
-- `splitn(2, ' ')`, `to_uppercase`, `eq_ignore_ascii_case` and the decimal form of a number.
-- Beyond ASCII the table of upper case letters is an argument.
pub mod Words
pub mod Trim
use Prim.Native.Char.{code}
use scuttled.Prelude.{
  ℕ, zero, suc, ◌+◌, ◌-◌, ◌/◌, ◌%◌, String, Bool, true, false, ◌&&◌, ◌||◌, Option, none, some, List,
  [], ◌∷◌, ◌++◌, ltb, leb, nat_eq, if◌then◌else◌, is_empty, ◌==◌, list_key, nat_key, list_beq,
}

abbrev pub Text : Type 0
Text = List ℕ

codes : String → Text
codes String.[] = []
codes (String.◌∷◌ c s) = code c ∷ codes s

-- A literal of the source.
unfoldable pub text : String → Text
unfolding codes
text s = codes s

abbrev pub space : ℕ
space = 32

abbrev pub newline : ℕ
newline = 10

abbrev pub carriage_return : ℕ
carriage_return = 13

abbrev pub double_quote : ℕ
double_quote = 34

-- `char::is_whitespace`: Unicode's White_Space.
unfoldable pub is_whitespace : ℕ → Bool
is_whitespace c =
    nat_eq c 32
    || (leb 9 c && leb c 13)
    || nat_eq c 0x85
    || nat_eq c 0xA0
    || nat_eq c 0x1680
    || (leb 0x2000 c && leb c 0x200A)
    || nat_eq c 0x2028
    || nat_eq c 0x2029
    || nat_eq c 0x202F
    || nat_eq c 0x205F
    || nat_eq c 0x3000

-- Does a word go on at the head of the text?
unfoldable pub begins_word : Text → Bool
begins_word [] = false
begins_word (c ∷ s) = if is_whitespace c then false else true

unfoldable pub extend_word : Bool → ℕ → List Text → List Text
extend_word true c (w ∷ ws) = (c ∷ w) ∷ ws
extend_word _ c ws = (c ∷ []) ∷ ws

unfoldable pub split_whitespace : Text → List Text
unfolding begins_word extend_word
split_whitespace [] = []
split_whitespace (c ∷ s) =
    let words = split_whitespace s in
    if is_whitespace c then words else extend_word (begins_word s) c words

unfoldable pub trim_start_by : (ℕ → Bool) → Text → Text
trim_start_by p [] = []
trim_start_by p (c ∷ s) = let rest = trim_start_by p s in if p c then rest else c ∷ s

unfoldable pub trim_end_by : (ℕ → Bool) → Text → Text
trim_end_by p [] = []
trim_end_by p (c ∷ s) = let rest = trim_end_by p s in if is_empty rest && p c then [] else c ∷ rest

unfoldable pub trim : Text → Text
unfolding trim_start_by trim_end_by is_whitespace
trim s = trim_end_by is_whitespace (trim_start_by is_whitespace s)

-- `trim_matches(q)` for a character `q`.
unfoldable pub trim_matches : ℕ → Text → Text
unfolding trim_start_by trim_end_by
trim_matches q s = trim_end_by (nat_eq q) (trim_start_by (nat_eq q) s)

unfoldable pub join : Text → List Text → Text
join sep [] = []
join sep (w ∷ []) = w
join sep (w ∷ v ∷ ws) = w ++ (sep ++ join sep (v ∷ ws))

unfoldable pub starts_with : Text → Text → Bool
starts_with s [] = true
starts_with [] (d ∷ p) = false
starts_with (c ∷ s) (d ∷ p) = nat_eq c d && starts_with s p

unfoldable pub ends_with : Text → Text → Bool
unfolding list_beq
ends_with [] p = is_empty p
ends_with (c ∷ s) p = (c ∷ s) == p || ends_with s p

-- `contains` of a text.
unfoldable pub contains_text : Text → Text → Bool
unfolding starts_with
contains_text [] p = is_empty p
contains_text (c ∷ s) p = starts_with (c ∷ s) p || contains_text s p

-- `contains` of a character.
unfoldable pub contains_char : Text → ℕ → Bool
contains_char [] q = false
contains_char (c ∷ s) q = nat_eq c q || contains_char s q

abbrev pub after_head : ℕ → Option (Text × Text) → Option (Text × Text)
after_head c none = none
after_head c (some (before, rest)) = some (c ∷ before, rest)

-- The text before the first occurrence of `p`, and the text from there on: `find` and `split_at`.
unfoldable pub split_at_text : Text → Text → Option (Text × Text)
unfolding starts_with
split_at_text [] p = if is_empty p then some ([], []) else none
split_at_text (c ∷ s) p =
    let later = after_head c (split_at_text s p) in
    if starts_with (c ∷ s) p then some ([], c ∷ s) else later

-- `splitn(2, q)`, where it yields two parts: what stands before and behind the first `q`.
unfoldable pub split_once : Text → ℕ → Option (Text × Text)
split_once [] q = none
split_once (c ∷ s) q =
    let later = after_head c (split_once s q) in if nat_eq c q then some ([], s) else later

unfoldable pub is_ascii_lowercase : ℕ → Bool
is_ascii_lowercase c = leb b'a' c && leb c b'z'

unfoldable pub to_ascii_uppercase : ℕ → ℕ
unfolding is_ascii_lowercase
to_ascii_uppercase c = if is_ascii_lowercase c then c - 32 else c

-- `str::to_uppercase`, with Unicode's table beyond ASCII.
unfoldable pub to_uppercase : (ℕ → Text) → Text → Text
unfolding to_ascii_uppercase
to_uppercase upper [] = []
to_uppercase upper (c ∷ s) =
    (if ltb c 128 then to_ascii_uppercase c ∷ [] else upper c) ++ to_uppercase upper s

unfoldable pub eq_ignore_ascii_case : Text → Text → Bool
unfolding to_ascii_uppercase
eq_ignore_ascii_case [] [] = true
eq_ignore_ascii_case (c ∷ s) (d ∷ t) =
    nat_eq (to_ascii_uppercase c) (to_ascii_uppercase d) && eq_ignore_ascii_case s t
eq_ignore_ascii_case _ _ = false

digits : ℕ → ℕ → Text → Text
digits zero n acc = acc
digits (suc fuel) n acc =
    let digit = 48 + n % 10 in
    let rest = digits fuel (n / 10) (digit ∷ acc) in if ltb n 10 then digit ∷ acc else rest

-- The decimal form of a `u32` or a `usize`: at most twenty digits.
unfoldable pub decimal : ℕ → Text
unfolding digits
decimal n = digits 20 n []
