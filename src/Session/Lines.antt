-- ===== src/Session/Lines.antt =====
-- How the loop of session.rs cuts a line into tag and command line.
use scuttled.Prelude.{ℕ, Bool, false, Option, [], ◌∷◌, if◌then◌else◌, nat_eq}
use scuttled.Text.{Text, space, newline, carriage_return, split_once}

-- `ends_with(c)` and `pop()`
unfoldable pub pop_if_last : ℕ → Text → Text
pop_if_last q [] = []
pop_if_last q (c ∷ []) = if nat_eq c q then [] else c ∷ []
pop_if_last q (c ∷ d ∷ s) = c ∷ pop_if_last q (d ∷ s)

unfoldable pub ends_in : ℕ → Text → Bool
ends_in q [] = false
ends_in q (c ∷ []) = nat_eq c q
ends_in q (c ∷ d ∷ s) = ends_in q (d ∷ s)

-- A carriage return is taken off only before a newline.
unfoldable pub strip_newline : Text → Text
unfolding pop_if_last ends_in
strip_newline line =
    if ends_in newline line then pop_if_last carriage_return (pop_if_last newline line) else line

-- `splitn(2, ' ')`: the tag and the command line.
unfoldable pub tag_and_command : Text → Option (Text × Text)
unfolding strip_newline split_once
tag_and_command line = split_once (strip_newline line) space
