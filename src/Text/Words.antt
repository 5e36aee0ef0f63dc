-- ===== src/Text/Words.antt =====
-- `split_whitespace` and `join`: what the words of a line are, and that joining words and splitting
-- the line again gives the words back.
use scuttled.Prelude.{
  ℕ, ◌≡◌, refl, true, false, List, [], ◌∷◌, ◌++◌, All, ap, ◌∙◌, Bool-cases, inl, inr,
}
use scuttled.Text.{Text, space, is_whitespace, begins_word, extend_word, split_whitespace, join}

abbrev pub HasNoSpace : Text → Type 0
HasNoSpace s = All (λ c. is_whitespace c ≡ false) s

-- A non-empty text without white space.
abbrev pub IsWord : Text → Type 0
IsWord [] = ⊥
IsWord (c ∷ s) = HasNoSpace (c ∷ s)

-- Splitting yields words.
pub split_whitespace-IsWord : (s : Text) → All IsWord (split_whitespace s)
unfolding split_whitespace
split_whitespace-IsWord [] = tt
split_whitespace-IsWord (c ∷ s) = elim (Bool-cases (is_whitespace c)) [
  | inl blank ↦ rw blank (split_whitespace-IsWord s)
  | inr solid ↦
      rw solid (extend (begins_word s) (split_whitespace s) solid (split_whitespace-IsWord s))
]
  where
    extend :
        (b : _) (ws : List Text)
        → is_whitespace c ≡ false
        → All IsWord ws
        → All IsWord (extend_word b c ws)
    extend true [] h a = ((h, tt), tt)
    extend true ([] ∷ ws) h a = absurd a.0
    extend true ((d ∷ w) ∷ ws) h a = ((h, a.0), a.1)
    extend false ws h a = ((h, tt), a)

begins_word-append : (w s : Text) → IsWord w → begins_word (w ++ s) ≡ true
unfolding begins_word
begins_word-append [] s h = absurd h
begins_word-append (c ∷ w) s h = rw h.0

split_whitespace_extend :
    (c : ℕ) (s w : Text) (ws : List Text)
    → is_whitespace c ≡ false
    → begins_word s ≡ true
    → split_whitespace s ≡ w ∷ ws
    → split_whitespace (c ∷ s) ≡ (c ∷ w) ∷ ws
unfolding split_whitespace
split_whitespace_extend c s w ws h b e = rw (h, b, e)

-- A word before white space is the first word of the line.
pub split_whitespace-append :
    (w : Text) (blank : ℕ) (s : Text)
    → IsWord w
    → is_whitespace blank ≡ true
    → split_whitespace (w ++ blank ∷ s) ≡ w ∷ split_whitespace s
unfolding split_whitespace
split_whitespace-append [] blank s h b = absurd h
split_whitespace-append (c ∷ []) blank s h b = rw (b, h.0)
split_whitespace-append (c ∷ d ∷ w) blank s h b =
    split_whitespace_extend c (d ∷ (w ++ blank ∷ s)) (d ∷ w) (split_whitespace s) h.0
      (begins_word-append (d ∷ w) (blank ∷ s) h.1) (split_whitespace-append (d ∷ w) blank s h.1 b)

pub split_whitespace_word : (w : Text) → IsWord w → split_whitespace w ≡ w ∷ []
unfolding split_whitespace
split_whitespace_word [] h = absurd h
split_whitespace_word (c ∷ []) h = rw h.0
split_whitespace_word (c ∷ d ∷ w) h =
    split_whitespace_extend c (d ∷ w) (d ∷ w) [] h.0 (unfold begins_word in rw h.1.0)
      (split_whitespace_word (d ∷ w) h.1)

-- Words joined by single spaces are split into the same words.
pub split_whitespace-join :
    (ws : List Text) → All IsWord ws → split_whitespace (join (space ∷ []) ws) ≡ ws
unfolding join is_whitespace
split_whitespace-join [] h = unfold split_whitespace in refl
split_whitespace-join (w ∷ []) h = split_whitespace_word w h.0
split_whitespace-join (w ∷ v ∷ ws) h =
    split_whitespace-append w space (join (space ∷ []) (v ∷ ws)) h.0 refl
    ∙ ap (◌∷◌ w) (split_whitespace-join (v ∷ ws) h.1)
