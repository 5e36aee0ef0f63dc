-- ===== src/Text/Trim.antt =====
-- `trim` and `trim_matches`: a text without the trimmed characters is left alone, and quotes round
-- a text are taken off.
use scuttled.Prelude.{ℕ, ◌≡◌, refl, Bool, true, false, [], ◌∷◌, ◌++◌, All, arith, nat_eq, ◌∙◌}
use scuttled.Text.{Text, is_whitespace, trim_start_by, trim_end_by, trim, trim_matches}
use scuttled.Text.Words.{IsWord}

module _ (p : ℕ → Bool) where
  abbrev pub HasNone : Text → Type 0
  HasNone s = All (λ c. p c ≡ false) s

  trim_start_by_none : (s : Text) → HasNone s → trim_start_by p s ≡ s
  unfolding trim_start_by
  trim_start_by_none [] h = refl
  trim_start_by_none (c ∷ s) h = rw h.0

  trim_end_by_none : (s : Text) → HasNone s → trim_end_by p s ≡ s
  unfolding trim_end_by
  trim_end_by_none [] h = refl
  trim_end_by_none (c ∷ s) h = rw (trim_end_by_none s h.1, h.0) (ground arith)

  trim_end_by-append :
      (s : Text) (c : ℕ) → p c ≡ true → trim_end_by p (s ++ c ∷ []) ≡ trim_end_by p s
  unfolding trim_end_by
  trim_end_by-append [] c h = rw h
  trim_end_by-append (d ∷ s) c h = rw (trim_end_by-append s c h)

pub trim_matches_none : (q : ℕ) (s : Text) → HasNone (nat_eq q) s → trim_matches q s ≡ s
unfolding trim_matches
trim_matches_none q s h = rw (trim_start_by_none (nat_eq q) s h) (trim_end_by_none (nat_eq q) s h)

nat_eq_refl : (q : ℕ) → nat_eq q q ≡ true
nat_eq_refl q = ground arith

-- Quotes round a text without quotes come off.
pub trim_matches_quoted :
    (q : ℕ) (s : Text) → HasNone (nat_eq q) s → trim_matches q (q ∷ s ++ q ∷ []) ≡ s
unfolding trim_matches
trim_matches_quoted q [] h = rw nat_eq_refl
trim_matches_quoted q (c ∷ s) h =
    rw (nat_eq_refl q, h.0)
      (trim_end_by-append (nat_eq q) (c ∷ s) q (nat_eq_refl q)
        ∙ trim_end_by_none (nat_eq q) (c ∷ s) h)

pub trim_word : (w : Text) → IsWord w → trim w ≡ w
unfolding trim
trim_word [] h = absurd h
trim_word (c ∷ w) h =
    rw (trim_start_by_none is_whitespace (c ∷ w) h) (trim_end_by_none is_whitespace (c ∷ w) h)
