-- ===== src/Files/Paths.antt =====
-- A relative path whose components are names is read back from its text.
use scuttled.Prelude.{
  false, ◌≡◌, refl, ◌∙◌, ap, List, [], ◌∷◌, ◌++◌, All, arith, ◌==◌, list_key, nat_key, nat_eq,
  list_beq, subst, append-nil,
}
use scuttled.Text.{Text, text, starts_with}
use scuttled.Text.Trim.{HasNone}
use scuttled.Mailstore.{FilePath}
use scuttled.Files.{split_slash, names, path_of, path_text, join}

-- What can name a file in a directory.
abbrev pub IsName : Text → Type 0
IsName w =
    HasNone (nat_eq b'/') w
    × ((w == []) ≡ false)
    × ((w == text ".") ≡ false)
    × ((w == text "..") ≡ false)

split_slash_name : (w : Text) → HasNone (nat_eq b'/') w → split_slash w ≡ w ∷ []
unfolding split_slash
split_slash_name [] h = refl
split_slash_name (c ∷ w) h = ground (arith, split_slash_name w h.1, h.0)

split_slash-append :
    (w s : Text) → HasNone (nat_eq b'/') w → split_slash (w ++ b'/' ∷ s) ≡ w ∷ split_slash s
unfolding split_slash
split_slash-append [] s h = refl
split_slash-append (c ∷ w) s h = ground (arith, split_slash-append w s h.1, h.0)

names-cons : (w : Text) (ws : List Text) → IsName w → names (w ∷ ws) ≡ w ∷ names ws
unfolding names list_beq
names-cons [] ws h = absurd (ground (arith, h.1))
names-cons (c ∷ w) ws h = rw (h.2) refl

name_not_root : (w : Text) → IsName w → (w == text "/") ≡ false
unfolding list_beq text
name_not_root [] h = refl
name_not_root (c ∷ w) h = ground (arith, h.0)

path_text-cons :
    (w v : Text) (path : FilePath)
    → IsName w
    → path_text (w ∷ v ∷ path) ≡ w ++ b'/' ∷ path_text (v ∷ path)
unfolding path_text text
path_text-cons w v path h = rw (name_not_root w h) refl

names-path_text : (path : FilePath) → All IsName path → names (split_slash (path_text path)) ≡ path
unfolding path_text split_slash names
names-path_text [] h = refl
names-path_text (w ∷ []) h = rw (split_slash_name w h.0.0) (names-cons w [] h.0)
names-path_text (w ∷ v ∷ path) h =
    ap (λ t. names (split_slash t)) (path_text-cons w v path h.0)
    ∙ ap names (split_slash-append w (path_text (v ∷ path)) h.0.0)
    ∙ names-cons w (split_slash (path_text (v ∷ path))) h.0
    ∙ ap (w ∷◌) (names-path_text (v ∷ path) h.1)

not_absolute : (w s : Text) → IsName w → starts_with (w ++ s) (text "/") ≡ false
unfolding starts_with text list_beq
not_absolute [] s h = absurd (ground (arith, h.1))
not_absolute (c ∷ w) s h = ground (arith, h.0)

relative :
    (w : Text) (path : FilePath) → IsName w → starts_with (path_text (w ∷ path)) (text "/") ≡ false
unfolding path_text
relative w [] h = subst (λ t. starts_with t (text "/") ≡ false) (append-nil w) (not_absolute w [] h)
relative w (v ∷ path) h =
    rw (name_not_root w h) (not_absolute w (text "/" ++ path_text (v ∷ path)) h)

pub path_of-path_text :
    (w : Text) (path : FilePath) → All IsName (w ∷ path) → path_of (path_text (w ∷ path)) ≡ w ∷ path
unfolding path_of
path_of-path_text w path h = rw (relative w path h.0) (names-path_text (w ∷ path) h)

pub join-path_text :
    (root : FilePath) (w : Text) (path : FilePath)
    → All IsName (w ∷ path)
    → join root (path_text (w ∷ path)) ≡ root ++ w ∷ path
unfolding join
join-path_text root w path h =
    rw (relative w path h.0) (ap (λ p. root ++ p) (names-path_text (w ∷ path) h))
