-- ===== src/Files.antt =====
-- The file system, which src/storage and src/mailstore reach through tokio::fs, as an interface over its
-- state `S`: each call returns its result and the state behind it. Paths that differ by doubled slashes or
-- by `.` name the same file and are one path here.
pub mod Paths
pub mod Laws
use scuttled.Prelude.{
  ℕ, Bool, true, false, ◌&&◌, not, ◌≡◌, Option, none, some, List, [], ◌∷◌, ◌++◌, if◌then◌else◌,
  ◌==◌, list_key, nat_key, list_beq,
}
use scuttled.Text.{Text, text, starts_with}
use scuttled.Error.{Result, ok, err}
use scuttled.Mailstore.{FilePath, parent}

abbrev pub Bytes : Type 0
Bytes = List ℕ

-- A fallible operation on a state.
abbrev pub Action : Type 0 → Type 0 → Type 0
Action S A = S → Result A × S

abbrev pub continue : {S A B : Type 0} → Result A × S → (A → Action S B) → Result B × S
continue (ok a, s) next = next a s
continue (err e, s) next = (err e, s)

infixl 5 ◌>>=◌ ◌>>◌
abbrev pub ◌>>=◌ : {S A B : Type 0} → Action S A → (A → Action S B) → Action S B
◌>>=◌ action next s = continue (action s) next

abbrev pub ◌>>◌ : {S B : Type 0} → Action S (Unit {0}) → Action S B → Action S B
action >> next = action >>= λ _. next

abbrev pub pure : {S A : Type 0} → A → Action S A
pure a s = (ok a, s)

abbrev pub fail : {S A : Type 0} → scuttled.Error.Error → Action S A
fail e s = (err e, s)

-- `File::create`, `write_all` and `sync_all` on the file that it opens, `rename`, `remove_file`,
-- `try_exists`, `File::open` with `read_to_end`, `read_dir` with what `next_entry` yields, and whether the
-- metadata say that a path is a regular file.
pub record FileSystem (S : Type 0) : Type 0 where
  pub create_dir_all : FilePath → Action S (Unit {0})
  pub create : FilePath → Action S (Unit {0})
  pub write_all : FilePath → Bytes → Action S (Unit {0})
  pub sync_all : FilePath → Action S (Unit {0})
  pub rename : (from to : FilePath) → Action S (Unit {0})
  pub remove_file : FilePath → Action S (Unit {0})
  pub try_exists : S → FilePath → Result Bool
  pub read : S → FilePath → Result Bytes
  pub read_dir : S → FilePath → Result (List (Result FilePath))
  pub is_file : S → FilePath → Result Bool

-- `try_exists(…).unwrap_or(false)`
abbrev pub or_false : Result Bool → Bool
or_false (ok b) = b
or_false (err e) = false

-- `path.split('/')`
abbrev push_char : ℕ → List Text → List Text
push_char c [] = (c ∷ []) ∷ []
push_char c (w ∷ ws) = (c ∷ w) ∷ ws

unfoldable pub split_slash : Text → List Text
split_slash [] = [] ∷ []
split_slash (c ∷ s) =
    let rest = split_slash s in
    elim (scuttled.Prelude.nat_eq c b'/') [ true ↦ [] ∷ rest | false ↦ push_char c rest ]

-- The parts of a path that name something.
unfoldable pub names : List Text → FilePath
unfolding list_beq
names [] = []
names ([] ∷ ws) = names ws
names ((c ∷ w) ∷ ws) = let rest = names ws in if (c ∷ w) == text "." then rest else (c ∷ w) ∷ rest

-- `Path::new(path)`
unfoldable pub path_of : Text → FilePath
unfolding names split_slash starts_with
path_of s =
    if starts_with s (text "/") then text "/" ∷ names (split_slash s) else names (split_slash s)

-- `to_str`
unfoldable pub path_text : FilePath → Text
unfolding list_beq
path_text [] = []
path_text (c ∷ []) = c
path_text (c ∷ d ∷ path) =
    if c == text "/" then c ++ path_text (d ∷ path) else c ++ (text "/" ++ path_text (d ∷ path))

-- `root.join(path)`: an absolute path takes the place of the root.
unfoldable pub join : FilePath → Text → FilePath
unfolding path_of starts_with
join root s = if starts_with s (text "/") then path_of s else root ++ path_of s
