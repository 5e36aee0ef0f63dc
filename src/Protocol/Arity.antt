-- ===== src/Protocol/Arity.antt =====
-- When the parser of protocol.rs fails: on a line without words, and on a command whose arguments
-- are fewer than it takes.
use scuttled.Prelude.{
  ℕ, false, ◌≡◌, refl, sym, inl, inr, List, [], ◌∷◌, arith, subst, Bool-cases, if◌then◌else◌, ◌==◌,
  list_key, nat_key, list_beq, list_beq_iff, any, length, leb,
}
use scuttled.Text.{Text, text, split_whitespace, to_uppercase}
use scuttled.Error.{is_ok}
use scuttled.Protocol.{dispatch, parse_words, parse_command}

-- How many arguments a command takes.
abbrev pub arity : Text → ℕ
arity cmd =
    if any (λ k. cmd == k) (text "LOGIN" ∷ text "LIST" ∷ [])
    then 2
    else if any (λ k. cmd == k)
        (text "SELECT" ∷ text "EXAMINE" ∷ text "CREATE" ∷ text "DELETE" ∷ [])
    then 1
    else 0

abbrev Fits : List Text → Text → Type 0
Fits args cmd = is_ok (dispatch cmd args) ≡ leb (arity cmd) (length args)

Fits-login : (args : List Text) → Fits args (text "LOGIN")
unfolding dispatch text list_beq
Fits-login [] = refl
Fits-login (a ∷ []) = refl
Fits-login (a ∷ b ∷ args) = ground arith

Fits-list : (args : List Text) → Fits args (text "LIST")
unfolding dispatch text list_beq
Fits-list [] = refl
Fits-list (a ∷ []) = refl
Fits-list (a ∷ b ∷ args) = ground arith

Fits-select : (args : List Text) → Fits args (text "SELECT")
unfolding dispatch text list_beq
Fits-select [] = refl
Fits-select (a ∷ args) = ground arith

Fits-examine : (args : List Text) → Fits args (text "EXAMINE")
unfolding dispatch text list_beq
Fits-examine [] = refl
Fits-examine (a ∷ args) = ground arith

Fits-create : (args : List Text) → Fits args (text "CREATE")
unfolding dispatch text list_beq
Fits-create [] = refl
Fits-create (a ∷ args) = ground arith

Fits-delete : (args : List Text) → Fits args (text "DELETE")
unfolding dispatch text list_beq
Fits-delete [] = refl
Fits-delete (a ∷ args) = ground arith

-- The one way to be a keyword, or not.
by_case :
    (args : List Text) (cmd keyword : Text)
    → Fits args keyword
    → ((cmd == keyword) ≡ false → Fits args cmd)
    → Fits args cmd
by_case args cmd keyword hit miss = elim (Bool-cases (cmd == keyword)) [
  | inl e ↦ subst (Fits args) (sym ((list_beq_iff cmd keyword).0 e)) hit
  | inr e ↦ miss e
]

dispatch-Fits : (args : List Text) (cmd : Text) → Fits args cmd
unfolding dispatch
dispatch-Fits args cmd = by_case args cmd (text "LOGIN") (Fits-login args) λ a.
    by_case args cmd (text "LIST") (Fits-list args) λ b.
      by_case args cmd (text "SELECT") (Fits-select args) λ c.
        by_case args cmd (text "EXAMINE") (Fits-examine args) λ d.
          by_case args cmd (text "CREATE") (Fits-create args)
            λ e. by_case args cmd (text "DELETE") (Fits-delete args) λ f. ground arith

-- A line is parsed exactly if it has a first word, and behind it as many words as the command takes.
pub parse_command_succeeds :
    (upper : ℕ → Text) (tag line : Text)
    → is_ok (parse_command upper tag line) ≡ elim (split_whitespace line) [
      | [] ↦ false
      | name ∷ args ↦ leb (arity (to_uppercase upper name)) (length args)
    ]
unfolding parse_command
parse_command_succeeds upper tag line = of_words (split_whitespace line)
  where
    of_words :
        (ws : List Text)
        → is_ok (parse_words upper ws) ≡ elim ws [
          | [] ↦ false
          | name ∷ args ↦ leb (arity (to_uppercase upper name)) (length args)
        ]
    of_words [] = refl
    of_words (name ∷ args) = dispatch-Fits args (to_uppercase upper name)
