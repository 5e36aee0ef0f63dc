-- ===== src/Handlers/Registered.antt =====
-- What holds of every handler of a registry holds of the one that command_handlers.rs finds.
use scuttled.Prelude.{
  ℕ, ◌≡◌, subst, Option, none, some, List, [], ◌∷◌, All, Bool-cases, inl, inr, ◌==◌, list_key,
  nat_key, get, contains_key, insert,
}
use scuttled.Text.{Text, to_uppercase}
use scuttled.Handlers.{CommandHandler, CommandHandlers, register, find}
use scuttled.Handlers.BuiltIn.{register_all}

module _ {S : Type 0} (P : CommandHandler S → Type 0) where
  abbrev pub Holds : CommandHandlers S → Type 0
  Holds m = All (λ entry. P entry.1) m

  abbrev HoldsFor : Option (CommandHandler S) → Type 0
  HoldsFor none = Unit
  HoldsFor (some h) = P h

  get-Holds : (m : CommandHandlers S) (name : Text) → Holds m → HoldsFor (get m name)
  unfolding get
  get-Holds [] name h = tt
  get-Holds ((k, x) ∷ m) name h = elim (Bool-cases (k == name)) [
    | inl e ↦ rw e h.0
    | inr e ↦ rw e (get-Holds m name h.1)
  ]

  insert-Holds :
      (m : CommandHandlers S) (name : Text) (x : CommandHandler S)
      → Holds m
      → P x
      → Holds (insert m name x)
  unfolding insert
  insert-Holds [] name x h p = (p, tt)
  insert-Holds ((k, y) ∷ m) name x h p = elim (Bool-cases (k == name)) [
    | inl e ↦ rw e (p, h.1)
    | inr e ↦ rw e (h.0, insert-Holds m name x h.1 p)
  ]

  module _ (upper : ℕ → Text) where
    pub find-Holds :
        (m : CommandHandlers S) (name : Text) (x : CommandHandler S)
        → Holds m
        → find upper m name ≡ some x
        → P x
    unfolding find
    find-Holds m name x h e = subst HoldsFor e (get-Holds m (to_uppercase upper name) h)

    register-Holds :
        (m : CommandHandlers S) (x : CommandHandler S)
        → Holds m
        → P x
        → Holds (register upper m x).1
    unfolding register
    register-Holds m x h p =
        elim (Bool-cases (contains_key m (to_uppercase upper x.command_name))) [
          | inl e ↦ rw (e, register) h
          | inr e ↦ rw (e, register) (insert-Holds m (to_uppercase upper x.command_name) x h p)
        ]

    pub register_all-Holds :
        (hs : List (CommandHandler S)) (m : CommandHandlers S)
        → All P hs
        → Holds m
        → Holds (register_all upper hs m)
    unfolding register_all
    register_all-Holds [] m p h = h
    register_all-Holds (x ∷ hs) m p h =
        register_all-Holds hs (register upper m x).1 p.1 (register-Holds m x h p.0)
