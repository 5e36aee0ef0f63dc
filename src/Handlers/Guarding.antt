-- ===== src/Handlers/Guarding.antt =====
-- What a client without a user can do: the handlers that do not require authentication leave the store
-- as it is, and only LOGIN lets a user in, on the authenticator's word.
use scuttled.Prelude.{
  ℕ, Bool, true, false, ◌≡◌, refl, Option, none, some, [], All, Option-cases, inl, inr,
}
use scuttled.Text.{Text, text}
use scuttled.Error.{Result, ok, err}
use scuttled.Protocol.Responses.{Response}
use scuttled.Handlers.{SessionState, SessionContext, World, CommandHandler, write, attempt, answer}
use scuttled.Handlers.Account.{login, login_args, conclude_login, logout, capability}
use scuttled.Handlers.BuiltIn.{handlers, built_in}
use scuttled.Handlers.Registered.{Holds, register_all-Holds}

module _ {S : Type 0} (context : SessionContext S) where
  -- States that a client without a user may come to: a user's only if that user's credentials are right.
  abbrev pub IsEntered : S → SessionState → Type 0
  IsEntered s SessionState.not_authenticated = Unit
  IsEntered s (SessionState.authenticated username) =
      (password : Text) × (context.authenticate s
          (record { username = username; password = password })
        ≡ ok true)
  IsEntered s _ = ⊥

  abbrev pub IsGranted : S → Option SessionState → Type 0
  IsGranted s none = Unit
  IsGranted s (some SessionState.logout) = Unit
  IsGranted s (some state) = IsEntered s state

  -- The outcome of a handler: the store is the same, and a new state is granted.
  abbrev pub IsSafe : S → Result (Option SessionState) × World S → Type 0
  IsSafe s (ok next, v) = (v.store ≡ s) × IsGranted s next
  IsSafe s (err e, v) = v.store ≡ s

  abbrev pub IsGuarded : CommandHandler S → Type 0
  IsGuarded x =
      x.requires_auth ≡ false
      → (tag args : Text) (current : SessionState) (w : World S)
      → IsSafe w.store (x.handle tag args current w)

  attempt-IsSafe :
      (s : S) (p : Result (Unit {0}) × World S)
      (next : Unit {0} → World S → Result (Option SessionState) × World S)
      → p.1.store ≡ s
      → ((v : World S) → v.store ≡ s → IsSafe s (next tt v))
      → IsSafe s (attempt p next)
  attempt-IsSafe s (ok _, v) next h f = f v h
  attempt-IsSafe s (err e, v) next h f = h

  answer-IsSafe :
      (s : S) (r : Response) (next : Option SessionState) (w : World S)
      → w.store ≡ s
      → IsGranted s next
      → IsSafe s (answer r next w)
  unfolding answer write
  answer-IsSafe s r next w h g = attempt-IsSafe s (write r w) _ h (λ v k. (k, g))

  module _ (tag : Text) (w : World S) where
    conclude_login-IsSafe :
        (u p : Text) (result : Result Bool)
        → context.authenticate w.store (record { username = u; password = p }) ≡ result
        → IsSafe w.store (conclude_login tag u result w)
    unfolding conclude_login
    conclude_login-IsSafe u p (ok true) e = answer-IsSafe w.store _ _ w refl (p, e)
    conclude_login-IsSafe u p (ok false) e = answer-IsSafe w.store _ _ w refl tt
    conclude_login-IsSafe u p (err m) e = answer-IsSafe w.store _ _ w refl tt

    login-IsSafe :
        (args : Text) (current : SessionState) → IsSafe w.store (login context tag args current w)
    login-IsSafe args current = elim (Option-cases (login_args args)) [
      | inl e ↦ unfold login in rw (e, login) (answer-IsSafe w.store _ _ w refl tt)
      | inr ((u, p), e) ↦
          unfold login in
          rw (e, login)
            (conclude_login-IsSafe u p
              (context.authenticate w.store (record { username = u; password = p })) refl)
    ]

    logout-IsSafe :
        (args : Text) (current : SessionState) → IsSafe w.store (logout tag args current w)
    unfolding logout write
    logout-IsSafe args current =
        attempt-IsSafe w.store (write (Response.bye (text "Logging out")) w) _ refl
          (λ v k. answer-IsSafe w.store _ _ v k tt)

    capability-IsSafe :
        (is_tls : Bool) (args : Text) (current : SessionState)
        → IsSafe w.store (capability is_tls tag args current w)
    unfolding capability
    capability-IsSafe is_tls args current = answer-IsSafe w.store _ _ w refl tt

  handlers-IsGuarded : All IsGuarded (handlers context)
  handlers-IsGuarded = (
    (λ h tag args s w. capability-IsSafe tag w false args s),
    (
      (λ h. cc),
      (
        (λ h tag args s w. logout-IsSafe tag w args s),
        (
          (λ h tag args s w. login-IsSafe tag w args s),
          ((λ h. cc), ((λ h. cc), ((λ h. cc), ((λ h. cc), tt)))),
        ),
      ),
    ),
  )

  pub built_in-IsGuarded : (upper : ℕ → Text) → Holds IsGuarded (built_in context upper)
  unfolding built_in
  built_in-IsGuarded upper =
      register_all-Holds IsGuarded upper (handlers context) [] handlers-IsGuarded tt
