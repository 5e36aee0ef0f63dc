-- ===== src/Handlers/Answering/BuiltIn.antt =====
-- The handlers of server.rs answer with the tag.
use scuttled.Prelude.{ℕ, refl, [], All}
use scuttled.Text.{Text}
use scuttled.Handlers.{SessionContext}
use scuttled.Handlers.Account.{noop, capability}
use scuttled.Handlers.BuiltIn.{handlers}
use scuttled.Handlers.Answering.{IsAnswering, answer-IsFinal, login-IsFinal, logout-IsFinal}
use scuttled.Handlers.Answering.Folders.{select-IsFinal, create-IsFinal, delete-IsFinal}
use scuttled.Handlers.Answering.Listing.{list-IsFinal}
use scuttled.Handlers.Registered.{Holds, register_all-Holds}
use scuttled.Handlers.BuiltIn.{built_in}

handlers-IsAnswering :
    {S : Type 0} (context : SessionContext S) → All IsAnswering (handlers context)
unfolding noop capability
handlers-IsAnswering context = (
  (λ tag args s w h. answer-IsFinal tag w h _ _ refl),
  (
    (λ tag args s w h. answer-IsFinal tag w h _ _ refl),
    (
      (λ tag args s w h. logout-IsFinal tag w h args s),
      (
        (λ tag args s w h. login-IsFinal tag w h context args s),
        (
          (λ tag args s w h. select-IsFinal tag context w h args s),
          (
            (λ tag args s w h. create-IsFinal tag context w h args s),
            (
              (λ tag args s w h. delete-IsFinal tag context w h args s),
              ((λ tag args s w h. list-IsFinal tag context args s w h), tt),
            ),
          ),
        ),
      ),
    ),
  ),
)

pub built_in-IsAnswering :
    {S : Type 0} (context : SessionContext S) (upper : ℕ → Text)
    → Holds IsAnswering (built_in context upper)
unfolding built_in
built_in-IsAnswering context upper =
    register_all-Holds IsAnswering upper (handlers context) [] (handlers-IsAnswering context) tt
