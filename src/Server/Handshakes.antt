-- ===== src/Server/Handshakes.antt =====
-- server.rs: a TLS handshake that fails, and a plain connection that is of no use.
use scuttled.Prelude.{
  ℕ, zero, suc, true, ◌≡◌, refl, ◌∙◌, ap, none, some, List, [], ◌∷◌, ◌++◌, if◌then◌else◌, length,
  arith,
}
use scuttled.Text.{Text, text}
use scuttled.Error.{Error}
use scuttled.Session.Turns.{Turn}
use scuttled.Server.{
  Client, Serving, ImapServer, Accept, Happening, turn_at, accept_plain, accept_tls, unless_ended,
  happen, serve, listen_on, listen_on_tls,
}

length-turn_at :
    {S : Type 0} (i : ℕ) (t : Turn) (cs : List (Client S)) (store : S)
    → length (turn_at i t cs store).0 ≡ length cs
unfolding turn_at
length-turn_at i t [] store = refl
length-turn_at zero t (c ∷ cs) store = refl
length-turn_at (suc i) t (c ∷ cs) store = ground (arith, length-turn_at i t cs store)

module _ {S : Type 0} (server : ImapServer S) (upper : ℕ → Text) where
  -- A loop that has ended takes no more clients.
  serve_ended :
      (step : Accept → Serving S → Serving S) (e : Error) (hs : List Happening) (s : Serving S)
      → s.ended ≡ some e
      → ((serve server upper step hs s).ended ≡ some e)
        × (length (serve server upper step hs s).clients ≡ length s.clients)
  serve_ended step e [] s h = (h, refl)
  serve_ended step e (Happening.accept a ∷ hs) s h =
      let same = ap (λ o. unless_ended server upper (step a) o s) h in
      let (ended, few) =
        serve_ended step e hs (happen server upper step (Happening.accept a) s)
          (ap (λ v. v.ended) same ∙ h) in
      (ended, few ∙ ap (λ v. length v.clients) same)
  serve_ended step e (Happening.turn_of i t ∷ hs) s h =
      let (ended, few) =
        serve_ended step e hs (happen server upper step (Happening.turn_of i t) s) h in
      (ended, few ∙ length-turn_at i t s.clients s.store)

  listen_on_tls-serve :
      (hs : List Happening) (s : Serving S)
      → server.has_tls_acceptor ≡ true
      → listen_on_tls server upper hs s ≡ serve server upper (accept_tls server upper) hs s
  unfolding listen_on_tls
  listen_on_tls-serve hs s tls =
      ap
        (λ b. if b then serve server upper (accept_tls server upper) hs s else record s {
          ended = some (
              Error.tls_error
                (text "TLS not configured. Call with_tls_identity() or with_tls_pem() first."));
        })
        tls

  -- On a server with an acceptor, a client whose TLS handshake fails ends the loop of a TLS listener with
  -- that error: whatever comes later, no session is added to those that are there. On a plain
  -- listener a connection that is of no use makes no difference.
  pub listen_on_tls-unusable :
      (m : Text) (hs : List Happening) (s : Serving S)
      → server.has_tls_acceptor ≡ true
      → s.ended ≡ none
      → ((listen_on_tls server upper (Happening.accept (Accept.unusable m) ∷ hs) s).ended
          ≡ some (Error.tls_error (text "TLS handshake failed: " ++ m)))
        × (length (listen_on_tls server upper (Happening.accept (Accept.unusable m) ∷ hs) s).clients
            ≡ length s.clients)
        × (listen_on server upper (Happening.accept (Accept.unusable m) ∷ hs) s
            ≡ listen_on server upper hs s)
  unfolding listen_on accept_plain accept_tls
  listen_on_tls-unusable m hs s tls going =
      let step = accept_tls server upper in
      let failing = Happening.accept (Accept.unusable m) in
      let first = ap (λ o. unless_ended server upper (step (Accept.unusable m)) o s) going in
      let (ended, few) =
        serve_ended step (Error.tls_error (text "TLS handshake failed: " ++ m)) hs
          (happen server upper step failing s) (ap (λ v. v.ended) first) in
      let same = listen_on_tls-serve (failing ∷ hs) s tls in
      (
        ap (λ v. v.ended) same ∙ ended,
        ap (λ v. length v.clients) same ∙ few ∙ ap (λ v. length v.clients) first,
        ap
            (λ o.
              serve server upper (accept_plain server upper) hs
                (unless_ended server upper (accept_plain server upper (Accept.unusable m)) o s))
            going,
      )
