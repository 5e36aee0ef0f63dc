-- ===== src/Mailstore/Watcher/Registered.antt =====
-- mailstore/watcher/filesystem.rs: every mailbox that is watched is found again by its path.
use scuttled.Prelude.{
  ◌≡◌, refl, sym, ◌∙◌, ap, Option, none, some, [], ◌∷◌, ◌++◌, arith, get, insert, remove,
  get-remove, list_key, nat_key, pair_key, subst, append_assoc, inl, inr,
}
use scuttled.Text.{Text, text}
use scuttled.Error.{Result, ok, err}
use scuttled.Mailstore.{FilePath}
use scuttled.Files.{Action, continue, ◌>>=◌, join, path_text}
use scuttled.Files.Paths.{IsName, join-path_text}
use scuttled.Mailstore.Watcher.{Notify, Watching}
use scuttled.Mailstore.Watcher.Commands.{
  mailbox_path, answered, forget_path, start_watching, stop_watching, unwatch_found, handle_unwatch,
}
use scuttled.Mailstore.Watcher.Lookups.{
  get-remove_other, get-remove_differs, get-insert_cases, get-insert_same, get-insert_kept, pair_eq,
}

mailbox_path_names :
    (root : FilePath) (username mailbox : Text)
    → IsName username
    → IsName mailbox
    → mailbox_path root username mailbox ≡ root ++ (username ∷ mailbox ∷ [])
unfolding path_text
mailbox_path_names root username mailbox u m =
    join-path_text (join root username) mailbox [] (m, tt)
    ∙ ap (λ r. r ++ mailbox ∷ []) (join-path_text root username [] (u, tt))
    ∙ append_assoc root (username ∷ []) (mailbox ∷ [])

two_inj :
    (root : FilePath) (u m v n : Text)
    → root ++ (u ∷ m ∷ []) ≡ root ++ (v ∷ n ∷ [])
    → (u ≡ v) × (m ≡ n)
two_inj [] u m v n h = ground (arith, h)
two_inj (c ∷ root) u m v n h = two_inj root u m v n (ground (arith, h))

same_mailbox_path :
    (root : FilePath) (u m v n : Text)
    → IsName u
    → IsName m
    → IsName v
    → IsName n
    → mailbox_path root u m ≡ mailbox_path root v n
    → (u ≡ v) × (m ≡ n)
same_mailbox_path root u m v n nu nm nv nn h =
    two_inj root u m v n
      (sym (mailbox_path_names root u m nu nm) ∙ h ∙ mailbox_path_names root v n nv nn)

module _ {S N : Type 0} (root : FilePath) where
  -- The watched mailboxes have names, and each stands under its path.
  abbrev pub IsRegistered : Watching S N → Type 0
  IsRegistered w =
      (username mailbox : Text) (path : FilePath)
      → get w.watched_mailboxes (username, mailbox) ≡ some path
      → IsName username
        × IsName mailbox
        × (path ≡ mailbox_path root username mailbox)
        × (get w.path_to_mailbox path ≡ some (username, mailbox))

  abbrev pub Keeps : {A : Type 0} → Action (Watching S N) A → Type 0
  Keeps action = (w : Watching S N) → IsRegistered w → IsRegistered (action w).1

  pub continue-Keeps :
      {A B : Type 0} (p : Result A × Watching S N) (next : A → Action (Watching S N) B)
      → IsRegistered p.1
      → ((a : A) → Keeps (next a))
      → IsRegistered (continue p next).1
  continue-Keeps (ok a, w) next h k = k a w h
  continue-Keeps (err e, w) next h k = h

  pub bind-Keeps :
      {A B : Type 0} (action : Action (Watching S N) A) (next : A → Action (Watching S N) B)
      → Keeps action
      → ((a : A) → Keeps (next a))
      → Keeps (action >>= next)
  bind-Keeps action next h k w r = continue-Keeps (action w) next (h w r) k

  -- A mailbox that is not watched any more.
  pub not_watched_keeps :
      (username mailbox : Text) (w : Watching S N)
      → IsRegistered w
      → IsRegistered
          (record w { watched_mailboxes = remove w.watched_mailboxes (username, mailbox) })
  not_watched_keeps username mailbox w h u m p found =
      h u m p (ground (arith, get-remove w.watched_mailboxes (username, mailbox) (u, m), found))

  gone_keeps :
      (username mailbox : Text) (path : FilePath) (w : Watching S N)
      → IsRegistered w
      → get w.watched_mailboxes (username, mailbox) ≡ some path
      → IsRegistered (record w {
        watched_mailboxes = remove w.watched_mailboxes (username, mailbox);
        path_to_mailbox = remove w.path_to_mailbox path;
      })
  gone_keeps username mailbox path w h known u m p found =
      let (differ, before) =
        get-remove_differs w.watched_mailboxes (username, mailbox) (u, m) p found in
      let (nu, nm, e, back) = h u m p before in
      (
        nu,
        nm,
        e,
        get-remove_other w.path_to_mailbox path p (username, mailbox) (u, m)
            (h username mailbox path known).3 back differ,
      )

  module _ (notify : Notify N) where
    forget_keeps :
        (username mailbox : Text) (path : FilePath) (w : Watching S N) (what : Text)
        (p : Option Text × N)
        → IsRegistered w
        → get w.watched_mailboxes (username, mailbox) ≡ some path
        → IsRegistered
            (continue
              (answered notify what p
                (record w { watched_mailboxes = remove w.watched_mailboxes (username, mailbox) }))
              (λ u. forget_path notify path)).1
    forget_keeps username mailbox path w what (none, n) h known =
        gone_keeps username mailbox path w h known
    forget_keeps username mailbox path w what (some m, n) h known =
        not_watched_keeps username mailbox w h

    unwatch_found_keeps :
        (username mailbox : Text) (found : Option FilePath) (w : Watching S N)
        → IsRegistered w
        → get w.watched_mailboxes (username, mailbox) ≡ found
        → IsRegistered (unwatch_found notify username mailbox found w).1
    unfolding stop_watching
    unwatch_found_keeps username mailbox none w h known = h
    unwatch_found_keeps username mailbox (some path) w h known =
        forget_keeps username mailbox path w (text "Failed to unwatch directory: ")
          (notify.unwatch path w.notify) h known

    pub handle_unwatch-Keeps :
        (username mailbox : Text) → Keeps (handle_unwatch notify username mailbox)
    unfolding handle_unwatch
    handle_unwatch-Keeps username mailbox w h =
        unwatch_found_keeps username mailbox (get w.watched_mailboxes (username, mailbox)) w h refl

    answered-Keeps : (what : Text) (p : Option Text × N) → Keeps (answered notify what p)
    answered-Keeps what (none, n) w h = h
    answered-Keeps what (some m, n) w h = h

    pub start_watching-Keeps : (path : FilePath) → Keeps (start_watching notify path)
    unfolding start_watching
    start_watching-Keeps path w h =
        answered-Keeps (text "Failed to watch directory: ") (notify.watch path w.notify) w h

  pub insert-IsRegistered :
      (username mailbox : Text) (w : Watching S N)
      → IsName username
      → IsName mailbox
      → IsRegistered w
      → IsRegistered (record w {
        watched_mailboxes =
            insert w.watched_mailboxes (username, mailbox) (mailbox_path root username mailbox);
        path_to_mailbox =
            insert w.path_to_mailbox (mailbox_path root username mailbox) (username, mailbox);
      })
  insert-IsRegistered username mailbox w nu nm h u m p found =
      elim (get-insert_cases w.watched_mailboxes (username, mailbox) (u, m)
        (mailbox_path root username mailbox) p found) [
          | inl (same, e) ↦
              subst
                (λ k.
                  IsName k.0
                  × IsName k.1
                  × (p ≡ mailbox_path root k.0 k.1)
                  × (get
                        (insert w.path_to_mailbox (mailbox_path root username mailbox)
                          (username, mailbox))
                        p
                      ≡ some k))
                same
                (
                  nu,
                  nm,
                  e,
                  get-insert_same w.path_to_mailbox (mailbox_path root username mailbox) p
                      (username, mailbox) e,
                )
          | inr before ↦
              let (nv, nn, e, back) = h u m p before in
              (
                nv,
                nn,
                e,
                get-insert_kept w.path_to_mailbox (mailbox_path root username mailbox) p
                    (username, mailbox) (u, m) back
                    (λ q.
                      pair_eq username u mailbox m
                        (same_mailbox_path root username mailbox u m nu nm nv nn (q ∙ e))),
              )
        ]
