-- ===== src/Handlers/Answering/Listing.antt =====
-- LIST sends untagged lines and one answer with the tag.
use scuttled.Prelude.{◌≡◌, refl, none, some, List, [], ◌∷◌, subst, sym, Option-cases, inl, inr}
use scuttled.Text.{Text, text}
use scuttled.Error.{Result, ok, err}
use scuttled.Protocol.Responses.{Response}
use scuttled.Mailboxes.{MailboxInfo, MailboxFilter}
use scuttled.Handlers.Patterns.{pattern_to_filter}
use scuttled.Handlers.{SessionState, SessionContext, World}
use scuttled.Handlers.Folders.{with_user}
use scuttled.Handlers.Listing.{
  list, list_args, effective_pattern, list_line, send_all, conclude_list,
}
use scuttled.Handlers.Answering.{
  IsReliable, IsFinal, Answers, said, write_reliable, answer_reliable, after-Answers, Answers-cons,
  answer-IsFinal,
}

module _ {S : Type 0} (tag : Text) where
  list_sent :
      (infos : List MailboxInfo) (w : World S)
      → IsReliable w.connection
      → (v : World S) × (conclude_list tag (ok infos) w ≡ (ok none, v))
        × Answers tag w.connection v.connection
  unfolding conclude_list send_all
  list_sent [] w h =
      let last = Response.ok (some tag) (text "LIST completed") in
      (said w last, answer_reliable last none w h, after-Answers tag w.connection last refl)
  list_sent (info ∷ infos) w h =
      let (v, e, a) = list_sent infos (said w (list_line info)) h in
      (
        v,
        rw (write_reliable (list_line info) w h) e,
        Answers-cons tag w.connection (list_line info) v.connection refl a,
      )

  conclude_list-IsFinal :
      (w : World S) (result : Result (List MailboxInfo))
      → IsReliable w.connection
      → IsFinal tag w (conclude_list tag result w)
  conclude_list-IsFinal w (ok infos) h =
      let (v, e, a) = list_sent infos w h in subst (IsFinal tag w) (sym e) a
  conclude_list-IsFinal w (err e) h = unfold conclude_list in answer-IsFinal tag w h _ _ refl

  list_for-IsFinal :
      (context : SessionContext S) (w : World S)
      → IsReliable w.connection
      → (filter : MailboxFilter) (current : SessionState)
      → IsFinal tag w (
          with_user tag current
            (λ u v. conclude_list tag (context.mailboxes.list_mailboxes v.store u filter) v)
            w)
  list_for-IsFinal context w h filter SessionState.not_authenticated =
      answer-IsFinal tag w h _ _ refl
  list_for-IsFinal context w h filter SessionState.logout = answer-IsFinal tag w h _ _ refl
  list_for-IsFinal context w h filter (SessionState.authenticated u) =
      conclude_list-IsFinal w (context.mailboxes.list_mailboxes w.store u filter) h
  list_for-IsFinal context w h filter (SessionState.selected u m) =
      conclude_list-IsFinal w (context.mailboxes.list_mailboxes w.store u filter) h

  pub list-IsFinal :
      (context : SessionContext S) (args : Text) (current : SessionState) (w : World S)
      → IsReliable w.connection
      → IsFinal tag w (list context tag args current w)
  list-IsFinal context args current w h = elim (Option-cases (list_args args)) [
    | inl e ↦ unfold list in rw (e, list) (answer-IsFinal tag w h _ _ refl)
    | inr ((r, p), e) ↦
        unfold list in
        rw (e, list)
          (list_for-IsFinal context w h (pattern_to_filter (effective_pattern r p)) current)
  ]
