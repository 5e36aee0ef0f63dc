-- ===== src/Mailboxes/Memory/Listed.antt =====
-- What `list_mailboxes` of mailboxes/impl/memory.rs returns: the user's mailboxes whose names pass the
-- filter, and no others.
use scuttled.Prelude.{
  Bool, ◌&&◌, ◌≡◌, Option, some, List, [], ◌∷◌, map, arith, ◌==◌, All, contains, list_beq_iff,
  pair_key, list_key, nat_key, HashMap, get, contains_key, UniqueKeys, keep,
}
use scuttled.Text.{Text}
use scuttled.Types.{MailboxId}
use scuttled.Error.{Result, ok, err}
use scuttled.Mailboxes.{MailboxFilter, MailboxInfo}
use scuttled.Mailboxes.Memory.{Key, MailboxState, id_key}
use scuttled.Mailboxes.Memory.Listing.{matches_filter, list_mailboxes}
use scuttled.Mailboxes.Memory.Consistency.{IsConsistent}

-- Every entry is stored under its own identifier.
abbrev IsOwn : HashMap Key MailboxInfo → Type 0
IsOwn m = All (λ e. e.1.id ≡ record { username = e.0.0; name = e.0.1 }) m

IsOwn-get :
    (m : HashMap Key MailboxInfo)
    → UniqueKeys m
    → ((u n : Text) (info : MailboxInfo)
        → get m (u, n) ≡ some info
        → info.id ≡ record { username = u; name = n })
    → IsOwn m
IsOwn-get [] uniq own = tt
IsOwn-get (((a, b), i) ∷ m) uniq own = (
  own a b i (unfold get in ground (arith, list_beq_iff a a, list_beq_iff b b)),
  IsOwn-get m uniq.1 (λ u n info h.
      own u n info (unfold get in ground (arith, list_beq_iff a u, list_beq_iff b n, uniq.0, h))),
)

abbrev pub includes : List MailboxInfo → MailboxId → Bool
includes infos id = contains (map (λ info. info.id) infos) id

includes_iff :
    (passes : Text → Bool) (u : Text) (id : MailboxId) (m : HashMap Key MailboxInfo)
    → IsOwn m
    → includes
        (keep
          (λ info. passes info.id.name)
          (map (λ entry. entry.1) (keep (λ entry. entry.0.0 == u) m)))
        id
      ≡ (id.username == u && contains_key m (id.username, id.name) && passes id.name)
unfolding contains_key
includes_iff passes u id [] own = ground arith
includes_iff passes u id (((a, b), i) ∷ m) own = ground (
  arith,
  includes_iff passes u id m own.1,
  own.0,
  list_beq_iff a u,
  list_beq_iff a id.username,
  list_beq_iff b id.name,
  list_beq_iff id.username u,
)

abbrev pub of_result : Result (List MailboxInfo) → List MailboxInfo
of_result (ok infos) = infos
of_result (err e) = []

-- In a consistent state the listing holds exactly the stored mailboxes of the user whose names pass
-- the filter.
pub list_mailboxes-includes :
    (compile : Text → Option (Text → Bool)) (s : MailboxState) (u : Text) (f : MailboxFilter)
    (id : MailboxId)
    → IsConsistent s
    → includes (of_result (list_mailboxes compile s u f)) id ≡ (
        id.username == u
        && contains_key s.mailboxes (id.username, id.name)
        && matches_filter compile f id.name)
unfolding list_mailboxes
list_mailboxes-includes compile s u f id c =
    includes_iff (matches_filter compile f) u id s.mailboxes
      (IsOwn-get s.mailboxes c.unique (λ v n info h. ground (arith, c.linked v n, h)))
