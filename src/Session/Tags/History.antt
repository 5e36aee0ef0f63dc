-- ===== src/Session/Tags/History.antt =====
-- Which tags the history of session.rs accepts.
use scuttled.Prelude.{
  ◌+◌, ◌≤◌, false, ◌≡◌, List, [], ◌∷◌, arith, if◌then◌else◌, leb, length, contains, list_key,
  nat_key, Bool-cases, inl, inr,
}
use scuttled.Text.{Text}
use scuttled.Error.{is_ok}
use scuttled.Session.Tags.{TagHistory, register}

-- The tags that are accepted, out of those that a client uses one after the other.
abbrev pub accepted : TagHistory → List Text → List Text
accepted h [] = []
accepted h (tag ∷ tags) =
    let rest = accepted (register h tag).1 tags in
    if is_ok (register h tag).0 then tag ∷ rest else rest

-- None of the tags is among those seen, or comes twice.
abbrev pub AreFresh : List Text → List Text → Type 0
AreFresh seen [] = Unit
AreFresh seen (tag ∷ tags) = (contains seen tag ≡ false) × AreFresh (tag ∷ seen) tags

abbrev Keeps : List Text → TagHistory → Type 0
Keeps tags h =
    length h.tags ≤ h.max_size
    → AreFresh h.tags (accepted h tags) × (length h.tags + length (accepted h tags) ≤ h.max_size)

Keeps-cons :
    (tag : Text) (tags : List Text) (h : TagHistory)
    → ((g : TagHistory) → Keeps tags g)
    → Keeps (tag ∷ tags) h
Keeps-cons tag tags h later room = elim (Bool-cases (contains h.tags tag)) [
  | inl e ↦ unfold register in rw (e, register) (later h room)
  | inr e ↦ elim (Bool-cases (leb h.max_size (length h.tags))) [
    | inl f ↦ unfold register in rw (e, f, register) (later h room)
    | inr f ↦
        let (fresh, bound) = later (record h { tags = tag ∷ h.tags }) (ground arith) in
        unfold register in rw (e, f, register) ((e, fresh), omega (arith, bound))
  ]
]

-- A history that holds at most `max_size` tags accepts no tag twice and none that it holds, and never
-- holds more than `max_size`.
pub accepted-AreFresh :
    (tags : List Text) (h : TagHistory)
    → length h.tags ≤ h.max_size
    → AreFresh h.tags (accepted h tags) × (length h.tags + length (accepted h tags) ≤ h.max_size)
accepted-AreFresh [] h room = (tt, omega arith)
accepted-AreFresh (tag ∷ tags) h room = Keeps-cons tag tags h (accepted-AreFresh tags) room
