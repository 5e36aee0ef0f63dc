-- ===== src/Index/Tantivy/Own.antt =====
-- index/impl/tantivy.rs: whose messages a search shows.
use scuttled.Prelude.{
  true, ◌≡◌, refl, Option, none, some, List, [], ◌∷◌, All, arith, if◌then◌else◌, list_key, nat_key,
  list_beq_iff, ◌⊎◌, inl, inr, Bool-cases, ap, sym, ◌∙◌,
}
use scuttled.Text.{Text, text}
use scuttled.Types.Query.{SearchQuery}
use scuttled.Error.{Result, ok, err, ◌>>=◌}
use scuttled.Index.Tantivy.{Field}
use scuttled.Index.Tantivy.Reads.{
  IndexReader, Query, is_own, own_path, own_paths, with_path, find, query_for, searched, search,
  or_index,
}

is_own_lem :
    (username mailbox : Text) (u m : Option Text)
    → is_own username mailbox u m ≡ true
    → (u ≡ some username) × (m ≡ some mailbox)
is_own_lem username mailbox (some u) (some m) h =
    ground (arith, list_beq_iff u username, list_beq_iff m mailbox, h)
is_own_lem username mailbox none m h = ground (arith, h)
is_own_lem username mailbox (some u) none h = ground (arith, h)

not_none : (p : Text) → none ≡ some p → ⊥
not_none p h = cc

module _ {W Address Doc Parsed : Type 0} (reader : IndexReader W Address Doc Parsed) (w : W)
    (username mailbox : Text) where
  -- The index holds a document of this mailbox with this path.
  abbrev pub IsStored : Text → Type 0
  IsStored path =
      (address : Address) × (d : Doc) × (reader.doc w address ≡ inr d)
      × (reader.text_of d Field.username_field ≡ some username)
      × (reader.text_of d Field.mailbox_field ≡ some mailbox)
      × (reader.text_of d Field.path_field ≡ some path)

  -- What holds of the paths of a result.
  abbrev pub AreStored : Result (List Text) → Type 0
  AreStored (ok paths) = All IsStored paths
  AreStored (err e) = Unit

  own_path-IsStored :
      (address : Address) (d : Doc) (path : Text)
      → reader.doc w address ≡ inr d
      → own_path reader username mailbox d ≡ some path
      → IsStored path
  own_path-IsStored address d path e h =
      let u = reader.text_of d Field.username_field in
      let m = reader.text_of d Field.mailbox_field in
      elim (Bool-cases (is_own username mailbox u m)) [
        | inl own ↦
            let (same_user, same_mailbox) = is_own_lem username mailbox u m own in
            (
              address,
              d,
              e,
              same_user,
              same_mailbox,
              ap (λ b. if b then reader.text_of d Field.path_field else none) (sym own) ∙ h,
            )
        | inr other ↦ absurd (
            not_none path
              (ap (λ b. if b then reader.text_of d Field.path_field else none) (sym other) ∙ h))
      ]

  joined-AreStored :
      (o : Option Text) (rest : Result (List Text))
      → ((path : Text) → o ≡ some path → IsStored path)
      → AreStored rest
      → AreStored (rest >>= λ paths. ok (with_path o paths))
  joined-AreStored none (ok paths) h k = k
  joined-AreStored (some path) (ok paths) h k = (h path refl, k)
  joined-AreStored o (err e) h k = tt

  document-AreStored :
      (address : Address) (r : Text ⊎ Doc) (rest : Result (List Text))
      → reader.doc w address ≡ r
      → AreStored rest
      → AreStored (
          or_index (text "Failed to retrieve document: ") r >>= λ d.
          rest >>= λ paths. ok (with_path (own_path reader username mailbox d) paths))
  document-AreStored address (inl m) rest e k = tt
  document-AreStored address (inr d) rest e k =
      joined-AreStored (own_path reader username mailbox d) rest
        (λ path h. own_path-IsStored address d path e h) k

  own_paths-AreStored :
      (addresses : List Address) → AreStored (own_paths reader w username mailbox addresses)
  own_paths-AreStored [] = tt
  own_paths-AreStored (address ∷ addresses) =
      document-AreStored address (reader.doc w address)
        (own_paths reader w username mailbox addresses) refl (own_paths-AreStored addresses)

  found-AreStored :
      (found : Result (List Address)) → AreStored (found >>= own_paths reader w username mailbox)
  found-AreStored (ok addresses) = own_paths-AreStored addresses
  found-AreStored (err e) = tt

  searched-AreStored :
      (query : Option (Result (Query Parsed)))
      → AreStored (searched reader w username mailbox query)
  searched-AreStored none = tt
  searched-AreStored (some (err e)) = tt
  searched-AreStored (some (ok q)) = found-AreStored (find reader w q 1000)

  -- Whatever the text that is searched for, which tantivy reads in a query language of its own, and
  -- whatever documents tantivy finds for it, a search shows only paths of documents that are stored for
  -- this user and mailbox.
  pub search-AreStored : (query : SearchQuery) → AreStored (search reader w username mailbox query)
  unfolding search
  search-AreStored query = searched-AreStored (query_for reader username mailbox query)
