-- ===== src/Session/Sequence/Lookup.antt =====
-- The sequence map of session.rs numbers the UIDs of a mailbox from 1 on.
use scuttled.Prelude.{
  ℕ, ◌+◌, ◌-◌, ◌<◌, ◌%◌, ◌&&◌, ◌≡◌, Option, none, some, List, [], ◌∷◌, arith, if◌then◌else◌, ltb,
  leb, nat_eq, length, nat_key, HashMap, get, insert, get-insert,
}
use scuttled.Types.{Uid, u32_mod}
use scuttled.Session.Sequence.{
  SequenceIdMap, insert_all, initialize, get_uid, invalid_sequence_id, ok_or,
}

-- The element at a position, from 0.
abbrev pub element : List Uid → ℕ → Option Uid
element [] n = none
element (x ∷ xs) n = let rest = element xs (n - 1) in if nat_eq n 0 then some x else rest

get-insert_all :
    (uids : List Uid) (m : HashMap ℕ Uid) (seq id : ℕ)
    → seq + length uids < u32_mod
    → get (insert_all m seq uids) id
      ≡ (if ltb seq id && leb id (seq + length uids) then element uids (id - seq - 1) else get m id)
unfolding insert_all
get-insert_all [] m seq id room = ground arith
get-insert_all (uid ∷ uids) m seq id room = ground (
  arith,
  get-insert_all uids (insert m ((seq + 1) % u32_mod) uid) (seq + 1) id (omega arith),
  get-insert m ((seq + 1) % u32_mod) id uid,
)

-- After `initialize` with fewer than 2^32 UIDs, the sequence number n leads to the n-th of them, and 0
-- and the numbers above the count are refused.
get_uid-initialize :
    (s : SequenceIdMap) (uids : List Uid) (id : ℕ)
    → length uids < u32_mod
    → get_uid (initialize s uids) id
      ≡ ok_or
          (if ltb 0 id && leb id (length uids) then element uids (id - 1) else none)
          (invalid_sequence_id id)
unfolding get_uid initialize get
get_uid-initialize s uids id room = ground (arith, get-insert_all uids [] 0 id (omega arith))
