-- ===== src/Session/Sequence.antt =====
-- `SequenceIdMap` of session.rs.
pub mod Lookup
use scuttled.Prelude.{
  ℕ, ◌+◌, ◌%◌, Bool, Option, none, some, List, [], ◌∷◌, ◌++◌, is_some, nat_key, HashMap, get,
  insert,
}
use scuttled.Text.{Text, text, decimal}
use scuttled.Types.{Uid, u32_mod}
use scuttled.Error.{Error, Result, ok, err}

pub record SequenceIdMap : Type 0 where
  pub map : Option (HashMap ℕ Uid)

abbrev pub new : SequenceIdMap
new = record { map = none }

-- The loop of `initialize`, over `enumerate()`; `(seq + 1) as u32` keeps 32 bits.
unfoldable pub insert_all : HashMap ℕ Uid → ℕ → List Uid → HashMap ℕ Uid
unfolding insert
insert_all m seq [] = m
insert_all m seq (uid ∷ uids) = insert_all (insert m ((seq + 1) % u32_mod) uid) (seq + 1) uids

unfoldable pub initialize : SequenceIdMap → List Uid → SequenceIdMap
unfolding insert_all
initialize s uids = record { map = some (insert_all [] 0 uids) }

pub invalid_sequence_id : ℕ → Error
invalid_sequence_id id = Error.protocol_error (text "Invalid sequence ID: " ++ decimal id)

-- `ok_or_else`
abbrev pub ok_or : {A : Type 0} → Option A → Error → Result A
ok_or none e = err e
ok_or (some a) e = ok a

unfoldable pub get_uid : SequenceIdMap → ℕ → Result Uid
unfolding get invalid_sequence_id
get_uid s id = elim s.map [
  | none ↦ err (invalid_sequence_id id)
  | some m ↦ ok_or (get m id) (invalid_sequence_id id)
]

unfoldable pub clear : SequenceIdMap → SequenceIdMap
clear s = record { map = none }

unfoldable pub is_initialized : SequenceIdMap → Bool
is_initialized s = is_some s.map
