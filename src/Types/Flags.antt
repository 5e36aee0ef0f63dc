-- ===== src/Types/Flags.antt =====
-- Message flags: equality, and the round trips through their IMAP names.
use scuttled.Prelude.{Bool, true, false, ◌≡◌, ◌↔◌, arith, Eq, ◌==◌, list_key, nat_key, list_beq_iff}
use scuttled.Text.{Text, text}
use scuttled.Types.{MessageFlag, to_imap_string, from_imap_string}

-- The derived `PartialEq`.
unfoldable pub flag_beq : MessageFlag → MessageFlag → Bool
flag_beq MessageFlag.seen MessageFlag.seen = true
flag_beq MessageFlag.answered MessageFlag.answered = true
flag_beq MessageFlag.flagged MessageFlag.flagged = true
flag_beq MessageFlag.deleted MessageFlag.deleted = true
flag_beq MessageFlag.draft MessageFlag.draft = true
flag_beq MessageFlag.recent MessageFlag.recent = true
flag_beq (MessageFlag.custom s) (MessageFlag.custom t) = s == t
flag_beq _ _ = false

pub flag_beq_iff : (f g : MessageFlag) → (flag_beq f g ≡ true) ↔ (f ≡ g)
unfolding flag_beq
flag_beq_iff (MessageFlag.custom s) (MessageFlag.custom t) = ground (arith, list_beq_iff s t)
flag_beq_iff _ _ = ground arith

instance abbrev pub flag_key : Eq MessageFlag
flag_key = record { same = flag_beq; same_iff = flag_beq_iff }

-- Every text is the IMAP name of the flag that it is read as.
to_imap_string-from_imap_string : (s : Text) → to_imap_string (from_imap_string s) ≡ s
unfolding to_imap_string from_imap_string
to_imap_string-from_imap_string s = ground (
  arith,
  list_beq_iff s (text "\\Seen"),
  list_beq_iff s (text "\\Answered"),
  list_beq_iff s (text "\\Flagged"),
  list_beq_iff s (text "\\Deleted"),
  list_beq_iff s (text "\\Draft"),
  list_beq_iff s (text "\\Recent"),
)
