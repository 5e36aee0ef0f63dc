-- ===== src/Mailstore/Watcher/Lookups.antt =====
-- Look-ups in the two maps of WatcherState of mailstore/watcher/filesystem.rs.
use scuttled.Prelude.{
  false, ◌≡◌, refl, ◌∙◌, ap, some, arith, ◌==◌, HashMap, get, insert, remove, get-insert,
  get-remove, list_key, nat_key, pair_key, list_beq, list_beq_iff, pair_beq, pair_beq_iff, ◌⊎◌,
  Bool-cases, inl, inr,
}
use scuttled.Text.{Text}
use scuttled.Mailstore.{FilePath}

-- Where two paths lead to different keys, the removal of one keeps the other.
pub get-remove_other :
    (m : HashMap FilePath (Text × Text)) (path p : FilePath) (k j : Text × Text)
    → get m path ≡ some k
    → get m p ≡ some j
    → (k == j) ≡ false
    → get (remove m path) p ≡ some j
get-remove_other m path p k j found other differ =
    ground (arith, get-remove m path p, list_beq_iff path p, pair_beq_iff k j)

pub get-remove_differs :
    (m : HashMap (Text × Text) FilePath) (k j : Text × Text) (p : FilePath)
    → get (remove m k) j ≡ some p
    → ((k == j) ≡ false) × (get m j ≡ some p)
get-remove_differs m k j p found = ground (arith, get-remove m k j)

pub get-insert_cases :
    (m : HashMap (Text × Text) FilePath) (k j : Text × Text) (v p : FilePath)
    → get (insert m k v) j ≡ some p
    → ((k ≡ j) × (p ≡ v)) ⊎ (get m j ≡ some p)
get-insert_cases m k j v p found = elim (Bool-cases (pair_beq k j)) [
  | inl same ↦ inl ((pair_beq_iff k j).0 same, ground (arith, get-insert m k j v, found, same))
  | inr other ↦ inr (ground (arith, get-insert m k j v, found, other))
]

pub get-insert_same :
    (m : HashMap FilePath (Text × Text)) (path p : FilePath) (k : Text × Text)
    → p ≡ path
    → get (insert m path k) p ≡ some k
get-insert_same m path p k e = ground (arith, get-insert m path p k, list_beq_iff path p, e)

pub get-insert_kept :
    (m : HashMap FilePath (Text × Text)) (path p : FilePath) (k j : Text × Text)
    → get m p ≡ some j
    → (path ≡ p → k ≡ j)
    → get (insert m path k) p ≡ some j
get-insert_kept m path p k j found same = elim (Bool-cases (list_beq path p)) [
  | inl here ↦ get-insert m path p k ∙ rw here (ap some (same ((list_beq_iff path p).0 here)))
  | inr there ↦ get-insert m path p k ∙ rw there found
]

pub pair_eq : (u v m n : Text) → (u ≡ v) × (m ≡ n) → ◌≡◌ {A = Text × Text} (u, m) (v, n)
pair_eq u v m n (e, f) = rw (e, f) refl
