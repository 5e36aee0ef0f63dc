-- ===== src/Prelude/Maps.antt =====
-- `std::collections::HashMap` as an association list. The order of iteration is the list's, and no
-- theorem depends on it.
use Prim.Native.Nat.{◌+◌}
use mathlib.Core.Path.{◌≡◌, refl}
use mathlib.Core.Bool.{Bool}
use mathlib.Core.Option
use mathlib.Core.Option.{Option, none, some}
use mathlib.Core.List.{List, [], ◌∷◌}
use native.Mathlib.Omega.{arith}
use scuttled.Prelude.Tests.{if◌then◌else◌, is_some}
use scuttled.Prelude.Lists.{length}
use scuttled.Prelude.Keys.{Eq, ◌==◌}

abbrev pub HashMap {ℓ κ} : Type ℓ → Type κ → Type (ℓ ⊔ κ)
HashMap K V = List (K × V)

module _ {ℓ κ} {K : Type ℓ} {V : Type κ} ⦃e : Eq K⦄ where
  unfoldable pub get : HashMap K V → K → Option V
  get [] k = none
  get ((j, v) ∷ m) k = if j == k then some v else get m k

  unfoldable pub contains_key : HashMap K V → K → Bool
  unfolding get
  contains_key m k = is_some (get m k)

  unfoldable pub insert : HashMap K V → K → V → HashMap K V
  insert [] k v = (k, v) ∷ []
  insert ((j, w) ∷ m) k v = let rest = insert m k v in if j == k then (k, v) ∷ m else (j, w) ∷ rest

  unfoldable pub remove : HashMap K V → K → HashMap K V
  remove [] k = []
  remove ((j, w) ∷ m) k = let rest = remove m k in if j == k then rest else (j, w) ∷ rest

  -- A write through `get_mut`.
  unfoldable pub modify : HashMap K V → K → (V → V) → HashMap K V
  modify [] k f = []
  modify ((j, w) ∷ m) k f =
      let rest = modify m k f in if j == k then (j, f w) ∷ m else (j, w) ∷ rest

  pub get-insert :
      (m : HashMap K V) (k j : K) (v : V)
      → get (insert m k v) j ≡ (if k == j then some v else get m j)
  unfolding get insert
  get-insert [] k j v = ground arith
  get-insert ((i, w) ∷ m) k j v =
      ground (arith, get-insert m k j v, e.same_iff i k, e.same_iff i j, e.same_iff k j)

  pub get-remove :
      (m : HashMap K V) (k j : K) → get (remove m k) j ≡ (if k == j then none else get m j)
  unfolding get remove
  get-remove [] k j = ground arith
  get-remove ((i, w) ∷ m) k j =
      ground (arith, get-remove m k j, e.same_iff i k, e.same_iff i j, e.same_iff k j)

  -- Rust's map holds a key once.
  abbrev pub UniqueKeys : HashMap K V → Type κ
  UniqueKeys [] = Unit
  UniqueKeys ((j, v) ∷ m) = (get m j ≡ none) × UniqueKeys m

  pub insert-UniqueKeys :
      (m : HashMap K V) (k : K) (v : V) → UniqueKeys m → UniqueKeys (insert m k v)
  unfolding insert get
  insert-UniqueKeys [] k v u = (refl, tt)
  insert-UniqueKeys ((j, w) ∷ m) k v u =
      ground
        (arith, insert-UniqueKeys m k v u.1, get-insert m k j v, e.same_iff j k, e.same_iff k j)

  pub remove-UniqueKeys : (m : HashMap K V) (k : K) → UniqueKeys m → UniqueKeys (remove m k)
  unfolding remove
  remove-UniqueKeys [] k u = tt
  remove-UniqueKeys ((j, w) ∷ m) k u = ground (arith, remove-UniqueKeys m k u.1, get-remove m k j)

  remove_fresh : (m : HashMap K V) (k : K) → get m k ≡ none → remove m k ≡ m
  unfolding remove get
  remove_fresh [] k h = refl
  remove_fresh ((j, w) ∷ m) k h = ground (arith, remove_fresh m k)

  pub length-insert :
      (m : HashMap K V) (k : K) (v : V)
      → length (insert m k v) ≡ (if contains_key m k then length m else length m + 1)
  unfolding insert contains_key
  length-insert [] k v = ground arith
  length-insert ((j, w) ∷ m) k v = ground (arith, length-insert m k v)

  pub length-remove :
      (m : HashMap K V) (k : K)
      → UniqueKeys m
      → length m ≡ length (remove m k) + (if contains_key m k then 1 else 0)
  unfolding remove contains_key
  length-remove [] k u = ground arith
  length-remove ((j, w) ∷ m) k u =
      ground (arith, length-remove m k u.1, remove_fresh m k, e.same_iff j k)

  pub get-modify :
      (m : HashMap K V) (k j : K) (f : V → V)
      → get (modify m k f) j ≡ (if k == j then Option.map f (get m j) else get m j)
  unfolding get modify
  get-modify [] k j f = ground arith
  get-modify ((i, w) ∷ m) k j f =
      ground (arith, get-modify m k j f, e.same_iff i k, e.same_iff i j, e.same_iff k j)

  pub modify-UniqueKeys :
      (m : HashMap K V) (k : K) (f : V → V) → UniqueKeys m → UniqueKeys (modify m k f)
  unfolding modify
  modify-UniqueKeys [] k f u = tt
  modify-UniqueKeys ((j, w) ∷ m) k f u =
      ground
        (arith, modify-UniqueKeys m k f u.1, get-modify m k j f, e.same_iff k j, e.same_iff j k)

  pub length-modify : (m : HashMap K V) (k : K) (f : V → V) → length (modify m k f) ≡ length m
  unfolding modify
  length-modify [] k f = refl
  length-modify ((j, w) ∷ m) k f = ground (arith, length-modify m k f)
