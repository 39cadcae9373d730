-- ===== src/Prelude/Maps.antt =====
-- Maps as association lists: `HashMap`, `BTreeMap` and `DashMap` where the code does not depend on
-- the order of their entries. A key stands once, which `IsMap` says.
use Prim.Native.Nat.{ℕ, suc, ◌+◌, ◌≤◌}
use mathlib.Core.Path.{◌≡◌, refl}
use mathlib.Core.Logic.{◌≢◌}
use mathlib.Core.Bool.{Bool}
use mathlib.Core.Option.{Option, none, some}
use mathlib.Core.List.{List, [], ◌∷◌}
use native.Mathlib.Omega.{arith}
use ama.Prelude.Tests.{Eq, ◌==◌, if◌then◌else◌, beq_refl}

abbrev pub length {ℓ} : {A : Type ℓ} → List A → ℕ
length [] = 0
length (x ∷ xs) = suc (length xs)

abbrev pub HashMap {ℓ} : Type ℓ → Type ℓ → Type ℓ
HashMap K V = List (K × V)

module _ {ℓ} {K V : Type ℓ} ⦃e : Eq K⦄ where
  unfoldable pub get : K → HashMap K V → Option V
  get k [] = none
  get k ((j, v) ∷ m) = if j == k then some v else get k m

  unfoldable pub insert : K → V → HashMap K V → HashMap K V
  insert k v [] = (k, v) ∷ []
  insert k v ((j, w) ∷ m) = if j == k then (k, v) ∷ m else (j, w) ∷ insert k v m

  unfoldable pub remove : K → HashMap K V → HashMap K V
  remove k [] = []
  remove k ((j, w) ∷ m) = if j == k then m else (j, w) ∷ remove k m

  unfoldable pub retain : (V → Bool) → HashMap K V → HashMap K V
  retain keep [] = []
  retain keep ((j, w) ∷ m) = if keep w then (j, w) ∷ retain keep m else retain keep m

  abbrev pub IsMap : HashMap K V → Type ℓ
  IsMap [] = Unit
  IsMap ((k, v) ∷ m) = (get k m ≡ none) × IsMap m

  pub get-insert :
      (k j : K) (v : V) (m : HashMap K V)
      → get j (insert k v m) ≡ (if k == j then some v else get j m)
  unfolding get insert
  get-insert k j v [] = refl
  get-insert k j v ((i, w) ∷ m) =
      ground (arith, e.equal_iff k j, e.equal_iff i k, e.equal_iff i j, get-insert k j v m)

  pub get-insert_other :
      (k j : K) (v : V) (m : HashMap K V) → k ≢ j → get j (insert k v m) ≡ get j m
  get-insert_other k j v m differ = ground (arith, e.equal_iff k j, get-insert k j v m)

  pub get-insert_self : (k : K) (v : V) (m : HashMap K V) → get k (insert k v m) ≡ some v
  get-insert_self k v m = simp (get-insert, beq_refl)

  pub get-remove :
      (k j : K) (m : HashMap K V)
      → IsMap m
      → get j (remove k m) ≡ (if k == j then none else get j m)
  unfolding get remove
  get-remove k j [] h = ground arith
  get-remove k j ((i, w) ∷ m) h =
      ground (arith, e.equal_iff k j, e.equal_iff i k, e.equal_iff i j, get-remove k j m h.1)

  get-retain-none :
      (keep : V → Bool) (j : K) (m : HashMap K V) → get j m ≡ none → get j (retain keep m) ≡ none
  unfolding get retain
  get-retain-none keep j [] h = refl
  get-retain-none keep j ((i, w) ∷ m) h = ground (arith, get-retain-none keep j m)

  pub retain-IsMap : (keep : V → Bool) (m : HashMap K V) → IsMap m → IsMap (retain keep m)
  unfolding retain
  retain-IsMap keep [] h = tt
  retain-IsMap keep ((i, w) ∷ m) h =
      ground (arith, get-retain-none keep i m h.0, retain-IsMap keep m h.1)

  pub get-retain :
      (keep : V → Bool) (j : K) (m : HashMap K V)
      → IsMap m
      → get j (retain keep m)
        ≡ elim (get j m) [ none ↦ none | some v ↦ if keep v then some v else none ]
  unfolding get retain
  get-retain keep j [] h = refl
  get-retain keep j ((i, w) ∷ m) h =
      ground (arith, e.equal_iff i j, get-retain keep j m h.1, get-retain-none keep j m)

  pub insert-IsMap : (k : K) (v : V) (m : HashMap K V) → IsMap m → IsMap (insert k v m)
  unfolding insert get
  insert-IsMap k v [] h = (refl, tt)
  insert-IsMap k v ((i, w) ∷ m) h =
      ground (arith, e.equal_iff i k, e.equal_iff k i, get-insert k i v m, insert-IsMap k v m h.1)

  pub remove-IsMap : (k : K) (m : HashMap K V) → IsMap m → IsMap (remove k m)
  unfolding remove get
  remove-IsMap k [] h = tt
  remove-IsMap k ((i, w) ∷ m) h =
      ground (arith, e.equal_iff k i, get-remove k i m h.1, remove-IsMap k m h.1)

  pub length-retain-le : (keep : V → Bool) (m : HashMap K V) → length (retain keep m) ≤ length m
  unfolding retain
  length-retain-le keep [] = omega arith
  length-retain-le keep ((i, w) ∷ m) = ground (arith, length-retain-le keep m)

  pub length-remove-le : (k : K) (m : HashMap K V) → length (remove k m) ≤ length m
  unfolding remove
  length-remove-le k [] = omega arith
  length-remove-le k ((i, w) ∷ m) = ground (arith, length-remove-le k m)

  pub length-remove :
      (k : K) (v : V) (m : HashMap K V) → get k m ≡ some v → length (remove k m) + 1 ≡ length m
  unfolding remove get
  length-remove k v [] h = cc
  length-remove k v ((i, w) ∷ m) h = ground (arith, length-remove k v m)

  pub length-insert_new :
      (k : K) (v : V) (m : HashMap K V) → get k m ≡ none → length (insert k v m) ≡ length m + 1
  unfolding insert get
  length-insert_new k v [] h = refl
  length-insert_new k v ((i, w) ∷ m) h = ground (arith, length-insert_new k v m)

  pub length-insert_old :
      (k : K) (v w : V) (m : HashMap K V) → get k m ≡ some w → length (insert k v m) ≡ length m
  unfolding insert get
  length-insert_old k v w [] h = cc
  length-insert_old k v w ((i, u) ∷ m) h = ground (arith, length-insert_old k v w m)

  pub length-insert-le : (k : K) (v : V) (m : HashMap K V) → length (insert k v m) ≤ length m + 1
  unfolding insert
  length-insert-le k v [] = omega arith
  length-insert-le k v ((i, u) ∷ m) = ground (arith, length-insert-le k v m)
