-- ===== src/Manifest/Order.antt =====
-- safa-core/src/manifest.rs: the sorted map of a manifest is determined by its entries.
use text.Mathlib.TextEquality.{eq_iff, Char-path}
use ama.Prelude.{
  ◌≡◌, ◌≢◌, refl, ◌⊎◌, inl, inr, String, true, false, none, some, [], ◌∷◌, arith, get, ◌==◌,
  string_eq, if◌then◌else◌, Bool-cases, sym,
}
use ama.Manifest.{BTreeMap, before, insert_sorted}

before_irrefl : (s : String) → before s s ≡ false
unfolding before
before_irrefl String.[] = refl
before_irrefl (String.◌∷◌ c s) = ground (arith, before_irrefl s)

before_trans : (s t u : String) → before s t ≡ true → before t u ≡ true → before s u ≡ true
unfolding before
before_trans String.[] String.[] u h k = cc
before_trans s (String.◌∷◌ d t) String.[] h k = cc
before_trans String.[] (String.◌∷◌ d t) (String.◌∷◌ e u) h k = refl
before_trans (String.◌∷◌ c s) String.[] u h k = cc
before_trans (String.◌∷◌ c s) (String.◌∷◌ d t) (String.◌∷◌ e u) h k =
    ground (arith, before_trans s t u)

before_total : (s t : String) → (s ≡ t) ⊎ (before s t ≡ true) ⊎ (before t s ≡ true)
unfolding before
before_total String.[] String.[] = inl refl
before_total String.[] (String.◌∷◌ d t) = inr (inl refl)
before_total (String.◌∷◌ c s) String.[] = inr (inr refl)
before_total (String.◌∷◌ c s) (String.◌∷◌ d t) = ground (arith, before_total s t, Char-path c d)

module _ {V : Type 0} where
  -- The key stands before every key of the map.
  abbrev pub Below : String → BTreeMap V → Type 0
  Below k [] = Unit {0}
  Below k ((j, w) ∷ m) = (before k j ≡ true) × Below k m

  abbrev pub Sorted : BTreeMap V → Type 0
  Sorted [] = Unit {0}
  Sorted ((k, v) ∷ m) = Below k m × Sorted m

  Below-trans : (i k : String) (m : BTreeMap V) → before i k ≡ true → Below k m → Below i m
  Below-trans i k [] h b = tt
  Below-trans i k ((j, w) ∷ m) h b = (before_trans i k j h b.0, Below-trans i k m h b.1)

  Below-get : (k : String) (m : BTreeMap V) → Below k m → get k m ≡ none
  unfolding get
  Below-get k [] b = refl
  Below-get k ((j, w) ∷ m) b = ground (arith, Below-get k m b.1, before_irrefl k, eq_iff j k)

  insert-Below :
      (i k : String) (v : V) (m : BTreeMap V)
      → before i k ≡ true
      → Below i m
      → Below i (insert_sorted k v m)
  unfolding insert_sorted
  insert-Below i k v [] h b = (h, tt)
  insert-Below i k v ((j, w) ∷ m) h b = ground (arith, insert-Below i k v m h b.1)

  pub insert-Sorted :
      (k : String) (v : V) (m : BTreeMap V) → Sorted m → Sorted (insert_sorted k v m)
  unfolding insert_sorted
  insert-Sorted k v [] s = (tt, tt)
  insert-Sorted k v ((j, w) ∷ m) s = elim (Bool-cases (k == j)) [
    | inl same ↦ let e : k ≡ j = (eq_iff k j).0 same in rw same (rw e s.0, s.1)
    | inr other ↦ elim (Bool-cases (before k j)) [
      | inl first ↦ rw (other, first) ((first, Below-trans k j m first s.0), s)
      | inr later ↦
          let after : before j k ≡ true = ground (arith, before_total k j, eq_iff k j) in
          rw (other, later) (insert-Below j k v m after s.0, insert-Sorted k v m s.1)
    ]
  ]

  pub get-insert_sorted :
      (k j : String) (v : V) (m : BTreeMap V)
      → get j (insert_sorted k v m) ≡ (if k == j then some v else get j m)
  unfolding get insert_sorted
  get-insert_sorted k j v [] = refl
  get-insert_sorted k j v ((i, w) ∷ m) =
      ground (arith, eq_iff k j, eq_iff k i, eq_iff i j, get-insert_sorted k j v m)

  absent_first :
      (k j : String) (v w : V) (m n : BTreeMap V)
      → before k j ≡ true
      → Below j n
      → get k ((k, v) ∷ m) ≢ get k ((j, w) ∷ n)
  unfolding get
  absent_first k j v w m n h b e =
      ground (arith, Below-get k n (Below-trans k j n h b), before_irrefl k, eq_iff j k, eq_iff k k)

  -- Two sorted maps with the same entries are the same list.
  pub Sorted-unique :
      (m n : BTreeMap V) → Sorted m → Sorted n → ((k : String) → get k m ≡ get k n) → m ≡ n
  unfolding get
  Sorted-unique [] [] s t h = refl
  Sorted-unique [] ((j, w) ∷ n) s t h = absurd (ground (arith, h j, eq_iff j j))
  Sorted-unique ((k, v) ∷ m) [] s t h = absurd (ground (arith, h k, eq_iff k k))
  Sorted-unique ((k, v) ∷ m) ((j, w) ∷ n) s t h = elim (before_total k j) [
    | inr (inl first) ↦ absurd (absent_first k j v w m n first t.0 (h k))
    | inr (inr later) ↦ absurd (absent_first j k w v n m later s.0 (sym (h j)))
    | inl same ↦
        let value : v ≡ w = ground (arith, h k, eq_iff k k, eq_iff j k) in
        let rest = Sorted-unique m n s.1 t.1 (λ i.
          ground (arith, h i, eq_iff k i, eq_iff j i, Below-get k m s.0, Below-get j n t.0)) in
        cc
  ]
