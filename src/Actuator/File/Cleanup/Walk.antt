-- ===== src/Actuator/File/Cleanup/Walk.antt =====
-- safa-core/src/actuator/file.rs: the walk finds exactly the files under a directory.
use mathlib.Core.Path.{subst}
use ama.Prelude.{
  ℕ, zero, suc, ◌≡◌, ◌↔◌, refl, sym, ◌⊎◌, inl, inr, String, true, false, none, some, List, [], ◌∷◌,
  ◌++◌, arith, Bool-cases,
}
use ama.Errors.{Result, ok, err, Result-cases}
use ama.Newtypes.Path.{FilePath}
use ama.Actuator.File.Cleanup.{Tree, Walk, followed_by, walk_entries, walkdir}

abbrev pub Among : FilePath → List FilePath → Type 0
Among p [] = ⊥
Among p (q ∷ qs) = (q ≡ p) ⊎ Among p qs

Among-append : (p : FilePath) (a b : List FilePath) → Among p (a ++ b) ↔ (Among p a ⊎ Among p b)
Among-append p [] b = (λ h. inr h, λ h. elim h [ inl never ↦ absurd never | inr h ↦ h ])
Among-append p (q ∷ a) b =
    let rest = Among-append p a b in
    (
      λ h. elim h [
        | inl here ↦ inl (inl here)
        | inr there ↦ elim (rest.0 there) [ inl x ↦ inl (inr x) | inr y ↦ inr y ]
      ],
      λ h. elim h [
        | inl (inl here) ↦ inl here
        | inl (inr x) ↦ inr (rest.1 (inl x))
        | inr y ↦ inr (rest.1 (inr y))
      ],
    )

-- The path is an entry of a directory.
abbrev pub Entry : FilePath → List (Result String FilePath) → Type 0
Entry p [] = ⊥
Entry p (err e ∷ entries) = Entry p entries
Entry p (ok q ∷ entries) = (q ≡ p) ⊎ Entry p entries

followed_by_ok :
    (w rest : Walk) (ps : List FilePath)
    → followed_by w rest ≡ some (ok ps)
    → (a : List FilePath) × (b : List FilePath) × (w ≡ some (ok a))
      × (rest ≡ some (ok b))
      × (ps ≡ a ++ b)
followed_by_ok none rest ps h = absurd (ground arith)
followed_by_ok (some (err e)) rest ps h = absurd (ground arith)
followed_by_ok (some (ok a)) none ps h = absurd (ground arith)
followed_by_ok (some (ok a)) (some (err e)) ps h = absurd (ground arith)
followed_by_ok (some (ok a)) (some (ok b)) ps h = (a, b, refl, refl, ground arith)

module _ {F : Type 0} (tree : Tree F) (f : F) where
  -- A file lies in a directory, or in one of its directories.
  pub data Under : FilePath → FilePath → Type 0 where
    file :
        (dir path : FilePath) (entries : List (Result String FilePath))
        → tree.is_dir f dir ≡ true
        → tree.read_dir f dir ≡ ok entries
        → Entry path entries
        → tree.is_dir f path ≡ false
        → Under dir path
    deeper :
        (dir sub path : FilePath) (entries : List (Result String FilePath))
        → tree.is_dir f dir ≡ true
        → tree.read_dir f dir ≡ ok entries
        → Entry sub entries
        → tree.is_dir f sub ≡ true
        → Under sub path
        → Under dir path

  -- A file is one of the entries, or lies in one of them.
  abbrev Found : FilePath → List (Result String FilePath) → Type 0
  Found p entries =
      (q : FilePath) × Entry q entries
      × (((tree.is_dir f q ≡ false) × (q ≡ p)) ⊎ ((tree.is_dir f q ≡ true) × Under q p))

  -- What a walk must find.
  abbrev Finds : (FilePath → Walk) → Type 0
  Finds recurse =
      (dir : FilePath) (ps : List FilePath)
      → recurse dir ≡ some (ok ps)
      → (p : FilePath) → Among p ps ↔ Under dir p

  Found-cons :
      (p path : FilePath) (entries : List (Result String FilePath))
      → Found p (ok path ∷ entries) ↔ (
          (((tree.is_dir f path ≡ false) × (path ≡ p))
            ⊎ ((tree.is_dir f path ≡ true) × Under path p))
          ⊎ Found p entries)
  Found-cons p path entries = (
    λ h. elim h.1 [
      | inl same ↦ inl (
          subst
            (λ q. ((tree.is_dir f q ≡ false) × (q ≡ p)) ⊎ ((tree.is_dir f q ≡ true) × Under q p))
            (sym same) h.2)
      | inr later ↦ inr (h.0, later, h.2)
    ],
    λ h. elim h [ inl here ↦ (path, inl refl, here) | inr w ↦ (w.0, inr w.1, w.2) ],
  )

  -- A walk of the first entry, then one of the rest.
  cons_iff :
      (first rest : Walk) (path p : FilePath) (entries : List (Result String FilePath))
      (ps : List FilePath)
      → followed_by first rest ≡ some (ok ps)
      → ((a : List FilePath)
          → first ≡ some (ok a)
          → Among p a ↔ (
              ((tree.is_dir f path ≡ false) × (path ≡ p))
              ⊎ ((tree.is_dir f path ≡ true) × Under path p)))
      → ((b : List FilePath) → rest ≡ some (ok b) → Among p b ↔ Found p entries)
      → Among p ps ↔ Found p (ok path ∷ entries)
  cons_iff first rest path p entries ps h here later =
      let (a, b, ha, hb, joined) = followed_by_ok first rest ps h in
      let parts = Among-append p a b in
      let own = here a ha in
      let others = later b hb in
      let found = Found-cons p path entries in
      rw joined (
        λ m. found.1 (elim (parts.0 m) [ inl x ↦ inl (own.0 x) | inr y ↦ inr (others.0 y) ]),
        λ w. parts.1 (elim (found.0 w) [ inl x ↦ inl (own.1 x) | inr y ↦ inr (others.1 y) ]),
      )

  walk_entries_iff :
      (recurse : FilePath → Walk) (entries : List (Result String FilePath)) (ps : List FilePath)
      → Finds recurse
      → walk_entries tree f recurse entries ≡ some (ok ps)
      → (p : FilePath) → Among p ps ↔ Found p entries
  unfolding walk_entries
  walk_entries_iff recurse [] ps finds h p =
      let empty : ps ≡ [] = ground arith in rw empty (λ never. absurd never, λ w. absurd w.1)
  walk_entries_iff recurse (err e ∷ entries) ps finds h p = absurd (ground arith)
  walk_entries_iff recurse (ok path ∷ entries) ps finds h p =
      let rest = walk_entries tree f recurse entries in
      let later : (b : List FilePath) → rest ≡ some (ok b) → Among p b ↔ Found p entries =
        λ b hb. walk_entries_iff recurse entries b finds hb p in
      elim (Bool-cases (tree.is_dir f path)) [
        | inl is_dir ↦
            cons_iff (recurse path) rest path p entries ps (ground arith)
              (λ a ha. (
                λ m. inr (is_dir, (finds path a ha p).0 m),
                λ w. elim w [
                  | inl (plain, same) ↦ absurd (ground arith)
                  | inr (dir, under) ↦ (finds path a ha p).1 under
                ],
              ))
              later
        | inr plain ↦
            cons_iff (some (ok (path ∷ []))) rest path p entries ps (ground arith)
              (λ a ha.
                let single : a ≡ path ∷ [] = ground arith in
                rw single (
                  λ m. elim m [ inl same ↦ inl (plain, same) | inr never ↦ absurd never ],
                  λ w. elim w [
                    | inl (stands, same) ↦ inl same
                    | inr (dir, under) ↦ absurd (ground arith)
                  ],
                ))
              later
      ]

  -- A walk that succeeds finds exactly the files that lie under the directory.
  pub walkdir_iff : (fuel : ℕ) → Finds (walkdir tree f fuel)
  unfolding walkdir
  walkdir_iff zero dir ps h p = absurd (ground arith)
  walkdir_iff (suc fuel) dir ps h p = elim (Bool-cases (tree.is_dir f dir)) [
    | inl is_dir ↦ elim (Result-cases (tree.read_dir f dir)) [
      | inl (e, failed) ↦ absurd (ground arith)
      | inr (entries, listed) ↦
          let walk : walk_entries tree f (walkdir tree f fuel) entries ≡ some (ok ps) =
            ground arith in
          let found = walk_entries_iff (walkdir tree f fuel) entries ps (walkdir_iff fuel) walk p in
          (
            λ m. found-Under dir p entries is_dir listed (found.0 m),
            λ under. found.1 (Under-found dir p entries listed under),
          )
    ]
    | inr plain ↦
        let empty : ps ≡ [] = ground arith in
        rw empty (λ never. absurd never, λ under. absurd (Under-plain dir p plain under))
  ]
    where
      found-Under :
          (dir p : FilePath) (entries : List (Result String FilePath))
          → tree.is_dir f dir ≡ true
          → tree.read_dir f dir ≡ ok entries
          → Found p entries
          → Under dir p
      found-Under dir p entries is_dir listed (q, entry, inl (plain, same)) =
          file dir p entries is_dir listed (subst (λ x. Entry x entries) same entry)
            (ground (arith, plain, same))
      found-Under dir p entries is_dir listed (q, entry, inr (sub, under)) =
          deeper dir q p entries is_dir listed entry sub under

      Under-found :
          (dir p : FilePath) (entries : List (Result String FilePath))
          → tree.read_dir f dir ≡ ok entries
          → Under dir p
          → Found p entries
      Under-found dir p entries listed (file _ _ others is_dir read entry plain) =
          let same : others ≡ entries = ground arith in
          (p, subst (λ x. Entry p x) same entry, inl (plain, refl))
      Under-found dir p entries listed (deeper _ sub _ others is_dir read entry inner under) =
          let same : others ≡ entries = ground arith in
          (sub, subst (λ x. Entry sub x) same entry, inr (inner, under))

      Under-plain : (dir p : FilePath) → tree.is_dir f dir ≡ false → Under dir p → ⊥
      Under-plain dir p plain (file _ _ others is_dir read entry plain_) = ground arith
      Under-plain dir p plain (deeper _ sub _ others is_dir read entry inner under) = ground arith
