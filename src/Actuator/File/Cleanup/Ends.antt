-- ===== src/Actuator/File/Cleanup/Ends.antt =====
-- safa-core/src/actuator/file.rs: the walk ends if links form no cycle.
use ama.Prelude.{
  ℕ, zero, suc, ◌<◌, ◌≡◌, refl, inl, inr, String, true, some, List, [], ◌∷◌, ◌++◌, arith,
  Bool-cases,
}
use ama.Errors.{Result, ok, err, Result-cases}
use ama.Newtypes.Path.{FilePath}
use ama.Actuator.File.Cleanup.{Tree, Walk, followed_by, walk_entries, walkdir}
use ama.Actuator.File.Cleanup.Walk.{Entry}

module _ {F : Type 0} (tree : Tree F) (f : F) where
  -- The directories have a rank that is smaller inside: there is no cycle that `is_dir` follows for ever.
  abbrev pub Ranked : (FilePath → ℕ) → Type 0
  Ranked rank =
      (dir sub : FilePath) (entries : List (Result String FilePath))
      → tree.read_dir f dir ≡ ok entries
      → Entry sub entries
      → tree.is_dir f sub ≡ true
      → rank sub < rank dir

  abbrev pub Ends : Walk → Type 0
  Ends w = (result : Result String (List FilePath)) × (w ≡ some result)

  followed_by-Ends : (w rest : Walk) → Ends w → Ends rest → Ends (followed_by w rest)
  followed_by-Ends w rest (err e, h) ends = rw h (err e, refl)
  followed_by-Ends w rest (ok paths, h) (err e, k) = rw (h, k) (err e, refl)
  followed_by-Ends w rest (ok paths, h) (ok more, k) = rw (h, k) (ok (paths ++ more), refl)

  walk_entries-Ends :
      (recurse : FilePath → Walk) (entries : List (Result String FilePath))
      → ((sub : FilePath) → Entry sub entries → tree.is_dir f sub ≡ true → Ends (recurse sub))
      → Ends (walk_entries tree f recurse entries)
  unfolding walk_entries
  walk_entries-Ends recurse [] inside = (ok [], refl)
  walk_entries-Ends recurse (err e ∷ entries) inside = (err e, refl)
  walk_entries-Ends recurse (ok path ∷ entries) inside =
      let rest = walk_entries tree f recurse entries in
      let ends =
        walk_entries-Ends recurse entries (λ sub entry is_dir. inside sub (inr entry) is_dir) in
      elim (Bool-cases (tree.is_dir f path)) [
        | inl is_dir ↦
            rw (is_dir, walk_entries)
              (followed_by-Ends (recurse path) rest (inside path (inl refl) is_dir) ends)
        | inr plain ↦
            rw (plain, walk_entries)
              (followed_by-Ends (some (ok (path ∷ []))) rest (ok (path ∷ []), refl) ends)
      ]

  -- Fuel beyond the rank of the directory is enough.
  pub walkdir-Ends :
      (rank : FilePath → ℕ) (fuel : ℕ) (dir : FilePath)
      → Ranked rank
      → rank dir < fuel
      → Ends (walkdir tree f fuel dir)
  unfolding walkdir
  walkdir-Ends rank zero dir ranked enough = absurd (omega (arith, enough))
  walkdir-Ends rank (suc fuel) dir ranked enough = elim (Bool-cases (tree.is_dir f dir)) [
    | inl is_dir ↦ elim (Result-cases (tree.read_dir f dir)) [
      | inl (e, failed) ↦ rw (is_dir, failed, walkdir) (err e, refl)
      | inr (entries, listed) ↦
          rw (is_dir, listed, walkdir)
            (walk_entries-Ends (walkdir tree f fuel) entries (λ sub entry inner.
              walkdir-Ends rank fuel sub ranked
                (omega (arith, enough, ranked dir sub entries listed entry inner))))
    ]
    | inr plain ↦ rw (plain, walkdir) (ok [], refl)
  ]
