-- ===== src/Tests/Cleanup.antt =====
-- safa-core/src/actuator/file.rs: a clean-up of a directory with a directory in it.
use mathlib.Core.Path.{subst}
use ama.Prelude.{
  ℕ, ◌<◌, ◌≡◌, refl, sym, ◌∙◌, ◌⊎◌, inl, inr, String, true, none, some, List, [], ◌∷◌, arith,
  if◌then◌else◌, ◌||◌, contains, ends_with, Bool-cases, string_eq,
}
use ama.Errors.{Result, ok, err}
use ama.Newtypes.Path.{FilePath, file_name}
use ama.Actuator.File.Cleanup.{Tree, walkdir, is_temp, cleanup_orphan_temps}
use ama.Actuator.File.Cleanup.Walk.{Entry}
use ama.Actuator.File.Cleanup.Ends.{Ranked}
use ama.Actuator.File.Cleanup.Cleaned.{Cleaned, cleanup_orphan_temps-Cleaned}
use ama.Tests.Files.{Store, same_path, disk}

-- A file that a write has left, one of the same kind in the directory of an agent, and one to keep.
abbrev store : Store
store q =
    if same_path q ("w" ∷ "a.ama.1.tmp" ∷ []) || same_path q ("w" ∷ "ann" ∷ "b.ama.2.tmp" ∷ [])
    then some "half"
    else if same_path q ("w" ∷ "a" ∷ [])
    then some "text"
    else none

abbrev listed : FilePath → List (Result String FilePath)
listed p =
    if same_path p ("w" ∷ [])
    then ok ("w" ∷ "a" ∷ []) ∷ ok ("w" ∷ "ann" ∷ []) ∷ ok ("w" ∷ "a.ama.1.tmp" ∷ []) ∷ []
    else ok ("w" ∷ "ann" ∷ "b.ama.2.tmp" ∷ []) ∷ []

abbrev tree : Tree Store
tree = record {
  is_dir = λ f p. same_path p ("w" ∷ []) || same_path p ("w" ∷ "ann" ∷ []);
  read_dir = λ f p. ok (listed p);
}

abbrev rank : FilePath → ℕ
rank p = if same_path p ("w" ∷ []) then 1 else 0

ranked : Ranked tree store rank
ranked dir sub entries read entry inner =
    let same : entries ≡ listed dir = ground arith in
    elim (Bool-cases (same_path dir ("w" ∷ []))) [
      | inl top ↦
          let root_entries : listed dir ≡ listed ("w" ∷ []) = rw top refl in
          rw top (ranked_root sub (subst (λ es. Entry sub es) (same ∙ root_entries) entry) inner)
      | inr below ↦
          let other_entries : listed dir ≡ listed ("w" ∷ "ann" ∷ []) = rw below refl in
          absurd (ranked_other sub (subst (λ es. Entry sub es) (same ∙ other_entries) entry) inner)
    ]
  where
    ranked_root :
        (sub : FilePath)
        → Entry sub (listed ("w" ∷ []))
        → tree.is_dir store sub ≡ true
        → rank sub < 1
    ranked_root sub (inl a) inner = absurd (ground (arith, a, inner))
    ranked_root sub (inr (inl ann)) inner = rw (sym ann) (omega arith)
    ranked_root sub (inr (inr (inl temp))) inner = absurd (ground (arith, temp, inner))
    ranked_root sub (inr (inr (inr never))) inner = absurd never

    ranked_other :
        (sub : FilePath) → Entry sub (listed ("w" ∷ "ann" ∷ [])) → tree.is_dir store sub ≡ true → ⊥
    ranked_other sub (inl temp) inner = ground (arith, temp, inner)
    ranked_other sub (inr never) inner = never

cleanup_orphan_temps-Cleaned_example :
    (out : ℕ × Store) × (cleanup_orphan_temps disk tree 2 ("w" ∷ []) store ≡ some out)
    × (Cleaned disk tree ("w" ∷ []) store out
        ⊎ ((e : String) × (walkdir tree store 2 ("w" ∷ []) ≡ some (err e)) × (out ≡ (0, store))))
cleanup_orphan_temps-Cleaned_example =
    cleanup_orphan_temps-Cleaned disk tree rank 2 ("w" ∷ []) store ranked (omega arith)

counted : (out : Store) × (cleanup_orphan_temps disk tree 2 ("w" ∷ []) store ≡ some (2, out))
unfolding cleanup_orphan_temps is_temp file_name contains ends_with
counted = (_, refl)
