-- ===== src/Actuator/File/Cleanup.antt =====
-- safa-core/src/actuator/file.rs: `cleanup_orphan_temps`, which runs once at the start, and `walkdir`.
-- A walk that has not ended within its fuel is `none`.
pub mod Walk
pub mod Ends
pub mod Temp
pub mod Cleaned
use mathlib.Core.List.{◌++◌ as list_append}
use ama.Prelude.{
  ℕ, zero, suc, ◌+◌, String, Bool, true, false, Option, none, some, List, [], ◌∷◌, ◌&&◌, contains,
  ends_with, if◌then◌else◌,
}
use ama.Errors.{Result, ok, err}
use ama.Newtypes.Path.{FilePath, file_name}
use ama.Actuator.File.{Disk}

-- What the walk calls of `std::fs`. `is_dir` follows symbolic links. An entry is the path in the
-- directory, or the error that reading it gave.
pub record Tree (F : Type 0) : Type 0 where
  pub is_dir : F → FilePath → Bool
  pub read_dir : F → FilePath → Result String (List (Result String FilePath))

abbrev pub Walk : Type 0
Walk = Option (Result String (List FilePath))

-- Puts paths before those of the rest.
abbrev pub extend : List FilePath → Walk → Walk
extend paths none = none
extend paths (some (err e)) = some (err e)
extend paths (some (ok more)) = some (ok (list_append paths more))

abbrev pub followed_by : Walk → Walk → Walk
followed_by none rest = none
followed_by (some (err e)) rest = some (err e)
followed_by (some (ok paths)) rest = extend paths rest

module _ {F : Type 0} (tree : Tree F) (f : F) where
  -- The loop over the entries of a directory.
  unfoldable pub walk_entries : (FilePath → Walk) → List (Result String FilePath) → Walk
  walk_entries recurse [] = some (ok [])
  walk_entries recurse (err e ∷ entries) = some (err e)
  walk_entries recurse (ok path ∷ entries) =
      let rest = walk_entries recurse entries in
      if tree.is_dir f path then followed_by (recurse path) rest else extend (path ∷ []) rest

  unfoldable pub walkdir : ℕ → FilePath → Walk
  unfolding walk_entries
  walkdir zero dir = none
  walkdir (suc fuel) dir =
      if tree.is_dir f dir
      then elim (tree.read_dir f dir) [
        | err e ↦ some (err e)
        | ok entries ↦ walk_entries (walkdir fuel) entries
      ]
      else some (ok [])

-- The test of the name of a file.
unfoldable pub is_temp : FilePath → Bool
is_temp path = elim (file_name path) [
  | none ↦ false
  | some name ↦ contains name ".ama." && ends_with name ".tmp"
]

abbrev pub succeeded : Result String (Unit {0}) → ℕ
succeeded (err e) = 0
succeeded (ok u) = 1

module _ {F : Type 0} (disk : Disk F) where
  -- The loop over the paths, with the count so far.
  unfoldable pub remove_temps : List FilePath → ℕ → F → ℕ × F
  remove_temps [] cleaned f = (cleaned, f)
  remove_temps (path ∷ paths) cleaned f = elim (is_temp path) [
    | false ↦ remove_temps paths cleaned f
    | true ↦
        let (removed, f1) = disk.remove_file path f in
        remove_temps paths (cleaned + succeeded removed) f1
  ]

  unfoldable pub cleanup_orphan_temps : Tree F → ℕ → FilePath → F → Option (ℕ × F)
  unfolding walkdir remove_temps
  cleanup_orphan_temps tree fuel workspace_root f = elim (walkdir tree f fuel workspace_root) [
    | none ↦ none
    | some (err e) ↦ some (0, f)
    | some (ok paths) ↦ some (remove_temps paths 0 f)
  ]
