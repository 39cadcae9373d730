-- ===== src/Actuator/File.antt =====
-- safa-core/src/actuator/file.rs: the file actuators. The file system is a parameter; a path is the list
-- of its components from the root on.
pub mod Atomic
pub mod Bounded
pub mod Cleanup
use Prim.Native.String.{◌++◌, len}
use mathlib.Core.List.{◌++◌ as list_append}
use ama.Prelude.{
  ℕ, String, Bool, true, false, Option, none, some, List, [], ◌∷◌, not, ltb, if◌then◌else◌,
}
use ama.Errors.{
  Result, ok, err, AmaError, validation, service_unavailable, ◌>>=◌, ◌>>◌, ok_or, fail_if, map_err,
}
use ama.Newtypes.{BoundedBytes}
use ama.Newtypes.Path.{FilePath, WorkspacePath, parent, file_name}

pub record FileWriteResult : Type 0 where
  pub bytes_written : ℕ

pub record FileReadResult : Type 0 where
  pub content : String
  pub bytes_returned : ℕ
  pub total_bytes : ℕ
  pub truncated : Bool

pub record Metadata : Type 0 where
  pub is_file : Bool
  pub is_symlink : Bool
  pub len : ℕ

-- What the code calls of `std::fs`. An error is its text. `read_exact` reads from an opened file.
pub record Disk (F : Type 0) : Type 0 where
  pub exists : F → FilePath → Bool
  pub symlink_metadata : F → FilePath → Result String Metadata
  pub create_dir_all : FilePath → F → Result String (Unit {0}) × F
  pub set_permissions : FilePath → ℕ → F → Result String (Unit {0}) × F
  pub write : FilePath → String → F → Result String (Unit {0}) × F
  pub remove_file : FilePath → F → Result String (Unit {0}) × F
  pub rename : FilePath → FilePath → F → Result String (Unit {0}) × F
  pub open_file : F → FilePath → Result String (Unit {0})
  pub read_exact : F → FilePath → ℕ → Result String (List ℕ)
  pub from_utf8 : List ℕ → Option String
  pub display : FilePath → String

-- `Path::with_file_name`
unfoldable pub with_file_name : FilePath → String → FilePath
with_file_name path name = elim (file_name path) [
  | none ↦ list_append path (name ∷ [])
  | some old ↦ elim (parent path) [ none ↦ name ∷ [] | some dir ↦ list_append dir (name ∷ []) ]
]

abbrev pub name_or_empty : Option String → String
name_or_empty none = ""
name_or_empty (some name) = name

unfoldable pub tmp_name : FilePath → String → String
tmp_name target action_id = name_or_empty (file_name target) ++ (".ama." ++ (action_id ++ ".tmp"))

abbrev pub min : ℕ → ℕ → ℕ
min a b = if ltb b a then b else a

module _ {F : Type 0} (disk : Disk F) where
  -- The loop over the components, with the path so far.
  unfoldable pub check_components : F → FilePath → FilePath → Result AmaError (Unit {0})
  check_components f prefix [] = ok tt
  check_components f prefix (component ∷ components) =
      let check = list_append prefix (component ∷ []) in
      let rest = check_components f check components in
      if disk.exists f check
      then (do
        meta ←
            map_err
              (λ e. service_unavailable ("lstat failed on " ++ (disk.display check ++ (": " ++ e))))
              (disk.symlink_metadata f check)
        fail_if meta.is_symlink
            (validation "invalid_target" ("symlink in path: " ++ disk.display check))
        rest)
      else rest

  unfoldable pub verify_no_symlinks : F → FilePath → Result AmaError (Unit {0})
  unfolding check_components
  verify_no_symlinks f path = check_components f [] path

  unfoldable pub check_regular : F → FilePath → Result AmaError (Unit {0})
  check_regular f target =
      if disk.exists f target
      then (do
        meta ←
            map_err (λ e. service_unavailable ("cannot stat target: " ++ e))
              (disk.symlink_metadata f target)
        fail_if (not meta.is_file) (validation "invalid_target" "target is not a regular file"))
      else ok tt

  -- What is checked before a write.
  unfoldable pub check_target : F → FilePath → Result AmaError (Unit {0})
  unfolding verify_no_symlinks check_regular
  check_target f target = do verify_no_symlinks f target; check_regular f target

  unfoldable pub make_parent : FilePath → F → Result AmaError (Unit {0}) × F
  make_parent target f = elim (parent target) [
    | none ↦ (ok tt, f)
    | some dir ↦
        if disk.exists f dir
        then (ok tt, f)
        else let (made, f1) = disk.create_dir_all dir f in
          elim made [
            | err e ↦ (err (service_unavailable ("cannot create directories: " ++ e)), f1)
            | ok u ↦
                let (permitted, f2) = disk.set_permissions dir 0o755 f1 in
                (
                  map_err (λ e. service_unavailable ("cannot set dir permissions: " ++ e))
                      permitted,
                  f2,
                )
          ]
  ]

  -- The temporary file, and its renaming.
  unfoldable pub replace : FilePath → FilePath → String → F → Result AmaError FileWriteResult × F
  replace tmp_path target text f =
      let (written, f1) = disk.write tmp_path text f in
      elim written [
        | err e ↦
            (err (service_unavailable ("write failed: " ++ e)), (disk.remove_file tmp_path f1).1)
        | ok u ↦
            let f2 = (disk.set_permissions tmp_path 0o644 f1).1 in
            let (renamed, f3) = disk.rename tmp_path target f2 in
            elim renamed [
              | err e ↦ (
                err (service_unavailable ("atomic rename failed: " ++ e)),
                (disk.remove_file tmp_path f3).1,
              )
              | ok v ↦ (ok (record { bytes_written = len text }), f3)
            ]
      ]

  unfoldable pub file_write :
      WorkspacePath → BoundedBytes → String → F → Result AmaError FileWriteResult × F
  unfolding check_target make_parent replace with_file_name tmp_name
  file_write path content action_id f =
      let target = path.canonical in
      elim (check_target f target) [
        | err e ↦ (err e, f)
        | ok u ↦
            let (made, f1) = make_parent target f in
            elim made [
              | err e ↦ (err e, f1)
              | ok v ↦
                  replace (with_file_name target (tmp_name target action_id)) target content.text f1
            ]
      ]

  unfoldable pub file_read : WorkspacePath → ℕ → F → Result AmaError FileReadResult
  unfolding verify_no_symlinks
  file_read path max_bytes f = do
    verify_no_symlinks f path.canonical
    fail_if (not (disk.exists f path.canonical)) (service_unavailable "file does not exist")
    meta ←
        map_err (λ e. service_unavailable ("cannot stat: " ++ e))
          (disk.symlink_metadata f path.canonical)
    fail_if (not meta.is_file) (validation "invalid_target" "not a regular file")
    map_err (λ e. service_unavailable ("cannot open: " ++ e)) (disk.open_file f path.canonical)
    buf ←
        map_err (λ e. service_unavailable ("read error: " ++ e))
          (disk.read_exact f path.canonical (min meta.len max_bytes))
    content ←
        ok_or (disk.from_utf8 buf)
          (validation "encoding_error" "file content is not valid UTF-8 (P0 is text-only)")
    ok (record {
      content = content;
      bytes_returned = len content;
      total_bytes = meta.len;
      truncated = ltb max_bytes meta.len;
    })
