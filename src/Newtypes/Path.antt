-- ===== src/Newtypes/Path.antt =====
-- safa-core/src/newtypes.rs: `WorkspacePath`. A path is absolute and is its list of components, from
-- the root on, as `std::path` reads it on Unix: `.` and empty components do not count, so that a trailing
-- `/`, with which `exists` asks for a directory, is not kept. What the file system says of a path is a
-- parameter.
pub mod Confined
use Prim.Native.String.{◌++◌}
use ama.Prelude.{
  ℕ, String, Bool, true, false, Option, none, some, List, [], ◌∷◌, ◌||◌, ◌&&◌, nat_beq,
  if◌then◌else◌, ◌==◌, string_eq, starts_with, contains_char, contains, split, is_empty,
}
use mathlib.Core.List.{◌++◌ as list_append}
use ama.Errors.{Result, ok, err, AmaError, validation, ◌>>=◌, ◌>>◌, fail_if}

abbrev pub FilePath : Type 0
FilePath = List String

-- The file system. The error of `canonicalize` is its text.
pub record FileSystem : Type 0 where
  pub exists : FilePath → Bool
  pub canonicalize : FilePath → Result String FilePath

abbrev keep_component : String → FilePath → FilePath
keep_component s ps = if is_empty s || s == "." then ps else s ∷ ps

normal_components : List String → FilePath
normal_components [] = []
normal_components (s ∷ ss) = keep_component s (normal_components ss)

-- `Path::components` of a relative text.
unfoldable pub components : String → FilePath
unfolding normal_components
components relative = normal_components (split (λ c. nat_beq c b'/') relative)

-- `Path::join`: an absolute text takes the place of the root.
unfoldable pub join : FilePath → String → FilePath
join root text =
    if starts_with text "/" then components text else list_append root (components text)

unfoldable pub parent : FilePath → Option FilePath
parent [] = none
parent (s ∷ []) = some []
parent (s ∷ t ∷ p) = elim (parent (t ∷ p)) [ none ↦ none | some q ↦ some (s ∷ q) ]

-- The last component, unless it is `..`.
unfoldable pub file_name : FilePath → Option String
file_name [] = none
file_name (s ∷ []) = if s == ".." then none else some s
file_name (s ∷ t ∷ p) = file_name (t ∷ p)

-- `Path::starts_with`, by whole components.
unfoldable pub path_starts_with : FilePath → FilePath → Bool
path_starts_with p [] = true
path_starts_with [] (t ∷ ts) = false
path_starts_with (s ∷ p) (t ∷ ts) = s == t && path_starts_with p ts

pub record WorkspacePath : Type 0 where
  pub canonical : FilePath
  pub relative : String

-- The loop over the segments between `/` and `\`.
unfoldable pub check_segments : String → List String → Result AmaError (Unit {0})
check_segments relative [] = ok tt
check_segments relative (segment ∷ segments) = do
  fail_if (segment == "..") (validation "invalid_target" "path traversal forbidden")
  fail_if (is_empty segment && contains relative "//")
      (validation "invalid_target" "ambiguous path segment")
  check_segments relative segments

abbrev is_separator : ℕ → Bool
is_separator c = nat_beq c b'/' || nat_beq c 0x5c

-- The checks of the text alone.
unfoldable pub check_relative : String → Result AmaError (Unit {0})
unfolding check_segments
check_relative relative = do
  fail_if (is_empty relative) (validation "invalid_target" "empty path")
  fail_if (starts_with relative "/" || (starts_with relative "\\" || contains_char b':' relative))
      (validation "invalid_target" "absolute paths forbidden")
  check_segments relative (split is_separator relative)

abbrev resolve_error : String → Result String FilePath → Result AmaError FilePath
resolve_error what (ok p) = ok p
resolve_error what (err e) = err (validation "invalid_target" (what ++ e))

-- The canonical form of a path: of itself if it exists, or of its parent with the file name put back.
unfoldable pub resolve : FileSystem → FilePath → Result AmaError FilePath
resolve fs joined =
    if fs.exists joined
    then resolve_error "cannot resolve path: " (fs.canonicalize joined)
    else elim (parent joined) [
      | none ↦ ok joined
      | some dir ↦
          if fs.exists dir
          then (do
            canon_parent ← resolve_error "cannot resolve parent: " (fs.canonicalize dir)
            elim (file_name joined) [
              | some name ↦ ok (list_append canon_parent (name ∷ []))
              | none ↦ err (validation "invalid_target" "path has no filename component")
            ])
          else ok joined
    ]

-- `workspace_root`, or the agent's directory below it.
unfoldable pub effective_root : FilePath → Option String → FilePath
unfolding join
effective_root workspace_root none = workspace_root
effective_root workspace_root (some aid) = join workspace_root aid

abbrev or_itself : FilePath → Result String FilePath → FilePath
or_itself p (ok q) = q
or_itself p (err e) = p

unfoldable pub canonical_root : FileSystem → FilePath → FilePath
canonical_root fs root = if fs.exists root then or_itself root (fs.canonicalize root) else root

-- The containment check.
unfoldable pub confine : FilePath → FilePath → String → Result AmaError WorkspacePath
unfolding path_starts_with
confine canonical root relative =
    if path_starts_with canonical root
    then ok (record { canonical = canonical; relative = relative })
    else err (validation "invalid_target" "path escapes workspace boundary (symlink detected)")

unfoldable pub new_with_agent :
    FileSystem → String → FilePath → Option String → Result AmaError WorkspacePath
unfolding canonical_root confine
new_with_agent fs relative workspace_root agent_id = do
  check_relative relative
  let root = effective_root workspace_root agent_id
  canonical ← resolve fs (join root relative)
  confine canonical (canonical_root fs root) relative

unfoldable pub new : FileSystem → String → FilePath → Result AmaError WorkspacePath
unfolding new_with_agent
new fs relative workspace_root = new_with_agent fs relative workspace_root none
